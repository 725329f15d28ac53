-- ===== src/Context/Machine.antt =====
-- The runs of src/signals/context-demo.c behind its setup: when the timer may strike, and what goes on
-- by itself.
use fex_assorted_tests_bins.Prelude.{ℕ, ◌+◌, ◌<◌, ◌≡◌, ◌⊎◌}
use fex_assorted_tests_bins.Context.{
  thread, scheduling, advancing, switching, fresh, State, stack_size, timer_interrupt, next_context,
  point_to_current, set_context,
}

-- Where the handler's argument lies on a stack of `stack_size` bytes.
abbrev pub IsOn : ℕ → ℕ → Type 0
IsOn ss_sp j = (ss_sp < j) × (j < ss_sp + stack_size)

-- `main` at its setcontext to the first context.
abbrev pub initial : State
initial = record {
  curcontext = 0;
  cur_context = 0;
  insig = λ c. 0;
  contexts = λ c. fresh;
  point = thread;
}

-- The alarm is blocked in its handler, but neither in a thread nor in the scheduler: their masks are
-- empty.
pub data Step (ss_sp : ℕ → ℕ) (signal_stack : ℕ) (s t : State) : Type 0 where
  tick :
      (j : ℕ)
      → s.point ≡ thread
      → IsOn (ss_sp s.cur_context) j
      → t ≡ timer_interrupt ss_sp j s
      → Step ss_sp signal_stack s t
  late_tick :
      (j : ℕ)
      → (s.point ≡ scheduling) ⊎ (s.point ≡ advancing) ⊎ (s.point ≡ switching)
      → IsOn signal_stack j
      → t ≡ timer_interrupt ss_sp j s
      → Step ss_sp signal_stack s t
  advance : s.point ≡ scheduling → t ≡ next_context s → Step ss_sp signal_stack s t
  aim : s.point ≡ advancing → t ≡ point_to_current s → Step ss_sp signal_stack s t
  go : s.point ≡ switching → t ≡ set_context s → Step ss_sp signal_stack s t

pub data Reach (ss_sp : ℕ → ℕ) (signal_stack : ℕ) (s : State) : State → Type 0 where
  here : Reach ss_sp signal_stack s s
  next :
      {t u : State}
      → Reach ss_sp signal_stack s t
      → Step ss_sp signal_stack t u
      → Reach ss_sp signal_stack s u
