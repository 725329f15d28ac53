-- ===== src/Context.antt =====
-- src/signals/context-demo.c: ten contexts that a timer switches between, without SIGACTION,
-- LARGESTACK, EXTRASLEEP and BUGGYSETUP. What libc and the kernel do when a context is saved or set
-- is part of the two functions that call them.
pub mod Setup
pub mod Machine
pub mod Invariant
pub mod Rotation
use fex_assorted_tests_bins.Prelude.{ℕ, ◌+◌, ◌-◌, ◌%◌, ◌^◌, Bool, not, leb, ◌==◌, if◌then◌else◌}

-- `NUMCONTEXTS` and `STACKSIZE`
abbrev pub num_contexts : ℕ
num_contexts = 10

abbrev pub stack_size : ℕ
stack_size = 4096

-- What runs: the thread of the current context, or the scheduler before its two stores, between them
-- and behind them; or the process has ended with a status.
pub data Point : Type 0 where
  thread scheduling advancing switching : Point
  exited : ℕ → Point

-- What setcontext goes to: the start of the thread, or the line behind swapcontext of a handler
-- that then returns to a point.
pub data Saved : Type 0 where
  fresh : Saved
  in_handler : Point → Saved

-- `curcontext`, `cur_context` as an index, `insig`, `contexts`, and what runs.
pub record State : Type 0 where
  pub curcontext : ℕ
  pub cur_context : ℕ
  pub insig : ℕ → ℕ
  pub contexts : ℕ → Saved
  pub point : Point

abbrev pub update {ℓ} : {A : Type ℓ} → (ℕ → A) → ℕ → A → ℕ → A
update f i a j = if i == j then a else f j

-- `used`, as a `uintptr_t`: `j` is the address of the handler's argument.
unfoldable pub used : ℕ → ℕ → ℕ
used ss_sp j = (stack_size + 2 ^ 64 - (j + 2 ^ 64 - ss_sp) % 2 ^ 64) % 2 ^ 64

-- `timer_interrupt` up to the call of swapcontext, which saves what was interrupted and goes to
-- the scheduler. `ss_sp` are the stacks of the contexts.
unfoldable pub timer_interrupt : (ss_sp : ℕ → ℕ) → ℕ → State → State
timer_interrupt ss_sp j s =
    let t = record s { insig = update s.insig s.curcontext (s.insig s.curcontext + 1) } in
    if not (s.insig s.curcontext == 0)
    then record t { point = exited 254 }
    else if leb stack_size (used (ss_sp s.cur_context) j)
    then record t { point = exited 255 }
    else record t {
      contexts = update s.contexts s.cur_context (in_handler s.point);
      point = scheduling;
    }

-- The two stores of `scheduler` before its setcontext: the timer may strike between them.
unfoldable pub next_context : State → State
next_context s = record s { curcontext = (s.curcontext + 1) % num_contexts; point = advancing }

unfoldable pub point_to_current : State → State
point_to_current s = record s { cur_context = s.curcontext; point = switching }

-- `setcontext(cur_context)`, with what is left of the handler that was saved there.
unfoldable pub resume : Saved → State → State
resume fresh s = record s { point = thread }
resume (in_handler p) s = record s {
  insig = update s.insig s.curcontext (s.insig s.curcontext - 1);
  point = p;
}

unfoldable pub set_context : State → State
unfolding resume
set_context s = resume (s.contexts s.cur_context) s
