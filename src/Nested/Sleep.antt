-- ===== src/Nested/Sleep.antt =====
-- `main` of src/signals-nested.cpp: a timer raises SIGALRM while `main` sleeps, and the handlers run what
-- `gencode` wrote. Libc's atol, the kernel's timer and the processor are parameters.
use Prim.Native.String.{String}
use fex_assorted_tests_bins.Prelude.{
  ℤ, pos, ℕ, suc, Bool, Option, none, some, List, [], ◌∷◌, ◌++◌, ◌==◌, if◌then◌else◌,
}
use fex_assorted_tests_bins.Nested.{Memory, code_size, block_nested, gencode}
use fex_assorted_tests_bins.Nested.Cpu.{Regs, steps}
use fex_assorted_tests_bins.Nested.Handlers.{exits, tests, on_alarm}

-- What happens while `main` sleeps: the timer expires; the innermost call of the code, started with
-- these registers, has run for so many instructions; the second is over.
pub data Event : Type 0 where
  alarm : Event
  ran : (eax : ℕ) (zf : Bool) (j : ℕ) → Event
  wake : Event

-- "Count: %ld\n" and "Partial Count: %ld\n"
pub data Line : Type 0 where
  count_line partial_line : ℕ → Line

-- `sigcount`, the calls of `test` left in the open handlers with the innermost first, the lines
-- printed, and the status of `exit` or of the `return`.
pub record Run : Type 0 where
  pub sigcount : ℕ
  pub calls : List ℕ
  pub printed : List Line
  pub status : Option ℕ

abbrev pub initial_run : Run
initial_run = record { sigcount = 0; calls = []; printed = []; status = none }

-- `sighandler`
unfoldable pub sighandler : Run → Run
sighandler r = elim (on_alarm r.sigcount) [
  | exits n ↦ record r { sigcount = n; printed = r.printed ++ count_line n ∷ []; status = some 0 }
  | tests times n ↦ record r { sigcount = n; calls = times ∷ r.calls }
]

-- Behind `sleep`, which a handler ends that returns.
unfoldable pub slept : Run → Run
slept r = record r { printed = r.printed ++ partial_line r.sigcount ∷ []; status = some 1 }

-- The innermost call of `test` returns, and its handler does if it was the last one.
unfoldable pub test_returns : List ℕ → Run → Run
test_returns [] r = r
test_returns (suc (suc k) ∷ below) r = record r { calls = suc k ∷ below }
test_returns (n ∷ []) r = slept (record r { calls = [] })
test_returns (n ∷ c ∷ below) r = record r { calls = c ∷ below }

module _ (step : Memory → Regs → Regs) (mem : Memory) (armed : Bool) where
  -- The code stands at a `ret`.
  unfoldable pub at_ret : ℕ → Bool → ℕ → Bool
  at_ret eax zf j = mem (steps step j mem (record { pc = 0; eax = eax; zf = zf })).pc == 0xC3

  unfoldable pub live : Event → Run → Run
  live alarm r = if armed then sighandler r else r
  live (ran eax zf j) r = if at_ret eax zf j then test_returns r.calls r else r
  live wake r = elim r.calls [ [] ↦ slept r | c ∷ cs ↦ r ]

  -- `sleep(1)` and what follows; an ended program takes no event.
  unfoldable pub sleep : List Event → Run → Run
  sleep [] r = r
  sleep (e ∷ es) r = sleep es (elim r.status [ none ↦ live e r | some n ↦ r ])

-- The arguments, with `argv[0]` first: the timer's nanoseconds and seconds.
abbrev pub nanoseconds : (String → ℤ) → List String → ℤ
nanoseconds atol (file ∷ a ∷ argv) = atol a
nanoseconds atol argv = pos 100000

abbrev pub seconds : (String → ℤ) → List String → ℤ
seconds atol (file ∷ a ∷ b ∷ argv) = atol b
seconds atol argv = pos 0

-- `main`, with whether the kernel arms the timer; `none` is a store outside of the mapping.
unfoldable pub main :
    (Memory → Regs → Regs)
    → (String → ℤ)
    → (ℤ → ℤ → Bool)
    → ℕ
    → List String
    → Memory
    → List Event
    → Option Run
main step atol timer_settime fuel argv file events =
    elim (gencode fuel code_size block_nested file) [
      | none ↦ none
      | some (i, mem) ↦ some (
          sleep step mem (timer_settime (seconds atol argv) (nanoseconds atol argv)) events
            initial_run)
    ]
