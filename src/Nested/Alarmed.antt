-- ===== src/Nested/Alarmed.antt =====
-- How `main` of src/signals-nested.cpp ends.
use Prim.Native.String.{String}
use fex_assorted_tests_bins.Prelude.{
  ℤ, ℕ, ◌+◌, ◌*◌, ◌<◌, ◌≡◌, refl, sym, ◌∙◌, ap, subst, Bool, true, false, none, some, List, [], ◌∷◌,
  ◌++◌, if◌then◌else◌,
}
use fex_assorted_tests_bins.Nested.{Memory, code_size}
use fex_assorted_tests_bins.Nested.Cpu.{Regs, IsX86}
use fex_assorted_tests_bins.Nested.Calls.{nested_no_ret}
use fex_assorted_tests_bins.Nested.Sleep.{
  Event, alarm, ran, wake, Line, partial_line, Run, initial_run, slept, test_returns, at_ret, live,
  sleep, nanoseconds, seconds, main,
}

-- How often the timer expires.
abbrev pub alarms_in : List Event → ℕ
alarms_in [] = 0
alarms_in (alarm ∷ es) = 1 + alarms_in es
alarms_in (e ∷ es) = alarms_in es

-- The program with an open handler.
abbrev open_run : ℕ → ℕ → List ℕ → Run
open_run c n below = record { sigcount = c; calls = n ∷ below; printed = []; status = none }

abbrev ended : ℕ → List ℕ → List Line → Run
ended status calls ls = record {
  sigcount = 1001;
  calls = calls;
  printed = ls;
  status = some status;
}

abbrev partial_run : Run
partial_run = record initial_run { printed = partial_line 0 ∷ []; status = some 1 }

-- The program has ended with this status and these lines.
pub record HasEnded (r : Run) (status : ℕ) (ls : List Line) : Type 0 where
  pub status_is : r.status ≡ some status
  pub printed_is : r.printed ≡ ls

no_call : (b : Bool) → (if b then test_returns [] initial_run else initial_run) ≡ initial_run
unfolding test_returns
no_call true = refl
no_call false = refl

module _ (step : Memory → Regs → Regs) (mem : Memory) where
  partial_ended :
      (armed : Bool) (es : List Event) → sleep step mem armed es partial_run ≡ partial_run
  unfolding sleep
  partial_ended armed [] = refl
  partial_ended armed (e ∷ es) = partial_ended armed es

  -- Without a timer nothing happens before the sleep is over.
  sleep_idle :
      (es es' : List Event) → sleep step mem false (es ++ wake ∷ es') initial_run ≡ partial_run
  unfolding sleep live slept test_returns
  sleep_idle [] es' = partial_ended false es'
  sleep_idle (alarm ∷ es) es' = sleep_idle es es'
  sleep_idle (ran eax zf j ∷ es) es' =
      ap (sleep step mem false (es ++ wake ∷ es')) (no_call (at_ret step mem false eax zf j))
      ∙ sleep_idle es es'
  sleep_idle (wake ∷ es) es' = partial_ended false (es ++ wake ∷ es')

  sleep_unarmed :
      (armed : Bool) (es es' : List Event)
      → armed ≡ false
      → sleep step mem armed (es ++ wake ∷ es') initial_run ≡ partial_run
  sleep_unarmed armed es es' h =
      subst (λ b. sleep step mem b (es ++ wake ∷ es') initial_run ≡ partial_run) (sym h)
        (sleep_idle es es')

module _ (step : Memory → Regs → Regs) (law : IsX86 step) (atol : String → ℤ)
    (timer_settime : ℤ → ℤ → Bool) where
  -- On a processor with the laws of the instructions used, with fuel for each block, where the
  -- kernel does not arm the timer for the arguments of src/signals-nested.cpp, main returns 1 when
  -- the sleep is over and has printed the partial count 0 and nothing else.
  pub main_unarmed :
      (fuel : ℕ) (argv : List String) (file : Memory) (es es' : List Event)
      → code_size < 12 * fuel
      → timer_settime (seconds atol argv) (nanoseconds atol argv) ≡ false
      → (r : Run) × (main step atol timer_settime fuel argv file (es ++ wake ∷ es') ≡ some r)
        × HasEnded r 1 (partial_line 0 ∷ [])
  unfolding main
  main_unarmed fuel argv file es es' enough idle =
      let (mem, e, never) = nested_no_ret step law fuel file enough in
      (
        partial_run,
        rw (e, main) (ap some (sleep_unarmed step mem _ es es' idle)),
        record { status_is = refl; printed_is = refl },
      )
