-- ===== src/Tests/Context.antt =====
-- Runs of src/signals/context-demo.c: the stacks lie one behind the other, the signal stack first.
use fex_assorted_tests_bins.Prelude.{
  ℕ, ◌+◌, ◌*◌, ◌%◌, ◌≡◌, ◌⊎◌, inl, refl, List, [], ◌∷◌, some, true, arith,
}
use fex_assorted_tests_bins.Context.{State, thread, scheduling, used, timer_interrupt}
use fex_assorted_tests_bins.Context.Machine.{initial, Reach, here, next, tick}
use fex_assorted_tests_bins.Context.Invariant.{
  AreApart, IsSound, ended, late_tick_ends, Reach-IsSound,
}
use fex_assorted_tests_bins.Context.Rotation.{turns, turns-round_robin}
use fex_assorted_tests_bins.Context.Setup.{
  thread2, in_signal, Answers, main, starts, others, setup_lem,
}

abbrev stacks : ℕ → ℕ
stacks c = 8192 + c * 4096

stacks-AreApart : AreApart stacks 4096
stacks-AreApart = record {
  low = λ c h. omega arith;
  signal_low = omega arith;
  apart = λ c h. inl (omega arith);
}

-- The first context, struck in its thread.
abbrev struck : State
struck = timer_interrupt stacks 8292 initial

struck-Reach : Reach stacks 4096 initial struck
struck-Reach = next here (tick 8292 refl (omega arith, omega arith) refl)

Reach-IsSound_example : IsSound struck
Reach-IsSound_example = Reach-IsSound stacks 4096 stacks-AreApart struck-Reach

struck_scheduling : struck.point ≡ scheduling
unfolding timer_interrupt used
struck_scheduling = refl

late_tick_ends_example :
    (timer_interrupt stacks 4196 struck ≡ ended 254 struck)
    ⊎ (timer_interrupt stacks 4196 struck ≡ ended 255 struck)
late_tick_ends_example =
    late_tick_ends stacks 4096 stacks-AreApart struck 4196
      (Reach-IsSound stacks 4096 stacks-AreApart struck-Reach) (inl struck_scheduling)
      (omega arith, omega arith)

-- Twelve turns: each context once, and two of them once more.
abbrev addresses : List ℕ
addresses =
    8292 ∷ 12388 ∷ 16484 ∷ 20580 ∷ 24676 ∷ 28772 ∷ 32868 ∷ 36964 ∷ 41060 ∷ 45156 ∷ 8293 ∷ 12389 ∷ []

turns-round_robin_example :
    ((turns stacks addresses initial).point ≡ thread)
    × ((turns stacks addresses initial).curcontext ≡ 12 % 10)
    × ((turns stacks addresses initial).insig (12 % 10) ≡ 0)
turns-round_robin_example = turns-round_robin stacks 4096 stacks-AreApart addresses (omega arith)

abbrev answers : Answers
answers = record {
  malloc = λ n. some (4096 + n * 4096);
  sigemptyset = λ n. true;
  signal = true;
  setitimer = true;
}

setup_lem_example :
    main answers
    ≡ starts 4096
        (record { stack = 8192; entry = thread2 } ∷ others (λ n. 4096 + n * 4096) 9 1)
        (in_signal ∷ [])
        initial
setup_lem_example = setup_lem answers (λ n. 4096 + n * 4096) (λ j. refl) (λ j. refl)
