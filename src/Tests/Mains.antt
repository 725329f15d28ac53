-- ===== src/Tests/Mains.antt =====
-- Runs of the mains of src/smc-shared.cpp, src/smc-shared-2.cpp and src/smc-2.cpp on the machine of
-- Tests.Kernel, from a state where nothing is mapped.
use fex_assorted_tests_bins.Prelude.{
  ℕ, ◌<◌, true, false, Option, none, some, List, ◌≡◌, refl, ap, length,
}
use fex_assorted_tests_bins.Smc.Report.{Verdict, all_pass}
use fex_assorted_tests_bins.Smc.Mains.{shared_main, shared_2_main, remapped_main}
use fex_assorted_tests_bins.Smc.Mains.Passing.{shared_main-Passes, shared_2_main-Passes}
use fex_assorted_tests_bins.Smc.Mains.Remapped.{remapped_main-Passes}
use fex_assorted_tests_bins.Smc.Mapper.{IsForked}
use fex_assorted_tests_bins.Tests.Machine.{joined}
use fex_assorted_tests_bins.Tests.Kernel.{
  with_bytes, waited, State, paged, paged-IsCoherent, kernel, kernel-IsMapper,
}

nothing_below : (x q : ℕ) → ◌≡◌ {A = Option ℕ} none (some q) → x < 4096
nothing_below x q h = cc

abbrev empty : State
empty = record {
  view = record {
    phys = λ a. none;
    byte = λ q. 0;
    writable = λ a. false;
    executable = λ a. false;
    shared = λ q. true;
  };
  next = 4096;
  bound = nothing_below;
  aligned = refl;
  object = (0, 0);
}

-- A child starts in the state of its parent.
abbrev same_state : State → State
same_state s = s

same-IsForked : IsForked paged kernel kernel-IsMapper same_state
same-IsForked = record {
  view_law = λ s. refl;
  segment_law = λ shm s. refl;
  wait_law = λ child s d e. (with_bytes s (joined s.view d.view).byte, ap (waited s) e);
}

shared_main-Passes_example :
    (vs : List Verdict) × (t : State) × (shared_main paged kernel empty ≡ some (vs, t))
    × (all_pass vs ≡ true)
    × (length vs ≡ 18)
shared_main-Passes_example = shared_main-Passes paged kernel paged-IsCoherent kernel-IsMapper empty

shared_2_main-Passes_example :
    (vs : List Verdict) × (t : State) × (shared_2_main paged kernel same_state empty ≡ some (vs, t))
    × (all_pass vs ≡ true)
    × (length vs ≡ 14)
shared_2_main-Passes_example =
    shared_2_main-Passes paged kernel paged-IsCoherent kernel-IsMapper same_state same-IsForked
      empty

remapped_main-Passes_example :
    (vs : List Verdict) × (t : State) × (remapped_main paged kernel empty ≡ some (vs, t))
    × (all_pass vs ≡ true)
    × (length vs ≡ 12)
remapped_main-Passes_example =
    remapped_main-Passes paged kernel paged-IsCoherent kernel-IsMapper empty
