-- ===== src/Tests/Smc.antt =====
-- Runs of src/smc*.cpp on the machine of Tests.Machine.
use fex_assorted_tests_bins.Prelude.{
  ℕ, ◌^◌, true, false, some, ◌≡◌, ◌≢◌, ◌↔◌, refl, arith, inl, ◌∙◌, ap, ◌-◌,
}
use Prim.Native.Nat.{compare, Ordering}
use fex_assorted_tests_bins.Smc.Machine.{View}
use fex_assorted_tests_bins.Smc.Action.{Runs}
use fex_assorted_tests_bins.Smc.Stub.{Values, expected, four_calls, four_view}
use fex_assorted_tests_bins.Smc.Report.{all_pass, report_four}
use fex_assorted_tests_bins.Smc.Programs.{Globals, test_set}
use fex_assorted_tests_bins.Smc.Verdicts.{
  IsCodePage, IsMirror, test_set_always_fails, Runs-test_set,
}
use fex_assorted_tests_bins.Smc.Whole.{smc_main, all_expected, tested, unmapped, Runs-smc_main}
use fex_assorted_tests_bins.Tests.Machine.{flat, flat-IsCoherent}

-- Every address maps its own byte.
abbrev pub plain : View
plain = record {
  phys = λ a. some a;
  byte = λ q. 0;
  writable = λ a. true;
  executable = λ a. true;
  shared = λ q. true;
}

-- The addresses from 8192 on show the bytes from 4096 on once more.
abbrev doubled : View
doubled = record plain {
  phys = λ a. elim (compare a 8192) [ Ordering.lt ↦ some a | _ ↦ some (a - 4096) ];
}

plain_page : IsCodePage plain 4096 4096
plain_page = record { aligned = refl; page = λ i h. refl; writes = λ i h. refl; runs = λ i h. refl }

doubled-IsMirror : IsMirror doubled 4096 8192 4096
doubled-IsMirror = record {
  window = λ i h. ground arith;
  writes = λ i h. refl;
  run_window = λ i h. ground arith;
  runs = λ i h. refl;
}

test_set_run :
    test_set flat 4096 "mmap" plain
    ≡ some ((14, report_four "mmap" expected), four_view plain 4096 4096)
test_set_run =
    let (t, e, h) = Runs-test_set flat flat-IsCoherent 4096 4096 "mmap" refl plain_page in
    e ∙ ap (λ w. some ((14, report_four "mmap" expected), w)) h

test_set_always_fails_example :
    (v : Values) × (four_calls flat 4096 plain ≡ some (v, four_view plain 4096 4096))
    × (◌≢◌ {A = ℕ} 14 0)
    × ((all_pass (report_four "mmap" expected) ≡ true) ↔ (v ≡ expected))
test_set_always_fails_example =
    test_set_always_fails flat 4096 "mmap" plain (four_view plain 4096 4096)
      (14, report_four "mmap" expected) test_set_run

abbrev globals : Globals
globals = record { failed = false; count = 2 ^ 64 - 3 }

abbrev private_copy : View
private_copy = record doubled { shared = λ q. false }

private-IsMirror : IsMirror private_copy 4096 8192 4096
private-IsMirror = record {
  window = doubled-IsMirror.window;
  writes = λ i h. refl;
  run_window = doubled-IsMirror.run_window;
  runs = λ i h. refl;
}

Runs-smc_main_example :
    Runs flat
      (smc_main flat 4096 10000 20000 30000 plain)
      (0, all_expected)
      (tested
        (tested (tested (unmapped (four_view plain 4096 4096) 4096) 12288 12288) 20480 20480)
        32768
        32768)
Runs-smc_main_example =
    Runs-smc_main flat flat-IsCoherent 4096 10000 20000 30000 4096 12288 20480 32768
      (λ a s aligned. refl) refl plain_page (λ i h. refl) (λ i h. refl) (λ i h. refl)
      (inl (omega arith)) (inl (omega arith)) (inl (omega arith))
