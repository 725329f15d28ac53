-- ===== src/Tests/Sender.antt =====
-- A run of src/smc-signals.cpp on the machine of Tests.Machine, whose mmap always gives one page.
use fex_assorted_tests_bins.Prelude.{
  refl, ℕ, ◌*◌, ◌%◌, ◌^◌, true, false, some, ◌≡◌, arith, if◌then◌else◌,
}
use fex_assorted_tests_bins.Smc.Machine.{View, within}
use fex_assorted_tests_bins.Smc.Verdicts.{IsCodePage}
use fex_assorted_tests_bins.Smc.Sender.{Counters, signals_main, signals_main_passes}
use fex_assorted_tests_bins.Tests.Machine.{flat, flat-IsCoherent}

abbrev with_page : View → View
with_page v = record v {
  phys = λ a. if within 4096 4096 a then some a else v.phys a;
  writable = λ a. if within 4096 4096 a then true else v.writable a;
  executable = λ a. if within 4096 4096 a then true else v.executable a;
}

abbrev one_page : View → ℕ × View
one_page v = (4096, with_page v)

with_page-IsCodePage : (v : View) → IsCodePage (with_page v) 4096 4096
with_page-IsCodePage v = record {
  aligned = refl;
  page = λ i h. ground arith;
  writes = λ i h. ground arith;
  runs = λ i h. ground arith;
}

abbrev nothing : View
nothing = record {
  phys = λ a. some a;
  byte = λ q. 0;
  writable = λ a. false;
  executable = λ a. false;
  shared = λ q. false;
}

signals_main_passes_example :
    (c : Counters) × (t : View) × (signals_main flat one_page 6000 nothing ≡ some ((0, c), t))
    × (c.globals.failed ≡ false)
    × (c.globals.count % 2 ^ 64 ≡ 6000 * 10 % 2 ^ 64)
    × (c.sigcount % 2 ^ 64 ≡ 6000 % 2 ^ 64)
signals_main_passes_example =
    signals_main_passes flat one_page flat-IsCoherent (λ v. (4096, with_page-IsCodePage v)) 6000
      nothing
