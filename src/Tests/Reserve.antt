-- ===== src/Tests/Reserve.antt =====
-- Runs of src/reserve-address-space.cpp.
use fex_assorted_tests_bins.Prelude.{ℕ, ◌-◌, ◌+◌, ◌≡◌, refl, arith, leb, if◌then◌else◌}
use fex_assorted_tests_bins.Reserve.{page_size, enomem, Kernel, mapped, failed, done, reserve_all}
use fex_assorted_tests_bins.Reserve.Complete.{IsMmap, Ends, reserve_all-Ends}

-- A kernel whose free bytes are one gap.
abbrev one_gap : Kernel
one_gap = record {
  State = ℕ;
  mmap = λ len free. if leb len free then mapped (free - len) else failed enomem free;
}

one_gap_takes :
    (len s t : ℕ)
    → (if leb len s then mapped (s - len) else failed enomem s) ≡ mapped t
    → t + len ≡ s
one_gap_takes len s t h = ground arith

one_gap_refuses :
    (len errno s t : ℕ)
    → (if leb len s then mapped (s - len) else failed enomem s) ≡ failed errno t
    → t ≡ s
one_gap_refuses len errno s t h = ground arith

abbrev one_gap-IsMmap : IsMmap one_gap
one_gap-IsMmap = record {
  free = λ s. s;
  takes = λ len s t whole. one_gap_takes len s t;
  refuses = one_gap_refuses;
}

-- Three pages and some bytes.
reserve_all_run : reserve_all one_gap 10 12345 ≡ done 12288 57
unfolding reserve_all
reserve_all_run = refl

reserve_all-Ends_example :
    Ends one_gap one_gap-IsMmap 12345 page_size (reserve_all one_gap 10 12345)
reserve_all-Ends_example =
    reserve_all-Ends one_gap one_gap-IsMmap 10 12345 (omega arith) (omega arith)
