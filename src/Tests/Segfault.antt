-- ===== src/Tests/Segfault.antt =====
-- A kernel that meets the laws of src/segfault.cpp, and a run of its `main`.
use fex_assorted_tests_bins.Prelude.{
  ℕ, zero, suc, ◌+◌, ◌-◌, ◌/◌, ◌%◌, ◌^◌, ◌<◌, ◌≡◌, refl, Bool, true, false, some, [], ◌∷◌, ◌==◌,
  arith, if◌then◌else◌,
}
use fex_assorted_tests_bins.Smc.Machine.{within}
use fex_assorted_tests_bins.Segfault.{Attempt, stored, faults, Kernel, IsKernel, pages, sig, main}
use fex_assorted_tests_bins.Segfault.Retry.{main_recovers}

record Memory : Type 0 where
  byte : ℕ → ℕ
  writable : ℕ → Bool

abbrev written : ℕ → ℕ → Memory → Memory
written a v s = record s { byte = λ x. if within a 4 x then v / 256 ^ (x - a) % 256 else s.byte x }

abbrev attempt : ℕ → ℕ → Memory → Attempt Memory
attempt a v s =
    if s.writable (a + 0)
    then if s.writable (a + 1)
      then if s.writable (a + 2)
        then if s.writable (a + 3) then stored (written a v s) else faults (a + 3)
        else faults (a + 2)
      else faults (a + 1)
    else faults (a + 0)

abbrev small : Kernel
small = record {
  State = Memory;
  byte = λ s. s.byte;
  writable = λ s. s.writable;
  mmap =
      λ s. (8192, record s { writable = λ x. if within 8192 8192 x then true else s.writable x });
  mprotect = λ a w s.
      if a % 4096 == 0
      then record s { writable = λ x. if within a 4096 x then w else s.writable x }
      else s;
  store = attempt;
}

attempt_fault :
    (a v i : ℕ) (s : Memory)
    → i < 4
    → s.writable (a + i) ≡ false
    → ((j : ℕ) → j < i → s.writable (a + j) ≡ true)
    → attempt a v s ≡ faults (a + i)
attempt_fault a v zero s h f t = rw f refl
attempt_fault a v (suc zero) s h f t = rw (t 0 (omega arith), f) refl
attempt_fault a v (suc (suc zero)) s h f t = rw (t 0 (omega arith), t 1 (omega arith), f) refl
attempt_fault a v (suc (suc (suc zero))) s h f t =
    rw (t 0 (omega arith), t 1 (omega arith), t 2 (omega arith), f) refl
attempt_fault a v (suc (suc (suc (suc i)))) s h f t = absurd (omega arith)

small-IsKernel : IsKernel small
small-IsKernel = record {
  aligned = λ s. refl;
  mmap_law = λ s i h. ground arith;
  mprotect_law = λ a x w s h. let page : (a % 4096 == 0) ≡ true = ground arith in rw page refl;
  store_law = λ a v s h. (
    written a v s,
    rw (h 0 (omega arith), h 1 (omega arith), h 2 (omega arith), h 3 (omega arith)) refl,
    λ i low.
        let in_it : within a 4 (a + i) ≡ true = ground arith in
        let off : a + i - a ≡ i = omega arith in rw in_it (rw off refl),
  );
  fault_law = attempt_fault;
}

blank : Memory
blank = record { byte = λ x. 0; writable = λ x. false }

main_recovers_example :
    (t : Memory) × (main small 2 blank ≡ some (pages 8192 12288 ∷ sig 11 12288 ∷ [], t))
    × ((i : ℕ) → i < 4 → t.byte (8192 + 4094 + i) ≡ 0x12345678 / 256 ^ i % 256)
main_recovers_example = main_recovers small small-IsKernel 0 blank
