-- ===== src/Reserve.antt =====
-- src/reserve-address-space.cpp: `main` maps address space in pieces of 2^51 bytes, then of half
-- that size and so on, until not even a page is free.
pub mod Complete
use fex_assorted_tests_bins.Prelude.{
  ℕ, zero, suc, ◌+◌, ◌/◌, ◌%◌, ◌^◌, Bool, true, false, not, ◌&&◌, leb, ◌==◌, if◌then◌else◌,
}

abbrev pub page_size : ℕ
page_size = 4096

-- errno of a failed mmap
abbrev pub enomem : ℕ
enomem = 12

abbrev pub eperm : ℕ
eperm = 1

-- What one call of mmap gives, with the state of the kernel behind it.
pub data Attempt (S : Type 0) : Type 0 where
  mapped : S → Attempt S
  failed : ℕ → S → Attempt S

-- The system call, with the hint, protection and flags that `main` always passes.
pub record Kernel : Type 1 where
  pub State : Type 0
  pub mmap : ℕ → State → Attempt State

-- How a loop ends: with `total_len`, or by `return -1` with an errno.
pub data Result (S : Type 0) : Type 0 where
  done : ℕ → S → Result S
  error : ℕ → S → Result S
  no_fuel : Result S

-- 2^51, 2^50, ..., 2^12, and the test that ends the loop.
abbrev pub max_rounds : ℕ
max_rounds = 41

module _ (k : Kernel) where
  open k use {State, mmap}

  -- `for(;;)`: map pieces of one size until the kernel has none.
  unfoldable pub fill : ℕ → ℕ → ℕ → State → Result State
  fill zero alloc_len total_len s = no_fuel
  fill (suc fuel) alloc_len total_len s = elim (mmap alloc_len s) [
    | mapped t ↦ fill fuel alloc_len ((total_len + alloc_len) % 2 ^ 64) t
    | failed errno t ↦
        if not (errno == enomem) && not (errno == eperm) then error errno t else done total_len t
  ]

  -- `while (alloc_len >= PAGE_SIZE)`
  unfoldable pub sweep : ℕ → ℕ → ℕ → ℕ → State → Result State
  sweep zero fuel alloc_len total_len s = no_fuel
  sweep (suc rounds) fuel alloc_len total_len s = elim (leb page_size alloc_len) [
    | true ↦ elim (fill fuel alloc_len total_len s) [
      | done total t ↦ sweep rounds fuel (alloc_len / 2) total t
      | error errno t ↦ error errno t
      | no_fuel ↦ no_fuel
    ]
    | false ↦ done total_len s
  ]

  unfoldable pub reserve_all : ℕ → State → Result State
  unfolding sweep fill
  reserve_all fuel s = sweep max_rounds fuel (2 ^ 51) 0 s
