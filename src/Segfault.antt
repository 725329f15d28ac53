-- ===== src/Segfault.antt =====
-- src/segfault.cpp: a store over the end of a page whose neighbour may not be accessed, and a handler of
-- SIGSEGV that gives the rights back. The kernel is a record of operations with laws.
pub mod Retry
use fex_assorted_tests_bins.Prelude.{
  ℕ, zero, suc, ◌+◌, ◌*◌, ◌/◌, ◌%◌, ◌^◌, ◌<◌, ◌≡◌, Bool, true, false, Option, none, some, List, [],
  ◌∷◌, if◌then◌else◌,
}
use fex_assorted_tests_bins.Smc.Machine.{within}

-- A store is done, or faults at an address.
pub data Attempt (S : Type 0) : Type 0 where
  stored : S → Attempt S
  faults : ℕ → Attempt S

pub record Kernel : Type 1 where
  pub State : Type 0
  pub byte : State → ℕ → ℕ
  pub writable : State → ℕ → Bool
  -- 8192 bytes of PROT_READ | PROT_WRITE | PROT_EXEC
  pub mmap : State → ℕ × State
  -- 4096 bytes, with PROT_READ | PROT_WRITE or PROT_NONE
  pub mprotect : ℕ → Bool → State → State
  -- A store of 32 bits.
  pub store : ℕ → ℕ → State → Attempt State

module _ (k : Kernel) where
  open k use {State, byte, writable, mmap, mprotect, store}

  pub record IsKernel : Type 0 where
    pub aligned : (s : State) → (mmap s).0 % 4096 ≡ 0
    pub mmap_law : (s : State) (i : ℕ) → i < 8192 → writable (mmap s).1 ((mmap s).0 + i) ≡ true
    -- An address that is not that of a page is refused.
    pub mprotect_law :
        (a x : ℕ) (w : Bool) (s : State)
        → a % 4096 ≡ 0
        → writable (mprotect a w s) x ≡ (if within a 4096 x then w else writable s x)
    pub store_law :
        (a v : ℕ) (s : State)
        → ((i : ℕ) → i < 4 → writable s (a + i) ≡ true)
        → (t : State) × (store a v s ≡ stored t)
          × ((i : ℕ) → i < 4 → byte t (a + i) ≡ v / 256 ^ i % 256)
    -- The address given is that of the first byte that may not be written.
    pub fault_law :
        (a v i : ℕ) (s : State)
        → i < 4
        → writable s (a + i) ≡ false
        → ((j : ℕ) → j < i → writable s (a + j) ≡ true)
        → store a v s ≡ faults (a + i)

pub data Line : Type 0 where
  pages : (one two : ℕ) → Line
  sig : (signum si_addr : ℕ) → Line

module _ (k : Kernel) where
  open k use {State, byte, mmap, mprotect, store}

  unfoldable pub sighandler : ℕ → State → State
  sighandler si_addr s = mprotect si_addr true s

  -- The store is done again when the handler has returned, at most `n` times.
  unfoldable pub retry : ℕ → ℕ → ℕ → State → Option (List Line × State)
  retry zero a v s = none
  retry (suc n) a v s = elim (store a v s) [
    | stored t ↦ some ([], t)
    | faults si_addr ↦ elim (retry n a v (sighandler si_addr s)) [
      | none ↦ none
      | some (lines, t) ↦ some (sig 11 si_addr ∷ lines, t)
    ]
  ]

  unfoldable pub main : ℕ → State → Option (List Line × State)
  main n s =
      let data_at = (mmap s).0 in
      elim (retry n (data_at + 4094) 0x12345678 (mprotect (data_at + 4096) false (mmap s).1)) [
        | none ↦ none
        | some (lines, t) ↦ some (pages data_at (data_at + 4096) ∷ lines, t)
      ]
