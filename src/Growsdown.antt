-- ===== src/Growsdown.antt =====
-- src/prot-growsdown.cpp: `mprotect` with PROT_GROWSDOWN on mappings that were split and merged. The
-- kernel and the processor are a record of operations, with what is documented of them as laws.
pub mod Pages
pub mod Passing
use Prim.Native.String.{String}
use fex_assorted_tests_bins.Prelude.{
  ℕ, ◌+◌, ◌*◌, ◌/◌, ◌≤◌, ◌<◌, ◌≡◌, ◌≢◌, Bool, true, false, ◌&&◌, Option, none, some, List, [], ◌∷◌,
  ◌++◌, ◌==◌,
}
use fex_assorted_tests_bins.Smc.Machine.{update, imm32, IsStub}
use fex_assorted_tests_bins.Smc.Action.{◌>>=◌, ◌>>◌, pure}

pub record Rights : Type 0 where
  pub read : Bool
  pub write : Bool
  pub exec : Bool

-- `PROT_NONE`, `PROT_READ`, `PROT_READ | PROT_WRITE` and `PROT_READ | PROT_WRITE | PROT_EXEC`
abbrev pub prot_none : Rights
prot_none = record { read = false; write = false; exec = false }

abbrev pub prot_read : Rights
prot_read = record { read = true; write = false; exec = false }

abbrev pub read_write : Rights
read_write = record { read = true; write = true; exec = false }

abbrev pub read_write_exec : Rights
read_write_exec = record { read = true; write = true; exec = true }

-- Pages have numbers: page `p` starts at address `p * 4096`.
pub record Kernel : Type 1 where
  pub State : Type 0
  pub byte : State → ℕ → ℕ
  -- What may be done in a page, and the number of the mapping that it belongs to.
  pub rights : State → ℕ → Option Rights
  pub mapping : State → ℕ → ℕ
  -- Three pages with MAP_GROWSDOWN | MAP_ANON | MAP_PRIVATE: the first of them.
  pub mmap : Rights → State → ℕ × State
  -- One page, without PROT_GROWSDOWN and with it.
  pub mprotect : ℕ → Rights → State → State
  pub mprotect_down : ℕ → Rights → State → State
  -- Three pages.
  pub munmap : ℕ → State → State
  -- `*a = v`, and `((int(*)())a)()` as 32 bits; `none` is the end of the program by a signal.
  pub store : ℕ → ℕ → State → Option State
  pub call : ℕ → State → Option (ℕ × State)

module _ (k : Kernel) where
  open k use {State, byte, rights, mapping, mmap, mprotect, mprotect_down, store, call}

  pub record IsKernel : Type 0 where
    pub mmap_law :
        (r : Rights) (s : State) (i : ℕ)
        → i < 3
        → (rights (mmap r s).1 ((mmap r s).0 + i) ≡ some r)
          × (mapping (mmap r s).1 ((mmap r s).0 + i) ≡ (mmap r s).0)
    pub mprotect_law :
        (p : ℕ) (r old : Rights) (s : State)
        → rights s p ≡ some old
        → (rights (mprotect p r s) p ≡ some r)
          × ((x : ℕ) → x ≢ p → rights (mprotect p r s) x ≡ rights s x)
          × ((x : ℕ) → mapping (mprotect p r s) x ≡ mapping s x)
    -- The pages below that belong to the same mapping and have the same rights get the new ones.
    pub down_law :
        (p j : ℕ) (r old : Rights) (s : State)
        → j ≤ p
        → ((i : ℕ) → j ≤ i → i ≤ p → (rights s i ≡ some old) × (mapping s i ≡ mapping s p))
        → rights (mprotect_down p r s) j ≡ some r
    -- A page with other rights stops it.
    pub stop_law :
        (p i j : ℕ) (r : Rights) (s : State)
        → j ≤ i
        → i < p
        → rights s i ≢ rights s p
        → rights (mprotect_down p r s) j ≡ rights s j
    pub store_law :
        (a v : ℕ) (r : Rights) (s : State)
        → rights s (a / 4096) ≡ some r
        → r.write ≡ true
        → (t : State) × (store a v s ≡ some t)
          × (byte t ≡ update (byte s) a v)
          × (rights t ≡ rights s)
    pub call_law :
        (p b₀ b₁ b₂ b₃ : ℕ) (r : Rights) (s : State)
        → rights s p ≡ some r
        → r.exec ≡ true
        → IsStub (byte s) (p * 4096) b₀ b₁ b₂ b₃
        → (t : State) × (call (p * 4096) s ≡ some (imm32 b₀ b₁ b₂ b₃, t))
          × (byte t ≡ byte s)
          × (rights t ≡ rights s)

pub data Line : Type 0 where
  title : String → Line
  smc : Bool → Line
  done : Line

module _ (k : Kernel) where
  open k use {State, byte, rights, mmap, mprotect, mprotect_down, munmap, store, call}

  abbrev pub Action : Type 0 → Type 0
  Action A = State → Option (A × State)

  unfoldable pub poke : ℕ → ℕ → Action (Unit {0})
  poke a v s = elim (store a v s) [ none ↦ none | some t ↦ some (tt, t) ]

  -- The calls of mprotect in each block, on the mapping from page `q` on.
  abbrev pub down : Rights → ℕ → State → State
  down r q s = mprotect_down (q + 2) r s

  abbrev pub split_down : Rights → ℕ → State → State
  split_down r q s = mprotect_down (q + 2) r (mprotect (q + 1) prot_none s)

  abbrev pub merge_down : Rights → ℕ → State → State
  merge_down r q s =
      mprotect_down (q + 2) r (mprotect (q + 1) prot_read (mprotect (q + 1) prot_none s))

  -- A block that stores into the first page.
  unfoldable pub write_block : String → Rights → (ℕ → State → State) → Action (List Line)
  write_block name r prepare = do
    q ← (λ s. some (mmap r s))
    (λ s. some (tt, prepare q s))
    poke (q * 4096 + 0) 1
    (λ s. some (tt, munmap q s))
    pure (title name ∷ [])

  -- `mov eax, imm32; ret`, called, changed and called again.
  unfoldable pub run_code : ℕ → Action (ℕ × ℕ)
  run_code code = do
    poke (code + 0) 0xB8
    poke (code + 1) 0xAA
    poke (code + 2) 0xBB
    poke (code + 3) 0xCC
    poke (code + 4) 0xDD
    poke (code + 5) 0xC3
    rv1 ← call code
    poke (code + 1) 0xAB
    rv2 ← call code
    pure (rv1, rv2)

  unfoldable pub code_block : String → Rights → (ℕ → State → State) → Action (List Line)
  code_block name r prepare = do
    q ← (λ s. some (mmap r s))
    (λ s. some (tt, prepare q s))
    v ← run_code (q * 4096)
    (λ s. some (tt, munmap q s))
    pure (title name ∷ smc (v.0 == 0xDDCCBBAA && v.1 == 0xDDCCBBAB) ∷ [])

  unfoldable pub main : Action (List Line)
  main = do
    l1 ← write_block "R/W growsdown" prot_read (down read_write)
    l2 ← write_block "new vma doesn't growsdown" read_write (split_down prot_read)
    l3 ← write_block "vma merging growsdown" prot_read (merge_down read_write)
    l4 ← code_block "code modification after growsdown" prot_read (down read_write_exec)
    l5 ←
        code_block "code modification w/ new vma + growsdown" read_write_exec (split_down prot_read)
    l6 ←
        code_block "code modification w/ vma merging + growsdown" prot_read
          (merge_down read_write_exec)
    pure (l1 ++ l2 ++ l3 ++ l4 ++ l5 ++ l6 ++ done ∷ [])
