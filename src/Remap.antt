-- ===== src/Remap.antt =====
-- `main` of src/mremap.cpp: which ranges mremap takes for one mapping, and what a mirror shows. The kernel
-- is a record of operations, with what is documented of them as laws.
pub mod Blocks
pub mod Mirror
pub mod Passing
use Prim.Native.String.{String}
use fex_assorted_tests_bins.Prelude.{
  ℕ, ◌+◌, ◌-◌, ◌*◌, ◌/◌, ◌%◌, ◌^◌, ◌<◌, ◌≡◌, ◌≢◌, Bool, true, false, not, ◌&&◌, Option, none, some,
  List, [], ◌∷◌, ◌==◌, if◌then◌else◌,
}
use fex_assorted_tests_bins.Growsdown.{Rights, prot_none, prot_read, read_write_exec}
use fex_assorted_tests_bins.Smc.Action.{◌>>=◌, ◌>>◌, pure}

-- What a page shows: the page `index` of an object in memory, with MAP_SHARED or MAP_PRIVATE.
pub record Page : Type 0 where
  pub object : ℕ
  pub index : ℕ
  pub rights : Rights
  pub shared : Bool

-- `MAP_FAILED`
abbrev pub map_failed : ℕ
map_failed = 2 ^ 64 - 1

-- Addresses are numbers; page `p` starts at address `p * 4096`. Lengths are numbers of pages.
pub record Kernel : Type 1 where
  pub State : Type 0
  pub page : State → ℕ → Option Page
  -- The byte at an offset of an object.
  pub content : State → ℕ → ℕ → ℕ
  -- `mmap(0, 8192, prot, MAP_SHARED | MAP_ANON, 0, 0)`
  pub mmap_shared : Rights → State → ℕ × State
  -- `mmap(a, 4096, prot, MAP_PRIVATE | MAP_ANON, 0, 0)`, without MAP_FIXED
  pub mmap_private : ℕ → Rights → State → ℕ × State
  -- Of one page.
  pub munmap : ℕ → State → State
  pub mprotect : ℕ → Rights → State → State
  -- `mremap(a, old_pages * 4096, new_pages * 4096, MREMAP_MAYMOVE)`
  pub mremap : ℕ → (old_pages new_pages : ℕ) → State → ℕ × State
  -- `none` is the end of the program by a signal.
  pub store : ℕ → ℕ → State → Option State
  pub load : ℕ → State → Option ℕ

-- The page `i` pages behind a page of the same mapping.
abbrev pub behind : Page → ℕ → Page
behind g i = record g { index = g.index + i }

abbrev pub set_content : (ℕ → ℕ → ℕ) → ℕ → ℕ → ℕ → ℕ → ℕ → ℕ
set_content f o i v o' i' = if o == o' && i == i' then v else f o' i'

module _ (k : Kernel) where
  open k use {
    State, page, content, mmap_shared, mmap_private, munmap, mprotect, mremap, store, load,
  }

  pub record IsKernel : Type 0 where
    pub mmap_shared_law :
        (r : Rights) (s : State)
        → (p : ℕ) × (o : ℕ) × ((mmap_shared r s).0 ≡ p * 4096)
          × ((i : ℕ)
              → i < 2
              → page (mmap_shared r s).1 (p + i)
                ≡ some (record { object = o; index = i; rights = r; shared = true }))
    -- A free page that is asked for is taken; its object is a new one of zeroes.
    pub mmap_private_law :
        (p : ℕ) (r : Rights) (s : State)
        → page s p ≡ none
        → (o : ℕ) × (page (mmap_private (p * 4096) r s).1 p
            ≡ some (record { object = o; index = 0; rights = r; shared = false }))
          × ((x : ℕ) → x ≢ p → page (mmap_private (p * 4096) r s).1 x ≡ page s x)
          × ((x : ℕ) (g : Page) → page s x ≡ some g → o ≢ g.object)
          × ((i : ℕ) → content (mmap_private (p * 4096) r s).1 o i ≡ 0)
    pub munmap_law :
        (p : ℕ) (s : State)
        → (page (munmap (p * 4096) s) p ≡ none)
          × ((x : ℕ) → x ≢ p → page (munmap (p * 4096) s) x ≡ page s x)
    pub mprotect_law :
        (p : ℕ) (r : Rights) (g : Page) (s : State)
        → page s p ≡ some g
        → (page (mprotect (p * 4096) r s) p ≡ some (record g { rights = r }))
          × ((x : ℕ) → x ≢ p → page (mprotect (p * 4096) r s) x ≡ page s x)
    -- Pages of one mapping are moved and the mapping is made longer.
    pub mremap_law :
        (p n m : ℕ) (g : Page) (s : State)
        → 0 < n
        → ((i : ℕ) → i < n → page s (p + i) ≡ some (behind g i))
        → (q : ℕ) × ((mremap (p * 4096) n m s).0 ≡ q * 4096)
    -- A range that is not one mapping is refused: EFAULT.
    pub mremap_fault_law :
        (p n m i : ℕ) (g : Page) (s : State)
        → i < n
        → page s p ≡ some g
        → page s (p + i) ≢ some (behind g i)
        → (mremap (p * 4096) n m s).0 ≡ map_failed
    -- An old size of 0 makes a second mapping of the object that the first page shows, from there on.
    pub mirror_law :
        (p m : ℕ) (g : Page) (s : State)
        → page s p ≡ some g
        → g.shared ≡ true
        → (q : ℕ) × ((mremap (p * 4096) 0 m s).0 ≡ q * 4096)
          × ((i : ℕ) → i < m → page (mremap (p * 4096) 0 m s).1 (q + i) ≡ some (behind g i))
          × ((x : ℕ) (h : Page) → page s x ≡ some h → page (mremap (p * 4096) 0 m s).1 x ≡ some h)
          × ((o i : ℕ) → content (mremap (p * 4096) 0 m s).1 o i ≡ content s o i)
    pub store_law :
        (p i v : ℕ) (g : Page) (s : State)
        → i < 4096
        → page s p ≡ some g
        → g.rights.write ≡ true
        → (t : State) × (store (p * 4096 + i) v s ≡ some t)
          × ((x : ℕ) → page t x ≡ page s x)
          × ((o j : ℕ)
              → content t o j ≡ set_content (content s) g.object (g.index * 4096 + i) v o j)
    pub load_law :
        (p i : ℕ) (g : Page) (s : State)
        → i < 4096
        → page s p ≡ some g
        → g.rights.read ≡ true
        → load (p * 4096 + i) s ≡ some (content s g.object (g.index * 4096 + i))

-- A line of `main`: its text, the two addresses, and what stands behind `pass:`.
pub record Line : Type 0 where
  pub text : String
  pub code : ℕ
  pub code2 : ℕ
  pub pass : Bool

module _ (k : Kernel) where
  open k use {State, mmap_shared, mmap_private, munmap, mprotect, mremap, store, load}

  abbrev pub Action : Type 0 → Type 0
  Action A = State → Option (A × State)

  -- A call that cannot kill the program, and one whose result is ignored.
  abbrev pub syscall : {A : Type 0} → (State → A × State) → Action A
  syscall f s = some (f s)

  abbrev pub change : (State → State) → Action (Unit {0})
  change f s = some (tt, f s)

  unfoldable pub poke : ℕ → ℕ → Action (Unit {0})
  poke a v s = elim (store a v s) [ none ↦ none | some t ↦ some (tt, t) ]

  unfoldable pub peek : ℕ → Action ℕ
  peek a s = elim (load a s) [ none ↦ none | some v ↦ some (v, s) ]

  unfoldable pub unmapped_block : Action Line
  unmapped_block = do
    code ← syscall (mmap_shared read_write_exec)
    change (munmap (code + 4096))
    change (λ s. (mmap_private (code + 4096) prot_none s).1)
    code2 ← syscall (mremap code 2 4)
    pure (record {
      text = "mmap+mmap + resize";
      code = code;
      code2 = code2;
      pass = not (code == map_failed) && code2 == map_failed;
    })

  unfoldable pub protected_block : Action Line
  protected_block = do
    code ← syscall (mmap_shared read_write_exec)
    change (mprotect (code + 4096) prot_read)
    code2 ← syscall (mremap code 2 4)
    pure (record {
      text = "mmap+mprotect + resize";
      code = code;
      code2 = code2;
      pass = not (code == map_failed) && code2 == map_failed;
    })

  unfoldable pub restored_block : Action Line
  restored_block = do
    code ← syscall (mmap_shared read_write_exec)
    change (mprotect (code + 4096) prot_read)
    change (mprotect (code + 4096) read_write_exec)
    code2 ← syscall (mremap code 2 4)
    pure (record {
      text = "mmap+mprotect+mprotect + resize";
      code = code;
      code2 = code2;
      pass = not (code == map_failed) && not (code2 == map_failed);
    })

  unfoldable pub middle_block : Action Line
  middle_block = do
    code ← syscall (mmap_shared read_write_exec)
    code2 ← syscall (mremap (code + 4096) 1 4)
    pure (record {
      text = "mmap + resize offset 4096";
      code = code;
      code2 = code2;
      pass = not (code == map_failed) && not (code2 == map_failed);
    })

  -- `code[4096] != code2[4096]`
  unfoldable pub second_differs : ℕ → ℕ → Action Bool
  second_differs code code2 = do
    c ← peek (code + 4096)
    d ← peek (code2 + 4096)
    pure (not (c == d))

  -- `code[0] == code2[0] && ...`, which reads the second pair only if the first agrees.
  unfoldable pub compare_mirror : ℕ → ℕ → Action Bool
  compare_mirror code code2 = do
    a ← peek (code + 0)
    b ← peek (code2 + 0)
    if a == b then second_differs code code2 else pure false

  unfoldable pub mirror_block : Action Line
  mirror_block = do
    code ← syscall (mmap_shared read_write_exec)
    change (munmap (code + 4096))
    change (λ s. (mmap_private (code + 4096) prot_read s).1)
    code2 ← syscall (mremap code 0 4)
    poke (code + 0) 192
    poke (code2 + 4096) 193
    ok ← compare_mirror code code2
    pure (record {
      text = "mmap+mmap + mirror";
      code = code;
      code2 = code2;
      pass = not (code == map_failed) && not (code2 == map_failed) && ok;
    })

  -- `main`
  unfoldable pub main : Action (List Line)
  main = do
    l1 ← unmapped_block
    l2 ← protected_block
    l3 ← restored_block
    l4 ← middle_block
    l5 ← mirror_block
    pure (l1 ∷ l2 ∷ l3 ∷ l4 ∷ l5 ∷ [])
