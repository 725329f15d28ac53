-- ===== src/Probes.antt =====
-- src/memfd.cpp and src/shmid.cpp: programs that ask the kernel and print what it answers. The kernel is a
-- parameter.
pub mod Answers
use fex_assorted_tests_bins.Prelude.{
  set, ℕ, zero, suc, ◌+◌, ◌<◌, ◌≤◌, ◌≡◌, ◌⊎◌, ℤ, pos, negsuc, Bool, true, false, Option, none, some,
  List, [], ◌∷◌, ◌++◌, ◌==◌, ltb, length, if◌then◌else◌,
}

-- A store is done, or ends the program by SIGBUS.
pub data Access (S : Type 0) : Type 0 where
  done : S → Access S
  bus_error : S → Access S

-- What an address shows, by object and offset, and what the objects hold.
pub record View : Type 0 where
  pub backing : ℕ → Option (ℕ × ℕ)
  pub size : ℕ → ℕ
  pub byte : ℕ → ℕ → ℕ

-- mmap of MAP_ANON | MAP_SHARED, mremap with MREMAP_MAYMOVE, and a store.
pub record Memory : Type 1 where
  pub State : Type 0
  pub view : State → View
  pub mmap : ℕ → State → ℕ × State
  pub mremap : (old old_size new_size : ℕ) → State → ℕ × State
  pub store : ℕ → ℕ → State → Access State

-- The lines of `mmaptest`.
pub data Line : Type 0 where
  pointers : (ptr ptr2 ptr3 : ℕ) → Line
  expecting_bus_error : Line

module _ (m : Memory) where
  open m use {State, mmap, mremap, store}

  unfoldable pub and_then :
      Access State → (State → List Line × Access State) → List Line × Access State
  and_then (done s) f = f s
  and_then (bus_error s) f = ([], bus_error s)

  -- The two stores behind the second printf.
  unfoldable pub beyond : ℕ → ℕ → State → List Line × Access State
  beyond ptr2 ptr3 s =
      and_then (store (ptr2 + 4096) 1 s)
        (λ t. and_then (store (ptr3 + 4096) 1 t) (λ u. ([], done u)))

  unfoldable pub printed : List Line → List Line × Access State → List Line × Access State
  printed ls (ls', a) = (ls ++ ls', a)

  -- `mmaptest` of src/memfd.cpp: what it prints, and how it ends.
  unfoldable pub mmaptest : State → List Line × Access State
  mmaptest s =
      let (ptr, s₁) = mmap 4096 s in
      let (ptr2, s₂) = mremap ptr 0 8192 s₁ in
      let (ptr3, s₃) = mremap ptr 4096 8192 s₂ in
      and_then (store (ptr3 + 0) 1 s₃) (λ t.
        and_then (store (ptr2 + 1) 1 t)
          (λ u. printed (pointers ptr ptr2 ptr3 ∷ expecting_bus_error ∷ []) (beyond ptr2 ptr3 u)))

-- `temp[rv] = 0` behind readlink in `test` of src/memfd.cpp, in a buffer of 512 bytes: the text that is
-- printed, up to its first NUL; `none` is a store in front of the buffer.
unfoldable pub until_nul : List ℕ → List ℕ
until_nul [] = []
until_nul (b ∷ bs) = if b == 0 then [] else b ∷ until_nul bs

unfoldable pub link_text : ℤ → List ℕ → Option (List ℕ)
link_text (negsuc n) temp = none
link_text (pos rv) temp = if ltb rv 512 then some (until_nul (set temp rv 0)) else none

-- `shmget` by key, size and IPC_CREAT, where IPC_PRIVATE is no key.
pub record Segments : Type 1 where
  pub State : Type 0
  pub shmget : Option ℕ → ℕ → Bool → State → ℤ × State

-- `main` of src/shmid.cpp: the five numbers that it prints.
module _ (k : Segments) where
  open k use {shmget}

  unfoldable pub shmid_main : k.State → List ℤ
  shmid_main s =
      let (shm, s₁) = shmget none 4096 true s in
      let (shm2, s₂) = shmget (some 1) 4096 true s₁ in
      let (shm3, s₃) = shmget (some 1) 4096 true s₂ in
      let (shm4, s₄) = shmget (some 1) 4096 false s₃ in
      let (shm5, s₅) = shmget (some 1) 8192 true s₄ in shm ∷ shm2 ∷ shm3 ∷ shm4 ∷ shm5 ∷ []
