-- ===== src/Smc/Files.antt =====
-- `main` of src/smc-fd.cpp: the calls that make, map and write its files, with what is documented of them.
pub mod Passing
use fex_assorted_tests_bins.Prelude.{ℕ, ◌+◌, ◌<◌, ◌≡◌, ◌≢◌, Option, some, List, [], ◌∷◌, length}
use fex_assorted_tests_bins.Smc.Machine.{View, Machine, IsWindow, MayRun, IsStub}
use fex_assorted_tests_bins.Smc.Action.{◌>>=◌, ◌>>◌, Action}
use fex_assorted_tests_bins.Smc.Report.{Verdict}
use fex_assorted_tests_bins.Smc.Descriptor.{Descriptor, written, test_descriptor}
use fex_assorted_tests_bins.Smc.Mains.{syscall, blocks}

-- `create` is mkstemp with its unlink and ftruncate, `reopen` is open of the same file; the mappings are of
-- a descriptor from its start, for reading and running.
pub record Files (m : Machine) : Type 0 where
  pub create : ℕ → m.State → ℕ × m.State
  pub reopen : ℕ → m.State → ℕ × m.State
  pub close : ℕ → m.State → Unit {0} × m.State
  pub mmap_shared : ℕ → ℕ → m.State → ℕ × m.State
  pub mmap_private : ℕ → ℕ → m.State → ℕ × m.State
  pub write : ℕ → List ℕ → m.State → m.State
  pub lseek : ℕ → ℕ → m.State → m.State

module _ (m : Machine) (k : Files m) where
  open m use {State, view, call}
  open k use {create, reopen, close, mmap_shared, mmap_private, write, lseek}

  abbrev pub descriptor : ℕ → Descriptor m
  descriptor fd = record { write = write fd; lseek = lseek fd }

  unfoldable pub shared_block : Action m (List Verdict)
  shared_block = do
    fd ← syscall m (create 4096)
    code ← syscall m (mmap_shared 4096 fd)
    test_descriptor m (descriptor fd) code "mmap_shared+fd"

  unfoldable pub private_block : Action m (List Verdict)
  private_block = do
    fd ← syscall m (create 4096)
    code ← syscall m (mmap_private 4096 fd)
    test_descriptor m (descriptor fd) code "mmap_private+fd"

  unfoldable pub second_block : Action m (List Verdict)
  second_block = do
    fd ← syscall m (create 4096)
    fd2 ← syscall m (reopen fd)
    code ← syscall m (mmap_shared 4096 fd2)
    syscall m (close fd2)
    test_descriptor m (descriptor fd) code "mmap_shared+fd2"

  unfoldable pub fd_main : Action m (List Verdict)
  unfolding blocks
  fd_main = blocks m (shared_block ∷ private_block ∷ second_block ∷ [])

  -- The address shows the bytes from `p` on and may be run, and what was open still is, by `file`.
  pub record Shows (file : ℕ → State → Option (ℕ × ℕ)) (s t : State) (a p : ℕ) : Type 0 where
    pub window : IsWindow (view t) a p 6
    pub runs : MayRun (view t) a 6
    pub kept : (fd : ℕ) → file fd t ≡ file fd s

  -- Nothing is said of what a private mapping shows, since mmap(2) leaves it open whether it sees
  -- later writes to the file.
  pub record IsFiles : Type 0 where
    -- Where the bytes of an open file are, and the descriptor's offset.
    pub file : ℕ → State → Option (ℕ × ℕ)
    pub create_law :
        (size : ℕ) (s : State) → (p : ℕ) × (file (create size s).0 (create size s).1 ≡ some (p, 0))
    pub reopen_law :
        (fd p o : ℕ) (s : State)
        → file fd s ≡ some (p, o)
        → (file fd (reopen fd s).1 ≡ some (p, o))
          × (file (reopen fd s).0 (reopen fd s).1 ≡ some (p, 0))
          × ((reopen fd s).0 ≢ fd)
    pub close_law :
        (fd fd' : ℕ) (s : State)
        → fd ≢ fd'
        → (file fd' (close fd s).1 ≡ file fd' s) × (view (close fd s).1 ≡ view s)
    pub shared_law :
        (size fd p o : ℕ) (s : State)
        → file fd s ≡ some (p, o)
        → Shows file s (mmap_shared size fd s).1 (mmap_shared size fd s).0 p
    pub write_law :
        (fd p o : ℕ) (bs : List ℕ) (s : State)
        → file fd s ≡ some (p, o)
        → (view (write fd bs s) ≡ record (view s) { byte = written (view s).byte (p + o) bs })
          × (file fd (write fd bs s) ≡ some (p, o + length bs))
    pub lseek_law :
        (fd p o o' : ℕ) (s : State)
        → file fd s ≡ some (p, o)
        → (view (lseek fd o' s) ≡ view s) × (file fd (lseek fd o' s) ≡ some (p, o'))
    -- The routine that the files hold makes no calls.
    pub call_law :
        (a p b₀ b₁ b₂ b₃ fd r : ℕ) (s t : State)
        → IsWindow (view s) a p 6
        → IsStub (view s).byte p b₀ b₁ b₂ b₃
        → call a s ≡ some (r, t)
        → file fd t ≡ file fd s
