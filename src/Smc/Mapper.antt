-- ===== src/Smc/Mapper.antt =====
-- The mapping calls that the mains of src/smc-2.cpp, src/smc-shared.cpp and src/smc-shared-2.cpp make
-- before their tests: operations of the kernel, and what is documented of them.
use fex_assorted_tests_bins.Prelude.{false, ℕ, ◌+◌, ◌≤◌, ◌<◌, ◌⊎◌, Bool, true, Option, some, ◌≡◌}
use fex_assorted_tests_bins.Smc.Machine.{IsAligned, IsShared, Prot, View, Machine, IsWindow}

-- Each call returns an address, an identifier or a descriptor; the calls that only prepare a file
-- (unlink, ftruncate) are part of `create`.
pub record Mapper (m : Machine) : Type 0 where
  -- MAP_SHARED | MAP_ANON, by length and rights
  pub mmap : ℕ → Prot → m.State → ℕ × m.State
  -- MAP_SHARED of a descriptor
  pub mmap_file : ℕ → Prot → ℕ → m.State → ℕ × m.State
  -- `mremap(old, 0, new_size, MREMAP_MAYMOVE)`
  pub mremap : ℕ → ℕ → m.State → ℕ × m.State
  -- `shmget(IPC_PRIVATE, size, IPC_CREAT | 0777)`
  pub shmget : ℕ → m.State → ℕ × m.State
  -- `shmat(shm, nullptr, flags)`, with SHM_EXEC or without
  pub shmat : ℕ → Bool → m.State → ℕ × m.State
  -- A new file of a size (mkstemp or shm_open), and a second descriptor of it
  -- (open or shm_open with O_RDONLY).
  pub create : ℕ → m.State → ℕ × m.State
  pub reopen : ℕ → m.State → ℕ × m.State

-- `w` is `v` with one more mapping: `len` addresses from `a` that show the bytes from `p` on.
pub record Maps (v w : View) (a p len : ℕ) : Type 0 where
  pub aligned : IsAligned a
  pub window : IsWindow w a p len
  pub shared : (i : ℕ) → i < len → w.shared (p + i) ≡ true
  -- What was mapped is as it was, and is not where the new mapping is.
  pub kept : (x q : ℕ) → v.phys x ≡ some q → w.phys x ≡ some q
  pub kept_writable : (x q : ℕ) → v.phys x ≡ some q → w.writable x ≡ v.writable x
  pub kept_executable : (x q : ℕ) → v.phys x ≡ some q → w.executable x ≡ v.executable x
  pub apart : (x q : ℕ) → v.phys x ≡ some q → (x < a) ⊎ (a + len ≤ x)

abbrev pub HasRights : View → ℕ → ℕ → Prot → Type 0
HasRights v a len prot =
    (i : ℕ) → i < len → (v.writable (a + i) ≡ prot.write) × (v.executable (a + i) ≡ prot.exec)

-- Where the bytes of an open file are, its size, and whether the descriptor is open for writing too.
pub record File : Type 0 where
  pub base : ℕ
  pub size : ℕ
  pub for_writing : Bool

-- EACCES: a shared mapping that may be written needs a descriptor that is open for writing.
abbrev pub Permits : File → Prot → Type 0
Permits f prot = prot.write ≡ true → f.for_writing ≡ true

module _ (m : Machine) (k : Mapper m) where
  open m use {State, view}
  open k use {mmap, mmap_file, mremap, shmget, shmat, create, reopen}

  pub record IsMapper : Type 0 where
    -- The bytes of a shared memory segment, with their size, and the open file of a descriptor.
    pub segment : ℕ → State → Option (ℕ × ℕ)
    pub file : ℕ → State → Option File
    pub mmap_law :
        (len : ℕ) (prot : Prot) (s : State)
        → 0 < len
        → (p : ℕ) × Maps (view s) (view (mmap len prot s).1) (mmap len prot s).0 p len
          × HasRights (view (mmap len prot s).1) (mmap len prot s).0 len prot
    -- An old size of 0 makes a second mapping of the same bytes, with the same rights, where the old
    -- one is shareable.
    pub mremap_law :
        (old p len : ℕ) (prot : Prot) (s : State)
        → 0 < len
        → IsAligned old
        → IsWindow (view s) old p len
        → IsShared (view s) p len
        → HasRights (view s) old len prot
        → Maps (view s) (view (mremap old len s).1) (mremap old len s).0 p len
          × HasRights (view (mremap old len s).1) (mremap old len s).0 len prot
    pub shmget_law :
        (size : ℕ) (s : State)
        → 0 < size
        → (p : ℕ) × (segment (shmget size s).0 (shmget size s).1 ≡ some (p, size))
    pub shmat_law :
        (shm p size : ℕ) (exec : Bool) (s : State)
        → segment shm s ≡ some (p, size)
        → Maps (view s) (view (shmat shm exec s).1) (shmat shm exec s).0 p size
          × HasRights
              (view (shmat shm exec s).1)
              (shmat shm exec s).0
              size
              (record { write = true; exec = exec })
          × (segment shm (shmat shm exec s).1 ≡ some (p, size))
    pub create_law :
        (size : ℕ) (s : State)
        → (p : ℕ) × (file (create size s).0 (create size s).1
            ≡ some (record { base = p; size = size; for_writing = true }))
    -- The second descriptor is O_RDONLY.
    pub reopen_law :
        (fd : ℕ) (f : File) (s : State)
        → file fd s ≡ some f
        → (file fd (reopen fd s).1 ≡ some f)
          × (file (reopen fd s).0 (reopen fd s).1 ≡ some (record f { for_writing = false }))
    pub mmap_file_law :
        (fd : ℕ) (f : File) (prot : Prot) (s : State)
        → file fd s ≡ some f
        → 0 < f.size
        → Permits f prot
        → Maps
            (view s)
            (view (mmap_file f.size prot fd s).1)
            (mmap_file f.size prot fd s).0
            f.base
            f.size
          × HasRights
              (view (mmap_file f.size prot fd s).1)
              (mmap_file f.size prot fd s).0
              f.size
              prot
          × ((fd' : ℕ) → file fd' (mmap_file f.size prot fd s).1 ≡ file fd' s)

  -- A child starts with the same memory and the same segments, and the parent waits for one that ends.
  pub record IsForked (law : IsMapper) (forked : State → State) : Type 0 where
    pub view_law : (s : State) → view (forked s) ≡ view s
    pub segment_law : (shm : ℕ) (s : State) → law.segment shm (forked s) ≡ law.segment shm s
    pub wait_law :
        (child : State → Option State) (s d : State)
        → child (forked s) ≡ some d
        → (t : State) × (m.fork_wait child s ≡ some t)
