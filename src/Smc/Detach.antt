-- ===== src/Smc/Detach.antt =====
-- `main` of src/smc-shmatdt.cpp: a page that is mapped over the middle of an attached segment outlives the
-- segment. The calls of the kernel, with what is documented of them.
pub mod Kept
use fex_assorted_tests_bins.Prelude.{ℕ, ◌+◌, ◌*◌, ◌<◌, ◌≡◌, Option, none, some, List, if◌then◌else◌}
use fex_assorted_tests_bins.Smc.Machine.{IsAligned, Prot, View, Machine, within, IsWindow}
use fex_assorted_tests_bins.Smc.Mapper.{HasRights}
use fex_assorted_tests_bins.Smc.Action.{◌>>=◌, ◌>>◌, Action}
use fex_assorted_tests_bins.Smc.Stub.{read_write_exec}
use fex_assorted_tests_bins.Smc.Report.{Verdict}
use fex_assorted_tests_bins.Smc.Programs.{test_detached}
use fex_assorted_tests_bins.Smc.Mains.{syscall}

-- `remove` is shmctl with IPC_RMID, `mmap_fixed` is mmap with MAP_FIXED | MAP_PRIVATE | MAP_ANON.
pub record Detacher (m : Machine) : Type 0 where
  pub shmget : ℕ → m.State → ℕ × m.State
  pub shmat : ℕ → m.State → ℕ × m.State
  pub remove : ℕ → m.State → Unit {0} × m.State
  pub mmap_fixed : ℕ → ℕ → Prot → m.State → ℕ × m.State
  pub shmdt : ℕ → m.State → Unit {0} × m.State

module _ (m : Machine) (k : Detacher m) where
  open m use {State, view}
  open k use {shmget, shmat, remove, mmap_fixed, shmdt}

  unfoldable pub detached_main : Action m (List Verdict)
  detached_main = do
    shmid ← syscall m (shmget (4096 * 3))
    ptrshm ← syscall m (shmat shmid)
    syscall m (remove shmid)
    ptrmmap ← syscall m (mmap_fixed (ptrshm + 4096) 4096 read_write_exec)
    syscall m (shmdt ptrshm)
    test_detached m ptrmmap "mmap+shmdt"

  pub record IsDetacher : Type 0 where
    -- The size of a segment, and the attachment that an address belongs to, by where it starts.
    pub segment : ℕ → State → Option ℕ
    pub attached : ℕ → State → Option ℕ
    pub shmget_law :
        (size : ℕ) (s : State) → segment (shmget size s).0 (shmget size s).1 ≡ some size
    pub shmat_law :
        (shm size i : ℕ) (s : State)
        → segment shm s ≡ some size
        → i < size
        → attached ((shmat shm s).0 + i) (shmat shm s).1 ≡ some (shmat shm s).0
    pub shmat_aligned :
        (shm size : ℕ) (s : State) → segment shm s ≡ some size → IsAligned (shmat shm s).0
    -- A segment stays until nothing is attached to it.
    pub remove_law : (shm x : ℕ) (s : State) → attached x (remove shm s).1 ≡ attached x s
    pub fixed_law :
        (a len : ℕ) (prot : Prot) (s : State)
        → IsAligned a
        → ((mmap_fixed a len prot s).0 ≡ a)
          × ((p : ℕ) × IsWindow (view (mmap_fixed a len prot s).1) a p len)
          × HasRights (view (mmap_fixed a len prot s).1) a len prot
          × ((x : ℕ)
              → attached x (mmap_fixed a len prot s).1
                ≡ (if within a len x then none else attached x s))
    -- What belongs to the attachment is unmapped, and only that.
    pub shmdt_law :
        (a x : ℕ) (s : State) → attached x s ≡ some a → (view (shmdt a s).1).phys x ≡ none
    pub shmdt_kept :
        (a x : ℕ) (s : State)
        → attached x s ≡ none
        → ((view (shmdt a s).1).phys x ≡ (view s).phys x)
          × ((view (shmdt a s).1).writable x ≡ (view s).writable x)
          × ((view (shmdt a s).1).executable x ≡ (view s).executable x)
