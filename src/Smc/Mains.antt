-- ===== src/Smc/Mains.antt =====
-- The mains of src/smc-shared.cpp, src/smc-2.cpp and src/smc-shared-2.cpp, over the mapping calls of
-- Smc/Mapper.
pub mod Mirrors
pub mod Child
pub mod Blocks
pub mod Passing
pub mod Remapped
use Prim.Native.String.{String}
use fex_assorted_tests_bins.Prelude.{
  ℕ, ◌+◌, Bool, true, false, Option, none, some, List, [], ◌∷◌, ◌++◌,
}
use fex_assorted_tests_bins.Smc.Machine.{Prot, Machine}
use fex_assorted_tests_bins.Smc.Mapper.{Mapper}
use fex_assorted_tests_bins.Smc.Action.{◌>>=◌, ◌>>◌, pure, Action}
use fex_assorted_tests_bins.Smc.Stub.{read_exec, read_write_exec}
use fex_assorted_tests_bins.Smc.Report.{Verdict}
use fex_assorted_tests_bins.Smc.Programs.{test_alias, test_mirror, test_fork, test_remapped}

abbrev pub read_write : Prot
read_write = record { write = true; exec = false }

module _ (m : Machine) where
  open m use {State, fork_wait}

  -- A call that cannot kill the program.
  abbrev pub syscall : {A : Type 0} → (State → A × State) → Action m A
  syscall f s = some (f s)

  -- The blocks of a `main`, one behind the other.
  unfoldable pub blocks : List (Action m (List Verdict)) → Action m (List Verdict)
  blocks [] = pure []
  blocks (b ∷ bs) = do v ← b; vs ← blocks bs; pure (v ++ vs)

  module _ (k : Mapper m) where
    open k use {mmap, mmap_file, mremap, shmget, shmat, create, reopen}

    -- The addresses that are written and run.
    abbrev pub Pair : Type 0
    Pair = ℕ × ℕ

    -- mmap, then a mirror of the page `mid` bytes into it.
    unfoldable pub mmap_mremap : ℕ → ℕ → Action m Pair
    mmap_mremap size mid = do
      code ← syscall (mmap size read_write_exec)
      code2 ← syscall (mremap (code + mid) 4096)
      pure (code + mid, code2)

    unfoldable pub shmat_shmat : Action m Pair
    shmat_shmat = do
      shm ← syscall (shmget 4096)
      code3 ← syscall (shmat shm false)
      code4 ← syscall (shmat shm true)
      pure (code3, code4)

    unfoldable pub shmat_mremap : ℕ → ℕ → Action m Pair
    shmat_mremap size mid = do
      shm2 ← syscall (shmget size)
      code5 ← syscall (shmat shm2 true)
      code6 ← syscall (mremap (code5 + mid) 4096)
      pure (code5 + mid, code6)

    -- Two mappings of one descriptor; the file is made by mkstemp or shm_open.
    unfoldable pub file_twice : Action m Pair
    file_twice = do
      fd ← syscall (create 4096)
      code7 ← syscall (mmap_file 4096 read_write fd)
      code8 ← syscall (mmap_file 4096 read_exec fd)
      pure (code7, code8)

    -- The same with a descriptor of its own for each.
    unfoldable pub file_two : Action m Pair
    file_two = do
      fd ← syscall (create 4096)
      fd2 ← syscall (reopen fd)
      code ← syscall (mmap_file 4096 read_write fd)
      code2 ← syscall (mmap_file 4096 read_exec fd2)
      pure (code, code2)

    abbrev pub Test : Type 0
    Test = ℕ → ℕ → String → Action m (List Verdict)

    -- One block: the mappings, and the test on them.
    unfoldable pub block : Test → Action m Pair → String → Action m (List Verdict)
    block test pair name = do p ← pair; test p.0 p.1 name

    -- `main` of src/smc-shared.cpp
    abbrev pub shared_blocks : List (Action m (List Verdict))
    shared_blocks =
        block (test_alias m) (mmap_mremap 4096 0) "mmap+mremap"
        ∷ block (test_alias m) (mmap_mremap 8192 4096) "mmap+mremap_mid"
        ∷ block (test_alias m) shmat_shmat "shmat"
        ∷ block (test_alias m) (shmat_mremap 4096 0) "shmat+mremap"
        ∷ block (test_alias m) (shmat_mremap 8192 4096) "shmat+mremap_mid"
        ∷ block (test_alias m) file_twice "mmap+mmap"
        ∷ block (test_alias m) file_two "mmap+mmap (fd, fd2)"
        ∷ block (test_alias m) file_twice "shm_open+mmap+mmap"
        ∷ block (test_alias m) file_two "shm_open+mmap+mmap (fd, fd2)"
        ∷ []

    unfoldable pub shared_main : Action m (List Verdict)
    unfolding blocks
    shared_main = blocks shared_blocks

    -- One page that is written and run at one address, in this process and in a child.
    unfoldable pub mmap_fork : Action m Pair
    mmap_fork = do code ← syscall (mmap 4096 read_write_exec); pure (code, code)

    unfoldable pub shmat_fork : Action m Pair
    shmat_fork = do shm ← syscall (shmget 4096); code ← syscall (shmat shm true); pure (code, code)

    -- `main` of src/smc-shared-2.cpp; `forked` gives the state in which a child starts.
    module _ (forked : State → State) where
      -- `if (fork() == 0) { act } else { wait(NULL); }`, with what the child prints.
      unfoldable pub in_child : Action m (List Verdict) → Action m (List Verdict)
      in_child act s = elim (act (forked s)) [
        | none ↦ none
        | some (vs, d) ↦
            elim (fork_wait (λ c. elim (act c) [ none ↦ none | some (ws, e) ↦ some e ]) s) [
              | none ↦ none
              | some t ↦ some (vs, t)
            ]
      ]

      unfoldable pub attached_in_child : ℕ → ℕ → Action m (List Verdict)
      attached_in_child shm code3 = do
        code4 ← syscall (shmat shm true)
        test_mirror m code3 code4 "fork+shmat (same shmid)"

      unfoldable pub child_block : Action m (List Verdict)
      child_block = do
        shm ← syscall (shmget 4096)
        code3 ← syscall (shmat shm false)
        in_child (attached_in_child shm code3)

      abbrev pub shared_2_blocks : List (Action m (List Verdict))
      shared_2_blocks =
          block (test_mirror m) (mmap_mremap 4096 0) "mmap+mremap"
          ∷ block (test_mirror m) shmat_shmat "shmat"
          ∷ block (test_mirror m) (shmat_mremap 4096 0) "shmat+mremap"
          ∷ block (test_mirror m) file_twice "mmap+mmap"
          ∷ block (test_fork m) mmap_fork "mmap+fork"
          ∷ block (test_fork m) shmat_fork "shmat+fork"
          ∷ child_block
          ∷ []

      unfoldable pub shared_2_main : Action m (List Verdict)
      unfolding blocks
      shared_2_main = blocks shared_2_blocks

    -- `main` of src/smc-2.cpp: its last test, its last two, and all three.
    unfoldable pub remapped_last : ℕ → List Verdict → Action m (List Verdict)
    remapped_last code3 vs = do
      code4 ← syscall (mremap code3 4096)
      v ← test_remapped m code4 "shmat+mremap"
      pure (vs ++ v)

    unfoldable pub remapped_rest : List Verdict → Action m (List Verdict)
    unfolding remapped_last
    remapped_rest vs = do
      shm ← syscall (shmget 4096)
      code3 ← syscall (shmat shm true)
      v ← test_remapped m code3 "shmat"
      remapped_last code3 (vs ++ v)

    unfoldable pub remapped_main : Action m (List Verdict)
    unfolding remapped_rest
    remapped_main = do
      code ← syscall (mmap 4096 read_write_exec)
      code2 ← syscall (mremap code 4096)
      v ← test_remapped m code2 "mremap"
      remapped_rest v
