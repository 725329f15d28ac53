-- ===== src/Smc/Mains/Passing.antt =====
-- The mains of src/smc-shared.cpp, src/smc-shared-2.cpp and src/smc-2.cpp on a coherent machine: every line
-- that they print says PASS.
use Prim.Native.String.{String}
use fex_assorted_tests_bins.Prelude.{refl, ◌∙◌, arith, true, false, none, some, List, ◌≡◌}
use fex_assorted_tests_bins.Smc.Machine.{Machine, IsCoherent}
use fex_assorted_tests_bins.Smc.Mapper.{Mapper, IsMapper, IsForked}
use fex_assorted_tests_bins.Smc.Action.{bind_some, Action}
use fex_assorted_tests_bins.Smc.Report.{Verdict}
use fex_assorted_tests_bins.Smc.Verdicts.{Runs-test_alias, Runs-test_mirror}
use fex_assorted_tests_bins.Smc.Fork.{test_fork_shared}
use fex_assorted_tests_bins.Smc.Programs.{test_alias, test_mirror, test_fork}
use fex_assorted_tests_bins.Smc.Mains.{
  Pair, block, shared_blocks, child_block, in_child, attached_in_child, shared_2_blocks,
  shared_main, shared_2_main, mmap_mremap, shmat_shmat, shmat_mremap, file_twice, file_two,
  mmap_fork, shmat_fork,
}
use fex_assorted_tests_bins.Smc.Mains.Blocks.{Passes, two-Passes, blocks-All}
use fex_assorted_tests_bins.Smc.Mains.Child.{child-IsMirror}
use fex_assorted_tests_bins.Smc.Mains.Mirrors.{
  GivesMirror, GivesShared, mmap_mremap-GivesMirror, shmat_mremap-GivesMirror,
  shmat_shmat-GivesMirror, file_twice-GivesMirror, file_two-GivesMirror, mmap_fork-GivesShared,
  shmat_fork-GivesShared,
}

module _ (m : Machine) (k : Mapper m) where
  open m use {State, view}
  open k use {shmget, shmat}

  module _ (law : IsCoherent m) where
    alias-Passes :
        (pair : Action m (Pair m k)) (name : String)
        → GivesMirror m k pair
        → Passes m 2 (block m k (test_alias m) pair name)
    unfolding block
    alias-Passes pair name h s =
        let (code, codeexec, p, t, e, mirror, ne) = h s in
        let (vs, u, e', ok, len) =
          two-Passes m name (Runs-test_alias m law code codeexec p name refl ne mirror) in
        (
          vs,
          u,
          bind_some (pair s) (λ q. test_alias m q.0 q.1 name) (code, codeexec) t e ∙ e',
          ok,
          len,
        )

    mirror-Passes :
        (pair : Action m (Pair m k)) (name : String)
        → GivesMirror m k pair
        → Passes m 2 (block m k (test_mirror m) pair name)
    unfolding block
    mirror-Passes pair name h s =
        let (code, codeexec, p, t, e, mirror, ne) = h s in
        let (vs, u, e', ok, len) =
          two-Passes m name (Runs-test_mirror m law code codeexec p name refl mirror) in
        (
          vs,
          u,
          bind_some (pair s) (λ q. test_mirror m q.0 q.1 name) (code, codeexec) t e ∙ e',
          ok,
          len,
        )

    fork-Passes :
        (pair : Action m (Pair m k)) (name : String)
        → GivesShared m k pair
        → Passes m 2 (block m k (test_fork m) pair name)
    unfolding block
    fork-Passes pair name h s =
        let (code, p, t, e, mirror, shared) = h s in
        let (vs, u, e', ok, len) =
          two-Passes m name (test_fork_shared m law code code p name refl mirror shared) in
        (vs, u, bind_some (pair s) (λ q. test_fork m q.0 q.1 name) (code, code) t e ∙ e', ok, len)

    module _ (maps : IsMapper m k) where
      -- On a coherent machine whose kernel maps memory, segments and files as documented, which
      -- maps a file shared and to be written only by a descriptor that is open for writing, main of
      -- src/smc-shared.cpp ends from every state, and all its 18 lines say PASS: no assert fails,
      -- and each address that is run shows what was written through the other.
      pub shared_main-Passes : Passes m 18 (shared_main m k)
      unfolding shared_main
      shared_main-Passes =
          let file = file_twice-GivesMirror m k maps in
          let files = file_two-GivesMirror m k maps in
          let mapped = mmap_mremap-GivesMirror m k maps in
          let attached = shmat_mremap-GivesMirror m k maps in
          blocks-All m (shared_blocks m k) (
            alias-Passes (mmap_mremap m k 4096 0) "mmap+mremap" (mapped 4096 0 refl (omega arith)),
            (
              alias-Passes (mmap_mremap m k 8192 4096) "mmap+mremap_mid"
                  (mapped 8192 4096 refl (omega arith)),
              (
                alias-Passes (shmat_shmat m k) "shmat" (shmat_shmat-GivesMirror m k maps),
                (
                  alias-Passes (shmat_mremap m k 4096 0) "shmat+mremap"
                      (attached 4096 0 refl (omega arith)),
                  (
                    alias-Passes (shmat_mremap m k 8192 4096) "shmat+mremap_mid"
                        (attached 8192 4096 refl (omega arith)),
                    (
                      alias-Passes (file_twice m k) "mmap+mmap" file,
                      (
                        alias-Passes (file_two m k) "mmap+mmap (fd, fd2)" files,
                        (
                          alias-Passes (file_twice m k) "shm_open+mmap+mmap" file,
                          (alias-Passes (file_two m k) "shm_open+mmap+mmap (fd, fd2)" files, tt),
                        ),
                      ),
                    ),
                  ),
                ),
              ),
            ),
          )

      in_child_lem :
          (forked : State → State)
          → IsForked m k maps forked
          → (act : Action m (List Verdict)) (t d : State) (vs : List Verdict)
          → act (forked t) ≡ some (vs, d)
          → (u : State) × (in_child m k forked act t ≡ some (vs, u))
      unfolding in_child
      in_child_lem forked fork act t d vs e =
          let (u, e') =
            fork.wait_law (λ c. elim (act c) [ none ↦ none | some (ws, f) ↦ some f ]) t d
              (rw e refl) in
          (u, rw (e, in_child) (rw e' refl))

      child-Passes :
          (forked : State → State) → IsForked m k maps forked → Passes m 2 (child_block m k forked)
      unfolding child_block attached_in_child
      child-Passes forked fork s =
          let (shm, r) = shmget 4096 s in
          let (a, t) = shmat shm false r in
          let (b, u) = shmat shm true (forked t) in
          let (p, mirror) = child-IsMirror m k maps forked fork s in
          let (vs, d, e, ok, len) =
            two-Passes m "fork+shmat (same shmid)"
              (Runs-test_mirror m law a b p "fork+shmat (same shmid)" refl mirror) in
          let (w, e') = in_child_lem forked fork (attached_in_child m k forked shm a) t d vs e in
          (vs, w, e', ok, len)

      -- On a coherent machine whose kernel maps memory, segments and files as documented and whose
      -- children start with the memory and the segments of their parent, main of src/smc-
      -- shared-2.cpp ends from every state, and all its 14 lines say PASS, those behind a change by
      -- a child process and those that a child prints included.
      pub shared_2_main-Passes :
          (forked : State → State)
          → IsForked m k maps forked
          → Passes m 14 (shared_2_main m k forked)
      unfolding shared_2_main
      shared_2_main-Passes forked fork = blocks-All m (shared_2_blocks m k forked) (
        mirror-Passes (mmap_mremap m k 4096 0) "mmap+mremap"
            (mmap_mremap-GivesMirror m k maps 4096 0 refl (omega arith)),
        (
          mirror-Passes (shmat_shmat m k) "shmat" (shmat_shmat-GivesMirror m k maps),
          (
            mirror-Passes (shmat_mremap m k 4096 0) "shmat+mremap"
                (shmat_mremap-GivesMirror m k maps 4096 0 refl (omega arith)),
            (
              mirror-Passes (file_twice m k) "mmap+mmap" (file_twice-GivesMirror m k maps),
              (
                fork-Passes (mmap_fork m k) "mmap+fork" (mmap_fork-GivesShared m k maps),
                (
                  fork-Passes (shmat_fork m k) "shmat+fork" (shmat_fork-GivesShared m k maps),
                  (child-Passes forked fork, tt),
                ),
              ),
            ),
          ),
        ),
      )
