-- ===== src/Smc/Mains/Child.antt =====
-- The last block of `main` of src/smc-shared-2.cpp: what its child process sees.
use fex_assorted_tests_bins.Prelude.{ℕ, true, false, refl, sym, ◌∙◌, subst, arith}
use fex_assorted_tests_bins.Smc.Machine.{Machine, IsWindow, MayWrite}
use fex_assorted_tests_bins.Smc.Mapper.{Mapper, IsMapper, IsForked}
use fex_assorted_tests_bins.Smc.Stub.{read_write_exec}
use fex_assorted_tests_bins.Smc.Verdicts.{IsMirror}
use fex_assorted_tests_bins.Smc.Mains.{read_write}
use fex_assorted_tests_bins.Smc.Mains.Mirrors.{Maps-IsMirror, MayWrite-HasRights, MayRun-HasRights}

module _ (m : Machine) (k : Mapper m) (law : IsMapper m k) where
  open m use {State, view}
  open k use {shmget, shmat}

  -- A segment that the parent attaches to be written, and its child to be run.
  pub child-IsMirror :
      (forked : State → State) (fork : IsForked m k law forked) (s : State)
      → (p : ℕ) × (IsMirror
          (view
            (shmat
              (shmget 4096 s).0
              true
              (forked (shmat (shmget 4096 s).0 false (shmget 4096 s).1).1)).1)
          (shmat (shmget 4096 s).0 false (shmget 4096 s).1).0
          (shmat
            (shmget 4096 s).0
            true
            (forked (shmat (shmget 4096 s).0 false (shmget 4096 s).1).1)).0
          p)
  child-IsMirror forked fork s =
      let (shm, r) = shmget 4096 s in
      let (p, seg) = law.shmget_law 4096 s (omega arith) in
      let (a, t) = shmat shm false r in
      let (maps, rights, seg') = law.shmat_law shm p 4096 false r seg in
      let c = forked t in
      let (maps', rights', seg'') =
        law.shmat_law shm p 4096 true c (fork.segment_law shm t ∙ seg') in
      let (b, u) = shmat shm true c in
      let writes : MayWrite (view c) a 6 =
        subst (λ v. MayWrite v a 6) (sym (fork.view_law t))
          (MayWrite-HasRights (view t) a 4096 read_write (omega arith) refl rights) in
      let window : IsWindow (view c) a p 6 =
        subst (λ v. IsWindow v a p 6) (sym (fork.view_law t))
          (λ i lt. maps.window i (omega arith)) in
      let (mirror, ne) =
        Maps-IsMirror (view c) (view u) a b p 4096 maps' (omega arith) window writes
          (MayRun-HasRights (view u) b 4096 read_write_exec (omega arith) refl rights') in
      (p, mirror)
