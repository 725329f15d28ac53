-- ===== src/Smc/Mains/Mirrors.antt =====
-- The pairs of addresses that the mains of src/smc-shared.cpp and src/smc-shared-2.cpp make: both show
-- the same bytes, one to be written and one to be run.
use fex_assorted_tests_bins.Prelude.{
  Bool, ℕ, ◌+◌, ◌≤◌, inl, inr, true, false, some, ◌≡◌, ◌≢◌, refl, sym, ◌∙◌, ap, subst, arith,
}
use fex_assorted_tests_bins.Smc.Machine.{
  IsAligned, IsShared, Prot, View, Machine, IsWindow, MayWrite, MayRun,
}
use fex_assorted_tests_bins.Smc.Mapper.{Mapper, Maps, HasRights, IsMapper}
use fex_assorted_tests_bins.Smc.Action.{Action}
use fex_assorted_tests_bins.Smc.Stub.{read_exec, read_write_exec}
use fex_assorted_tests_bins.Smc.Verdicts.{IsMirror}
use fex_assorted_tests_bins.Smc.Mains.{
  read_write, Pair, mmap_mremap, shmat_shmat, shmat_mremap, file_twice, file_two, mmap_fork,
  shmat_fork,
}

-- A part of a window, from `mid` on.
part-IsWindow :
    (v : View) (a p len mid n : ℕ)
    → mid + n ≤ len
    → IsWindow v a p len
    → IsWindow v (a + mid) (p + mid) n
part-IsWindow v a p len mid n h w i lt =
    let to : a + (mid + i) ≡ a + mid + i = omega arith in
    let from : p + (mid + i) ≡ p + mid + i = omega arith in
    ap v.phys (sym to) ∙ w (mid + i) (omega arith) ∙ ap some from

part-IsShared :
    (v : View) (p len mid n : ℕ) → mid + n ≤ len → IsShared v p len → IsShared v (p + mid) n
part-IsShared v p len mid n h shared i lt =
    let from : p + (mid + i) ≡ p + mid + i = omega arith in
    ap v.shared (sym from) ∙ shared (mid + i) (omega arith)

part-HasRights :
    (v : View) (a len mid n : ℕ) (prot : Prot)
    → mid + n ≤ len
    → HasRights v a len prot
    → HasRights v (a + mid) n prot
part-HasRights v a len mid n prot h r i lt =
    let to : a + (mid + i) ≡ a + mid + i = omega arith in
    subst (λ x. (v.writable x ≡ prot.write) × (v.executable x ≡ prot.exec)) to
      (r (mid + i) (omega arith))

pub MayWrite-HasRights :
    (v : View) (a len : ℕ) (prot : Prot)
    → 6 ≤ len
    → prot.write ≡ true
    → HasRights v a len prot
    → MayWrite v a 6
MayWrite-HasRights v a len prot h e r i lt = (r i (omega arith)).0 ∙ e

pub MayRun-HasRights :
    (v : View) (a len : ℕ) (prot : Prot)
    → 6 ≤ len
    → prot.exec ≡ true
    → HasRights v a len prot
    → MayRun v a 6
MayRun-HasRights v a len prot h e r i lt = (r i (omega arith)).1 ∙ e

-- A mapping that is made behind that of the same bytes to be written.
pub Maps-IsMirror :
    (v w : View) (a b q len : ℕ)
    → Maps v w b q len
    → 6 ≤ len
    → IsWindow v a q 6
    → MayWrite v a 6
    → MayRun w b 6
    → IsMirror w a b q × (a ≢ b)
Maps-IsMirror v w a b q len maps h window writes runs = (
  record {
    window = λ i lt. maps.kept (a + i) (q + i) (window i lt);
    writes = λ i lt. maps.kept_writable (a + i) (q + i) (window i lt) ∙ writes i lt;
    run_window = λ i lt. maps.window i (omega arith);
    runs = runs;
  },
  λ e. elim (maps.apart (a + 0) (q + 0) (window 0 (omega arith))) [
    | inl below ↦ omega arith
    | inr above ↦ omega arith
  ],
)

module _ (m : Machine) (k : Mapper m) where
  open m use {State, view}
  open k use {mmap, mmap_file, mremap, shmget, shmat, create, reopen}

  abbrev pub GivesMirror : Action m (Pair m k) → Type 0
  GivesMirror act =
      (s : State)
      → (code : ℕ) × (codeexec : ℕ) × (p : ℕ) × (t : State) × (act s ≡ some ((code, codeexec), t))
        × IsMirror (view t) code codeexec p
        × (code ≢ codeexec)

  -- One address for both, whose bytes a child process shares.
  abbrev pub GivesShared : Action m (Pair m k) → Type 0
  GivesShared act =
      (s : State)
      → (code : ℕ) × (p : ℕ) × (t : State) × (act s ≡ some ((code, code), t))
        × IsMirror (view t) code code p
        × IsShared (view t) p 6

  module _ (law : IsMapper m k) where
    pub mmap_mremap-GivesMirror :
        (size mid : ℕ) → IsAligned mid → mid + 4096 ≤ size → GivesMirror (mmap_mremap m k size mid)
    unfolding mmap_mremap
    mmap_mremap-GivesMirror size mid start h s =
        let (a, t) = mmap size read_write_exec s in
        let (p, maps, rights) = law.mmap_law size read_write_exec s (omega arith) in
        let window = part-IsWindow (view t) a p size mid 4096 h maps.window in
        let part = part-HasRights (view t) a size mid 4096 read_write_exec h rights in
        let shared = part-IsShared (view t) p size mid 4096 h maps.shared in
        let aligned : IsAligned (a + mid) = omega (arith, maps.aligned) in
        let (maps', rights') =
          law.mremap_law (a + mid) (p + mid) 4096 read_write_exec t (omega arith) aligned window
            shared part in
        let (b, u) = mremap (a + mid) 4096 t in
        let (mirror, ne) =
          Maps-IsMirror (view t) (view u) (a + mid) b (p + mid) 4096 maps' (omega arith)
            (λ i lt. window i (omega arith))
            (MayWrite-HasRights (view t) (a + mid) 4096 read_write_exec (omega arith) refl part)
            (MayRun-HasRights (view u) b 4096 read_write_exec (omega arith) refl rights') in
        (a + mid, b, p + mid, u, refl, mirror, ne)

    pub shmat_mremap-GivesMirror :
        (size mid : ℕ) → IsAligned mid → mid + 4096 ≤ size → GivesMirror (shmat_mremap m k size mid)
    unfolding shmat_mremap
    shmat_mremap-GivesMirror size mid start h s =
        let (shm, r) = shmget size s in
        let (p, seg) = law.shmget_law size s (omega arith) in
        let (a, t) = shmat shm true r in
        let (maps, rights, seg') = law.shmat_law shm p size true r seg in
        let window = part-IsWindow (view t) a p size mid 4096 h maps.window in
        let part = part-HasRights (view t) a size mid 4096 read_write_exec h rights in
        let shared = part-IsShared (view t) p size mid 4096 h maps.shared in
        let aligned : IsAligned (a + mid) = omega (arith, maps.aligned) in
        let (maps', rights') =
          law.mremap_law (a + mid) (p + mid) 4096 read_write_exec t (omega arith) aligned window
            shared part in
        let (b, u) = mremap (a + mid) 4096 t in
        let (mirror, ne) =
          Maps-IsMirror (view t) (view u) (a + mid) b (p + mid) 4096 maps' (omega arith)
            (λ i lt. window i (omega arith))
            (MayWrite-HasRights (view t) (a + mid) 4096 read_write_exec (omega arith) refl part)
            (MayRun-HasRights (view u) b 4096 read_write_exec (omega arith) refl rights') in
        (a + mid, b, p + mid, u, refl, mirror, ne)

    pub shmat_shmat-GivesMirror : GivesMirror (shmat_shmat m k)
    unfolding shmat_shmat
    shmat_shmat-GivesMirror s =
        let (shm, r) = shmget 4096 s in
        let (p, seg) = law.shmget_law 4096 s (omega arith) in
        let (a, t) = shmat shm false r in
        let (maps, rights, seg') = law.shmat_law shm p 4096 false r seg in
        let (maps', rights', seg'') = law.shmat_law shm p 4096 true t seg' in
        let (b, u) = shmat shm true t in
        let (mirror, ne) =
          Maps-IsMirror (view t) (view u) a b p 4096 maps' (omega arith)
            (λ i lt. maps.window i (omega arith))
            (MayWrite-HasRights (view t) a 4096 read_write (omega arith) refl rights)
            (MayRun-HasRights (view u) b 4096 read_write_exec (omega arith) refl rights') in
        (a, b, p, u, refl, mirror, ne)

    -- Two mappings of a file, the first by a descriptor that is open for writing.
    mapped_twice :
        (fd fd2 p : ℕ) (both : Bool) (s : State)
        → law.file fd s ≡ some (record { base = p; size = 4096; for_writing = true })
        → law.file fd2 s ≡ some (record { base = p; size = 4096; for_writing = both })
        → let (a, t) = mmap_file 4096 read_write fd s in
          let (b, u) = mmap_file 4096 read_exec fd2 t in IsMirror (view u) a b p × (a ≢ b)
    mapped_twice fd fd2 p both s h h2 =
        let (a, t) = mmap_file 4096 read_write fd s in
        let (maps, rights, files) =
          law.mmap_file_law fd (record { base = p; size = 4096; for_writing = true }) read_write s h
            (omega arith) (λ e. refl) in
        let (maps', rights', files') =
          law.mmap_file_law fd2 (record { base = p; size = 4096; for_writing = both }) read_exec t
            (files fd2 ∙ h2) (omega arith) (λ e. cc) in
        let (b, u) = mmap_file 4096 read_exec fd2 t in
        Maps-IsMirror (view t) (view u) a b p 4096 maps' (omega arith)
          (λ i lt. maps.window i (omega arith))
          (MayWrite-HasRights (view t) a 4096 read_write (omega arith) refl rights)
          (MayRun-HasRights (view u) b 4096 read_exec (omega arith) refl rights')

    pub file_twice-GivesMirror : GivesMirror (file_twice m k)
    unfolding file_twice
    file_twice-GivesMirror s =
        let (fd, r) = create 4096 s in
        let (p, h) = law.create_law 4096 s in
        let (a, t) = mmap_file 4096 read_write fd r in
        let (b, u) = mmap_file 4096 read_exec fd t in
        let (mirror, ne) = mapped_twice fd fd p true r h h in (a, b, p, u, refl, mirror, ne)

    pub file_two-GivesMirror : GivesMirror (file_two m k)
    unfolding file_two
    file_two-GivesMirror s =
        let (fd, r) = create 4096 s in
        let (p, h) = law.create_law 4096 s in
        let (fd2, r') = reopen fd r in
        let (h', h2) =
          law.reopen_law fd (record { base = p; size = 4096; for_writing = true }) r h in
        let (a, t) = mmap_file 4096 read_write fd r' in
        let (b, u) = mmap_file 4096 read_exec fd2 t in
        let (mirror, ne) = mapped_twice fd fd2 p false r' h' h2 in (a, b, p, u, refl, mirror, ne)

    -- One mapping that may be written and run.
    Maps-IsMirror_self :
        (v w : View) (a p : ℕ)
        → Maps v w a p 4096
        → HasRights w a 4096 read_write_exec
        → IsMirror w a a p × IsShared w p 6
    Maps-IsMirror_self v w a p maps rights = (
      record {
        window = λ i lt. maps.window i (omega arith);
        writes = MayWrite-HasRights w a 4096 read_write_exec (omega arith) refl rights;
        run_window = λ i lt. maps.window i (omega arith);
        runs = MayRun-HasRights w a 4096 read_write_exec (omega arith) refl rights;
      },
      λ i lt. maps.shared i (omega arith),
    )

    pub mmap_fork-GivesShared : GivesShared (mmap_fork m k)
    unfolding mmap_fork
    mmap_fork-GivesShared s =
        let (a, t) = mmap 4096 read_write_exec s in
        let (p, maps, rights) = law.mmap_law 4096 read_write_exec s (omega arith) in
        let (mirror, shared) = Maps-IsMirror_self (view s) (view t) a p maps rights in
        (a, p, t, refl, mirror, shared)

    pub shmat_fork-GivesShared : GivesShared (shmat_fork m k)
    unfolding shmat_fork
    shmat_fork-GivesShared s =
        let (shm, r) = shmget 4096 s in
        let (p, seg) = law.shmget_law 4096 s (omega arith) in
        let (a, t) = shmat shm true r in
        let (maps, rights, seg') = law.shmat_law shm p 4096 true r seg in
        let (mirror, shared) = Maps-IsMirror_self (view r) (view t) a p maps rights in
        (a, p, t, refl, mirror, shared)
