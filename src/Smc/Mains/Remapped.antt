-- ===== src/Smc/Mains/Remapped.antt =====
-- `main` of src/smc-2.cpp on a coherent machine: each test leaves its page mapped, so that the page can
-- be mapped once more.
use fex_assorted_tests_bins.Prelude.{ℕ, ◌+◌, true, List, ◌++◌, ◌≡◌, refl, sym, ◌∙◌, subst, arith}
use fex_assorted_tests_bins.Smc.Machine.{
  IsAligned, IsShared, View, Machine, IsWindow, IsCoherent, within,
}
use fex_assorted_tests_bins.Smc.Mapper.{Mapper, HasRights, IsMapper}
use fex_assorted_tests_bins.Smc.Action.{bind_some, pure}
use fex_assorted_tests_bins.Smc.Stub.{expected, read_write_exec, four_view}
use fex_assorted_tests_bins.Smc.Report.{
  Verdict, all_pass, append-all_pass, report_four, report_four_iff,
}
use fex_assorted_tests_bins.Smc.Verdicts.{IsCodePage, Runs-test_remapped}
use fex_assorted_tests_bins.Smc.Mains.{remapped_last, remapped_rest, remapped_main}
use fex_assorted_tests_bins.Smc.Programs.{test_remapped}
use fex_assorted_tests_bins.Smc.Mains.Blocks.{Passes}

page-IsCodePage :
    (v : View) (a p : ℕ)
    → IsAligned a
    → IsWindow v a p 4096
    → HasRights v a 4096 read_write_exec
    → IsCodePage v a p
page-IsCodePage v a p aligned window rights = record {
  aligned = aligned;
  page = window;
  writes = λ i lt. (rights i (omega arith)).0;
  runs = λ i lt. (rights i (omega arith)).1;
}

four_view-HasRights : (v : View) (a p : ℕ) → HasRights (four_view v a p) a 4096 read_write_exec
four_view-HasRights v a p i lt =
    let inside : within a 4096 (a + i) ≡ true = ground arith in rw inside (refl, refl)

three-all_pass :
    (a b c : List Verdict)
    → all_pass a ≡ true
    → all_pass b ≡ true
    → all_pass c ≡ true
    → all_pass (a ++ b ++ c) ≡ true
three-all_pass a b c h h' h'' = append-all_pass (a ++ b) c (append-all_pass a b h h') h''

module _ (m : Machine) (k : Mapper m) (law : IsCoherent m) (maps : IsMapper m k) where
  open m use {State, view}
  open k use {mmap, mremap, shmget, shmat}

  -- On a coherent machine whose kernel maps memory, segments and files as documented, main of
  -- src/smc-2.cpp ends from every state, and all its 12 lines say PASS.
  pub remapped_main-Passes : Passes m 12 (remapped_main m k)
  unfolding remapped_main remapped_rest remapped_last
  remapped_main-Passes s =
      let (a, s₁) = mmap 4096 read_write_exec s in
      let (p, map₁, rights₁) = maps.mmap_law 4096 read_write_exec s (omega arith) in
      let (map₂, rights₂) =
        maps.mremap_law a p 4096 read_write_exec s₁ (omega arith) map₁.aligned map₁.window
          map₁.shared rights₁ in
      let (b, s₂) = mremap a 4096 s₁ in
      let (t, e, h) =
        Runs-test_remapped m law b p "mremap" refl
          (page-IsCodePage (view s₂) b p map₂.aligned map₂.window rights₂) in
      let (shm, s₃) = shmget 4096 t in
      let (q, seg) = maps.shmget_law 4096 t (omega arith) in
      let (c, s₄) = shmat shm true s₃ in
      let (map₄, rights₄, seg') = maps.shmat_law shm q 4096 true s₃ seg in
      let (t', e', h') =
        Runs-test_remapped m law c q "shmat" refl
          (page-IsCodePage (view s₄) c q map₄.aligned map₄.window rights₄) in
      let window' : IsWindow (view t') c q 4096 =
        subst (λ v. IsWindow v c q 4096) (sym h') map₄.window in
      let shared' : IsShared (view t') q 4096 =
        subst (λ v. IsShared v q 4096) (sym h') map₄.shared in
      let rights' : HasRights (view t') c 4096 read_write_exec =
        subst (λ v. HasRights v c 4096 read_write_exec) (sym h')
          (four_view-HasRights (view s₄) c q) in
      let (map₅, rights₅) =
        maps.mremap_law c q 4096 read_write_exec t' (omega arith) map₄.aligned window' shared'
          rights' in
      let (d, s₅) = mremap c 4096 t' in
      let (t'', e'', h'') =
        Runs-test_remapped m law d q "shmat+mremap" refl
          (page-IsCodePage (view s₅) d q map₅.aligned map₅.window rights₅) in
      (
        report_four "mremap" expected
            ++ report_four "shmat" expected
            ++ report_four "shmat+mremap" expected,
        t'',
        bind_some (test_remapped m b "mremap" s₂) (λ v. remapped_rest m k v)
              (report_four "mremap" expected) t e
            ∙ bind_some (test_remapped m c "shmat" s₄)
                (λ v. remapped_last m k c (report_four "mremap" expected ++ v))
                (report_four "shmat" expected) t' e'
            ∙ bind_some (test_remapped m d "shmat+mremap" s₅)
                (λ v. pure (report_four "mremap" expected ++ report_four "shmat" expected ++ v))
                (report_four "shmat+mremap" expected) t'' e'',
        three-all_pass (report_four "mremap" expected) (report_four "shmat" expected)
            (report_four "shmat+mremap" expected) ((report_four_iff "mremap" expected).1 refl)
            ((report_four_iff "shmat" expected).1 refl)
            ((report_four_iff "shmat+mremap" expected).1 refl),
        (unfold report_four in refl),
      )
