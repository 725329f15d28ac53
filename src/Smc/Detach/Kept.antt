-- ===== src/Smc/Detach/Kept.antt =====
-- What `main` of src/smc-shmatdt.cpp leaves mapped, and what it prints.
use fex_assorted_tests_bins.Prelude.{
  ℕ, ◌+◌, ◌*◌, ◌<◌, ◌≤◌, ◌⊎◌, inl, inr, ◌≡◌, refl, sym, ◌∙◌, ap, subst, true, false, none, some,
  arith,
}
use fex_assorted_tests_bins.Smc.Machine.{IsAligned, View, Machine, within, IsWindow, IsCoherent}
use fex_assorted_tests_bins.Smc.Mapper.{HasRights}
use fex_assorted_tests_bins.Smc.Stub.{read_write_exec, expected, four_view}
use fex_assorted_tests_bins.Smc.Report.{report_four}
use fex_assorted_tests_bins.Smc.Verdicts.{IsCodePage, four_view-IsCodePage, Runs-test_detached}
use fex_assorted_tests_bins.Smc.Detach.{Detacher, IsDetacher, detached_main}

within_page : (a i : ℕ) → i < 4096 → within a 4096 (a + i) ≡ true
within_page a i h = ground arith

-- The first and the third page from `a` on are not in the second.
outside_page : (a i : ℕ) → (i < 4096) ⊎ (4096 * 2 ≤ i) → within (a + 4096) 4096 (a + i) ≡ false
outside_page a i (inl h) = ground arith
outside_page a i (inr h) = ground arith

module _ (m : Machine) (k : Detacher m) (law : IsCoherent m) (detach : IsDetacher m k) where
  open m use {State, view}
  open k use {shmget, shmat, remove, mmap_fixed, shmdt}

  -- The page over the middle, behind the shmdt.
  kept-IsCodePage :
      (ptr a p : ℕ) (s : State)
      → IsAligned a
      → IsWindow (view s) a p 4096
      → HasRights (view s) a 4096 read_write_exec
      → ((x : ℕ) → within a 4096 x ≡ true → detach.attached x s ≡ none)
      → IsCodePage (view (shmdt ptr s).1) a p
  kept-IsCodePage ptr a p s aligned window rights free =
      let kept : (i : ℕ) → i < 4096 → detach.attached (a + i) s ≡ none =
        λ i low. free (a + i) (within_page a i low) in
      record {
        aligned = aligned;
        page = λ i low. (detach.shmdt_kept ptr (a + i) s (kept i low)).0 ∙ window i low;
        writes = λ i low.
            let low' : i < 4096 = omega arith in
            (detach.shmdt_kept ptr (a + i) s (kept i low')).1 ∙ (rights i low').0;
        runs = λ i low.
            let low' : i < 4096 = omega arith in
            (detach.shmdt_kept ptr (a + i) s (kept i low')).2 ∙ (rights i low').1;
      }

  -- On a coherent machine whose shmdt unmaps what still belongs to the attachment and nothing else,
  -- main of src/smc-shmatdt.cpp ends from every state with PASS for all four calls; the first and
  -- the third page of the segment are unmapped then, and the page that was mapped over the second
  -- may still be written and run.
  pub detached_main-IsCodePage :
      (s : State)
      → (ptrshm : ℕ) × (p : ℕ) × (t : State) × (detached_main m k s
          ≡ some (report_four "mmap+shmdt" expected, t))
        × ((i : ℕ) → i < 4096 * 3 → (i < 4096) ⊎ (4096 * 2 ≤ i) → (view t).phys (ptrshm + i) ≡ none)
        × IsCodePage (view t) (ptrshm + 4096) p
  unfolding detached_main
  detached_main-IsCodePage s =
      let (shmid, s₁) = shmget (4096 * 3) s in
      let (ptr, s₂) = shmat shmid s₁ in
      let s₃ = (remove shmid s₂).1 in
      let (a, s₄) = mmap_fixed (ptr + 4096) 4096 read_write_exec s₃ in
      let start = detach.shmat_aligned shmid (4096 * 3) s₁ (detach.shmget_law (4096 * 3) s) in
      let aligned : IsAligned (ptr + 4096) = omega (arith, start) in
      let (same, (p, window), rights, attached) =
        detach.fixed_law (ptr + 4096) 4096 read_write_exec s₃ aligned in
      let page =
        kept-IsCodePage ptr (ptr + 4096) p s₄ aligned window rights
          (λ x inside. attached x ∙ (rw inside refl)) in
      let (t, e, seen) =
        Runs-test_detached m law a p "mmap+shmdt" refl
          (subst (λ x. IsCodePage (view (shmdt ptr s₄).1) x p) (sym same) page) in
      let left : (i : ℕ)
          → i < 4096 * 3
          → (i < 4096) ⊎ (4096 * 2 ≤ i)
          → detach.attached (ptr + i) s₄ ≡ some ptr =
        λ i low side.
          attached (ptr + i)
          ∙ (let out = outside_page ptr i side in rw out refl)
          ∙ detach.remove_law shmid (ptr + i) s₂
          ∙ detach.shmat_law shmid (4096 * 3) i s₁ (detach.shmget_law (4096 * 3) s) low in
      (
        ptr,
        p,
        t,
        e,
        λ i low side.
            ap (λ (v : View). v.phys (ptr + i)) seen
            ∙ detach.shmdt_law ptr (ptr + i) s₄ (left i low side),
        subst (λ v. IsCodePage v (ptr + 4096) p)
            (sym (seen ∙ ap (λ x. four_view (view (shmdt ptr s₄).1) x p) same))
            (four_view-IsCodePage page),
      )
