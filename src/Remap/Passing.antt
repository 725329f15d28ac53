-- ===== src/Remap/Passing.antt =====
-- The other blocks of `main` in src/mremap.cpp, with what the mirror shows, and `main` itself.
use fex_assorted_tests_bins.Prelude.{
  ℕ, zero, suc, ◌+◌, ◌*◌, ◌<◌, ◌≡◌, ◌≢◌, refl, sym, subst, ◌∙◌, true, some, List, [], ◌∷◌, arith,
  map,
}
use fex_assorted_tests_bins.Growsdown.{prot_read, read_write_exec}
use fex_assorted_tests_bins.Smc.Action.{bind_some}
use fex_assorted_tests_bins.Remap.{
  Kernel, behind, IsKernel, Line, unmapped_block, protected_block, restored_block, middle_block,
  mirror_block, main,
}
use fex_assorted_tests_bins.Remap.Blocks.{
  Passes, page_lem, page_of, mmap_shared-IsPair, moved, protected_lem, unmapped-Passes,
  protected-Passes,
}
use fex_assorted_tests_bins.Remap.Mirror.{mirror-Passes}

module _ (k : Kernel) (law : IsKernel k) where
  open k use {
    State, page, content, mmap_shared, mmap_private, munmap, mprotect, mremap, store, load,
  }

  at_two : (P : ℕ → Type 0) (i : ℕ) → i < 2 → P 0 → P 1 → P i
  at_two P zero h a b = a
  at_two P (suc zero) h a b = b
  at_two P (suc (suc i)) h a b = absurd (omega arith)

  restored-Passes : Passes k (restored_block k)
  unfolding restored_block
  restored-Passes s =
      let (p, o, h) = mmap_shared-IsPair k law s in
      let code = (mmap_shared read_write_exec s).0 in
      let s2 = mprotect (code + 4096) prot_read (mmap_shared read_write_exec s).1 in
      let s3 = mprotect (code + 4096) read_write_exec s2 in
      let (here, next) = protected_lem k law code p o prot_read _ h in
      let second : code + 4096 ≡ (p + 1) * 4096 = omega (arith, h.at) in
      let (next', kept) : (page s3 (p + 1) ≡ some (page_of k law o 1))
          × ((x : ℕ) → x ≢ p + 1 → page s3 x ≡ page s2 x) =
        subst
          (λ a.
            (page (mprotect a read_write_exec s2) (p + 1) ≡ some (page_of k law o 1))
            × ((x : ℕ) → x ≢ p + 1 → page (mprotect a read_write_exec s2) x ≡ page s2 x))
          (sym second)
          (law.mprotect_law (p + 1) read_write_exec
            (record (page_of k law o 1) { rights = prot_read }) s2 next) in
      let same : p ≡ p + 0 = omega arith in
      let all : (i : ℕ) → i < 2 → page s3 (p + i) ≡ some (behind (page_of k law o 0) i) = λ i low.
        at_two (λ j. page s3 (p + j) ≡ some (behind (page_of k law o 0) j)) i low
          (subst (λ x. page s3 x ≡ some (page_of k law o 0)) same
            (kept p (λ e. omega (arith, e)) ∙ here))
          next' in
      let good = page_lem code p h.at in
      let grown = moved k law code p 2 4 (page_of k law o 0) s3 h.at (omega arith) all in
      (_, _, refl, rw (good, grown) refl)

  middle-Passes : Passes k (middle_block k)
  unfolding middle_block
  middle-Passes s =
      let (p, o, h) = mmap_shared-IsPair k law s in
      let code = (mmap_shared read_write_exec s).0 in
      let s1 = (mmap_shared read_write_exec s).1 in
      let second : code + 4096 ≡ (p + 1) * 4096 = omega (arith, h.at) in
      let one : (i : ℕ) → i < 1 → page s1 (p + 1 + i) ≡ some (behind (page_of k law o 1) i) =
        λ i low.
          let none_else : 0 ≡ i = omega arith in
          let same : p + 1 ≡ p + 1 + 0 = omega arith in
          subst (λ j. page s1 (p + 1 + j) ≡ some (behind (page_of k law o 1) j)) none_else
            (subst (λ x. page s1 x ≡ some (page_of k law o 1)) same (h.pages 1 (omega arith))) in
      let good = page_lem code p h.at in
      let grown =
        moved k law (code + 4096) (p + 1) 1 4 (page_of k law o 1) s1 second (omega arith) one in
      (_, _, refl, rw (good, grown) refl)

  -- On a kernel whose mremap refuses a range that is not one mapping, moves one that is, and for an
  -- old size of 0 mirrors the object behind the first page, main of src/mremap.cpp ends from every
  -- state, and the five lines it prints all say that the test passes.
  pub main_passes :
      (s : State)
      → (ls : List Line) × (t : State) × (main k s ≡ some (ls, t))
        × (map (λ (l : Line). l.pass) ls ≡ true ∷ true ∷ true ∷ true ∷ true ∷ [])
  unfolding main
  main_passes s =
      let (l1, s1, e1, p1) = unmapped-Passes k law s in
      let (l2, s2, e2, p2) = protected-Passes k law s1 in
      let (l3, s3, e3, p3) = restored-Passes s2 in
      let (l4, s4, e4, p4) = middle-Passes s3 in
      let (l5, s5, e5, p5) = mirror-Passes k law s4 in
      (
        l1 ∷ l2 ∷ l3 ∷ l4 ∷ l5 ∷ [],
        s5,
        bind_some (unmapped_block k s) _ l1 s1 e1
            ∙ bind_some (protected_block k s1) _ l2 s2 e2
            ∙ bind_some (restored_block k s2) _ l3 s3 e3
            ∙ bind_some (middle_block k s3) _ l4 s4 e4
            ∙ bind_some (mirror_block k s4) _ l5 s5 e5,
        rw (p1, p2, p3, p4, p5) refl,
      )
