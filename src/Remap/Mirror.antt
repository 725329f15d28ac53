-- ===== src/Remap/Mirror.antt =====
-- The last block of `main` in src/mremap.cpp: what is stored through one mapping and loaded through another.
use fex_assorted_tests_bins.Prelude.{
  ℕ, ◌+◌, ◌*◌, ◌<◌, ◌≡◌, ◌≢◌, ◌⊎◌, inl, inr, refl, sym, subst, ap, ◌∙◌, true, false, not, some,
  ◌==◌, arith,
}
use fex_assorted_tests_bins.Growsdown.{prot_read, read_write_exec}
use fex_assorted_tests_bins.Smc.Action.{bind_some}
use fex_assorted_tests_bins.Remap.{
  Page, Kernel, behind, set_content, IsKernel, poke, peek, second_differs, compare_mirror,
  mirror_block,
}
use fex_assorted_tests_bins.Remap.Blocks.{
  Passes, page_lem, page_of, mmap_shared-IsPair, replaced, replaced_lem,
}

set_hit : (f : ℕ → ℕ → ℕ) (o i v : ℕ) → set_content f o i v o i ≡ v
set_hit f o i v = ground arith

set_elsewhere :
    (f : ℕ → ℕ → ℕ) (o i v o' j : ℕ) → (o' ≢ o) ⊎ (j ≢ i) → set_content f o i v o' j ≡ f o' j
set_elsewhere f o i v o' j (inl h) = let d : (o == o') ≡ false = ground arith in rw d refl
set_elsewhere f o i v o' j (inr h) = ground arith

module _ (k : Kernel) (law : IsKernel k) where
  open k use {
    State, page, content, mmap_shared, mmap_private, munmap, mprotect, mremap, store, load,
  }

  Runs-poke :
      (a p i v : ℕ) (g : Page) (s : State)
      → a ≡ p * 4096 + i
      → i < 4096
      → page s p ≡ some g
      → g.rights.write ≡ true
      → (t : State) × (poke k a v s ≡ some (tt, t))
        × ((x : ℕ) → page t x ≡ page s x)
        × ((o j : ℕ) → content t o j ≡ set_content (content s) g.object (g.index * 4096 + i) v o j)
  unfolding poke
  Runs-poke a p i v g s at low here ok =
      let (t, e, same, bytes) = law.store_law p i v g s low here ok in
      let e' : store a v s ≡ some t = subst (λ x. store x v s ≡ some t) (sym at) e in
      (t, rw (e', poke) refl, same, bytes)

  Runs-peek :
      (a p i v : ℕ) (g : Page) (s : State)
      → a ≡ p * 4096 + i
      → i < 4096
      → page s p ≡ some g
      → g.rights.read ≡ true
      → content s g.object (g.index * 4096 + i) ≡ v
      → peek k a s ≡ some (v, s)
  unfolding peek
  Runs-peek a p i v g s at low here ok known =
      let e : load a s ≡ some v =
        subst (λ x. load x s ≡ some v) (sym at)
          (law.load_law p i g s low here ok ∙ ap (λ b. some b) known) in
      rw (e, peek) refl

  -- Both first bytes are `a`, and the second pages show `c` and `d`.
  compare_lem :
      (code code2 a c d : ℕ) (s : State)
      → peek k (code + 0) s ≡ some (a, s)
      → peek k (code2 + 0) s ≡ some (a, s)
      → peek k (code + 4096) s ≡ some (c, s)
      → peek k (code2 + 4096) s ≡ some (d, s)
      → compare_mirror k code code2 s ≡ some (not (c == d), s)
  unfolding compare_mirror second_differs
  compare_lem code code2 a c d s e e' f f' =
      let same : (a == a) ≡ true = ground arith in
      bind_some _ _ a s e
      ∙ bind_some _ _ a s e'
      ∙ rw same (bind_some _ _ c s f ∙ bind_some _ _ d s f')

  mirrored :
      (code p m : ℕ) (g : Page) (s : State)
      → code ≡ p * 4096
      → page s p ≡ some g
      → g.shared ≡ true
      → (q : ℕ) × ((mremap code 0 m s).0 ≡ q * 4096)
        × ((i : ℕ) → i < m → page (mremap code 0 m s).1 (q + i) ≡ some (behind g i))
        × ((x : ℕ) (h : Page) → page s x ≡ some h → page (mremap code 0 m s).1 x ≡ some h)
        × ((o i : ℕ) → content (mremap code 0 m s).1 o i ≡ content s o i)
  mirrored code p m g s at here ok =
      subst
        (λ a.
          (q : ℕ) × ((mremap a 0 m s).0 ≡ q * 4096)
          × ((i : ℕ) → i < m → page (mremap a 0 m s).1 (q + i) ≡ some (behind g i))
          × ((x : ℕ) (h : Page) → page s x ≡ some h → page (mremap a 0 m s).1 x ≡ some h)
          × ((o i : ℕ) → content (mremap a 0 m s).1 o i ≡ content s o i))
        (sym at) (law.mirror_law p m g s here ok)

  -- The two stores and the comparison, where `code` shows a private page behind the first, and `code2`
  -- the two pages of the object.
  stores_lem :
      (code code2 p q o o' : ℕ) (s : State)
      → code ≡ p * 4096
      → code2 ≡ q * 4096
      → o' ≢ o
      → page s p ≡ some (page_of k law o 0)
      → page s (p + 1)
        ≡ some (record { object = o'; index = 0; rights = prot_read; shared = false })
      → page s q ≡ some (page_of k law o 0)
      → page s (q + 1) ≡ some (page_of k law o 1)
      → content s o' 0 ≡ 0
      → (t : State) × (u : State) × (poke k (code + 0) 192 s ≡ some (tt, t))
        × (poke k (code2 + 4096) 193 t ≡ some (tt, u))
        × (compare_mirror k code code2 u ≡ some (true, u))
  stores_lem code code2 p q o o' s at at2 other p0 p1 q0 q1 zero_byte =
      let (t, e, same, bytes) =
        Runs-poke (code + 0) p 0 192 (page_of k law o 0) s (omega (arith, at)) (omega arith) p0
          refl in
      let (u, e', same', bytes') =
        Runs-poke (code2 + 4096) (q + 1) 0 193 (page_of k law o 1) t (omega (arith, at2))
          (omega arith) (same (q + 1) ∙ q1) refl in
      let first_byte : content u o 0 ≡ 192 =
        bytes' o 0
        ∙ set_elsewhere (content t) o 4096 193 o 0 (inr (λ x. omega (arith, x)))
        ∙ bytes o 0
        ∙ set_hit (content s) o 0 192 in
      let private_byte : content u o' 0 ≡ 0 =
        bytes' o' 0
        ∙ set_elsewhere (content t) o 4096 193 o' 0 (inl other)
        ∙ bytes o' 0
        ∙ set_elsewhere (content s) o 0 192 o' 0 (inl other)
        ∙ zero_byte in
      let second_byte : content u o 4096 ≡ 193 = bytes' o 4096 ∙ set_hit (content t) o 4096 193 in
      let kept : (x : ℕ) → page u x ≡ page s x = λ x. same' x ∙ same x in
      (
        t,
        u,
        e,
        e',
        compare_lem code code2 192 0 193 u
            (Runs-peek (code + 0) p 0 192 (page_of k law o 0) u (omega (arith, at)) (omega arith)
              (kept p ∙ p0) refl first_byte)
            (Runs-peek (code2 + 0) q 0 192 (page_of k law o 0) u (omega (arith, at2)) (omega arith)
              (kept q ∙ q0) refl first_byte)
            (Runs-peek (code + 4096) (p + 1) 0 0
              (record { object = o'; index = 0; rights = prot_read; shared = false }) u
              (omega (arith, at)) (omega arith) (kept (p + 1) ∙ p1) refl private_byte)
            (Runs-peek (code2 + 4096) (q + 1) 0 193 (page_of k law o 1) u (omega (arith, at2))
              (omega arith) (kept (q + 1) ∙ q1) refl second_byte),
      )

  pub mirror-Passes : Passes k (mirror_block k)
  unfolding mirror_block
  mirror-Passes s =
      let (p, o, h) = mmap_shared-IsPair k law s in
      let code = (mmap_shared read_write_exec s).0 in
      let s3 = replaced k law code prot_read (mmap_shared read_write_exec s).1 in
      let (o', here, next, other, zeroes) = replaced_lem k law code p o prot_read _ h in
      let (q, at2, pages, kept, same) = mirrored code p 4 (page_of k law o 0) s3 h.at here refl in
      let code2 = (mremap code 0 4 s3).0 in
      let s4 = (mremap code 0 4 s3).1 in
      let start : q + 0 ≡ q = omega arith in
      let (t, u, e, e', ok) =
        stores_lem code code2 p q o o' s4 h.at at2 other (kept p _ here) (kept (p + 1) _ next)
          (subst (λ x. page s4 x ≡ some (page_of k law o 0)) start (pages 0 (omega arith)))
          (pages 1 (omega arith)) (same o' 0 ∙ zeroes 0) in
      let good = page_lem code p h.at in
      let good2 = page_lem code2 q at2 in
      (
        _,
        u,
        bind_some _ _ tt t e ∙ bind_some _ _ tt u e' ∙ bind_some _ _ true u ok,
        rw (good, good2) refl,
      )
