-- ===== src/Growsdown/Pages.antt =====
-- The rights of the first page in src/prot-growsdown.cpp behind the calls of mprotect of each block.
use fex_assorted_tests_bins.Prelude.{
  ℕ, ◌+◌, ◌-◌, ◌≤◌, ◌≡◌, ◌≢◌, inl, inr, sym, subst, ap, ◌∙◌, Bool, true, false, Option, none, some,
  ◌==◌, ==_iff, Bool-cases, arith,
}
use fex_assorted_tests_bins.Growsdown.{Rights, prot_none, Kernel, IsKernel, split_down}

module _ (k : Kernel) (law : IsKernel k) where
  open k use {State, byte, rights, mapping, mmap, mprotect, mprotect_down, munmap, store, call}

  -- A mapping of three pages from `q` on with the same rights.
  pub record IsPlain (q : ℕ) (r : Rights) (s : State) : Type 0 where
    pub same : (i : ℕ) → q ≤ i → i ≤ q + 2 → rights s i ≡ some r
    pub one : (i : ℕ) → q ≤ i → i ≤ q + 2 → mapping s i ≡ mapping s (q + 2)

  pub mmap-IsPlain : (r : Rights) (s : State) → IsPlain (mmap r s).0 r (mmap r s).1
  mmap-IsPlain r s =
      let q = (mmap r s).0 in
      let t = (mmap r s).1 in
      let there : (i : ℕ) → q ≤ i → i ≤ q + 2 → (rights t i ≡ some r) × (mapping t i ≡ q) =
        λ i h h'.
          let e : q + (i - q) ≡ i = omega arith in
          subst (λ x. (rights t x ≡ some r) × (mapping t x ≡ q)) e
            (law.mmap_law r s (i - q) (omega arith)) in
      record {
        same = λ i h h'. (there i h h').0;
        one = λ i h h'. (there i h h').1 ∙ sym ((there (q + 2) (omega arith) (omega arith)).1);
      }

  pub down-IsPlain :
      (q : ℕ) (old r : Rights) (s : State)
      → IsPlain q old s
      → rights (mprotect_down (q + 2) r s) q ≡ some r
  down-IsPlain q old r s h =
      law.down_law (q + 2) q r old s (omega arith) (λ i a b. (h.same i a b, h.one i a b))

  -- The middle page taken away and given back.
  pub merge-IsPlain :
      (q : ℕ) (r : Rights) (s : State)
      → IsPlain q r s
      → IsPlain q r (mprotect (q + 1) r (mprotect (q + 1) prot_none s))
  merge-IsPlain q r s h =
      let first =
        law.mprotect_law (q + 1) prot_none r s (h.same (q + 1) (omega arith) (omega arith)) in
      let second = law.mprotect_law (q + 1) r prot_none (mprotect (q + 1) prot_none s) first.0 in
      record {
        same = λ i a b. elim (Bool-cases (i == q + 1)) [
          | inl e ↦
              subst (λ x. rights (mprotect (q + 1) r (mprotect (q + 1) prot_none s)) x ≡ some r)
                (sym ((==_iff i (q + 1)).0 e)) second.0
          | inr e ↦
              let other : i ≢ q + 1 = ground arith in
              second.1 i other ∙ first.1 i other ∙ h.same i a b
        ];
        one = λ i a b.
            second.2 i ∙ first.2 i ∙ h.one i a b ∙ sym (first.2 (q + 2)) ∙ sym (second.2 (q + 2));
      }

  pub split-IsPlain :
      (q : ℕ) (old r : Rights) (s : State)
      → IsPlain q old s
      → old.read ≡ true
      → rights (split_down k r q s) q ≡ some old
  split-IsPlain q old r s h readable =
      let first =
        law.mprotect_law (q + 1) prot_none old s (h.same (q + 1) (omega arith) (omega arith)) in
      let t = mprotect (q + 1) prot_none s in
      let top : rights t (q + 2) ≡ some old =
        first.1 (q + 2) (λ e. omega (arith, e)) ∙ h.same (q + 2) (omega arith) (omega arith) in
      let differ : rights t (q + 1) ≢ rights t (q + 2) = λ e.
        let same : some prot_none ≡ some old = sym first.0 ∙ e ∙ top in
        let unreadable : false ≡ old.read =
          ap {A = Option Rights} (λ o. elim o as (λ _. Bool) [ none ↦ false | some x ↦ x.read ])
            same in
        cc in
      law.stop_law (q + 2) (q + 1) q r t (omega arith) (omega arith) differ
      ∙ first.1 q (λ e. omega (arith, e))
      ∙ h.same q (omega arith) (omega arith)
