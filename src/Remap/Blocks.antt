-- ===== src/Remap/Blocks.antt =====
-- The blocks of `main` in src/mremap.cpp that only make calls of the kernel, from every state.
use fex_assorted_tests_bins.Prelude.{
  ℕ, ◌+◌, ◌*◌, ◌<◌, ◌≡◌, ◌≢◌, refl, sym, subst, ap, ◌∙◌, Bool, true, false, Option, none, some,
  ◌==◌, arith,
}
use fex_assorted_tests_bins.Growsdown.{Rights, prot_none, prot_read, read_write_exec}
use fex_assorted_tests_bins.Remap.{
  Page, map_failed, Kernel, behind, IsKernel, Line, Action, unmapped_block, protected_block,
}

-- From each state it ends, with a line that says that the test passes.
abbrev pub Passes : (k : Kernel) → Action k Line → Type 0
Passes k block =
    (s : k.State) → (l : Line) × (t : k.State) × (block s ≡ some (l, t)) × (l.pass ≡ true)

-- No page starts at MAP_FAILED.
pub page_lem : (a p : ℕ) → a ≡ p * 4096 → (a == map_failed) ≡ false
page_lem a p h = ground arith

pub failed_lem : (a : ℕ) → a ≡ map_failed → (a == map_failed) ≡ true
failed_lem a h = ground arith

-- Pages of different rights, or of which one is private, are not one mapping.
pub rights_differ :
    (g h : Page) → some g ≡ some h → (g.rights.exec ≡ h.rights.exec) × (g.shared ≡ h.shared)
rights_differ g h e =
    let same : g.rights.exec ≡ h.rights.exec =
      ap {A = Option Page}
        (λ o. elim o as (λ _. Bool) [ none ↦ g.rights.exec | some x ↦ x.rights.exec ]) e in
    let same' : g.shared ≡ h.shared =
      ap {A = Option Page} (λ o. elim o as (λ _. Bool) [ none ↦ g.shared | some x ↦ x.shared ]) e in
    (same, same')

module _ (k : Kernel) (law : IsKernel k) where
  open k use {State, page, content, mmap_shared, mmap_private, munmap, mprotect, mremap}

  abbrev pub page_of : ℕ → ℕ → Page
  page_of o i = record { object = o; index = i; rights = read_write_exec; shared = true }

  -- Two pages of one new object from `code` on.
  pub record IsPair (code p o : ℕ) (s : State) : Type 0 where
    pub at : code ≡ p * 4096
    pub pages : (i : ℕ) → i < 2 → page s (p + i) ≡ some (page_of o i)

  pub mmap_shared-IsPair :
      (s : State)
      → (p : ℕ) × (o : ℕ) × IsPair
          (mmap_shared read_write_exec s).0
          p
          o
          (mmap_shared read_write_exec s).1
  mmap_shared-IsPair s =
      let (p, o, at, pages) = law.mmap_shared_law read_write_exec s in
      (p, o, record { at = at; pages = pages })

  pub first : (code p o : ℕ) (s : State) → IsPair code p o s → page s p ≡ some (page_of o 0)
  first code p o s h =
      let here : p + 0 ≡ p = omega arith in
      subst (λ x. page s x ≡ some (page_of o 0)) here (h.pages 0 (omega arith))

  -- The second page replaced by a private one.
  abbrev pub replaced : ℕ → Rights → State → State
  replaced code r s = (mmap_private (code + 4096) r (munmap (code + 4096) s)).1

  pub replaced_lem :
      (code p o : ℕ) (r : Rights) (s : State)
      → IsPair code p o s
      → (o' : ℕ) × (page (replaced code r s) p ≡ some (page_of o 0))
        × (page (replaced code r s) (p + 1)
            ≡ some (record { object = o'; index = 0; rights = r; shared = false }))
        × (o' ≢ o)
        × ((i : ℕ) → content (replaced code r s) o' i ≡ 0)
  replaced_lem code p o r s h =
      let second : code + 4096 ≡ (p + 1) * 4096 = omega (arith, h.at) in
      subst
        (λ a.
          (o' : ℕ) × (page (mmap_private a r (munmap a s)).1 p ≡ some (page_of o 0))
          × (page (mmap_private a r (munmap a s)).1 (p + 1)
              ≡ some (record { object = o'; index = 0; rights = r; shared = false }))
          × (o' ≢ o)
          × ((i : ℕ) → content (mmap_private a r (munmap a s)).1 o' i ≡ 0))
        (sym second)
        (let (hole, kept) = law.munmap_law (p + 1) s in
          let (o', here, kept', other, zeroes) =
            law.mmap_private_law (p + 1) r (munmap ((p + 1) * 4096) s) hole in
          let low : p ≢ p + 1 = λ e. omega (arith, e) in
          let old : page (munmap ((p + 1) * 4096) s) p ≡ some (page_of o 0) =
            kept p low ∙ first code p o s h in
          (o', kept' p low ∙ old, here, other p (page_of o 0) old, zeroes))

  refused :
      (code p n m i : ℕ) (g : Page) (s : State)
      → code ≡ p * 4096
      → i < n
      → page s p ≡ some g
      → page s (p + i) ≢ some (behind g i)
      → ((mremap code n m s).0 == map_failed) ≡ true
  refused code p n m i g s at low here differ = failed_lem _ (
      subst (λ a. (mremap a n m s).0 ≡ map_failed) (sym at)
        (law.mremap_fault_law p n m i g s low here differ))

  pub moved :
      (code p n m : ℕ) (g : Page) (s : State)
      → code ≡ p * 4096
      → 0 < n
      → ((i : ℕ) → i < n → page s (p + i) ≡ some (behind g i))
      → ((mremap code n m s).0 == map_failed) ≡ false
  moved code p n m g s at low here =
      let (q, e) = law.mremap_law p n m g s low here in
      page_lem _ q (subst (λ a. (mremap a n m s).0 ≡ q * 4096) (sym at) e)

  pub unmapped-Passes : Passes k (unmapped_block k)
  unfolding unmapped_block
  unmapped-Passes s =
      let (p, o, h) = mmap_shared-IsPair s in
      let code = (mmap_shared read_write_exec s).0 in
      let s3 = replaced code prot_none (mmap_shared read_write_exec s).1 in
      let (o', here, next, other, zeroes) = replaced_lem code p o prot_none _ h in
      let differ : page s3 (p + 1) ≢ some (behind (page_of o 0) 1) =
        λ e. let (a, b) = rights_differ _ _ (sym next ∙ e) in cc in
      let bad = refused code p 2 4 1 (page_of o 0) s3 h.at (omega arith) here differ in
      let good = page_lem code p h.at in (_, _, refl, rw (good, bad) refl)

  -- The second page with other rights.
  pub protected_lem :
      (code p o : ℕ) (r : Rights) (s : State)
      → IsPair code p o s
      → (page (mprotect (code + 4096) r s) p ≡ some (page_of o 0))
        × (page (mprotect (code + 4096) r s) (p + 1) ≡ some (record (page_of o 1) { rights = r }))
  protected_lem code p o r s h =
      let second : code + 4096 ≡ (p + 1) * 4096 = omega (arith, h.at) in
      subst
        (λ a.
          (page (mprotect a r s) p ≡ some (page_of o 0))
          × (page (mprotect a r s) (p + 1) ≡ some (record (page_of o 1) { rights = r })))
        (sym second)
        (let (here, kept) = law.mprotect_law (p + 1) r (page_of o 1) s (h.pages 1 (omega arith)) in
          (kept p (λ e. omega (arith, e)) ∙ first code p o s h, here))

  pub protected-Passes : Passes k (protected_block k)
  unfolding protected_block
  protected-Passes s =
      let (p, o, h) = mmap_shared-IsPair s in
      let code = (mmap_shared read_write_exec s).0 in
      let s3 = mprotect (code + 4096) prot_read (mmap_shared read_write_exec s).1 in
      let (here, next) = protected_lem code p o prot_read _ h in
      let differ : page s3 (p + 1) ≢ some (behind (page_of o 0) 1) =
        λ e. let (a, b) = rights_differ _ _ (sym next ∙ e) in cc in
      let bad = refused code p 2 4 1 (page_of o 0) s3 h.at (omega arith) here differ in
      let good = page_lem code p h.at in (_, _, refl, rw (good, bad) refl)
