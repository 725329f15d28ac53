-- ===== src/Tests/Remap.antt =====
-- A kernel that meets the laws of src/mremap.cpp: its pages are a list, the newest first.
use fex_assorted_tests_bins.Prelude.{
  ℕ, zero, suc, ◌+◌, ◌*◌, ◌/◌, ◌%◌, ◌≤◌, ◌<◌, ◌≡◌, ◌≢◌, inl, inr, max, refl, sym, subst, ap, ◌∙◌,
  Bool, true, false, ◌&&◌, Option, none, some, List, [], ◌∷◌, ◌==◌, ==_iff, Bool-cases, lt-cases,
  arith, if◌then◌else◌, map,
}
use fex_assorted_tests_bins.Growsdown.{Rights}
use fex_assorted_tests_bins.Tests.Growsdown.{
  eqb, same_rights, eqb_refl, eqb_lem, same_rights_refl, same_rights_lem, both_true,
}
use fex_assorted_tests_bins.Remap.{
  Page, map_failed, Kernel, behind, set_content, IsKernel, Line, main,
}
use fex_assorted_tests_bins.Remap.Passing.{main_passes}

abbrev Pages : Type 0
Pages = List (ℕ × Option Page)

abbrev lookup : Pages → ℕ → Option Page
lookup [] x = none
lookup ((p, g) ∷ ms) x = if p == x then g else lookup ms x

-- No page from here on, and no object.
abbrev top : Pages → ℕ
top [] = 16
top ((p, g) ∷ ms) = max (p + 1) (top ms)

abbrev objects : Pages → ℕ
objects [] = 0
objects ((p, none) ∷ ms) = objects ms
objects ((p, some g) ∷ ms) = max (g.object + 1) (objects ms)

lookup-top : (ms : Pages) (x : ℕ) → top ms ≤ x → lookup ms x ≡ none
lookup-top [] x h = refl
lookup-top ((p, g) ∷ ms) x h =
    let other : (p == x) ≡ false = ground arith in rw other (lookup-top ms x (omega arith))

lookup-objects : (ms : Pages) (x : ℕ) (g : Page) → lookup ms x ≡ some g → g.object < objects ms
lookup-objects [] x g h = cc
lookup-objects ((p, none) ∷ ms) x g h = elim (Bool-cases (p == x)) [
  | inl e ↦ let bad : lookup ((p, none) ∷ ms) x ≡ none = rw e refl in cc
  | inr e ↦
      let same : lookup ((p, none) ∷ ms) x ≡ lookup ms x = rw e refl in
      lookup-objects ms x g (sym same ∙ h)
]
lookup-objects ((p, some f) ∷ ms) x g h = elim (Bool-cases (p == x)) [
  | inl e ↦
      let same : lookup ((p, some f) ∷ ms) x ≡ some f = rw e refl in
      let it : f.object ≡ g.object =
        ap {A = Option Page} (λ o. elim o as (λ _. ℕ) [ none ↦ 0 | some y ↦ y.object ])
          (sym same ∙ h) in
      omega (arith, it)
  | inr e ↦
      let same : lookup ((p, some f) ∷ ms) x ≡ lookup ms x = rw e refl in
      omega (arith, lookup-objects ms x g (sym same ∙ h))
]

lookup_here : (p : ℕ) (g : Option Page) (ms : Pages) → lookup ((p, g) ∷ ms) p ≡ g
lookup_here p g ms = let it : (p == p) ≡ true = ground arith in rw it refl

lookup_there :
    (p x : ℕ) (g : Option Page) (ms : Pages) → x ≢ p → lookup ((p, g) ∷ ms) x ≡ lookup ms x
lookup_there p x g ms d = let it : (p == x) ≡ false = ground arith in rw it refl

abbrev add_pages : ℕ → ℕ → Page → Pages → Pages
add_pages zero q g ms = ms
add_pages (suc n) q g ms = (q + n, some (behind g n)) ∷ add_pages n q g ms

lookup-add_pages :
    (n q i : ℕ) (g : Page) (ms : Pages)
    → i < n
    → lookup (add_pages n q g ms) (q + i) ≡ some (behind g i)
lookup-add_pages zero q i g ms h = absurd (omega arith)
lookup-add_pages (suc n) q i g ms h = elim (Bool-cases (n == i)) [
  | inl e ↦
      subst (λ j. lookup (add_pages (suc n) q g ms) (q + j) ≡ some (behind g j)) ((==_iff n i).0 e)
        (lookup_here (q + n) (some (behind g n)) (add_pages n q g ms))
  | inr e ↦
      let other : q + i ≢ q + n = ground arith in
      lookup_there (q + n) (q + i) (some (behind g n)) (add_pages n q g ms) other
      ∙ lookup-add_pages n q i g ms (ground arith)
]

lookup-add_old :
    (n q x : ℕ) (g : Page) (ms : Pages) → x < q → lookup (add_pages n q g ms) x ≡ lookup ms x
lookup-add_old zero q x g ms h = refl
lookup-add_old (suc n) q x g ms h =
    lookup_there (q + n) x (some (behind g n)) (add_pages n q g ms) (λ e. omega (arith, e))
    ∙ lookup-add_old n q x g ms h

abbrev same_page : Option Page → Page → Bool
same_page none h = false
same_page (some g) h =
    (g.object == h.object)
    && (g.index == h.index)
    && same_rights (some g.rights) (some h.rights)
    && eqb g.shared h.shared

same_page_lem : (o : Option Page) (h : Page) → same_page o h ≡ true → o ≡ some h
same_page_lem none h e = cc
same_page_lem (some g) h e =
    let (e₁, shared) =
      both_true
        ((g.object == h.object)
          && (g.index == h.index)
          && same_rights (some g.rights) (some h.rights))
        (eqb g.shared h.shared) e in
    let (e₂, rights) =
      both_true ((g.object == h.object) && (g.index == h.index))
        (same_rights (some g.rights) (some h.rights)) e₁ in
    let (object, index) = both_true (g.object == h.object) (g.index == h.index) e₂ in
    let o₀ = (==_iff g.object h.object).0 object in
    let o₁ = (==_iff g.index h.index).0 index in
    let o₂ : g.rights ≡ h.rights =
      ap {A = Option Rights} (λ o. elim o as (λ _. Rights) [ none ↦ g.rights | some r ↦ r ])
        (same_rights_lem (some g.rights) (some h.rights) rights) in
    let o₃ = eqb_lem g.shared h.shared shared in cc

same_page_refl : (h : Page) → same_page (some h) h ≡ true
same_page_refl h =
    let object : (h.object == h.object) ≡ true = (==_iff h.object h.object).1 refl in
    let index : (h.index == h.index) ≡ true = (==_iff h.index h.index).1 refl in
    rw (object, index, same_rights_refl (some h.rights), eqb_refl h.shared) refl

abbrev all_behind : Pages → ℕ → Page → ℕ → Bool
all_behind ms p g zero = true
all_behind ms p g (suc n) = same_page (lookup ms (p + n)) (behind g n) && all_behind ms p g n

all_behind_lem :
    (ms : Pages) (p n : ℕ) (g : Page)
    → ((i : ℕ) → i < n → lookup ms (p + i) ≡ some (behind g i))
    → all_behind ms p g n ≡ true
all_behind_lem ms p zero g h = refl
all_behind_lem ms p (suc n) g h =
    let one : same_page (lookup ms (p + n)) (behind g n) ≡ true =
      subst (λ o. same_page o (behind g n) ≡ true) (sym (h n (omega arith)))
        (same_page_refl (behind g n)) in
    let rest : all_behind ms p g n ≡ true = all_behind_lem ms p n g (λ i low. h i (omega arith)) in
    rw (one, rest) refl

all_behind_each :
    (ms : Pages) (p n i : ℕ) (g : Page)
    → i < n
    → all_behind ms p g n ≡ true
    → lookup ms (p + i) ≡ some (behind g i)
all_behind_each ms p zero i g low h = absurd (omega arith)
all_behind_each ms p (suc n) i g low h =
    let (one, rest) =
      both_true (same_page (lookup ms (p + n)) (behind g n)) (all_behind ms p g n) h in
    elim (Bool-cases (n == i)) [
      | inl e ↦
          subst (λ j. lookup ms (p + j) ≡ some (behind g j)) ((==_iff n i).0 e)
            (same_page_lem (lookup ms (p + n)) (behind g n) one)
      | inr e ↦ all_behind_each ms p n i g (ground arith) rest
    ]

record State : Type 0 where
  pages : Pages
  content : ℕ → ℕ → ℕ

abbrev put : ℕ → Option Page → State → State
put p g s = record s { pages = (p, g) ∷ s.pages }

abbrev shared_page : ℕ → ℕ → Rights → Page
shared_page o i r = record { object = o; index = i; rights = r; shared = true }

abbrev shared_pair : Rights → State → ℕ × State
shared_pair r s = (
  top s.pages * 4096,
  record s { pages = add_pages 2 (top s.pages) (shared_page (objects s.pages) 0 r) s.pages },
)

abbrev private_page : ℕ → Rights → State → ℕ × State
private_page a r s =
    let o = objects s.pages in
    (
      a,
      record {
        pages =
            (a / 4096, some (record { object = o; index = 0; rights = r; shared = false }))
            ∷ s.pages;
        content = λ o' i. if o == o' then 0 else s.content o' i;
      },
    )

abbrev restrict : Option Page → ℕ → Rights → State → State
restrict none p r s = s
restrict (some g) p r s = put p (some (record g { rights = r })) s

abbrev grown : Option Page → ℕ → ℕ → ℕ → State → ℕ × State
grown none p n m s = (map_failed, s)
grown (some g) p n m s =
    if all_behind s.pages p g n
    then (top s.pages * 4096, record s { pages = add_pages m (top s.pages) g s.pages })
    else (map_failed, s)

abbrev stored : Option Page → ℕ → ℕ → State → Option State
stored none i v s = none
stored (some g) i v s =
    if g.rights.write
    then some (record s { content = set_content s.content g.object (g.index * 4096 + i) v })
    else none

abbrev loaded : Option Page → ℕ → State → Option ℕ
loaded none i s = none
loaded (some g) i s = if g.rights.read then some (s.content g.object (g.index * 4096 + i)) else none

first_page :
    (p n : ℕ) (g : Page) (s : State)
    → 0 < n
    → ((i : ℕ) → i < n → lookup s.pages (p + i) ≡ some (behind g i))
    → lookup s.pages p ≡ some g
first_page p n g s low h =
    let here : p + 0 ≡ p = omega arith in
    let same : g.index + 0 ≡ g.index = omega arith in
    subst (λ x. lookup s.pages x ≡ some (behind g 0)) here (h 0 low)
    ∙ ap {B = Option Page} (λ x. some (record g { index = x })) same

not_behind :
    (ms : Pages) (p n i : ℕ) (g : Page)
    → i < n
    → lookup ms (p + i) ≢ some (behind g i)
    → all_behind ms p g n ≡ false
not_behind ms p n i g low d = elim (Bool-cases (all_behind ms p g n)) [
  | inr e ↦ e
  | inl e ↦ absurd (d (all_behind_each ms p n i g low e))
]

below_top : (ms : Pages) (x : ℕ) (g : Page) → lookup ms x ≡ some g → x < top ms
below_top ms x g h = elim (lt-cases x (top ms)) [
  | inl low ↦ low
  | inr high ↦ let no_page = lookup-top ms x high in cc
]

abbrev listed : Kernel
listed = record {
  State = State;
  page = λ s. lookup s.pages;
  content = λ s. s.content;
  mmap_shared = shared_pair;
  mmap_private = private_page;
  munmap = λ a s. put (a / 4096) none s;
  mprotect = λ a r s. restrict (lookup s.pages (a / 4096)) (a / 4096) r s;
  mremap = λ a n m s. grown (lookup s.pages (a / 4096)) (a / 4096) n m s;
  store = λ a v s. stored (lookup s.pages (a / 4096)) (a % 4096) v s;
  load = λ a s. loaded (lookup s.pages (a / 4096)) (a % 4096) s;
}

listed-IsKernel : IsKernel listed
listed-IsKernel = record {
  mmap_shared_law = λ r s. (
    top s.pages,
    objects s.pages,
    refl,
    λ i low.
        lookup-add_pages 2 (top s.pages) i (shared_page (objects s.pages) 0 r) s.pages low
        ∙ (let same : 0 + i ≡ i = omega arith in
            ap {B = Option Page} (λ x. some (shared_page (objects s.pages) x r)) same),
  );
  mmap_private_law = λ p r s h.
      let at : p * 4096 / 4096 ≡ p = omega arith in
      (
        objects s.pages,
        rw at (lookup_here p _ s.pages),
        λ x d. rw at (lookup_there p x _ s.pages d),
        λ x g e f. omega (arith, lookup-objects s.pages x g e, f),
        λ i. let it : (objects s.pages == objects s.pages) ≡ true = ground arith in rw it refl,
      );
  munmap_law = λ p s.
      let at : p * 4096 / 4096 ≡ p = omega arith in
      rw at (lookup_here p none s.pages, λ x d. lookup_there p x none s.pages d);
  mprotect_law = λ p r g s h.
      let at : p * 4096 / 4096 ≡ p = omega arith in
      rw at (
        rw h (
          lookup_here p (some (record g { rights = r })) s.pages,
          λ x d. lookup_there p x (some (record g { rights = r })) s.pages d,
        ));
  mremap_law = λ p n m g s low h.
      let at : p * 4096 / 4096 ≡ p = omega arith in
      (
        top s.pages,
        let one = first_page p n g s low h in
            let all = all_behind_lem s.pages p n g h in rw at (rw one (rw all refl)),
      );
  mremap_fault_law = λ p n m i g s low h d.
      let at : p * 4096 / 4096 ≡ p = omega arith in
      rw at (rw h (rw (not_behind s.pages p n i g low d) refl));
  mirror_law = λ p m g s h sh.
      let at : p * 4096 / 4096 ≡ p = omega arith in
      (
        top s.pages,
        rw at (rw h refl),
        λ i low. rw at (rw h (lookup-add_pages m (top s.pages) i g s.pages low)),
        λ x f e.
            rw at (rw h (lookup-add_old m (top s.pages) x g s.pages (below_top s.pages x f e) ∙ e)),
        λ o i. rw at (rw h refl),
      );
  store_law = λ p i v g s low h ok.
      let at : (p * 4096 + i) / 4096 ≡ p = omega arith in
      let off : (p * 4096 + i) % 4096 ≡ i = omega arith in
      (
        record s { content = set_content s.content g.object (g.index * 4096 + i) v },
        rw (at, off) (rw h (rw ok refl)),
        λ x. refl,
        λ o j. refl,
      );
  load_law = λ p i g s low h ok.
      let at : (p * 4096 + i) / 4096 ≡ p = omega arith in
      let off : (p * 4096 + i) % 4096 ≡ i = omega arith in rw (at, off) (rw h (rw ok refl));
}

main_passes_example :
    (ls : List Line) × (t : State) × (main listed (record { pages = []; content = λ o i. 0 })
      ≡ some (ls, t))
    × (map (λ (l : Line). l.pass) ls ≡ true ∷ true ∷ true ∷ true ∷ true ∷ [])
main_passes_example = main_passes listed listed-IsKernel (record { pages = []; content = λ o i. 0 })
