-- ===== src/Copyable/Bound.antt =====
-- What an instance of src/copyable-functions/copyable-functions.h holds once it is bound, and what a call
-- of it comes to.
use fex_assorted_tests_bins.Prelude.{
  ℕ, zero, suc, ◌+◌, ◌-◌, ◌^◌, ◌≤◌, ◌<◌, ◌≡◌, inl, inr, refl, sym, subst, ◌∙◌, true, false, Option,
  none, some, ◌==◌, ◌||◌, arith, Bool-cases, lt-cases, ==_iff,
}
use native.Mathlib.Nat.{add_assoc}
use fex_assorted_tests_bins.Copyable.{
  Section, section_size, code_offset, info_offset, Run, Family, holds_code, call_copy, call,
}
use fex_assorted_tests_bins.Copyable.Bytes.{
  Memory, map_pages, memcpy, store, load, IsOutside, map_pages-out, memcpy-in, memcpy-out,
  store-out, load_ext, load-store,
}

pub record IsLaidOut (s : Section) : Type 0 where
  pub canonical_low : s.start ≤ s.canonical
  pub canonical_high : s.canonical < s.stop
  pub info_low : s.start ≤ s.info
  pub info_high : s.info + 16 ≤ s.stop

-- A copy of the section at `base` that calls `target` through `marshal`.
pub record IsCopy {A B : Type 0} (fam : Family A B) (base target marshal : ℕ) (m : Memory)
    : Type 0 where
  pub code :
      (i : ℕ) → i < section_size fam.section → fam.own i ≡ false → m.byte (base + i) ≡ fam.image i
  pub info : fam.info_of base m ≡ base + info_offset fam.section
  pub bound_target : load 8 (base + info_offset fam.section) m ≡ target
  pub bound_marshal : load 8 (base + info_offset fam.section + 8) m ≡ marshal

-- A number that lies in a block which two memories agree on.
pub load_block :
    (n base d size : ℕ) (m m' : Memory)
    → d + n ≤ size
    → ((i : ℕ) → i < size → m'.byte (base + i) ≡ m.byte (base + i))
    → load n (base + d) m' ≡ load n (base + d) m
load_block n base d size m m' h k =
    load_ext n (base + d) m' m (λ i p.
      subst (λ x. m'.byte x ≡ m.byte x) (sym (add_assoc base d i)) (k (d + i) (omega arith)))

module _ {A B : Type 0} (fam : Family A B) where
  holds_code_lem :
      (n i base : ℕ) (m : Memory)
      → ((j : ℕ) → j < i + n → fam.own j ≡ false → m.byte (base + j) ≡ fam.image j)
      → holds_code fam.image fam.own n i base m ≡ true
  unfolding holds_code
  holds_code_lem zero i base m h = refl
  holds_code_lem (suc n) i base m h =
      let rest : holds_code fam.image fam.own n (i + 1) base m ≡ true =
        holds_code_lem n (i + 1) base m (λ j p. h j (omega arith)) in
      let first : (fam.own i || (m.byte (base + i) == fam.image i)) ≡ true =
        elim (Bool-cases (fam.own i)) [
          | inl o ↦ rw o refl
          | inr o ↦ rw o ((==_iff (m.byte (base + i)) (fam.image i)).1 (h i (omega arith) o))
        ] in
      rw (first, rest) refl

  call_copy-IsCopy :
      (rest : ℕ → A → B → Option Run) (base target marshal : ℕ) (m : Memory) (a : A) (b : B)
      (h : (ℕ → A → B → Option Run) → A → B → ℕ → Option Run)
      → IsCopy fam base target marshal m
      → fam.marshal marshal ≡ some h
      → call_copy fam rest m base a b ≡ h rest a b target
  unfolding call_copy
  call_copy-IsCopy rest base target marshal m a b h c g =
      let held : holds_code fam.image fam.own (section_size fam.section) 0 base m ≡ true =
        holds_code_lem (section_size fam.section) 0 base m (λ j p. c.code j (omega arith)) in
      rw (held, c.info, c.bound_marshal, g, c.info, c.bound_target) refl

  pub call-function :
      (n e : ℕ) (m : Memory) (a : A) (b : B) (f : A → B → Run)
      → fam.function e ≡ some f
      → call fam (suc n) m e a b ≡ some (f a b)
  unfolding call
  call-function n e m a b f h = rw (h, call) refl

  -- A copy calls its marshaler with its target.
  pub call-IsCopy :
      (n base target marshal : ℕ) (m : Memory) (a : A) (b : B)
      (h : (ℕ → A → B → Option Run) → A → B → ℕ → Option Run)
      → IsCopy fam base target marshal m
      → fam.function (base + code_offset fam.section) ≡ none
      → fam.marshal marshal ≡ some h
      → call fam (suc n) m (base + code_offset fam.section) a b ≡ h (call fam n m) a b target
  unfolding call
  call-IsCopy n base target marshal m a b h c f g =
      let there : base + code_offset fam.section - code_offset fam.section ≡ base = omega arith in
      rw (f, call)
        (subst (λ x. call_copy fam (call fam n m) m x a b ≡ h (call fam n m) a b target) (sym there)
          (call_copy-IsCopy (call fam n m) base target marshal m a b h c g))

  -- What is written elsewhere does not change a copy.
  pub IsCopy-kept :
      (base target marshal : ℕ) (m m' : Memory)
      → IsLaidOut fam.section
      → ((i : ℕ) → i < section_size fam.section → m'.byte (base + i) ≡ m.byte (base + i))
      → fam.info_of base m' ≡ fam.info_of base m
      → IsCopy fam base target marshal m
      → IsCopy fam base target marshal m'
  IsCopy-kept base target marshal m m' l k e c = record {
    code = λ i h o. k i h ∙ c.code i h o;
    info = e ∙ c.info;
    bound_target =
        load_block 8 base (info_offset fam.section) (section_size fam.section) m m'
          (omega (arith, l.info_low, l.info_high)) k
        ∙ c.bound_target;
    bound_marshal =
        subst (λ x. load 8 x m' ≡ load 8 x m) (sym (add_assoc base (info_offset fam.section) 8))
          (load_block 8 base (info_offset fam.section + 8) (section_size fam.section) m m'
            (omega (arith, l.info_low, l.info_high)) k)
        ∙ c.bound_marshal;
  }

-- The two pointers, stored and loaded again.
module _ (info target marshal : ℕ) (m : Memory) where
  pub pointers-target :
      target < 2 ^ 64 → load 8 info (store 8 (info + 8) marshal (store 8 info target m)) ≡ target
  pointers-target h =
      load_ext 8 info (store 8 (info + 8) marshal (store 8 info target m)) (store 8 info target m)
        (λ i p.
          store-out 8 (info + 8) marshal (info + i) (store 8 info target m) (inl (omega arith)))
      ∙ load-store 8 info target m h

  pub pointers-marshal :
      marshal < 2 ^ 64
      → load 8 (info + 8) (store 8 (info + 8) marshal (store 8 info target m)) ≡ marshal
  pointers-marshal h = load-store 8 (info + 8) marshal (store 8 info target m) h

  pub pointers-out :
      (x : ℕ)
      → IsOutside info 16 x
      → (store 8 (info + 8) marshal (store 8 info target m)).byte x ≡ m.byte x
  pointers-out x h =
      store-out 8 (info + 8) marshal x (store 8 info target m) (grind arith)
      ∙ store-out 8 info target x m (grind arith)

-- The fresh copy of a section.
module _ (instance start size : ℕ) (m : Memory) where
  pub copied-in :
      (i : ℕ)
      → i < size
      → IsOutside instance size (start + i)
      → (memcpy instance start size (map_pages instance size m)).byte (instance + i)
        ≡ m.byte (start + i)
  copied-in i h o =
      memcpy-in instance start size i (map_pages instance size m) h
      ∙ map_pages-out instance size (start + i) m o

  pub copied-out :
      (x : ℕ)
      → IsOutside instance size x
      → (memcpy instance start size (map_pages instance size m)).byte x ≡ m.byte x
  copied-out x o =
      memcpy-out instance start size x (map_pages instance size m) o
      ∙ map_pages-out instance size x m o

-- What is documented of a fresh mapping: nothing was there.
pub record IsFresh (m : Memory) (a len : ℕ) : Type 0 where
  pub unmapped : (i : ℕ) → i < len → m.mapped (a + i) ≡ false
  pub high : a + len ≤ 2 ^ 64

pub fresh-IsOutside :
    (m : Memory) (a len x : ℕ) → IsFresh m a len → m.mapped x ≡ true → IsOutside a len x
fresh-IsOutside m a len x f h = elim (lt-cases x a) [
  | inl p ↦ inl p
  | inr p ↦ elim (lt-cases x (a + len)) [
    | inr q ↦ inr q
    | inl q ↦
        let there : a + (x - a) ≡ x = omega arith in
        let free : m.mapped x ≡ false =
          subst (λ y. m.mapped y ≡ false) there (f.unmapped (x - a) (omega arith)) in
        cc
  ]
]

pub apart : (m : Memory) (x y : ℕ) → m.mapped x ≡ false → m.mapped y ≡ true → (x == y) ≡ false
apart m x y f t = elim (Bool-cases (x == y)) [
  | inr o ↦ o
  | inl o ↦ let same : x ≡ y = (==_iff x y).0 o in cc
]

pub ==_refl : (x : ℕ) → (x == x) ≡ true
==_refl x = (==_iff x x).1 refl
