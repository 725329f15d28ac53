-- ===== src/Steal/Gaps.antt =====
-- What `StealMemoryRegion` of address-space-stealing/alloc.cpp is to reserve: the gaps of
-- `[begin, end)` between the regions that are mapped already.
use fex_assorted_tests_bins.Prelude.{
  ℕ, ◌+◌, ◌-◌, ◌≤◌, ◌<◌, min, max, Bool, true, false, not, ◌&&◌, ◌||◌, List, [], ◌∷◌, ◌++◌, ◌≡◌,
  refl, arith, ltb, leb, if◌then◌else◌, ◌∙◌, inl, inr, lt-cases,
}
use fex_assorted_tests_bins.Steal.{Mapping}

-- One line of the maps file, as numbers.
pub record Region : Type 0 where
  pub lo : ℕ
  pub hi : ℕ

abbrev pub gap : ℕ → ℕ → List Mapping
gap a b = if ltb a b then record { start = a; size = b - a } ∷ [] else []

-- `prev` is where the region before ends.
unfoldable pub gaps : ℕ → ℕ → ℕ → List Region → List Mapping
gaps begin end prev [] = gap (max prev begin) end
gaps begin end prev (r ∷ rs) = gap (max prev begin) (min r.lo end) ++ gaps begin end r.hi rs

abbrev pub covers : List Mapping → ℕ → Bool
covers [] x = false
covers (m ∷ ms) x = leb m.start x && ltb x (m.start + m.size) || covers ms x

abbrev pub mapped : List Region → ℕ → Bool
mapped [] x = false
mapped (r ∷ rs) x = leb r.lo x && ltb x r.hi || mapped rs x

-- The order in which the kernel lists mappings.
abbrev pub IsSorted : ℕ → List Region → Type 0
IsSorted prev [] = Unit
IsSorted prev (r ∷ rs) = (prev ≤ r.lo) × (r.lo ≤ r.hi) × IsSorted r.hi rs

mapped_below : (rs : List Region) (prev x : ℕ) → IsSorted prev rs → x < prev → mapped rs x ≡ false
mapped_below [] prev x s h = refl
mapped_below (r ∷ rs) prev x s h = ground (arith, mapped_below rs r.hi x s.2 (omega arith))

covers-gap_append :
    (a b x : ℕ) (ms : List Mapping) → covers (gap a b ++ ms) x ≡ (leb a x && ltb x b || covers ms x)
covers-gap_append a b x ms = ground arith

-- `c` and `m` are what the later gaps cover and what the later regions map.
covers_step :
    (lo hi prev begin end x : ℕ) (c m : Bool)
    → prev ≤ lo
    → lo ≤ hi
    → c ≡ ((leb (max hi begin) x && ltb x end) && not m)
    → (x < hi → m ≡ false)
    → (leb (max prev begin) x && ltb x (min lo end) || c)
      ≡ ((leb (max prev begin) x && ltb x end) && not (leb lo x && ltb x hi || m))
covers_step lo hi prev begin end x c m p q e below = elim (lt-cases x lo) [
  | inl before ↦ let e' : m ≡ false = below (omega arith) in rw (e, e') (ground arith)
  | inr after ↦ elim (lt-cases x hi) [
    | inl inside ↦ rw e (ground arith)
    | inr behind ↦
        rw e
          (elim m
            as (λ m.
              (leb (max prev begin) x && ltb x (min lo end)
                || (leb (max hi begin) x && ltb x end) && not m)
              ≡ ((leb (max prev begin) x && ltb x end) && not (leb lo x && ltb x hi || m))) [
                | true ↦ ground arith
                | false ↦ ground arith
              ])
  ]
]

pub covers-gaps :
    (rs : List Region) (begin end prev x : ℕ)
    → IsSorted prev rs
    → covers (gaps begin end prev rs) x
      ≡ ((leb (max prev begin) x && ltb x end) && not (mapped rs x))
unfolding gaps
covers-gaps [] begin end prev x s = ground arith
covers-gaps (r ∷ rs) begin end prev x s =
    covers-gap_append (max prev begin) (min r.lo end) x (gaps begin end r.hi rs)
    ∙ covers_step r.lo r.hi prev begin end x _ _ s.0 s.1 (covers-gaps rs begin end r.hi x s.2)
        (mapped_below rs r.hi x s.2)
