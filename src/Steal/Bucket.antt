-- ===== src/Steal/Bucket.antt =====
-- The words that `StealMemoryRegion` of address-space-stealing/alloc.cpp writes into a bucket.
use fex_assorted_tests_bins.Prelude.{
  ℕ, zero, suc, ◌+◌, ◌*◌, ◌≤◌, ◌<◌, List, [], ◌∷◌, ◌++◌, ◌≡◌, refl, ap, arith, length, set,
  length-append, get_elem?, some,
}
use fex_assorted_tests_bins.Steal.Errors.{ok, fault, out_of_bounds}
use fex_assorted_tests_bins.Steal.{
  Bucket, bucket_words, Stack, Mapping, Scanner, store_word, grow, record_region,
}

-- Pairs of an address and a size.
abbrev pub entries : List Mapping → List ℕ
entries [] = []
entries (m ∷ ms) = m.start ∷ m.size ∷ entries ms

pub length-entries : (ms : List Mapping) → length (entries ms) ≡ 2 * length ms
length-entries [] = refl
length-entries (m ∷ ms) = omega (arith, length-entries ms)

pub entries-append : (xs ys : List Mapping) → entries (xs ++ ys) ≡ entries xs ++ entries ys
entries-append [] ys = refl
entries-append (x ∷ xs) ys = ap (λ l. x.start ∷ x.size ∷ l) (entries-append xs ys)

set_behind :
    (xs zs : List ℕ) (i n v : ℕ) → n ≡ length xs + i → set (xs ++ zs) n v ≡ xs ++ set zs i v
set_behind [] zs i n v e = ap (λ k. set zs k v) (let e' : n ≡ i = omega arith in e')
set_behind (x ∷ xs) zs i zero v e = absurd (omega arith)
set_behind (x ∷ xs) zs i (suc n) v e = ap (λ l. x ∷ l) (set_behind xs zs i n v (omega arith))

store_behind :
    (xs zs : List ℕ) (i n v : ℕ)
    → n ≡ length xs + i
    → i < length zs
    → store_word (xs ++ zs) n v ≡ ok (xs ++ set zs i v)
unfolding store_word
store_behind xs zs i n v e h = ground (arith, set_behind xs zs i n v e, length-append xs zs)

store_outside : (b : Bucket) (n v : ℕ) → length b ≤ n → store_word b n v ≡ fault out_of_bounds
unfolding store_word
store_outside b n v h = ground arith

-- The bucket holds one pair for each mapping, from its first word on, and a 0 behind the last; where
-- nothing was mapped, it is `first`, which it was allocated with.
pub record IsFilled (first : List ℕ) (s : Scanner) (rest : List ℕ) : Type 0 where
  pub words : s.bucket ≡ entries s.maps ++ rest
  pub at_end : s.position ≡ 2 * length s.maps
  pub sized : 2 * length s.maps + length rest ≡ bucket_words
  pub ended : 0 < length s.maps → get_elem? rest 0 ≡ some 0
  pub untouched : length s.maps ≡ 0 → rest ≡ first

module _ (stack : Stack) where
  grow_room : (s : Scanner) → s.position < 64 → grow stack s ≡ ok s
  unfolding grow
  grow_room s h = ground arith

  pub record_region_room :
      (s : Scanner) (pre r : List ℕ) (x y z a n : ℕ)
      → s.bucket ≡ pre ++ (x ∷ y ∷ z ∷ r)
      → s.position ≡ length pre
      → s.position < 64
      → record_region stack s a n
        ≡ ok (record s { bucket = pre ++ (a ∷ n ∷ 0 ∷ r); position = s.position + 2 })
  unfolding record_region
  record_region_room s pre r x y z a n e p h = ground (
    arith,
    grow_room s h,
    store_behind pre (x ∷ y ∷ z ∷ r) 0 s.position a (omega arith) (omega arith),
    store_behind pre (a ∷ y ∷ z ∷ r) 1 (s.position + 1) n (omega arith) (omega arith),
    store_behind pre (a ∷ n ∷ z ∷ r) 2 (s.position + 2) 0 (omega arith) (omega arith),
  )

  pub record_region_full :
      (s : Scanner) (pre : List ℕ) (x a n : ℕ)
      → s.bucket ≡ pre ++ (x ∷ [])
      → s.position ≡ length pre
      → s.position < 64
      → record_region stack s a n ≡ fault out_of_bounds
  unfolding record_region
  record_region_full s pre x a n e p h = ground (
    arith,
    grow_room s h,
    store_behind pre (x ∷ []) 0 s.position a (omega arith) (omega arith),
    length-append pre (a ∷ []),
    store_outside (pre ++ (a ∷ [])) (s.position + 1) n,
  )
