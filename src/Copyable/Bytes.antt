-- ===== src/Copyable/Bytes.antt =====
-- Byte-addressed memory with 64-bit pointers in it, as src/copyable-functions/copyable-functions.h and
-- src/copyable-functions/section-test.cpp use it: mmap, memcpy, and loads and stores of pointers.
use fex_assorted_tests_bins.Prelude.{
  ℕ, zero, suc, ◌+◌, ◌-◌, ◌*◌, ◌/◌, ◌%◌, ◌^◌, ◌≤◌, ◌<◌, ◌≡◌, ◌⊎◌, inl, refl, sym, subst, ap, inr,
  Bool-cases, ◌∙◌, Bool, true, false, ltb, leb, ◌==◌, ◌&&◌, arith, if◌then◌else◌,
}
use native.Mathlib.Nat.{add-zero, add_assoc}

pub record Memory : Type 0 where
  pub byte : ℕ → ℕ
  pub mapped : ℕ → Bool

-- The addresses of a block.
abbrev pub inside : ℕ → ℕ → ℕ → Bool
inside a len x = leb a x && ltb x (a + len)

-- An anonymous private mapping of zeroes at the address that the kernel chose.
unfoldable pub map_pages : ℕ → ℕ → Memory → Memory
map_pages a len m = record {
  byte = λ x. if inside a len x then 0 else m.byte x;
  mapped = λ x. if inside a len x then true else m.mapped x;
}

unfoldable pub memcpy : ℕ → ℕ → ℕ → Memory → Memory
memcpy to from len m = record m {
  byte = λ x. if inside to len x then m.byte (from + (x - to)) else m.byte x;
}

-- A little-endian number of `n` bytes.
unfoldable pub store : ℕ → ℕ → ℕ → Memory → Memory
store zero a v m = m
store (suc n) a v m =
    store n (a + 1) (v / 256) (record m { byte = λ x. if x == a then v % 256 else m.byte x })

unfoldable pub load : ℕ → ℕ → Memory → ℕ
load zero a m = 0
load (suc n) a m = m.byte a + 256 * load n (a + 1) m

-- An address outside of a block.
abbrev pub IsOutside : ℕ → ℕ → ℕ → Type 0
IsOutside a n x = (x < a) ⊎ (a + n ≤ x)

inside-in : (a n i : ℕ) → i < n → inside a n (a + i) ≡ true
inside-in a n i h = ground arith

inside-out : (a n x : ℕ) → IsOutside a n x → inside a n x ≡ false
inside-out a n x h = ground arith

pub map_pages-out : (a n x : ℕ) (m : Memory) → IsOutside a n x → (map_pages a n m).byte x ≡ m.byte x
unfolding map_pages
map_pages-out a n x m h = rw (inside-out a n x h) refl

pub map_pages-mapped :
    (a n x : ℕ) (m : Memory) → m.mapped x ≡ true → (map_pages a n m).mapped x ≡ true
unfolding map_pages
map_pages-mapped a n x m h = elim (Bool-cases (inside a n x)) [ inl o ↦ rw o refl | inr o ↦ rw o h ]

pub map_pages-new : (a n i : ℕ) (m : Memory) → i < n → (map_pages a n m).mapped (a + i) ≡ true
unfolding map_pages
map_pages-new a n i m h = rw (inside-in a n i h) refl

pub memcpy-mapped : (a b n : ℕ) (m : Memory) → (memcpy a b n m).mapped ≡ m.mapped
unfolding memcpy
memcpy-mapped a b n m = refl

pub memcpy-in : (a b n i : ℕ) (m : Memory) → i < n → (memcpy a b n m).byte (a + i) ≡ m.byte (b + i)
unfolding memcpy
memcpy-in a b n i m h = rw (inside-in a n i h) (ap (λ k. m.byte (b + k)) (omega arith))

pub memcpy-out : (a b n x : ℕ) (m : Memory) → IsOutside a n x → (memcpy a b n m).byte x ≡ m.byte x
unfolding memcpy
memcpy-out a b n x m h = rw (inside-out a n x h) refl

pub store-mapped : (n a v : ℕ) (m : Memory) → (store n a v m).mapped ≡ m.mapped
unfolding store
store-mapped zero a v m = refl
store-mapped (suc n) a v m = store-mapped n (a + 1) (v / 256) _

pub store-out : (n a v x : ℕ) (m : Memory) → IsOutside a n x → (store n a v m).byte x ≡ m.byte x
unfolding store
store-out zero a v x m h = refl
store-out (suc n) a v x m h =
    store-out n (a + 1) (v / 256) x _ (grind arith)
    ∙ (let apart : (x == a) ≡ false = ground arith in rw apart refl)

pub load_ext :
    (n a : ℕ) (m m' : Memory)
    → ((i : ℕ) → i < n → m.byte (a + i) ≡ m'.byte (a + i))
    → load n a m ≡ load n a m'
unfolding load
load_ext zero a m m' e = refl
load_ext (suc n) a m m' e =
    let first : m.byte a ≡ m'.byte a =
      subst (λ x. m.byte x ≡ m'.byte x) (add-zero a) (e 0 (omega arith)) in
    let rest : load n (a + 1) m ≡ load n (a + 1) m' = load_ext n (a + 1) m m' (λ i h.
      subst (λ x. m.byte x ≡ m'.byte x) (sym (add_assoc a 1 i)) (e (1 + i) (omega arith))) in
    rw (first, rest) refl

-- What was stored is loaded again, if it fits.
pub load-store : (n a v : ℕ) (m : Memory) → v < 256 ^ n → load n a (store n a v m) ≡ v
unfolding load store
load-store zero a v m h = omega arith
load-store (suc n) a v m h =
    let m' : Memory = record m { byte = λ x. if x == a then v % 256 else m.byte x } in
    let kept : (store n (a + 1) (v / 256) m').byte a ≡ v % 256 =
      store-out n (a + 1) (v / 256) a m' (inl (omega arith))
      ∙ (let same : (a == a) ≡ true = ground arith in rw same refl) in
    let rest : load n (a + 1) (store n (a + 1) (v / 256) m') ≡ v / 256 =
      load-store n (a + 1) (v / 256) m' (omega arith) in
    rw (kept, rest) (omega arith)
