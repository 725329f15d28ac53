-- ===== src/Prelude/Bits.antt =====
-- `x << 4 | d` as arithmetic, for a digit of four bits. The native operation means a recursion on
-- binary digits, with fuel for its first argument.
use Prim.Native.Nat.{
  ℕ, zero, suc, ◌+◌, ◌*◌, ◌/◌, ◌%◌, ◌≤◌, ◌<◌, max, digits, bit_or, bit_or-bitwise,
}
use mathlib.Core.Path.{◌≡◌, refl}
use native.Mathlib.Nat.{le_refl}
use native.Mathlib.Omega.{arith}

abbrev join : ℕ → ℕ → ℕ → ℕ
join = digits (λ b. b) max

-- One digit: what the halves join to, and a low digit that is free in `a`.
join_even :
    (n a b : ℕ)
    → a ≤ n
    → a % 2 ≡ 0
    → ((m : ℕ) → a / 2 ≤ m → join m (a / 2) (b / 2) ≡ a / 2 + b / 2)
    → join n a b ≡ a + b
join_even zero zero b p e halves = omega arith
join_even (suc n) zero b p e halves = omega arith
join_even zero (suc a) b p e halves = absurd (omega arith)
join_even (suc n) (suc a) b p e halves = omega (arith, halves n (omega arith))

join-zero : (n a : ℕ) → a ≤ n → join n a 0 ≡ a
join-zero zero zero p = refl
join-zero (suc n) zero p = refl
join-zero zero (suc a) p = absurd (omega arith)
join-zero (suc n) (suc a) p = omega (arith, join-zero n (suc a / 2) (omega arith))

join_bit : (n a b : ℕ) → a ≤ n → a % 2 ≡ 0 → b < 2 → join n a b ≡ a + b
join_bit n a b p e h = join_even n a b p e λ m q.
    let none_left : b / 2 ≡ 0 = omega arith in rw none_left (omega (arith, join-zero m (a / 2) q))

join_pair : (n a b : ℕ) → a ≤ n → a % 4 ≡ 0 → b < 4 → join n a b ≡ a + b
join_pair n a b p e h =
    join_even n a b p (omega arith) λ m q. join_bit m (a / 2) (b / 2) q (omega arith) (omega arith)

join_triple : (n a b : ℕ) → a ≤ n → a % 8 ≡ 0 → b < 8 → join n a b ≡ a + b
join_triple n a b p e h =
    join_even n a b p (omega arith) λ m q. join_pair m (a / 2) (b / 2) q (omega arith) (omega arith)

-- The four low bits of a multiple of 16 are free.
pub bit_or_nibble : (r d : ℕ) → d < 16 → bit_or (r * 16) d ≡ r * 16 + d
bit_or_nibble r d h = simp bit_or-bitwise (
    join_even (r * 16) (r * 16) d (le_refl _) (omega arith)
      λ m q. join_triple m (r * 16 / 2) (d / 2) q (omega arith) (omega arith))
