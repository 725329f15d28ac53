-- ===== src/Nested/Layout.antt =====
-- Where `gencode` of src/signals-nested.cpp and src/signals-nested-2.cpp writes.
use fex_assorted_tests_bins.Prelude.{
  ℕ, zero, suc, ◌+◌, ◌-◌, ◌*◌, ◌%◌, ◌<◌, ◌≤◌, some, List, [], ◌∷◌, ◌≡◌, refl, ◌∙◌, ap, arith, ltb,
  ◌==◌, if◌then◌else◌, length, Bool-cases, inl, inr,
}
use fex_assorted_tests_bins.Nested.{Memory, put, emit, fill_blocks, gencode}

abbrev pub get_or : List ℕ → ℕ → ℕ → ℕ
get_or [] i d = d
get_or (x ∷ xs) zero d = x
get_or (x ∷ xs) (suc i) d = get_or xs i d

-- `mem'` is `mem` with `bs` from `i` on, as far as `i + length bs`.
pub record IsEmitted (i : ℕ) (bs : List ℕ) (mem mem' : Memory) : Type 0 where
  pub before : (y : ℕ) → y < i → mem' y ≡ mem y
  pub placed : (x y : ℕ) → y ≡ i + x → x < length bs → mem' y ≡ get_or bs x 0

put_lem :
    (size i b : ℕ) (mem : Memory)
    → i < size
    → put size i b mem ≡ some (λ j. if i == j then b else mem j)
unfolding put
put_lem size i b mem h = ground arith

emit_lem :
    (bs : List ℕ) (size i n : ℕ) (mem : Memory)
    → n ≡ i + length bs
    → n ≤ size
    → (mem' : Memory) × (emit size i bs mem ≡ some (n, mem')) × IsEmitted i bs mem mem'
unfolding emit
emit_lem [] size i n mem e h =
    let same : i ≡ n = omega arith in
    (
      mem,
      ap (λ k. some (k, mem)) same,
      record { before = λ y lt. refl; placed = λ x y e lt. absurd (omega arith) },
    )
emit_lem (b ∷ bs) size i n mem e h =
    let mem₁ : Memory = λ j. if i == j then b else mem j in
    let (mem', e', m) = emit_lem bs size (i + 1) n mem₁ (omega arith) h in
    (
      mem',
      rw (put_lem size i b mem (omega arith), emit) e',
      record { before = λ y lt. m.before y (omega arith) ∙ ground arith; placed = placed m },
    )
  where
    placed :
        {mem' : Memory}
        → IsEmitted (i + 1) bs (λ j. if i == j then b else mem j) mem'
        → (x y : ℕ) → y ≡ i + x
        → x < suc (length bs)
        → mem' y ≡ get_or (b ∷ bs) x 0
    placed m zero y e lt = m.before y (omega arith) ∙ ground arith
    placed m (suc x) y e lt = m.placed x y (omega arith) (omega arith)

-- Every byte below `i` is the byte of the block at its offset modulo the block's length.
abbrev pub IsTiled : List ℕ → ℕ → Memory → Type 0
IsTiled block i mem = (y : ℕ) → y < i → mem y ≡ get_or block (y % 12) 0

-- `n` whole blocks, the last of which starts before `size - 100`.
pub record IsFilled (size n : ℕ) (block : List ℕ) (mem : Memory) : Type 0 where
  pub reached : size - 100 ≤ 12 * n
  pub short : 12 * n < size - 100 + 12
  pub tiled : IsTiled block (12 * n) mem

-- The loop in fuel: it ends at the first multiple of 12 from `size - 100` on.
fill_blocks_lem :
    (fuel k size : ℕ) (block : List ℕ) (mem : Memory)
    → length block ≡ 12
    → 100 ≤ size
    → 12 * k < size - 100 + 12
    → size < 12 * (k + fuel)
    → IsTiled block (12 * k) mem
    → (n : ℕ) × (mem' : Memory) × (fill_blocks fuel size block (12 * k) mem ≡ some (12 * n, mem'))
      × IsFilled size n block mem'
unfolding fill_blocks
fill_blocks_lem zero k size block mem len big low enough tiled = absurd (omega arith)
fill_blocks_lem (suc fuel) k size block mem len big low enough tiled =
    elim (Bool-cases (ltb (12 * k) (size - 100))) [
      | inl more ↦
          let (mem', e, m) =
            emit_lem block size (12 * k) (12 * (k + 1)) mem (omega arith) (ground arith) in
          let next : IsTiled block (12 * (k + 1)) mem' = λ y lt. tile m y lt in
          let (n, mem'', e', rest) =
            fill_blocks_lem fuel (k + 1) size block mem' len big (ground arith) (omega arith)
              next in
          (n, mem'', rw (more, fill_blocks) (rw (e, fill_blocks) e'), rest)
      | inr done ↦ (
        k,
        mem,
        rw (done, fill_blocks),
        record { reached = ground arith; short = low; tiled = tiled },
      )
    ]
  where
    tile :
        {mem' : Memory}
        → IsEmitted (12 * k) block mem mem'
        → (y : ℕ) → y < 12 * (k + 1)
        → mem' y ≡ get_or block (y % 12) 0
    tile m y lt = elim (Bool-cases (ltb y (12 * k))) [
      | inl old ↦ m.before y (ground arith) ∙ tiled y (ground arith)
      | inr new ↦ m.placed (y % 12) y (ground arith) (omega arith)
    ]

-- With a block of 12 bytes, a mapping of 100 bytes or more and fuel for each block, gencode stays
-- inside of the mapping: whole blocks fill it up to its last 100 bytes, a ret stands behind them,
-- and its index ends behind the ret.
pub gencode_lem :
    (fuel size : ℕ) (block : List ℕ) (mem : Memory)
    → length block ≡ 12
    → 100 ≤ size
    → size < 12 * fuel
    → (n : ℕ) × (mem' : Memory) × (gencode fuel size block mem ≡ some (12 * n + 1, mem'))
      × IsFilled size n block mem'
      × (mem' (12 * n) ≡ 0xC3)
unfolding gencode
gencode_lem fuel size block mem len big enough =
    let (n, filled, e, f) =
      fill_blocks_lem fuel 0 size block mem len big (omega arith) (omega arith)
        (λ y lt. absurd (omega arith)) in
    let (mem', e', m) =
      emit_lem (0xC3 ∷ []) size (12 * n) (12 * n + 1) filled (omega arith)
        (omega (arith, f.short)) in
    (
      n,
      mem',
      rw (e, gencode) e',
      record { reached = f.reached; short = f.short; tiled = λ y lt. m.before y lt ∙ f.tiled y lt },
      m.placed 0 (12 * n) (omega arith) (omega arith),
    )
