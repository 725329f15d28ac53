-- ===== src/Nested/Calls.antt =====
-- The call of the generated code in `test` of src/signals-nested.cpp and src/signals-nested-2.cpp.
use fex_assorted_tests_bins.Prelude.{
  ℕ, zero, suc, ◌+◌, ◌-◌, ◌*◌, ◌%◌, ◌^◌, ◌<◌, ◌≤◌, false, ◌⊎◌, inl, inr, ◌≡◌, refl, sym, ◌∙◌, ap,
  arith, subst, some, List, length, ◌==◌,
}
use fex_assorted_tests_bins.Nested.Layout.{get_or, IsTiled, gencode_lem}
use fex_assorted_tests_bins.Nested.Cpu.{Regs, IsX86, byte_at, steps, blocks_2_steps}
use fex_assorted_tests_bins.Nested.{
  Memory, code_size, block_nested, block_nested_2, gencode, gencode_2,
}

-- How many blocks `gencode` writes.
abbrev pub blocks : ℕ
blocks = 349_517

blocks_lem : (n : ℕ) → code_size - 100 ≤ 12 * n → 12 * n < code_size - 100 + 12 → n ≡ blocks
blocks_lem n h k = omega arith

-- `gencode` at the size of the file, with the number of blocks known.
gencode-blocks :
    (fuel : ℕ) (block : List ℕ) (mem : Memory)
    → length block ≡ 12
    → code_size < 12 * fuel
    → (mem' : Memory) × (gencode fuel code_size block mem ≡ some (12 * blocks + 1, mem'))
      × IsTiled block (12 * blocks) mem'
      × (mem' (12 * blocks) ≡ 0xC3)
gencode-blocks fuel block mem len enough =
    let (n, mem', e, f, end) = gencode_lem fuel code_size block mem len (omega arith) enough in
    let same : n ≡ blocks = blocks_lem n f.reached f.short in
    (
      mem',
      e ∙ ap (λ k. some (12 * k + 1, mem')) same,
      subst (λ k. IsTiled block (12 * k) mem') same f.tiled,
      subst (λ k. mem' (12 * k) ≡ 0xC3) same end,
    )

module _ (step : Memory → Regs → Regs) (law : IsX86 step) where
  -- On a processor with the laws of the instructions used, the code that gencode of src/signals-
  -- nested-2.cpp writes, called at its start, stands at its ret after five instructions a block.
  pub nested_2_returns :
      (fuel : ℕ) (mem : Memory) (r : Regs)
      → code_size < 12 * fuel
      → r.pc ≡ 0
      → (mem' : Memory) × (gencode_2 fuel mem ≡ some (12 * blocks + 1, mem'))
        × ((steps step (blocks * 5) mem' r).pc ≡ 12 * blocks)
        × (mem' (12 * blocks) ≡ 0xC3)
  unfolding gencode_2
  nested_2_returns fuel mem r enough start =
      let (mem', e, tiled, ret) = gencode-blocks fuel block_nested_2 mem refl enough in
      (
        mem',
        e,
        blocks_2_steps step law blocks 0 blocks mem' r tiled (omega arith) (omega arith),
        ret,
      )

  -- Between the `add` and the `jnz` of the first block, with the low three bytes of eax all set.
  abbrev Spins : Regs → Type 0
  Spins r =
      ((r.pc ≡ 5) × (r.eax % 2 ^ 24 ≡ 2 ^ 24 - 1))
      ⊎ ((r.pc ≡ 10) × (r.zf ≡ false) × (r.eax % 2 ^ 24 ≡ 2 ^ 24 - 1))

  module _ (n : ℕ) (mem : Memory) (tiled : IsTiled block_nested (12 * n) mem)
      (some_block : 0 < n) where
    at : (x y : ℕ) → x < 12 → y ≡ x → mem y ≡ get_or block_nested x 0
    at x y hx e = byte_at block_nested n mem tiled 0 x y some_block hx (omega arith)

    start-Spins : (r : Regs) → r.pc ≡ 0 → Spins (step mem r)
    start-Spins r e =
        subst Spins
          (sym (
            law.mov_law mem r 0xFF 0xFF 0xFF 0xFE (at 0 r.pc (omega arith) (omega arith))
              (at 1 (r.pc + 1) (omega arith) (omega arith))
              (at 2 (r.pc + 2) (omega arith) (omega arith))
              (at 3 (r.pc + 3) (omega arith) (omega arith))
              (at 4 (r.pc + 4) (omega arith) (omega arith))))
          (inl (omega arith, refl))

    step-Spins : (r : Regs) → Spins r → Spins (step mem r)
    step-Spins r (inl (e, low)) =
        subst Spins
          (sym (
            law.add_law mem r 0 0 0 1 (at 5 r.pc (omega arith) (omega arith))
              (at 6 (r.pc + 1) (omega arith) (omega arith))
              (at 7 (r.pc + 2) (omega arith) (omega arith))
              (at 8 (r.pc + 3) (omega arith) (omega arith))
              (at 9 (r.pc + 4) (omega arith) (omega arith))))
          (inr (omega arith, ground arith, omega arith))
    step-Spins r (inr (e, z, low)) =
        subst Spins
          (sym (
            law.jnz_law mem r 0xF9 (at 10 r.pc (omega arith) (omega arith))
              (at 11 (r.pc + 1) (omega arith) (omega arith))))
          (inl (ground arith, low))

    steps_spin : (j : ℕ) (r : Regs) → Spins r → Spins (steps step j mem r)
    unfolding steps
    steps_spin zero r h = h
    steps_spin (suc j) r h = steps_spin j (step mem r) (step-Spins r h)

    -- A byte that the code stands at is never its `ret`.
    Spins-no_ret : (q : Regs) → Spins q → (mem q.pc == 0xC3) ≡ false
    Spins-no_ret q (inl h) = let b = at 5 q.pc (omega arith) h.0 in rw b refl
    Spins-no_ret q (inr h) = let b = at 10 q.pc (omega arith) h.0 in rw b refl

    steps-no_ret : (j : ℕ) (r : Regs) → r.pc ≡ 0 → (mem (steps step j mem r).pc == 0xC3) ≡ false
    unfolding steps
    steps-no_ret zero r e = let b = at 0 r.pc (omega arith) e in rw b refl
    steps-no_ret (suc j) r e = Spins-no_ret _ (steps_spin j (step mem r) (start-Spins r e))

  -- However long it runs, a call of the code in src/signals-nested.cpp does not return.
  pub nested_no_ret :
      (fuel : ℕ) (mem : Memory)
      → code_size < 12 * fuel
      → (mem' : Memory) × (gencode fuel code_size block_nested mem ≡ some (12 * blocks + 1, mem'))
        × ((j : ℕ) (r : Regs) → r.pc ≡ 0 → (mem' (steps step j mem' r).pc == 0xC3) ≡ false)
  nested_no_ret fuel mem enough =
      let (mem', e, tiled, ret) = gencode-blocks fuel block_nested mem refl enough in
      (mem', e, steps-no_ret blocks mem' tiled (omega arith))

  -- On a processor with the laws of the instructions used, the code that gencode of src/signals-
  -- nested.cpp writes never leaves its first block: from the first instruction on, it is at the add
  -- or at the jump of that block.
  pub nested_spins :
      (fuel : ℕ) (mem : Memory) (r : Regs)
      → code_size < 12 * fuel
      → r.pc ≡ 0
      → (mem' : Memory) × (gencode fuel code_size block_nested mem ≡ some (12 * blocks + 1, mem'))
        × ((j : ℕ) → ((steps step (suc j) mem' r).pc ≡ 5) ⊎ ((steps step (suc j) mem' r).pc ≡ 10))
  nested_spins fuel mem r enough start =
      let (mem', e, tiled, ret) = gencode-blocks fuel block_nested mem refl enough in
      (
        mem',
        e,
        λ j. where_to (steps step (suc j) mem' r) (
            unfold steps in
            steps_spin blocks mem' tiled (omega arith) j (step mem' r)
              (start-Spins blocks mem' tiled (omega arith) r start)),
      )
    where
      where_to : (q : Regs) → Spins q → (q.pc ≡ 5) ⊎ (q.pc ≡ 10)
      where_to q (inl h) = inl h.0
      where_to q (inr h) = inr h.0
