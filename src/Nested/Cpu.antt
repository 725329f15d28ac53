-- ===== src/Nested/Cpu.antt =====
-- What the code that `gencode` of src/signals-nested.cpp and src/signals-nested-2.cpp writes does when
-- `test` calls it. The processor is a parameter with the laws of the three instructions used.
use fex_assorted_tests_bins.Prelude.{
  ℕ, zero, suc, ◌+◌, ◌-◌, ◌*◌, ◌%◌, ◌^◌, ◌<◌, Bool, true, false, ◌≡◌, refl, ◌∙◌, ap, arith, ltb,
  List, ◌==◌, if◌then◌else◌,
}
use fex_assorted_tests_bins.Nested.Layout.{get_or, IsTiled}
use fex_assorted_tests_bins.Nested.{Memory, block_nested_2}

-- `pc` is an index into the mapping.
pub record Regs : Type 0 where
  pub pc : ℕ
  pub eax : ℕ
  pub zf : Bool

abbrev pub le32 : ℕ → ℕ → ℕ → ℕ → ℕ
le32 b₀ b₁ b₂ b₃ = b₀ + b₁ * 2 ^ 8 + b₂ * 2 ^ 16 + b₃ * 2 ^ 24

-- `next + (int8_t)d`
abbrev pub rel8 : ℕ → ℕ → ℕ
rel8 next d = if ltb d 128 then next + d else next + d - 256

pub record IsX86 (step : Memory → Regs → Regs) : Type 0 where
  -- mov eax, imm32
  pub mov_law :
      (mem : Memory) (r : Regs) (b₀ b₁ b₂ b₃ : ℕ)
      → mem r.pc ≡ 0xB8
      → mem (r.pc + 1) ≡ b₀
      → mem (r.pc + 2) ≡ b₁
      → mem (r.pc + 3) ≡ b₂
      → mem (r.pc + 4) ≡ b₃
      → step mem r ≡ record r { pc = r.pc + 5; eax = le32 b₀ b₁ b₂ b₃ }
  -- add eax, imm32
  pub add_law :
      (mem : Memory) (r : Regs) (b₀ b₁ b₂ b₃ : ℕ)
      → mem r.pc ≡ 0x05
      → mem (r.pc + 1) ≡ b₀
      → mem (r.pc + 2) ≡ b₁
      → mem (r.pc + 3) ≡ b₂
      → mem (r.pc + 4) ≡ b₃
      → step mem r ≡ record {
        pc = r.pc + 5;
        eax = (r.eax + le32 b₀ b₁ b₂ b₃) % 2 ^ 32;
        zf = (r.eax + le32 b₀ b₁ b₂ b₃) % 2 ^ 32 == 0;
      }
  -- jnz rel8
  pub jnz_law :
      (mem : Memory) (r : Regs) (d : ℕ)
      → mem r.pc ≡ 0x75
      → mem (r.pc + 1) ≡ d
      → step mem r ≡ record r { pc = if r.zf then r.pc + 2 else rel8 (r.pc + 2) d }

pub byte_at :
    (block : List ℕ) (n : ℕ) (mem : Memory)
    → IsTiled block (12 * n) mem
    → (k x y : ℕ) → k < n
    → x < 12
    → y ≡ 12 * k + x
    → mem y ≡ get_or block x 0
byte_at block n mem tiled k x y hk hx e =
    let rest : y % 12 ≡ x = omega arith in tiled y (omega arith) ∙ ap (λ i. get_or block i 0) rest

module _ (step : Memory → Regs → Regs) where
  unfoldable pub steps : ℕ → Memory → Regs → Regs
  steps zero mem r = r
  steps (suc j) mem r = steps j mem (step mem r)

  steps_add :
      (i j : ℕ) (mem : Memory) (r : Regs) → steps (i + j) mem r ≡ steps j mem (steps i mem r)
  unfolding steps
  steps_add zero j mem r = let e : 0 + j ≡ j = omega arith in rw e
  steps_add (suc i) j mem r =
      let e : suc i + j ≡ suc (i + j) = omega arith in rw e (steps_add i j mem (step mem r))

  module _ (law : IsX86 step) where
    -- One block of src/signals-nested-2.cpp: eax goes through 0xFFFFFFFF to 0.
    block_2_steps :
        (n k : ℕ) (mem : Memory) (r : Regs)
        → IsTiled block_nested_2 (12 * n) mem
        → k < n
        → r.pc ≡ 12 * k
        → steps 5 mem r ≡ record { pc = 12 * (k + 1); eax = 0; zf = true }
    unfolding steps
    block_2_steps n k mem r tiled h e =
        ap (steps 4 mem) s₁ ∙ ap (steps 3 mem) s₂ ∙ ap (steps 2 mem) s₃ ∙ ap (steps 1 mem) s₄ ∙ s₅
      where
        at : (x y : ℕ) → x < 12 → y ≡ 12 * k + x → mem y ≡ get_or block_nested_2 x 0
        at x y hx ey = byte_at block_nested_2 n mem tiled k x y h hx ey

        r₁ : Regs
        r₁ = record { pc = 12 * k + 5; eax = 0xFFFFFFFE; zf = r.zf }

        r₂ : Regs
        r₂ = record { pc = 12 * k + 10; eax = 0xFFFFFFFF; zf = false }

        r₃ : Regs
        r₃ = record { pc = 12 * k + 5; eax = 0xFFFFFFFF; zf = false }

        r₄ : Regs
        r₄ = record { pc = 12 * k + 10; eax = 0; zf = true }

        s₁ : step mem r ≡ r₁
        s₁ =
            law.mov_law mem r 0xFE 0xFF 0xFF 0xFF (at 0 r.pc (omega arith) (omega arith))
              (at 1 (r.pc + 1) (omega arith) (omega arith))
              (at 2 (r.pc + 2) (omega arith) (omega arith))
              (at 3 (r.pc + 3) (omega arith) (omega arith))
              (at 4 (r.pc + 4) (omega arith) (omega arith))
            ∙ ground arith

        added :
            (q : Regs)
            → q.pc ≡ 12 * k + 5
            → step mem q
              ≡ record { pc = q.pc + 5; eax = (q.eax + 1) % 2 ^ 32; zf = (q.eax + 1) % 2 ^ 32 == 0 }
        added q eq =
            law.add_law mem q 1 0 0 0 (at 5 q.pc (omega arith) (omega arith))
              (at 6 (q.pc + 1) (omega arith) (omega arith))
              (at 7 (q.pc + 2) (omega arith) (omega arith))
              (at 8 (q.pc + 3) (omega arith) (omega arith))
              (at 9 (q.pc + 4) (omega arith) (omega arith))

        jumped :
            (q : Regs)
            → q.pc ≡ 12 * k + 10
            → step mem q ≡ record q { pc = if q.zf then q.pc + 2 else rel8 (q.pc + 2) 0xF9 }
        jumped q eq =
            law.jnz_law mem q 0xF9 (at 10 q.pc (omega arith) (omega arith))
              (at 11 (q.pc + 1) (omega arith) (omega arith))

        s₂ : step mem r₁ ≡ r₂
        s₂ = added r₁ refl ∙ ground arith

        s₃ : step mem r₂ ≡ r₃
        s₃ = jumped r₂ refl ∙ ground arith

        s₄ : step mem r₃ ≡ r₄
        s₄ = added r₃ refl ∙ ground arith

        s₅ : step mem r₄ ≡ record { pc = 12 * (k + 1); eax = 0; zf = true }
        s₅ = jumped r₄ refl ∙ ground arith

    -- From the start of block `k` the run reaches the end of the `j` blocks that follow.
    pub blocks_2_steps :
        (n k j : ℕ) (mem : Memory) (r : Regs)
        → IsTiled block_nested_2 (12 * n) mem
        → k + j ≡ n
        → r.pc ≡ 12 * k
        → (steps (j * 5) mem r).pc ≡ 12 * n
    blocks_2_steps n k zero mem r tiled e h = unfold steps in omega arith
    blocks_2_steps n k (suc j) mem r tiled e h =
        let next : Regs = record { pc = 12 * (k + 1); eax = 0; zf = true } in
        let five : suc j * 5 ≡ 5 + j * 5 = omega arith in
        rw five (
          ap (λ q. q.pc)
            (steps_add 5 (j * 5) mem r
              ∙ ap (steps (j * 5) mem) (block_2_steps n k mem r tiled (omega arith) h))
          ∙ blocks_2_steps n (k + 1) j mem next tiled (omega arith) refl)
