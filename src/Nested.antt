-- ===== src/Nested.antt =====
-- src/signals-nested.cpp and src/signals-nested-2.cpp: `gencode` fills a file with small loops of
-- machine code, which the signal handlers map and run.
pub mod Layout
pub mod Cpu
pub mod Calls
pub mod Handlers
pub mod Sleep
pub mod Alarmed
pub mod Kills
pub mod Counted
pub mod Rounds
use fex_assorted_tests_bins.Prelude.{
  ℕ, zero, suc, ◌+◌, ◌-◌, ◌*◌, ◌<◌, Bool, true, false, Option, none, some, List, [], ◌∷◌, ltb, ◌==◌,
  if◌then◌else◌,
}

-- `constexpr size_t CODE_SIZE = 4 * 1024 * 1024`
abbrev pub code_size : ℕ
code_size = 4 * 1024 * 1024

-- The bytes of the mapping.
abbrev pub Memory : Type 0
Memory = ℕ → ℕ

-- `code[i] = b` in a mapping of `size` bytes; `none` is a store outside of it.
unfoldable pub put : ℕ → ℕ → ℕ → Memory → Option Memory
put size i b mem = if ltb i size then some (λ j. if i == j then b else mem j) else none

-- A run of `code[i++] = b`.
unfoldable pub emit : ℕ → ℕ → List ℕ → Memory → Option (ℕ × Memory)
emit size i [] mem = some (i, mem)
emit size i (b ∷ bs) mem = elim (put size i b mem) [
  | none ↦ none
  | some mem' ↦ emit size (i + 1) bs mem'
]

-- The body of the loop in src/signals-nested.cpp.
abbrev pub block_nested : List ℕ
block_nested = 0xB8 ∷ 0xFF ∷ 0xFF ∷ 0xFF ∷ 0xFE ∷ 0x05 ∷ 0 ∷ 0 ∷ 0 ∷ 1 ∷ 0x75 ∷ (256 - 7) ∷ []

-- The body of the loop in src/signals-nested-2.cpp.
abbrev pub block_nested_2 : List ℕ
block_nested_2 = 0xB8 ∷ 0xFE ∷ 0xFF ∷ 0xFF ∷ 0xFF ∷ 0x05 ∷ 1 ∷ 0 ∷ 0 ∷ 0 ∷ 0x75 ∷ (256 - 7) ∷ []

-- `while (i < (CODE_SIZE - 100))`, with fuel.
unfoldable pub fill_blocks : ℕ → ℕ → List ℕ → ℕ → Memory → Option (ℕ × Memory)
fill_blocks zero size block i mem = none
fill_blocks (suc fuel) size block i mem = elim (ltb i (size - 100)) [
  | true ↦ elim (emit size i block mem) [
    | none ↦ none
    | some (i', mem') ↦ fill_blocks fuel size block i' mem'
  ]
  | false ↦ some (i, mem)
]

-- `gencode`: the blocks, and one `ret` behind them.
unfoldable pub gencode : ℕ → ℕ → List ℕ → Memory → Option (ℕ × Memory)
unfolding fill_blocks emit put
gencode fuel size block mem = elim (fill_blocks fuel size block 0 mem) [
  | none ↦ none
  | some (i, mem') ↦ emit size i (0xC3 ∷ []) mem'
]

-- `gencode` of src/signals-nested-2.cpp, at the size of its file.
unfoldable pub gencode_2 : ℕ → Memory → Option (ℕ × Memory)
unfolding gencode
gencode_2 fuel mem = gencode fuel code_size block_nested_2 mem
