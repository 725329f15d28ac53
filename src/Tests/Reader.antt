-- ===== src/Tests/Reader.antt =====
-- Runs of src/gdb-jit/fexreader.cpp on an image of one block and two lines.
use fex_assorted_tests_bins.Prelude.{
  ℕ, zero, suc, ◌+◌, ◌-◌, ◌*◌, ◌/◌, ◌%◌, ◌^◌, lt-cases, inl, inr, subst, ◌<◌, [], ◌∷◌, ◌≡◌, refl,
  arith, ◌==◌, if◌then◌else◌,
}
use fex_assorted_tests_bins.Reader.{
  Memory, object_open, symtab_open, block_open, line_mapping_add, symtab_close, object_close,
  success, gdb_init_reader,
}
use fex_assorted_tests_bins.Reader.Image.{IsImage, gdb_init_reader-reads}

-- At 4096, with the block at 4632 and the lines at 5160.
abbrev one_block : Memory
one_block a =
    if a == 4608
    then 24
    else if a == 4609
    then 2
    else if a == 4616
    then 40
    else if a == 4617
    then 4
    else if a == 4624
    then 1
    else if a == 4628
    then 2
    else if a == 5144
    then 7
    else if a == 5152
    then 9
    else 0

below_four : (Q : ℕ → Type 0) → Q 0 → Q 1 → Q 2 → Q 3 → (i : ℕ) → i < 4 → Q i
below_four Q a b c d zero h = a
below_four Q a b c d (suc zero) h = b
below_four Q a b c d (suc (suc zero)) h = c
below_four Q a b c d (suc (suc (suc zero))) h = d
below_four Q a b c d (suc (suc (suc (suc i)))) h = absurd (omega arith)

below_eight :
    (Q : ℕ → Type 0) → Q 0 → Q 1 → Q 2 → Q 3 → Q 4 → Q 5 → Q 6 → Q 7 → (i : ℕ) → i < 8 → Q i
below_eight Q a b c d e f g k i h = elim (lt-cases i 4) [
  | inl low ↦ below_four Q a b c d i low
  | inr high ↦
      let back : 4 + (i - 4) ≡ i = omega arith in
      subst Q back (below_four (λ j. Q (4 + j)) e f g k (i - 4) (omega arith))
]

abbrev one_block-IsImage : IsImage one_block 4096 4632 5160 2 (record { start = 7; end = 9 } ∷ [])
one_block-IsImage = record {
  blocks_word =
      below_eight (λ i. one_block (4608 + i) ≡ 536 / 2 ^ (8 * i) % 2 ^ 8) refl refl refl refl refl
        refl refl refl;
  lines_word =
      below_eight (λ i. one_block (4616 + i) ≡ 1064 / 2 ^ (8 * i) % 2 ^ 8) refl refl refl refl refl
        refl refl refl;
  nblocks_half =
      below_four (λ i. one_block (4624 + i) ≡ 1 / 2 ^ (8 * i) % 2 ^ 8) refl refl refl refl;
  nlines_half =
      below_four (λ i. one_block (4628 + i) ≡ 2 / 2 ^ (8 * i) % 2 ^ 8) refl refl refl refl;
  few_blocks = omega arith;
  few_lines = omega arith;
  blocks_behind = omega arith;
  lines_behind = omega arith;
  blocks_end = omega arith;
  lines_end = omega arith;
  contents = (
    omega arith,
    omega arith,
    below_eight (λ i. one_block (5144 + i) ≡ 7 / 2 ^ (8 * i) % 2 ^ 8) refl refl refl refl refl refl
        refl refl,
    below_eight (λ i. one_block (5152 + i) ≡ 9 / 2 ^ (8 * i) % 2 ^ 8) refl refl refl refl refl refl
        refl refl,
    tt,
  );
}

gdb_init_reader-reads_example :
    ((gdb_init_reader 1).read 1 2 one_block 4096 ≡ (
      success,
      object_open
          ∷ symtab_open 1 4096
          ∷ block_open 2 0 7 9 4632
          ∷ line_mapping_add 2 2 5160
          ∷ symtab_close 2
          ∷ object_close 1
          ∷ [],
    ))
    × ((gdb_init_reader 1).unwind ≡ (success, []))
    × ((gdb_init_reader 1).frame_id ≡ (record { code_address = 0x1234000; stack_address = 0 }, []))
    × ((gdb_init_reader 1).destroy ≡ [])
gdb_init_reader-reads_example =
    gdb_init_reader-reads 1 1 2 4096 4632 5160 2 one_block (record { start = 7; end = 9 } ∷ [])
      one_block-IsImage
