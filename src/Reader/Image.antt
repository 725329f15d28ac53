-- ===== src/Reader/Image.antt =====
-- What `read_debug_info` of src/gdb-jit/fexreader.cpp reports of an image that holds given tables.
use fex_assorted_tests_bins.Prelude.{
  ℕ, ◌+◌, ◌-◌, ◌*◌, ◌/◌, ◌%◌, ◌^◌, ◌≤◌, ◌<◌, List, [], ◌∷◌, ◌++◌, ◌≡◌, refl, sym, ◌∙◌, ap, subst,
  arith, length,
}
use fex_assorted_tests_bins.Reader.{
  gdb_init_reader, unwind_frame, get_frame_id, destroy_reader, Memory, read32, read64, Call,
  object_open, symtab_open, block_open, line_mapping_add, symtab_close, object_close, success,
  blocks_ofs, lines_ofs, nblocks, nlines, block_size, rounds, open_blocks, read_debug_info,
}

pub record Block : Type 0 where
  pub start : ℕ
  pub end : ℕ

-- Eight bytes that write `v`, low byte first.
abbrev pub IsWord : Memory → ℕ → ℕ → Type 0
IsWord mem a v = (i : ℕ) → i < 8 → mem (a + i) ≡ v / 2 ^ (8 * i) % 2 ^ 8

abbrev pub IsHalf : Memory → ℕ → ℕ → Type 0
IsHalf mem a v = (i : ℕ) → i < 4 → mem (a + i) ≡ v / 2 ^ (8 * i) % 2 ^ 8

-- The blocks lie behind each other.
abbrev pub AreBlocks : Memory → ℕ → List Block → Type 0
AreBlocks mem a [] = Unit
AreBlocks mem a (b ∷ bs) =
    (b.start < 2 ^ 64)
    × (b.end < 2 ^ 64)
    × IsWord mem (a + 512) b.start
    × IsWord mem (a + 520) b.end
    × AreBlocks mem (a + block_size) bs

-- The tables of an image at `memory`, by their addresses.
pub record IsImage (mem : Memory) (memory blocks lines count : ℕ) (bs : List Block) : Type 0 where
  pub blocks_word : IsWord mem (memory + 512) (blocks - memory)
  pub lines_word : IsWord mem (memory + 520) (lines - memory)
  pub nblocks_half : IsHalf mem (memory + 528) (length bs)
  pub nlines_half : IsHalf mem (memory + 532) count
  pub few_blocks : length bs < 2 ^ 31
  pub few_lines : count < 2 ^ 32
  pub blocks_behind : memory ≤ blocks
  pub lines_behind : memory ≤ lines
  pub blocks_end : blocks < 2 ^ 64
  pub lines_end : lines < 2 ^ 64
  pub contents : AreBlocks mem blocks bs

-- The calls for the blocks: in order, with the address of each one's name.
abbrev pub opened : ℕ → ℕ → List Block → List Call
opened symtab a [] = []
opened symtab a (b ∷ bs) = block_open symtab 0 b.start b.end a ∷ opened symtab (a + block_size) bs

read32_bytes :
    (mem : Memory) (a v : ℕ)
    → v < 2 ^ 32
    → mem (a + 0) ≡ v % 2 ^ 8
    → mem (a + 1) ≡ v / 2 ^ 8 % 2 ^ 8
    → mem (a + 2) ≡ v / 2 ^ 16 % 2 ^ 8
    → mem (a + 3) ≡ v / 2 ^ 24 % 2 ^ 8
    → read32 mem a ≡ v
unfolding read32
read32_bytes mem a v h b₀ b₁ b₂ b₃ = omega arith

read32_lem : (mem : Memory) (a v : ℕ) → v < 2 ^ 32 → IsHalf mem a v → read32 mem a ≡ v
read32_lem mem a v h w =
    read32_bytes mem a v h (w 0 (omega arith) ∙ omega arith) (w 1 (omega arith)) (w 2 (omega arith))
      (w 3 (omega arith))

read64_lem : (mem : Memory) (a v : ℕ) → v < 2 ^ 64 → IsWord mem a v → read64 mem a ≡ v
unfolding read64
read64_lem mem a v h w = omega (
  arith,
  read32_bytes mem a (v % 2 ^ 32) (omega arith) (w 0 (omega arith) ∙ omega arith)
      (w 1 (omega arith) ∙ omega arith) (w 2 (omega arith) ∙ omega arith)
      (w 3 (omega arith) ∙ omega arith),
  read32_bytes mem (a + 4) (v / 2 ^ 32) (omega arith) (high 0 (omega arith) ∙ omega arith)
      (high 1 (omega arith) ∙ omega arith) (high 2 (omega arith) ∙ omega arith)
      (high 3 (omega arith) ∙ omega arith),
)
  where
    high : (i : ℕ) → i < 4 → mem (a + 4 + i) ≡ v / 2 ^ (8 * (4 + i)) % 2 ^ 8
    high i lt = let e : a + 4 + i ≡ a + (4 + i) = omega arith in ap mem e ∙ w (4 + i) (omega arith)

module _ (mem : Memory) (symtab : ℕ) where
  open_blocks_lem :
      (bs : List Block) (blocks i : ℕ)
      → AreBlocks mem (blocks + i * block_size) bs
      → open_blocks mem symtab blocks (length bs) i ≡ opened symtab (blocks + i * block_size) bs
  unfolding open_blocks
  open_blocks_lem [] blocks i h = refl
  open_blocks_lem (b ∷ bs) blocks i h =
      let next : blocks + i * block_size + block_size ≡ blocks + (i + 1) * block_size =
        omega arith in
      let start = read64_lem mem (blocks + i * block_size + 512) b.start h.0 h.2 in
      let end = read64_lem mem (blocks + i * block_size + 520) b.end h.1 h.3 in
      let rest = open_blocks_lem bs blocks (i + 1) (subst (λ a. AreBlocks mem a bs) next h.4) in
      rw (start, end)
        (ap (λ calls. block_open symtab 0 b.start b.end (blocks + i * block_size) ∷ calls)
          (rest ∙ ap (λ a. opened symtab a bs) (sym next)))

-- Where memory holds an image of given tables, whose counts and addresses fit their fields,
-- read_debug_info succeeds and calls gdb for exactly these: the object, the symbol table under the
-- image's file name, each block in order with its start, end and name, the lines with their count,
-- and then both closed in reverse.
pub read_debug_info_lem :
    (object symtab memory blocks lines count : ℕ) (mem : Memory) (bs : List Block)
    → IsImage mem memory blocks lines count bs
    → read_debug_info object symtab mem memory ≡ (
      success,
      object_open
          ∷ symtab_open object memory
          ∷ (opened symtab blocks bs
              ++ (line_mapping_add symtab count lines
                  ∷ symtab_close symtab
                  ∷ object_close object
                  ∷ [])),
    )
unfolding read_debug_info blocks_ofs lines_ofs nblocks nlines
read_debug_info_lem object symtab memory blocks lines count mem bs h =
    let to_blocks =
      read64_lem mem (memory + 512) (blocks - memory) (omega (arith, h.blocks_end)) h.blocks_word in
    let to_lines =
      read64_lem mem (memory + 520) (lines - memory) (omega (arith, h.lines_end)) h.lines_word in
    let blocks_back : (blocks - memory + memory) % 2 ^ 64 ≡ blocks =
      omega (arith, h.blocks_end, h.blocks_behind) in
    let lines_back : (lines - memory + memory) % 2 ^ 64 ≡ lines =
      omega (arith, h.lines_end, h.lines_behind) in
    let n_blocks =
      read32_lem mem (memory + 528) (length bs) (omega (arith, h.few_blocks)) h.nblocks_half in
    let n_lines = read32_lem mem (memory + 532) count h.few_lines h.nlines_half in
    let all_rounds : rounds (length bs) ≡ length bs = ground (arith, h.few_blocks) in
    let at_blocks : blocks + 0 * block_size ≡ blocks = omega arith in
    let opens =
      open_blocks_lem mem symtab bs blocks 0
        (subst (λ a. AreBlocks mem a bs) (sym at_blocks) h.contents) in
    rw
      (
        to_blocks, to_lines, n_blocks, n_lines, blocks_back, lines_back, all_rounds, opens,
        at_blocks,
      )
      refl

-- Where memory holds an image of given tables, whose counts and addresses fit their fields, the
-- reader that gdb_init_reader gives gdb succeeds and calls gdb for exactly these: the object, the
-- symbol table under the image's file name, each block in order with its start, end and name, the
-- lines with their count, and then both closed in reverse; its other functions call gdb for
-- nothing, and say success, the frame 0x1234000, and nothing.
pub gdb_init_reader-reads :
    (version object symtab memory blocks lines count : ℕ) (mem : Memory) (bs : List Block)
    → IsImage mem memory blocks lines count bs
    → ((gdb_init_reader version).read object symtab mem memory ≡ (
      success,
      object_open
          ∷ symtab_open object memory
          ∷ (opened symtab blocks bs
              ++ (line_mapping_add symtab count lines
                  ∷ symtab_close symtab
                  ∷ object_close object
                  ∷ [])),
    ))
      × ((gdb_init_reader version).unwind ≡ (success, []))
      × ((gdb_init_reader version).frame_id
          ≡ (record { code_address = 0x1234000; stack_address = 0 }, []))
      × ((gdb_init_reader version).destroy ≡ [])
unfolding gdb_init_reader unwind_frame get_frame_id destroy_reader
gdb_init_reader-reads version object symtab memory blocks lines count mem bs h =
    (read_debug_info_lem object symtab memory blocks lines count mem bs h, refl, refl, refl)

-- Where nblocks is negative as an int, read_debug_info opens no block, and makes all its other
-- calls.
pub read_debug_info-negative :
    (object symtab memory : ℕ) (mem : Memory)
    → 2 ^ 31 ≤ nblocks mem memory
    → (read_debug_info object symtab mem memory).1
      ≡ object_open
        ∷ symtab_open object memory
        ∷ line_mapping_add symtab (nlines mem memory) ((lines_ofs mem memory + memory) % 2 ^ 64)
        ∷ symtab_close symtab
        ∷ object_close object
        ∷ []
unfolding read_debug_info open_blocks
read_debug_info-negative object symtab memory mem h =
    let no_rounds : rounds (nblocks mem memory) ≡ 0 = ground arith in rw no_rounds refl
