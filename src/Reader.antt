-- ===== src/Reader.antt =====
-- src/gdb-jit/fexreader.cpp: `read_debug_info` walks the tables of an image in memory, and calls gdb
-- back for what it finds. The callbacks are gdb's: the model lists the calls of them.
pub mod Image
use fex_assorted_tests_bins.Prelude.{
  ℕ, zero, suc, ◌+◌, ◌*◌, ◌%◌, ◌^◌, List, [], ◌∷◌, ◌++◌, ltb, if◌then◌else◌,
}

abbrev pub Memory : Type 0
Memory = ℕ → ℕ

-- A little-endian `int`, without its sign, and a little-endian `long` or `GDB_CORE_ADDR`.
unfoldable pub read32 : Memory → ℕ → ℕ
read32 mem a = mem (a + 0) + mem (a + 1) * 2 ^ 8 + mem (a + 2) * 2 ^ 16 + mem (a + 3) * 2 ^ 24

unfoldable pub read64 : Memory → ℕ → ℕ
unfolding read32
read64 mem a = read32 mem a + read32 mem (a + 4) * 2 ^ 32

-- A call of gdb, with the handles, numbers and pointers that it is given.
pub data Call : Type 0 where
  object_open : Call
  symtab_open : (object filename : ℕ) → Call
  block_open : (symtab parent start end name : ℕ) → Call
  line_mapping_add : (symtab nlines lines : ℕ) → Call
  symtab_close object_close : (handle : ℕ) → Call

pub data Status : Type 0 where
  success : Status

-- `info_t`: the filename in 512 bytes, two offsets, two counts.
abbrev pub filename_at : ℕ → ℕ
filename_at info = info

unfoldable pub blocks_ofs : Memory → ℕ → ℕ
blocks_ofs mem info = read64 mem (info + 512)

unfoldable pub lines_ofs : Memory → ℕ → ℕ
lines_ofs mem info = read64 mem (info + 520)

unfoldable pub nblocks : Memory → ℕ → ℕ
nblocks mem info = read32 mem (info + 528)

unfoldable pub nlines : Memory → ℕ → ℕ
nlines mem info = read32 mem (info + 532)

-- `sizeof(blocks_t)`: the name in 512 bytes, start and end.
abbrev pub block_size : ℕ
block_size = 528

-- The rounds of `for (int i = 0; i < n; i++)`: none for a negative `n`.
abbrev pub rounds : ℕ → ℕ
rounds n = if ltb n (2 ^ 31) then n else 0

-- `blocks[i]`, for the `k` rounds that are left.
unfoldable pub open_blocks : Memory → ℕ → ℕ → ℕ → ℕ → List Call
open_blocks mem symtab blocks zero i = []
open_blocks mem symtab blocks (suc k) i =
    let block = blocks + i * block_size in
    block_open symtab 0 (read64 mem (block + 512)) (read64 mem (block + 520)) block
    ∷ open_blocks mem symtab blocks k (i + 1)

-- `read_debug_info`, where gdb answers with the handles `object` and `symtab`. The loop over the
-- lines only prints.
unfoldable pub read_debug_info : (object symtab : ℕ) → Memory → ℕ → Status × List Call
unfolding open_blocks blocks_ofs lines_ofs nblocks nlines
read_debug_info object symtab mem memory =
    let blocks = (blocks_ofs mem memory + memory) % 2 ^ 64 in
    let lines = (lines_ofs mem memory + memory) % 2 ^ 64 in
    (
      success,
      object_open
          ∷ symtab_open object (filename_at memory)
          ∷ (open_blocks mem symtab blocks (rounds (nblocks mem memory)) 0
              ++ (line_mapping_add symtab (nlines mem memory) lines
                  ∷ symtab_close symtab
                  ∷ object_close object
                  ∷ [])),
    )

-- `struct gdb_frame_id`
pub record FrameId : Type 0 where
  pub code_address : ℕ
  pub stack_address : ℕ

-- Each of these functions calls gdb back with what stands in the list.
unfoldable pub unwind_frame : Status × List Call
unwind_frame = (success, [])

unfoldable pub get_frame_id : FrameId × List Call
get_frame_id = (record { code_address = 0x1234000; stack_address = 0 }, [])

unfoldable pub destroy_reader : List Call
destroy_reader = []

-- `struct gdb_reader_funcs`, through which gdb calls the reader; the version is gdb's.
pub record ReaderFuncs : Type 0 where
  pub reader_version : ℕ
  pub priv_data : ℕ
  pub read : (object symtab : ℕ) → Memory → ℕ → Status × List Call
  pub unwind : Status × List Call
  pub frame_id : FrameId × List Call
  pub destroy : List Call

unfoldable pub gdb_init_reader : ℕ → ReaderFuncs
unfolding read_debug_info unwind_frame get_frame_id destroy_reader
gdb_init_reader version = record {
  reader_version = version;
  priv_data = 0;
  read = read_debug_info;
  unwind = unwind_frame;
  frame_id = get_frame_id;
  destroy = destroy_reader;
}
