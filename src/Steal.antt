-- ===== src/Steal.antt =====
-- address-space-stealing/alloc.cpp: `StealMemoryRegion` reads /proc/self/maps and reserves every
-- gap between the mappings that it lists.
pub mod Errors
pub mod Chunks
pub mod Lines
pub mod Gaps
pub mod Bucket
pub mod Scan
pub mod Correct
use fex_assorted_tests_bins.Prelude.{
  ℕ, ◌+◌, ◌-◌, ◌*◌, ◌%◌, ◌^◌, min, max, bit_or, Bool, ◌||◌, List, [], ◌∷◌, ◌++◌, ltb, leb, ◌==◌,
  if◌then◌else◌, length, set,
}
use Errors.{Outcome, ok, fault, out_of_bounds, unread_buffer, ◌>>=◌}

abbrev pub Bytes : Type 0
Bytes = List ℕ

-- `constexpr auto BucketEntries = 32`
abbrev pub bucket_entries : ℕ
bucket_entries = 32

-- `MemoryRegionBucket`: `uintptr_t PtrSize[BucketEntries + 1]`
abbrev pub Bucket : Type 0
Bucket = List ℕ

abbrev pub bucket_words : ℕ
bucket_words = bucket_entries + 1

-- `alloca`: the address of the n-th bucket, and the words that lie there before they are written.
pub record Stack : Type 0 where
  pub address : ℕ → ℕ
  pub contents : ℕ → Bucket

pub data ScanState : Type 0 where
  parse_begin parse_end scan_end : ScanState

-- The arguments of one `SYS_mmap`.
pub record Mapping : Type 0 where
  pub start : ℕ
  pub size : ℕ

-- What one `SYS_read` of the maps file gives.
pub data Read : Type 0 where
  chunk : Bytes → Read
  again failed : Read

-- The locals of `StealMemoryRegion`; `maps` are its calls of mmap so far, `links` the buckets.
pub record Scanner : Type 0 where
  pub state : ScanState
  pub region_begin : ℕ
  pub region_end : ℕ
  pub bucket : Bucket
  pub position : ℕ
  pub links : ℕ
  pub maps : List Mapping

-- `PtrSize[i] = v`: past the end of the array is undefined.
unfoldable pub store_word : Bucket → ℕ → ℕ → Outcome Bucket
store_word b i v = if ltb i (length b) then ok (set b i v) else fault out_of_bounds

-- A byte is a signed `char`; the digit is an `int` that `|` turns into a `uintptr_t`.
unfoldable pub digit_value : ℕ → ℕ
digit_value c =
    if ltb 127 c
    then (c + 2 ^ 64 - 256 - 48) % 2 ^ 64
    else if leb c b'9'
    then (c + 2 ^ 64 - 48) % 2 ^ 64
    else (c + 2 ^ 64 - 97 + 10) % 2 ^ 64

-- `r << 4 | digit`
unfoldable pub push_digit : ℕ → ℕ → ℕ
push_digit r c = bit_or (r * 2 ^ 4 % 2 ^ 64) (digit_value c)

unfoldable pub initial : Stack → Scanner
initial stack = record {
  state = parse_begin;
  region_begin = 0;
  region_end = 0;
  bucket = stack.contents 0;
  position = 0;
  links = 1;
  maps = [];
}

module _ (stack : Stack) where
  -- The bucket is full at `BucketEntries * 2`: link a new one.
  unfoldable pub grow : Scanner → Outcome Scanner
  unfolding store_word
  grow s =
      if s.position == bucket_entries * 2
      then store_word s.bucket (bucket_entries * 2 + 1) (stack.address s.links) >>= (λ _.
        ok (record s { bucket = stack.contents s.links; position = 0; links = s.links + 1 }))
      else ok s

  -- `PtrSize[Position++] = MapBegin; PtrSize[Position++] = MapSize; PtrSize[Position] = 0`
  unfoldable pub record_region : Scanner → ℕ → ℕ → Outcome Scanner
  unfolding grow store_word
  record_region s start size = do
    t ← grow s
    b ← store_word t.bucket t.position start
    b' ← store_word b (t.position + 1) size
    b'' ← store_word b' (t.position + 2) 0
    ok (record t { bucket = b''; position = t.position + 2 })

  -- `if (MapEnd > MapBegin)`: one mapping, and its record.
  unfoldable pub reserve : Scanner → ℕ → ℕ → Outcome Scanner
  reserve s map_begin map_end =
      if ltb map_begin map_end
      then record_region
          (record s {
            maps = s.maps ++ record { start = map_begin; size = map_end - map_begin } ∷ [];
          })
          map_begin (map_end - map_begin)
      else ok s

  module _ (begin end : ℕ) where
    -- `if (State == ParseBegin)`
    unfoldable pub step_begin : Scanner → ℕ → Outcome Scanner
    step_begin s c =
        if c == b'-'
        then reserve s (max s.region_end begin) (min s.region_begin end)
          >>= (λ t. ok (record t { region_begin = 0; region_end = 0; state = parse_end }))
        else ok (record s { region_begin = push_digit s.region_begin c })

    -- The body of the loop after the buffer is filled, on one byte.
    unfoldable pub step : ScanState → Scanner → ℕ → Outcome Scanner
    unfolding step_begin
    step scan_end s c = ok (if c == b'\n' then record s { state = parse_begin } else s)
    step parse_begin s c = step_begin s c
    step parse_end s c = ok (
        if c == b' '
        then record s { state = scan_end }
        else record s { region_end = push_digit s.region_end c })

    -- The bytes of one filled buffer, until `Remaining` is 0.
    unfoldable pub run_buffer : Scanner → Bytes → Outcome Scanner
    run_buffer s [] = ok s
    run_buffer s (c ∷ cs) = step s.state s c >>= (λ t. run_buffer t cs)

    -- `Remaining == 0` after a read: the end of the file. In another state than ParseBegin the
    -- code goes on to `*Cursor++`, with nothing read.
    unfoldable pub finish : ScanState → Scanner → Outcome Scanner
    finish parse_begin s = reserve s (max s.region_end begin) end
    finish _ s = fault unread_buffer

    -- The outer loop: one read fills the buffer, `errno == EAGAIN` repeats it, and no bytes are
    -- the end of the file. Any other error leaves `Remaining` at -1.
    unfoldable pub drive : Scanner → List Read → Outcome Scanner
    drive s [] = finish s.state s
    drive s (again ∷ reads) = drive s reads
    drive s (failed ∷ reads) = fault unread_buffer
    drive s (chunk [] ∷ reads) = finish s.state s
    drive s (chunk (c ∷ cs) ∷ reads) = run_buffer s (c ∷ cs) >>= (λ t. drive t reads)

    unfoldable pub steal_memory_region : List Read → Outcome Scanner
    unfolding drive initial
    steal_memory_region reads = drive (initial stack) reads

  -- `steal`
  unfoldable pub steal : List Read → Outcome Scanner
  unfolding steal_memory_region
  steal reads = steal_memory_region (2 ^ 16) (2 ^ 47 - 4 * 1024) reads
