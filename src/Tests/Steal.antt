-- ===== src/Tests/Steal.antt =====
-- Runs of address-space-stealing/alloc.cpp.
use fex_assorted_tests_bins.Prelude.{
  ℕ, zero, suc, ◌≤◌, not, ◌&&◌, List, [], ◌∷◌, ◌≡◌, refl, arith, replicate, leb, ltb, All, ◌+◌,
}
use fex_assorted_tests_bins.Steal.Errors.{ok, fault, out_of_bounds}
use fex_assorted_tests_bins.Steal.Lines.{Line, IsLine, text}
use fex_assorted_tests_bins.Steal.Gaps.{gaps, covers, mapped}
use fex_assorted_tests_bins.Steal.Bucket.{IsFilled}
use fex_assorted_tests_bins.Steal.Scan.{regions}
use fex_assorted_tests_bins.Steal.Correct.{IsRun, steal_reserves, steal_overflows, steal_covers}
use fex_assorted_tests_bins.Steal.{
  Stack, Mapping, Read, chunk, again, parse_begin, Scanner, run_buffer, finish, step, push_digit,
  digit_value, reserve, record_region, steal_memory_region,
}

abbrev stack : Stack
stack = record { address = λ n. n; contents = λ n. replicate 33 7 }

-- "10-20 rw\n" and "30-38 x\n"
abbrev two_lines : List Line
two_lines =
    record { begin_digits = 1 ∷ 0 ∷ []; end_digits = 2 ∷ 0 ∷ []; rest = b'r' ∷ b'w' ∷ [] }
    ∷ record { begin_digits = 3 ∷ 0 ∷ []; end_digits = 3 ∷ 8 ∷ []; rest = b'x' ∷ [] }
    ∷ []

-- The file comes in two reads, with one EAGAIN between them.
abbrev two_reads : List Read
two_reads =
    chunk (b'1' ∷ b'0' ∷ b'-' ∷ b'2' ∷ [])
    ∷ again
    ∷ chunk (
        b'0' ∷ b' ' ∷ b'r' ∷ b'w' ∷ b'\n' ∷ b'3' ∷ b'0' ∷ b'-' ∷ b'3' ∷ b'8' ∷ b' ' ∷ b'x' ∷ b'\n'
        ∷ [])
    ∷ []

two_IsRun : IsRun stack 0 64 two_lines two_reads
two_IsRun = record {
  sized = refl;
  healthy = tt;
  same_bytes = refl;
  lines = (
    record { begin_hex = omega arith; end_hex = omega arith; one_line = omega arith },
    (record { begin_hex = omega arith; end_hex = omega arith; one_line = omega arith }, tt),
  );
}

steal_reserves_example :
    (t : Scanner) × (rest : List ℕ) × (steal_memory_region stack 0 64 two_reads ≡ ok t)
    × (t.maps ≡ gaps 0 64 0 (regions two_lines))
    × IsFilled (stack.contents 0) t rest
unfolding gaps
steal_reserves_example = steal_reserves stack 0 64 two_lines two_reads two_IsRun (omega arith)

abbrev two_gaps : List Mapping
two_gaps =
    record { start = 0; size = 16 }
    ∷ record { start = 32; size = 16 }
    ∷ record { start = 56; size = 8 }
    ∷ []

gaps_run : gaps 0 64 0 (regions two_lines) ≡ two_gaps
unfolding gaps
gaps_run = refl

abbrev two_result : Scanner
two_result = record {
  state = parse_begin;
  region_begin = 0;
  region_end = 56;
  bucket = 0 ∷ 16 ∷ 32 ∷ 16 ∷ 56 ∷ 8 ∷ 0 ∷ replicate 26 7;
  position = 6;
  links = 1;
  maps = two_gaps;
}

steal_run : steal_memory_region stack 0 64 two_reads ≡ ok two_result
unfolding steal_memory_region run_buffer step push_digit digit_value finish reserve record_region
steal_run = refl

steal_covers_example :
    covers two_result.maps 20 ≡ ((leb 0 20 && ltb 20 64) && not (mapped (regions two_lines) 20))
steal_covers_example =
    steal_covers stack 0 64 two_lines two_reads two_result 20 two_IsRun (omega arith) steal_run

-- A region of one byte at 0x1k0 for each k below n, the lowest first.
abbrev many_from : ℕ → ℕ → List Line
many_from k zero = []
many_from k (suc n) =
    record { begin_digits = 1 ∷ k ∷ 0 ∷ []; end_digits = 1 ∷ k ∷ 1 ∷ []; rest = [] }
    ∷ many_from (suc k) n

abbrev many_lines : List Line
many_lines = many_from 0 16

many_from-IsLine : (k n : ℕ) → k + n ≤ 16 → All IsLine (many_from k n)
many_from-IsLine k zero h = tt
many_from-IsLine k (suc n) h = (
  record { begin_hex = omega arith; end_hex = omega arith; one_line = tt },
  many_from-IsLine (suc k) n (omega arith),
)

many_IsRun : IsRun stack 0 1000 many_lines (chunk (text many_lines) ∷ [])
many_IsRun = record {
  sized = refl;
  healthy = tt;
  same_bytes = refl;
  lines = many_from-IsLine 0 16 (omega arith);
}

steal_overflows_example :
    steal_memory_region stack 0 1000 (chunk (text many_lines) ∷ []) ≡ fault out_of_bounds
unfolding gaps
steal_overflows_example =
    steal_overflows stack 0 1000 many_lines (chunk (text many_lines) ∷ []) many_IsRun (omega arith)
