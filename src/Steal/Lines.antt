-- ===== src/Steal/Lines.antt =====
-- The lines of /proc/self/maps, as `StealMemoryRegion` of address-space-stealing/alloc.cpp
-- reads them: two hexadecimal numbers, and a rest that is skipped.
use fex_assorted_tests_bins.Prelude.{
  ℕ, ◌+◌, ◌*◌, ◌%◌, ◌^◌, ◌<◌, min, max, List, [], ◌∷◌, ◌++◌, map, ◌≡◌, ◌≢◌, refl, sym, ◌∙◌, ap,
  fun_ext, arith, ltb, if◌then◌else◌, All,
}
use fex_assorted_tests_bins.Prelude.Bits.{bit_or_nibble}
use fex_assorted_tests_bins.Steal.Errors.{Outcome, ok, ◌>>=◌, bind_assoc}
use fex_assorted_tests_bins.Steal.Chunks.{run_buffer-append}
use fex_assorted_tests_bins.Steal.{
  Bytes, Stack, parse_begin, parse_end, scan_end, Scanner, digit_value, push_digit, reserve, step,
  run_buffer,
}

-- A line of the file: the digits of its two addresses, and what follows the second space.
pub record Line : Type 0 where
  pub begin_digits : List ℕ
  pub end_digits : List ℕ
  pub rest : Bytes

pub record IsLine (l : Line) : Type 0 where
  pub begin_hex : All (λ d. d < 16) l.begin_digits
  pub end_hex : All (λ d. d < 16) l.end_digits
  pub one_line : All (λ c. c ≢ b'\n') l.rest

-- `%x`
abbrev pub hex : ℕ → ℕ
hex d = if ltb d 10 then d + b'0' else d + 87

abbrev pub line_bytes : Line → Bytes
line_bytes l =
    map hex l.begin_digits ++ (b'-' ∷ (map hex l.end_digits ++ (b' ' ∷ (l.rest ++ (b'\n' ∷ [])))))

abbrev pub text : List Line → Bytes
text [] = []
text (l ∷ ls) = line_bytes l ++ text ls

-- The number that the digits write, in 64 bits.
abbrev pub value_from : ℕ → List ℕ → ℕ
value_from acc [] = acc
value_from acc (d ∷ ds) = value_from ((acc * 16 + d) % 2 ^ 64) ds

abbrev pub low : Line → ℕ
low l = value_from 0 l.begin_digits

abbrev pub high : Line → ℕ
high l = value_from 0 l.end_digits

digit_value-hex : (d : ℕ) → d < 16 → digit_value (hex d) ≡ d
unfolding digit_value
digit_value-hex d h = ground arith

pub push_digit-hex : (r d : ℕ) → d < 16 → push_digit r (hex d) ≡ (r * 16 + d) % 2 ^ 64
unfolding push_digit
push_digit-hex r d h =
    let e : r * 2 ^ 4 % 2 ^ 64 ≡ r % 2 ^ 60 * 16 = omega arith in
    rw (digit_value-hex d h, e) (omega (arith, bit_or_nibble (r % 2 ^ 60) d h))

module _ (stack : Stack) (begin end : ℕ) where
  -- What one line does: the gap in front of it, then its end becomes `RegionEnd`.
  unfoldable pub visit : Scanner → ℕ → ℕ → Outcome Scanner
  visit s lo hi =
      reserve stack (record s { region_begin = lo }) (max s.region_end begin) (min lo end)
      >>= (λ t. ok (record t { region_begin = 0; region_end = hi; state = parse_begin }))

  unfoldable pub visit_all : Scanner → List Line → Outcome Scanner
  visit_all s [] = ok s
  visit_all s (l ∷ ls) = visit s (low l) (high l) >>= (λ t. visit_all t ls)

  step_begin_digit :
      (s : Scanner) (d : ℕ)
      → s.state ≡ parse_begin
      → d < 16
      → step stack begin end s.state s (hex d)
        ≡ ok (record s { region_begin = (s.region_begin * 16 + d) % 2 ^ 64 })
  unfolding step
  step_begin_digit s d e h = ground (arith, push_digit-hex s.region_begin d h)

  run_begin :
      (ds : List ℕ) (cs : Bytes) (s : Scanner)
      → s.state ≡ parse_begin
      → All (λ d. d < 16) ds
      → run_buffer stack begin end s (map hex ds ++ cs)
        ≡ run_buffer stack begin end (record s { region_begin = value_from s.region_begin ds }) cs
  unfolding run_buffer
  run_begin [] cs s e h = refl
  run_begin (d ∷ ds) cs s e h =
      rw (step_begin_digit s d e h.0)
        (run_begin ds cs (record s { region_begin = (s.region_begin * 16 + d) % 2 ^ 64 }) e h.1)

  step_end_digit :
      (s : Scanner) (d : ℕ)
      → s.state ≡ parse_end
      → d < 16
      → step stack begin end s.state s (hex d)
        ≡ ok (record s { region_end = (s.region_end * 16 + d) % 2 ^ 64 })
  unfolding step
  step_end_digit s d e h = ground (arith, push_digit-hex s.region_end d h)

  run_end :
      (ds : List ℕ) (cs : Bytes) (s : Scanner)
      → s.state ≡ parse_end
      → All (λ d. d < 16) ds
      → run_buffer stack begin end s (map hex ds ++ cs)
        ≡ run_buffer stack begin end (record s { region_end = value_from s.region_end ds }) cs
  unfolding run_buffer
  run_end [] cs s e h = refl
  run_end (d ∷ ds) cs s e h =
      rw (step_end_digit s d e h.0)
        (run_end ds cs (record s { region_end = (s.region_end * 16 + d) % 2 ^ 64 }) e h.1)

  run_rest :
      (cs : Bytes) (s : Scanner)
      → s.state ≡ scan_end
      → All (λ c. c ≢ b'\n') cs
      → run_buffer stack begin end s (cs ++ (b'\n' ∷ [])) ≡ ok (record s { state = parse_begin })
  unfolding run_buffer step
  run_rest [] s e h = ground arith
  run_rest (c ∷ cs) s e h = ground (arith, run_rest cs s e h.1)

  -- From the '-' on, whatever the gap in front of the line came to.
  run_tail :
      (l : Line) (t : Scanner)
      → IsLine l
      → run_buffer stack begin end
          (record t { region_begin = 0; region_end = 0; state = parse_end })
          (map hex l.end_digits ++ (b' ' ∷ (l.rest ++ (b'\n' ∷ []))))
        ≡ ok (record t { region_begin = 0; region_end = high l; state = parse_begin })
  unfolding run_buffer step
  run_tail l t h =
      run_end l.end_digits _ (record t { region_begin = 0; region_end = 0; state = parse_end }) refl
        h.end_hex
      ∙ run_rest l.rest (record t { region_begin = 0; region_end = high l; state = scan_end }) refl
          h.one_line

  -- From the '-' on.
  run_dash :
      (l : Line) (t : Scanner)
      → t.state ≡ parse_begin
      → IsLine l
      → run_buffer stack begin end t
          (b'-' ∷ (map hex l.end_digits ++ (b' ' ∷ (l.rest ++ (b'\n' ∷ [])))))
        ≡ (reserve stack t (max t.region_end begin) (min t.region_begin end)
            >>= (λ u. ok (record u { region_begin = 0; region_end = high l; state = parse_begin })))
  unfolding run_buffer step
  run_dash l t e h =
      ap (λ st. step stack begin end st t b'-' >>= (λ u. run_buffer stack begin end u after)) e
      ∙ bind_assoc (reserve stack t (max t.region_end begin) (min t.region_begin end)) _ _
      ∙ ap (λ k. reserve stack t (max t.region_end begin) (min t.region_begin end) >>= k)
          (fun_ext (λ u. run_tail l u h))
    where
      after : Bytes
      after = map hex l.end_digits ++ (b' ' ∷ (l.rest ++ (b'\n' ∷ [])))

  pub run_line :
      (l : Line) (s : Scanner)
      → s.state ≡ parse_begin
      → s.region_begin ≡ 0
      → IsLine l
      → run_buffer stack begin end s (line_bytes l) ≡ visit s (low l) (high l)
  unfolding visit
  run_line l s e z h =
      run_begin l.begin_digits _ s e h.begin_hex
      ∙ run_dash l (record s { region_begin = value_from s.region_begin l.begin_digits }) e h
      ∙ ap (λ r. visit s (value_from r l.begin_digits) (high l)) z

  -- What a line leaves behind is the start of the next one.
  visit_next :
      (ls : List Line) (s : Scanner) (lo hi : ℕ)
      → ((t : Scanner)
          → t.state ≡ parse_begin
          → t.region_begin ≡ 0
          → run_buffer stack begin end t (text ls) ≡ visit_all t ls)
      → (visit s lo hi >>= (λ t. run_buffer stack begin end t (text ls)))
        ≡ (visit s lo hi >>= (λ t. visit_all t ls))
  unfolding visit
  visit_next ls s lo hi next =
      bind_assoc m _ _
      ∙ ap (λ k. m >>= k) (fun_ext (λ u. next _ refl refl))
      ∙ sym (bind_assoc m _ _)
    where
      m : Outcome Scanner
      m = reserve stack (record s { region_begin = lo }) (max s.region_end begin) (min lo end)

  -- The scan of a whole file is a visit of each of its lines.
  pub run_text :
      (ls : List Line) (s : Scanner)
      → s.state ≡ parse_begin
      → s.region_begin ≡ 0
      → All IsLine ls
      → run_buffer stack begin end s (text ls) ≡ visit_all s ls
  unfolding visit_all
  run_text [] s e z h = unfold run_buffer in refl
  run_text (l ∷ ls) s e z h =
      run_buffer-append stack begin end (line_bytes l) (text ls) s
      ∙ ap (λ m. m >>= (λ t. run_buffer stack begin end t (text ls))) (run_line l s e z h.0)
      ∙ visit_next ls s (low l) (high l) (λ t e' z'. run_text ls t e' z' h.1)
