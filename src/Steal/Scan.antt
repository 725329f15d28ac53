-- ===== src/Steal/Scan.antt =====
-- What is recorded of the regions along a scan of address-space-stealing/alloc.cpp.
use fex_assorted_tests_bins.Prelude.{
  ℕ, ◌+◌, ◌-◌, ◌≤◌, ◌<◌, min, max, List, [], ◌∷◌, ◌++◌, map, ◌≡◌, inl, inr, refl, sym, ◌∙◌, ap,
  subst, arith, ltb, length, Bool-cases, length-append, append-nil, append_assoc,
}
use fex_assorted_tests_bins.Steal.Errors.{Outcome, ok, fault, out_of_bounds, ◌>>=◌, bind_assoc}
use fex_assorted_tests_bins.Steal.Lines.{Line, low, high, visit, visit_all}
use fex_assorted_tests_bins.Steal.Gaps.{Region, gap, gaps}
use fex_assorted_tests_bins.Steal.Bucket.{
  entries, length-entries, entries-append, IsFilled, record_region_room, record_region_full,
}
use fex_assorted_tests_bins.Steal.{
  Stack, Mapping, parse_begin, Scanner, record_region, reserve, finish,
}

abbrev pub regions : List Line → List Region
regions = map (λ l. record { lo = low l; hi = high l })

-- The mappings that one bucket can describe with its final 0.
abbrev pub max_regions : ℕ
max_regions = 16

-- A scan that has reserved `ms`: all of them are recorded, or the bucket has overflowed.
pub data Holds (first : List ℕ) (Q : Scanner → Type 0) (o : Outcome Scanner) (ms : List Mapping)
    : Type 0 where
  stored :
      (t : Scanner) (rest : List ℕ)
      → o ≡ ok t
      → Q t
      → t.maps ≡ ms
      → IsFilled first t rest
      → length ms ≤ max_regions
      → Holds first Q o ms
  overflow : o ≡ fault out_of_bounds → max_regions < length ms → Holds first Q o ms

Holds-transport :
    {first : List ℕ} {Q : Scanner → Type 0} {o o' : Outcome Scanner} {ms ms' : List Mapping}
    → o ≡ o'
    → ms ≡ ms'
    → Holds first Q o ms
    → Holds first Q o' ms'
Holds-transport {first} {Q} {o' = o'} {ms = ms} p q h =
    subst (λ l. Holds first Q o' l) q (subst (λ r. Holds first Q r ms) p h)

abbrev pub Any : Scanner → Type 0
Any s = Unit

abbrev pub AtLine : ℕ → Scanner → Type 0
AtLine hi s = (s.state ≡ parse_begin) × (s.region_begin ≡ 0) × (s.region_end ≡ hi)

at_line :
    {first : List ℕ} (o : Outcome Scanner) (ms : List Mapping) (hi : ℕ)
    → Holds first Any o ms
    → Holds first
        (AtLine hi)
        (o >>= (λ t. ok (record t { region_begin = 0; region_end = hi; state = parse_begin })))
        ms
at_line o ms hi (stored t rest e q m f k) =
    stored (record t { region_begin = 0; region_end = hi; state = parse_begin }) rest (rw e)
      (refl, refl, refl) m
      (record {
        words = f.words;
        at_end = f.at_end;
        sized = f.sized;
        ended = f.ended;
        untouched = f.untouched;
      })
      k
at_line o ms hi (overflow e k) = overflow (rw e) k

bind_ok : {A : Type 0} (m : Outcome A) → (m >>= ok) ≡ m
bind_ok (ok a) = refl
bind_ok (fault e) = refl

module _ (stack : Stack) where
  record_region-Holds :
      (s : Scanner) (rest : List ℕ) (a n : ℕ)
      → IsFilled (stack.contents 0) s rest
      → Holds
          (stack.contents 0)
          Any
          (record_region stack
            (record s { maps = s.maps ++ record { start = a; size = n } ∷ [] })
            a
            n)
          (s.maps ++ record { start = a; size = n } ∷ [])
  record_region-Holds s [] a n f = absurd (omega (arith, f.sized))
  record_region-Holds s (x ∷ []) a n f =
      overflow
        (record_region_full stack
          (record s { maps = s.maps ++ record { start = a; size = n } ∷ [] }) (entries s.maps) x a n
          f.words (omega (arith, length-entries s.maps)) (omega arith))
        (omega (arith, length-append s.maps (record { start = a; size = n } ∷ [])))
  record_region-Holds s (x ∷ y ∷ []) a n f = absurd (omega arith)
  record_region-Holds s (x ∷ y ∷ z ∷ r) a n f =
      stored
        (record s {
          maps = s.maps ++ record { start = a; size = n } ∷ [];
          bucket = entries s.maps ++ (a ∷ n ∷ 0 ∷ r);
          position = s.position + 2;
        })
        (0 ∷ r)
        (record_region_room stack
          (record s { maps = s.maps ++ record { start = a; size = n } ∷ [] }) (entries s.maps) r x y
          z a n f.words (omega (arith, length-entries s.maps)) (omega arith))
        tt refl
        (record {
          words =
              sym (append_assoc (entries s.maps) (a ∷ n ∷ []) (0 ∷ r))
              ∙ ap (λ l. l ++ (0 ∷ r))
                  (sym (entries-append s.maps (record { start = a; size = n } ∷ [])));
          at_end = omega (arith, length-append s.maps (record { start = a; size = n } ∷ []));
          sized = omega (arith, length-append s.maps (record { start = a; size = n } ∷ []));
          ended = λ _. refl;
          untouched = λ z.
              absurd (omega (arith, z, length-append s.maps (record { start = a; size = n } ∷ [])));
        })
        (omega (arith, length-append s.maps (record { start = a; size = n } ∷ [])))

  reserve-Holds :
      (s : Scanner) (rest : List ℕ) (a b : ℕ)
      → IsFilled (stack.contents 0) s rest
      → length s.maps ≤ max_regions
      → Holds (stack.contents 0) Any (reserve stack s a b) (s.maps ++ gap a b)
  unfolding reserve
  reserve-Holds s rest a b f k = elim (Bool-cases (ltb a b)) [
    | inl some_gap ↦ rw some_gap (record_region-Holds s rest a (b - a) f)
    | inr no_gap ↦ rw no_gap (stored s rest refl tt (sym (append-nil s.maps)) f (rw append-nil k))
  ]

  module _ (begin end : ℕ) where
    visit-Holds :
        (o : Outcome Scanner) (ms : List Mapping) (prev lo hi : ℕ)
        → Holds (stack.contents 0) (AtLine prev) o ms
        → Holds
            (stack.contents 0)
            (AtLine hi)
            (o >>= (λ t. visit stack begin end t lo hi))
            (ms ++ gap (max prev begin) (min lo end))
    unfolding visit
    visit-Holds o ms prev lo hi (stored t rest e q m f k) = rw e (
        subst (λ l. Holds (stack.contents 0) (AtLine hi) (visit stack begin end t lo hi) l) same
          (at_line _ _ hi (
            reserve-Holds (record t { region_begin = lo }) rest (max t.region_end begin)
              (min lo end)
              (record {
                words = f.words;
                at_end = f.at_end;
                sized = f.sized;
                ended = f.ended;
                untouched = f.untouched;
              })
              (rw m k))))
      where
        same :
            t.maps ++ gap (max t.region_end begin) (min lo end)
            ≡ ms ++ gap (max prev begin) (min lo end)
        same =
            ap (λ l. l ++ gap (max t.region_end begin) (min lo end)) m
            ∙ ap (λ p. ms ++ gap (max p begin) (min lo end)) q.2
    visit-Holds o ms prev lo hi (overflow e k) =
        overflow (rw e) (omega (arith, length-append ms (gap (max prev begin) (min lo end))))

    -- The gap behind the last region, where the file ends.
    finish-Holds :
        (o : Outcome Scanner) (ms : List Mapping) (prev : ℕ)
        → Holds (stack.contents 0) (AtLine prev) o ms
        → Holds
            (stack.contents 0)
            Any
            (o >>= (λ t. finish stack begin end t.state t))
            (ms ++ gap (max prev begin) end)
    unfolding finish
    finish-Holds o ms prev (stored t rest e q m f k) = rw e (
        subst
          (λ st.
            Holds (stack.contents 0) Any (finish stack begin end st t)
              (ms ++ gap (max prev begin) end))
          (sym q.0)
          (subst
            (λ l. Holds (stack.contents 0) Any (reserve stack t (max t.region_end begin) end) l)
            same (reserve-Holds t rest (max t.region_end begin) end f (rw m k))))
      where
        same : t.maps ++ gap (max t.region_end begin) end ≡ ms ++ gap (max prev begin) end
        same =
            ap (λ l. l ++ gap (max t.region_end begin) end) m
            ∙ ap (λ p. ms ++ gap (max p begin) end) q.2
    finish-Holds o ms prev (overflow e k) =
        overflow (rw e) (omega (arith, length-append ms (gap (max prev begin) end)))

    pub run-Holds :
        (ls : List Line) (o : Outcome Scanner) (ms : List Mapping) (prev : ℕ)
        → Holds (stack.contents 0) (AtLine prev) o ms
        → Holds
            (stack.contents 0)
            Any
            (o
              >>= (λ s. visit_all stack begin end s ls)
              >>= (λ t. finish stack begin end t.state t))
            (ms ++ gaps begin end prev (regions ls))
    unfolding visit_all gaps
    run-Holds [] o ms prev h =
        Holds-transport (ap (λ m. m >>= (λ t. finish stack begin end t.state t)) (sym (bind_ok o)))
          refl (finish-Holds o ms prev h)
    run-Holds (l ∷ ls) o ms prev h =
        Holds-transport
          (ap (λ m. m >>= (λ t. finish stack begin end t.state t))
            (bind_assoc o (λ t. visit stack begin end t (low l) (high l))
              (λ s. visit_all stack begin end s ls)))
          (append_assoc ms (gap (max prev begin) (min (low l) end))
            (gaps begin end (high l) (regions ls)))
          (run-Holds ls (o >>= (λ t. visit stack begin end t (low l) (high l)))
            (ms ++ gap (max prev begin) (min (low l) end)) (high l)
            (visit-Holds o ms prev (low l) (high l) h))
