-- ===== src/Steal/Correct.antt =====
-- `StealMemoryRegion` of address-space-stealing/alloc.cpp against its specification.
use fex_assorted_tests_bins.Prelude.{
  ℕ, ◌≤◌, ◌<◌, max, not, ◌&&◌, List, [], ◌≡◌, refl, sym, ◌∙◌, ap, subst, arith, ltb, leb, length,
  All,
}
use fex_assorted_tests_bins.Steal.Errors.{ok, fault, out_of_bounds, ◌>>=◌}
use fex_assorted_tests_bins.Steal.Chunks.{bytes_of, IsHealthy, drive_chunks}
use fex_assorted_tests_bins.Steal.Lines.{Line, IsLine, text, visit_all, run_text}
use fex_assorted_tests_bins.Steal.Gaps.{gaps, covers, mapped, IsSorted, covers-gaps}
use fex_assorted_tests_bins.Steal.Bucket.{IsFilled}
use fex_assorted_tests_bins.Steal.{
  bucket_words, Stack, Read, Scanner, initial, run_buffer, finish, drive, steal_memory_region,
}
use fex_assorted_tests_bins.Steal.Scan.{
  regions, max_regions, Holds, stored, overflow, Any, AtLine, run-Holds,
}

module _ (stack : Stack) (begin end : ℕ) where
  -- The premises on the file and on the stack that the results below share.
  pub record IsRun (ls : List Line) (reads : List Read) : Type 0 where
    pub sized : length (stack.contents 0) ≡ bucket_words
    pub healthy : IsHealthy reads
    pub same_bytes : bytes_of reads ≡ text ls
    pub lines : All IsLine ls

  steal-Holds :
      (ls : List Line) (reads : List Read)
      → IsRun ls reads
      → Holds
          (stack.contents 0)
          Any
          (steal_memory_region stack begin end reads)
          (gaps begin end 0 (regions ls))
  unfolding steal_memory_region
  steal-Holds ls reads h =
      subst (λ o. Holds (stack.contents 0) Any o (gaps begin end 0 (regions ls))) (sym whole)
        (run-Holds stack begin end ls (ok (initial stack)) [] 0 start)
    where
      start : Holds (stack.contents 0) (AtLine 0) (ok (initial stack)) []
      start =
          stored (initial stack) (stack.contents 0) refl (refl, refl, refl) refl
            (record {
              words = refl;
              at_end = refl;
              sized = omega (arith, h.sized);
              ended = λ z. absurd (omega arith);
              untouched = λ z. refl;
            })
            (omega arith)

      whole : drive stack begin end (initial stack) reads ≡ (
          visit_all stack begin end (initial stack) ls >>= (λ t. finish stack begin end t.state t))
      whole =
          drive_chunks stack begin end reads (initial stack) h.healthy
          ∙ ap (λ o. o >>= (λ t. finish stack begin end t.state t))
              (ap (run_buffer stack begin end (initial stack)) h.same_bytes
                ∙ run_text stack begin end ls (initial stack) refl refl h.lines)

  -- Where the reads are healthy and give the text of well-formed lines, the bucket has its 33
  -- words, and there are at most 16 gaps between the regions in the range, StealMemoryRegion
  -- returns: its calls of mmap are exactly those gaps, in order, and the bucket lists them, ended
  -- by 0, where there is one, and is as it was allocated, without a 0 written, where there is none.
  pub steal_reserves :
      (ls : List Line) (reads : List Read)
      → IsRun ls reads
      → length (gaps begin end 0 (regions ls)) ≤ max_regions
      → (t : Scanner) × (rest : List ℕ) × (steal_memory_region stack begin end reads ≡ ok t)
        × (t.maps ≡ gaps begin end 0 (regions ls))
        × IsFilled (stack.contents 0) t rest
  steal_reserves ls reads h few = from (steal-Holds ls reads h)
    where
      from :
          Holds
            (stack.contents 0)
            Any
            (steal_memory_region stack begin end reads)
            (gaps begin end 0 (regions ls))
          → (t : Scanner) × (rest : List ℕ) × (steal_memory_region stack begin end reads ≡ ok t)
            × (t.maps ≡ gaps begin end 0 (regions ls))
            × IsFilled (stack.contents 0) t rest
      from (stored t rest e q m f k) = (t, rest, e, m, f)
      from (overflow e k) = absurd (omega arith)

  -- Where the reads are healthy and give the text of well-formed lines, the bucket has its 33
  -- words, and there are more than 16 gaps between the regions in the range, StealMemoryRegion
  -- writes outside of its bucket.
  pub steal_overflows :
      (ls : List Line) (reads : List Read)
      → IsRun ls reads
      → max_regions < length (gaps begin end 0 (regions ls))
      → steal_memory_region stack begin end reads ≡ fault out_of_bounds
  steal_overflows ls reads h many = from (steal-Holds ls reads h)
    where
      from :
          Holds
            (stack.contents 0)
            Any
            (steal_memory_region stack begin end reads)
            (gaps begin end 0 (regions ls))
          → steal_memory_region stack begin end reads ≡ fault out_of_bounds
      from (stored t rest e q m f k) = absurd (omega arith)
      from (overflow e k) = e

  -- Where the reads are healthy and give the text of well-formed lines in the kernel's order, the
  -- bucket has its 33 words, and StealMemoryRegion returns, an address is reserved exactly if it
  -- lies in the range and in none of the regions of the file.
  pub steal_covers :
      (ls : List Line) (reads : List Read) (t : Scanner) (x : ℕ)
      → IsRun ls reads
      → IsSorted 0 (regions ls)
      → steal_memory_region stack begin end reads ≡ ok t
      → covers t.maps x ≡ ((leb begin x && ltb x end) && not (mapped (regions ls) x))
  steal_covers ls reads t x h s e = from (steal-Holds ls reads h)
    where
      from :
          Holds
            (stack.contents 0)
            Any
            (steal_memory_region stack begin end reads)
            (gaps begin end 0 (regions ls))
          → covers t.maps x ≡ ((leb begin x && ltb x end) && not (mapped (regions ls) x))
      from (stored u rest e' q m f k) =
          let same : u ≡ t = cc in
          let zero_max : max 0 begin ≡ begin = omega arith in
          ap (λ v. covers v.maps x) (sym same)
          ∙ ap (λ ms. covers ms x) m
          ∙ covers-gaps (regions ls) begin end 0 x s
          ∙ ap (λ b. (leb b x && ltb x end) && not (mapped (regions ls) x)) zero_max
      from (overflow e' k) = cc
