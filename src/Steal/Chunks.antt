-- ===== src/Steal/Chunks.antt =====
-- How `StealMemoryRegion` of address-space-stealing/alloc.cpp depends on the way in which the
-- kernel cuts the maps file into reads.
use fex_assorted_tests_bins.Prelude.{ℕ, List, [], ◌∷◌, ◌++◌, ◌≡◌, refl, sym, ◌∙◌, ap, fun_ext}
use fex_assorted_tests_bins.Steal.Errors.{◌>>=◌, bind_assoc}
use fex_assorted_tests_bins.Steal.{
  Bytes, Stack, Read, chunk, again, failed, Scanner, step, run_buffer, finish, drive,
}

abbrev pub bytes_of : List Read → Bytes
bytes_of [] = []
bytes_of (chunk bs ∷ reads) = bs ++ bytes_of reads
bytes_of (again ∷ reads) = bytes_of reads
bytes_of (failed ∷ reads) = []

-- Each read brings bytes or is to be repeated; the list ends where the file ends.
abbrev pub IsHealthy : List Read → Type 0
IsHealthy [] = Unit
IsHealthy (chunk [] ∷ reads) = ⊥
IsHealthy (chunk (_ ∷ _) ∷ reads) = IsHealthy reads
IsHealthy (again ∷ reads) = IsHealthy reads
IsHealthy (failed ∷ reads) = ⊥

module _ (stack : Stack) (begin end : ℕ) where
  pub run_buffer-append :
      (xs ys : Bytes) (s : Scanner)
      → run_buffer stack begin end s (xs ++ ys)
        ≡ (run_buffer stack begin end s xs >>= (λ t. run_buffer stack begin end t ys))
  unfolding run_buffer
  run_buffer-append [] ys s = refl
  run_buffer-append (x ∷ xs) ys s =
      ap (λ k. step stack begin end s.state s x >>= k) (fun_ext (run_buffer-append xs ys))
      ∙ sym (bind_assoc (step stack begin end s.state s x) _ _)

  -- Where the reads are healthy, how they cut the file into buffers does not matter: the function
  -- does what it does on all the bytes at once, and then at the end of the file.
  pub drive_chunks :
      (reads : List Read) (s : Scanner)
      → IsHealthy reads
      → drive stack begin end s reads ≡ (
          run_buffer stack begin end s (bytes_of reads) >>= (λ t. finish stack begin end t.state t))
  unfolding drive run_buffer
  drive_chunks [] s h = refl
  drive_chunks (again ∷ reads) s h = drive_chunks reads s h
  drive_chunks (failed ∷ reads) s h = absurd h
  drive_chunks (chunk [] ∷ reads) s h = absurd h
  drive_chunks (chunk (c ∷ cs) ∷ reads) s h =
      ap (λ k. run_buffer stack begin end s (c ∷ cs) >>= k) (fun_ext (λ t. drive_chunks reads t h))
      ∙ sym (bind_assoc (run_buffer stack begin end s (c ∷ cs)) _ _)
      ∙ ap (λ r. r >>= (λ t. finish stack begin end t.state t))
          (sym (run_buffer-append (c ∷ cs) (bytes_of reads) s))
