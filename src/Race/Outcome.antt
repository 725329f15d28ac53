-- ===== src/Race/Outcome.antt =====
-- Whether the thread of src/smc-mt-2.cpp ends: it does if its store of the byte that `main` changes
-- comes before that of `main`, and never does otherwise.
use fex_assorted_tests_bins.Prelude.{
  ℕ, zero, suc, ◌+◌, ◌-◌, ◌≤◌, true, false, List, [], ◌∷◌, ◌++◌, ◌≡◌, ◌≢◌, refl, sym, subst, ◌∙◌,
  arith, if◌then◌else◌, ◌==◌, Bool-cases, inl, inr, replicate, lt-cases,
}
use fex_assorted_tests_bins.Smc.Machine.{update}
use fex_assorted_tests_bins.Race.{
  generating, waiting, exited, Turn, of_thread, of_main, stub_byte, run,
}
use fex_assorted_tests_bins.Race.Turns.{
  IsFresh, thread_turns, Generated, store-Generated, other_byte, at, start, after, ended,
  turn_stored, turn_written, turn_exited, turn_patched, turn_patches, turn_waits, turn_leaves,
}

module _ (call : (ℕ → ℕ) → ℕ) (law : IsFresh call) where
  exited_stays : (ts : List Turn) (f : ℕ → ℕ) → (run call ts (at f exited true)).point ≡ exited
  unfolding run
  exited_stays [] f = refl
  exited_stays (t ∷ ts) f =
      after call _ t ts (λ s. s.point ≡ exited) (turn_exited call t f) (exited_stays ts f)

  waiting_exits :
      (ts : List Turn) (f : ℕ → ℕ)
      → Generated 0xFE 6 f
      → 1 ≤ thread_turns ts
      → (run call ts (at f waiting true)).point ≡ exited
  waiting_exits [] f h n = absurd (omega arith)
  waiting_exits (of_main ∷ ts) f h n =
      after call _ of_main ts (λ s. s.point ≡ exited) (turn_patched call f waiting)
        (waiting_exits ts f h n)
  waiting_exits (of_thread ∷ ts) f h n =
      after call _ of_thread ts (λ s. s.point ≡ exited) (turn_leaves call law f true h)
        (exited_stays ts f)

  written_exits :
      (ts : List Turn) (f : ℕ → ℕ)
      → Generated 0xFE 6 f
      → 2 ≤ thread_turns ts
      → (run call ts (at f (generating 6) true)).point ≡ exited
  written_exits [] f h n = absurd (omega arith)
  written_exits (of_main ∷ ts) f h n =
      after call _ of_main ts (λ s. s.point ≡ exited) (turn_patched call f (generating 6))
        (written_exits ts f h n)
  written_exits (of_thread ∷ ts) f h n =
      after call _ of_thread ts (λ s. s.point ≡ exited) (turn_written call f true)
        (waiting_exits ts f h (omega arith))

  -- Behind its fourth store the thread needs eight turns in all.
  generating_exits :
      (j k : ℕ) (ts : List Turn) (f : ℕ → ℕ)
      → k + j ≡ 6
      → Generated 0xFE k f
      → 4 ≤ k
      → 8 ≤ k + thread_turns ts
      → (run call ts (at f (generating k) true)).point ≡ exited
  generating_exits zero k ts f e h lo n =
      let six : 6 ≡ k = omega arith in
      subst (λ i. (run call ts (at f (generating i) true)).point ≡ exited) six
        (written_exits ts f (subst (λ i. Generated 0xFE i f) (sym six) h) (omega arith))
  generating_exits (suc j) k [] f e h lo n = absurd (omega arith)
  generating_exits (suc j) k (of_main ∷ ts) f e h lo n =
      after call _ of_main ts (λ s. s.point ≡ exited) (turn_patched call f (generating k))
        (generating_exits (suc j) k ts f e h lo n)
  generating_exits (suc j) k (of_thread ∷ ts) f e h lo n =
      after call _ of_thread ts (λ s. s.point ≡ exited) (turn_stored call f k true (omega arith))
        (generating_exits j (k + 1) ts (update f k (stub_byte k)) (omega arith)
          (store-Generated 0xFE k f (λ e. absurd (omega arith)) h) (omega arith) (omega arith))

  waiting_spins :
      (ts : List Turn) (f : ℕ → ℕ)
      → Generated 0xCC 6 f
      → (run call ts (at f waiting true)).point ≢ exited
  waiting_spins [] f h = ended call (at f waiting true) (λ s. s.point ≢ exited) (λ e. ground arith)
  waiting_spins (of_main ∷ ts) f h =
      after call _ of_main ts (λ s. s.point ≢ exited) (turn_patched call f waiting)
        (waiting_spins ts f h)
  waiting_spins (of_thread ∷ ts) f h =
      after call _ of_thread ts (λ s. s.point ≢ exited) (turn_waits call law f true h)
        (waiting_spins ts f h)

  written_spins :
      (ts : List Turn) (f : ℕ → ℕ)
      → Generated 0xCC 6 f
      → (run call ts (at f (generating 6) true)).point ≢ exited
  written_spins [] f h =
      ended call (at f (generating 6) true) (λ s. s.point ≢ exited) (λ e. ground arith)
  written_spins (of_main ∷ ts) f h =
      after call _ of_main ts (λ s. s.point ≢ exited) (turn_patched call f (generating 6))
        (written_spins ts f h)
  written_spins (of_thread ∷ ts) f h =
      after call _ of_thread ts (λ s. s.point ≢ exited) (turn_written call f true)
        (waiting_spins ts f h)

  generating_spins :
      (j k : ℕ) (ts : List Turn) (f : ℕ → ℕ)
      → k + j ≡ 6
      → Generated 0xCC k f
      → (run call ts (at f (generating k) true)).point ≢ exited
  generating_spins zero k ts f e h =
      let six : 6 ≡ k = omega arith in
      subst (λ i. (run call ts (at f (generating i) true)).point ≢ exited) six
        (written_spins ts f (subst (λ i. Generated 0xCC i f) (sym six) h))
  generating_spins (suc j) k [] f e h =
      ended call (at f (generating k) true) (λ s. s.point ≢ exited) (λ e'. ground arith)
  generating_spins (suc j) k (of_main ∷ ts) f e h =
      after call _ of_main ts (λ s. s.point ≢ exited) (turn_patched call f (generating k))
        (generating_spins (suc j) k ts f e h)
  generating_spins (suc j) k (of_thread ∷ ts) f e h =
      after call _ of_thread ts (λ s. s.point ≢ exited) (turn_stored call f k true (omega arith))
        (generating_spins j (k + 1) ts (update f k (stub_byte k)) (omega arith)
          (store-Generated 0xCC k f (λ _. refl) h))

  patched_late : (k : ℕ) (f : ℕ → ℕ) → Generated 0xCC k f → Generated 0xFE k (update f 3 0xFE)
  patched_late k f h i lt = elim (Bool-cases (i == 3)) [
    | inl fourth ↦
        let e : i ≡ 3 = ground arith in
        subst (λ j. update f 3 0xFE j ≡ (if j == 3 then 0xFE else stub_byte j)) (sym e) refl
    | inr other ↦
        let apart : (3 == i) ≡ false = ground arith in
        rw apart (h i lt ∙ other_byte (i == 3) (stub_byte i) other)
  ]

  patched_early :
      (k : ℕ) (f : ℕ → ℕ) → k ≤ 3 → Generated 0xCC k f → Generated 0xCC k (update f 3 0xFE)
  patched_early k f le h i lt = let apart : (3 == i) ≡ false = ground arith in rw apart (h i lt)

  waiting_patched :
      (n : ℕ) (ts : List Turn) (f : ℕ → ℕ)
      → Generated 0xCC 6 f
      → 1 ≤ thread_turns ts
      → (run call (replicate n of_thread ++ (of_main ∷ ts)) (at f waiting false)).point ≡ exited
  waiting_patched zero ts f h m =
      after call _ of_main ts (λ s. s.point ≡ exited) (turn_patches call f waiting)
        (waiting_exits ts (update f 3 0xFE) (patched_late 6 f h) m)
  waiting_patched (suc n) ts f h m =
      after call _ of_thread (replicate n of_thread ++ (of_main ∷ ts)) (λ s. s.point ≡ exited)
        (turn_waits call law f false h) (waiting_patched n ts f h m)

  late_exits :
      (n k : ℕ) (ts : List Turn) (f : ℕ → ℕ)
      → k ≤ 6
      → Generated 0xCC k f
      → 4 ≤ k + n
      → 8 ≤ k + n + thread_turns ts
      → 1 ≤ thread_turns ts
      → (run call (replicate n of_thread ++ (of_main ∷ ts)) (at f (generating k) false)).point
        ≡ exited
  late_exits zero k ts f hi h lo all some_turn =
      after call _ of_main ts (λ s. s.point ≡ exited) (turn_patches call f (generating k))
        (generating_exits (6 - k) k ts (update f 3 0xFE) (omega arith) (patched_late k f h)
          (omega arith) (omega arith))
  late_exits (suc n) k ts f hi h lo all some_turn = elim (lt-cases k 6) [
    | inl more ↦
        after call _ of_thread (replicate n of_thread ++ (of_main ∷ ts)) (λ s. s.point ≡ exited)
          (turn_stored call f k false more)
          (late_exits n (k + 1) ts (update f k (stub_byte k)) (omega arith)
            (store-Generated 0xCC k f (λ _. refl) h) (omega arith) (omega arith) some_turn)
    | inr all_stored ↦
        let six : 6 ≡ k = omega arith in
        subst
          (λ i.
            (run call (of_thread ∷ (replicate n of_thread ++ (of_main ∷ ts)))
              (at f (generating i) false)).point
            ≡ exited)
          six
          (after call _ of_thread (replicate n of_thread ++ (of_main ∷ ts)) (λ s. s.point ≡ exited)
            (turn_written call f false)
            (waiting_patched n ts f (subst (λ i. Generated 0xCC i f) (sym six) h) some_turn))
  ]

  early_spins :
      (n k : ℕ) (ts : List Turn) (f : ℕ → ℕ)
      → Generated 0xCC k f
      → k + n ≤ 3
      → (run call (replicate n of_thread ++ (of_main ∷ ts)) (at f (generating k) false)).point
        ≢ exited
  early_spins zero k ts f h lo =
      after call _ of_main ts (λ s. s.point ≢ exited) (turn_patches call f (generating k))
        (generating_spins (6 - k) k ts (update f 3 0xFE) (omega arith)
          (patched_early k f (omega arith) h))
  early_spins (suc n) k ts f h lo =
      after call _ of_thread (replicate n of_thread ++ (of_main ∷ ts)) (λ s. s.point ≢ exited)
        (turn_stored call f k false (omega arith))
        (early_spins n (k + 1) ts (update f k (stub_byte k))
          (store-Generated 0xCC k f (λ _. refl) h) (omega arith))

  -- On a processor that runs what the bytes say, where the thread of src/smc-mt-2.cpp has had four
  -- turns or more when main changes the byte, and gets one more turn and eight in all, in whatever
  -- order they come, it ends.
  pub thread_exits :
      (n : ℕ) (ts : List Turn) (f : ℕ → ℕ)
      → 4 ≤ n
      → 8 ≤ n + thread_turns ts
      → 1 ≤ thread_turns ts
      → (run call (replicate n of_thread ++ (of_main ∷ ts)) (start f)).point ≡ exited
  thread_exits n ts f lo all some_turn =
      late_exits n 0 ts f (omega arith) (λ i lt. absurd (omega arith)) (omega arith) (omega arith)
        some_turn

  -- On a processor that runs what the bytes say, where main changes the byte before the fourth turn
  -- of the thread of src/smc-mt-2.cpp, the thread never ends, whatever turns come after.
  pub thread_spins :
      (n : ℕ) (ts : List Turn) (f : ℕ → ℕ)
      → n ≤ 3
      → (run call (replicate n of_thread ++ (of_main ∷ ts)) (start f)).point ≢ exited
  thread_spins n ts f lo = early_spins n 0 ts f (λ i lt. absurd (omega arith)) (omega arith)
