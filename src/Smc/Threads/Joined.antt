-- ===== src/Smc/Threads/Joined.antt =====
-- `main` of src/smc-mt.cpp: what its 100 threads have returned when it has joined them.
use fex_assorted_tests_bins.Prelude.{
  ℕ, zero, suc, ◌+◌, ◌*◌, ◌<◌, ◌≤◌, ◌≡◌, refl, ◌∙◌, subst, true, some, List, [], ◌∷◌, length,
  length-append, All, arith,
}
use fex_assorted_tests_bins.Smc.Machine.{IsAligned, Machine, IsWindow, IsCoherent}
use fex_assorted_tests_bins.Smc.Mapper.{HasRights}
use fex_assorted_tests_bins.Smc.Stub.{read_write_exec, expected}
use fex_assorted_tests_bins.Smc.Threads.{
  Thread, System, rounds, round_ops, thread_ops, lines, is_done, all_joined, created, mt_main,
}
use fex_assorted_tests_bins.Smc.Report.{
  all_pass, report_four, report_four_iff, length-report_four, append-all_pass,
}
use fex_assorted_tests_bins.Smc.Threads.Solo.{Solo, solo_run, repeated, rounds-AllOk, rounds-values}
use fex_assorted_tests_bins.Smc.Threads.Finished.{turns_of, AreDistinct, AreOn, system_run-AreOn}

length-rounds : (k : ℕ) → length (rounds k) ≡ k * 17
unfolding rounds
length-rounds zero = refl
length-rounds (suc k) = omega (arith, length-append round_ops (rounds k), length-rounds k)

length-thread_ops : length thread_ops ≡ 1700
unfolding thread_ops
length-thread_ops = length-rounds 100

none_left : {A : Type 0} (xs : List A) → length xs ≡ 0 → xs ≡ []
none_left [] h = refl
none_left (x ∷ xs) h = absurd (omega arith)

done_lem : (th : Thread) → th.rest ≡ [] → is_done th ≡ true
done_lem th h = rw h refl

lines-all_pass : (k : ℕ) → all_pass (lines (repeated k)) ≡ true
unfolding lines
lines-all_pass zero = refl
lines-all_pass (suc k) =
    append-all_pass (report_four "Exec" expected) (lines (repeated k))
      ((report_four_iff "Exec" expected).1 refl) (lines-all_pass k)

length-lines : (k : ℕ) → length (lines (repeated k)) ≡ k * 4
unfolding lines
length-lines zero = refl
length-lines (suc k) = omega (
  arith,
  length-append (report_four "Exec" expected) (lines (repeated k)),
  length-report_four "Exec" expected,
  length-lines k,
)

-- All the lines of a thread say that the test passes.
pub record HasPassed (th : Thread) : Type 0 where
  pub all : all_pass (lines th.values) ≡ true
  pub count : length (lines th.values) ≡ 400

repeated-HasPassed : (th : Thread) → th.values ≡ repeated 100 → HasPassed th
repeated-HasPassed th e = record {
  all = rw e (lines-all_pass 100);
  count = rw e (length-lines 100);
}

module _ (m : Machine) where
  open m use {State, view}

  all_joined_lem :
      (n : ℕ) (c : System m) → ((j : ℕ) → j < n → (c.threads j).rest ≡ []) → all_joined m n c ≡ true
  unfolding all_joined
  all_joined_lem zero c h = refl
  all_joined_lem (suc n) c h =
      let one = done_lem (c.threads n) (h n (omega arith)) in
      let rest = all_joined_lem n c (λ j low. h j (omega arith)) in rw (one, rest) refl

  -- The pages that mmap gave the threads: what they show, and their rights.
  pub record IsFresh (code p : ℕ → ℕ) (s : State) : Type 0 where
    pub aligned : (j : ℕ) → j < 100 → IsAligned (code j)
    pub window : (j : ℕ) → j < 100 → IsWindow (view s) (code j) (p j) 4096
    pub rights : (j : ℕ) → j < 100 → HasRights (view s) (code j) 4096 read_write_exec

  module _ (law : IsCoherent m) where
    pub created-AreOn :
        (code p : ℕ → ℕ) (s : State)
        → IsFresh code p s
        → AreOn m law 100 code p (λ j. repeated 100) (created m code s)
    unfolding thread_ops
    created-AreOn code p s h j low =
        let st : Solo = record {
          bytes = λ i. (view s).byte (p j + i);
          prot = read_write_exec;
          values = [];
        } in
        record {
          st = st;
          page = refl;
          refines = record {
            aligned = h.aligned j low;
            window = h.window j low;
            bytes = λ i low'. refl;
            writes = λ i low'. (h.rights j low i low').0;
            runs = λ i low'. (h.rights j low i low').1;
          };
          values = refl;
          ok = rounds-AllOk 100 st refl;
          goal = rounds-values 100 st refl;
        }

    -- On a coherent machine, where the 100 threads of src/smc-mt.cpp get pages of their own that
    -- may be written and run, and every thread gets 1700 turns or more, in whatever order they
    -- come, main joins them all and returns 0, and each thread has printed 400 lines that all say
    -- PASS.
    pub mt_main_joins :
        (code p : ℕ → ℕ) (turns : List ℕ) (s : State)
        → AreDistinct 100 code p
        → IsFresh code p s
        → All (λ j. j < 100) turns
        → ((j : ℕ) → j < 100 → 1700 ≤ turns_of j turns)
        → (c : System m) × (mt_main m code turns s ≡ some (some 0, c))
          × ((j : ℕ) → j < 100 → HasPassed (c.threads j))
    unfolding mt_main
    mt_main_joins code p turns s apart fresh low enough =
        let (c, e, on, len) =
          system_run-AreOn m law 100 code p (λ j. repeated 100) turns (created m code s) apart low
            (created-AreOn code p s fresh) in
        let finished : (j : ℕ) → j < 100 → (c.threads j).rest ≡ [] =
          λ j low'. none_left _ (omega (arith, len j low', enough j low', length-thread_ops)) in
        let joined = all_joined_lem 100 c finished in
        (
          c,
          rw (e, mt_main) (rw joined refl),
          λ j low'.
              let h = on j low' in
              repeated-HasPassed (c.threads j) (
                h.values
                ∙ subst (λ r. (solo_run r h.st).values ≡ repeated 100) (finished j low') h.goal),
        )
