-- ===== src/Tests/Threads.antt =====
-- The threads of src/smc-mt.cpp on the machine of Tests.Machine, which take turns one after the other.
use fex_assorted_tests_bins.Prelude.{
  length, ◌-◌, ℕ, zero, suc, ◌+◌, ◌*◌, ◌<◌, ◌≤◌, ◌≡◌, ◌≢◌, inl, inr, refl, some, List, [], ◌∷◌,
  ◌++◌, All, ◌==◌, Bool-cases, arith,
}
use fex_assorted_tests_bins.Smc.Threads.{System, created, mt_main, system_run}
use fex_assorted_tests_bins.Smc.Threads.Solo.{repeated}
use fex_assorted_tests_bins.Smc.Threads.Refinement.{AreApart}
use fex_assorted_tests_bins.Smc.Threads.Finished.{turns_of, AreDistinct, AreOn, system_run-AreOn}
use fex_assorted_tests_bins.Smc.Threads.Joined.{IsFresh, HasPassed, created-AreOn, mt_main_joins}
use fex_assorted_tests_bins.Tests.Machine.{flat, flat-IsCoherent}
use fex_assorted_tests_bins.Tests.Smc.{plain}

abbrev page : ℕ → ℕ
page j = 4096 + j * 4096

page_apart : (i j : ℕ) → ◌≢◌ {A = ℕ} i j → AreApart (page i) (page j)
page_apart i j h = ground arith

page-AreDistinct : AreDistinct 100 page page
unfolding AreDistinct
page-AreDistinct i j l l' d = (page_apart i j d, page_apart i j d)

page-IsFresh : IsFresh flat page page plain
page-IsFresh = record {
  aligned = λ j l. omega arith;
  window = λ j l i h. refl;
  rights = λ j l i h. (refl, refl);
}

-- One turn for each of the threads below `n`, `k` times over.
abbrev sweep : ℕ → List ℕ
sweep zero = []
sweep (suc n) = n ∷ sweep n

unfoldable sweeps : ℕ → List ℕ
sweeps zero = []
sweeps (suc k) = sweep 100 ++ sweeps k

turns_of-append : (j : ℕ) (xs ys : List ℕ) → turns_of j (xs ++ ys) ≡ turns_of j xs + turns_of j ys
turns_of-append j [] ys = omega arith
turns_of-append j (x ∷ xs) ys = omega (arith, turns_of-append j xs ys)

turns_of-sweep : (j n : ℕ) → j < n → 1 ≤ turns_of j (sweep n)
turns_of-sweep j zero h = absurd (omega arith)
turns_of-sweep j (suc n) h = elim (Bool-cases (n == j)) [
  | inl same ↦ rw same (omega arith)
  | inr other ↦
      let d : ◌≢◌ {A = ℕ} n j = ground arith in
      rw other (omega (arith, turns_of-sweep j n (omega arith)))
]

turns_of-sweeps : (j k : ℕ) → j < 100 → k ≤ turns_of j (sweeps k)
unfolding sweeps
turns_of-sweeps j zero h = omega arith
turns_of-sweeps j (suc k) h =
    omega (
      arith,
      turns_of-append j (sweep 100) (sweeps k),
      turns_of-sweep j 100 h,
      turns_of-sweeps j k h,
    )

All-append :
    (xs ys : List ℕ) → All (λ j. j < 100) xs → All (λ j. j < 100) ys → All (λ j. j < 100) (xs ++ ys)
All-append [] ys h h' = h'
All-append (x ∷ xs) ys h h' = (h.0, All-append xs ys h.1 h')

All-sweep : (n : ℕ) → n ≤ 100 → All (λ j. j < 100) (sweep n)
All-sweep zero h = tt
All-sweep (suc n) h = (omega arith, All-sweep n (omega arith))

All-sweeps : (k : ℕ) → All (λ j. j < 100) (sweeps k)
unfolding sweeps
All-sweeps zero = tt
All-sweeps (suc k) = All-append (sweep 100) (sweeps k) (All-sweep 100 (omega arith)) (All-sweeps k)

mt_main_joins_example :
    (c : System flat) × (mt_main flat page (sweeps 1700) plain ≡ some (some 0, c))
    × ((j : ℕ) → j < 100 → HasPassed (c.threads j))
mt_main_joins_example =
    mt_main_joins flat flat-IsCoherent page page (sweeps 1700) plain page-AreDistinct page-IsFresh
      (All-sweeps 1700) (λ j l. turns_of-sweeps j 1700 l)

system_run-AreOn_example :
    (d : System flat) × (system_run flat (2 ∷ 0 ∷ 2 ∷ []) (created flat page plain) ≡ some d)
    × AreOn flat flat-IsCoherent 100 page page (λ j. repeated 100) d
    × ((i : ℕ)
        → i < 100
        → length (d.threads i).rest
          ≡ length ((created flat page plain).threads i).rest - turns_of i (2 ∷ 0 ∷ 2 ∷ []))
system_run-AreOn_example =
    system_run-AreOn flat flat-IsCoherent 100 page page (λ j. repeated 100) (2 ∷ 0 ∷ 2 ∷ [])
      (created flat page plain) page-AreDistinct (omega arith, (omega arith, (omega arith, tt)))
      (created-AreOn flat flat-IsCoherent page page plain page-IsFresh)
