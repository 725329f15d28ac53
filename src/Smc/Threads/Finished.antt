-- ===== src/Smc/Threads/Finished.antt =====
-- Schedules of the threads of src/smc-mt.cpp: in whatever order they get their turns, each does what it does
-- by itself.
use fex_assorted_tests_bins.Prelude.{
  ℕ, ◌+◌, ◌-◌, ◌<◌, ◌≡◌, ◌≢◌, inl, inr, refl, sym, ◌∙◌, ap, subst, some, List, [], ◌∷◌, ◌++◌, ◌==◌,
  ==_iff, Bool-cases, append-nil, length, All, arith, if◌then◌else◌,
}
use fex_assorted_tests_bins.Smc.Machine.{Machine, update, IsCoherent}
use fex_assorted_tests_bins.Smc.Threads.{
  Op, put, run_code, protect_page, Thread, exec, System, turn, system_turn, system_run,
}
use fex_assorted_tests_bins.Smc.Threads.Solo.{Solo, output, solo, solo_run, AllOk}
use fex_assorted_tests_bins.Smc.Threads.Refinement.{
  Refines, AreApart, after_own, after_other, exec_lem,
}

solo-values : (o : Op) (st : Solo) → (solo o st).values ≡ st.values ++ output o st
solo-values (put i v) st = sym (append-nil st.values)
solo-values run_code st = refl
solo-values (protect_page prot) st = sym (append-nil st.values)

-- How often a thread gets a turn.
abbrev pub turns_of : ℕ → List ℕ → ℕ
turns_of j [] = 0
turns_of j (i ∷ js) = (if i == j then 1 else 0) + turns_of j js

-- The pages of the threads below `n`, by their addresses and by their bytes.
unfoldable pub AreDistinct : ℕ → (ℕ → ℕ) → (ℕ → ℕ) → Type 0
AreDistinct n a p = (i j : ℕ) → i < n → j < n → i ≢ j → AreApart (a i) (a j) × AreApart (p i) (p j)

module _ (m : Machine) (law : IsCoherent m) (n : ℕ) (a p : ℕ → ℕ) (final : ℕ → List ℕ) where
  open m use {State, view}

  -- Thread `j` stands where it stands by itself, and by itself will end with `final j`.
  pub record IsOn (s : State) (th : Thread) (j : ℕ) : Type 0 where
    pub st : Solo
    pub page : th.code ≡ a j
    pub refines : Refines (view s) (a j) (p j) st
    pub values : th.values ≡ st.values
    pub ok : AllOk th.rest st
    pub goal : (solo_run th.rest st).values ≡ final j

  turn_lem :
      (apart : AreDistinct n a p) (j : ℕ) (th : Thread) (os : List Op) (s : State)
      → j < n
      → th.rest ≡ os
      → IsOn s th j
      → (th' : Thread) × (t : State) × (turn m th os s ≡ some (th', t))
        × IsOn t th' j
        × ((i : ℕ) (th'' : Thread) → i < n → i ≢ j → IsOn s th'' i → IsOn t th'' i)
        × (length th'.rest ≡ length os - 1)
  unfolding turn AreDistinct
  turn_lem apart j th [] s low e h = (th, s, refl, h, λ i th'' low' d h'. h', ap length e)
  turn_lem apart j th (o ∷ os) s low e h =
      let ok : AllOk (o ∷ os) h.st = subst (λ r. AllOk r h.st) e h.ok in
      let (t, run, seen) = exec_lem m law o (a j) (p j) h.st s h.refines ok.0 in
      let run' : exec m th.code o s ≡ some (output o h.st, t) =
        subst (λ x. exec m x o s ≡ some (output o h.st, t)) (sym h.page) run in
      (
        record th { rest = os; values = th.values ++ output o h.st },
        t,
        rw (run', turn) refl,
        record {
          st = solo o h.st;
          page = h.page;
          refines =
              subst (λ v. Refines v (a j) (p j) (solo o h.st)) (sym seen)
                (after_own o (view s) (a j) (p j) h.st h.refines);
          values = ap (λ vs. vs ++ output o h.st) h.values ∙ sym (solo-values o h.st);
          ok = ok.1;
          goal = subst (λ r. (solo_run r h.st).values ≡ final j) e h.goal;
        },
        λ i th'' low' d h'.
            let (da, dp) = apart j i low low' (λ x. d (sym x)) in
            record {
              st = h'.st;
              page = h'.page;
              refines =
                  subst (λ v. Refines v (a i) (p i) h'.st) (sym seen)
                    (after_other o (view s) (a j) (p j) (a i) (p i) h.st h'.st da dp ok.0
                      h'.refines);
              values = h'.values;
              ok = h'.ok;
              goal = h'.goal;
            },
        omega arith,
      )

  -- All threads below `n`.
  abbrev pub AreOn : System m → Type 0
  AreOn c = (j : ℕ) → j < n → IsOn c.state (c.threads j) j

  system_turn_lem :
      (apart : AreDistinct n a p) (j : ℕ) (c : System m)
      → j < n
      → AreOn c
      → (d : System m) × (system_turn m j c ≡ some d)
        × AreOn d
        × ((i : ℕ)
            → i < n
            → length (d.threads i).rest ≡ length (c.threads i).rest - (if j == i then 1 else 0))
  unfolding system_turn
  system_turn_lem apart j c low h =
      let (th, t, e, own, others, len) =
        turn_lem apart j (c.threads j) (c.threads j).rest c.state low refl (h j low) in
      (
        record { threads = update c.threads j th; state = t },
        rw (e, system_turn) refl,
        λ i low'. elim (Bool-cases (j == i)) [
          | inl same ↦ rw same (subst (λ x. IsOn t th x) ((==_iff j i).0 same) own)
          | inr other ↦
              let d : i ≢ j = ground arith in rw other (others i (c.threads i) low' d (h i low'))
        ],
        λ i low'. elim (Bool-cases (j == i)) [
          | inl same ↦ rw same (
              subst (λ x. length th.rest ≡ length (c.threads x).rest - 1) ((==_iff j i).0 same) len)
          | inr other ↦ rw other (omega arith)
        ],
      )

  -- On a coherent machine, threads of src/smc-mt.cpp on pages of their own, each of which stands
  -- where it stands when it runs alone on an abstract page, still do so behind any list of turns,
  -- no store, call or mprotect of them ends the program, and each turn of a thread takes one
  -- operation off what it has to do.
  pub system_run-AreOn :
      (js : List ℕ) (c : System m)
      → AreDistinct n a p
      → All (λ j. j < n) js
      → AreOn c
      → (d : System m) × (system_run m js c ≡ some d)
        × AreOn d
        × ((i : ℕ) → i < n → length (d.threads i).rest ≡ length (c.threads i).rest - turns_of i js)
  unfolding system_run
  system_run-AreOn [] c apart low h = (c, refl, h, λ i low'. omega arith)
  system_run-AreOn (j ∷ js) c apart low h =
      let (d, e, h', len) = system_turn_lem apart j c low.0 h in
      let (f, e', h'', len') = system_run-AreOn js d apart low.1 h' in
      (f, rw (e, system_run) e', h'', λ i low'. omega (arith, len i low', len' i low'))
