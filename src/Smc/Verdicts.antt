-- ===== src/Smc/Verdicts.antt =====
-- What the tests of src/smc*.cpp report on a machine whose instruction fetch sees every store.
use Prim.Native.String.{String}
use fex_assorted_tests_bins.Prelude.{
  ℕ, zero, suc, ◌+◌, ◌*◌, ◌%◌, ◌^◌, true, false, none, some, List, [], ◌++◌, ◌≡◌, ◌≢◌, ◌↔◌, subst,
  refl, sym, arith, ◌==◌, length, length-append,
}
use fex_assorted_tests_bins.Smc.Machine.{
  IsAligned, Machine, View, IsWindow, MayWrite, MayRun, IsCoherent,
}
use fex_assorted_tests_bins.Smc.Action.{◌>>=◌, pure, assert, bind-eq-some, Runs, Runs-bind}
use fex_assorted_tests_bins.Smc.Stub.{
  read_write_exec, Values, expected, second_view, third_view, four_view, four_calls, Runs-two_calls,
  Runs-four_calls, protected-MayWrite, protected-MayRun,
}
use fex_assorted_tests_bins.Smc.Report.{
  append-all_pass, Verdict, all_pass, report_two, report_four, failure_set, failure_set_of_expected,
  failure_set-ne-zero, length-report_four, report_four_iff,
}
use fex_assorted_tests_bins.Smc.Programs.{
  Globals, test_set, test_remapped, test_detached, thread_rounds, thread, note_values, smc_rounds,
  smc_test, test_alias, test_moved, test_mirror,
}

-- One page that may be written and run.
pub record IsCodePage (v : View) (code p : ℕ) : Type 0 where
  pub aligned : IsAligned code
  pub page : IsWindow v code p 4096
  pub writes : MayWrite v code 6
  pub runs : MayRun v code 6

-- Two addresses of the same six bytes: one may be written, the other run.
pub record IsMirror (v : View) (code codeexec p : ℕ) : Type 0 where
  pub window : IsWindow v code p 6
  pub writes : MayWrite v code 6
  pub run_window : IsWindow v codeexec p 6
  pub runs : MayRun v codeexec 6

pub four_view-IsCodePage :
    {v : View} {code p : ℕ} → IsCodePage v code p → IsCodePage (four_view v code p) code p
four_view-IsCodePage {v} {code} {p} h = record {
  aligned = h.aligned;
  page = h.page;
  writes = protected-MayWrite (third_view v code p) code read_write_exec refl;
  runs = protected-MayRun (third_view v code p) code read_write_exec refl;
}

module _ (m : Machine) where
  open m use {State, view}

  -- On any machine, a call of test of src/smc.cpp that returns never returns the empty set of
  -- failures, and prints only PASS exactly if the four calls returned what was written.
  pub test_set_always_fails :
      (code : ℕ) (name : String) (s t : State) (r : ℕ × List Verdict)
      → test_set m code name s ≡ some (r, t)
      → (v : Values) × (four_calls m code s ≡ some (v, t))
        × (r.0 ≢ 0)
        × ((all_pass r.1 ≡ true) ↔ (v ≡ expected))
  unfolding test_set
  test_set_always_fails code name s t r h =
      let (v, u, e, e') =
        bind-eq-some (four_calls m code s) (λ v. pure (failure_set v, report_four name v)) h in
      let same : (failure_set v, report_four name v) ≡ r = ground arith in
      let end : u ≡ t = ground arith in
      (
        v,
        subst (λ w. four_calls m code s ≡ some (v, w)) end e,
        subst (λ x. x.0 ≢ 0) same (failure_set-ne-zero v),
        subst (λ x. (all_pass x.1 ≡ true) ↔ (v ≡ expected)) same (report_four_iff name v),
      )

  module _ (law : IsCoherent m) where
    -- On a coherent machine, on a page that may be written and run, test of src/smc.cpp prints PASS
    -- for all four calls, and returns the failure set 14.
    pub Runs-test_set :
        (code p : ℕ) (name : String) {s : State} {v : View}
        → view s ≡ v
        → IsCodePage v code p
        → Runs m (test_set m code name s) (14, report_four name expected) (four_view v code p)
    unfolding test_set
    Runs-test_set code p name h c =
        Runs-bind m _ _ (Runs-four_calls m law code p h c.aligned c.page c.writes c.runs)
          λ t h. (t, rw (failure_set_of_expected expected refl), h)

    -- On a coherent machine, on a page that may be written and run, test of src/smc-2.cpp prints
    -- PASS for all four calls.
    pub Runs-test_remapped :
        (code p : ℕ) (name : String) {s : State} {v : View}
        → view s ≡ v
        → IsCodePage v code p
        → Runs m (test_remapped m code name s) (report_four name expected) (four_view v code p)
    unfolding test_remapped
    Runs-test_remapped code p name h c =
        Runs-bind m _ _ (Runs-four_calls m law code p h c.aligned c.page c.writes c.runs)
          λ t h. (t, refl, h)

    -- On a coherent machine, on a page that may be written and run, test of src/smc-shmatdt.cpp
    -- prints PASS for all four calls.
    pub Runs-test_detached :
        (code p : ℕ) (name : String) {s : State} {v : View}
        → view s ≡ v
        → IsCodePage v code p
        → Runs m (test_detached m code name s) (report_four name expected) (four_view v code p)
    unfolding test_detached
    Runs-test_detached code p name h c =
        Runs-bind m _ _ (Runs-four_calls m law code p h c.aligned c.page c.writes c.runs)
          λ t h. (t, refl, h)

    -- Each round of a thread of src/smc-mt.cpp leaves the page ready for the next.
    thread_rounds-all_pass :
        (k code p : ℕ) (s : State)
        → IsCodePage (view s) code p
        → (vs : List Verdict) × (t : State) × (thread_rounds m k code s ≡ some (vs, t))
          × (all_pass vs ≡ true)
          × (length vs ≡ k * 4)
          × IsCodePage (view t) code p
    unfolding thread_rounds
    thread_rounds-all_pass zero code p s c = ([], s, refl, refl, omega arith, c)
    thread_rounds-all_pass (suc k) code p s c =
        let (t, e, h) = Runs-four_calls m law code p refl c.aligned c.page c.writes c.runs in
        let c' : IsCodePage (view t) code p =
          subst (λ w. IsCodePage w code p) (sym h) (four_view-IsCodePage c) in
        let (vs, u, e', ok, len, last) = thread_rounds-all_pass k code p t c' in
        (
          report_four "Exec" expected ++ vs,
          u,
          rw (e, ◌>>=◌) (rw (e', ◌>>=◌)),
          append-all_pass (report_four "Exec" expected) vs
              ((report_four_iff "Exec" expected).1 refl) ok,
          omega (
            arith,
            length-append (report_four "Exec" expected) vs,
            length-report_four "Exec" expected,
          ),
          last,
        )

    -- On a coherent machine, on a page that may be written and run, thread of src/smc-mt.cpp ends
    -- with 400 lines printed that all say PASS, and leaves such a page.
    pub thread-all_pass :
        (code p : ℕ) (s : State)
        → IsCodePage (view s) code p
        → (vs : List Verdict) × (t : State) × (thread m code s ≡ some (vs, t))
          × (all_pass vs ≡ true)
          × (length vs ≡ 400)
          × IsCodePage (view t) code p
    unfolding thread
    thread-all_pass code p s c = thread_rounds-all_pass 100 code p s c

    note_values-expected :
        (g : Globals)
        → note_values m expected g ≡ record { failed = g.failed; count = (g.count + 1) % 2 ^ 64 }
    unfolding note_values
    note_values-expected g = ground arith

    smc_rounds-count :
        (k code p : ℕ) (g : Globals) (s : State)
        → IsCodePage (view s) code p
        → (g' : Globals) × (t : State) × (smc_rounds m k code g s ≡ some (g', t))
          × (g'.failed ≡ g.failed)
          × (g'.count % 2 ^ 64 ≡ (g.count + k) % 2 ^ 64)
    unfolding smc_rounds
    smc_rounds-count zero code p g s c = (g, s, refl, refl, omega arith)
    smc_rounds-count (suc k) code p g s c =
        let (t, e, h) = Runs-four_calls m law code p refl c.aligned c.page c.writes c.runs in
        let c' : IsCodePage (view t) code p =
          subst (λ w. IsCodePage w code p) (sym h) (four_view-IsCodePage c) in
        let g' : Globals = record { failed = g.failed; count = (g.count + 1) % 2 ^ 64 } in
        let (g'', u, e', same, count) = smc_rounds-count k code p g' t c' in
        (g'', u, rw (e, ◌>>=◌) (rw (note_values-expected g) e'), same, omega arith)

    -- On a coherent machine, on a page that may be written and run, smc_test of src/smc-signals.cpp
    -- ends, leaves failed as it was, and adds its ten rounds to count modulo 2^64.
    pub smc_test-count :
        (code p : ℕ) (g : Globals) (s : State)
        → IsCodePage (view s) code p
        → (g' : Globals) × (t : State) × (smc_test m code g s ≡ some (g', t))
          × (g'.failed ≡ g.failed)
          × (g'.count % 2 ^ 64 ≡ (g.count + 10) % 2 ^ 64)
    unfolding smc_test
    smc_test-count code p g s c =
        let (g', t, e, same, count) = smc_rounds-count 10 code p g s c in
        (g', m.munmap code 4096 t, rw (e, ◌>>=◌), same, count)

    -- On a coherent machine, where two different addresses show the same six bytes, one to be
    -- written and one to be run, test of src/smc-shared.cpp passes its assert and prints PASS
    -- twice.
    pub Runs-test_alias :
        (code codeexec p : ℕ) (name : String) {s : State} {v : View}
        → view s ≡ v
        → code ≢ codeexec
        → IsMirror v code codeexec p
        → Runs m
            (test_alias m code codeexec name s)
            (report_two name (expected.e1, expected.e2))
            (second_view v p)
    unfolding test_alias
    Runs-test_alias code codeexec p name h ne c =
        let differ : (code == codeexec) ≡ false = ground arith in
        rw (differ, assert)
          (Runs-bind m _ _
            (Runs-two_calls m law code codeexec p h c.window c.writes c.run_window c.runs)
            λ t h. (t, refl, h))

    -- On a coherent machine, where the two addresses show the same six bytes, one to be written and
    -- one to be run, test of src/smc-shared-2.cpp prints PASS twice.
    pub Runs-test_mirror :
        (code codeexec p : ℕ) (name : String) {s : State} {v : View}
        → view s ≡ v
        → IsMirror v code codeexec p
        → Runs m
            (test_mirror m code codeexec name s)
            (report_two name (expected.e1, expected.e2))
            (second_view v p)
    unfolding test_mirror
    Runs-test_mirror code codeexec p name h c =
        Runs-bind m _ _
          (Runs-two_calls m law code codeexec p h c.window c.writes c.run_window c.runs)
          λ t h. (t, refl, h)

  -- Both programs have the same test.
  pub test_moved-test_alias :
      (code codeexec : ℕ) (name : String) (s : State)
      → test_moved m code codeexec name s ≡ test_alias m code codeexec name s
  unfolding test_moved test_alias
  test_moved-test_alias code codeexec name s = refl

  -- `assert(code != codeexec)` stops the test where the addresses are one.
  pub test_alias_same :
      (code : ℕ) (name : String) (s : State) → test_alias m code code name s ≡ none
  unfolding test_alias
  test_alias_same code name s = ground arith
