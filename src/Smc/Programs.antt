-- ===== src/Smc/Programs.antt =====
-- The tests of src/smc.cpp, src/smc-2.cpp, src/smc-shmatdt.cpp, src/smc-mt.cpp, src/smc-signals.cpp,
-- src/smc-shared.cpp, src/smc-shared-2.cpp and src/mremap.cpp. An address is what the mapping call
-- before the test returned.
use Prim.Native.String.{String}
use fex_assorted_tests_bins.Prelude.{
  ℕ, zero, suc, ◌+◌, ◌%◌, ◌^◌, Bool, not, ◌||◌, none, some, List, [], ◌++◌, ◌==◌,
}
use fex_assorted_tests_bins.Smc.Machine.{Machine}
use fex_assorted_tests_bins.Smc.Action.{◌>>=◌, ◌>>◌, pure, assert, Action}
use fex_assorted_tests_bins.Smc.Stub.{Values, expected, emit_stub, four_calls, two_calls}
use fex_assorted_tests_bins.Smc.Report.{Verdict, report_two, report_four, failure_set}

-- The globals of src/smc-signals.cpp that `smc_test` writes; both are atomic.
pub record Globals : Type 0 where
  pub failed : Bool
  pub count : ℕ

module _ (m : Machine) where
  open m use {State, store, call, munmap, fork_wait}

  -- `test` of src/smc.cpp: the set of failures, and the lines printed.
  unfoldable pub test_set : ℕ → String → Action m (ℕ × List Verdict)
  test_set code name = do v ← four_calls m code; pure (failure_set v, report_four name v)

  -- `test` of src/smc-2.cpp
  unfoldable pub test_remapped : ℕ → String → Action m (List Verdict)
  test_remapped code name = do v ← four_calls m code; pure (report_four name v)

  -- `test` of src/smc-shmatdt.cpp
  unfoldable pub test_detached : ℕ → String → Action m (List Verdict)
  test_detached code name = do v ← four_calls m code; pure (report_four name v)

  -- The loop of `thread` in src/smc-mt.cpp, with `k` rounds left.
  unfoldable pub thread_rounds : ℕ → ℕ → Action m (List Verdict)
  thread_rounds zero code = pure []
  thread_rounds (suc k) code = do
    v ← four_calls m code
    vs ← thread_rounds k code
    pure (report_four "Exec" v ++ vs)

  -- `thread` of src/smc-mt.cpp
  unfoldable pub thread : ℕ → Action m (List Verdict)
  unfolding thread_rounds
  thread code = thread_rounds 100 code

  -- `failed = true` unless each call returned what was written; `count++`.
  unfoldable pub note_values : Values → Globals → Globals
  note_values v g = record {
    failed =
        g.failed
        || (not (v.e1 == expected.e1)
            || (not (v.e2 == expected.e2)
                || (not (v.e3 == expected.e3) || not (v.e4 == expected.e4))));
    count = (g.count + 1) % 2 ^ 64;
  }

  -- The loop of `smc_test` in src/smc-signals.cpp, with `k` rounds left.
  unfoldable pub smc_rounds : ℕ → ℕ → Globals → Action m Globals
  smc_rounds zero code g = pure g
  smc_rounds (suc k) code g = do v ← four_calls m code; smc_rounds k code (note_values v g)

  -- `smc_test` of src/smc-signals.cpp
  unfoldable pub smc_test : ℕ → Globals → Action m Globals
  unfolding smc_rounds
  smc_test code g = do g' ← smc_rounds 10 code g; (λ s. some (tt, munmap code 4096 s)); pure g'

  -- `test` of src/smc-shared.cpp
  unfoldable pub test_alias : ℕ → ℕ → String → Action m (List Verdict)
  test_alias code codeexec name = do
    assert (not (code == codeexec))
    v ← two_calls m code codeexec
    pure (report_two name v)

  -- `test` of src/mremap.cpp, which its `main` never calls.
  unfoldable pub test_moved : ℕ → ℕ → String → Action m (List Verdict)
  test_moved code codeexec name = do
    assert (not (code == codeexec))
    v ← two_calls m code codeexec
    pure (report_two name v)

  -- `test` of src/smc-shared-2.cpp
  unfoldable pub test_mirror : ℕ → ℕ → String → Action m (List Verdict)
  test_mirror code codeexec name = do v ← two_calls m code codeexec; pure (report_two name v)

  -- `if (pid == 0) { code[3]=0xFE; exit(0); } else wait(NULL);`
  unfoldable pub patch_in_child : ℕ → Action m (Unit {0})
  patch_in_child code s = elim (fork_wait (store (code + 3) 0xFE) s) [
    | none ↦ none
    | some t ↦ some (tt, t)
  ]

  -- `test2` of src/smc-shared-2.cpp
  unfoldable pub test_fork : ℕ → ℕ → String → Action m (List Verdict)
  test_fork code codeexec name = do
    emit_stub m code
    v1 ← call codeexec
    patch_in_child code
    v2 ← call codeexec
    pure (report_two name (v1, v2))
