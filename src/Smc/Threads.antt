-- ===== src/Smc/Threads.antt =====
-- src/smc-mt.cpp with its threads at the same time: each has a page of its own, and a turn of a thread is
-- one store, one call of the code or one mprotect.
pub mod Solo
pub mod Refinement
pub mod Finished
pub mod Joined
use fex_assorted_tests_bins.Prelude.{
  ℕ, zero, suc, ◌+◌, Bool, true, false, ◌&&◌, Option, none, some, List, [], ◌∷◌, ◌++◌, ◌==◌,
  if◌then◌else◌,
}
use fex_assorted_tests_bins.Smc.Machine.{Prot, Machine, update}
use fex_assorted_tests_bins.Smc.Stub.{read_exec, read_write_exec}
use fex_assorted_tests_bins.Smc.Report.{Verdict, report_four}

-- `code[i] = v`, a call of `fn`, and `mprotect(code, 4096, ...)`.
pub data Op : Type 0 where
  put : (i v : ℕ) → Op
  run_code : Op
  protect_page : Prot → Op

-- The body of the loop in `thread`.
abbrev pub round_ops : List Op
round_ops =
    put 0 0xB8
    ∷ put 1 0xAA
    ∷ put 2 0xBB
    ∷ put 3 0xCC
    ∷ put 4 0xDD
    ∷ put 5 0xC3
    ∷ run_code
    ∷ put 3 0xFE
    ∷ run_code
    ∷ protect_page read_exec
    ∷ protect_page read_write_exec
    ∷ put 3 0xF3
    ∷ protect_page read_exec
    ∷ run_code
    ∷ protect_page read_write_exec
    ∷ put 3 0xF1
    ∷ run_code
    ∷ []

unfoldable pub rounds : ℕ → List Op
rounds zero = []
rounds (suc k) = round_ops ++ rounds k

-- `thread` behind its mmap
unfoldable pub thread_ops : List Op
unfolding rounds
thread_ops = rounds 100

-- The lines that `thread` prints, four of them behind the four calls of a pass.
unfoldable pub lines : List ℕ → List Verdict
lines (e1 ∷ e2 ∷ e3 ∷ e4 ∷ vs) =
    report_four "Exec" (record { e1 = e1; e2 = e2; e3 = e3; e4 = e4 }) ++ lines vs
lines vs = []

-- A thread: its `code`, what it has to do, and what its calls have returned.
pub record Thread : Type 0 where
  pub code : ℕ
  pub rest : List Op
  pub values : List ℕ

abbrev pub is_done : Thread → Bool
is_done th = elim th.rest [ [] ↦ true | o ∷ os ↦ false ]

module _ (m : Machine) where
  open m use {State, store, call, mprotect}

  -- One operation on the page at `code`, with what it returns.
  unfoldable pub exec : ℕ → Op → State → Option (List ℕ × State)
  exec code (put i v) s = elim (store (code + i) v s) [ none ↦ none | some t ↦ some ([], t) ]
  exec code run_code s = elim (call code s) [ none ↦ none | some (r, t) ↦ some (r ∷ [], t) ]
  exec code (protect_page prot) s = some ([], mprotect code 4096 prot s)

  pub record System : Type 0 where
    pub threads : ℕ → Thread
    pub state : State

  -- A turn of one thread; `none` is the end of the program by a signal.
  unfoldable pub turn : Thread → List Op → State → Option (Thread × State)
  turn th [] s = some (th, s)
  turn th (o ∷ os) s = elim (exec th.code o s) [
    | none ↦ none
    | some (r, t) ↦ some (record th { rest = os; values = th.values ++ r }, t)
  ]

  unfoldable pub system_turn : ℕ → System → Option System
  system_turn j c = elim (turn (c.threads j) (c.threads j).rest c.state) [
    | none ↦ none
    | some (th, s) ↦ some (record { threads = update c.threads j th; state = s })
  ]

  -- A thread that is not created yet gets no turn.
  unfoldable pub system_run : List ℕ → System → Option System
  system_run [] c = some c
  system_run (j ∷ js) c = elim (system_turn j c) [ none ↦ none | some d ↦ system_run js d ]

  -- `pthread_join` of the threads below `n`
  unfoldable pub all_joined : ℕ → System → Bool
  all_joined zero c = true
  all_joined (suc n) c = is_done (c.threads n) && all_joined n c

  -- The threads as they are created, on the pages that their mmap returned.
  abbrev pub created : (ℕ → ℕ) → State → System
  created code s = record {
    threads = λ j. record { code = code j; rest = thread_ops; values = [] };
    state = s;
  }

  -- `main`: what it returns once all its threads are joined, else it waits.
  unfoldable pub mt_main : (ℕ → ℕ) → List ℕ → State → Option (Option ℕ × System)
  mt_main code turns s = elim (system_run turns (created code s)) [
    | none ↦ none
    | some c ↦ some (if all_joined 100 c then some 0 else none, c)
  ]
