-- ===== src/Signals/Deciding.antt =====
-- The three programs of src/tests/signal tell a kernel that delivers signals as documented from one that does
-- not.
use fex_assorted_tests_bins.Prelude.{ℕ, ◌≤◌, ◌≡◌, true, arith}
use fex_assorted_tests_bins.Signals.{Exit, exited, IsBlocking, IsNesting}
use fex_assorted_tests_bins.Signals.Samask
use fex_assorted_tests_bins.Signals.Sigmask
use fex_assorted_tests_bins.Signals.NoDefer

-- A kernel as a program needs it, and one that fails it: what each comes to.
pub record Decides (P : Type 0) (main : (P → Exit P) → Exit P) (good bad : P → Exit P)
    : Type 0 where
  pub passes : main good ≡ exited 0
  pub detects : main bad ≡ exited 255

-- With fuel for two rounds, each of the three programs of src/tests/signal ends with 0 on a kernel
-- that delivers its signals as it wants and with -1 on one that does not: sigtest_samask.cpp where
-- the signal is blocked while its handler runs and where it is not, sigtest_sigmask.cpp where the
-- handler returns to the mask of the context and where that mask is ignored, sigtest_no_defer.cpp
-- where the handler is entered while it runs and where the signal is blocked.
pub signal_tests_decide :
    (fuel : ℕ) (blocking nesting : Samask.P → Exit Samask.P)
    (restoring ignoring : Sigmask.P → Exit Sigmask.P)
    (entered deferring : NoDefer.P → Exit NoDefer.P)
    → 2 ≤ fuel
    → IsBlocking Samask.sig_handler blocking
    → IsNesting Samask.sig_handler nesting
    → IsBlocking Sigmask.sig_handler restoring
    → Sigmask.IgnoresMask ignoring
    → IsNesting NoDefer.sig_handler entered
    → IsBlocking NoDefer.sig_handler deferring
    → Decides Samask.P (λ raise. Samask.main fuel raise true Samask.initial) blocking nesting
      × Decides Sigmask.P (λ raise. Sigmask.main fuel raise true Sigmask.initial) restoring ignoring
      × Decides NoDefer.P (λ raise. NoDefer.main fuel raise true NoDefer.initial) entered deferring
signal_tests_decide fuel blocking nesting restoring ignoring entered deferring h a b c d e f = (
  record {
    passes = Samask.samask_passes blocking a fuel h;
    detects = Samask.samask_detects nesting fuel (omega arith) b;
  },
  record {
    passes = Sigmask.sigmask_passes restoring fuel h c;
    detects = Sigmask.sigmask_detects ignoring fuel (omega arith) d;
  },
  record {
    passes = NoDefer.no_defer_passes entered fuel (omega arith) e;
    detects = NoDefer.no_defer_detects deferring fuel (omega arith) f;
  },
)
