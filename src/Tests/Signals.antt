-- ===== src/Tests/Signals.antt =====
-- Runs of the programs of src/tests/signal, on kernels in closed form.
use fex_assorted_tests_bins.Prelude.{true, false, not, arith, ltb, ◌==◌, if◌then◌else◌}
use fex_assorted_tests_bins.Signals.{Exit, running, exited, mark, IsBlocking, IsNesting}
use fex_assorted_tests_bins.Signals.Samask
use fex_assorted_tests_bins.Signals.Sigmask
use fex_assorted_tests_bins.Signals.NoDefer
use fex_assorted_tests_bins.Signals.Deciding.{Decides, signal_tests_decide}

samask_blocking : Samask.P → Exit Samask.P
samask_blocking s =
    let g = s.globals in
    if s.masked
    then mark s
    else if g.last
    then running (record s { globals = record g { loop = false }; pending = false })
    else if not (g.count2 == g.count)
    then exited 255
    else if ltb g.count 10
    then running
        (record s { globals = record g { loop = false; count = 10; count2 = 10 }; pending = false })
    else running (record s { globals = record g { loop = false }; pending = false })

samask_blocking-IsBlocking : IsBlocking Samask.sig_handler samask_blocking
unfolding samask_blocking Samask.sig_handler
samask_blocking-IsBlocking = record { deliver = λ s m. ground arith; hold = λ s m. ground arith }

samask_nesting : Samask.P → Exit Samask.P
samask_nesting s =
    let g = s.globals in
    if g.last
    then running (record s { globals = record g { loop = false } })
    else if not (g.count2 == g.count)
    then exited 255
    else if ltb g.count 10
    then exited 255
    else running (record s { globals = record g { loop = false } })

samask_nesting-IsNesting : IsNesting Samask.sig_handler samask_nesting
unfolding samask_nesting Samask.sig_handler
samask_nesting-IsNesting = record { deliver = λ s m. ground arith }

sigmask_blocking : Sigmask.P → Exit Sigmask.P
sigmask_blocking s =
    if s.masked
    then mark s
    else if s.globals.inhandler
    then exited 255
    else running (record {
      globals = record { loop = false; inhandler = true };
      pending = true;
      masked = true;
    })

sigmask_blocking-IsBlocking : IsBlocking Sigmask.sig_handler sigmask_blocking
unfolding sigmask_blocking Sigmask.sig_handler
sigmask_blocking-IsBlocking = record { deliver = λ s m. ground arith; hold = λ s m. ground arith }

sigmask_ignored : Sigmask.IgnoresMask (λ s. exited 255)
unfolding Sigmask.sig_handler
sigmask_ignored = record { deliver = λ s m. ground arith }

no_defer_nesting : NoDefer.P → Exit NoDefer.P
no_defer_nesting s = if not (s.globals.count == 0) then exited 255 else exited 0

no_defer_nesting-IsNesting : IsNesting NoDefer.sig_handler no_defer_nesting
unfolding no_defer_nesting NoDefer.sig_handler
no_defer_nesting-IsNesting = record { deliver = λ s m. ground arith }

no_defer_blocking : NoDefer.P → Exit NoDefer.P
no_defer_blocking s =
    if s.masked
    then mark s
    else if not (s.globals.count == 0)
    then exited 255
    else if ltb s.globals.count2 10
    then exited 255
    else exited 0

no_defer_blocking-IsBlocking : IsBlocking NoDefer.sig_handler no_defer_blocking
unfolding no_defer_blocking NoDefer.sig_handler
no_defer_blocking-IsBlocking = record { deliver = λ s m. ground arith; hold = λ s m. ground arith }

signal_tests_decide_example :
    Decides Samask.P
      (λ raise. Samask.main 2 raise true Samask.initial)
      samask_blocking
      samask_nesting
    × Decides Sigmask.P
        (λ raise. Sigmask.main 2 raise true Sigmask.initial)
        sigmask_blocking
        (λ s. exited 255)
    × Decides NoDefer.P
        (λ raise. NoDefer.main 2 raise true NoDefer.initial)
        no_defer_nesting
        no_defer_blocking
signal_tests_decide_example =
    signal_tests_decide 2 samask_blocking samask_nesting sigmask_blocking (λ s. exited 255)
      no_defer_nesting no_defer_blocking (omega arith) samask_blocking-IsBlocking
      samask_nesting-IsNesting sigmask_blocking-IsBlocking sigmask_ignored
      no_defer_nesting-IsNesting no_defer_blocking-IsBlocking
