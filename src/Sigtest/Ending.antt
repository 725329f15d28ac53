-- ===== src/Sigtest/Ending.antt =====
-- When src/signals/sigtest.cpp and src/signals/sigtest2.cpp end.
use fex_assorted_tests_bins.Prelude.{
  ℕ, ◌≡◌, refl, ap, arith, Bool, true, false, not, ◌||◌, ◌&&◌, ◌∙◌, Option, none, some, List, [],
  ◌∷◌, ltb, if◌then◌else◌,
}
use fex_assorted_tests_bins.Sigtest.{
  Line, LoopEvent, pass, stop, Loop, loop_run, loop_main, loop_step, sig_handler, ReadEvent,
  byte_read, end_of_input, outside, interrupt, Reader, handler, read_returns, read_step, read_run,
  read_main,
}

-- The input ends behind a signal that came.
abbrev pub stopped_then : List LoopEvent → Bool
stopped_then [] = false
stopped_then (pass ∷ es) = true
stopped_then (stop ∷ es) = stopped_then es

-- The loop is tested behind a signal.
abbrev pub loop_ends : List LoopEvent → Bool
loop_ends [] = false
loop_ends (pass ∷ es) = loop_ends es
loop_ends (stop ∷ es) = stopped_then es

-- A read returns 1.
abbrev pub has_byte : List ReadEvent → Bool
has_byte [] = false
has_byte (byte_read ∷ es) = true
has_byte (e ∷ es) = has_byte es

-- A signal comes inside of a read.
abbrev pub has_interrupt : List ReadEvent → Bool
has_interrupt [] = false
has_interrupt (interrupt ∷ es) = true
has_interrupt (e ∷ es) = has_interrupt es

abbrev pub has_end : List ReadEvent → Bool
has_end [] = false
has_end (end_of_input ∷ es) = true
has_end (e ∷ es) = has_end es

-- A read returns 0 behind a signal.
abbrev pub end_behind_signal : List ReadEvent → Bool
end_behind_signal [] = false
end_behind_signal (interrupt ∷ es) = has_end es
end_behind_signal (outside ∷ es) = has_end es
end_behind_signal (e ∷ es) = end_behind_signal es

-- What ends the program, by whether the handler has SA_RESTART.
abbrev pub read_ends : Bool → List ReadEvent → Bool
read_ends restart es = has_byte es || (not restart && has_interrupt es) || end_behind_signal es

abbrev pub has_status : Option ℕ → Bool
has_status none = false
has_status (some n) = true

loop_run_ended :
    (es : List LoopEvent) (b : Bool) (ls : List Line)
    → loop_run es (record { loop = b; printed = ls; status = some 0 })
      ≡ record { loop = b; printed = ls; status = some 0 }
unfolding loop_run
loop_run_ended [] b ls = refl
loop_run_ended (e ∷ es) b ls = loop_run_ended es b ls

stopped_lem :
    (es : List LoopEvent) (ls : List Line)
    → (loop_run es (record { loop = false; printed = ls; status = none })).status
      ≡ (if stopped_then es then some 0 else none)
unfolding loop_run loop_step sig_handler
stopped_lem [] ls = refl
stopped_lem (pass ∷ es) ls = ap (λ (s : Loop). s.status) (loop_run_ended es false _)
stopped_lem (stop ∷ es) ls = stopped_lem es _

loop_lem :
    (es : List LoopEvent) (ls : List Line)
    → (loop_run es (record { loop = true; printed = ls; status = none })).status
      ≡ (if loop_ends es then some 0 else none)
unfolding loop_run loop_step sig_handler
loop_lem [] ls = refl
loop_lem (pass ∷ es) ls = loop_lem es _
loop_lem (stop ∷ es) ls = stopped_lem es _

read_run_ended :
    (es : List ReadEvent) (r b : Bool) (ls : List Line)
    → read_run es (record { restart = r; signaled = b; printed = ls; status = some 0 })
      ≡ record { restart = r; signaled = b; printed = ls; status = some 0 }
unfolding read_run
read_run_ended [] r b ls = refl
read_run_ended (e ∷ es) r b ls = read_run_ended es r b ls

signaled_lem :
    (es : List ReadEvent) (r : Bool) (ls : List Line)
    → (read_run es (record { restart = r; signaled = true; printed = ls; status = none })).status
      ≡ (if has_byte es || (not r && has_interrupt es) || has_end es then some 0 else none)
unfolding read_run read_step read_returns handler
signaled_lem [] true ls = refl
signaled_lem [] false ls = refl
signaled_lem (byte_read ∷ es) r ls = ap (λ (s : Reader). s.status) (read_run_ended es r true ls)
signaled_lem (end_of_input ∷ es) r ls =
    ap (λ (s : Reader). s.status) (read_run_ended es r true ls) ∙ ground arith
signaled_lem (outside ∷ es) r ls = signaled_lem es r _
signaled_lem (interrupt ∷ es) true ls = signaled_lem es true _
signaled_lem (interrupt ∷ es) false ls =
    ap (λ (s : Reader). s.status) (read_run_ended es false true _) ∙ ground arith

read_lem :
    (es : List ReadEvent) (r : Bool) (ls : List Line)
    → (read_run es (record { restart = r; signaled = false; printed = ls; status = none })).status
      ≡ (if read_ends r es then some 0 else none)
unfolding read_run read_step read_returns handler
read_lem [] true ls = refl
read_lem [] false ls = refl
read_lem (byte_read ∷ es) r ls = ap (λ (s : Reader). s.status) (read_run_ended es r false ls)
read_lem (end_of_input ∷ es) r ls = read_lem es r ls
read_lem (outside ∷ es) r ls = signaled_lem es r _
read_lem (interrupt ∷ es) true ls = signaled_lem es true _
read_lem (interrupt ∷ es) false ls =
    ap (λ (s : Reader). s.status) (read_run_ended es false true _) ∙ ground arith

-- For every list of what happens behind the installation of the handlers, src/signals/sigtest2.cpp,
-- whose list has signals outside of its read too, has ended with 0 exactly if a byte was read, or a
-- signal came inside of a read at an argc of 1 or less, or the end of the input came behind a
-- signal, else it still reads; and src/signals/sigtest.cpp has ended with 0 exactly if its loop was
-- tested behind a signal.
pub main_status :
    (argc : ℕ) (es : List ReadEvent) (es' : List LoopEvent)
    → ((read_main argc es).status ≡ (if read_ends (ltb 1 argc) es then some 0 else none))
      × ((loop_main es').status ≡ (if loop_ends es' then some 0 else none))
unfolding read_main
main_status argc es es' = (read_lem es (ltb 1 argc) _, loop_lem es' [])
