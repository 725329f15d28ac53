-- ===== src/Nested/Handlers.antt =====
-- The signal handler of src/signals-nested.cpp: how many deliveries it takes to end the program.
use fex_assorted_tests_bins.Prelude.{
  ℕ, zero, suc, ◌+◌, ◌≤◌, ◌<◌, ◌≡◌, ◌∙◌, ap, arith, leb, if◌then◌else◌, Bool-cases, inl, inr,
}

-- What one delivery of SIGALRM comes to: `exit(0)` with the count that is printed, or so many
-- calls of `test` with the new count.
pub data Alarm : Type 0 where
  exits : ℕ → Alarm
  tests : ℕ → ℕ → Alarm

-- `sighandler`; `sigcount++` gives the old value.
unfoldable pub on_alarm : ℕ → Alarm
on_alarm sigcount = if leb 1000 sigcount then exits (sigcount + 1) else tests 10 (sigcount + 1)

-- `n` deliveries, each of which may come while the calls of `test` of another still run.
unfoldable pub alarms : ℕ → ℕ → Alarm
alarms zero sigcount = tests 0 sigcount
alarms (suc n) sigcount = elim (on_alarm sigcount) [
  | exits printed ↦ exits printed
  | tests times sigcount' ↦ alarms n sigcount'
]

pub on_alarm_early : (c : ℕ) → c < 1000 → on_alarm c ≡ tests 10 (c + 1)
unfolding on_alarm
on_alarm_early c h = ground arith

on_alarm_last : (c : ℕ) → 1000 ≤ c → on_alarm c ≡ exits (c + 1)
unfolding on_alarm
on_alarm_last c h = ground arith

-- Deliveries of SIGALRM that leave sigcount at 1000 or less do not end src/signals-nested.cpp, and
-- each is counted.
pub alarms_early : (n c : ℕ) → c + n ≤ 1000 → alarms n c ≡ tests 0 (c + n)
unfolding alarms
alarms_early zero c h = let e : c ≡ c + 0 = omega arith in ap (tests 0) e
alarms_early (suc n) c h =
    let e : c + 1 + n ≡ c + suc n = omega arith in
    rw (on_alarm_early c (omega arith), alarms)
      (alarms_early n (c + 1) (omega arith) ∙ ap (tests 0) e)

-- Where sigcount has not passed 1000, any number of deliveries of SIGALRM that takes it past 1000
-- ends src/signals-nested.cpp by exit(0), with 1001 printed.
pub alarms_end : (n c : ℕ) → c ≤ 1000 → 1000 < c + n → alarms n c ≡ exits 1001
unfolding alarms
alarms_end zero c h k = absurd (omega arith)
alarms_end (suc n) c h k = elim (Bool-cases (leb 1000 c)) [
  | inl last ↦
      let e : c + 1 ≡ 1001 = ground arith in
      rw (on_alarm_last c (ground arith), alarms) (ap exits e)
  | inr early ↦
      rw (on_alarm_early c (ground arith), alarms)
        (alarms_end n (c + 1) (ground arith) (omega arith))
]
