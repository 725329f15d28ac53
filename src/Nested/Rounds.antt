-- ===== src/Nested/Rounds.antt =====
-- Runs of src/signals-nested-2.cpp in which each handler is interrupted by the next one.
use fex_assorted_tests_bins.Prelude.{
  ℕ, zero, suc, ◌+◌, ◌-◌, ◌<◌, ◌≡◌, ◌∙◌, refl, true, false, none, some, leb, arith, Bool-cases, inl,
  inr,
}
use fex_assorted_tests_bins.Nested.Kills.{
  State, initial, killing, quit, quitted, finishing, kill, check, deliver, announce, enter,
  announced_one, blocked, killed, checked, delivered, handled, Reach, next,
}
use fex_assorted_tests_bins.Nested.Counted.{counted}

-- `thread` sends one signal, its handler starts and counts, and `thread` looks at the count.
abbrev pub round : State → State
round s = check (enter s.frames (announce s.frames (deliver (kill s))))

-- A state in which `thread` sends, and the signal is not blocked.
pub record IsReady (s : State) : Type 0 where
  pub running : s.status ≡ none
  pub sends : s.point ≡ killing
  pub free : blocked s.frames ≡ false

round-Reach : {s₀ : State} (s : State) → IsReady s → Reach s₀ s → Reach s₀ (round s)
unfolding kill deliver announce enter
round-Reach s h r =
    let sent =
      next (next r (killed h.running h.sends refl)) (delivered h.running refl h.free refl) in
    let signalled = next sent (announced_one s.frames h.running refl refl) in
    next (next signalled (handled s.frames h.running refl refl)) (checked h.running refl refl)

round-IsReady : (s : State) → IsReady s → s.sigcount + 1 < 1000 → IsReady (round s)
unfolding kill deliver announce enter check
round-IsReady s h low =
    let more : leb 1000 (s.sigcount + 1) ≡ false = ground arith in
    rw more (record { running = h.running; sends = refl; free = refl })

round-sigcount : (s : State) → (round s).sigcount ≡ s.sigcount + 1
unfolding kill deliver announce enter check
round-sigcount s = elim (Bool-cases (leb 1000 (s.sigcount + 1))) [
  | inl e ↦ rw e refl
  | inr e ↦ rw e refl
]

round-counted : (s : State) → counted (round s).frames ≡ suc (counted s.frames)
unfolding kill deliver announce enter check
round-counted s = elim (Bool-cases (leb 1000 (s.sigcount + 1))) [
  | inl e ↦ rw e refl
  | inr e ↦ rw e refl
]

round_last :
    (s : State)
    → s.status ≡ none
    → s.sigcount + 1 ≡ 1000
    → ((round s).status ≡ none) × ((round s).point ≡ finishing)
unfolding kill deliver announce enter check
round_last s running h =
    let last : leb 1000 (s.sigcount + 1) ≡ true = ground arith in rw last (running, refl)

rounds_exit :
    {s₀ : State} (n : ℕ) (s : State)
    → IsReady s
    → s.sigcount + suc n ≡ 1000
    → Reach s₀ s
    → (t : State) × Reach s₀ t
      × (t.status ≡ some 0)
      × (t.sigcount ≡ 1000)
      × (counted t.frames ≡ counted s.frames + suc n)
unfolding quit
rounds_exit zero s h e r =
    let (runs, at_end) = round_last s h.running e in
    (
      quit (round s),
      next (round-Reach s h r) (quitted runs at_end refl),
      refl,
      round-sigcount s ∙ e,
      omega (arith, round-counted s),
    )
rounds_exit (suc n) s h e r =
    let more = round-sigcount s in
    let (t, reach, status, count, open_handlers) =
      rounds_exit n (round s) (round-IsReady s h (omega arith)) (omega (arith, more))
        (round-Reach s h r) in
    (t, reach, status, count, omega (arith, open_handlers, round-counted s))

-- From every state that src/signals-nested-2.cpp reaches in which it runs, the thread sends next,
-- no signal is blocked and sigcount is below 1000, it can go on to an exit with 0 at a sigcount of
-- 1000 with a handler open for each signal that was missing.
pub kills_exit :
    (s : State)
    → Reach initial s
    → IsReady s
    → s.sigcount < 1000
    → (t : State) × Reach initial t
      × (t.status ≡ some 0)
      × (t.sigcount ≡ 1000)
      × (counted t.frames ≡ counted s.frames + (1000 - s.sigcount))
kills_exit s r h low =
    let (t, reach, status, count, open_handlers) =
      rounds_exit (999 - s.sigcount) s h (omega arith) r in
    (t, reach, status, count, omega (arith, open_handlers))
