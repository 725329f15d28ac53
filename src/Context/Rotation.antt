-- ===== src/Context/Rotation.antt =====
-- Undisturbed turns of the contexts of src/signals/context-demo.c: the timer strikes in a thread, the
-- scheduler runs to its end, and the next thread goes on.
use fex_assorted_tests_bins.Prelude.{
  ℕ, ◌+◌, ◌%◌, ◌≡◌, List, [], ◌∷◌, refl, sym, ◌∙◌, ap, subst, arith, length,
}
use fex_assorted_tests_bins.Context.{
  num_contexts, thread, scheduling, advancing, switching, Saved, fresh, in_handler, State,
  timer_interrupt, next_context, point_to_current, resume, set_context,
}
use fex_assorted_tests_bins.Context.Machine.{IsOn, initial, tick, advance, aim, go, here}
use fex_assorted_tests_bins.Context.Invariant.{
  IsSound, IsSaved, at_point, current-Aims, AreApart, tick_interrupts, Step-IsSound, Reach-IsSound,
}

-- The addresses of the handler's arguments, each on the stack of the context that then runs.
abbrev pub AreOn : (ℕ → ℕ) → ℕ → List ℕ → Type 0
AreOn ss_sp c [] = Unit
AreOn ss_sp c (j ∷ js) = IsOn (ss_sp c) j × AreOn ss_sp ((c + 1) % num_contexts) js

module _ (ss_sp : ℕ → ℕ) where
  abbrev pub turn : ℕ → State → State
  turn j s = set_context (point_to_current (next_context (timer_interrupt ss_sp j s)))

  unfoldable pub turns : List ℕ → State → State
  turns [] s = s
  turns (j ∷ js) s = turns js (turn j s)

resume-thread : (v : Saved) (s : State) → IsSaved v → (resume v s).point ≡ thread
unfolding resume
resume-thread fresh s h = refl
resume-thread (in_handler thread) s h = refl
resume-thread (in_handler _) s h = absurd h

resume-curcontext : (v : Saved) (s : State) → (resume v s).curcontext ≡ s.curcontext
unfolding resume
resume-curcontext fresh s = refl
resume-curcontext (in_handler p) s = refl

set_context-thread : (s : State) → IsSound s → (set_context s).point ≡ thread
unfolding set_context
set_context-thread s h = resume-thread (s.contexts s.cur_context) s (h.saved s.cur_context)

set_context-curcontext : (s : State) → (set_context s).curcontext ≡ s.curcontext
unfolding set_context
set_context-curcontext s = resume-curcontext (s.contexts s.cur_context) s

-- Both stores of the scheduler.
scheduler-curcontext :
    (s : State) → (point_to_current (next_context s)).curcontext ≡ (s.curcontext + 1) % num_contexts
unfolding next_context point_to_current
scheduler-curcontext s = refl

next_context-advancing : (s : State) → (next_context s).point ≡ advancing
unfolding next_context
next_context-advancing s = refl

point_to_current-switching : (s : State) → (point_to_current s).point ≡ switching
unfolding point_to_current
point_to_current-switching s = refl

module _ (ss_sp : ℕ → ℕ) (signal_stack : ℕ) (apart : AreApart ss_sp signal_stack) where
  -- One turn, as the four steps that it takes.
  turn-IsSound :
      (j : ℕ) (s : State)
      → IsSound s
      → s.point ≡ thread
      → IsOn (ss_sp s.curcontext) j
      → IsSound (turn ss_sp j s)
        × ((turn ss_sp j s).point ≡ thread)
        × ((turn ss_sp j s).curcontext ≡ (s.curcontext + 1) % num_contexts)
  turn-IsSound j s h e on =
      let on' : IsOn (ss_sp s.cur_context) j =
        subst (λ c. IsOn (ss_sp c) j) (sym (current-Aims s thread e h)) on in
      let struck = tick_interrupts ss_sp signal_stack apart s j h e on' in
      let in_scheduler : (timer_interrupt ss_sp j s).point ≡ scheduling =
        ap {A = State} (λ t. t.point) struck in
      let current : (timer_interrupt ss_sp j s).curcontext ≡ s.curcontext =
        ap {A = State} (λ t. t.curcontext) struck in
      let sound = Step-IsSound ss_sp signal_stack apart in
      let h₁ = sound s (timer_interrupt ss_sp j s) (tick j e on' refl) h in
      let before = timer_interrupt ss_sp j s in
      let between = next_context before in
      let behind = point_to_current between in
      let h₂ = sound before between (advance in_scheduler refl) h₁ in
      let h₃ = sound between behind (aim (next_context-advancing before) refl) h₂ in
      let h₄ = sound behind (turn ss_sp j s) (go (point_to_current-switching between) refl) h₃ in
      (
        h₄,
        set_context-thread behind h₃,
        set_context-curcontext behind
            ∙ scheduler-curcontext before
            ∙ ap (λ c. (c + 1) % num_contexts) current,
      )

  turns-IsSound :
      (js : List ℕ) (s : State)
      → IsSound s
      → s.point ≡ thread
      → AreOn ss_sp s.curcontext js
      → IsSound (turns ss_sp js s)
        × ((turns ss_sp js s).point ≡ thread)
        × ((turns ss_sp js s).curcontext ≡ (s.curcontext + length js) % num_contexts)
  unfolding turns
  turns-IsSound [] s h e on = (h, e, omega (arith, h.in_range))
  turns-IsSound (j ∷ js) s h e on =
      let (h', e', c') = turn-IsSound j s h e on.0 in
      let (h'', e'', c'') =
        turns-IsSound js (turn ss_sp j s) h' e' (subst (λ c. AreOn ss_sp c js) (sym c') on.1) in
      (h'', e'', omega arith)

  -- Where the stacks lie apart and each interrupt finds the stack of the thread that runs, after n
  -- timer interrupts whose scheduler is not disturbed a thread of src/signals/context-demo.c runs,
  -- it is that of context n modulo 10, and no handler of it is open.
  pub turns-round_robin :
      (js : List ℕ)
      → AreOn ss_sp 0 js
      → ((turns ss_sp js initial).point ≡ thread)
        × ((turns ss_sp js initial).curcontext ≡ length js % num_contexts)
        × ((turns ss_sp js initial).insig (length js % num_contexts) ≡ 0)
  turns-round_robin js on =
      let start = Reach-IsSound ss_sp signal_stack apart here in
      let (h, e, c) = turns-IsSound js initial start refl on in
      let c' : (turns ss_sp js initial).curcontext ≡ length js % num_contexts = omega arith in
      (
        e,
        c',
        subst (λ q. (turns ss_sp js initial).insig q ≡ 0) c'
            (at_point (turns ss_sp js initial) thread e h).0,
      )
