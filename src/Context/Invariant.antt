-- ===== src/Context/Invariant.antt =====
-- What holds of src/signals/context-demo.c between any two steps.
use fex_assorted_tests_bins.Prelude.{
  ℕ, ◌+◌, ◌%◌, ◌^◌, ◌≤◌, ◌<◌, ◌≡◌, ◌≢◌, ◌⊎◌, inl, inr, refl, sym, ◌∙◌, ap, subst, arith, true,
  false, leb, ◌==◌, Bool-cases,
}
use fex_assorted_tests_bins.Context.{
  num_contexts, stack_size, Point, thread, scheduling, advancing, switching, exited, Saved, fresh,
  in_handler, State, update, used, timer_interrupt, next_context, point_to_current, resume,
  set_context,
}
use fex_assorted_tests_bins.Context.Machine.{
  IsOn, initial, Step, tick, late_tick, advance, aim, go, Reach, here, next,
}

-- The handlers of a context that have not returned.
abbrev pub pending : Saved → ℕ
pending fresh = 0
pending (in_handler p) = 1

-- A context is saved at its start, or in a handler that interrupted a thread.
abbrev pub IsSaved : Saved → Type 0
IsSaved fresh = Unit
IsSaved (in_handler thread) = Unit
IsSaved (in_handler scheduling) = ⊥
IsSaved (in_handler advancing) = ⊥
IsSaved (in_handler switching) = ⊥
IsSaved (in_handler (exited c)) = ⊥

-- In the scheduler `insig` counts the handlers of each context; while a thread runs, its own count
-- is 0. Before the change of `curcontext` the current context is in a handler.
abbrev pub Counts : Point → State → Type 0
Counts thread s =
    (s.insig s.curcontext ≡ 0) × ((c : ℕ) → c ≢ s.curcontext → s.insig c ≡ pending (s.contexts c))
Counts scheduling s = (s.insig s.curcontext ≡ 1) × ((c : ℕ) → s.insig c ≡ pending (s.contexts c))
Counts advancing s = (c : ℕ) → s.insig c ≡ pending (s.contexts c)
Counts switching s = (c : ℕ) → s.insig c ≡ pending (s.contexts c)
Counts (exited status) s = Unit

-- Where `cur_context` points: to the current context, but between the stores of the scheduler to the one
-- before it.
abbrev pub IsBehind : State → Type 0
IsBehind s = (s.curcontext ≡ (s.cur_context + 1) % num_contexts) × (s.cur_context < num_contexts)

abbrev pub Aims : Point → State → Type 0
Aims thread s = s.cur_context ≡ s.curcontext
Aims scheduling s = s.cur_context ≡ s.curcontext
Aims advancing s = IsBehind s
Aims switching s = s.cur_context ≡ s.curcontext
Aims (exited status) s = (s.cur_context ≡ s.curcontext) ⊎ IsBehind s

pub record IsSound (s : State) : Type 0 where
  pub in_range : s.curcontext < num_contexts
  pub aims : Aims s.point s
  pub saved : (c : ℕ) → IsSaved (s.contexts c)
  pub counts : Counts s.point s

used_inside : (ss_sp j : ℕ) → ss_sp < 2 ^ 63 → IsOn ss_sp j → leb stack_size (used ss_sp j) ≡ false
unfolding used
used_inside ss_sp j b h = ground arith

used_outside :
    (ss_sp signal_stack j : ℕ)
    → ss_sp < 2 ^ 63
    → signal_stack < 2 ^ 63
    → (signal_stack + stack_size ≤ ss_sp) ⊎ (ss_sp + stack_size ≤ signal_stack)
    → IsOn signal_stack j
    → leb stack_size (used ss_sp j) ≡ true
unfolding used
used_outside ss_sp signal_stack j b b' (inl below) h = ground arith
used_outside ss_sp signal_stack j b b' (inr above) h = ground arith

-- The state in the scheduler that a handler leaves.
abbrev pub interrupted : State → State
interrupted s = record s {
  insig = update s.insig s.curcontext (s.insig s.curcontext + 1);
  contexts = update s.contexts s.cur_context (in_handler s.point);
  point = scheduling;
}

pub timer_interrupt-interrupted :
    (ss_sp : ℕ → ℕ) (j : ℕ) (s : State)
    → s.insig s.curcontext ≡ 0
    → leb stack_size (used (ss_sp s.cur_context) j) ≡ false
    → timer_interrupt ss_sp j s ≡ interrupted s
unfolding timer_interrupt
timer_interrupt-interrupted ss_sp j s zero_insig inside = rw (zero_insig, inside) refl

-- The state in which a handler ends the process.
abbrev pub ended : ℕ → State → State
ended status s = record s {
  insig = update s.insig s.curcontext (s.insig s.curcontext + 1);
  point = exited status;
}

pub timer_interrupt-nested :
    (ss_sp : ℕ → ℕ) (j : ℕ) (s : State)
    → s.insig s.curcontext ≡ 1
    → timer_interrupt ss_sp j s ≡ ended 254 s
unfolding timer_interrupt
timer_interrupt-nested ss_sp j s one_insig = rw one_insig refl

pub timer_interrupt-overflow :
    (ss_sp : ℕ → ℕ) (j : ℕ) (s : State)
    → s.insig s.curcontext ≡ 0
    → leb stack_size (used (ss_sp s.cur_context) j) ≡ true
    → timer_interrupt ss_sp j s ≡ ended 255 s
unfolding timer_interrupt
timer_interrupt-overflow ss_sp j s zero_insig outside = rw (zero_insig, outside) refl

-- The counts of a sound state, at the point where it stands.
pub at_point : (s : State) (p : Point) → s.point ≡ p → IsSound s → Counts p s
at_point s p e h = subst (λ q. Counts q s) e h.counts

pub current-Aims : (s : State) (p : Point) → s.point ≡ p → IsSound s → Aims p s
current-Aims s p e h = subst (λ q. Aims q s) e h.aims

Aims-ended : (p : Point) (s : State) → Aims p s → (s.cur_context ≡ s.curcontext) ⊎ IsBehind s
Aims-ended thread s h = inl h
Aims-ended scheduling s h = inl h
Aims-ended advancing s h = inr h
Aims-ended switching s h = inl h
Aims-ended (exited status) s h = h

-- In any case `cur_context` is one of the ten.
pub current-range : (s : State) → IsSound s → s.cur_context < num_contexts
current-range s h = elim (Aims-ended s.point s h.aims) [
  | inl same ↦ omega (arith, same, h.in_range)
  | inr behind ↦ behind.1
]

update-IsSaved :
    (f : ℕ → Saved) (k : ℕ) (v : Saved)
    → IsSaved v
    → ((c : ℕ) → IsSaved (f c))
    → (c : ℕ) → IsSaved (update f k v c)
update-IsSaved f k v h hs c = elim (Bool-cases (k == c)) [
  | inl same ↦ rw same h
  | inr other ↦ rw other (hs c)
]

ended-IsSound : (status : ℕ) (s : State) → IsSound s → IsSound (ended status s)
ended-IsSound status s h = record {
  in_range = h.in_range;
  aims = Aims-ended s.point s h.aims;
  saved = h.saved;
  counts = tt;
}

marked_counts :
    (insig : ℕ → ℕ) (contexts : ℕ → Saved) (k c : ℕ) (p : Point)
    → insig k ≡ 0
    → (c ≢ k → insig c ≡ pending (contexts c))
    → update insig k (insig k + 1) c ≡ pending (update contexts k (in_handler p) c)
marked_counts insig contexts k c p none_open others = elim (Bool-cases (k == c)) [
  | inl same ↦ rw same (omega arith)
  | inr other ↦ rw other (others (λ e. ground arith))
]

pub interrupted-IsSound : (s : State) → s.point ≡ thread → IsSound s → IsSound (interrupted s)
interrupted-IsSound s e h =
    let at_thread = at_point s thread e h in
    let same = current-Aims s thread e h in
    let marked : IsSaved (in_handler s.point) = subst (λ p. IsSaved (in_handler p)) (sym e) tt in
    record {
      in_range = h.in_range;
      aims = same;
      saved = update-IsSaved s.contexts s.cur_context (in_handler s.point) marked h.saved;
      counts = (
        let none_open : s.insig s.curcontext ≡ 0 = at_thread.0 in ground arith,
        λ c.
            subst
              (λ k.
                update s.insig s.curcontext (s.insig s.curcontext + 1) c
                ≡ pending (update s.contexts k (in_handler s.point) c))
              (sym same)
              (marked_counts s.insig s.contexts s.curcontext c s.point at_thread.0 (at_thread.1 c)),
      );
    }

next_context-IsSound : (s : State) → s.point ≡ scheduling → IsSound s → IsSound (next_context s)
unfolding next_context
next_context-IsSound s e h =
    let same = current-Aims s scheduling e h in
    record {
      in_range = omega arith;
      aims = (ap (λ c. (c + 1) % num_contexts) (sym same), current-range s h);
      saved = h.saved;
      counts = (at_point s scheduling e h).1;
    }

point_to_current-IsSound :
    (s : State) → s.point ≡ advancing → IsSound s → IsSound (point_to_current s)
unfolding point_to_current
point_to_current-IsSound s e h = record {
  in_range = h.in_range;
  aims = refl;
  saved = h.saved;
  counts = at_point s advancing e h;
}

resume-IsSound :
    (v : Saved) (s : State)
    → v ≡ s.contexts s.curcontext
    → ((c : ℕ) → s.insig c ≡ pending (s.contexts c))
    → IsSaved v
    → s.cur_context ≡ s.curcontext
    → IsSound s
    → IsSound (resume v s)
unfolding resume
resume-IsSound fresh s e counts m same h = record {
  in_range = h.in_range;
  aims = same;
  saved = h.saved;
  counts = (counts s.curcontext ∙ ap pending (sym e), λ c ne. counts c);
}
resume-IsSound (in_handler thread) s e counts m same h = record {
  in_range = h.in_range;
  aims = same;
  saved = h.saved;
  counts = (
    let one_open : s.insig s.curcontext ≡ 1 = counts s.curcontext ∙ ap pending (sym e) in
        ground arith,
    λ c ne. let other : (s.curcontext == c) ≡ false = ground (arith, ne) in rw other (counts c),
  );
}
resume-IsSound (in_handler scheduling) s e counts m same h = absurd m
resume-IsSound (in_handler advancing) s e counts m same h = absurd m
resume-IsSound (in_handler switching) s e counts m same h = absurd m
resume-IsSound (in_handler (exited c)) s e counts m same h = absurd m

-- The signal stack lies apart from the stacks of the contexts, in the lower half of memory.
pub record AreApart (ss_sp : ℕ → ℕ) (signal_stack : ℕ) : Type 0 where
  pub low : (c : ℕ) → c < num_contexts → ss_sp c < 2 ^ 63
  pub signal_low : signal_stack < 2 ^ 63
  pub apart :
      (c : ℕ)
      → c < num_contexts
      → (signal_stack + stack_size ≤ ss_sp c) ⊎ (ss_sp c + stack_size ≤ signal_stack)

-- A sound state counts 0 or 1 handlers for the context that a saved state is of.
pending-cases : (v : Saved) → (pending v ≡ 0) ⊎ (pending v ≡ 1)
pending-cases fresh = inl refl
pending-cases (in_handler p) = inr refl

module _ (ss_sp : ℕ → ℕ) (signal_stack : ℕ) (apart : AreApart ss_sp signal_stack) where
  current-low : (s : State) → IsSound s → ss_sp s.cur_context < 2 ^ 63
  current-low s h = apart.low s.cur_context (current-range s h)

  pub tick_interrupts :
      (s : State) (j : ℕ)
      → IsSound s
      → s.point ≡ thread
      → IsOn (ss_sp s.cur_context) j
      → timer_interrupt ss_sp j s ≡ interrupted s
  tick_interrupts s j h e on =
      timer_interrupt-interrupted ss_sp j s (at_point s thread e h).0
        (used_inside (ss_sp s.cur_context) j (current-low s h) on)

  -- Behind the change of `curcontext`, a handler finds that of the next context open, or the signal stack.
  counted_tick_ends :
      (s : State) (j : ℕ)
      → IsSound s
      → ((c : ℕ) → s.insig c ≡ pending (s.contexts c))
      → IsOn signal_stack j
      → (timer_interrupt ss_sp j s ≡ ended 254 s) ⊎ (timer_interrupt ss_sp j s ≡ ended 255 s)
  counted_tick_ends s j h counts on = elim (pending-cases (s.contexts s.curcontext)) [
    | inl none_open ↦ inr (
        timer_interrupt-overflow ss_sp j s (counts s.curcontext ∙ none_open) (
          used_outside (ss_sp s.cur_context) signal_stack j (current-low s h) apart.signal_low
            (apart.apart s.cur_context (current-range s h)) on))
    | inr one_open ↦ inl (timer_interrupt-nested ss_sp j s (counts s.curcontext ∙ one_open))
  ]

  -- Where the stacks lie apart, in a sound state of src/signals/context-demo.c whose scheduler is
  -- in front of its two stores, between them or behind them, a timer interrupt on the signal stack
  -- ends the program with -2 or -1.
  pub late_tick_ends :
      (s : State) (j : ℕ)
      → IsSound s
      → (s.point ≡ scheduling) ⊎ (s.point ≡ advancing) ⊎ (s.point ≡ switching)
      → IsOn signal_stack j
      → (timer_interrupt ss_sp j s ≡ ended 254 s) ⊎ (timer_interrupt ss_sp j s ≡ ended 255 s)
  late_tick_ends s j h (inl e) on =
      inl (timer_interrupt-nested ss_sp j s (at_point s scheduling e h).0)
  late_tick_ends s j h (inr (inl e)) on = counted_tick_ends s j h (at_point s advancing e h) on
  late_tick_ends s j h (inr (inr e)) on = counted_tick_ends s j h (at_point s switching e h) on

  set_context-IsSound : (s : State) → s.point ≡ switching → IsSound s → IsSound (set_context s)
  unfolding set_context
  set_context-IsSound s e h =
      let same = current-Aims s switching e h in
      resume-IsSound (s.contexts s.cur_context) s (ap s.contexts same) (at_point s switching e h)
        (h.saved s.cur_context) same h

  pub Step-IsSound : (s t : State) → Step ss_sp signal_stack s t → IsSound s → IsSound t
  Step-IsSound s t (tick j e on eq) h =
      subst IsSound (sym (eq ∙ tick_interrupts s j h e on)) (interrupted-IsSound s e h)
  Step-IsSound s t (late_tick j e on eq) h = elim (late_tick_ends s j h e on) [
    | inl nested ↦ subst IsSound (sym (eq ∙ nested)) (ended-IsSound 254 s h)
    | inr overflow ↦ subst IsSound (sym (eq ∙ overflow)) (ended-IsSound 255 s h)
  ]
  Step-IsSound s t (advance e eq) h = subst IsSound (sym eq) (next_context-IsSound s e h)
  Step-IsSound s t (aim e eq) h = subst IsSound (sym eq) (point_to_current-IsSound s e h)
  Step-IsSound s t (go e eq) h = subst IsSound (sym eq) (set_context-IsSound s e h)

  -- Where the signal stack lies apart from the stacks of the contexts of src/signals/context-
  -- demo.c, in every state that its timer and its scheduler reach the current context is one of the
  -- ten; cur_context points to it, but between the two stores of the scheduler, where it points to
  -- the context before it, and where the program was ended, where it points to one of the two; only
  -- threads are saved inside of a handler, and insig counts for each context the handlers that have
  -- not returned.
  pub Reach-IsSound : {t : State} → Reach ss_sp signal_stack initial t → IsSound t
  Reach-IsSound here = record {
    in_range = omega arith;
    aims = refl;
    saved = λ c. tt;
    counts = (refl, λ c ne. refl);
  }
  Reach-IsSound (next {t} {u} r st) = Step-IsSound t u st (Reach-IsSound r)
