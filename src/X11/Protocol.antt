-- ===== src/X11/Protocol.antt =====
-- The order of what src/copyable-functions/x11main.c asks of the display.
use fex_assorted_tests_bins.Prelude.{
  ℕ, ◌+◌, ℤ, ◌≡◌, refl, sym, ap, subst, true, Option, none, some, List, [], ◌∷◌, ◌++◌, ◌==◌,
  Bool-cases, inl, inr,
}
use mathlib.Core.Option.{some-injective, none-ne-some}
use fex_assorted_tests_bins.X11.{
  Event, expose, key_press, button_press, other_event, Call, open_display, create_window,
  set_properties, select_input, create_gc, set_background, set_foreground, clear_window, map_raised,
  draw_string, free_gc, destroy_window, close_display, Client, Outcome, waiting, exited, killed,
  and_then, ask, say, stored, colour, is_fun, redraw, close_x, on_expose, init_x, pressed, on_key,
  draw, on_button, turn, run, main, up_to_nul,
}

-- Which of the display, the window and the graphics context there are.
pub data Stage : Type 0 where
  no_display displayed windowed ready freed destroyed closed : Stage

-- The stage behind a call; `none` is a call that the stage does not allow.
abbrev pub advance : Stage → Call → Option Stage
advance no_display open_display = some displayed
advance displayed create_window = some windowed
advance windowed set_properties = some windowed
advance windowed select_input = some windowed
advance windowed create_gc = some ready
advance ready (set_background n) = some ready
advance ready (set_foreground n) = some ready
advance ready clear_window = some ready
advance ready map_raised = some ready
advance ready (draw_string x y bs) = some ready
advance ready free_gc = some freed
advance freed destroy_window = some destroyed
advance destroyed close_display = some closed
advance stage call = none

abbrev pub stage_after : Stage → List Call → Option Stage
stage_after stage [] = some stage
stage_after stage (call ∷ calls) = elim (advance stage call) [
  | none ↦ none
  | some next ↦ stage_after next calls
]

-- From the start of the program on.
abbrev pub stage_of : Client → Option Stage
stage_of c = stage_after no_display c.calls

-- Every call was allowed: a program that waits, or is killed, has all three, one that has ended has
-- given all three back and returned 1.
abbrev pub IsInOrder : Outcome → Type 0
IsInOrder (waiting c) = stage_of c ≡ some ready
IsInOrder (exited n c) = (n ≡ 1) × (stage_of c ≡ some closed)
IsInOrder (killed c) = stage_of c ≡ some ready

on_stage :
    (o : Option Stage) (f g : Stage → Option Stage) (now next : Stage)
    → ((q : Stage) → f q ≡ some now → g q ≡ some next)
    → (elim o [ none ↦ none | some q ↦ f q ]) ≡ some now
    → (elim o [ none ↦ none | some q ↦ g q ]) ≡ some next
on_stage none f g now next k e = absurd (none-ne-some now e)
on_stage (some q) f g now next k e = k q e

stage_after-append :
    (calls : List Call) (call : Call) (stage now next : Stage)
    → stage_after stage calls ≡ some now
    → advance now call ≡ some next
    → stage_after stage (calls ++ call ∷ []) ≡ some next
stage_after-append [] call stage now next h a =
    let same : stage ≡ now = some-injective stage now h in
    ap (λ o. elim o [ none ↦ none | some q ↦ stage_after q [] ])
      (subst (λ s. advance s call ≡ some next) (sym same) a)
stage_after-append (x ∷ calls) call stage now next h a =
    on_stage (advance stage x) (λ q. stage_after q calls) (λ q. stage_after q (calls ++ call ∷ []))
      now next (λ q e. stage_after-append calls call q now next e a) h

-- One more call, in a stage that allows it.
ask_lem :
    (call : Call) (c : Client) (now next : Stage)
    → stage_of c ≡ some now
    → advance now call ≡ some next
    → stage_of (ask call c) ≡ some next
unfolding ask
ask_lem call c now next h a = stage_after-append c.calls call no_display now next h a

and_then-IsInOrder :
    (o : Outcome) (f : Client → Outcome)
    → IsInOrder o
    → ((c : Client) → stage_of c ≡ some ready → IsInOrder (f c))
    → IsInOrder (and_then o f)
unfolding and_then
and_then-IsInOrder (waiting c) f h k = k c h
and_then-IsInOrder (exited n c) f h k = h
and_then-IsInOrder (killed c) f h k = h

close_x-IsInOrder : (c : Client) → stage_of c ≡ some ready → IsInOrder (close_x c)
unfolding close_x
close_x-IsInOrder c h =
    let one = ask_lem free_gc c ready freed h refl in
    let two = ask_lem destroy_window _ freed destroyed one refl in
    (refl, ask_lem close_display _ destroyed closed two refl)

on_expose_lem :
    (e : Event) (c : Client) → stage_of c ≡ some ready → stage_of (on_expose e c) ≡ some ready
unfolding on_expose redraw
on_expose_lem (expose count) c h = elim (Bool-cases (count == 0)) [
  | inl last ↦ rw last (ask_lem clear_window c ready ready h refl)
  | inr more ↦ rw more h
]
on_expose_lem (key_press k) c h = h
on_expose_lem (button_press x y) c h = h
on_expose_lem other_event c h = h

module _ (lookup : ℕ → List ℕ) (rand : ℕ → ℕ) where
  pressed-IsInOrder :
      (chars : List ℕ) (c : Client)
      → stage_of c ≡ some ready
      → IsInOrder (pressed lookup rand chars c)
  unfolding pressed say
  pressed-IsInOrder [] c h = h
  pressed-IsInOrder (char ∷ []) c h = elim (Bool-cases (char == 113)) [
    | inl q ↦ rw q (close_x-IsInOrder c h)
    | inr other ↦ rw other h
  ]
  pressed-IsInOrder (char ∷ d ∷ ds) c h = h

  on_key-IsInOrder :
      (e : Event) (c : Client) → stage_of c ≡ some ready → IsInOrder (on_key lookup rand e c)
  unfolding on_key
  on_key-IsInOrder (expose count) c h = h
  on_key-IsInOrder (key_press k) c h = go (stored (lookup k) c.text)
    where
      go :
          (o : Option (List ℕ))
          → IsInOrder (elim o [
            | none ↦ killed c
            | some text ↦ pressed lookup rand (lookup k) (record c { text = text })
          ])
      go none = h
      go (some text) = pressed-IsInOrder (lookup k) (record c { text = text }) h
  on_key-IsInOrder (button_press x y) c h = h
  on_key-IsInOrder other_event c h = h

  draw-IsInOrder :
      (x y : ℤ) (c : Client) → stage_of c ≡ some ready → IsInOrder (draw lookup rand x y c)
  unfolding draw
  draw-IsInOrder x y c h = go (colour (rand c.rands) x)
    where
      go :
          (o : Option ℕ)
          → IsInOrder (elim o [
            | none ↦ killed (record c { rands = c.rands + 1 })
            | some n ↦ waiting (
                ask
                  (draw_string x y (up_to_nul c.text))
                  (ask (set_foreground n) (record c { rands = c.rands + 1 })))
          ])
      go none = h
      go (some n) =
          let next : Client = record c { rands = c.rands + 1 } in
          ask_lem (draw_string x y (up_to_nul c.text)) (ask (set_foreground n) next) ready ready
            (ask_lem (set_foreground n) next ready ready h refl) refl

  on_button-IsInOrder :
      (e : Event) (c : Client) → stage_of c ≡ some ready → IsInOrder (on_button lookup rand e c)
  unfolding on_button
  on_button-IsInOrder (expose count) c h = h
  on_button-IsInOrder (key_press k) c h = h
  on_button-IsInOrder (button_press x y) c h = go (stored is_fun c.text)
    where
      go :
          (o : Option (List ℕ))
          → IsInOrder (elim o [
            | none ↦ killed c
            | some text ↦ draw lookup rand x y (record c { text = text })
          ])
      go none = h
      go (some text) = draw-IsInOrder x y (record c { text = text }) h
  on_button-IsInOrder other_event c h = h

  turn-IsInOrder :
      (e : Event) (c : Client) → stage_of c ≡ some ready → IsInOrder (turn lookup rand e c)
  unfolding turn say
  turn-IsInOrder e c h =
      and_then-IsInOrder _ (on_button lookup rand e) (on_key-IsInOrder e _ (on_expose_lem e _ h))
        (λ d h'. on_button-IsInOrder e d h')

  run-IsInOrder :
      (es : List Event) (c : Client) → stage_of c ≡ some ready → IsInOrder (run lookup rand es c)
  unfolding run
  run-IsInOrder [] c h = h
  run-IsInOrder (e ∷ es) c h =
      and_then-IsInOrder (turn lookup rand e c) (run lookup rand es) (turn-IsInOrder e c h)
        (λ d h'. run-IsInOrder es d h')

  -- Whatever events come, whatever keys give and whatever rand returns, where the display opens,
  -- src/copyable-functions/x11main.c asks the display for nothing before it has made what it needs
  -- or after it has given it back: waiting or killed it has display, window and context, and when
  -- it has ended it has freed all three in the reverse order and returned 1.
  pub main-IsInOrder :
      (black white : ℕ) (text : List ℕ) (es : List Event)
      → IsInOrder (main lookup rand true black white text es)
  unfolding main init_x ask and_then
  main-IsInOrder black white text es = run-IsInOrder es _ refl
