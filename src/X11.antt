-- ===== src/X11.antt =====
-- src/copyable-functions/x11main.c: a client of X that waits for events, draws where a button is pressed,
-- and ends on a `q`. The X library, its events and libc's rand are outside of the program.
pub mod Drawing
pub mod Ends
pub mod Protocol
use fex_assorted_tests_bins.Prelude.{
  ℕ, zero, suc, ◌+◌, ◌%◌, ℤ, pos, negsuc, Bool, true, false, Option, none, some, List, [], ◌∷◌,
  ◌++◌, ◌==◌, if◌then◌else◌,
}

-- The event types of the mask, with the fields that `main` reads, and any other.
pub data Event : Type 0 where
  expose : (count : ℕ) → Event
  key_press : (keycode : ℕ) → Event
  button_press : (x y : ℤ) → Event
  other_event : Event

-- What the program asks of the display.
pub data Call : Type 0 where
  open_display create_window set_properties select_input create_gc : Call
  set_background set_foreground : ℕ → Call
  clear_window map_raised : Call
  draw_string : ℤ → ℤ → List ℕ → Call
  free_gc destroy_window close_display : Call

-- What `pred` prints, and "You pressed the %c key!\n".
pub data Line : Type 0 where
  pred_line : Line
  pressed_line : ℕ → Line

-- `text`, how often rand was called, what was asked and what was printed.
pub record Client : Type 0 where
  pub text : List ℕ
  pub rands : ℕ
  pub calls : List Call
  pub printed : List Line

-- The program waits for an event, has called `exit`, or was killed by a signal.
pub data Outcome : Type 0 where
  waiting : Client → Outcome
  exited : ℕ → Client → Outcome
  killed : Client → Outcome

unfoldable pub and_then : Outcome → (Client → Outcome) → Outcome
and_then (waiting c) f = f c
and_then (exited n c) f = exited n c
and_then (killed c) f = killed c

unfoldable pub ask : Call → Client → Client
ask call c = record c { calls = c.calls ++ call ∷ [] }

unfoldable pub say : Line → Client → Client
say line c = record c { printed = c.printed ++ line ∷ [] }

-- Bytes stored from the start of a buffer; `none` is a store behind its end.
unfoldable pub stored : List ℕ → List ℕ → Option (List ℕ)
stored [] text = some text
stored (b ∷ bs) [] = none
stored (b ∷ bs) (t ∷ text) = elim (stored bs text) [ none ↦ none | some text' ↦ some (b ∷ text') ]

-- The bytes that `strlen` counts.
unfoldable pub up_to_nul : List ℕ → List ℕ
up_to_nul [] = []
up_to_nul (b ∷ bs) = if b == 0 then [] else b ∷ up_to_nul bs

-- "X is FUN!", as strcpy copies it
abbrev pub is_fun : List ℕ
is_fun = 88 ∷ 32 ∷ 105 ∷ 115 ∷ 32 ∷ 70 ∷ 85 ∷ 78 ∷ 33 ∷ 0 ∷ []

-- `rand() % x % 255`; the remainder by 0 is a signal.
unfoldable pub colour : ℕ → ℤ → Option ℕ
colour r (pos zero) = none
colour r (pos (suc n)) = some (r % suc n % 255)
colour r (negsuc n) = some (r % suc n % 255)

unfoldable pub redraw : Client → Client
redraw c = ask clear_window c

unfoldable pub close_x : Client → Outcome
close_x c = exited 1 (ask close_display (ask destroy_window (ask free_gc c)))

-- The first `if` of the loop.
unfoldable pub on_expose : Event → Client → Client
on_expose (expose count) c = if count == 0 then redraw c else c
on_expose e c = c

-- `init_x`, whose macros read `dis` behind XOpenDisplay; with what that returned, and the two colours.
unfoldable pub init_x : Bool → ℕ → ℕ → Client → Outcome
init_x false black white c = killed (ask open_display c)
init_x true black white c =
    let opened = ask create_window (ask open_display c) in
    let made = ask create_gc (ask select_input (ask set_properties opened)) in
    let coloured = ask (set_foreground black) (ask (set_background white) made) in
    waiting (ask map_raised (ask clear_window coloured))

-- `lookup` gives the bytes that `XLookupString` has for a key, where it may store 255 of them.
module _ (lookup : ℕ → List ℕ) (rand : ℕ → ℕ) where
  -- The second `if`, behind XLookupString, which has returned the number of the bytes and has stored
  -- them: a single one is `text[0]`.
  unfoldable pub pressed : List ℕ → Client → Outcome
  pressed (char ∷ []) c = if char == 113 then close_x c else waiting (say (pressed_line char) c)
  pressed chars c = waiting c

  unfoldable pub on_key : Event → Client → Outcome
  on_key (key_press keycode) c = elim (stored (lookup keycode) c.text) [
    | none ↦ killed c
    | some text ↦ pressed (lookup keycode) (record c { text = text })
  ]
  on_key e c = waiting c

  unfoldable pub draw : ℤ → ℤ → Client → Outcome
  draw x y c = elim (colour (rand c.rands) x) [
    | none ↦ killed (record c { rands = c.rands + 1 })
    | some n ↦ waiting (
        ask (draw_string x y (up_to_nul c.text))
          (ask (set_foreground n) (record c { rands = c.rands + 1 })))
  ]

  -- The third `if`.
  unfoldable pub on_button : Event → Client → Outcome
  on_button (button_press x y) c = elim (stored is_fun c.text) [
    | none ↦ killed c
    | some text ↦ draw x y (record c { text = text })
  ]
  on_button e c = waiting c

  -- One pass of the loop, with the call of `pred` in XIfEvent.
  unfoldable pub turn : Event → Client → Outcome
  turn e c = and_then (on_key e (on_expose e (say pred_line c))) (on_button e)

  unfoldable pub run : List Event → Client → Outcome
  run [] c = waiting c
  run (e ∷ es) c = and_then (turn e c) (run es)

  -- `main`, with what is in `text` at its start.
  unfoldable pub main : Bool → ℕ → ℕ → List ℕ → List Event → Outcome
  main opens black white text es =
      let start : Client = record { text = text; rands = 0; calls = []; printed = [] } in
      and_then (init_x opens black white start) (run es)
