-- ===== src/X11/Ends.antt =====
-- How `main` of src/copyable-functions/x11main.c ends, and what it has drawn until then.
use fex_assorted_tests_bins.Prelude.{
  ℕ, ◌+◌, ◌≤◌, ◌≡◌, refl, ◌∙◌, ap, ℤ, pos, true, List, [], ◌∷◌, ◌++◌, append_assoc, length, All,
  arith,
}
use fex_assorted_tests_bins.X11.{
  Event, key_press, button_press, free_gc, destroy_window, close_display, pred_line, Client,
  Outcome, waiting, exited, killed, and_then, ask, say, colour, is_fun, close_x, on_expose, init_x,
  pressed, on_key, draw, on_button, turn, run, main,
}
use fex_assorted_tests_bins.X11.Drawing.{startup, requests, Quiet, stored_lem, run_lem}

and_then_lem :
    (o : Outcome) (f g h : Client → Outcome)
    → ((c : Client) → f c ≡ and_then (g c) h)
    → and_then o f ≡ and_then (and_then o g) h
unfolding and_then
and_then_lem (waiting c) f g h e = e c
and_then_lem (exited n c) f g h e = refl
and_then_lem (killed c) f g h e = refl

module _ (lookup : ℕ → List ℕ) (rand : ℕ → ℕ) where
  run-append :
      (es es' : List Event) (c : Client)
      → run lookup rand (es ++ es') c ≡ and_then (run lookup rand es c) (run lookup rand es')
  unfolding run and_then
  run-append [] es' c = refl
  run-append (e ∷ es) es' c =
      and_then_lem (turn lookup rand e c) (run lookup rand (es ++ es')) (run lookup rand es)
        (run lookup rand es') (run-append es es')

  -- `main` as far as the events in `es` go.
  main_lem :
      (black white : ℕ) (text : List ℕ) (es es' : List Event)
      → All (Quiet lookup rand) es
      → length text ≡ 255
      → (c : Client) × (main lookup rand true black white text (es ++ es') ≡ run lookup rand es' c)
        × (c.calls ≡ startup black white ++ requests lookup rand 0 es)
        × (length c.text ≡ 255)
  unfolding main init_x and_then ask
  main_lem black white text es es' q len =
      let start : Client = record {
        text = text;
        rands = 0;
        calls = startup black white;
        printed = [];
      } in
      let (c, e, calls, len') = run_lem lookup rand es start q len in
      (c, run-append es es' start ∙ ap (λ o. and_then o (run lookup rand es')) e, calls, len')

  pressed_q : (c : Client) → pressed lookup rand (113 ∷ []) c ≡ close_x c
  unfolding pressed
  pressed_q c = refl

  turn_q :
      (k : ℕ) (c : Client)
      → lookup k ≡ 113 ∷ []
      → length c.text ≡ 255
      → (d : Client) × (turn lookup rand (key_press k) c ≡ exited 1 d)
        × (d.calls ≡ c.calls ++ (free_gc ∷ destroy_window ∷ close_display ∷ []))
  unfolding turn on_key on_expose and_then say ask close_x
  turn_q k c q len =
      let short : length (lookup k) ≤ length c.text = rw (q, len) (omega arith) in
      let (rest, e, size) = stored_lem (lookup k) c.text short in
      let kept : Client = record (say pred_line c) { text = lookup k ++ rest } in
      let closes = ap (λ chars. pressed lookup rand chars kept) q ∙ pressed_q kept in
      (
        ask close_display (ask destroy_window (ask free_gc kept)),
        rw (e, on_key) (ap (λ o. and_then o (on_button lookup rand (key_press k))) closes),
        append_assoc (c.calls ++ free_gc ∷ []) (destroy_window ∷ []) (close_display ∷ [])
            ∙ append_assoc c.calls (free_gc ∷ []) (destroy_window ∷ close_display ∷ []),
      )

  -- Where the display opens, no event before a q is a q, a press in column 0 or a key of more than
  -- 255 bytes, and the buffer has 255 bytes, main of src/copyable-functions/x11main.c exits with 1
  -- at the q, whatever events follow, and has asked for its startup, then for each event in order
  -- what that event asks for, the string X is FUN! in the colour of its column included, then for
  -- the three calls that free what it has.
  pub main_quits :
      (black white k : ℕ) (text : List ℕ) (es es' : List Event)
      → All (Quiet lookup rand) es
      → length text ≡ 255
      → lookup k ≡ 113 ∷ []
      → (c : Client) × (main lookup rand true black white text (es ++ key_press k ∷ es')
          ≡ exited 1 c)
        × (c.calls
            ≡ startup black white
              ++ requests lookup rand 0 es
              ++ (free_gc ∷ destroy_window ∷ close_display ∷ []))
  unfolding run and_then
  main_quits black white k text es es' q len key =
      let (c, e, calls, len') = main_lem black white text es (key_press k ∷ es') q len in
      let (d, e', calls') = turn_q k c key len' in
      (
        d,
        e ∙ ap (λ o. and_then o (run lookup rand es')) e',
        calls' ∙ ap (λ cs. cs ++ (free_gc ∷ destroy_window ∷ close_display ∷ [])) calls,
      )

  turn_first_column :
      (y : ℤ) (c : Client)
      → length c.text ≡ 255
      → (d : Client) × (turn lookup rand (button_press (pos 0) y) c ≡ killed d)
        × (d.calls ≡ c.calls)
  unfolding turn on_key on_button on_expose and_then say draw colour
  turn_first_column y c len =
      let (rest, e, size) = stored_lem is_fun c.text (omega (arith, len)) in
      (
        record (say pred_line c) { text = is_fun ++ rest; rands = c.rands + 1 },
        rw (e, on_button) refl,
        refl,
      )

  -- Where the display opens, no event before is a q, a press in column 0 or a key of more than 255
  -- bytes, and the buffer has 255 bytes, a press in column 0 kills src/copyable-functions/x11main.c
  -- by the remainder by zero, with its display, window and context not freed.
  pub main_crashes :
      (black white : ℕ) (y : ℤ) (text : List ℕ) (es es' : List Event)
      → All (Quiet lookup rand) es
      → length text ≡ 255
      → (c : Client) × (main lookup rand true black white text (es ++ button_press (pos 0) y ∷ es')
          ≡ killed c)
        × (c.calls ≡ startup black white ++ requests lookup rand 0 es)
  unfolding run and_then
  main_crashes black white y text es es' q len =
      let (c, e, calls, len') = main_lem black white text es (button_press (pos 0) y ∷ es') q len in
      let (d, e', calls') = turn_first_column y c len' in
      (d, e ∙ ap (λ o. and_then o (run lookup rand es')) e', calls' ∙ calls)
