-- ===== src/X11/Drawing.antt =====
-- What src/copyable-functions/x11main.c draws, as long as nothing ends it.
use fex_assorted_tests_bins.Prelude.{
  ℕ, zero, suc, ◌+◌, ◌%◌, ◌≤◌, ◌≡◌, ◌≢◌, refl, sym, ◌∙◌, ap, ℤ, pos, negsuc, some, List, [], ◌∷◌,
  ◌++◌, append_assoc, append-nil, length, ◌==◌, if◌then◌else◌, All, arith, Bool-cases, inl, inr,
}
use fex_assorted_tests_bins.X11.{
  Event, expose, key_press, button_press, other_event, Call, open_display, create_window,
  set_properties, select_input, create_gc, set_background, set_foreground, clear_window, map_raised,
  draw_string, pred_line, pressed_line, Client, waiting, and_then, ask, say, stored, up_to_nul,
  colour, is_fun, redraw, on_expose, pressed, on_key, draw, on_button, turn, run,
}

-- The bytes are in front of the others of the buffer, which keeps its size.
pub stored_lem :
    (bs text : List ℕ)
    → length bs ≤ length text
    → (rest : List ℕ) × (stored bs text ≡ some (bs ++ rest)) × (length (bs ++ rest) ≡ length text)
unfolding stored
stored_lem [] text h = (text, refl, refl)
stored_lem (b ∷ bs) [] h = absurd (omega arith)
stored_lem (b ∷ bs) (t ∷ text) h =
    let (rest, e, len) = stored_lem bs text (omega arith) in
    (rest, rw (e, stored) refl, omega (arith, len))

fun_lem :
    (rest : List ℕ) → up_to_nul (is_fun ++ rest) ≡ 88 ∷ 32 ∷ 105 ∷ 115 ∷ 32 ∷ 70 ∷ 85 ∷ 78 ∷ 33 ∷ []
unfolding up_to_nul
fun_lem rest = refl

-- The colour by a number that is not 0.
abbrev pub colour_of : ℕ → ℤ → ℕ
colour_of r (pos zero) = 0
colour_of r (pos (suc n)) = r % suc n % 255
colour_of r (negsuc n) = r % suc n % 255

colour_lem : (r : ℕ) (x : ℤ) → x ≢ pos 0 → colour r x ≡ some (colour_of r x)
unfolding colour
colour_lem r (pos zero) h = absurd (h refl)
colour_lem r (pos (suc n)) h = refl
colour_lem r (negsuc n) h = refl

-- What the program asks for when it starts.
abbrev pub startup : ℕ → ℕ → List Call
startup black white =
    open_display
    ∷ create_window
    ∷ set_properties
    ∷ select_input
    ∷ create_gc
    ∷ set_background white
    ∷ set_foreground black
    ∷ clear_window
    ∷ map_raised
    ∷ []

module _ (lookup : ℕ → List ℕ) (rand : ℕ → ℕ) where
  -- What it asks for at an event, behind so many calls of rand.
  abbrev pub request : ℕ → Event → List Call
  request n (expose count) = if count == 0 then clear_window ∷ [] else []
  request n (button_press x y) =
      set_foreground (colour_of (rand n) x)
      ∷ draw_string x y (88 ∷ 32 ∷ 105 ∷ 115 ∷ 32 ∷ 70 ∷ 85 ∷ 78 ∷ 33 ∷ [])
      ∷ []
  request n e = []

  abbrev pub rands_of : Event → ℕ
  rands_of (button_press x y) = 1
  rands_of e = 0

  abbrev pub requests : ℕ → List Event → List Call
  requests n [] = []
  requests n (e ∷ es) = request n e ++ requests (n + rands_of e) es

  -- An event that does not end the program: no `q`, and no press in the first column.
  abbrev pub Quiet : Event → Type 0
  Quiet (key_press k) = (length (lookup k) ≤ 255) × (lookup k ≢ 113 ∷ [])
  Quiet (button_press x y) = x ≢ pos 0
  Quiet e = Unit {0}

  -- From `c` to `d`, with these requests.
  pub record Draws (c d : Client) (calls : List Call) (presses : ℕ) : Type 0 where
    pub calls_are : d.calls ≡ c.calls ++ calls
    pub rands_are : d.rands ≡ c.rands + presses
    pub size : length d.text ≡ length c.text

  pressed_lem :
      (chars : List ℕ) (c : Client)
      → chars ≢ 113 ∷ []
      → (d : Client) × (pressed lookup rand chars c ≡ waiting d) × Draws c d [] 0
  unfolding pressed say
  pressed_lem [] c h = (
    c,
    refl,
    record { calls_are = sym (append-nil c.calls); rands_are = omega arith; size = refl },
  )
  pressed_lem (char ∷ []) c h = elim (Bool-cases (char == 113)) [
    | inl q ↦ absurd (h (let e : char ≡ 113 = ground arith in ap (λ x. x ∷ []) e))
    | inr other ↦ (
      say (pressed_line char) c,
      rw other refl,
      record { calls_are = sym (append-nil c.calls); rands_are = omega arith; size = refl },
    )
  ]
  pressed_lem (char ∷ d ∷ ds) c h = (
    c,
    refl,
    record { calls_are = sym (append-nil c.calls); rands_are = omega arith; size = refl },
  )

  draw_lem :
      (x y : ℤ) (rest : List ℕ) (c : Client)
      → x ≢ pos 0
      → c.text ≡ is_fun ++ rest
      → (d : Client) × (draw lookup rand x y c ≡ waiting d)
        × Draws c d (request c.rands (button_press x y)) 1
  unfolding draw ask
  draw_lem x y rest c h e =
      let drawn = ap up_to_nul e ∙ fun_lem rest in
      let next : Client = record c { rands = c.rands + 1 } in
      (
        ask (draw_string x y (up_to_nul c.text))
            (ask (set_foreground (colour_of (rand c.rands) x)) next),
        rw (colour_lem (rand c.rands) x h, draw) refl,
        record {
          calls_are =
              append_assoc c.calls (set_foreground (colour_of (rand c.rands) x) ∷ [])
                (draw_string x y (up_to_nul c.text) ∷ [])
              ∙ ap
                  (λ bs.
                    c.calls
                    ++ set_foreground (colour_of (rand c.rands) x) ∷ draw_string x y bs ∷ [])
                  drawn;
          rands_are = refl;
          size = refl;
        },
      )

  turn_lem :
      (e : Event) (c : Client)
      → Quiet e
      → length c.text ≡ 255
      → (d : Client) × (turn lookup rand e c ≡ waiting d)
        × Draws c d (request c.rands e) (rands_of e)
  unfolding turn on_key on_button on_expose and_then redraw say ask
  turn_lem (expose count) c q len = elim (Bool-cases (count == 0)) [
    | inl last ↦ (
      ask clear_window (say pred_line c),
      rw last refl,
      rw last (record { calls_are = refl; rands_are = omega arith; size = refl }),
    )
    | inr more ↦ (
      say pred_line c,
      rw more refl,
      rw more
          (record { calls_are = sym (append-nil c.calls); rands_are = omega arith; size = refl }),
    )
  ]
  turn_lem (key_press k) c q len =
      let (rest, e, size) = stored_lem (lookup k) c.text (omega (arith, q.0, len)) in
      let kept : Client = record (say pred_line c) { text = lookup k ++ rest } in
      let (d, e', h) = pressed_lem (lookup k) kept q.1 in
      (
        d,
        rw (e, on_key) (ap (λ o. and_then o (on_button lookup rand (key_press k))) e'),
        record { calls_are = h.calls_are; rands_are = h.rands_are; size = h.size ∙ size },
      )
  turn_lem (button_press x y) c q len =
      let (rest, e, size) = stored_lem is_fun c.text (omega (arith, len)) in
      let (d, e', h) =
        draw_lem x y rest (record (say pred_line c) { text = is_fun ++ rest }) q refl in
      (
        d,
        rw (e, on_button) e',
        record { calls_are = h.calls_are; rands_are = h.rands_are; size = h.size ∙ size },
      )
  turn_lem other_event c q len = (
    say pred_line c,
    refl,
    record { calls_are = sym (append-nil c.calls); rands_are = omega arith; size = refl },
  )

  pub run_lem :
      (es : List Event) (c : Client)
      → All Quiet es
      → length c.text ≡ 255
      → (d : Client) × (run lookup rand es c ≡ waiting d)
        × (d.calls ≡ c.calls ++ requests c.rands es)
        × (length d.text ≡ 255)
  unfolding run and_then
  run_lem [] c q len = (c, refl, sym (append-nil c.calls), len)
  run_lem (e ∷ es) c q len =
      let (d, ed, h) = turn_lem e c q.0 len in
      let (f, ef, calls, len') = run_lem es d q.1 (h.size ∙ len) in
      (
        f,
        ap (λ o. and_then o (run lookup rand es)) ed ∙ ef,
        calls
            ∙ ap (λ cs. cs ++ requests d.rands es) h.calls_are
            ∙ append_assoc c.calls (request c.rands e) (requests d.rands es)
            ∙ ap {A = ℕ} (λ n. c.calls ++ (request c.rands e ++ requests n es)) h.rands_are,
        len',
      )
