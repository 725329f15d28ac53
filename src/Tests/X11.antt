-- ===== src/Tests/X11.antt =====
-- Runs of src/copyable-functions/x11main.c.
use fex_assorted_tests_bins.Prelude.{
  ℕ, zero, suc, ◌≡◌, ◌≢◌, refl, ap, pos, negsuc, List, [], ◌∷◌, ◌++◌, true, ◌*◌, ◌+◌, arith,
}
use fex_assorted_tests_bins.X11.{
  Event, expose, key_press, button_press, free_gc, destroy_window, close_display, Client, exited,
  killed, main,
}
use fex_assorted_tests_bins.X11.Drawing.{startup, requests}
use fex_assorted_tests_bins.X11.Protocol.{IsInOrder, main-IsInOrder}
use fex_assorted_tests_bins.X11.Ends.{main_quits, main_crashes}

-- A key's code is its character.
abbrev characters : ℕ → List ℕ
characters k = k ∷ []

abbrev rand : ℕ → ℕ
rand n = 1_804_289_383 + n * 846_930_886

abbrev zeros : ℕ → List ℕ
zeros zero = []
zeros (suc n) = 0 ∷ zeros n

abbrev drawing : List Event
drawing = expose 1 ∷ expose 0 ∷ key_press 97 ∷ button_press (pos 300) (negsuc 0) ∷ []

abbrev first : List ℕ → ℕ
first [] = 0
first (x ∷ xs) = x

right_of : (n : ℕ) → pos (suc n) ≢ pos 0
right_of n h = cc

not_q : ◌≢◌ {A = List ℕ} (97 ∷ []) (113 ∷ [])
not_q h = let e : ◌≡◌ {A = ℕ} 97 113 = ap first h in omega (arith, e)

main_quits_example :
    (c : Client) × (main characters rand true 0 16_777_215
        (zeros 255)
        (drawing ++ key_press 113 ∷ expose 0 ∷ [])
      ≡ exited 1 c)
    × (c.calls
        ≡ startup 0 16_777_215
          ++ requests characters rand 0 drawing
          ++ (free_gc ∷ destroy_window ∷ close_display ∷ []))
main_quits_example =
    main_quits characters rand 0 16_777_215 113 (zeros 255) drawing (expose 0 ∷ [])
      (tt, (tt, ((omega arith, not_q), (right_of 299, tt)))) refl refl

main_crashes_example :
    (c : Client) × (main characters rand true 0 16_777_215
        (zeros 255)
        (drawing ++ button_press (pos 0) (pos 7) ∷ [])
      ≡ killed c)
    × (c.calls ≡ startup 0 16_777_215 ++ requests characters rand 0 drawing)
main_crashes_example =
    main_crashes characters rand 0 16_777_215 (pos 7) (zeros 255) drawing []
      (tt, (tt, ((omega arith, not_q), (right_of 299, tt)))) refl

main-IsInOrder_example : IsInOrder (main characters rand true 0 16_777_215 (zeros 255) drawing)
main-IsInOrder_example = main-IsInOrder characters rand 0 16_777_215 (zeros 255) drawing
