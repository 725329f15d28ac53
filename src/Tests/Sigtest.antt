-- ===== src/Tests/Sigtest.antt =====
-- Runs of src/signals/sigtest.cpp, sigtest2.cpp and sigtest3.cpp.
use fex_assorted_tests_bins.Prelude.{
  ℕ, ◌≡◌, refl, Bool, none, some, [], ◌∷◌, ◌++◌, ltb, if◌then◌else◌,
}
use fex_assorted_tests_bins.Sigtest.{
  pass, stop, loop_main, end_of_input, outside, interrupt, read_main, signaled_called,
  about_to_sigact, about_to_sigsegv, after_sigsegv, rax, other_reg, Cell, redirect_main,
}
use fex_assorted_tests_bins.Sigtest.Ending.{loop_ends, read_ends, main_status}
use fex_assorted_tests_bins.Sigtest.Redirected.{main_redirected}

-- With SA_RESTART a signal outside of the read and one inside of it do not end it, and the end of the input does.
main_status_example :
    ((read_main 2 (outside ∷ interrupt ∷ end_of_input ∷ [])).status
      ≡ (if read_ends (ltb 1 2) (outside ∷ interrupt ∷ end_of_input ∷ []) then some 0 else none))
    × ((loop_main (pass ∷ stop ∷ pass ∷ [])).status
        ≡ (if loop_ends (pass ∷ stop ∷ pass ∷ []) then some 0 else none))
main_status_example =
    main_status 2 (outside ∷ interrupt ∷ end_of_input ∷ []) (pass ∷ stop ∷ pass ∷ [])

abbrev above : ℕ → Bool
above a = ltb 4095 a

abbrev cell : Cell
cell = record { t = 9; regs = λ r. 0; word = λ a. 0; printed = [] }

main_redirected_example :
    ((d : Cell) × (redirect_main 8192 above rax 2 cell ≡ some d)
      × (d.word 8192 ≡ 32)
      × (d.t ≡ 8192)
      × (d.printed
          ≡ (cell.printed ++ (about_to_sigact ∷ about_to_sigsegv ∷ []))
            ++ (signaled_called ∷ [])
            ++ (after_sigsegv ∷ [])))
    × (redirect_main 8192 above other_reg 0 cell ≡ none)
main_redirected_example = main_redirected 8192 0 above cell refl refl
