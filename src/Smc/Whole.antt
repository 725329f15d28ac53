-- ===== src/Smc/Whole.antt =====
-- `main` of src/smc.cpp: the test on a mapping, on the stack, on data and on code. It takes the
-- address that mmap returned, and those of `stack`, `data_sym` and `text_sym`, and is read without
-- EXECSTACK and OMAGIC.
use Prim.Native.String.{String}
use fex_assorted_tests_bins.Prelude.{
  ℕ, ◌+◌, ◌*◌, ◌/◌, ◌%◌, ◌^◌, ◌≤◌, none, some, List, ◌++◌, ◌≡◌, refl, arith, if◌then◌else◌, ◌∙◌, ap,
  ◌⊎◌, inl, inr,
}
use fex_assorted_tests_bins.Smc.Machine.{
  IsAligned, Machine, View, within, protected, IsWindow, IsCoherent,
}
use fex_assorted_tests_bins.Smc.Action.{
  ◌>>=◌, ◌>>◌, pure, Action, protect, Runs, Runs-bind, Runs-protect,
}
use fex_assorted_tests_bins.Smc.Stub.{
  expected, read_write_exec, protected-MayWrite, protected-MayRun, four_view,
}
use fex_assorted_tests_bins.Smc.Report.{Verdict, report_four}
use fex_assorted_tests_bins.Smc.Programs.{test_set}
use fex_assorted_tests_bins.Smc.Verdicts.{IsCodePage, Runs-test_set}

-- `((uintptr_t)a + 4095) & ~4095`
abbrev pub align : ℕ → ℕ
align a = (a + 4095) % 2 ^ 64 / 4096 * 4096

module _ (m : Machine) where
  open m use {State, view, munmap}

  unfoldable pub unmap : ℕ → Action m (Unit {0})
  unmap a s = some (tt, munmap a 4096 s)

  -- The rights of the page, and the test on it.
  unfoldable pub test_protected : ℕ → String → Action m (ℕ × List Verdict)
  test_protected code name = do protect m code 4096 read_write_exec; test_set m code name

  -- `main`, with the lines that it prints; what each test returns is dropped.
  unfoldable pub smc_main : ℕ → ℕ → ℕ → ℕ → Action m (ℕ × List Verdict)
  smc_main code stack data_sym text_sym = do
    mapped ← test_set m code "mmap"
    unmap code
    on_stack ← test_protected (align stack) "stack"
    in_data ← test_protected (align data_sym) "data_sym"
    in_text ← test_protected (align text_sym) "text_sym"
    pure (0, mapped.1 ++ on_stack.1 ++ in_data.1 ++ in_text.1)

-- One page without its mapping.
abbrev pub unmapped : View → ℕ → View
unmapped v a = record v { phys = λ x. if within a 4096 x then none else v.phys x }

-- What munmap does to a page.
abbrev pub IsUnmapping : Machine → Type 0
IsUnmapping m =
    (a : ℕ) (s : m.State) → IsAligned a → m.view (m.munmap a 4096 s) ≡ unmapped (m.view s) a

-- Two pages without a common address.
abbrev pub AreApart : ℕ → ℕ → Type 0
AreApart a b = (a + 4096 ≤ b) ⊎ (b + 4096 ≤ a)

unmapped-IsWindow :
    (v : View) (a b p : ℕ) → AreApart a b → IsWindow v b p 4096 → IsWindow (unmapped v a) b p 4096
unmapped-IsWindow v a b p (inl apart) w i lt = ground (arith, w i lt)
unmapped-IsWindow v a b p (inr apart) w i lt = ground (arith, w i lt)

abbrev pub all_expected : List Verdict
all_expected =
    report_four "mmap" expected
    ++ report_four "stack" expected
    ++ report_four "data_sym" expected
    ++ report_four "text_sym" expected

-- Memory behind a test that sets the rights itself.
abbrev pub tested : View → ℕ → ℕ → View
tested v code p = four_view (protected v code read_write_exec) code p

align-IsAligned : (a : ℕ) → IsAligned (align a)
align-IsAligned a = omega arith

module _ (m : Machine) (law : IsCoherent m) where
  open m use {State, view}

  Runs-test_protected :
      (code p : ℕ) (name : String) {s : State} {v : View}
      → view s ≡ v
      → IsAligned code
      → IsWindow v code p 4096
      → Runs m (test_protected m code name s) (14, report_four name expected) (tested v code p)
  unfolding test_protected
  Runs-test_protected code p name {v = v} h aligned page =
      Runs-bind m _ _ (Runs-protect m law code p read_write_exec h aligned page) λ _ h.
        Runs-test_set m law code p name h (record {
          aligned = aligned;
          page = page;
          writes = protected-MayWrite v code read_write_exec refl;
          runs = protected-MayRun v code read_write_exec refl;
        })

  Runs-unmap :
      (a : ℕ) {s : State} {v : View}
      → IsUnmapping m
      → IsAligned a
      → view s ≡ v
      → Runs m (unmap m a s) tt (unmapped v a)
  unfolding unmap
  Runs-unmap a {s} un al h =
      (m.munmap a 4096 s, refl, un a s al ∙ ap {A = View} (λ v. unmapped v a) h)

  -- On a coherent machine whose mprotect and munmap ask for an aligned address, and whose munmap
  -- takes one page away, where mmap returned a page that may be written and run, and the aligned
  -- pages of stack, data_sym and text_sym are mapped and apart from it, main of src/smc.cpp prints
  -- PASS in all its sixteen lines, and returns 0.
  pub Runs-smc_main :
      (code stack data_sym text_sym p q r t : ℕ) {s : State} {v : View}
      → IsUnmapping m
      → view s ≡ v
      → IsCodePage v code p
      → IsWindow v (align stack) q 4096
      → IsWindow v (align data_sym) r 4096
      → IsWindow v (align text_sym) t 4096
      → AreApart code (align stack)
      → AreApart code (align data_sym)
      → AreApart code (align text_sym)
      → Runs m
          (smc_main m code stack data_sym text_sym s)
          (0, all_expected)
          (tested
            (tested
              (tested (unmapped (four_view v code p) code) (align stack) q)
              (align data_sym)
              r)
            (align text_sym)
            t)
  unfolding smc_main
  Runs-smc_main code stack data_sym text_sym p q r t {v = v} un h c on in_data in_text a b d =
      Runs-bind m _ _ (Runs-test_set m law code p "mmap" h c) λ _ h.
        Runs-bind m _ _ (Runs-unmap code un c.aligned h) λ _ h.
          Runs-bind m _ _
            (Runs-test_protected (align stack) q "stack" h (align-IsAligned stack)
              (unmapped-IsWindow (four_view v code p) code (align stack) q a on))
            λ _ h.
              Runs-bind m _ _
                (Runs-test_protected (align data_sym) r "data_sym" h (align-IsAligned data_sym)
                  (unmapped-IsWindow (four_view v code p) code (align data_sym) r b in_data))
                λ _ h.
                  Runs-bind m _ _
                    (Runs-test_protected (align text_sym) t "text_sym" h (align-IsAligned text_sym)
                      (unmapped-IsWindow (four_view v code p) code (align text_sym) t d in_text))
                    λ u h. (u, refl, h)
