-- ===== src/Smc/Report.antt =====
-- The lines that `test` of src/smc*.cpp prints, and the set of failures of src/smc.cpp.
use Prim.Native.String.{String}
use fex_assorted_tests_bins.Prelude.{
  ℕ, ◌*◌, ◌^◌, bit_or, Bool, true, not, ◌&&◌, List, [], ◌∷◌, ◌++◌, ◌≡◌, ◌≢◌, ◌↔◌, refl, arith, ◌==◌,
  length, if◌then◌else◌,
}
use fex_assorted_tests_bins.Smc.Stub.{Values, expected}

-- `printf("%s-1: %X, %s\n", name, e, e != want ? "FAIL" : "PASS")`
pub record Verdict : Type 0 where
  pub name : String
  pub index : ℕ
  pub value : ℕ
  pub pass : Bool

abbrev pub verdict : String → ℕ → ℕ → ℕ → Verdict
verdict name index value want = record {
  name = name;
  index = index;
  value = value;
  pass = not (not (value == want));
}

abbrev pub all_pass : List Verdict → Bool
all_pass [] = true
all_pass (v ∷ vs) = v.pass && all_pass vs

unfoldable pub report_two : String → ℕ × ℕ → List Verdict
report_two name (e1, e2) = verdict name 1 e1 0xDDCCBBAA ∷ verdict name 2 e2 0xDDFEBBAA ∷ []

unfoldable pub report_four : String → Values → List Verdict
report_four name v =
    verdict name 1 v.e1 0xDDCCBBAA
    ∷ verdict name 2 v.e2 0xDDFEBBAA
    ∷ verdict name 3 v.e3 0xDDF3BBAA
    ∷ verdict name 4 v.e4 0xDDF1BBAA
    ∷ []

-- `(e != want) << k`
abbrev failed_bit : ℕ → ℕ → ℕ → ℕ
failed_bit e want k = (if not (e == want) then 1 else 0) * 2 ^ k

-- The `|=` of `test` in src/smc.cpp, each of which looks at `e1`.
unfoldable pub failure_set : Values → ℕ
failure_set v =
    bit_or
      (bit_or (bit_or (bit_or 0 (failed_bit v.e1 0xDDCCBBAA 0)) (failed_bit v.e1 0xDDFEBBAA 1))
        (failed_bit v.e1 0xDDF3BBAA 2))
      (failed_bit v.e1 0xDDF1BBAA 3)

-- Every line says PASS exactly if the four calls returned what was written.
pub report_four_iff :
    (name : String) (v : Values) → (all_pass (report_four name v) ≡ true) ↔ (v ≡ expected)
unfolding report_four
report_four_iff name v = (ground arith, ground arith)

pub report_two_iff :
    (name : String) (v : ℕ × ℕ)
    → (all_pass (report_two name v) ≡ true) ↔ (v ≡ (expected.e1, expected.e2))
unfolding report_two
report_two_iff name (e1, e2) = (ground arith, ground arith)

pub length-report_four : (name : String) (v : Values) → length (report_four name v) ≡ 4
unfolding report_four
length-report_four name v = refl

pub failure_set-ne-zero : (v : Values) → failure_set v ≢ 0
unfolding failure_set
failure_set-ne-zero v h = ground arith

pub failure_set_of_expected : (v : Values) → v.e1 ≡ expected.e1 → failure_set v ≡ 14
unfolding failure_set
failure_set_of_expected v h = ground arith

pub append-all_pass :
    (xs ys : List Verdict) → all_pass xs ≡ true → all_pass ys ≡ true → all_pass (xs ++ ys) ≡ true
append-all_pass [] ys h k = k
append-all_pass (x ∷ xs) ys h k = ground (arith, append-all_pass xs ys)
