-- ===== src/Copyable/Template.antt =====
-- src/copyable-functions/template-test.cpp: trampolines of two types, made by `make_one_name_instance` and
-- `make_two_name_instance`. A copy finds its pointers relative to itself.
use fex_assorted_tests_bins.Prelude.{
  ℕ, ◌+◌, ◌-◌, ◌^◌, Option, none, some, List, [], ◌∷◌, ◌++◌, ◌==◌, if◌then◌else◌,
}
use fex_assorted_tests_bins.Copyable.{
  Section, info_offset, int, Text, here_1, here_2, marshaler, marshaler2, to_call_1, to_call_2,
  to_call2_2, Line, called, marshalled, marshalled_2, rv, Run, Mmap, Family, make_instance, call,
  ◌>>=◌,
}
use fex_assorted_tests_bins.Copyable.Bytes.{Memory, inside}

-- Where the linker put the two sections and the functions whose addresses `main` takes.
pub record Linked : Type 0 where
  pub one_name : Section
  pub two_name : Section
  pub to_call_1_at : ℕ
  pub to_call_2_at : ℕ
  pub marshaler_at : ℕ
  pub to_call2_2_at : ℕ
  pub marshaler2_at : ℕ

abbrev pub test_func_to_call_1 : ℕ → Text → Run
test_func_to_call_1 a b = (called to_call_1 a b ∷ [], int (2 ^ 32 - 1))

abbrev pub test_func_to_call_2 : ℕ → Text → Run
test_func_to_call_2 a b = (called to_call_2 a b ∷ [], int (2 ^ 32 - 2))

abbrev pub test_func_marshaler : (ℕ → ℕ → Text → Option Run) → ℕ → Text → ℕ → Option Run
test_func_marshaler call_target a b fn_ptr = elim (call_target fn_ptr a b) [
  | none ↦ none
  | some r ↦ some (marshalled marshaler a b fn_ptr ∷ r.0, r.1)
]

abbrev pub test_func2_to_call_2 : Text → ℕ → Run
test_func2_to_call_2 b a = (called to_call2_2 a b ∷ [], int (2 ^ 32 - 2))

abbrev pub test_func2_marshaler : (ℕ → Text → ℕ → Option Run) → Text → ℕ → ℕ → Option Run
test_func2_marshaler call_target a b target = elim (call_target target a b) [
  | none ↦ none
  | some r ↦ some (marshalled_2 marshaler2 a b target ∷ r.0, r.1)
]

-- A trampoline's family, whose copies have the two pointers of their own.
abbrev pub trampoline :
    {A B : Type 0}
    → Section
    → (ℕ → ℕ)
    → (ℕ → Option (A → B → Run))
    → (ℕ → Option ((ℕ → A → B → Option Run) → A → B → ℕ → Option Run))
    → Family A B
trampoline s image function marshal = record {
  section = s;
  image = image;
  own = λ i. inside (info_offset s) 16 i;
  info_of = λ base m. base + info_offset s;
  function = function;
  marshal = marshal;
}

module _ (l : Linked) (image image2 : ℕ → ℕ) where
  abbrev pub one : Family ℕ Text
  one =
      trampoline l.one_name image
        (λ e.
          if e == l.to_call_1_at
          then some test_func_to_call_1
          else if e == l.to_call_2_at
          then some test_func_to_call_2
          else none)
        (λ e. if e == l.marshaler_at then some test_func_marshaler else none)

  abbrev pub two : Family Text ℕ
  two =
      trampoline l.two_name image2
        (λ e. if e == l.to_call2_2_at then some test_func2_to_call_2 else none)
        (λ e. if e == l.marshaler2_at then some test_func2_marshaler else none)

  -- `main`, whose calls have fuel `n`. Its last two lines print `rv1` and `rv2`.
  unfoldable pub main : Mmap → ℕ → Memory → Option (List Line)
  main mmap n m = do
    fn1 ← make_instance mmap l.one_name l.to_call_1_at l.marshaler_at m
    fn2 ← make_instance mmap l.one_name l.to_call_2_at l.marshaler_at fn1.memory
    fn3 ← make_instance mmap l.two_name l.to_call2_2_at l.marshaler2_at fn2.memory
    fn4 ← make_instance mmap l.two_name l.to_call2_2_at l.marshaler2_at fn3.memory
    rv1 ← call one n fn4.memory fn1.fn 1 here_1
    rv2 ← call one n fn4.memory fn2.fn 2 here_2
    rv3 ← call two n fn4.memory fn3.fn here_1 3
    rv4 ← call two n fn4.memory fn4.fn here_2 4
    some (
        fn1.lines
        ++ fn2.lines
        ++ fn3.lines
        ++ fn4.lines
        ++ rv1.0
        ++ rv 1 rv1.1 ∷ rv2.0
        ++ rv 2 rv2.1 ∷ rv3.0
        ++ rv 3 rv1.1 ∷ rv4.0
        ++ rv 4 rv2.1 ∷ [])
