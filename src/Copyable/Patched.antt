-- ===== src/Copyable/Patched.antt =====
-- src/copyable-functions/section-test.cpp with ADDR_PATCH: the copied function has the address of its
-- pointers as an immediate, which each copy gets written into.
use fex_assorted_tests_bins.Prelude.{
  ℕ, ◌+◌, ◌-◌, ◌^◌, Option, none, some, List, [], ◌∷◌, ◌++◌, ◌==◌, ◌||◌, Bool, if◌then◌else◌,
}
use fex_assorted_tests_bins.Copyable.{
  Section, section_size, code_offset, info_offset, int, Text, here_1, here_2, marshaler, to_call_1,
  to_call_2, Line, section_len, code_at, info_at, patch_at, patching, called, marshalled, rv, Run,
  Made, Mmap, Family, call, ◌>>=◌,
}
use fex_assorted_tests_bins.Copyable.Bytes.{Memory, inside, map_pages, memcpy, store, load}

-- Where the linker put the section, the patched instruction and the functions.
pub record Linked : Type 0 where
  pub section : Section
  pub patch : ℕ
  pub to_call_1_at : ℕ
  pub to_call_2_at : ℕ
  pub marshaler_at : ℕ

abbrev pub test_func_to_call_1 : ℕ → Text → Run
test_func_to_call_1 a b = (called to_call_1 a b ∷ [], int (2 ^ 32 - 1))

abbrev pub test_func_to_call_2 : ℕ → Text → Run
test_func_to_call_2 a b = (called to_call_2 a b ∷ [], int (2 ^ 32 - 2))

abbrev pub test_func_marshaler : (ℕ → ℕ → Text → Option Run) → ℕ → Text → ℕ → Option Run
test_func_marshaler call_target a b fn_ptr = elim (call_target fn_ptr a b) [
  | none ↦ none
  | some r ↦ some (marshalled marshaler a b fn_ptr ∷ r.0, r.1)
]

module _ (l : Linked) where
  abbrev pub patch_offset : ℕ
  patch_offset = l.patch - l.section.start

  -- `test_func_make_instance` behind its mmap.
  unfoldable pub bind_patched : ℕ → ℕ → ℕ → Memory → Made
  bind_patched instance fn_ptr fn_marshal m =
      let size = section_size l.section in
      let copied = memcpy instance l.section.start size (map_pages instance size m) in
      let info = instance + info_offset l.section in
      let patch = instance + patch_offset + 2 in
      let patched = store 8 patch info copied in
      record {
        fn = instance + code_offset l.section;
        lines =
            section_len (int size)
            ∷ code_at (int (code_offset l.section))
            ∷ info_at (int (info_offset l.section))
            ∷ patch_at (int patch_offset)
            ∷ patching patch (load 8 patch copied) info
            ∷ [];
        memory = store 8 (info + 8) fn_marshal (store 8 info fn_ptr patched);
      }

  unfoldable pub test_func_make_instance : Mmap → ℕ → ℕ → Memory → Option Made
  test_func_make_instance mmap fn_ptr fn_marshal m = elim (mmap (section_size l.section) m) [
    | none ↦ none
    | some instance ↦ some (bind_patched instance fn_ptr fn_marshal m)
  ]

  abbrev pub functions : ℕ → Option (ℕ → Text → Run)
  functions e =
      if e == l.to_call_1_at
      then some test_func_to_call_1
      else if e == l.to_call_2_at
      then some test_func_to_call_2
      else none

  abbrev pub marshalers : ℕ → Option ((ℕ → ℕ → Text → Option Run) → ℕ → Text → ℕ → Option Run)
  marshalers e = if e == l.marshaler_at then some test_func_marshaler else none

  -- The immediate and the two pointers.
  abbrev pub own : ℕ → Bool
  own i = inside (patch_offset + 2) 8 i || inside (info_offset l.section) 16 i

  -- `movabs` loads the immediate.
  abbrev pub family : (ℕ → ℕ) → Family ℕ Text
  family image = record {
    section = l.section;
    image = image;
    own = own;
    info_of = λ base m. load 8 (base + patch_offset + 2) m;
    function = functions;
    marshal = marshalers;
  }

  -- `main`, whose calls have fuel `n`.
  unfoldable pub main : Mmap → (ℕ → ℕ) → ℕ → Memory → Option (List Line)
  main mmap image n m = do
    fn1 ← test_func_make_instance mmap l.to_call_1_at l.marshaler_at m
    fn2 ← test_func_make_instance mmap l.to_call_2_at l.marshaler_at fn1.memory
    rv1 ← call (family image) n fn2.memory fn1.fn 1 here_1
    rv2 ← call (family image) n fn2.memory fn2.fn 2 here_2
    some (fn1.lines ++ fn2.lines ++ rv1.0 ++ rv 1 rv1.1 ∷ rv2.0 ++ rv 2 rv2.1 ∷ [])
