-- ===== src/Copyable/Program.antt =====
-- src/copyable-functions/template-test.cpp as loaded, and single calls of its instances.
use fex_assorted_tests_bins.Prelude.{
  ℕ, suc, ◌+◌, ◌^◌, ◌<◌, ◌≡◌, ◌≢◌, refl, ◌∙◌, true, false, none, some, ◌∷◌, ◌==◌, arith,
}
use fex_assorted_tests_bins.Copyable.{
  section_size, code_offset, call, Run, Text, marshaler, marshaler2, marshalled, marshalled_2,
}
use fex_assorted_tests_bins.Copyable.Bytes.{Memory}
use fex_assorted_tests_bins.Copyable.Bound.{call-IsCopy, call-function, IsFresh, apart, ==_refl}
use fex_assorted_tests_bins.Copyable.Lives.{IsLater, IsLoaded, IsLater-IsLoaded, Lives}
use fex_assorted_tests_bins.Copyable.Template.{
  Linked, one, two, test_func_marshaler, test_func2_marshaler, test_func_to_call_1,
  test_func_to_call_2, test_func2_to_call_2,
}

pub record IsProgram (l : Linked) (image image2 : ℕ → ℕ) (m : Memory) : Type 0 where
  pub loaded : IsLoaded l.one_name image m
  pub loaded2 : IsLoaded l.two_name image2 m
  pub mapped_1 : m.mapped l.to_call_1_at ≡ true
  pub mapped_2 : m.mapped l.to_call_2_at ≡ true
  pub mapped2_2 : m.mapped l.to_call2_2_at ≡ true
  pub functions_apart : l.to_call_1_at ≢ l.to_call_2_at
  pub pointer_1 : l.to_call_1_at < 2 ^ 64
  pub pointer_2 : l.to_call_2_at < 2 ^ 64
  pub pointer2_2 : l.to_call2_2_at < 2 ^ 64
  pub pointer_marshaler : l.marshaler_at < 2 ^ 64
  pub pointer_marshaler2 : l.marshaler2_at < 2 ^ 64

module _ (l : Linked) (image image2 : ℕ → ℕ) where
  pub IsLater-IsProgram :
      (m m' : Memory) → IsLater m m' → IsProgram l image image2 m → IsProgram l image image2 m'
  IsLater-IsProgram m m' later k = record {
    loaded = IsLater-IsLoaded later k.loaded;
    loaded2 = IsLater-IsLoaded later k.loaded2;
    mapped_1 = later.mapped l.to_call_1_at k.mapped_1;
    mapped_2 = later.mapped l.to_call_2_at k.mapped_2;
    mapped2_2 = later.mapped l.to_call2_2_at k.mapped2_2;
    functions_apart = k.functions_apart;
    pointer_1 = k.pointer_1;
    pointer_2 = k.pointer_2;
    pointer2_2 = k.pointer2_2;
    pointer_marshaler = k.pointer_marshaler;
    pointer_marshaler2 = k.pointer_marshaler2;
  }

  -- An instance calls its target through the marshaler.
  pub call_one :
      (n base target : ℕ) (m : Memory) (a : ℕ) (b : Text) (f : ℕ → Text → Run)
      → Lives (one l image image2) base target l.marshaler_at m
      → (one l image image2).function (base + code_offset l.one_name) ≡ none
      → (one l image image2).function target ≡ some f
      → call (one l image image2) (suc (suc n)) m (base + code_offset l.one_name) a b
        ≡ some (marshalled marshaler a b target ∷ (f a b).0, (f a b).1)
  call_one n base target m a b f d o t =
      let it = ==_refl l.marshaler_at in
      let e = call-function (one l image image2) n target m a b f t in
      call-IsCopy (one l image image2) (suc n) base target l.marshaler_at m a b test_func_marshaler
        d.copy o (rw it refl)
      ∙ rw (e, test_func_marshaler) refl

  pub call_two :
      (n base target : ℕ) (m : Memory) (a : Text) (b : ℕ) (f : Text → ℕ → Run)
      → Lives (two l image image2) base target l.marshaler2_at m
      → (two l image image2).function (base + code_offset l.two_name) ≡ none
      → (two l image image2).function target ≡ some f
      → call (two l image image2) (suc (suc n)) m (base + code_offset l.two_name) a b
        ≡ some (marshalled_2 marshaler2 a b target ∷ (f a b).0, (f a b).1)
  call_two n base target m a b f d o t =
      let it = ==_refl l.marshaler2_at in
      let e = call-function (two l image image2) n target m a b f t in
      call-IsCopy (two l image image2) (suc n) base target l.marshaler2_at m a b
        test_func2_marshaler d.copy o (rw it refl)
      ∙ rw (e, test_func2_marshaler) refl

  -- Fresh addresses are not those of functions.
  pub one-IsFresh :
      (m : Memory) (a : ℕ)
      → IsProgram l image image2 m
      → IsFresh m a (section_size l.one_name)
      → (one l image image2).function (a + code_offset l.one_name) ≡ none
  one-IsFresh m a k f =
      let laid = k.loaded.laid_out in
      let free =
        f.unmapped (code_offset l.one_name)
          (omega (arith, laid.canonical_low, laid.canonical_high)) in
      let not_1 = apart m (a + code_offset l.one_name) l.to_call_1_at free k.mapped_1 in
      let not_2 = apart m (a + code_offset l.one_name) l.to_call_2_at free k.mapped_2 in
      rw (not_1, not_2) refl

  pub two-IsFresh :
      (m : Memory) (a : ℕ)
      → IsProgram l image image2 m
      → IsFresh m a (section_size l.two_name)
      → (two l image image2).function (a + code_offset l.two_name) ≡ none
  two-IsFresh m a k f =
      let laid = k.loaded2.laid_out in
      let free =
        f.unmapped (code_offset l.two_name)
          (omega (arith, laid.canonical_low, laid.canonical_high)) in
      let not_2 = apart m (a + code_offset l.two_name) l.to_call2_2_at free k.mapped2_2 in
      rw not_2 refl

  pub one-1 : (one l image image2).function l.to_call_1_at ≡ some test_func_to_call_1
  one-1 = let it = ==_refl l.to_call_1_at in rw it refl

  pub one-2 :
      l.to_call_1_at ≢ l.to_call_2_at
      → (one l image image2).function l.to_call_2_at ≡ some test_func_to_call_2
  one-2 d =
      let other : (l.to_call_2_at == l.to_call_1_at) ≡ false = ground (arith, d) in
      let it = ==_refl l.to_call_2_at in rw (other, it) refl

  pub two-2 : (two l image image2).function l.to_call2_2_at ≡ some test_func2_to_call_2
  two-2 = let it = ==_refl l.to_call2_2_at in rw it refl
