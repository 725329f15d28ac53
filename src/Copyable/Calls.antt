-- ===== src/Copyable/Calls.antt =====
-- `main` of src/copyable-functions/section-test.cpp: two instances, called one after the other.
use fex_assorted_tests_bins.Prelude.{
  ℕ, suc, ◌+◌, ◌-◌, ◌^◌, ◌<◌, ◌≡◌, ◌≢◌, refl, sym, subst, ◌∙◌, true, false, none, some, List, ◌∷◌,
  [], ◌++◌, ◌==◌, arith,
}
use fex_assorted_tests_bins.Copyable.{
  section_size, code_offset, Mmap, Line, rv, here_1, here_2, called, marshalled, marshaler,
  to_call_1, to_call_2, call, bind_some, Text, Run,
}
use fex_assorted_tests_bins.Copyable.Bytes.{Memory, load}
use fex_assorted_tests_bins.Copyable.Bound.{
  IsCopy, load_block, call-IsCopy, IsCopy-kept, IsFresh, fresh-IsOutside, apart, ==_refl,
}
use fex_assorted_tests_bins.Copyable.Patched.{
  Linked, bind_patched, test_func_make_instance, patch_offset, functions, family, main,
  test_func_marshaler, test_func_to_call_1, test_func_to_call_2,
}
use native.Mathlib.Nat.{add_assoc}
use fex_assorted_tests_bins.Copyable.Instances.{IsLinked, IsMade, bind_patched-IsMade}

module _ (l : Linked) (image : ℕ → ℕ) where
  -- The program stays as it was loaded.
  IsMade-IsLinked :
      (m m' : Memory) (a target : ℕ)
      → IsLinked l image m
      → IsFresh m a (section_size l.section)
      → IsMade l image m a target m'
      → IsLinked l image m'
  IsMade-IsLinked m m' a target k f d = record {
    laid_out = k.laid_out;
    patch_low = k.patch_low;
    patch_high = k.patch_high;
    patch_apart = k.patch_apart;
    bytes = λ i h.
        d.kept (l.section.start + i)
          (fresh-IsOutside m a (section_size l.section) (l.section.start + i) f (k.mapped i h))
        ∙ k.bytes i h;
    mapped = λ i h. d.mapped_kept (l.section.start + i) (k.mapped i h);
    mapped_1 = d.mapped_kept l.to_call_1_at k.mapped_1;
    mapped_2 = d.mapped_kept l.to_call_2_at k.mapped_2;
    functions_apart = k.functions_apart;
    pointer_1 = k.pointer_1;
    pointer_2 = k.pointer_2;
    pointer_marshaler = k.pointer_marshaler;
  }

  -- A second instance leaves the first.
  IsMade-IsCopy :
      (m m' m'' : Memory) (a b target target' : ℕ)
      → IsLinked l image m
      → IsMade l image m a target m'
      → IsFresh m' b (section_size l.section)
      → IsMade l image m' b target' m''
      → IsCopy (family l image) a target l.marshaler_at m''
  IsMade-IsCopy m m' m'' a b target target' k d f d' =
      let same : (i : ℕ) → i < section_size l.section → m''.byte (a + i) ≡ m'.byte (a + i) = λ i h.
        d'.kept (a + i)
          (fresh-IsOutside m' b (section_size l.section) (a + i) f (d.mapped_in i h)) in
      IsCopy-kept (family l image) a target l.marshaler_at m' m'' k.laid_out same
        (subst (λ x. load 8 x m'' ≡ load 8 x m') (sym (add_assoc a (patch_offset l) 2))
          (load_block 8 a (patch_offset l + 2) (section_size l.section) m' m''
            (omega (arith, k.patch_low, k.patch_high)) same))
        d.copy

  -- The address of an instance is not that of a function.
  functions-IsFresh :
      (m : Memory) (a : ℕ)
      → IsLinked l image m
      → IsFresh m a (section_size l.section)
      → functions l (a + code_offset l.section) ≡ none
  functions-IsFresh m a k f =
      let free : m.mapped (a + code_offset l.section) ≡ false =
        f.unmapped (code_offset l.section)
          (omega (arith, k.laid_out.canonical_low, k.laid_out.canonical_high)) in
      let not_1 : ((a + code_offset l.section) == l.to_call_1_at) ≡ false =
        apart m (a + code_offset l.section) l.to_call_1_at free k.mapped_1 in
      let not_2 : ((a + code_offset l.section) == l.to_call_2_at) ≡ false =
        apart m (a + code_offset l.section) l.to_call_2_at free k.mapped_2 in
      rw (not_1, not_2) refl

  -- doc
  pub call-copied :
      (n base target : ℕ) (m : Memory) (a : ℕ) (b : Text) (r : Run)
      → IsCopy (family l image) base target l.marshaler_at m
      → functions l (base + code_offset l.section) ≡ none
      → call (family l image) n m target a b ≡ some r
      → call (family l image) (suc n) m (base + code_offset l.section) a b
        ≡ some (marshalled marshaler a b target ∷ r.0, r.1)
  call-copied n base target m a b r c f e =
      call-IsCopy (family l image) n base target l.marshaler_at m a b test_func_marshaler c f
        (let it : (l.marshaler_at == l.marshaler_at) ≡ true = ==_refl l.marshaler_at in rw it refl)
      ∙ rw (e, test_func_marshaler) refl

  call_1_lem :
      (n : ℕ) (m : Memory) (a : ℕ) (b : Text)
      → call (family l image) (suc n) m l.to_call_1_at a b ≡ some (test_func_to_call_1 a b)
  unfolding call
  call_1_lem n m a b = let it = ==_refl l.to_call_1_at in rw (it, call) refl

  call_2_lem :
      (n : ℕ) (m : Memory) (a : ℕ) (b : Text)
      → l.to_call_1_at ≢ l.to_call_2_at
      → call (family l image) (suc n) m l.to_call_2_at a b ≡ some (test_func_to_call_2 a b)
  unfolding call
  call_2_lem n m a b d =
      let other : (l.to_call_2_at == l.to_call_1_at) ≡ false = ground (arith, d) in
      let it = ==_refl l.to_call_2_at in rw (other, it, call) refl

test_func_make_instance_lem :
    (l : Linked) (mmap : Mmap) (a target marshal : ℕ) (m : Memory)
    → mmap (section_size l.section) m ≡ some a
    → test_func_make_instance l mmap target marshal m ≡ some (bind_patched l a target marshal m)
unfolding test_func_make_instance
test_func_make_instance_lem l mmap a target marshal m e = rw (e, test_func_make_instance) refl

-- What the two calls print.
abbrev pub calls : Linked → List Line
calls l =
    marshalled marshaler 1 here_1 l.to_call_1_at
    ∷ called to_call_1 1 here_1
    ∷ rv 1 (2 ^ 32 - 1)
    ∷ marshalled marshaler 2 here_2 l.to_call_2_at
    ∷ called to_call_2 2 here_2
    ∷ rv 2 (2 ^ 32 - 2)
    ∷ []

module _ (l : Linked) (image : ℕ → ℕ) (n a b : ℕ) (m : Memory) (k : IsLinked l image m)
    (f : IsFresh m a (section_size l.section))
    (f' : IsFresh
      (bind_patched l a l.to_call_1_at l.marshaler_at m).memory
      b
      (section_size l.section)) where
  made : IsMade l image m a l.to_call_1_at (bind_patched l a l.to_call_1_at l.marshaler_at m).memory
  made = bind_patched-IsMade l image m a l.to_call_1_at k f k.pointer_1

  linked : IsLinked l image (bind_patched l a l.to_call_1_at l.marshaler_at m).memory
  linked = IsMade-IsLinked l image m _ a l.to_call_1_at k f made

  abbrev both : Memory
  both =
      (bind_patched l b l.to_call_2_at l.marshaler_at
        (bind_patched l a l.to_call_1_at l.marshaler_at m).memory).memory

  made_second :
      IsMade l image (bind_patched l a l.to_call_1_at l.marshaler_at m).memory b l.to_call_2_at both
  made_second = bind_patched-IsMade l image _ b l.to_call_2_at linked f' k.pointer_2

  call_first :
      call (family l image) (suc (suc n)) both (a + code_offset l.section) 1 here_1
      ≡ some (
        marshalled marshaler 1 here_1 l.to_call_1_at ∷ called to_call_1 1 here_1 ∷ [],
        2 ^ 32 - 1,
      )
  call_first =
      call-copied l image (suc n) a l.to_call_1_at both 1 here_1 (test_func_to_call_1 1 here_1)
        (IsMade-IsCopy l image m _ both a b l.to_call_1_at l.to_call_2_at k made f' made_second)
        (functions-IsFresh l image m a k f) (call_1_lem l image n both 1 here_1)

  call_second :
      call (family l image) (suc (suc n)) both (b + code_offset l.section) 2 here_2
      ≡ some (
        marshalled marshaler 2 here_2 l.to_call_2_at ∷ called to_call_2 2 here_2 ∷ [],
        2 ^ 32 - 2,
      )
  call_second =
      call-copied l image (suc n) b l.to_call_2_at both 2 here_2 (test_func_to_call_2 2 here_2)
        made_second.copy (functions-IsFresh l image _ b linked f')
        (call_2_lem l image n both 2 here_2 k.functions_apart)

-- Where the program is loaded as its linker laid it out and both calls of mmap return fresh
-- addresses, main of src/copyable-functions/section-test.cpp ends, and prints what the two
-- instances print when they are made, and then the lines of the two calls: each instance calls its
-- own function through the marshaler, the first returning -1 and the second -2.
pub main-calls :
    (l : Linked) (image : ℕ → ℕ) (mmap : Mmap) (n a b : ℕ) (m : Memory)
    → IsLinked l image m
    → mmap (section_size l.section) m ≡ some a
    → IsFresh m a (section_size l.section)
    → mmap (section_size l.section) (bind_patched l a l.to_call_1_at l.marshaler_at m).memory
      ≡ some b
    → IsFresh (bind_patched l a l.to_call_1_at l.marshaler_at m).memory b (section_size l.section)
    → main l mmap image (suc (suc n)) m
      ≡ some (
          (bind_patched l a l.to_call_1_at l.marshaler_at m).lines
          ++ (bind_patched l b l.to_call_2_at l.marshaler_at
              (bind_patched l a l.to_call_1_at l.marshaler_at m).memory).lines
          ++ calls l)
unfolding main bind_patched
main-calls l image mmap n a b m k e f e' f' =
    let first = bind_patched l a l.to_call_1_at l.marshaler_at m in
    let second = bind_patched l b l.to_call_2_at l.marshaler_at first.memory in
    bind_some _ _ first (test_func_make_instance_lem l mmap a l.to_call_1_at l.marshaler_at m e) (
      bind_some _ _ second
        (test_func_make_instance_lem l mmap b l.to_call_2_at l.marshaler_at first.memory e')
        (bind_some _ _ _ (call_first l image n a b m k f f')
          (bind_some _ _ _ (call_second l image n a b m k f f') refl)))
