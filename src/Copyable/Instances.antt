-- ===== src/Copyable/Instances.antt =====
-- The instances of src/copyable-functions/section-test.cpp: each is a copy bound to its own pointers, and
-- the second leaves the first as it is.
use fex_assorted_tests_bins.Prelude.{ℕ, ◌+◌, ◌^◌, ◌≤◌, ◌<◌, ◌≡◌, ◌≢◌, ◌⊎◌, ◌∙◌, true, false, arith}
use fex_assorted_tests_bins.Copyable.{section_size, info_offset}
use fex_assorted_tests_bins.Copyable.Bytes.{
  Memory, map_pages, memcpy, load, IsOutside, memcpy-mapped, map_pages-mapped, map_pages-new,
  store-mapped, store-out, load_ext, load-store,
}
use fex_assorted_tests_bins.Copyable.Bound.{
  IsLaidOut, IsCopy, pointers-target, pointers-marshal, pointers-out, copied-in, copied-out,
  IsFresh, fresh-IsOutside,
}
use fex_assorted_tests_bins.Copyable.Patched.{Linked, bind_patched, patch_offset, own, family}

-- The program as loaded: the section's bytes, and what lies elsewhere.
pub record IsLinked (l : Linked) (image : ℕ → ℕ) (m : Memory) : Type 0 where
  pub laid_out : IsLaidOut l.section
  pub patch_low : l.section.start ≤ l.patch
  pub patch_high : l.patch + 10 ≤ l.section.stop
  pub patch_apart : (l.patch + 10 ≤ l.section.info) ⊎ (l.section.info + 16 ≤ l.patch + 2)
  pub bytes : (i : ℕ) → i < section_size l.section → m.byte (l.section.start + i) ≡ image i
  pub mapped : (i : ℕ) → i < section_size l.section → m.mapped (l.section.start + i) ≡ true
  pub mapped_1 : m.mapped l.to_call_1_at ≡ true
  pub mapped_2 : m.mapped l.to_call_2_at ≡ true
  pub functions_apart : l.to_call_1_at ≢ l.to_call_2_at
  pub pointer_1 : l.to_call_1_at < 2 ^ 64
  pub pointer_2 : l.to_call_2_at < 2 ^ 64
  pub pointer_marshaler : l.marshaler_at < 2 ^ 64

-- An instance at `a`, and the rest of memory as it was in `m`.
pub record IsMade (l : Linked) (image : ℕ → ℕ) (m : Memory) (a target : ℕ) (m' : Memory)
    : Type 0 where
  pub copy : IsCopy (family l image) a target l.marshaler_at m'
  pub kept : (x : ℕ) → IsOutside a (section_size l.section) x → m'.byte x ≡ m.byte x
  pub mapped_kept : (x : ℕ) → m.mapped x ≡ true → m'.mapped x ≡ true
  pub mapped_in : (i : ℕ) → i < section_size l.section → m'.mapped (a + i) ≡ true

module _ (l : Linked) (image : ℕ → ℕ) (m : Memory) (a target : ℕ) where
  own-IsOutside :
      (i : ℕ)
      → own l i ≡ false
      → IsOutside (patch_offset l + 2) 8 i × IsOutside (info_offset l.section) 16 i
  own-IsOutside i h = ground arith

  pub bind_patched-mapped :
      (bind_patched l a target l.marshaler_at m).memory.mapped
      ≡ (map_pages a (section_size l.section) m).mapped
  unfolding bind_patched
  bind_patched-mapped =
      store-mapped 8 (a + info_offset l.section + 8) l.marshaler_at _
      ∙ store-mapped 8 (a + info_offset l.section) target _
      ∙ store-mapped 8 (a + patch_offset l + 2) (a + info_offset l.section) _
      ∙ memcpy-mapped a l.section.start (section_size l.section) _

  bind_patched-out :
      (x : ℕ)
      → IsOutside (a + info_offset l.section) 16 x
      → IsOutside (a + patch_offset l + 2) 8 x
      → (bind_patched l a target l.marshaler_at m).memory.byte x
        ≡ (memcpy a l.section.start
              (section_size l.section)
              (map_pages a (section_size l.section) m)).byte
            x
  unfolding bind_patched
  bind_patched-out x o p =
      pointers-out (a + info_offset l.section) target l.marshaler_at _ x o
      ∙ store-out 8 (a + patch_offset l + 2) (a + info_offset l.section) x _ p

  bind_patched-info :
      IsLinked l image m
      → IsFresh m a (section_size l.section)
      → load 8 (a + patch_offset l + 2) (bind_patched l a target l.marshaler_at m).memory
        ≡ a + info_offset l.section
  unfolding bind_patched
  bind_patched-info k f =
      load_ext 8 (a + patch_offset l + 2) _ _ (λ i h.
        pointers-out (a + info_offset l.section) target l.marshaler_at _
          (a + patch_offset l + 2 + i)
          (grind (arith, k.patch_apart, k.patch_low, k.laid_out.info_low)))
      ∙ load-store 8 (a + patch_offset l + 2) (a + info_offset l.section) _
          (omega (arith, f.high, k.laid_out.info_low, k.laid_out.info_high))

  bind_patched-pointers :
      IsLinked l image m
      → target < 2 ^ 64
      → (load 8 (a + info_offset l.section) (bind_patched l a target l.marshaler_at m).memory
          ≡ target)
        × (load 8 (a + info_offset l.section + 8) (bind_patched l a target l.marshaler_at m).memory
            ≡ l.marshaler_at)
  unfolding bind_patched
  bind_patched-pointers k t = (
    pointers-target (a + info_offset l.section) target l.marshaler_at _ t,
    pointers-marshal (a + info_offset l.section) target l.marshaler_at _ k.pointer_marshaler,
  )

  -- Where the program is loaded as its linker laid it out, the address is fresh and the function's
  -- fits into 64 bits, an instance of src/copyable-functions/section-test.cpp has the bytes of the
  -- section but for the immediate and the two pointers, the immediate is the address of its own
  -- pointers, these are the function and the marshaler, and nothing outside of the instance
  -- changes.
  pub bind_patched-IsMade :
      IsLinked l image m
      → IsFresh m a (section_size l.section)
      → target < 2 ^ 64
      → IsMade l image m a target (bind_patched l a target l.marshaler_at m).memory
  bind_patched-IsMade k f t = record {
    copy = record {
      code = λ i h o.
          let out = own-IsOutside i o in
          bind_patched-out (a + i) (grind (arith, out.1)) (grind (arith, out.0))
          ∙ copied-in a l.section.start (section_size l.section) m i h
              (fresh-IsOutside m a (section_size l.section) (l.section.start + i) f (k.mapped i h))
          ∙ k.bytes i h;
      info = bind_patched-info k f;
      bound_target = (bind_patched-pointers k t).0;
      bound_marshal = (bind_patched-pointers k t).1;
    };
    kept = λ x o.
        bind_patched-out x (grind (arith, k.laid_out.info_low, k.laid_out.info_high))
          (grind (arith, k.patch_low, k.patch_high))
        ∙ copied-out a l.section.start (section_size l.section) m x o;
    mapped_kept =
        λ x h. rw (bind_patched-mapped) (map_pages-mapped a (section_size l.section) x m h);
    mapped_in = λ i h. rw (bind_patched-mapped) (map_pages-new a (section_size l.section) i m h);
  }
