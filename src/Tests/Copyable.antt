-- ===== src/Tests/Copyable.antt =====
-- Runs of src/copyable-functions: a section of 64 bytes, whose function has its immediate at offset 6 and
-- its pointers at offset 48.
use fex_assorted_tests_bins.Prelude.{ℕ, ◌-◌, ◌≡◌, ◌||◌, inl, refl, some, ◌++◌, arith, if◌then◌else◌}
use fex_assorted_tests_bins.Copyable.{Mmap}
use fex_assorted_tests_bins.Copyable.Bytes.{Memory, inside, map_pages}
use fex_assorted_tests_bins.Copyable.Bound.{IsFresh}
use fex_assorted_tests_bins.Copyable.Patched.{Linked, bind_patched, main}
use fex_assorted_tests_bins.Copyable.Instances.{IsLinked, bind_patched-mapped}
use fex_assorted_tests_bins.Copyable.Calls.{calls, main-calls}

abbrev linked : Linked
linked = record {
  section = record { start = 4096; stop = 4160; canonical = 4096; info = 4144 };
  patch = 4100;
  to_call_1_at = 5000;
  to_call_2_at = 5100;
  marshaler_at = 5200;
}

abbrev loaded : Memory
loaded = record { byte = λ x. x - 4096; mapped = λ x. inside 4096 64 x || inside 5000 300 x }

abbrev offset_of : ℕ → ℕ
offset_of i = i

linked-IsLinked : IsLinked linked offset_of loaded
linked-IsLinked = record {
  laid_out = record {
    canonical_low = omega arith;
    canonical_high = omega arith;
    info_low = omega arith;
    info_high = omega arith;
  };
  patch_low = omega arith;
  patch_high = omega arith;
  patch_apart = inl (omega arith);
  bytes = λ i h. omega arith;
  mapped = λ i h. ground arith;
  mapped_1 = refl;
  mapped_2 = refl;
  functions_apart = λ e. omega (arith, e);
  pointer_1 = omega arith;
  pointer_2 = omega arith;
  pointer_marshaler = omega arith;
}

-- Two places, in order.
abbrev mmap : Mmap
mmap len m = some (if m.mapped 8192 then 16384 else 8192)

abbrev first : Memory
first = (bind_patched linked 8192 5000 5200 loaded).memory

loaded-IsFresh : IsFresh loaded 8192 64
loaded-IsFresh = record { unmapped = λ i h. ground arith; high = omega arith }

first-IsFresh : IsFresh first 16384 64
unfolding map_pages
first-IsFresh = record {
  unmapped = λ i h. rw (bind_patched-mapped linked offset_of loaded 8192 5000) (ground arith);
  high = omega arith;
}

first_mapped : mmap 64 first ≡ some 16384
unfolding map_pages
first_mapped = rw (bind_patched-mapped linked offset_of loaded 8192 5000) refl

main-calls_example :
    main linked mmap offset_of 2 loaded
    ≡ some (
        (bind_patched linked 8192 5000 5200 loaded).lines
        ++ (bind_patched linked 16384 5100 5200 first).lines
        ++ calls linked)
main-calls_example =
    main-calls linked offset_of mmap 0 8192 16384 loaded linked-IsLinked refl loaded-IsFresh
      first_mapped first-IsFresh
