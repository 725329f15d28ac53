-- ===== src/Tests/Template.antt =====
-- Runs of src/copyable-functions/template-test.cpp: two sections of 64 bytes, with their pointers at offset 48.
use fex_assorted_tests_bins.Prelude.{ℕ, ◌+◌, ◌-◌, ◌≡◌, ◌||◌, refl, some, ◌++◌, arith, if◌then◌else◌}
use fex_assorted_tests_bins.Copyable.{Section, Mmap, bind_instance}
use fex_assorted_tests_bins.Copyable.Bytes.{Memory, inside, map_pages}
use fex_assorted_tests_bins.Copyable.Template.{Linked, main}
use fex_assorted_tests_bins.Copyable.Lives.{IsLoaded, Gives, bind_instance-mapped}
use fex_assorted_tests_bins.Copyable.Program.{IsProgram}
use fex_assorted_tests_bins.Copyable.Four.{after_1, after_2, after_3, calls, four-calls}

abbrev section_at : ℕ → Section
section_at a = record { start = a; stop = a + 64; canonical = a; info = a + 48 }

abbrev program : Linked
program = record {
  one_name = section_at 4096;
  two_name = section_at 4160;
  to_call_1_at = 5000;
  to_call_2_at = 5100;
  marshaler_at = 5200;
  to_call2_2_at = 5300;
  marshaler2_at = 5400;
}

abbrev loaded : Memory
loaded = record { byte = λ x. x - 4096; mapped = λ x. inside 4096 128 x || inside 5000 500 x }

abbrev offset_of : ℕ → ℕ
offset_of i = i

abbrev offset2_of : ℕ → ℕ
offset2_of i = i + 64

loaded_one : IsLoaded (section_at 4096) offset_of loaded
loaded_one = record {
  laid_out = record {
    canonical_low = omega arith;
    canonical_high = omega arith;
    info_low = omega arith;
    info_high = omega arith;
  };
  bytes = λ i h. omega arith;
  present = λ i h. ground arith;
}

loaded_two : IsLoaded (section_at 4160) offset2_of loaded
loaded_two = record {
  laid_out = record {
    canonical_low = omega arith;
    canonical_high = omega arith;
    info_low = omega arith;
    info_high = omega arith;
  };
  bytes = λ i h. omega arith;
  present = λ i h. ground arith;
}

program-IsProgram : IsProgram program offset_of offset2_of loaded
program-IsProgram = record {
  loaded = loaded_one;
  loaded2 = loaded_two;
  mapped_1 = refl;
  mapped_2 = refl;
  mapped2_2 = refl;
  functions_apart = λ e. omega (arith, e);
  pointer_1 = omega arith;
  pointer_2 = omega arith;
  pointer2_2 = omega arith;
  pointer_marshaler = omega arith;
  pointer_marshaler2 = omega arith;
}

-- Four places, in order.
abbrev mmap : Mmap
mmap len m = some (
    if m.mapped 24576
    then 32768
    else if m.mapped 16384
    then 24576
    else if m.mapped 8192
    then 16384
    else 8192)

abbrev first : Memory
first = after_1 program 8192 loaded

abbrev second : Memory
second = after_2 program 16384 first

abbrev third : Memory
third = after_3 program 24576 second

first_mapped : first.mapped ≡ (map_pages 8192 64 loaded).mapped
first_mapped = bind_instance-mapped (section_at 4096) 8192 5000 5200 loaded

second_mapped : second.mapped ≡ (map_pages 16384 64 first).mapped
second_mapped = bind_instance-mapped (section_at 4096) 16384 5100 5200 first

third_mapped : third.mapped ≡ (map_pages 24576 64 second).mapped
third_mapped = bind_instance-mapped (section_at 4160) 24576 5300 5400 second

loaded-Gives : Gives mmap (section_at 4096) loaded 8192
loaded-Gives = record {
  returned = refl;
  fresh = record { unmapped = λ i h. ground arith; high = omega arith };
}

first-Gives : Gives mmap (section_at 4096) first 16384
unfolding map_pages
first-Gives = record {
  returned = rw first_mapped refl;
  fresh = record { unmapped = λ i h. rw first_mapped (ground arith); high = omega arith };
}

second-Gives : Gives mmap (section_at 4160) second 24576
unfolding map_pages
second-Gives = record {
  returned = rw second_mapped (rw first_mapped refl);
  fresh = record {
    unmapped = λ i h. rw second_mapped (rw first_mapped (ground arith));
    high = omega arith;
  };
}

third-Gives : Gives mmap (section_at 4160) third 32768
unfolding map_pages
third-Gives = record {
  returned = rw third_mapped refl;
  fresh = record {
    unmapped = λ i h. rw third_mapped (rw second_mapped (rw first_mapped (ground arith)));
    high = omega arith;
  };
}

four-calls_example :
    main program offset_of offset2_of mmap 2 loaded
    ≡ some (
        (bind_instance (section_at 4096) 8192 5000 5200 loaded).lines
        ++ (bind_instance (section_at 4096) 16384 5100 5200 first).lines
        ++ (bind_instance (section_at 4160) 24576 5300 5400 second).lines
        ++ (bind_instance (section_at 4160) 32768 5300 5400 third).lines
        ++ calls program)
four-calls_example =
    four-calls program offset_of offset2_of mmap 0 8192 16384 24576 32768 loaded program-IsProgram
      loaded-Gives first-Gives second-Gives third-Gives
