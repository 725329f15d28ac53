-- ===== src/Tests/Descriptor.antt =====
-- A run of `main` of src/smc-fd.cpp: the machine of Tests.Machine with a table of open files.
use fex_assorted_tests_bins.Prelude.{ℕ, ◌+◌, ◌*◌, true, false, Option, none, some, length}
use fex_assorted_tests_bins.Smc.Machine.{View, Machine, update}
use fex_assorted_tests_bins.Smc.Descriptor.{written}
use fex_assorted_tests_bins.Smc.Files.{Files}
use fex_assorted_tests_bins.Tests.Kept.{Kept, kept}

-- Where the bytes of each open descriptor are, its offset, and how many were made.
abbrev Open : Type 0
Open = ℕ → Option (ℕ × ℕ)

abbrev Table : Type 0
Table = Open × ℕ

abbrev filed : Machine
filed = kept Table

abbrev S : Type 0
S = Kept Table

abbrev mapped : View → View
mapped v = record v { phys = λ a. some a; executable = λ a. true }

abbrev mmap : ℕ → ℕ → S → ℕ × S
mmap size fd s = elim (s.1.0 fd) [ none ↦ (0, s) | some (p, o) ↦ (p, (mapped s.0, s.1)) ]

abbrev moved : ℕ → Option (ℕ × ℕ) → Table → Table
moved fd x t = (update t.0 fd x, t.1)

abbrev start_of : Option (ℕ × ℕ) → Option (ℕ × ℕ)
start_of none = none
start_of (some (p, o)) = some (p, 0)

abbrev files : Files filed
files = record {
  create =
      λ size s. (s.1.1, (s.0, (update s.1.0 s.1.1 (some (4096 + s.1.1 * 4096, 0)), s.1.1 + 1)));
  reopen = λ fd s. (fd + 1, (s.0, moved (fd + 1) (start_of (s.1.0 fd)) s.1));
  close = λ fd s. (tt, (s.0, moved fd none s.1));
  mmap_shared = mmap;
  mmap_private = mmap;
  write = λ fd bs s. elim (s.1.0 fd) [
    | none ↦ s
    | some (p, o) ↦
        (record s.0 { byte = written s.0.byte (p + o) bs }, moved fd (some (p, o + length bs)) s.1)
  ];
  lseek =
      λ fd o' s. elim (s.1.0 fd) [ none ↦ s | some (p, o) ↦ (s.0, moved fd (some (p, o')) s.1) ];
}

abbrev pub unmapped_view : View
unmapped_view = record {
  phys = λ a. none;
  byte = λ q. 0;
  writable = λ a. false;
  executable = λ a. false;
  shared = λ q. true;
}

abbrev no_files : S
no_files = (unmapped_view, (λ n. none, 0))
