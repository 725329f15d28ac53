-- ===== src/Smc/Files/Passing.antt =====
-- `main` of src/smc-fd.cpp: what it prints.
use Prim.Native.String.{String}
use fex_assorted_tests_bins.Prelude.{◌≡◌, true, none, some, ◌++◌, ◌⊎◌, List, length}
use fex_assorted_tests_bins.Smc.Machine.{Machine, IsCoherent}
use fex_assorted_tests_bins.Smc.Action.{Action}
use fex_assorted_tests_bins.Smc.Report.{Verdict, all_pass}
use fex_assorted_tests_bins.Smc.Files.{Files, IsFiles, private_block, fd_main}

module _ (m : Machine) (k : Files m) (law : IsCoherent m) (files : IsFiles m k) where
  open m use {State, view, call}
  open k use {create, reopen, close, mmap_shared, mmap_private, write, lseek}

  -- What the first block and the last print: two lines that say PASS.
  abbrev pub TwoPass : List Verdict → Type 0
  TwoPass vs = (all_pass vs ≡ true) × (length vs ≡ 2)

  -- `main` ends exactly if the block on the private mapping does, between the other two.
  abbrev pub Decides : State → List Verdict → State → Type 0
  Decides s vs₁ s₁ =
      ((private_block m k s₁ ≡ none) × (fd_main m k s ≡ none))
      ⊎ ((vs₂ : List Verdict) × (s₂ : State) × (vs₃ : List Verdict) × (s₃ : State) × (private_block
              m k s₁
            ≡ some (vs₂, s₂))
          × (fd_main m k s ≡ some (vs₁ ++ (vs₂ ++ vs₃), s₃))
          × TwoPass vs₃)
