-- ===== src/Smc/Fork.antt =====
-- `test2` of src/smc-shared-2.cpp: a child process changes the code that its parent runs.
use Prim.Native.String.{String}
use fex_assorted_tests_bins.Prelude.{
  ℕ, ◌+◌, true, false, some, ◌≡◌, refl, ◌∙◌, ap, arith, if◌then◌else◌,
}
use fex_assorted_tests_bins.Smc.Machine.{IsShared, Machine, View, update, imm32, IsStub, IsCoherent}
use fex_assorted_tests_bins.Smc.Action.{Runs, Runs-bind, Runs-call}
use fex_assorted_tests_bins.Smc.Stub.{expected, stubbed, stubbed-IsStub, Runs-emit_stub}
use fex_assorted_tests_bins.Smc.Report.{report_two}
use fex_assorted_tests_bins.Smc.Verdicts.{IsMirror}
use fex_assorted_tests_bins.Smc.Programs.{patch_in_child, test_fork}

-- The parent's memory after the child has written `x` at `q`.
abbrev pub merged : View → ℕ → ℕ → View
merged v q x = record v { byte = λ r. if v.shared r then update v.byte q x r else v.byte r }

merged_shared :
    (v : View) (p : ℕ)
    → IsShared v p 6
    → IsStub v.byte p 0xAA 0xBB 0xCC 0xDD
    → IsStub (merged v (p + 3) 0xFE).byte p 0xAA 0xBB 0xFE 0xDD
merged_shared v p h s = record {
  opcode = ground (arith, h 0);
  imm₀ = ground (arith, h 1);
  imm₁ = ground (arith, h 2);
  imm₂ = ground (arith, h 3);
  imm₃ = ground (arith, h 4);
  ret = ground (arith, h 5);
}

merged_private :
    (v : View) (p : ℕ)
    → v.shared (p + 3) ≡ false
    → IsStub v.byte p 0xAA 0xBB 0xCC 0xDD
    → IsStub (merged v (p + 3) 0xFE).byte p 0xAA 0xBB 0xCC 0xDD
merged_private v p h s = record {
  opcode = ground arith;
  imm₀ = ground arith;
  imm₁ = ground arith;
  imm₂ = ground arith;
  imm₃ = ground arith;
  ret = ground arith;
}

module _ (m : Machine) (law : IsCoherent m) where
  open m use {State, view, store, fork_wait}

  Runs-patch_in_child :
      (code p : ℕ) {s : State} {v : View}
      → view s ≡ v
      → v.phys (code + 3) ≡ some (p + 3)
      → v.writable (code + 3) ≡ true
      → Runs m (patch_in_child m code s) tt (merged v (p + 3) 0xFE)
  unfolding patch_in_child
  Runs-patch_in_child code p {s} {v} h at ok =
      let (t, e, h') =
        law.fork_law (store (code + 3) 0xFE) s (record v { byte = update v.byte (p + 3) 0xFE })
          child in
      (t, rw (e, patch_in_child), h' ∙ ap {A = View} joined h)
    where
      joined : View → View
      joined w = record w {
        byte = λ q. if w.shared q then update v.byte (p + 3) 0xFE q else w.byte q;
      }

      child :
          (c : State)
          → view c ≡ view s
          → (d : State) × (store (code + 3) 0xFE c ≡ some d)
            × (view d ≡ record v { byte = update v.byte (p + 3) 0xFE })
      child c e =
          let same : view c ≡ v = e ∙ h in
          let (d, e', h') =
            law.store_law (code + 3) 0xFE (p + 3) c
              (ap {A = View} (λ w. w.phys (code + 3)) same ∙ at)
              (ap {A = View} (λ w. w.writable (code + 3)) same ∙ ok) in
          (d, e', h' ∙ ap {A = View} (λ w. record w { byte = update w.byte (p + 3) 0xFE }) same)

  -- The run of `test2`, by what the parent sees of the child's write.
  Runs-test_fork :
      (code codeexec p b : ℕ) (name : String) {s : State} {v : View}
      → view s ≡ v
      → IsMirror v code codeexec p
      → IsStub
          (merged (record v { byte = stubbed p 0xCC v.byte }) (p + 3) 0xFE).byte
          p
          0xAA
          0xBB
          b
          0xDD
      → Runs m
          (test_fork m code codeexec name s)
          (report_two name (expected.e1, imm32 0xAA 0xBB b 0xDD))
          (merged (record v { byte = stubbed p 0xCC v.byte }) (p + 3) 0xFE)
  unfolding test_fork
  Runs-test_fork code codeexec p b name {v = v} h c stub =
      Runs-bind m _ _ (Runs-emit_stub m law code p 6 h (omega arith) c.window c.writes) λ _ h.
        Runs-bind m _ _
          (Runs-call m law codeexec p 0xAA 0xBB 0xCC 0xDD h c.run_window c.runs
            (stubbed-IsStub v.byte p 0xCC))
          λ _ h.
            Runs-bind m _ _
              (Runs-patch_in_child code p h (c.window 3 (omega arith)) (c.writes 3 (omega arith)))
              λ _ h.
                Runs-bind m _ _
                  (Runs-call m law codeexec p 0xAA 0xBB b 0xDD h c.run_window c.runs stub)
                  λ t h. (t, refl, h)

  -- On a coherent machine, where the code is mapped to be written and to be run, and its six bytes
  -- are shared with a child process, test2 of src/smc-shared-2.cpp runs in the parent what the
  -- child wrote: both lines say PASS.
  pub test_fork_shared :
      (code codeexec p : ℕ) (name : String) {s : State} {v : View}
      → view s ≡ v
      → IsMirror v code codeexec p
      → IsShared v p 6
      → Runs m
          (test_fork m code codeexec name s)
          (report_two name (expected.e1, expected.e2))
          (merged (record v { byte = stubbed p 0xCC v.byte }) (p + 3) 0xFE)
  test_fork_shared code codeexec p name {v = v} h c shared =
      Runs-test_fork code codeexec p 0xFE name h c (
        merged_shared (record v { byte = stubbed p 0xCC v.byte }) p shared
          (stubbed-IsStub v.byte p 0xCC))

  -- On a coherent machine, where the byte that the child changes is private, test2 of src/smc-
  -- shared-2.cpp runs the old code again in the parent: the second value is that of the first call.
  pub test_fork_private :
      (code codeexec p : ℕ) (name : String) {s : State} {v : View}
      → view s ≡ v
      → IsMirror v code codeexec p
      → v.shared (p + 3) ≡ false
      → Runs m
          (test_fork m code codeexec name s)
          (report_two name (expected.e1, expected.e1))
          (merged (record v { byte = stubbed p 0xCC v.byte }) (p + 3) 0xFE)
  test_fork_private code codeexec p name {v = v} h c private =
      Runs-test_fork code codeexec p 0xCC name h c (
        merged_private (record v { byte = stubbed p 0xCC v.byte }) p private
          (stubbed-IsStub v.byte p 0xCC))
