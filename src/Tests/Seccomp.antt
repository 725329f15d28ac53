-- ===== src/Tests/Seccomp.antt =====
-- Runs of the filter of seccomp/secccomp.c on an interpreter in closed form.
use fex_assorted_tests_bins.Prelude.{
  ℕ, zero, suc, ◌+◌, ◌≡◌, true, List, [], ◌∷◌, some, get_elem?, refl, sym, ◌∙◌, ap, arith, leb,
  ◌==◌, if◌then◌else◌,
}
use fex_assorted_tests_bins.Seccomp.{
  Insn, ld_abs, ret, jeq, jge, Call, Runner, IsBpf, filter, native, about_to_call, sigsys, bye,
  exited, main, ret_trap,
}
use fex_assorted_tests_bins.Seccomp.Verdict.{run-filter, main_lem}

-- Forward jumps only: `skip` instructions are passed over.
abbrev interpret : Runner
interpret [] skip acc call = 0
interpret (i ∷ is) (suc skip) acc call = interpret is skip acc call
interpret (ld_abs k ∷ is) zero acc call = interpret is 0 (call k) call
interpret (ret k ∷ is) zero acc call = k
interpret (jeq k jt jf ∷ is) zero acc call = interpret is (if acc == k then jt else jf) acc call
interpret (jge k jt jf ∷ is) zero acc call = interpret is (if leb k acc then jt else jf) acc call

-- The program behind an instruction.
abbrev behind : List Insn → ℕ → List Insn
behind [] pc = []
behind (i ∷ is) zero = is
behind (i ∷ is) (suc pc) = behind is pc

interpret-behind :
    (prog : List Insn) (pc j acc : ℕ) (call : Call)
    → interpret prog (pc + 1 + j) acc call ≡ interpret (behind prog pc) j acc call
interpret-behind [] pc j acc call = refl
interpret-behind (i ∷ is) zero j acc call =
    let e : 0 + 1 + j ≡ suc j = omega arith in ap (λ n. interpret (i ∷ is) n acc call) e
interpret-behind (i ∷ is) (suc pc) j acc call =
    let e : suc pc + 1 + j ≡ suc (pc + 1 + j) = omega arith in
    ap (λ n. interpret (i ∷ is) n acc call) e ∙ interpret-behind is pc j acc call

interpret-at :
    (prog : List Insn) (pc acc : ℕ) (i : Insn) (call : Call)
    → get_elem? prog pc ≡ some i
    → interpret prog pc acc call ≡ interpret (i ∷ behind prog pc) 0 acc call
interpret-at [] pc acc i call h = cc
interpret-at (x ∷ is) zero acc i call h =
    let e : x ≡ i = cc in ap (λ y. interpret (y ∷ is) 0 acc call) e
interpret-at (x ∷ is) (suc pc) acc i call h = interpret-at is pc acc i call h

interpret-IsBpf : IsBpf interpret
interpret-IsBpf = record {
  ld_law = λ prog pc acc k call h.
      interpret-at prog pc acc (ld_abs k) call h
      ∙ sym (
          ap (λ n. interpret prog n (call k) call) (from_zero (pc + 1))
          ∙ interpret-behind prog pc 0 (call k) call);
  jeq_law = λ prog pc acc k jt jf call h.
      interpret-at prog pc acc (jeq k jt jf) call h
      ∙ sym (interpret-behind prog pc (if acc == k then jt else jf) acc call);
  jge_law = λ prog pc acc k jt jf call h.
      interpret-at prog pc acc (jge k jt jf) call h
      ∙ sym (interpret-behind prog pc (if leb k acc then jt else jf) acc call);
  ret_law = λ prog pc acc k call h. interpret-at prog pc acc (ret k) call h;
}
  where
    from_zero : (n : ℕ) → n ≡ n + 0
    from_zero n = omega arith

run-filter_example : interpret filter 0 0 (native 110) ≡ ret_trap
run-filter_example = run-filter interpret interpret-IsBpf 0 (native 110)

main_lem_example :
    main interpret (record { prctl = true; seccomp = true; sigaction = true })
    ≡ exited 0 (about_to_call ∷ sigsys ∷ bye ∷ [])
main_lem_example =
    main_lem interpret interpret-IsBpf (record { prctl = true; seccomp = true; sigaction = true })
