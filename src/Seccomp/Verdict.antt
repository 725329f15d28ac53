-- ===== src/Seccomp/Verdict.antt =====
-- What the filter of seccomp/secccomp.c decides, and how its `main` ends.
use fex_assorted_tests_bins.Prelude.{
  ℕ, ◌≡◌, true, not, [], ◌∷◌, refl, ◌∙◌, leb, ◌==◌, if◌then◌else◌, inl, inr, Bool-cases,
}
use fex_assorted_tests_bins.Seccomp.{
  Call, Runner, IsBpf, filter, native, about_to_call, sigsys, bye, exited, Answers, main, verdict,
  nr_offset, arch_offset, audit_arch_x86_64, ret_kill, ret_kill_process, ret_trap, ret_allow,
  nr_getppid, nr_sigaction, x32_syscall_bit,
}

-- The decision that the comments of the filter describe.
abbrev pub decision : ℕ → ℕ → ℕ
decision arch nr =
    if not (arch == audit_arch_x86_64)
    then ret_kill
    else if leb x32_syscall_bit nr
    then ret_kill_process
    else if nr == nr_getppid
    then ret_trap
    else ret_allow

module _ (run : Runner) (law : IsBpf run) where
  -- From the load of the number on.
  run-nr :
      (acc : ℕ) (call : Call)
      → run filter 3 acc call ≡ (
          if leb x32_syscall_bit (call 0)
          then ret_kill_process
          else if call 0 == nr_getppid
          then ret_trap
          else ret_allow)
  run-nr acc call =
      law.ld_law filter 3 acc 0 call refl
      ∙ law.jge_law filter 4 (call 0) x32_syscall_bit 0 1 call refl
      ∙ elim (Bool-cases (leb x32_syscall_bit (call 0))) [
        | inl high ↦ rw high (law.ret_law filter 5 (call 0) ret_kill_process call refl)
        | inr low ↦ rw low (
            law.jeq_law filter 6 (call 0) nr_getppid 0 1 call refl
            ∙ elim (Bool-cases (call 0 == nr_getppid)) [
              | inl asked ↦ rw asked (law.ret_law filter 7 (call 0) ret_trap call refl)
              | inr other ↦ rw other (law.ret_law filter 8 (call 0) ret_allow call refl)
            ])
      ]

  -- On a kernel that runs the instructions as documented, the filter of seccomp/secccomp.c kills a
  -- call of another architecture, kills the process for a number of 0x40000000 or more, traps
  -- getppid, and allows every other call.
  pub run-filter :
      (acc : ℕ) (call : Call) → run filter 0 acc call ≡ decision (call arch_offset) (call nr_offset)
  run-filter acc call =
      law.ld_law filter 0 acc 4 call refl
      ∙ law.jeq_law filter 1 (call 4) audit_arch_x86_64 1 0 call refl
      ∙ elim (Bool-cases (call 4 == audit_arch_x86_64)) [
        | inl ours ↦ rw ours (run-nr (call 4) call)
        | inr other ↦ rw other (law.ret_law filter 2 (call 4) ret_kill call refl)
      ]

  verdict-getppid : verdict run true nr_getppid ≡ ret_trap
  verdict-getppid = run-filter 0 (native nr_getppid)

  verdict-sigaction : verdict run true nr_sigaction ≡ ret_allow
  verdict-sigaction = run-filter 0 (native nr_sigaction)

  -- On a kernel that runs the instructions as documented, main of seccomp/secccomp.c returns -11
  -- where prctl fails and else -18 where sigaction fails; else it exits with 0, and its handler
  -- prints exactly where seccomp has installed the filter.
  pub main_lem :
      (k : Answers)
      → main run k ≡ (
          if not k.prctl
          then exited 245 []
          else if not k.sigaction
          then exited 238 []
          else if k.seccomp
          then exited 0 (about_to_call ∷ sigsys ∷ bye ∷ [])
          else exited 0 (about_to_call ∷ bye ∷ []))
  unfolding main
  main_lem k = elim (Bool-cases k.seccomp) [
    | inl installed ↦ rw (installed, verdict-sigaction, verdict-getppid) refl
    | inr not_installed ↦ rw not_installed refl
  ]
