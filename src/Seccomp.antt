-- ===== src/Seccomp.antt =====
-- seccomp/secccomp.c: `install_filter` gives the kernel a program for system calls, and `main` makes
-- one that traps. The kernel runs the filter; it is a parameter with the laws of the instructions.
pub mod Verdict
use fex_assorted_tests_bins.Prelude.{
  ℕ, ◌+◌, ◌≡◌, Bool, true, not, List, [], ◌∷◌, ◌++◌, some, get_elem?, leb, ◌==◌, if◌then◌else◌,
}

-- `BPF_STMT` and `BPF_JUMP` with the codes that the filter uses.
pub data Insn : Type 0 where
  ld_abs ret : ℕ → Insn
  jeq jge : (k jt jf : ℕ) → Insn

-- `offsetof(struct seccomp_data, nr)` and `arch`, and the numbers of the Linux headers.
abbrev pub nr_offset : ℕ
nr_offset = 0

abbrev pub arch_offset : ℕ
arch_offset = 4

abbrev pub audit_arch_x86_64 : ℕ
audit_arch_x86_64 = 0xC000003E

abbrev pub ret_kill : ℕ
ret_kill = 0

abbrev pub ret_kill_process : ℕ
ret_kill_process = 0x80000000

abbrev pub ret_trap : ℕ
ret_trap = 0x00030000

abbrev pub ret_allow : ℕ
ret_allow = 0x7FFF0000

abbrev pub nr_getppid : ℕ
nr_getppid = 110

abbrev pub nr_sigaction : ℕ
nr_sigaction = 13

-- `X32_SYSCALL_BIT`
abbrev pub x32_syscall_bit : ℕ
x32_syscall_bit = 0x40000000

-- `struct sock_filter filter[]`
abbrev pub filter : List Insn
filter =
    ld_abs arch_offset
    ∷ jeq audit_arch_x86_64 1 0
    ∷ ret ret_kill
    ∷ ld_abs nr_offset
    ∷ jge x32_syscall_bit 0 1
    ∷ ret ret_kill_process
    ∷ jeq nr_getppid 0 1
    ∷ ret ret_trap
    ∷ ret ret_allow
    ∷ []

-- The words of a `struct seccomp_data`, by offset.
abbrev pub Call : Type 0
Call = ℕ → ℕ

-- What a run from `pc` with `acc` in the accumulator returns.
abbrev pub Runner : Type 0
Runner = List Insn → ℕ → ℕ → Call → ℕ

pub record IsBpf (run : Runner) : Type 0 where
  pub ld_law :
      (prog : List Insn) (pc acc k : ℕ) (call : Call)
      → get_elem? prog pc ≡ some (ld_abs k)
      → run prog pc acc call ≡ run prog (pc + 1) (call k) call
  pub jeq_law :
      (prog : List Insn) (pc acc k jt jf : ℕ) (call : Call)
      → get_elem? prog pc ≡ some (jeq k jt jf)
      → run prog pc acc call ≡ run prog (pc + 1 + (if acc == k then jt else jf)) acc call
  pub jge_law :
      (prog : List Insn) (pc acc k jt jf : ℕ) (call : Call)
      → get_elem? prog pc ≡ some (jge k jt jf)
      → run prog pc acc call ≡ run prog (pc + 1 + (if leb k acc then jt else jf)) acc call
  pub ret_law :
      (prog : List Insn) (pc acc k : ℕ) (call : Call)
      → get_elem? prog pc ≡ some (ret k)
      → run prog pc acc call ≡ k

-- A system call of the program itself.
abbrev pub native : ℕ → Call
native nr offset = if offset == nr_offset then nr else audit_arch_x86_64

-- What the program prints.
pub data Line : Type 0 where
  about_to_call sigsys bye : Line

-- The process ends with a status, or is killed.
pub data Ending : Type 0 where
  exited : ℕ → List Line → Ending
  killed : List Line → Ending

-- What the calls of the kernel return: whether prctl, seccomp and sigaction succeed.
pub record Answers : Type 0 where
  pub prctl : Bool
  pub seccomp : Bool
  pub sigaction : Bool

module _ (run : Runner) where
  -- The filter's verdict on a system call; nothing is filtered where it is not installed.
  abbrev pub verdict : Bool → ℕ → ℕ
  verdict installed nr = if installed then run filter 0 0 (native nr) else ret_allow

  -- A system call: what follows if it is made, and if SIGSYS is delivered in its place.
  abbrev pub syscall : ℕ → List Line → Ending → Ending → Ending
  syscall v lines made trapped =
      if v == ret_allow then made else if v == ret_trap then trapped else killed lines

  -- `main`; `install_filter` returns to it also where seccomp fails.
  unfoldable pub main : Answers → Ending
  main k =
      if not k.prctl
      then exited 245 []
      else syscall (verdict k.seccomp nr_sigaction) []
          (if not k.sigaction
            then exited 238 []
            else syscall (verdict k.seccomp nr_getppid) (about_to_call ∷ [])
                (exited 0 (about_to_call ∷ bye ∷ []))
                (exited 0 (about_to_call ∷ sigsys ∷ bye ∷ [])))
          (killed [])
