-- ===== src/Sigtest.antt =====
-- src/signals/sigtest.cpp, sigtest2.cpp and sigtest3.cpp: a loop that a signal ends, a read that a signal
-- interrupts, and a store that the handler of its fault redirects.
pub mod Ending
pub mod Redirected
use fex_assorted_tests_bins.Prelude.{
  ℕ, zero, suc, Bool, true, false, not, ◌&&◌, Option, none, some, List, [], ◌∷◌, ◌++◌, ◌==◌, ltb,
  if◌then◌else◌,
}

-- What is printed, in the order of the sources.
pub data Line : Type 0 where
  inside_handler inside_main exiting : Line
  signaled_called with_restart without_restart : Line
  about_to_sigact about_to_sigsegv after_sigsegv : Line

-- src/signals/sigtest.cpp: the test of the loop and its body, or a SIGTSTP.
pub data LoopEvent : Type 0 where
  pass stop : LoopEvent

pub record Loop : Type 0 where
  pub loop : Bool
  pub printed : List Line
  pub status : Option ℕ

unfoldable pub sig_handler : Loop → Loop
sig_handler s = record s { printed = s.printed ++ inside_handler ∷ []; loop = false }

unfoldable pub loop_step : LoopEvent → Loop → Loop
loop_step pass s =
    if s.loop
    then record s { printed = s.printed ++ inside_main ∷ [] }
    else record s { printed = s.printed ++ exiting ∷ []; status = some 0 }
loop_step stop s = sig_handler s

-- `main`; an ended program takes no event.
unfoldable pub loop_run : List LoopEvent → Loop → Loop
loop_run [] s = s
loop_run (e ∷ es) s = loop_run es (elim s.status [ none ↦ loop_step e s | some n ↦ s ])

abbrev pub loop_main : List LoopEvent → Loop
loop_main es = loop_run es (record { loop = true; printed = []; status = none })

-- src/signals/sigtest2.cpp: `read` returns 1, returns 0 at the end of the input, or is interrupted by a
-- SIGTSTP; or a SIGTSTP comes outside of `read`: between sigaction and the first call, or between the test of
-- `signaled` and the next call. One between the return of a call and that test comes to the same as
-- one in front of the call.
pub data ReadEvent : Type 0 where
  byte_read end_of_input interrupt outside : ReadEvent

pub record Reader : Type 0 where
  pub restart : Bool
  pub signaled : Bool
  pub printed : List Line
  pub status : Option ℕ

unfoldable pub handler : Reader → Reader
handler s = record s { printed = s.printed ++ signaled_called ∷ []; signaled = true }

-- `while (read(STDIN_FILENO, &ch, 1) != 1 && !signaled);`, with whether the call returned 1.
unfoldable pub read_returns : Bool → Reader → Reader
read_returns one s = if not one && not s.signaled then s else record s { status = some 0 }

-- With SA_RESTART the kernel starts the call again behind the handler, else it returns -1.
unfoldable pub read_step : ReadEvent → Reader → Reader
read_step byte_read s = read_returns true s
read_step end_of_input s = read_returns false s
read_step outside s = handler s
read_step interrupt s = if s.restart then handler s else read_returns false (handler s)

unfoldable pub read_run : List ReadEvent → Reader → Reader
read_run [] s = s
read_run (e ∷ es) s = read_run es (elim s.status [ none ↦ read_step e s | some n ↦ s ])

-- `main`, by argc.
unfoldable pub read_main : ℕ → List ReadEvent → Reader
read_main argc es = read_run es (record {
  restart = ltb 1 argc;
  signaled = false;
  printed = (if ltb 1 argc then with_restart else without_restart) ∷ [];
  status = none;
})

-- src/signals/sigtest3.cpp: `rax` and any other register.
pub data Reg : Type 0 where
  rax other_reg : Reg

pub record Cell : Type 0 where
  pub t : ℕ
  pub regs : Reg → ℕ
  pub word : ℕ → ℕ
  pub printed : List Line

abbrev pub set_reg : Reg → ℕ → (Reg → ℕ) → Reg → ℕ
set_reg rax v regs rax = v
set_reg rax v regs other_reg = regs other_reg
set_reg other_reg v regs rax = regs rax
set_reg other_reg v regs other_reg = v

-- Where `test` lies, what may be written, and the register that the compiler keeps `t` in.
module _ (test : ℕ) (writable : ℕ → Bool) (reg : Reg) where
  unfoldable pub redirect : Cell → Cell
  redirect c = record c {
    t = test;
    regs = set_reg rax test c.regs;
    printed = c.printed ++ signaled_called ∷ [];
  }

  -- The store, done again behind the handler, with fuel.
  unfoldable pub store_32 : ℕ → Cell → Option Cell
  store_32 zero c = none
  store_32 (suc fuel) c =
      let again = store_32 fuel (redirect c) in
      if writable (c.regs reg)
      then some (record c { word = λ a. if a == c.regs reg then 32 else c.word a })
      else again

  unfoldable pub redirect_main : ℕ → Cell → Option Cell
  redirect_main fuel c =
      let ready = record c {
        t = 9;
        regs = set_reg reg 9 c.regs;
        printed = c.printed ++ (about_to_sigact ∷ about_to_sigsegv ∷ []);
      } in
      elim (store_32 fuel ready) [
        | none ↦ none
        | some d ↦ some (record d { printed = d.printed ++ after_sigsegv ∷ [] })
      ]
