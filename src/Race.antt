-- ===== src/Race.antt =====
-- src/smc-mt-2.cpp: one thread writes a routine and calls it in a loop, the other changes a byte of
-- it. A schedule is a list of turns; a turn is one store or one call.
pub mod Turns
pub mod Outcome
use fex_assorted_tests_bins.Prelude.{
  ℕ, zero, suc, ◌+◌, Bool, true, List, [], ◌∷◌, if◌then◌else◌, ltb, ◌==◌, length, get_elem?, Option,
  some, none,
}
use fex_assorted_tests_bins.Smc.Machine.{update}

-- Where `thread` stands: behind so many of its six stores, in its loop, or at its end.
pub data Point : Type 0 where
  generating : ℕ → Point
  waiting exited : Point

-- `patched` is whether `main` has stored; behind the store it only waits for the thread.
pub record State : Type 0 where
  pub bytes : ℕ → ℕ
  pub point : Point
  pub patched : Bool

pub data Turn : Type 0 where
  of_thread of_main : Turn

-- `code[0] = 0xB8; ... code[5] = 0xC3;`
abbrev pub stub : List ℕ
stub = 0xB8 ∷ 0xAA ∷ 0xBB ∷ 0xCC ∷ 0xDD ∷ 0xC3 ∷ []

abbrev pub stub_byte : ℕ → ℕ
stub_byte i = elim (get_elem? stub i) [ none ↦ 0 | some b ↦ b ]

-- `call` is what `fn()` returns on the bytes of the mapping.
module _ (call : (ℕ → ℕ) → ℕ) where
  -- `thread`, one store or call. The first call is only made.
  unfoldable pub thread_step : Point → State → State
  thread_step (generating n) s =
      if ltb n (length stub)
      then record s { bytes = update s.bytes n (stub_byte n); point = generating (n + 1) }
      else record s { point = waiting }
  thread_step waiting s = if call s.bytes == 0xDDCCBBAA then s else record s { point = exited }
  thread_step exited s = s

  -- `main`, behind its first second of sleep.
  unfoldable pub main_step : State → State
  main_step s = if s.patched then s else record s { bytes = update s.bytes 3 0xFE; patched = true }

  unfoldable pub turn : Turn → State → State
  unfolding thread_step main_step
  turn of_thread s = thread_step s.point s
  turn of_main s = main_step s

  unfoldable pub run : List Turn → State → State
  unfolding turn
  run [] s = s
  run (t ∷ ts) s = run ts (turn t s)
