-- ===== src/Tests/Race.antt =====
-- Runs of src/smc-mt-2.cpp on a processor in closed form.
use fex_assorted_tests_bins.Prelude.{
  ℕ, ◌≡◌, ◌≢◌, ◌&&◌, ◌++◌, [], ◌∷◌, arith, ◌==◌, if◌then◌else◌, replicate,
}
use fex_assorted_tests_bins.Smc.Machine.{imm32}
use fex_assorted_tests_bins.Race.{exited, of_thread, of_main, run}
use fex_assorted_tests_bins.Race.Turns.{IsFresh, start}
use fex_assorted_tests_bins.Race.Outcome.{thread_exits, thread_spins}

abbrev decode : (ℕ → ℕ) → ℕ
decode f = if f 0 == 0xB8 && f 5 == 0xC3 then imm32 (f 1) (f 2) (f 3) (f 4) else 0

decode-IsFresh : IsFresh decode
decode-IsFresh f b₀ b₁ b₂ b₃ s = ground (arith, s.opcode, s.imm₀, s.imm₁, s.imm₂, s.imm₃, s.ret)

thread_exits_example :
    (run decode (replicate 9 of_thread ++ (of_main ∷ of_thread ∷ [])) (start (λ i. 0))).point
    ≡ exited
thread_exits_example =
    thread_exits decode decode-IsFresh 9 (of_thread ∷ []) (λ i. 0) (omega arith) (omega arith)
      (omega arith)

thread_spins_example :
    (run decode (replicate 2 of_thread ++ (of_main ∷ replicate 9 of_thread)) (start (λ i. 0))).point
    ≢ exited
thread_spins_example =
    thread_spins decode decode-IsFresh 2 (replicate 9 of_thread) (λ i. 0) (omega arith)
