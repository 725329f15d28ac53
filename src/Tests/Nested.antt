-- ===== src/Tests/Nested.antt =====
-- Runs of src/signals-nested.cpp and src/signals-nested-2.cpp.
use Prim.Native.String.{String}
use fex_assorted_tests_bins.Prelude.{
  ℤ, pos, ℤ, pos, ltb, ◌||◌, ◌&&◌, List, ◌∷◌, zero, Bool, ℕ, ◌+◌, ◌*◌, ◌%◌, ◌^◌, false, ◌≡◌, refl,
  arith, ◌==◌, if◌then◌else◌, some, suc, [], ◌-◌,
}
use fex_assorted_tests_bins.Nested.Cpu.{Regs, le32, rel8, IsX86, steps}
use fex_assorted_tests_bins.Nested.Calls.{blocks, nested_2_returns}
use fex_assorted_tests_bins.Nested.Sleep.{Event, alarm}
use fex_assorted_tests_bins.Nested.Layout.{IsFilled, gencode_lem}
use fex_assorted_tests_bins.Nested.{Memory, block_nested, gencode, gencode_2}
use fex_assorted_tests_bins.Nested.Kills.{
  State, initial, kill, deliver, announce, enter, announced_one, killed, delivered, handled, Reach,
  here, next,
}
use fex_assorted_tests_bins.Nested.Counted.{counted, IsSound, reached-IsSound}
use fex_assorted_tests_bins.Nested.Rounds.{kills_exit}

-- A processor that knows the three instructions.
abbrev decode : Memory → Regs → Regs
decode mem r =
    let imm = le32 (mem (r.pc + 1)) (mem (r.pc + 2)) (mem (r.pc + 3)) (mem (r.pc + 4)) in
    let sum = (r.eax + imm) % 2 ^ 32 in
    if mem r.pc == 0xB8
    then record r { pc = r.pc + 5; eax = imm }
    else if mem r.pc == 0x05
    then record { pc = r.pc + 5; eax = sum; zf = sum == 0 }
    else if mem r.pc == 0x75
    then record r { pc = if r.zf then r.pc + 2 else rel8 (r.pc + 2) (mem (r.pc + 1)) }
    else r

decode-IsX86 : IsX86 decode
decode-IsX86 = record {
  mov_law = λ mem r b₀ b₁ b₂ b₃ op e₀ e₁ e₂ e₃. rw (op, e₀, e₁, e₂, e₃);
  add_law = λ mem r b₀ b₁ b₂ b₃ op e₀ e₁ e₂ e₃. rw (op, e₀, e₁, e₂, e₃);
  jnz_law = λ mem r d op e. rw (op, e);
}

abbrev zeros : Memory
zeros = λ i. 0

abbrev entry : Regs
entry = record { pc = 0; eax = 7; zf = false }

gencode_lem_example :
    (n : ℕ) × (mem' : Memory) × (gencode 20 150 block_nested zeros ≡ some (12 * n + 1, mem'))
    × IsFilled 150 n block_nested mem'
    × (mem' (12 * n) ≡ 0xC3)
gencode_lem_example = gencode_lem 20 150 block_nested zeros refl (omega arith) (omega arith)

nested_2_returns_example :
    (mem' : Memory) × (gencode_2 349_530 zeros ≡ some (12 * blocks + 1, mem'))
    × ((steps decode (blocks * 5) mem' entry).pc ≡ 12 * blocks)
    × (mem' (12 * blocks) ≡ 0xC3)
nested_2_returns_example =
    nested_2_returns decode decode-IsX86 349_530 zeros entry (omega arith) refl

-- One signal is sent and its handler has counted.
abbrev one_signal : State
one_signal = enter [] (announce [] (deliver (kill initial)))

one_signal-Reach : Reach initial one_signal
unfolding kill deliver announce enter
one_signal-Reach =
    let sent = next (next here (killed refl refl refl)) (delivered refl refl refl refl) in
    next (next sent (announced_one [] refl refl refl)) (handled [] refl refl refl)

reached-IsSound_example : IsSound one_signal
reached-IsSound_example = reached-IsSound one_signal-Reach

kills_exit_example :
    (t : State) × Reach initial t
    × (t.status ≡ some 0)
    × (t.sigcount ≡ 1000)
    × (counted t.frames ≡ counted initial.frames + (1000 - initial.sigcount))
kills_exit_example =
    kills_exit initial here (record { running = refl; sends = refl; free = refl }) (omega arith)

-- A number that is an argument, for one text only.
abbrev atol_large : String → ℤ
atol_large text = pos 2_000_000_000

-- The kernel's test of the time, and 0 is no time.
abbrev arms : ℤ → ℤ → Bool
arms (pos s) (pos n) = ltb n 1_000_000_000 && (ltb 0 s || ltb 0 n)
arms s n = false

abbrev many_alarms : ℕ → List Event
many_alarms zero = []
many_alarms (suc n) = alarm ∷ many_alarms n
