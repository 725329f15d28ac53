-- ===== src/Race/Turns.antt =====
-- Single turns of the threads of src/smc-mt-2.cpp, and the bytes written so far.
use fex_assorted_tests_bins.Prelude.{
  ℕ, ◌+◌, ◌<◌, Bool, true, false, List, [], ◌∷◌, ◌≡◌, refl, sym, subst, ◌∙◌, ap, arith,
  if◌then◌else◌, ◌==◌, inl, inr, lt-cases,
}
use fex_assorted_tests_bins.Smc.Machine.{update, imm32, IsStub}
use fex_assorted_tests_bins.Race.{
  Point, generating, waiting, exited, State, Turn, of_thread, of_main, stub_byte, thread_step,
  main_step, turn, run,
}

-- A processor that runs what the bytes say when it is called.
abbrev pub IsFresh : ((ℕ → ℕ) → ℕ) → Type 0
IsFresh call = (f : ℕ → ℕ) (b₀ b₁ b₂ b₃ : ℕ) → IsStub f 0 b₀ b₁ b₂ b₃ → call f ≡ imm32 b₀ b₁ b₂ b₃

abbrev pub thread_turns : List Turn → ℕ
thread_turns [] = 0
thread_turns (of_thread ∷ ts) = thread_turns ts + 1
thread_turns (of_main ∷ ts) = thread_turns ts

-- The first `k` bytes of the routine, with `b` in the one that changes.
abbrev pub Generated : ℕ → ℕ → (ℕ → ℕ) → Type 0
Generated b k f = (i : ℕ) → i < k → f i ≡ (if i == 3 then b else stub_byte i)

pub Generated-IsStub : (b : ℕ) (f : ℕ → ℕ) → Generated b 6 f → IsStub f 0 0xAA 0xBB b 0xDD
Generated-IsStub b f h = record {
  opcode = h 0 (omega arith);
  imm₀ = h 1 (omega arith);
  imm₁ = h 2 (omega arith);
  imm₂ = h 3 (omega arith);
  imm₃ = h 4 (omega arith);
  ret = h 5 (omega arith);
}

pub own_store :
    (f : ℕ → ℕ) (k b x : ℕ) → (k ≡ 3 → b ≡ x) → update f k x k ≡ (if k == 3 then b else x)
own_store f k b x h = ground arith

-- The thread's next store; at the fourth it is its own byte that counts.
pub store-Generated :
    (b k : ℕ) (f : ℕ → ℕ)
    → (k ≡ 3 → b ≡ 0xCC)
    → Generated b k f
    → Generated b (k + 1) (update f k (stub_byte k))
store-Generated b k f own h i lt = elim (lt-cases i k) [
  | inl before ↦ let other : (k == i) ≡ false = ground arith in rw other (h i before)
  | inr last ↦
      let same : k ≡ i = omega arith in
      subst (λ j. update f k (stub_byte k) j ≡ (if j == 3 then b else stub_byte j)) same
        (own_store f k b (stub_byte k) (λ e. own e ∙ sym (ap stub_byte e)))
]

pub other_byte : (c : Bool) (b : ℕ) → c ≡ false → (if c then 0xCC else b) ≡ (if c then 0xFE else b)
other_byte c b h = ground arith

abbrev pub at : (ℕ → ℕ) → Point → Bool → State
at f p b = record { bytes = f; point = p; patched = b }

-- Nothing is stored yet.
abbrev pub start : (ℕ → ℕ) → State
start f = at f (generating 0) false

module _ (call : (ℕ → ℕ) → ℕ) where
  pub after :
      (s : State) {u : State} (t : Turn) (ts : List Turn) (Q : State → Type 0)
      → turn call t s ≡ u
      → Q (run call ts u)
      → Q (run call (t ∷ ts) s)
  unfolding run
  after s t ts Q e h = subst (λ v. Q (run call ts v)) (sym e) h

  pub ended : (s : State) (Q : State → Type 0) → Q s → Q (run call [] s)
  unfolding run
  ended s Q h = h

  pub turn_stored :
      (f : ℕ → ℕ) (k : ℕ) (b : Bool)
      → k < 6
      → turn call of_thread (at f (generating k) b)
        ≡ at (update f k (stub_byte k)) (generating (k + 1)) b
  unfolding turn thread_step
  turn_stored f k b h = ground arith

  pub turn_written :
      (f : ℕ → ℕ) (b : Bool) → turn call of_thread (at f (generating 6) b) ≡ at f waiting b
  unfolding turn thread_step
  turn_written f b = refl

  pub turn_exited : (t : Turn) (f : ℕ → ℕ) → turn call t (at f exited true) ≡ at f exited true
  unfolding turn thread_step main_step
  turn_exited of_thread f = refl
  turn_exited of_main f = refl

  pub turn_patched : (f : ℕ → ℕ) (p : Point) → turn call of_main (at f p true) ≡ at f p true
  unfolding turn main_step
  turn_patched f p = refl

  pub turn_patches :
      (f : ℕ → ℕ) (p : Point) → turn call of_main (at f p false) ≡ at (update f 3 0xFE) p true
  unfolding turn main_step
  turn_patches f p = refl

  module _ (law : IsFresh call) where
    pub turn_waits :
        (f : ℕ → ℕ) (b : Bool)
        → Generated 0xCC 6 f
        → turn call of_thread (at f waiting b) ≡ at f waiting b
    unfolding turn thread_step
    turn_waits f b h = rw (law f 0xAA 0xBB 0xCC 0xDD (Generated-IsStub 0xCC f h)) refl

    pub turn_leaves :
        (f : ℕ → ℕ) (b : Bool)
        → Generated 0xFE 6 f
        → turn call of_thread (at f waiting b) ≡ at f exited b
    unfolding turn thread_step
    turn_leaves f b h = rw (law f 0xAA 0xBB 0xFE 0xDD (Generated-IsStub 0xFE f h)) refl
