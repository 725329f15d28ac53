-- ===== src/Signals/Samask.antt =====
-- src/tests/signal/sigtest_samask.cpp, without TESTSIGPROCMASK: the handler raises its own signal
-- ten times, and each time must have returned before it is entered again.
use fex_assorted_tests_bins.Prelude.{
  ℕ, zero, suc, ◌+◌, ◌≤◌, Bool, true, false, not, ◌≡◌, refl, ◌∙◌, ap, arith, ltb, ◌==◌,
  if◌then◌else◌,
}
use fex_assorted_tests_bins.Signals.{
  Exit, running, exited, ◌>>=◌, Process, Handler, mark, return_to, IsBlocking, IsNesting,
}

abbrev pub num_count : ℕ
num_count = 10

pub record Globals : Type 0 where
  pub loop : Bool
  pub last : Bool
  pub count : ℕ
  pub count2 : ℕ

abbrev pub P : Type 0
P = Process Globals

abbrev pub with_globals : P → Globals → P
with_globals s g = record s { globals = g }

-- `sig_handler`
unfoldable pub sig_handler : Handler Globals
sig_handler raise s =
    let g = s.globals in
    if g.last
    then running (with_globals s (record g { loop = false }))
    else if not (g.count2 == g.count)
    then exited 255
    else if ltb g.count num_count
    then raise (with_globals s (record g { loop = false; count2 = g.count2 + 1 }))
      >>= (λ t. running (with_globals t (record t.globals { count = t.globals.count + 1 })))
    else running (with_globals s (record g { loop = false }))

-- `while (loop) raise(SIGN);`, with fuel; then `next`.
unfoldable pub first_loop : ℕ → (P → Exit P) → (P → Exit P) → P → Exit P
first_loop zero raise next s = running s
first_loop (suc fuel) raise next s = elim s.globals.loop [
  | true ↦ raise s >>= (λ t. first_loop fuel raise next t)
  | false ↦ next s
]

-- `while (loop) { raise(SIGN); if (loop) return -3; } return 0;`
unfoldable pub last_loop : ℕ → (P → Exit P) → P → Exit P
last_loop zero raise s = running s
last_loop (suc fuel) raise s = elim s.globals.loop [
  | true ↦ raise s >>= (λ t. if t.globals.loop then exited 253 else last_loop fuel raise t)
  | false ↦ exited 0
]

-- `last = true; loop = true;` and the second loop.
abbrev second_part : ℕ → (P → Exit P) → P → Exit P
second_part fuel raise t =
    last_loop fuel raise (with_globals t (record t.globals { last = true; loop = true }))

-- `main`; `registered` is whether `signal` returned 0.
unfoldable pub main : ℕ → (P → Exit P) → Bool → P → Exit P
unfolding first_loop last_loop
main fuel raise registered s =
    if not registered
    then exited 254
    else first_loop fuel raise (second_part fuel raise)
        (with_globals s (record s.globals { last = false; loop = true }))

abbrev pub at_count : Bool → Bool → ℕ → P
at_count l z c = record {
  globals = record { loop = l; last = z; count = c; count2 = c };
  pending = false;
  masked = false;
}

abbrev pub initial : P
initial = at_count true false 0

module _ (raise : P → Exit P) where
  module _ (law : IsBlocking sig_handler raise) where
    -- Each delivery but the last makes the next one wait until it has returned.
    raise_from :
        (j c : ℕ) (s : P)
        → c + j ≡ num_count
        → s.globals.last ≡ false
        → s.globals.count ≡ c
        → s.globals.count2 ≡ c
        → s.masked ≡ false
        → raise s ≡ running (at_count false false num_count)
    raise_from zero c s e z k k2 m = law.deliver s m ∙ stop
      where
        stop :
            return_to raise (sig_handler mark (record s { pending = false }))
            ≡ running (at_count false false num_count)
        stop = unfold sig_handler in ground arith
    raise_from (suc j) c s e z k k2 m =
        law.deliver s m ∙ again ∙ raise_from j (c + 1) next (omega arith) refl refl refl refl
      where
        next : P
        next = record {
          globals = record { loop = false; last = false; count = c + 1; count2 = c + 1 };
          pending = true;
          masked = false;
        }

        again : return_to raise (sig_handler mark (record s { pending = false })) ≡ raise next
        again = unfold sig_handler in ground arith

    raise_last :
        (s : P)
        → s.globals.last ≡ true
        → s.masked ≡ false
        → raise s
          ≡ running (record s { globals = record s.globals { loop = false }; pending = false })
    raise_last s z m = law.deliver s m ∙ (unfold sig_handler in ground arith)

    -- On a kernel that blocks the signal while its handler runs, and with fuel for two rounds, main
    -- of src/tests/signal/sigtest_samask.cpp returns 0.
    pub samask_passes : (fuel : ℕ) → 2 ≤ fuel → main fuel raise true initial ≡ exited 0
    unfolding main
    samask_passes zero h = absurd (omega arith)
    samask_passes (suc zero) h = absurd (omega arith)
    samask_passes (suc (suc fuel)) h =
        ap (λ r. r >>= first_loop (suc fuel) raise (second_part (suc (suc fuel)) raise))
          (raise_from num_count 0 initial (omega arith) refl refl refl refl)
        ∙ ap (λ r. r >>= (λ t. if t.globals.loop then exited 253 else last_loop (suc fuel) raise t))
            (raise_last (at_count true true num_count) refl refl)

  -- On a kernel that delivers the signal in the middle of its handler, and with fuel for one round,
  -- main of src/tests/signal/sigtest_samask.cpp exits with -1.
  pub samask_detects :
      (fuel : ℕ)
      → 1 ≤ fuel
      → IsNesting sig_handler raise
      → main fuel raise true initial ≡ exited 255
  samask_detects zero h law = absurd (omega arith)
  samask_detects (suc fuel) h law =
      unfold main in
      ap {A = Exit P} (λ r. r >>= first_loop fuel raise (second_part (suc fuel) raise)) entered
    where
      inner : P
      inner = record {
        globals = record { loop = false; last = false; count = 0; count2 = 1 };
        pending = false;
        masked = false;
      }

      reentered : raise inner ≡ exited 255
      reentered = law.deliver inner refl ∙ (unfold sig_handler in refl)

      entered : raise initial ≡ exited 255
      entered =
          law.deliver initial refl
          ∙ (unfold sig_handler in
              ap {A = Exit P}
                (λ r. r >>= (λ (t : P).
                  running (with_globals t (record t.globals { count = t.globals.count + 1 }))))
                reentered)
