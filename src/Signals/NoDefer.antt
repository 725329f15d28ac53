-- ===== src/Signals/NoDefer.antt =====
-- src/tests/signal/sigtest_no_defer.cpp: with SA_NODEFER the handler enters itself ten times deep.
use fex_assorted_tests_bins.Prelude.{
  ℕ, zero, suc, ◌+◌, ◌≤◌, Bool, true, false, not, ◌≡◌, refl, ◌∙◌, ap, arith, ltb, ◌==◌,
  if◌then◌else◌,
}
use fex_assorted_tests_bins.Signals.{
  Exit, running, exited, ◌>>=◌, Process, Handler, IsBlocking, IsNesting,
}

abbrev pub num_count : ℕ
num_count = 10

pub record Globals : Type 0 where
  pub loop : Bool
  pub count : ℕ
  pub count2 : ℕ

abbrev pub P : Type 0
P = Process Globals

abbrev pub with_globals : P → Globals → P
with_globals s g = record s { globals = g }

-- `sig_handler`
unfoldable pub sig_handler : Handler Globals
sig_handler raise s =
    let g = s.globals in
    if not (g.count == 0)
    then exited 255
    else if ltb g.count2 num_count
    then raise (with_globals s (record g { loop = false; count2 = g.count2 + 1 }))
      >>= (λ t. running (with_globals t (record t.globals { count = t.globals.count + 1 })))
    else exited 0

-- `while (loop) raise(SIGN); return -2;`, with fuel.
unfoldable pub main_loop : ℕ → (P → Exit P) → P → Exit P
main_loop zero raise s = running s
main_loop (suc fuel) raise s = elim s.globals.loop [
  | true ↦ raise s >>= (λ t. main_loop fuel raise t)
  | false ↦ exited 254
]

-- `main`; `registered` is whether `sigaction` returned 0.
unfoldable pub main : ℕ → (P → Exit P) → Bool → P → Exit P
unfolding main_loop
main fuel raise registered s = if not registered then exited 253 else main_loop fuel raise s

abbrev pub initial : P
initial = record {
  globals = record { loop = true; count = 0; count2 = 0 };
  pending = false;
  masked = false;
}

bind_exited : (r : Exit P) (f : P → Exit P) (c : ℕ) → r ≡ exited c → (r >>= f) ≡ exited c
bind_exited r f c e = ap {A = Exit P} (λ q. q >>= f) e

module _ (raise : P → Exit P) where
  raise_deep :
      (j c : ℕ) (s : P)
      → IsNesting sig_handler raise
      → c + j ≡ num_count
      → s.globals.count ≡ 0
      → s.globals.count2 ≡ c
      → s.masked ≡ false
      → raise s ≡ exited 0
  unfolding sig_handler
  raise_deep zero c s law e z k m = law.deliver s m ∙ ground arith
  raise_deep (suc j) c s law e z k m =
      let inner =
        with_globals s (record s.globals { loop = false; count2 = s.globals.count2 + 1 }) in
      let deeper = raise_deep j (c + 1) inner law (omega arith) z (omega arith) m in
      law.deliver s m ∙ ground arith

  -- On a kernel that lets the handler be entered while it runs, with fuel for one round, main of
  -- src/tests/signal/sigtest_no_defer.cpp exits with 0.
  pub no_defer_passes :
      (fuel : ℕ) → 1 ≤ fuel → IsNesting sig_handler raise → main fuel raise true initial ≡ exited 0
  no_defer_passes zero h law = absurd (omega arith)
  no_defer_passes (suc fuel) h law =
      unfold main in
      bind_exited (raise initial) (main_loop fuel raise) 0
        (raise_deep num_count 0 initial law (omega arith) refl refl refl)

  -- On a kernel that blocks the signal while its handler runs, with fuel for one round, main of
  -- src/tests/signal/sigtest_no_defer.cpp exits with -1.
  pub no_defer_detects :
      (fuel : ℕ)
      → 1 ≤ fuel
      → IsBlocking sig_handler raise
      → main fuel raise true initial ≡ exited 255
  no_defer_detects zero h law = absurd (omega arith)
  no_defer_detects (suc fuel) h law =
      unfold main in
      bind_exited (raise initial) (main_loop fuel raise) 255
        (law.deliver initial refl ∙ (unfold sig_handler in again))
    where
      second : P
      second = record {
        globals = record { loop = false; count = 1; count2 = 1 };
        pending = true;
        masked = false;
      }

      again : raise second ≡ exited 255
      again = law.deliver second refl ∙ (unfold sig_handler in refl)
