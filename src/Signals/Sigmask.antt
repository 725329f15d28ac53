-- ===== src/Signals/Sigmask.antt =====
-- src/tests/signal/sigtest_sigmask.cpp: the handler fills the mask of the context that it returns to.
use fex_assorted_tests_bins.Prelude.{
  ℕ, zero, suc, ◌≤◌, Bool, true, false, not, ◌≡◌, refl, ◌∙◌, ap, arith, if◌then◌else◌,
}
use fex_assorted_tests_bins.Signals.{
  Exit, running, exited, ◌>>=◌, Process, Handler, mark, return_to, IsBlocking,
}

pub record Globals : Type 0 where
  pub loop : Bool
  pub inhandler : Bool

abbrev pub P : Type 0
P = Process Globals

-- `sig_handler`; `sigfillset(&uctx->uc_sigmask)` masks the signal from the return on.
unfoldable pub sig_handler : Handler Globals
sig_handler raise s =
    if s.globals.inhandler
    then exited 255
    else raise (record s { globals = record { loop = false; inhandler = true } })
      >>= (λ t. running (record t { masked = true }))

-- `while (loop) raise(SIGN); return 0;`, with fuel.
unfoldable pub main_loop : ℕ → (P → Exit P) → P → Exit P
main_loop zero raise s = running s
main_loop (suc fuel) raise s = elim s.globals.loop [
  | true ↦ raise s >>= (λ t. main_loop fuel raise t)
  | false ↦ exited 0
]

-- `main`; `registered` is whether `sigaction` returned 0.
unfoldable pub main : ℕ → (P → Exit P) → Bool → P → Exit P
unfolding main_loop
main fuel raise registered s = if not registered then exited 254 else main_loop fuel raise s

abbrev pub initial : P
initial = record {
  globals = record { loop = true; inhandler = false };
  pending = false;
  masked = false;
}

-- A kernel that returns from the handler to the old mask, and so delivers the signal that waits.
pub record IgnoresMask (raise : P → Exit P) : Type 0 where
  pub deliver :
      (s : P)
      → s.masked ≡ false
      → raise s ≡ (
          sig_handler mark (record s { pending = false })
          >>= (λ t. return_to raise (running (record t { masked = false }))))

module _ (raise : P → Exit P) where
  -- On a kernel that blocks the signal while its handler runs and returns to the mask of the
  -- context, with fuel for two rounds, main of src/tests/signal/sigtest_sigmask.cpp returns 0.
  pub sigmask_passes :
      (fuel : ℕ) → 2 ≤ fuel → IsBlocking sig_handler raise → main fuel raise true initial ≡ exited 0
  sigmask_passes zero h law = absurd (omega arith)
  sigmask_passes (suc zero) h law = absurd (omega arith)
  sigmask_passes (suc (suc fuel)) h law =
      unfold main in ap {A = Exit P} (λ r. r >>= main_loop (suc fuel) raise) once
    where
      once :
          raise initial
          ≡ running (record {
            globals = record { loop = false; inhandler = true };
            pending = true;
            masked = true;
          })
      once = law.deliver initial refl ∙ (unfold sig_handler in refl)

  -- On a kernel that ignores the mask of the context, with fuel for one round, main of
  -- src/tests/signal/sigtest_sigmask.cpp exits with -1.
  pub sigmask_detects :
      (fuel : ℕ) → 1 ≤ fuel → IgnoresMask raise → main fuel raise true initial ≡ exited 255
  sigmask_detects zero h law = absurd (omega arith)
  sigmask_detects (suc fuel) h law =
      unfold main in ap {A = Exit P} (λ r. r >>= main_loop fuel raise) twice
    where
      inside : P
      inside = record {
        globals = record { loop = false; inhandler = true };
        pending = true;
        masked = false;
      }

      again : raise inside ≡ exited 255
      again = law.deliver inside refl ∙ (unfold sig_handler in refl)

      twice : raise initial ≡ exited 255
      twice = law.deliver initial refl ∙ (unfold sig_handler in again)
