-- ===== src/Tests/Kept.antt =====
-- The machine of Tests.Machine with what a kernel keeps beside memory.
use fex_assorted_tests_bins.Prelude.{ℕ, Option, none, some, ◌≡◌, refl, sym, ap}
use mathlib.Core.Option.{some-injective, none-ne-some}
use fex_assorted_tests_bins.Smc.Machine.{View, Machine, update, protected, IsCoherent}
use fex_assorted_tests_bins.Tests.Machine.{
  flat_store, flat_call, joined, flat_store_lem, flat_call_lem,
}

module _ (Table : Type 0) where
  abbrev pub Kept : Type 0
  Kept = View × Table

  abbrev with_offset : Table → Option View → Option Kept
  with_offset o none = none
  with_offset o (some v) = some (v, o)

  abbrev pub returned : Table → Option (ℕ × View) → Option (ℕ × Kept)
  returned o none = none
  returned o (some (r, v)) = some (r, (v, o))

  abbrev waited : Kept → Option Kept → Option Kept
  waited s none = none
  waited s (some d) = some (joined s.0 d.0, s.1)

  abbrev pub kept : Machine
  kept = record {
    State = Kept;
    view = λ s. s.0;
    store = λ a x s. with_offset s.1 (flat_store a x s.0);
    call = λ a s. returned s.1 (flat_call a s.0);
    mprotect = λ a len prot s. (protected s.0 a prot, s.1);
    munmap = λ a len s. s;
    fork_wait = λ child s. waited s (child s);
  }

  kept_fork :
      (child : Kept → Option Kept) (s d : Kept) (w : View)
      → child s ≡ some d
      → d.0 ≡ w
      → waited s (child s) ≡ some (joined s.0 w, s.1)
  kept_fork child s d w e h = rw e (ap {A = View} (λ u. some (joined s.0 u, s.1)) h)

  pub kept-IsCoherent : IsCoherent kept
  kept-IsCoherent = record {
    store_law = λ a x p s at ok. (
      (record s.0 { byte = update s.0.byte p x }, s.1),
      ap (with_offset s.1) (flat_store_lem a x p s.0 at ok),
      refl,
    );
    call_law = λ a p b₀ b₁ b₂ b₃ s w r st.
        (s, ap (returned s.1) (flat_call_lem a p b₀ b₁ b₂ b₃ s.0 w r st), refl);
    mprotect_law = λ a p prot s al w. refl;
    fork_law = λ child s w run.
        let (d, e, h) = run s refl in ((joined s.0 w, s.1), kept_fork child s d w e h, refl);
  }

  pub returned_table :
      (o : Table) (x : Option (ℕ × View)) (r : ℕ) (t : Kept) → returned o x ≡ some (r, t) → t.1 ≡ o
  returned_table o none r t h = absurd (none-ne-some _ h)
  returned_table o (some (q, v)) r t h = sym (ap (λ (y : ℕ × Kept). y.1.1) (some-injective _ _ h))
