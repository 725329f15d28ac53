-- ===== src/Smc/Action.antt =====
-- Programs over a machine of src/smc*.cpp: state passing that may be killed, and how such a
-- program runs step by step.
use fex_assorted_tests_bins.Prelude.{
  ℕ, Bool, Option, none, some, ◌≡◌, refl, ◌∙◌, true, false, subst, sym,
}
use fex_assorted_tests_bins.Smc.Machine.{
  IsAligned, Prot, View, Machine, update, protected, imm32, IsWindow, MayRun, IsStub, IsCoherent,
}
use fex_assorted_tests_bins.Prelude.{ap}

module _ {S : Type 0} where
  infixl 5 ◌>>=◌ ◌>>◌
  abbrev pub ◌>>=◌ :
      {A B : Type 0} → (S → Option (A × S)) → (A → S → Option (B × S)) → S → Option (B × S)
  ◌>>=◌ m f s = elim (m s) [ none ↦ none | some (a, t) ↦ f a t ]

  abbrev pub ◌>>◌ :
      {B : Type 0} → (S → Option (Unit {0} × S)) → (S → Option (B × S)) → S → Option (B × S)
  m >> k = m >>= λ _. k

  abbrev pub pure : {A : Type 0} → A → S → Option (A × S)
  pure a s = some (a, s)

  -- A run that ends well has ended well in each of its parts.
  pub bind-eq-some :
      {A B : Type 0} (o : Option (A × S)) (f : A → S → Option (B × S)) {r : B × S}
      → (elim o [ none ↦ none | some (a, t) ↦ f a t ]) ≡ some r
      → (a : A) × (t : S) × (o ≡ some (a, t)) × (f a t ≡ some r)
  bind-eq-some none f h = cc
  bind-eq-some (some (a, t)) f h = (a, t, refl, h)

  pub bind_some :
      {A B : Type 0} (o : Option (A × S)) (f : A → S → Option (B × S)) (a : A) (t : S)
      → o ≡ some (a, t)
      → (elim o [ none ↦ none | some (b, u) ↦ f b u ]) ≡ f a t
  bind_some {A} {B} o f a t e =
      ap {A = Option (A × S)}
        (λ r. elim r as (λ _. Option (B × S)) [ none ↦ none | some (b, u) ↦ f b u ]) e

  -- `assert`
  abbrev pub assert : Bool → S → Option (Unit {0} × S)
  assert true s = some (tt, s)
  assert false s = none

module _ (m : Machine) where
  open m use {State, view, store, call, mprotect, fork_wait}

  abbrev pub Action : Type 0 → Type 0
  Action A = State → Option (A × State)

  -- `*a = v` as an action
  unfoldable pub poke : ℕ → ℕ → Action (Unit {0})
  poke a v s = elim (store a v s) [ none ↦ none | some t ↦ some (tt, t) ]

  unfoldable pub protect : ℕ → ℕ → Prot → Action (Unit {0})
  protect a len prot s = some (tt, mprotect a len prot s)

  -- The run gives `a`, and leaves memory that looks like `w`.
  abbrev pub Runs : {A : Type 0} → Option (A × State) → A → View → Type 0
  Runs o a w = (t : State) × (o ≡ some (a, t)) × (view t ≡ w)

  pub Runs-bind :
      {A B : Type 0} {a : A} {b : B} {v w : View} (o : Option (A × State))
      (f : A → State → Option (B × State))
      → Runs o a v
      → ((t : State) → view t ≡ v → Runs (f a t) b w)
      → Runs (elim o [ none ↦ none | some (a', t) ↦ f a' t ]) b w
  Runs-bind {a} {b} {w = w} o f (t, e, h) next =
      subst (λ r. Runs (elim r [ none ↦ none | some (a', u) ↦ f a' u ]) b w) (sym e) (next t h)

  module _ (law : IsCoherent m) where
    pub Runs-poke :
        (a x p : ℕ) {s : State} {v : View}
        → view s ≡ v
        → v.phys a ≡ some p
        → v.writable a ≡ true
        → Runs (poke a x s) tt (record v { byte = update v.byte p x })
    unfolding poke
    Runs-poke a x p {s} h at ok =
        let (t, e, h') =
          law.store_law a x p s (ap {A = View} (λ v. v.phys a) h ∙ at)
            (ap {A = View} (λ v. v.writable a) h ∙ ok) in
        (t, rw (e, poke), h' ∙ ap {A = View} (λ v. record v { byte = update v.byte p x }) h)

    pub Runs-call :
        (a p b₀ b₁ b₂ b₃ : ℕ) {s : State} {v : View}
        → view s ≡ v
        → IsWindow v a p 6
        → MayRun v a 6
        → IsStub v.byte p b₀ b₁ b₂ b₃
        → Runs (call a s) (imm32 b₀ b₁ b₂ b₃) v
    Runs-call a p b₀ b₁ b₂ b₃ {s} h =
        subst
          (λ v.
            IsWindow v a p 6
            → MayRun v a 6
            → IsStub v.byte p b₀ b₁ b₂ b₃
            → Runs (call a s) (imm32 b₀ b₁ b₂ b₃) v)
          h (law.call_law a p b₀ b₁ b₂ b₃ s)

    pub Runs-protect :
        (a p : ℕ) (prot : Prot) {s : State} {v : View}
        → view s ≡ v
        → IsAligned a
        → IsWindow v a p 4096
        → Runs (protect a 4096 prot s) tt (protected v a prot)
    unfolding protect
    Runs-protect a p prot {s} h aligned =
        subst (λ v. IsWindow v a p 4096 → Runs (protect a 4096 prot s) tt (protected v a prot)) h
          (λ window. (mprotect a 4096 prot s, refl, law.mprotect_law a p prot s aligned window))
