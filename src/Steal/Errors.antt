-- ===== src/Steal/Errors.antt =====
-- What a run may end in, in address-space-stealing/alloc.cpp: a value, or undefined behaviour.
use fex_assorted_tests_bins.Prelude.{◌≡◌, refl}

pub data Fault : Type 0 where
  out_of_bounds unread_buffer : Fault

pub data Outcome (A : Type 0) : Type 0 where
  ok : A → Outcome A
  fault : Fault → Outcome A

infixl 5 ◌>>=◌
abbrev pub ◌>>=◌ : {A B : Type 0} → Outcome A → (A → Outcome B) → Outcome B
ok a >>= f = f a
fault e >>= f = fault e

pub bind_assoc :
    {A B C : Type 0} (m : Outcome A) (f : A → Outcome B) (g : B → Outcome C)
    → ((m >>= f) >>= g) ≡ (m >>= (λ a. f a >>= g))
bind_assoc (ok a) f g = refl
bind_assoc (fault e) f g = refl
