-- ===== src/Tests/Machine.antt =====
-- A machine that meets the laws of Smc.Machine: memory is the view itself.
use fex_assorted_tests_bins.Prelude.{
  ℕ, ◌+◌, Bool, true, ◌&&◌, Option, none, some, ◌≡◌, refl, arith, ◌==◌, if◌then◌else◌, ap,
}
use fex_assorted_tests_bins.Smc.Machine.{
  View, Machine, update, within, protected, imm32, IsWindow, MayRun, IsStub, IsCoherent,
}

abbrev pub fetch : View → ℕ → ℕ
fetch v a = elim (v.phys a) [ none ↦ 0 | some p ↦ v.byte p ]

abbrev pub flat_store : ℕ → ℕ → View → Option View
flat_store a x v = elim (v.phys a) [
  | none ↦ none
  | some p ↦ if v.writable a then some (record v { byte = update v.byte p x }) else none
]

abbrev pub may_run : View → ℕ → Bool
may_run v a =
    v.executable (a + 0)
    && v.executable (a + 1)
    && v.executable (a + 2)
    && v.executable (a + 3)
    && v.executable (a + 4)
    && v.executable (a + 5)

abbrev pub flat_call : ℕ → View → Option (ℕ × View)
flat_call a v =
    if may_run v a && fetch v (a + 0) == 0xB8 && fetch v (a + 5) == 0xC3
    then some (imm32 (fetch v (a + 1)) (fetch v (a + 2)) (fetch v (a + 3)) (fetch v (a + 4)), v)
    else none

abbrev pub joined : View → View → View
joined v w = record v { byte = λ q. if v.shared q then w.byte q else v.byte q }

abbrev pub flat : Machine
flat = record {
  State = View;
  view = λ v. v;
  store = flat_store;
  call = flat_call;
  mprotect = λ a len prot v. protected v a prot;
  munmap = λ a len v. record v { phys = λ x. if within a len x then none else v.phys x };
  fork_wait = λ child v. elim (child v) [ none ↦ none | some w ↦ some (joined v w) ];
}

pub flat_store_lem :
    (a x p : ℕ) (v : View)
    → v.phys a ≡ some p
    → v.writable a ≡ true
    → flat_store a x v ≡ some (record v { byte = update v.byte p x })
flat_store_lem a x p v at ok = ground arith

pub flat_call_lem :
    (a p b₀ b₁ b₂ b₃ : ℕ) (v : View)
    → IsWindow v a p 6
    → MayRun v a 6
    → IsStub v.byte p b₀ b₁ b₂ b₃
    → flat_call a v ≡ some (imm32 b₀ b₁ b₂ b₃, v)
flat_call_lem a p b₀ b₁ b₂ b₃ v w r s = ground (
  arith,
  w 0 (omega arith),
  w 1 (omega arith),
  w 2 (omega arith),
  w 3 (omega arith),
  w 4 (omega arith),
  w 5 (omega arith),
  r 0 (omega arith),
  r 1 (omega arith),
  r 2 (omega arith),
  r 3 (omega arith),
  r 4 (omega arith),
  r 5 (omega arith),
)

pub flat_fork_lem :
    (child : View → Option View) (v d w : View)
    → child v ≡ some d
    → d ≡ w
    → (elim (child v) [ none ↦ none | some u ↦ some (joined v u) ]) ≡ some (joined v w)
flat_fork_lem child v d w e h = rw (e, joined) (ap {A = View} (λ u. some (joined v u)) h)

abbrev pub flat-IsCoherent : IsCoherent flat
flat-IsCoherent = record {
  store_law =
      λ a x p v at ok. (record v { byte = update v.byte p x }, flat_store_lem a x p v at ok, refl);
  call_law = λ a p b₀ b₁ b₂ b₃ v w r s. (v, flat_call_lem a p b₀ b₁ b₂ b₃ v w r s, refl);
  mprotect_law = λ a p prot v al w. refl;
  fork_law = λ child v w run.
      let (d, e, h) = run v refl in (joined v w, flat_fork_lem child v d w e h, refl);
}
