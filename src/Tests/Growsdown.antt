-- ===== src/Tests/Growsdown.antt =====
-- A kernel that meets the laws of src/prot-growsdown.cpp, and a run of its `main`.
use fex_assorted_tests_bins.Prelude.{
  ℕ, zero, suc, ◌+◌, ◌-◌, ◌*◌, ◌/◌, ◌≤◌, ◌≡◌, refl, sym, subst, ◌∙◌, Bool, true, false, ◌&&◌,
  Option, none, some, [], ◌∷◌, leb, ◌==◌, ==_iff, Bool-cases, inl, inr, arith, if◌then◌else◌,
}
use fex_assorted_tests_bins.Smc.Machine.{update, imm32, within}
use fex_assorted_tests_bins.Growsdown.{Rights, Kernel, IsKernel, title, smc, done, main}
use fex_assorted_tests_bins.Growsdown.Passing.{main-Ends}

abbrev pub eqb : Bool → Bool → Bool
eqb true true = true
eqb false false = true
eqb true false = false
eqb false true = false

abbrev pub same_rights : Option Rights → Option Rights → Bool
same_rights none none = true
same_rights none (some r) = false
same_rights (some r) none = false
same_rights (some r) (some u) = eqb r.read u.read && eqb r.write u.write && eqb r.exec u.exec

pub eqb_refl : (a : Bool) → eqb a a ≡ true
eqb_refl true = refl
eqb_refl false = refl

pub eqb_lem : (a b : Bool) → eqb a b ≡ true → a ≡ b
eqb_lem true true h = refl
eqb_lem false false h = refl
eqb_lem true false h = cc
eqb_lem false true h = cc

pub same_rights_refl : (o : Option Rights) → same_rights o o ≡ true
same_rights_refl none = refl
same_rights_refl (some r) = rw (eqb_refl r.read, eqb_refl r.write, eqb_refl r.exec) refl

pub both_true : (a b : Bool) → (a && b) ≡ true → (a ≡ true) × (b ≡ true)
both_true true true h = (refl, refl)
both_true true false h = cc
both_true false b h = cc

pub same_rights_lem : (o u : Option Rights) → same_rights o u ≡ true → o ≡ u
same_rights_lem none none h = refl
same_rights_lem none (some u) h = cc
same_rights_lem (some r) none h = cc
same_rights_lem (some r) (some u) h =
    let (rest, h₂) = both_true (eqb r.read u.read && eqb r.write u.write) (eqb r.exec u.exec) h in
    let (h₀, h₁) = both_true (eqb r.read u.read) (eqb r.write u.write) rest in
    let e₀ = eqb_lem r.read u.read h₀ in
    let e₁ = eqb_lem r.write u.write h₁ in let e₂ = eqb_lem r.exec u.exec h₂ in cc

record Pages : Type 0 where
  byte : ℕ → ℕ
  rights : ℕ → Option Rights
  mapping : ℕ → ℕ
  next : ℕ

-- Whether the pages from `j` to `j + n` are like page `p`.
abbrev all_same : Pages → ℕ → ℕ → ℕ → Bool
all_same s p j zero = same_rights (s.rights j) (s.rights p) && s.mapping j == s.mapping p
all_same s p j (suc n) =
    (same_rights (s.rights j) (s.rights p) && s.mapping j == s.mapping p) && all_same s p (j + 1) n

all_same_lem :
    (s : Pages) (p j n : ℕ)
    → ((i : ℕ) → j ≤ i → i ≤ j + n → (s.rights i ≡ s.rights p) × (s.mapping i ≡ s.mapping p))
    → all_same s p j n ≡ true
all_same_lem s p j zero h =
    let (e, e') = h j (omega arith) (omega arith) in
    let same : same_rights (s.rights j) (s.rights p) ≡ true =
      subst (λ x. same_rights x (s.rights p) ≡ true) (sym e) (same_rights_refl (s.rights p)) in
    let one : (s.mapping j == s.mapping p) ≡ true = (==_iff (s.mapping j) (s.mapping p)).1 e' in
    rw (same, one) refl
all_same_lem s p j (suc n) h =
    let (e, e') = h j (omega arith) (omega arith) in
    let same : same_rights (s.rights j) (s.rights p) ≡ true =
      subst (λ x. same_rights x (s.rights p) ≡ true) (sym e) (same_rights_refl (s.rights p)) in
    let one : (s.mapping j == s.mapping p) ≡ true = (==_iff (s.mapping j) (s.mapping p)).1 e' in
    let rest : all_same s p (j + 1) n ≡ true =
      all_same_lem s p (j + 1) n (λ i a b. h i (omega arith) (omega arith)) in
    rw (same, one, rest) refl

all_same_stop :
    (s : Pages) (p i j n : ℕ)
    → j ≤ i
    → i ≤ j + n
    → all_same s p j n ≡ true
    → s.rights i ≡ s.rights p
all_same_stop s p i j zero a b h =
    let (e, e') =
      both_true (same_rights (s.rights j) (s.rights p)) (s.mapping j == s.mapping p) h in
    let here : i ≡ j = omega arith in
    subst (λ x. s.rights x ≡ s.rights p) (sym here) (same_rights_lem (s.rights j) (s.rights p) e)
all_same_stop s p i j (suc n) a b h =
    let (e, rest) =
      both_true (same_rights (s.rights j) (s.rights p) && s.mapping j == s.mapping p)
        (all_same s p (j + 1) n) h in
    elim (Bool-cases (i == j)) [
      | inr o ↦ all_same_stop s p i (j + 1) n (ground arith) (omega arith) rest
      | inl o ↦
          subst (λ x. s.rights x ≡ s.rights p) (sym ((==_iff i j).0 o))
            (same_rights_lem (s.rights j) (s.rights p)
              (both_true (same_rights (s.rights j) (s.rights p)) (s.mapping j == s.mapping p) e).0)
    ]

abbrev set_rights : ℕ → Rights → Pages → Pages
set_rights p r s = record s { rights = λ x. if x == p then some r else s.rights x }

abbrev set_down : ℕ → Rights → Pages → Pages
set_down p r s = record s {
  rights = λ j. if leb j p && all_same s p j (p - j) then some r else s.rights j;
}

abbrev may_write : Option Rights → Bool
may_write o = elim o [ none ↦ false | some r ↦ r.write ]

abbrev may_exec : Option Rights → Bool
may_exec o = elim o [ none ↦ false | some r ↦ r.exec ]

abbrev paged : Kernel
paged = record {
  State = Pages;
  byte = λ s. s.byte;
  rights = λ s. s.rights;
  mapping = λ s. s.mapping;
  mmap = λ r s. (
    s.next,
    record s {
      rights = λ x. if within s.next 3 x then some r else s.rights x;
      mapping = λ x. if within s.next 3 x then s.next else s.mapping x;
      next = s.next + 3;
    },
  );
  mprotect = set_rights;
  mprotect_down = set_down;
  munmap = λ p s. record s { rights = λ x. if within p 3 x then none else s.rights x };
  store = λ a v s.
      if may_write (s.rights (a / 4096))
      then some (record s { byte = update s.byte a v })
      else none;
  call = λ a s.
      if may_exec (s.rights (a / 4096)) && s.byte (a + 0) == 0xB8 && s.byte (a + 5) == 0xC3
      then some (imm32 (s.byte (a + 1)) (s.byte (a + 2)) (s.byte (a + 3)) (s.byte (a + 4)), s)
      else none;
}

paged-IsKernel : IsKernel paged
paged-IsKernel = record {
  mmap_law = λ r s i h. (ground arith, ground arith);
  mprotect_law = λ p r old s h. (ground arith, λ x d. ground arith, λ x. refl);
  down_law = λ p j r old s h k.
      let (top, _) = k p h (omega arith) in
      let e : all_same s p j (p - j) ≡ true =
        all_same_lem s p j (p - j)
          (λ i a b. let (c, d) = k i a (omega arith) in (c ∙ sym top, d)) in
      let low : leb j p ≡ true = ground arith in rw (low, e) refl;
  stop_law = λ p i j r s a b d.
      let e : all_same s p j (p - j) ≡ false = elim (Bool-cases (all_same s p j (p - j))) [
        | inr o ↦ o
        | inl o ↦ absurd (d (all_same_stop s p i j (p - j) a (omega arith) o))
      ] in
      let low : leb j p ≡ true = ground arith in rw (low, e) refl;
  store_law =
      λ a v r s e ok. (record s { byte = update s.byte a v }, rw e (rw ok refl), refl, refl);
  call_law = λ p b₀ b₁ b₂ b₃ r s e ok stub. (
    s,
    (let page : p * 4096 / 4096 ≡ p = omega arith in
        rw (page, e)
          (rw (ok, stub.opcode, stub.ret, stub.imm₀, stub.imm₁, stub.imm₂, stub.imm₃) refl)),
    refl,
    refl,
  );
}

empty_pages : Pages
empty_pages = record { byte = λ a. 0; rights = λ x. none; mapping = λ x. 0; next = 16 }

main-Ends_example :
    (t : Pages) × (main paged empty_pages
      ≡ some (
        title "R/W growsdown"
            ∷ title "new vma doesn't growsdown"
            ∷ title "vma merging growsdown"
            ∷ title "code modification after growsdown"
            ∷ smc true
            ∷ title "code modification w/ new vma + growsdown"
            ∷ smc true
            ∷ title "code modification w/ vma merging + growsdown"
            ∷ smc true
            ∷ done
            ∷ [],
        t,
      ))
main-Ends_example = main-Ends paged paged-IsKernel empty_pages
