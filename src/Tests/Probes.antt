-- ===== src/Tests/Probes.antt =====
-- A run of `mmaptest` of src/memfd.cpp on a kernel that hands out addresses one behind the other, and of
-- src/shmid.cpp on one with a single key.
use fex_assorted_tests_bins.Prelude.{
  ℕ, ◌+◌, ◌-◌, ◌<◌, ◌≤◌, ◌≡◌, ◌⊎◌, inl, inr, refl, sym, ◌∙◌, ap, subst, true, false, Option, none,
  some, [], ◌∷◌, ◌==◌, ==_iff, ltb, lt→ltb, Bool-cases, arith, if◌then◌else◌,
}
use mathlib.Core.Option.{none-ne-some}
use fex_assorted_tests_bins.Smc.Machine.{within}
use fex_assorted_tests_bins.Probes.{
  Access, done, bus_error, View, Memory, pointers, expecting_bus_error, mmaptest,
}
use fex_assorted_tests_bins.Probes.Answers.{Shows, with_byte, IsMemory, mmaptest-bus_error}

record Pages : Type 0 where
  view : View
  next : ℕ
  bound : (x : ℕ) (q : ℕ × ℕ) → view.backing x ≡ some q → x < next

-- `len` more addresses that show an object, and `hole` addresses from `old` that show nothing.
abbrev grown : View → ℕ → ℕ → ℕ → ℕ → ℕ → View
grown v next len o old hole = record v {
  backing = λ x.
      if within next len x
      then some (o, x - next)
      else if within old hole x
      then none
      else v.backing x;
}

grown_bound :
    (s : Pages) (len o old hole x : ℕ) (q : ℕ × ℕ)
    → (grown s.view s.next len o old hole).backing x ≡ some q
    → x < s.next + len
grown_bound s len o old hole x q h = elim (Bool-cases (within s.next len x)) [
  | inl inside ↦ ground arith
  | inr outside ↦
      let old_one : (if within old hole x then none else s.view.backing x) ≡ some q =
        ap
          (λ b.
            if b
            then some (o, x - s.next)
            else if within old hole x
            then none
            else s.view.backing x)
          (sym outside)
        ∙ h in
      elim (Bool-cases (within old hole x)) [
        | inl gone ↦
            absurd
              (none-ne-some q (ap (λ b. if b then none else s.view.backing x) (sym gone) ∙ old_one))
        | inr left ↦
            let kept : s.view.backing x ≡ some q =
              ap (λ b. if b then none else s.view.backing x) (sym left) ∙ old_one in
            omega (arith, s.bound x q kept)
      ]
]

abbrev add : ℕ → ℕ → ℕ → ℕ → Pages → ℕ × Pages
add len o old hole s = (
  s.next,
  record {
    view = grown s.view s.next len o old hole;
    next = s.next + len;
    bound = grown_bound s len o old hole;
  },
)

abbrev object_of : Option (ℕ × ℕ) → ℕ
object_of none = 0
object_of (some q) = q.0

-- A store at a known place, by the test of its offset.
abbrev at_place : ℕ → Pages → Option (ℕ × ℕ) → Access Pages
at_place b s none = bus_error s
at_place b s (some q) =
    if ltb q.1 (s.view.size q.0)
    then done (record { view = with_byte s.view q.0 q.1 b; next = s.next; bound = s.bound })
    else bus_error s

abbrev stored : ℕ → ℕ → Pages → Access Pages
stored a b s = at_place b s (s.view.backing a)

stored_lem :
    (a b o i : ℕ) (s : Pages)
    → s.view.backing a ≡ some (o, i)
    → ltb i (s.view.size o) ≡ true
    → stored a b s ≡ done (record { view = with_byte s.view o i b; next = s.next; bound = s.bound })
stored_lem a b o i s h low = ap (at_place b s) h ∙ rw low refl

stored_out :
    (a b o i : ℕ) (s : Pages)
    → s.view.backing a ≡ some (o, i)
    → ltb i (s.view.size o) ≡ false
    → stored a b s ≡ bus_error s
stored_out a b o i s h high = ap (at_place b s) h ∙ rw high refl

abbrev sized : ℕ → ℕ → ℕ × Pages → ℕ × Pages
sized o len (a, s) = (
  a,
  record {
    view = record s.view { size = λ p. if p == o then len else s.view.size p };
    next = s.next;
    bound = s.bound;
  },
)

abbrev paged : Memory
paged = record {
  State = Pages;
  view = λ s. s.view;
  mmap = λ len s. sized s.next len (add len s.next 0 0 s);
  mremap = λ old len new s. add new (object_of (s.view.backing (old + 0))) old len s;
  store = stored;
}

grown-Shows : (v : View) (next len o old hole : ℕ) → Shows (grown v next len o old hole) next len o
grown-Shows v next len o old hole i low =
    let inside : within next len (next + i) ≡ true = ground arith in
    let back : next + i - next ≡ i = omega arith in rw (inside, back) refl

-- What is not in the hole stays.
grown_kept :
    (s : Pages) (len o old hole x : ℕ) (q : ℕ × ℕ)
    → within old hole x ≡ false
    → s.view.backing x ≡ some q
    → (grown s.view s.next len o old hole).backing x ≡ some q
grown_kept s len o old hole x q out h =
    let low = s.bound x q h in
    let outside : within s.next len x ≡ false = ground arith in rw (outside, out) h

not_within : (old len x : ℕ) → (x < old) ⊎ (old + len ≤ x) → within old len x ≡ false
not_within old len x (inl h) = ground arith
not_within old len x (inr h) = ground arith

paged-IsMemory : IsMemory paged
paged-IsMemory = record {
  mmap_law = λ len s. (
    s.next,
    grown-Shows s.view s.next len s.next 0 0,
    let e : (s.next == s.next) ≡ true = (==_iff s.next s.next).1 refl in rw e refl,
  );
  mirror_law = λ old new o s h.
      let same : object_of (s.view.backing (old + 0)) ≡ o = ap object_of h in
      (
        subst (λ p. Shows (grown s.view s.next new p old 0) s.next new o) (sym same)
            (grown-Shows s.view s.next new o old 0),
        λ p. refl,
        λ x q e. (
          grown_kept s new (object_of (s.view.backing (old + 0))) old 0 x q (ground arith) e,
          inl (s.bound x q e),
        ),
      );
  move_law = λ old len new o s some_len h.
      let same : object_of (s.view.backing (old + 0)) ≡ o = ap object_of (h 0 some_len) in
      (
        subst (λ p. Shows (grown s.view s.next new p old len) s.next new o) (sym same)
            (grown-Shows s.view s.next new o old len),
        λ p. refl,
        λ x q side e.
            grown_kept s new (object_of (s.view.backing (old + 0))) old len x q
              (not_within old len x side) e,
      );
  store_law = λ a b o i s h low.
      let small : ltb i (s.view.size o) ≡ true = lt→ltb i (s.view.size o) low in
      (
        record { view = with_byte s.view o i b; next = s.next; bound = s.bound },
        stored_lem a b o i s h small,
        refl,
      );
  bus_law = λ a b o i s h high. stored_out a b o i s h (ground arith);
}

abbrev empty : Pages
empty = record {
  view = record { backing = λ x. none; size = λ o. 0; byte = λ o i. 0 };
  next = 4096;
  bound = λ x q h. absurd (none-ne-some q h);
}

mmaptest-bus_error_example :
    (ptr : ℕ) × (ptr2 : ℕ) × (ptr3 : ℕ) × (o : ℕ) × (t : Pages) × (mmaptest paged empty
      ≡ (pointers ptr ptr2 ptr3 ∷ expecting_bus_error ∷ [], bus_error t))
    × (t.view.byte o 0 ≡ 1)
    × (t.view.byte o 1 ≡ 1)
    × Shows t.view ptr2 8192 o
    × Shows t.view ptr3 8192 o
mmaptest-bus_error_example = mmaptest-bus_error paged paged-IsMemory empty
