-- ===== src/Nested/Counted.antt =====
-- What holds of src/signals-nested-2.cpp between any two steps.
use fex_assorted_tests_bins.Prelude.{
  ◌∙◌, ap, ℕ, suc, ◌+◌, ◌≤◌, ◌≡◌, refl, false, none, some, List, [], ◌∷◌, leb, All, arith, subst,
  sym, Bool-cases, inl, inr,
}
use fex_assorted_tests_bins.Nested.Kills.{
  Frame, entered, announced, testing, State, initial, kill, check, deliver, announce, enter, test,
  leave, quit, quitted, Point, killing, checking, finishing, blocked, Step, killed, checked,
  delivered, announced_one, handled, tested, left, Reach, here, next,
}

-- A handler in its loop has at most 100 calls left.
abbrev pub InLoop : Frame → Type 0
InLoop entered = ⊥
InLoop announced = ⊥
InLoop (testing n) = n ≤ 100

-- Only the running handler may be at its start.
abbrev pub AreNested : List Frame → Type 0
AreNested [] = Unit {0}
AreNested (entered ∷ fs) = All InLoop fs
AreNested (announced ∷ fs) = All InLoop fs
AreNested (testing n ∷ fs) = (n ≤ 100) × All InLoop fs

-- How many open handlers have counted.
abbrev pub counted : List Frame → ℕ
counted [] = 0
counted (entered ∷ fs) = counted fs
counted (announced ∷ fs) = counted fs
counted (testing n ∷ fs) = suc (counted fs)

-- What was printed and not yet counted.
abbrev pub uncounted : List Frame → ℕ
uncounted [] = 0
uncounted (entered ∷ fs) = 0
uncounted (announced ∷ fs) = 1
uncounted (testing n ∷ fs) = 0

-- How often `thread` has printed "Finished".
abbrev pub finishes : Point → ℕ
finishes killing = 0
finishes checking = 0
finishes finishing = 1

pub record IsSound (s : State) : Type 0 where
  pub lines : s.printed ≡ s.sigcount + uncounted s.frames
  pub nested : AreNested s.frames
  pub open_handlers : counted s.frames ≤ s.sigcount
  pub finished_once : s.finished_lines ≡ finishes s.point
  pub enough : s.point ≡ finishing → 1000 ≤ s.sigcount
  pub finished : (x : ℕ) → s.status ≡ some x → (x ≡ 0) × (s.point ≡ finishing)

AreNested-InLoop : (fs : List Frame) → AreNested fs → blocked fs ≡ false → All InLoop fs
AreNested-InLoop [] h e = h
AreNested-InLoop (entered ∷ fs) h e = cc
AreNested-InLoop (announced ∷ fs) h e = cc
AreNested-InLoop (testing n ∷ fs) h e = h

All-AreNested : (fs : List Frame) → All InLoop fs → AreNested fs
All-AreNested [] h = h
All-AreNested (entered ∷ fs) h = absurd (h.0)
All-AreNested (announced ∷ fs) h = absurd (h.0)
All-AreNested (testing n ∷ fs) h = h

All-uncounted : (fs : List Frame) → All InLoop fs → uncounted fs ≡ 0
All-uncounted [] h = refl
All-uncounted (entered ∷ fs) h = refl
All-uncounted (announced ∷ fs) h = absurd (h.0)
All-uncounted (testing n ∷ fs) h = refl

initial-IsSound : IsSound initial
initial-IsSound = record {
  lines = refl;
  nested = tt;
  open_handlers = omega arith;
  finished_once = refl;
  enough = λ e. cc;
  finished = λ x e. cc;
}

check-IsSound : (s : State) → s.status ≡ none → s.point ≡ checking → IsSound s → IsSound (check s)
unfolding check
check-IsSound s running p h =
    let none_yet : s.finished_lines ≡ 0 = h.finished_once ∙ ap finishes p in
    elim (Bool-cases (leb 1000 s.sigcount)) [
      | inl o ↦ rw o (record {
        lines = h.lines;
        nested = h.nested;
        open_handlers = h.open_handlers;
        finished_once = omega (arith, none_yet);
        enough = λ e. ground arith;
        finished = λ x e. cc;
      })
      | inr o ↦ rw o (record {
        lines = h.lines;
        nested = h.nested;
        open_handlers = h.open_handlers;
        finished_once = none_yet;
        enough = λ e. cc;
        finished = λ x e. cc;
      })
    ]

Step-IsSound : {s t : State} → IsSound s → Step s t → IsSound t
unfolding kill quit deliver announce enter test leave
Step-IsSound {s} h (killed running p e) = subst IsSound (sym e) (record {
  lines = h.lines;
  nested = h.nested;
  open_handlers = h.open_handlers;
  finished_once = h.finished_once ∙ ap finishes p;
  enough = λ e'. cc;
  finished = λ x e'. cc;
})
Step-IsSound {s} h (checked running p e) = subst IsSound (sym e) (check-IsSound s running p h)
Step-IsSound {s} h (quitted running p e) = subst IsSound (sym e) (record {
  lines = h.lines;
  nested = h.nested;
  open_handlers = h.open_handlers;
  finished_once = h.finished_once;
  enough = h.enough;
  finished = λ x e'. (cc, p);
})
Step-IsSound {s} h (delivered running p free e) = subst IsSound (sym e) (record {
  lines = omega (arith, h.lines, All-uncounted s.frames (AreNested-InLoop s.frames h.nested free));
  nested = AreNested-InLoop s.frames h.nested free;
  open_handlers = h.open_handlers;
  finished_once = h.finished_once;
  enough = h.enough;
  finished = h.finished;
})
Step-IsSound {s} h (announced_one below running f e) =
    let nested : AreNested (entered ∷ below) = subst AreNested f h.nested in
    let few : counted (entered ∷ below) ≤ s.sigcount =
      subst (λ fs. counted fs ≤ s.sigcount) f h.open_handlers in
    let lines : s.printed ≡ s.sigcount + uncounted (entered ∷ below) =
      subst (λ fs. s.printed ≡ s.sigcount + uncounted fs) f h.lines in
    subst IsSound (sym e) (record {
      lines = omega (arith, lines);
      nested = nested;
      open_handlers = few;
      finished_once = h.finished_once;
      enough = h.enough;
      finished = h.finished;
    })
Step-IsSound {s} h (handled below running f e) =
    let nested : AreNested (announced ∷ below) = subst AreNested f h.nested in
    let few : counted (announced ∷ below) ≤ s.sigcount =
      subst (λ fs. counted fs ≤ s.sigcount) f h.open_handlers in
    let lines : s.printed ≡ s.sigcount + uncounted (announced ∷ below) =
      subst (λ fs. s.printed ≡ s.sigcount + uncounted fs) f h.lines in
    subst IsSound (sym e) (record {
      lines = omega (arith, lines);
      nested = (omega arith, nested);
      open_handlers = omega (arith, few);
      finished_once = h.finished_once;
      enough = λ e'. omega (arith, h.enough e');
      finished = h.finished;
    })
Step-IsSound {s} h (tested n below running f e) =
    let nested : AreNested (testing (suc n) ∷ below) = subst AreNested f h.nested in
    let few : counted (testing (suc n) ∷ below) ≤ s.sigcount =
      subst (λ fs. counted fs ≤ s.sigcount) f h.open_handlers in
    let lines : s.printed ≡ s.sigcount + uncounted (testing (suc n) ∷ below) =
      subst (λ fs. s.printed ≡ s.sigcount + uncounted fs) f h.lines in
    subst IsSound (sym e) (record {
      lines = lines;
      nested = (omega (arith, nested.0), nested.1);
      open_handlers = few;
      finished_once = h.finished_once;
      enough = h.enough;
      finished = h.finished;
    })
Step-IsSound {s} h (left below running f e) =
    let nested : AreNested (testing 0 ∷ below) = subst AreNested f h.nested in
    let few : counted (testing 0 ∷ below) ≤ s.sigcount =
      subst (λ fs. counted fs ≤ s.sigcount) f h.open_handlers in
    let lines : s.printed ≡ s.sigcount + uncounted (testing 0 ∷ below) =
      subst (λ fs. s.printed ≡ s.sigcount + uncounted fs) f h.lines in
    subst IsSound (sym e) (record {
      lines = omega (arith, lines, All-uncounted below nested.1);
      nested = All-AreNested below nested.1;
      open_handlers = omega (arith, few);
      finished_once = h.finished_once;
      enough = h.enough;
      finished = h.finished;
    })

-- In every state that the thread and the nested handlers of src/signals-nested-2.cpp reach from the
-- start, the "Signal" lines printed are as many as sigcount and one more where the running handler
-- has not counted yet, "Finished" was printed once where the thread is behind that printf and never
-- elsewhere, only the running handler may be in front of its loop, at most sigcount open handlers
-- are in their loops, the thread is behind that printf only with sigcount at 1000 or more, and the
-- program has exited only with 0 and from there.
pub reached-IsSound : {s : State} → Reach initial s → IsSound s
reached-IsSound here = initial-IsSound
reached-IsSound (next r p) = Step-IsSound (reached-IsSound r) p
