-- ===== src/Tests/Kernel.antt =====
-- A machine with a kernel that hands out addresses one behind the other, for the mains of
-- Smc/Mains.
use fex_assorted_tests_bins.Prelude.{
  ◌%◌, ◌/◌, ◌*◌, ◌^◌, ◌==◌, ◌||◌, not, ℕ, ◌+◌, ◌-◌, ◌<◌, inl, inr, Bool, true, false, Option, none,
  some, ◌≡◌, refl, sym, ◌∙◌, ap, subst, arith, if◌then◌else◌, Bool-cases,
}
use fex_assorted_tests_bins.Smc.Machine.{Prot, View, Machine, update, within, protected, IsCoherent}
use mathlib.Core.Option.{some-injective}
use fex_assorted_tests_bins.Smc.Mapper.{File, Permits, Mapper, Maps, HasRights, IsMapper}
use fex_assorted_tests_bins.Tests.Machine.{flat_call, flat_call_lem, joined}

-- No address from `next` on is mapped; `object` is the last segment or file, by base and size.
pub record State : Type 0 where
  pub view : View
  pub next : ℕ
  pub bound : (x q : ℕ) → view.phys x ≡ some q → x < next
  pub aligned : next % 4096 ≡ 0
  pub object : ℕ × ℕ

abbrev pub with_bytes : State → (ℕ → ℕ) → State
with_bytes s f = record {
  view = record s.view { byte = f };
  next = s.next;
  bound = s.bound;
  aligned = s.aligned;
  object = s.object;
}

abbrev stored : ℕ → ℕ → State → Option State
stored a x s = elim (s.view.phys a) [
  | none ↦ none
  | some p ↦ if s.view.writable a then some (with_bytes s (update s.view.byte p x)) else none
]

abbrev called : State → Option (ℕ × View) → Option (ℕ × State)
called s none = none
called s (some (r, v)) = some (r, s)

abbrev pub waited : State → Option State → Option State
waited s none = none
waited s (some d) = some (with_bytes s (joined s.view d.view).byte)

abbrev pub paged : Machine
paged = record {
  State = State;
  view = λ s. s.view;
  store = stored;
  call = λ a s. called s (flat_call a s.view);
  mprotect = λ a len prot s. record {
    view = protected s.view a prot;
    next = s.next;
    bound = s.bound;
    aligned = s.aligned;
    object = s.object;
  };
  munmap = λ a len s. s;
  fork_wait = λ child s. waited s (child s);
}

stored_lem :
    (a x p : ℕ) (s : State)
    → s.view.phys a ≡ some p
    → s.view.writable a ≡ true
    → stored a x s ≡ some (with_bytes s (update s.view.byte p x))
stored_lem a x p s at ok = ground arith

waited_lem :
    (child : State → Option State) (s d : State) (w : View)
    → child s ≡ some d
    → d.view ≡ w
    → waited s (child s) ≡ some (with_bytes s (joined s.view w).byte)
waited_lem child s d w e h =
    rw e (ap {A = View} (λ u. some (with_bytes s (joined s.view u).byte)) h)

pub paged-IsCoherent : IsCoherent paged
paged-IsCoherent = record {
  store_law =
      λ a x p s at ok. (with_bytes s (update s.view.byte p x), stored_lem a x p s at ok, refl);
  call_law = λ a p b₀ b₁ b₂ b₃ s w r st.
      (s, ap (called s) (flat_call_lem a p b₀ b₁ b₂ b₃ s.view w r st), refl);
  mprotect_law = λ a p prot s al w. refl;
  fork_law = λ child s w run.
      let (d, e, h) = run s refl in
      (with_bytes s (joined s.view w).byte, waited_lem child s d w e h, refl);
}

-- One more mapping, by what lies behind each of its addresses.
abbrev added : View → ℕ → ℕ → (ℕ → Option ℕ) → (ℕ → Bool) → (ℕ → Bool) → View
added v next len phys writable executable = record v {
  phys = λ x. if within next len x then phys (x - next) else v.phys x;
  writable = λ x. if within next len x then writable (x - next) else v.writable x;
  executable = λ x. if within next len x then executable (x - next) else v.executable x;
  shared = λ q. true;
}

pub added_bound :
    (s : State) (len : ℕ) (phys : ℕ → Option ℕ) (writable executable : ℕ → Bool) (x q : ℕ)
    → (added s.view s.next len phys writable executable).phys x ≡ some q
    → x < s.next + len
added_bound s len phys writable executable x q h = elim (Bool-cases (within s.next len x)) [
  | inl inside ↦ ground arith
  | inr outside ↦
      let old : s.view.phys x ≡ some q =
        ap (λ b. if b then phys (x - s.next) else s.view.phys x) (sym outside) ∙ h in
      omega (arith, s.bound x q old)
]

-- The length of whole pages.
abbrev pub pages : ℕ → ℕ
pages len = (len + 4095) / 4096 * 4096

pub next_aligned : (next len : ℕ) → next % 4096 ≡ 0 → (next + pages len) % 4096 ≡ 0
next_aligned next len h = omega arith

abbrev add : ℕ → (ℕ → Option ℕ) → (ℕ → Bool) → (ℕ → Bool) → ℕ × ℕ → State → ℕ × State
add len phys writable executable object s = (
  s.next,
  record {
    view = added s.view s.next len phys writable executable;
    next = s.next + pages len;
    bound = λ x q h. omega (arith, added_bound s len phys writable executable x q h);
    aligned = next_aligned s.next len s.aligned;
    object = object;
  },
)

abbrev of_object : ℕ → Prot → State → ℕ × State
of_object len prot s =
    add len (λ i. some (s.object.0 + i)) (λ i. prot.write) (λ i. prot.exec) s.object s

abbrev made : ℕ → State → ℕ × State
made size s = (
  0,
  record {
    view = s.view;
    next = s.next;
    bound = s.bound;
    aligned = s.aligned;
    object = (s.next, size);
  },
)

-- Descriptor 0 is open for writing too, every other one for reading only.
abbrev permitted : ℕ → Prot → Bool
permitted fd prot = fd == 0 || not prot.write

abbrev opened : ℕ → State → File
opened fd s = record { base = s.object.0; size = s.object.1; for_writing = fd == 0 }

abbrev pub kernel : Mapper paged
kernel = record {
  mmap =
      λ len prot s. add len (λ i. some (s.next + i)) (λ i. prot.write) (λ i. prot.exec) s.object s;
  mmap_file = λ len prot fd s. if permitted fd prot then of_object len prot s else (2 ^ 64 - 1, s);
  mremap = λ old len s.
      add len (λ i. s.view.phys (old + i)) (λ i. s.view.writable (old + i))
        (λ i. s.view.executable (old + i)) s.object s;
  shmget = made;
  shmat = λ shm exec s. of_object s.object.1 (record { write = true; exec = exec }) s;
  create = made;
  reopen = λ fd s. (1, s);
}

at_new :
    {A : Type 0} (f g : ℕ → A) (next len i : ℕ)
    → i < len
    → (if within next len (next + i) then f (next + i - next) else g (next + i)) ≡ f i
at_new f g next len i h =
    let inside : within next len (next + i) ≡ true = ground arith in
    let back : next + i - next ≡ i = omega arith in rw (inside, back) refl

at_old :
    {A : Type 0} (f g : ℕ → A) (next len x : ℕ)
    → x < next
    → (if within next len x then f (x - next) else g x) ≡ g x
at_old f g next len x h = let outside : within next len x ≡ false = ground arith in rw outside refl

added-Maps :
    (s : State) (len p : ℕ) (phys : ℕ → Option ℕ) (writable executable : ℕ → Bool)
    → ((i : ℕ) → i < len → phys i ≡ some (p + i))
    → Maps s.view (added s.view s.next len phys writable executable) s.next p len
added-Maps s len p phys writable executable h = record {
  aligned = s.aligned;
  window = λ i lt. at_new phys s.view.phys s.next len i lt ∙ h i lt;
  shared = λ i lt. refl;
  kept = λ x q e. at_old phys s.view.phys s.next len x (s.bound x q e) ∙ e;
  kept_writable = λ x q e. at_old writable s.view.writable s.next len x (s.bound x q e);
  kept_executable = λ x q e. at_old executable s.view.executable s.next len x (s.bound x q e);
  apart = λ x q e. inl (s.bound x q e);
}

added-HasRights :
    (s : State) (len : ℕ) (phys : ℕ → Option ℕ) (writable executable : ℕ → Bool) (prot : Prot)
    → ((i : ℕ) → i < len → (writable i ≡ prot.write) × (executable i ≡ prot.exec))
    → HasRights (added s.view s.next len phys writable executable) s.next len prot
added-HasRights s len phys writable executable prot h i lt = (
  at_new writable s.view.writable s.next len i lt ∙ (h i lt).0,
  at_new executable s.view.executable s.next len i lt ∙ (h i lt).1,
)

-- The object that a descriptor or an identifier names is the last one.
of_object-Maps :
    (s : State) (len p size : ℕ) (prot : Prot)
    → some s.object ≡ some (p, size)
    → Maps s.view (of_object len prot s).1.view s.next p len
of_object-Maps s len p size prot h =
    let base : s.object.0 ≡ p =
      ap {A = Option (ℕ × ℕ)} (λ o. elim o [ none ↦ 0 | some q ↦ q.0 ]) h in
    added-Maps s len p (λ i. some (s.object.0 + i)) (λ i. prot.write) (λ i. prot.exec)
      (λ i lt. ap (λ b. some (b + i)) base)

of_object-HasRights :
    (s : State) (len : ℕ) (prot : Prot) → HasRights (of_object len prot s).1.view s.next len prot
of_object-HasRights s len prot =
    added-HasRights s len (λ i. some (s.object.0 + i)) (λ i. prot.write) (λ i. prot.exec) prot
      (λ i lt. (refl, refl))

attached :
    (s : State) (p size : ℕ) (prot : Prot)
    → some s.object ≡ some (p, size)
    → Maps s.view (of_object s.object.1 prot s).1.view s.next p size
      × HasRights (of_object s.object.1 prot s).1.view s.next size prot
attached s p size prot h =
    let known : s.object.1 ≡ size =
      ap {A = Option (ℕ × ℕ)} (λ o. elim o [ none ↦ 0 | some q ↦ q.1 ]) h in
    subst
      (λ len.
        Maps s.view (of_object s.object.1 prot s).1.view s.next p len
        × HasRights (of_object s.object.1 prot s).1.view s.next len prot)
      known (of_object-Maps s s.object.1 p size prot h, of_object-HasRights s s.object.1 prot)

permitted_lem :
    (fd : ℕ) (prot : Prot) (s : State) → Permits (opened fd s) prot → permitted fd prot ≡ true
permitted_lem fd prot s h = elim (Bool-cases prot.write) [
  | inl writes ↦ let ok = h writes in rw ok refl
  | inr reads ↦ rw reads (ground arith)
]

-- What mmap of a descriptor gives.
abbrev Mapped : ℕ → File → Prot → State → ℕ × State → Type 0
Mapped fd f prot s (a, t) =
    Maps s.view t.view a f.base f.size
    × HasRights t.view a f.size prot
    × ((fd' : ℕ) → ◌≡◌ {A = Option File} (some (opened fd' t)) (some (opened fd' s)))

mmap_file-Mapped :
    (fd : ℕ) (f : File) (prot : Prot) (s : State)
    → opened fd s ≡ f
    → Permits f prot
    → Mapped fd f prot s (kernel.mmap_file f.size prot fd s)
mmap_file-Mapped fd f prot s e =
    subst (λ g. Permits g prot → Mapped fd g prot s (kernel.mmap_file g.size prot fd s)) e
      λ may.
        let ok = permitted_lem fd prot s may in
        rw ok (
          let (maps, rights) = attached s s.object.0 s.object.1 prot refl in
          (maps, rights, λ fd'. refl))

pub kernel-IsMapper : IsMapper paged kernel
kernel-IsMapper = record {
  segment = λ id s. some s.object;
  file = λ fd s. some (opened fd s);
  mmap_law = λ len prot s some_len. (
    s.next,
    added-Maps s len s.next (λ i. some (s.next + i)) (λ i. prot.write) (λ i. prot.exec)
        (λ i lt. refl),
    added-HasRights s len (λ i. some (s.next + i)) (λ i. prot.write) (λ i. prot.exec) prot
        (λ i lt. (refl, refl)),
  );
  mremap_law = λ old p len prot s some_len al w shared r. (
    added-Maps s len p (λ i. s.view.phys (old + i)) (λ i. s.view.writable (old + i))
        (λ i. s.view.executable (old + i)) w,
    added-HasRights s len (λ i. s.view.phys (old + i)) (λ i. s.view.writable (old + i))
        (λ i. s.view.executable (old + i)) prot r,
  );
  shmget_law = λ size s some_size. (s.next, refl);
  shmat_law = λ shm p size exec s h.
      let (maps, rights) = attached s p size (record { write = true; exec = exec }) h in
      (maps, rights, h);
  create_law = λ size s. (s.next, refl);
  reopen_law = λ fd f s h.
      (h, ap (λ (g : File). some (record g { for_writing = false })) (some-injective _ _ h));
  mmap_file_law =
      λ fd f prot s h some_size may. mmap_file-Mapped fd f prot s (some-injective _ _ h) may;
}
