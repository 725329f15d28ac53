-- ===== src/Tests/Detach.antt =====
-- A run of `main` of src/smc-shmatdt.cpp: the machine of Tests.Kept with what is attached where.
use fex_assorted_tests_bins.Prelude.{
  ◌%◌, ℕ, ◌+◌, ◌*◌, ◌<◌, ◌≤◌, ◌≡◌, ◌⊎◌, refl, sym, ◌∙◌, ap, subst, true, false, Option, none, some,
  arith, ◌==◌, ==_iff, if◌then◌else◌,
}
use fex_assorted_tests_bins.Smc.Machine.{Prot, View, update, within}
use fex_assorted_tests_bins.Smc.Stub.{expected}
use fex_assorted_tests_bins.Smc.Report.{report_four}
use fex_assorted_tests_bins.Smc.Verdicts.{IsCodePage}
use fex_assorted_tests_bins.Smc.Detach.{Detacher, IsDetacher, detached_main}
use fex_assorted_tests_bins.Smc.Detach.Kept.{detached_main-IsCodePage}
use fex_assorted_tests_bins.Tests.Kept.{Kept, kept, kept-IsCoherent}
use fex_assorted_tests_bins.Tests.Descriptor.{unmapped_view}

-- The sizes of the segments, and the attachment of an address.
abbrev Table : Type 0
Table = (ℕ → Option ℕ) × (ℕ → Option ℕ)

abbrev S : Type 0
S = Kept Table

-- A range from `a` on that maps its own bytes.
abbrev shown : View → ℕ → ℕ → Prot → View
shown v a len prot = record v {
  phys = λ x. if within a len x then some x else v.phys x;
  writable = λ x. if within a len x then prot.write else v.writable x;
  executable = λ x. if within a len x then prot.exec else v.executable x;
}

abbrev attached : ℕ → ℕ → Option ℕ → (ℕ → Option ℕ) → ℕ → Option ℕ
attached a len o f x = if within a len x then o else f x

abbrev attach : Option ℕ → S → ℕ × S
attach none s = (8192, s)
attach (some size) s = (
  8192,
  (
    shown s.0 8192 size (record { write = true; exec = false }),
    (s.1.0, attached 8192 size (some 8192) s.1.1),
  ),
)

abbrev released : ℕ → Option ℕ → Option ℕ → Option ℕ
released a none o = o
released a (some b) o = if b == a then none else o

abbrev kernel : Detacher (kept Table)
kernel = record {
  shmget = λ size s. (0, (s.0, (update s.1.0 0 (some size), s.1.1)));
  shmat = λ shm s. attach (s.1.0 shm) s;
  remove = λ shm s. (tt, s);
  mmap_fixed = λ a len prot s. (a, (shown s.0 a len prot, (s.1.0, attached a len none s.1.1)));
  shmdt = λ a s. (tt, (record s.0 { phys = λ x. released a (s.1.1 x) (s.0.phys x) }, s.1));
}

within_in : (a len i : ℕ) → i < len → within a len (a + i) ≡ true
within_in a len i h = ground arith

kernel-IsDetacher : IsDetacher (kept Table) kernel
kernel-IsDetacher = record {
  segment = λ shm s. s.1.0 shm;
  attached = λ x s. s.1.1 x;
  shmget_law = λ size s. refl;
  shmat_law = λ shm size i s h low.
      subst (λ o. (attach o s).1.1.1 ((attach o s).0 + i) ≡ some (attach o s).0) (sym h)
        (let e = within_in 8192 size i low in rw e refl);
  shmat_aligned = λ shm size s h. subst (λ o. (attach o s).0 % 4096 ≡ 0) (sym h) refl;
  remove_law = λ shm x s. refl;
  fixed_law = λ a len prot s aligned. (
    refl,
    (a, λ i low. let e = within_in a len i low in rw e refl),
    λ i low. let e = within_in a len i low in rw e (refl, refl),
    λ x. refl,
  );
  shmdt_law = λ a x s h.
      let e : (a == a) ≡ true = (==_iff a a).1 refl in
      ap (λ o. released a o (s.0.phys x)) h ∙ rw e refl;
  shmdt_kept = λ a x s h. (ap (λ o. released a o (s.0.phys x)) h, refl, refl);
}

abbrev start : S
start = (unmapped_view, (λ n. none, λ x. none))

detached_main-IsCodePage_example :
    (ptrshm : ℕ) × (p : ℕ) × (t : S) × (detached_main (kept Table) kernel start
      ≡ some (report_four "mmap+shmdt" expected, t))
    × ((i : ℕ)
        → i < 4096 * 3
        → (i < 4096) ⊎ (4096 * 2 ≤ i)
        → ((kept Table).view t).phys (ptrshm + i) ≡ none)
    × IsCodePage ((kept Table).view t) (ptrshm + 4096) p
detached_main-IsCodePage_example =
    detached_main-IsCodePage (kept Table) kernel (kept-IsCoherent Table) kernel-IsDetacher start
