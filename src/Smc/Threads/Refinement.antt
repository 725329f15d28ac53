-- ===== src/Smc/Threads/Refinement.antt =====
-- The threads of src/smc-mt.cpp on the memory that they share, against each of them by itself.
use fex_assorted_tests_bins.Prelude.{
  ℕ, ◌+◌, ◌<◌, ◌≤◌, ◌≡◌, ◌⊎◌, inl, inr, refl, ◌∙◌, true, false, some, arith,
}
use fex_assorted_tests_bins.Smc.Machine.{
  IsAligned, View, Machine, update, within, protected, IsWindow, IsStub, IsCoherent,
}
use fex_assorted_tests_bins.Smc.Threads.{Op, put, run_code, protect_page, exec}
use fex_assorted_tests_bins.Smc.Threads.Solo.{Solo, output, solo, Ok}

-- The page at `a`, whose bytes are those from `p` on, is as the thread by itself has it.
pub record Refines (v : View) (a p : ℕ) (st : Solo) : Type 0 where
  pub aligned : IsAligned a
  pub window : IsWindow v a p 4096
  pub bytes : (i : ℕ) → i < 4096 → v.byte (p + i) ≡ st.bytes i
  pub writes : (i : ℕ) → i < 4096 → v.writable (a + i) ≡ st.prot.write
  pub runs : (i : ℕ) → i < 4096 → v.executable (a + i) ≡ st.prot.exec

-- Two pages without a common address.
abbrev pub AreApart : ℕ → ℕ → Type 0
AreApart a b = (a + 4096 ≤ b) ⊎ (b + 4096 ≤ a)

-- Memory behind an operation.
abbrev pub after : Op → ℕ → ℕ → View → View
after (put i x) a p v = record v { byte = update v.byte (p + i) x }
after run_code a p v = v
after (protect_page prot) a p v = protected v a prot

update_at :
    (f g : ℕ → ℕ) (p i x j : ℕ) → f (p + j) ≡ g j → update f (p + i) x (p + j) ≡ update g i x j
update_at f g p i x j h = ground arith

pub after_own :
    (o : Op) (v : View) (a p : ℕ) (st : Solo)
    → Refines v a p st
    → Refines (after o a p v) a p (solo o st)
after_own (put i x) v a p st h = record {
  aligned = h.aligned;
  window = h.window;
  bytes = λ j low. update_at v.byte st.bytes p i x j (h.bytes j low);
  writes = h.writes;
  runs = h.runs;
}
after_own run_code v a p st h = record {
  aligned = h.aligned;
  window = h.window;
  bytes = h.bytes;
  writes = h.writes;
  runs = h.runs;
}
after_own (protect_page prot) v a p st h = record {
  aligned = h.aligned;
  window = h.window;
  bytes = h.bytes;
  writes = λ i low. let inside : within a 4096 (a + i) ≡ true = ground arith in rw inside refl;
  runs = λ i low. let inside : within a 4096 (a + i) ≡ true = ground arith in rw inside refl;
}

update_apart :
    (f : ℕ → ℕ) (p q i x j : ℕ)
    → AreApart p q
    → i < 4096
    → j < 4096
    → update f (p + i) x (q + j) ≡ f (q + j)
update_apart f p q i x j (inl h) low low' = ground arith
update_apart f p q i x j (inr h) low low' = ground arith

within_apart : (a b j : ℕ) → AreApart a b → j < 4096 → within a 4096 (b + j) ≡ false
within_apart a b j (inl h) low = ground arith
within_apart a b j (inr h) low = ground arith

pub after_other :
    (o : Op) (v : View) (a p b q : ℕ) (st st' : Solo)
    → AreApart a b
    → AreApart p q
    → Ok o st
    → Refines v b q st'
    → Refines (after o a p v) b q st'
after_other (put i x) v a p b q st st' d d' ok h = record {
  aligned = h.aligned;
  window = h.window;
  bytes = λ j low. update_apart v.byte p q i x j d' ok.0 low ∙ h.bytes j low;
  writes = h.writes;
  runs = h.runs;
}
after_other run_code v a p b q st st' d d' ok h = h
after_other (protect_page prot) v a p b q st st' d d' ok h = record {
  aligned = h.aligned;
  window = h.window;
  bytes = h.bytes;
  writes = λ i low. let out = within_apart a b i d low in rw out (h.writes i low);
  runs = λ i low. let out = within_apart a b i d low in rw out (h.runs i low);
}

Refines-IsStub :
    (v : View) (a p : ℕ) (st : Solo)
    → Refines v a p st
    → st.bytes 0 ≡ 0xB8
    → st.bytes 5 ≡ 0xC3
    → IsStub v.byte p (st.bytes 1) (st.bytes 2) (st.bytes 3) (st.bytes 4)
Refines-IsStub v a p st h first last = record {
  opcode = h.bytes 0 (omega arith) ∙ first;
  imm₀ = h.bytes 1 (omega arith);
  imm₁ = h.bytes 2 (omega arith);
  imm₂ = h.bytes 3 (omega arith);
  imm₃ = h.bytes 4 (omega arith);
  ret = h.bytes 5 (omega arith) ∙ last;
}

module _ (m : Machine) (law : IsCoherent m) where
  open m use {State, view}

  pub exec_lem :
      (o : Op) (a p : ℕ) (st : Solo) (s : State)
      → Refines (view s) a p st
      → Ok o st
      → (t : State) × (exec m a o s ≡ some (output o st, t)) × (view t ≡ after o a p (view s))
  unfolding exec
  exec_lem (put i x) a p st s h ok =
      let (t, e, w) =
        law.store_law (a + i) x (p + i) s (h.window i ok.0) (h.writes i ok.0 ∙ ok.1) in
      (t, rw (e, exec) refl, w)
  exec_lem run_code a p st s h ok =
      let (t, e, w) =
        law.call_law a p (st.bytes 1) (st.bytes 2) (st.bytes 3) (st.bytes 4) s
          (λ i low. h.window i (omega arith)) (λ i low. h.runs i (omega arith) ∙ ok.0)
          (Refines-IsStub (view s) a p st h ok.1 ok.2) in
      (t, rw (e, exec) refl, w)
  exec_lem (protect_page prot) a p st s h ok =
      (m.mprotect a 4096 prot s, refl, law.mprotect_law a p prot s h.aligned h.window)
