-- ===== src/Smc/Threads/Solo.antt =====
-- A thread of src/smc-mt.cpp by itself: the abstract page that it alone writes, and what its calls return.
use fex_assorted_tests_bins.Prelude.{
  ℕ, zero, suc, ◌<◌, ◌≡◌, refl, sym, ap, ◌∙◌, true, List, [], ◌∷◌, ◌++◌, append_assoc, append-nil,
  arith,
}
use fex_assorted_tests_bins.Smc.Machine.{Prot, update, imm32}
use fex_assorted_tests_bins.Smc.Stub.{read_write_exec, expected}
use fex_assorted_tests_bins.Smc.Threads.{Op, put, run_code, protect_page, round_ops, rounds}

-- The bytes of the page, its rights, and what was returned.
pub record Solo : Type 0 where
  pub bytes : ℕ → ℕ
  pub prot : Prot
  pub values : List ℕ

-- What an operation returns.
abbrev pub output : Op → Solo → List ℕ
output (put i v) st = []
output run_code st = imm32 (st.bytes 1) (st.bytes 2) (st.bytes 3) (st.bytes 4) ∷ []
output (protect_page prot) st = []

abbrev pub solo : Op → Solo → Solo
solo (put i v) st = record st { bytes = update st.bytes i v }
solo run_code st = record st { values = st.values ++ output run_code st }
solo (protect_page prot) st = record st { prot = prot }

-- The page has the rights and the code that the operation needs.
abbrev pub Ok : Op → Solo → Type 0
Ok (put i v) st = (i < 4096) × (st.prot.write ≡ true)
Ok run_code st = (st.prot.exec ≡ true) × (st.bytes 0 ≡ 0xB8) × (st.bytes 5 ≡ 0xC3)
Ok (protect_page prot) st = Unit {0}

abbrev pub solo_run : List Op → Solo → Solo
solo_run [] st = st
solo_run (o ∷ os) st = solo_run os (solo o st)

abbrev pub AllOk : List Op → Solo → Type 0
AllOk [] st = Unit {0}
AllOk (o ∷ os) st = Ok o st × AllOk os (solo o st)

append-AllOk :
    (xs ys : List Op) (st : Solo) → AllOk xs st → AllOk ys (solo_run xs st) → AllOk (xs ++ ys) st
append-AllOk [] ys st h h' = h'
append-AllOk (x ∷ xs) ys st h h' = (h.0, append-AllOk xs ys (solo x st) h.1 h')

solo_run-append :
    (xs ys : List Op) (st : Solo) → solo_run (xs ++ ys) st ≡ solo_run ys (solo_run xs st)
solo_run-append [] ys st = refl
solo_run-append (x ∷ xs) ys st = solo_run-append xs ys (solo x st)

-- One pass of the loop, from any bytes.
abbrev pub four_values : List ℕ
four_values = expected.e1 ∷ expected.e2 ∷ expected.e3 ∷ expected.e4 ∷ []

infixr 5 ◌⊗◌
abbrev ◌⊗◌ : {A B : Type 0} → A → B → A × B
a ⊗ b = (a, b)

round_ops-AllOk : (st : Solo) → st.prot ≡ read_write_exec → AllOk round_ops st
round_ops-AllOk st h =
    let w : st.prot.write ≡ true = ap (λ (r : Prot). r.write) h in
    let x : st.prot.exec ≡ true = ap (λ (r : Prot). r.exec) h in
    let low : (i : ℕ) → i < 6 → (i < 4096) × (st.prot.write ≡ true) = λ i l. (omega arith, w) in
    let low' : (i : ℕ) → i < 6 → (i < 4096) × (true ≡ true) = λ i l. (omega arith, refl) in
    low 0 (omega arith)
    ⊗ low 1 (omega arith)
    ⊗ low 2 (omega arith)
    ⊗ low 3 (omega arith)
    ⊗ low 4 (omega arith)
    ⊗ low 5 (omega arith)
    ⊗ (x, refl, refl)
    ⊗ low 3 (omega arith)
    ⊗ (x, refl, refl)
    ⊗ tt
    ⊗ tt
    ⊗ low' 3 (omega arith)
    ⊗ tt
    ⊗ (refl, refl, refl)
    ⊗ tt
    ⊗ low' 3 (omega arith)
    ⊗ (refl, refl, refl)
    ⊗ tt

round_ops-values : (st : Solo) → (solo_run round_ops st).values ≡ st.values ++ four_values
round_ops-values st =
    append_assoc ((st.values ++ expected.e1 ∷ []) ++ expected.e2 ∷ []) (expected.e3 ∷ [])
      (expected.e4 ∷ [])
    ∙ append_assoc (st.values ++ expected.e1 ∷ []) (expected.e2 ∷ [])
        (expected.e3 ∷ expected.e4 ∷ [])
    ∙ append_assoc st.values (expected.e1 ∷ []) (expected.e2 ∷ expected.e3 ∷ expected.e4 ∷ [])

-- What `k` passes return.
abbrev pub repeated : ℕ → List ℕ
repeated zero = []
repeated (suc k) = four_values ++ repeated k

pub rounds-AllOk : (k : ℕ) (st : Solo) → st.prot ≡ read_write_exec → AllOk (rounds k) st
unfolding rounds
rounds-AllOk zero st h = tt
rounds-AllOk (suc k) st h =
    append-AllOk round_ops (rounds k) st (round_ops-AllOk st h)
      (rounds-AllOk k (solo_run round_ops st) refl)

pub rounds-values :
    (k : ℕ) (st : Solo)
    → st.prot ≡ read_write_exec
    → (solo_run (rounds k) st).values ≡ st.values ++ repeated k
unfolding rounds
rounds-values zero st h = sym (append-nil st.values)
rounds-values (suc k) st h =
    ap (λ (x : Solo). x.values) (solo_run-append round_ops (rounds k) st)
    ∙ rounds-values k (solo_run round_ops st) refl
    ∙ ap (λ vs. vs ++ repeated k) (round_ops-values st)
    ∙ append_assoc st.values four_values (repeated k)
