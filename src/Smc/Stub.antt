-- ===== src/Smc/Stub.antt =====
-- The routine `mov eax, imm32; ret` that each `test` of src/smc*.cpp and src/mremap.cpp writes, and
-- the four calls between which it is changed.
use fex_assorted_tests_bins.Prelude.{ℕ, ◌+◌, ◌<◌, ◌≤◌, true, false, ◌≡◌, refl, arith}
use fex_assorted_tests_bins.Smc.Machine.{
  IsAligned, Prot, View, Machine, update, protected, IsWindow, MayWrite, MayRun, IsStub, IsCoherent,
}
use fex_assorted_tests_bins.Smc.Action.{
  ◌>>=◌, ◌>>◌, pure, Action, poke, protect, Runs, Runs-bind, Runs-poke, Runs-call, Runs-protect,
}

abbrev pub read_exec : Prot
read_exec = record { write = false; exec = true }

abbrev pub read_write_exec : Prot
read_write_exec = record { write = true; exec = true }

-- What the four calls return.
pub record Values : Type 0 where
  pub e1 : ℕ
  pub e2 : ℕ
  pub e3 : ℕ
  pub e4 : ℕ

abbrev pub expected : Values
expected = record { e1 = 0xDDCCBBAA; e2 = 0xDDFEBBAA; e3 = 0xDDF3BBAA; e4 = 0xDDF1BBAA }

-- Memory behind the six stores, with `b` in the byte that changes later.
abbrev pub stubbed : ℕ → ℕ → (ℕ → ℕ) → ℕ → ℕ
stubbed p b f =
    update
      (update (update (update (update (update f (p + 0) 0xB8) (p + 1) 0xAA) (p + 2) 0xBB) (p + 3) b)
        (p + 4) 0xDD)
      (p + 5) 0xC3

pub stubbed-IsStub : (f : ℕ → ℕ) (p b : ℕ) → IsStub (stubbed p b f) p 0xAA 0xBB b 0xDD
stubbed-IsStub f p b = record {
  opcode = ground arith;
  imm₀ = ground arith;
  imm₁ = ground arith;
  imm₂ = ground arith;
  imm₃ = ground arith;
  ret = ground arith;
}

pub patched-IsStub :
    {f : ℕ → ℕ} {p b₀ b₁ b₂ b₃ : ℕ} (b : ℕ)
    → IsStub f p b₀ b₁ b₂ b₃
    → IsStub (update f (p + 3) b) p b₀ b₁ b b₃
patched-IsStub b h = record {
  opcode = ground arith;
  imm₀ = ground arith;
  imm₁ = ground arith;
  imm₂ = ground arith;
  imm₃ = ground arith;
  ret = ground arith;
}

pub protected-MayWrite :
    (v : View) (a : ℕ) (prot : Prot) → prot.write ≡ true → MayWrite (protected v a prot) a 6
protected-MayWrite v a prot h i lt = ground arith

pub protected-MayRun :
    (v : View) (a : ℕ) (prot : Prot) → prot.exec ≡ true → MayRun (protected v a prot) a 6
protected-MayRun v a prot h i lt = ground arith

-- Memory behind the second call, the third and the fourth.
abbrev pub second_view : View → ℕ → View
second_view v p = record v { byte = update (stubbed p 0xCC v.byte) (p + 3) 0xFE }

-- The rights of the page taken, given back, and one store.
abbrev next_view : View → ℕ → ℕ → ℕ → View
next_view v code p b =
    let w = protected (protected v code read_exec) code read_write_exec in
    record w { byte = update w.byte (p + 3) b }

abbrev pub third_view : View → ℕ → ℕ → View
third_view v code p = protected (next_view (second_view v p) code p 0xF3) code read_exec

abbrev pub four_view : View → ℕ → ℕ → View
four_view v code p = next_view (next_view (second_view v p) code p 0xF3) code p 0xF1

module _ (m : Machine) where
  open m use {State, view, call}

  -- `code[0] = 0xB8; ... code[5] = 0xC3;`
  unfoldable pub emit_stub : ℕ → Action m (Unit {0})
  emit_stub code = do
    poke m (code + 0) 0xB8
    poke m (code + 1) 0xAA
    poke m (code + 2) 0xBB
    poke m (code + 3) 0xCC
    poke m (code + 4) 0xDD
    poke m (code + 5) 0xC3

  -- From the first store to the fourth call.
  unfoldable pub four_calls : ℕ → Action m Values
  unfolding emit_stub
  four_calls code = do
    emit_stub code
    v1 ← call code
    poke m (code + 3) 0xFE
    v2 ← call code
    protect m code 4096 read_exec
    protect m code 4096 read_write_exec
    poke m (code + 3) 0xF3
    protect m code 4096 read_exec
    v3 ← call code
    protect m code 4096 read_write_exec
    poke m (code + 3) 0xF1
    v4 ← call code
    pure (record { e1 = v1; e2 = v2; e3 = v3; e4 = v4 })

  -- The stores and the first call; the two addresses may differ.
  unfoldable pub two_calls : ℕ → ℕ → Action m (ℕ × ℕ)
  unfolding emit_stub
  two_calls code codeexec = do
    emit_stub code
    v1 ← call codeexec
    poke m (code + 3) 0xFE
    v2 ← call codeexec
    pure (v1, v2)

  module _ (law : IsCoherent m) where
    pub Runs-emit_stub :
        (code p n : ℕ) {s : State} {v : View}
        → view s ≡ v
        → 6 ≤ n
        → IsWindow v code p n
        → MayWrite v code 6
        → Runs m (emit_stub code s) tt (record v { byte = stubbed p 0xCC v.byte })
    unfolding emit_stub
    Runs-emit_stub code p n {s} {v} h big window writes =
        Runs-bind m _ _ (poke_at 0 0xB8 h (omega arith)) λ _ h.
          Runs-bind m _ _ (poke_at 1 0xAA h (omega arith)) λ _ h.
            Runs-bind m _ _ (poke_at 2 0xBB h (omega arith)) λ _ h.
              Runs-bind m _ _ (poke_at 3 0xCC h (omega arith)) λ _ h.
                Runs-bind m _ _ (poke_at 4 0xDD h (omega arith))
                  λ _ h. poke_at 5 0xC3 h (omega arith)
      where
        poke_at :
            (i x : ℕ) {s : State} {f : ℕ → ℕ}
            → view s ≡ record v { byte = f }
            → i < 6
            → Runs m (poke m (code + i) x s) tt (record v { byte = update f (p + i) x })
        poke_at i x h lt =
            Runs-poke m law (code + i) x (p + i) h (window i (omega arith)) (writes i lt)

    -- Where both addresses show the same six bytes, each call sees the stores before it.
    pub Runs-two_calls :
        (code codeexec p : ℕ) {s : State} {v : View}
        → view s ≡ v
        → IsWindow v code p 6
        → MayWrite v code 6
        → IsWindow v codeexec p 6
        → MayRun v codeexec 6
        → Runs m (two_calls code codeexec s) (expected.e1, expected.e2) (second_view v p)
    unfolding two_calls
    Runs-two_calls code codeexec p {s} {v} h window writes run_window runs =
        Runs-bind m _ _ (Runs-emit_stub code p 6 h (omega arith) window writes) λ _ h.
          Runs-bind m _ _ (Runs-call m law codeexec p 0xAA 0xBB 0xCC 0xDD h run_window runs stub)
            λ _ h.
              Runs-bind m _ _
                (Runs-poke m law (code + 3) 0xFE (p + 3) h (window 3 (omega arith))
                  (writes 3 (omega arith)))
                λ _ h.
                  Runs-bind m _ _
                    (Runs-call m law codeexec p 0xAA 0xBB 0xFE 0xDD h run_window runs
                      (patched-IsStub 0xFE stub))
                    λ t h. (t, refl, h)
      where
        stub : IsStub (stubbed p 0xCC v.byte) p 0xAA 0xBB 0xCC 0xDD
        stub = stubbed-IsStub v.byte p 0xCC

    -- Four calls of one page that may be written and run, with its rights taken and given back.
    pub Runs-four_calls :
        (code p : ℕ) {s : State} {v : View}
        → view s ≡ v
        → IsAligned code
        → IsWindow v code p 4096
        → MayWrite v code 6
        → MayRun v code 6
        → Runs m (four_calls code s) expected (four_view v code p)
    unfolding four_calls
    Runs-four_calls code p {s} {v} h aligned page writes runs =
        Runs-bind m _ _ (Runs-emit_stub code p 4096 h (omega arith) page writes) λ _ h.
          Runs-bind m _ _ (Runs-call m law code p 0xAA 0xBB 0xCC 0xDD h window runs stub) λ _ h.
            Runs-bind m _ _
              (Runs-poke m law (code + 3) 0xFE (p + 3) h (window 3 (omega arith))
                (writes 3 (omega arith)))
              λ _ h.
                Runs-bind m _ _ (Runs-call m law code p 0xAA 0xBB 0xFE 0xDD h window runs stub')
                  λ _ h. Runs-bind m _ _ (Runs-protect m law code p read_exec h aligned page) λ _ h.
                    Runs-bind m _ _ (Runs-protect m law code p read_write_exec h aligned page)
                      λ _ h.
                        Runs-bind m _ _
                          (Runs-poke m law (code + 3) 0xF3 (p + 3) h (window 3 (omega arith)) (
                            protected-MayWrite (protected (second_view v p) code read_exec) code
                              read_write_exec refl 3 (omega arith)))
                          λ _ h.
                            Runs-bind m _ _ (Runs-protect m law code p read_exec h aligned page)
                              λ _ h.
                                Runs-bind m _ _
                                  (Runs-call m law code p 0xAA 0xBB 0xF3 0xDD h window
                                    (protected-MayRun (next_view (second_view v p) code p 0xF3) code
                                      read_exec refl)
                                    (patched-IsStub 0xF3 stub'))
                                  λ _ h.
                                    Runs-bind m _ _
                                      (Runs-protect m law code p read_write_exec h aligned page)
                                      λ _ h.
                                        Runs-bind m _ _
                                          (Runs-poke m law (code + 3) 0xF1 (p + 3) h
                                            (window 3 (omega arith))
                                            (protected-MayWrite (third_view v code p) code
                                              read_write_exec refl 3 (omega arith)))
                                          λ _ h.
                                            Runs-bind m _ _
                                              (Runs-call m law code p 0xAA 0xBB 0xF1 0xDD h window
                                                (protected-MayRun (third_view v code p) code
                                                  read_write_exec refl)
                                                (patched-IsStub 0xF1 (patched-IsStub 0xF3 stub')))
                                              λ t h. (t, refl, h)
      where
        window : IsWindow v code p 6
        window = λ i lt. page i (omega arith)

        stub : IsStub (stubbed p 0xCC v.byte) p 0xAA 0xBB 0xCC 0xDD
        stub = stubbed-IsStub v.byte p 0xCC

        stub' : IsStub (update (stubbed p 0xCC v.byte) (p + 3) 0xFE) p 0xAA 0xBB 0xFE 0xDD
        stub' = patched-IsStub 0xFE stub
