-- ===== src/Smc/Descriptor.antt =====
-- `test` of src/smc-fd.cpp: the code lies in a file that is mapped to be run, and it is written
-- through a descriptor of the file.
use Prim.Native.String.{String}
use fex_assorted_tests_bins.Prelude.{ℕ, ◌+◌, List, [], ◌∷◌, ◌≡◌, refl, ◌∙◌, ap, arith, length, some}
use fex_assorted_tests_bins.Smc.Machine.{
  Machine, View, update, IsWindow, MayRun, IsStub, IsCoherent,
}
use fex_assorted_tests_bins.Smc.Action.{◌>>=◌, ◌>>◌, pure, Action, Runs, Runs-bind, Runs-call}
use fex_assorted_tests_bins.Smc.Stub.{expected, patched-IsStub}
use fex_assorted_tests_bins.Smc.Report.{Verdict, report_two}

-- `write` and `lseek` with SEEK_SET of the descriptor under test.
pub record Descriptor (m : Machine) : Type 0 where
  pub write : List ℕ → m.State → m.State
  pub lseek : ℕ → m.State → m.State

abbrev pub stub : List ℕ
stub = 0xB8 ∷ 0xAA ∷ 0xBB ∷ 0xCC ∷ 0xDD ∷ 0xC3 ∷ []

-- Bytes written one behind the other.
abbrev pub written : (ℕ → ℕ) → ℕ → List ℕ → ℕ → ℕ
written f p [] = f
written f p (b ∷ bs) = written (update f p b) (p + 1) bs

-- What is documented of a file whose bytes are those of memory from `base` on.
pub record IsFile (m : Machine) (fd : Descriptor m) (base : ℕ) : Type 0 where
  pub offset : m.State → ℕ
  pub write_law :
      (bs : List ℕ) (s : m.State)
      → m.view (fd.write bs s)
        ≡ record (m.view s) { byte = written (m.view s).byte (base + offset s) bs }
  pub write_moves : (bs : List ℕ) (s : m.State) → offset (fd.write bs s) ≡ offset s + length bs
  pub lseek_law : (o : ℕ) (s : m.State) → m.view (fd.lseek o s) ≡ m.view s
  pub lseek_moves : (o : ℕ) (s : m.State) → offset (fd.lseek o s) ≡ o

pub written-IsStub :
    (f : ℕ → ℕ) (base : ℕ) → IsStub (written f (base + 0) stub) base 0xAA 0xBB 0xCC 0xDD
written-IsStub f base = record {
  opcode = ground arith;
  imm₀ = ground arith;
  imm₁ = ground arith;
  imm₂ = ground arith;
  imm₃ = ground arith;
  ret = ground arith;
}

module _ (m : Machine) (fd : Descriptor m) where
  open m use {State, view, call}

  unfoldable pub write_all : List ℕ → Action m (Unit {0})
  write_all bs s = some (tt, fd.write bs s)

  unfoldable pub seek_to : ℕ → Action m (Unit {0})
  seek_to o s = some (tt, fd.lseek o s)

  -- `test`
  unfoldable pub test_descriptor : ℕ → String → Action m (List Verdict)
  test_descriptor codeexec name = do
    write_all stub
    v1 ← call codeexec
    seek_to 3
    write_all (0xFE ∷ [])
    v2 ← call codeexec
    pure (report_two name (v1, v2))

  module _ (law : IsCoherent m) (base : ℕ) (file : IsFile m fd base) where
    Runs-write_all :
        (bs : List ℕ) (o : ℕ) {s : State} {v : View}
        → view s ≡ v
        → file.offset s ≡ o
        → Runs m (write_all bs s) tt (record v { byte = written v.byte (base + o) bs })
    unfolding write_all
    Runs-write_all bs o {s} h at = (
      fd.write bs s,
      refl,
      file.write_law bs s
          ∙ ap {A = ℕ} (λ q. record (view s) { byte = written (view s).byte (base + q) bs }) at
          ∙ ap {A = View} (λ w. record w { byte = written w.byte (base + o) bs }) h,
    )

    -- On a coherent machine with a file whose bytes are those of memory, and whose writes and seeks
    -- move its offset as documented, where the descriptor is at the start and the code's address
    -- shows the file's first six bytes and may be run, test of src/smc-fd.cpp prints PASS twice.
    pub Runs-test_descriptor :
        (codeexec : ℕ) (name : String) {s : State} {v : View}
        → view s ≡ v
        → file.offset s ≡ 0
        → IsWindow v codeexec base 6
        → MayRun v codeexec 6
        → Runs m
            (test_descriptor codeexec name s)
            (report_two name (expected.e1, expected.e2))
            (record v { byte = update (written v.byte (base + 0) stub) (base + 3) 0xFE })
    unfolding test_descriptor seek_to
    Runs-test_descriptor codeexec name {s} {v} h at window runs =
        Runs-bind m _ _ (Runs-write_all stub 0 h at) λ _ h.
          Runs-bind m _ _
            (Runs-call m law codeexec base 0xAA 0xBB 0xCC 0xDD h window runs
              (written-IsStub v.byte base))
            λ t h.
              Runs-bind m _ _
                (Runs-write_all (0xFE ∷ []) 3 (file.lseek_law 3 t ∙ h) (file.lseek_moves 3 t))
                λ _ h.
                  Runs-bind m _ _
                    (Runs-call m law codeexec base 0xAA 0xBB 0xFE 0xDD h window runs
                      (patched-IsStub 0xFE (written-IsStub v.byte base)))
                    λ u h. (u, refl, h)
