-- ===== src/Smc/Mains/Blocks.antt =====
-- The blocks of a `main` of src/smc-*.cpp, one behind the other: what they print.
use Prim.Native.String.{String}
use fex_assorted_tests_bins.Prelude.{
  ℕ, ◌+◌, ◌*◌, true, Option, some, List, [], ◌∷◌, ◌++◌, ◌≡◌, refl, ◌∙◌, arith, length,
  length-append, All,
}
use fex_assorted_tests_bins.Smc.Machine.{View, Machine}
use fex_assorted_tests_bins.Smc.Action.{bind_some, ◌>>=◌, pure, Action, Runs}
use fex_assorted_tests_bins.Smc.Stub.{expected}
use fex_assorted_tests_bins.Smc.Report.{
  append-all_pass, Verdict, all_pass, report_two, report_two_iff,
}
use fex_assorted_tests_bins.Smc.Mains.{blocks}

module _ (m : Machine) where
  open m use {State, view}

  -- From every state it ends, with so many lines that all say PASS.
  abbrev pub Passes : ℕ → Action m (List Verdict) → Type 0
  Passes n act =
      (s : State)
      → (vs : List Verdict) × (t : State) × (act s ≡ some (vs, t))
        × (all_pass vs ≡ true)
        × (length vs ≡ n)

  blocks-nil : Passes 0 (blocks m [])
  unfolding blocks
  blocks-nil s = ([], s, refl, refl, refl)

  blocks-cons :
      (n c : ℕ) (b : Action m (List Verdict)) (bs : List (Action m (List Verdict)))
      → Passes n b
      → Passes c (blocks m bs)
      → Passes (n + c) (blocks m (b ∷ bs))
  unfolding blocks
  blocks-cons n c b bs h hs s =
      let (vs, t, e, ok, len) = h s in
      let (ws, u, e', ok', len') = hs t in
      (
        vs ++ ws,
        u,
        bind_some (b s) (λ v. blocks m bs >>= (λ w. pure (v ++ w))) vs t e
            ∙ bind_some (blocks m bs t) (λ w. pure (vs ++ w)) ws u e',
        append-all_pass vs ws ok ok',
        omega (arith, length-append vs ws),
      )

  pub two-Passes :
      (name : String) {o : Option (List Verdict × State)} {w : View}
      → Runs m o (report_two name (expected.e1, expected.e2)) w
      → (vs : List Verdict) × (t : State) × (o ≡ some (vs, t))
        × (all_pass vs ≡ true)
        × (length vs ≡ 2)
  two-Passes name (t, e, h) = (
    report_two name (expected.e1, expected.e2),
    t,
    e,
    (report_two_iff name (expected.e1, expected.e2)).1 refl,
    (unfold report_two in refl),
  )

  pub blocks-All :
      (bs : List (Action m (List Verdict)))
      → All (Passes 2) bs
      → Passes (2 * length bs) (blocks m bs)
  blocks-All [] h s = blocks-nil s
  blocks-All (b ∷ bs) h s =
      let (vs, t, e, ok, len) = blocks-cons 2 (2 * length bs) b bs h.0 (blocks-All bs h.1) s in
      (vs, t, e, ok, omega arith)
