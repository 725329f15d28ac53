-- ===== src/Growsdown/Passing.antt =====
-- What the blocks of src/prot-growsdown.cpp print on a kernel that meets its laws.
use fex_assorted_tests_bins.Prelude.{
  ℕ, ◌+◌, ◌*◌, ◌/◌, ◌<◌, ◌≡◌, refl, sym, subst, ap, ◌∙◌, true, Option, none, some, [], ◌∷◌, arith,
}
use Prim.Native.String.{String}
use fex_assorted_tests_bins.Smc.Machine.{update, imm32, IsStub}
use fex_assorted_tests_bins.Smc.Action.{◌>>=◌, bind_some}
use fex_assorted_tests_bins.Growsdown.{
  Rights, prot_read, read_write, read_write_exec, Kernel, IsKernel, title, smc, done, Action, poke,
  down, split_down, merge_down, write_block, run_code, code_block, main,
}
use fex_assorted_tests_bins.Growsdown.Pages.{
  mmap-IsPlain, down-IsPlain, merge-IsPlain, split-IsPlain,
}

-- Memory behind the six stores.
abbrev written : ℕ → (ℕ → ℕ) → ℕ → ℕ
written c f =
    update
      (update
        (update (update (update (update f (c + 0) 0xB8) (c + 1) 0xAA) (c + 2) 0xBB) (c + 3) 0xCC)
        (c + 4) 0xDD)
      (c + 5) 0xC3

written-IsStub : (c : ℕ) (f : ℕ → ℕ) → IsStub (written c f) c 0xAA 0xBB 0xCC 0xDD
written-IsStub c f = record {
  opcode = ground arith;
  imm₀ = ground arith;
  imm₁ = ground arith;
  imm₂ = ground arith;
  imm₃ = ground arith;
  ret = ground arith;
}

changed-IsStub :
    (c : ℕ) (f : ℕ → ℕ) → IsStub (update (written c f) (c + 1) 0xAB) c 0xAB 0xBB 0xCC 0xDD
changed-IsStub c f = record {
  opcode = ground arith;
  imm₀ = ground arith;
  imm₁ = ground arith;
  imm₂ = ground arith;
  imm₃ = ground arith;
  ret = ground arith;
}

module _ (k : Kernel) (law : IsKernel k) where
  open k use {State, byte, rights, mapping, mmap, mprotect, mprotect_down, munmap, store, call}

  -- The run ends with `a`, and memory as given.
  abbrev Runs : {A : Type 0} → Option (A × State) → A → (ℕ → ℕ) → (ℕ → Option Rights) → Type 0
  Runs o a f g = (t : State) × (o ≡ some (a, t)) × (byte t ≡ f) × (rights t ≡ g)

  Runs-bind :
      {A B : Type 0} {a : A} {b : B} {f f' : ℕ → ℕ} {g g' : ℕ → Option Rights}
      (o : Option (A × State)) (n : A → State → Option (B × State))
      → Runs o a f g
      → ((t : State) → byte t ≡ f → rights t ≡ g → Runs (n a t) b f' g')
      → Runs (elim o [ none ↦ none | some (a', t) ↦ n a' t ]) b f' g'
  Runs-bind {a} {b} {f' = f'} {g' = g'} o n (t, e, h, h') next =
      subst (λ r. Runs (elim r [ none ↦ none | some (a', u) ↦ n a' u ]) b f' g') (sym e)
        (next t h h')

  Runs-poke :
      (a v : ℕ) (r : Rights) (s : State) (f : ℕ → ℕ) (g : ℕ → Option Rights)
      → g (a / 4096) ≡ some r
      → r.write ≡ true
      → byte s ≡ f
      → rights s ≡ g
      → Runs (poke k a v s) tt (update f a v) g
  unfolding poke
  Runs-poke a v r s f g there ok h h' =
      let (t, e, b, i) = law.store_law a v r s (ap (λ w. w (a / 4096)) h' ∙ there) ok in
      (t, rw (e, poke) refl, b ∙ ap (λ w. update w a v) h, i ∙ h')

  Runs-call :
      (p b₀ b₁ b₂ b₃ : ℕ) (r : Rights) (s : State) (f : ℕ → ℕ) (g : ℕ → Option Rights)
      → g p ≡ some r
      → r.exec ≡ true
      → IsStub f (p * 4096) b₀ b₁ b₂ b₃
      → byte s ≡ f
      → rights s ≡ g
      → Runs (call (p * 4096) s) (imm32 b₀ b₁ b₂ b₃) f g
  Runs-call p b₀ b₁ b₂ b₃ r s f g there ok stub h h' =
      let (t, e, b, i) =
        law.call_law p b₀ b₁ b₂ b₃ r s (ap (λ w. w p) h' ∙ there) ok
          (subst (λ w. IsStub w (p * 4096) b₀ b₁ b₂ b₃) (sym h) stub) in
      (t, e, b ∙ h, i ∙ h')

  -- In a page that may be written and run.
  Runs-run_code :
      (q : ℕ) (r : Rights) (s : State) (f : ℕ → ℕ) (g : ℕ → Option Rights)
      → g q ≡ some r
      → r.write ≡ true
      → r.exec ≡ true
      → byte s ≡ f
      → rights s ≡ g
      → Runs
          (run_code k (q * 4096) s)
          (0xDDCCBBAA, 0xDDCCBBAB)
          (update (written (q * 4096) f) (q * 4096 + 1) 0xAB)
          g
  unfolding run_code
  Runs-run_code q r s f g there ok run h h' =
      let c = q * 4096 in
      let put : (i v : ℕ) (u : State) (f' : ℕ → ℕ)
          → i < 4096
          → byte u ≡ f'
          → rights u ≡ g
          → Runs (poke k (c + i) v u) tt (update f' (c + i) v) g =
        λ i v u f' low e e'.
          let page : (c + i) / 4096 ≡ q = omega arith in
          Runs-poke (c + i) v r u f' g (ap g page ∙ there) ok e e' in
      Runs-bind _ _ (put 0 0xB8 s f (omega arith) h h') λ s₀ b₀ r₀.
        Runs-bind _ _ (put 1 0xAA s₀ _ (omega arith) b₀ r₀) λ s₁ b₁ r₁.
          Runs-bind _ _ (put 2 0xBB s₁ _ (omega arith) b₁ r₁) λ s₂ b₂ r₂.
            Runs-bind _ _ (put 3 0xCC s₂ _ (omega arith) b₂ r₂) λ s₃ b₃ r₃.
              Runs-bind _ _ (put 4 0xDD s₃ _ (omega arith) b₃ r₃) λ s₄ b₄ r₄.
                Runs-bind _ _ (put 5 0xC3 s₄ _ (omega arith) b₄ r₄) λ s₅ b₅ r₅.
                  Runs-bind _ _
                    (Runs-call q 0xAA 0xBB 0xCC 0xDD r s₅ (written c f) g there run
                      (written-IsStub c f) b₅ r₅)
                    λ s₆ b₆ r₆. Runs-bind _ _ (put 1 0xAB s₆ _ (omega arith) b₆ r₆) λ s₇ b₇ r₇.
                      Runs-bind _ _
                        (Runs-call q 0xAB 0xBB 0xCC 0xDD r s₇ _ g there run (changed-IsStub c f) b₇
                          r₇)
                        λ s₈ b₈ r₈. (s₈, refl, b₈, r₈)

  -- The first page of the mapping has the rights `w` behind the calls of mprotect.
  abbrev Leaves : Rights → (ℕ → State → State) → Rights → Type 0
  Leaves r prepare w =
      (s : State) → rights (prepare (mmap r s).0 (mmap r s).1) (mmap r s).0 ≡ some w

  down-Leaves : (old r : Rights) → Leaves old (down k r) r
  down-Leaves old r s =
      down-IsPlain k law (mmap old s).0 old r (mmap old s).1 (mmap-IsPlain k law old s)

  split-Leaves : (old r : Rights) → old.read ≡ true → Leaves old (split_down k r) old
  split-Leaves old r h s =
      split-IsPlain k law (mmap old s).0 old r (mmap old s).1 (mmap-IsPlain k law old s) h

  merge-Leaves : (r : Rights) → Leaves prot_read (merge_down k r) r
  merge-Leaves r s =
      let q = (mmap prot_read s).0 in
      down-IsPlain k law q prot_read r _
        (merge-IsPlain k law q prot_read (mmap prot_read s).1 (mmap-IsPlain k law prot_read s))

  -- From each state it ends, and gives `a`.
  abbrev Ends : {A : Type 0} → Action k A → A → Type 0
  Ends {A} m a = (s : State) → (t : State) × (m s ≡ some (a, t))

  write_block-Ends :
      (name : String) (r w : Rights) (prepare : ℕ → State → State)
      → Leaves r prepare w
      → w.write ≡ true
      → Ends (write_block k name r prepare) (title name ∷ [])
  unfolding write_block
  write_block-Ends name r w prepare leaves ok s =
      let q = (mmap r s).0 in
      let u = prepare q (mmap r s).1 in
      let page : (q * 4096 + 0) / 4096 ≡ q = omega arith in
      let (t, e, h, h') =
        Runs-poke (q * 4096 + 0) 1 w u (byte u) (rights u) (ap (rights u) page ∙ leaves s) ok refl
          refl in
      (munmap q t, bind_some (poke k (q * 4096 + 0) 1 u) _ tt t e)

  code_block-Ends :
      (name : String) (r w : Rights) (prepare : ℕ → State → State)
      → Leaves r prepare w
      → w.write ≡ true
      → w.exec ≡ true
      → Ends (code_block k name r prepare) (title name ∷ smc true ∷ [])
  unfolding code_block
  code_block-Ends name r w prepare leaves ok run s =
      let q = (mmap r s).0 in
      let u = prepare q (mmap r s).1 in
      let (t, e, h, h') = Runs-run_code q w u (byte u) (rights u) (leaves s) ok run refl refl in
      (munmap q t, bind_some (run_code k (q * 4096) u) _ (0xDDCCBBAA, 0xDDCCBBAB) t e)

  bind-Ends :
      {A B : Type 0} (m : Action k A) (n : A → Action k B) (a : A) {b : B}
      → Ends m a
      → Ends (n a) b
      → Ends (m >>= n) b
  bind-Ends m n a h h' s =
      let (t, e) = h s in let (u, e') = h' t in (u, bind_some (m s) n a t e ∙ e')

  -- On a kernel whose PROT_GROWSDOWN changes the pages below that belong to the same mapping and
  -- have the same rights, and stops at a page with others, and whose processor sees every store,
  -- main of src/prot-growsdown.cpp ends from every state: no store and no call is killed, and all
  -- three blocks that change code say SMC PASS.
  pub main-Ends : Ends (main k) (
      title "R/W growsdown"
      ∷ title "new vma doesn't growsdown"
      ∷ title "vma merging growsdown"
      ∷ title "code modification after growsdown"
      ∷ smc true
      ∷ title "code modification w/ new vma + growsdown"
      ∷ smc true
      ∷ title "code modification w/ vma merging + growsdown"
      ∷ smc true
      ∷ done
      ∷ [])
  unfolding main
  main-Ends =
      bind-Ends _ _ _
        (write_block-Ends _ prot_read read_write _ (down-Leaves prot_read read_write) refl)
        (bind-Ends _ _ _
          (write_block-Ends _ read_write read_write _ (split-Leaves read_write prot_read refl) refl)
          (bind-Ends _ _ _
            (write_block-Ends _ prot_read read_write _ (merge-Leaves read_write) refl)
            (bind-Ends _ _ _
              (code_block-Ends _ prot_read read_write_exec _ (down-Leaves prot_read read_write_exec)
                refl refl)
              (bind-Ends _ _ _
                (code_block-Ends _ read_write_exec read_write_exec _
                  (split-Leaves read_write_exec prot_read refl) refl refl)
                (bind-Ends _ _ _
                  (code_block-Ends _ prot_read read_write_exec _ (merge-Leaves read_write_exec) refl
                    refl)
                  (λ s. (s, refl)))))))
