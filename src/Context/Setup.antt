-- ===== src/Context/Setup.antt =====
-- `mkcontext`, `setup_signals` and `main` of src/signals/context-demo.c: what is allocated and printed
-- before the first context runs.
use fex_assorted_tests_bins.Prelude.{
  ℕ, zero, suc, ◌+◌, ◌-◌, ◌≡◌, Bool, true, not, Option, none, some, List, [], ◌∷◌, ◌++◌, refl, sym,
  append-nil, append_assoc, ap, ◌∙◌, arith, if◌then◌else◌,
}
use fex_assorted_tests_bins.Context.{num_contexts, State}
use fex_assorted_tests_bins.Context.Machine.{initial}

pub data Entry : Type 0 where
  thread1 thread2 : Entry

-- A made context: its stack, and the function it goes to.
pub record Made : Type 0 where
  pub stack : ℕ
  pub entry : Entry

-- The calls of `perror`.
pub data Complaint : Type 0 where
  in_malloc in_sigemptyset in_signal in_setitimer : Complaint

-- The answers of libc and the kernel: the n-th malloc, where `none` is NULL, and whether sigemptyset
-- of the n-th context, signal and setitimer succeed.
pub record Answers : Type 0 where
  pub malloc : ℕ → Option ℕ
  pub sigemptyset : ℕ → Bool
  pub signal : Bool
  pub setitimer : Bool

-- `exit` with a status, or a start of the first context, with what was complained of.
pub data Start : Type 0 where
  exits : ℕ → List Complaint → Start
  starts : ℕ → List Made → List Complaint → State → Start

module _ (k : Answers) where
  -- `mkcontext(&contexts[i], function)`; the signal stack was the first malloc.
  unfoldable pub mkcontext : ℕ → Entry → (Made → Start) → Start
  mkcontext i function next = elim (k.malloc (i + 1)) [
    | none ↦ exits 1 (in_malloc ∷ [])
    | some stack ↦
        if not (k.sigemptyset i)
        then exits 1 (in_sigemptyset ∷ [])
        else next (record { stack = stack; entry = function })
  ]

  -- `for(i=1; i < NUMCONTEXTS; i++)`, with `n` left.
  unfoldable pub make_others : ℕ → ℕ → List Made → (List Made → Start) → Start
  unfolding mkcontext
  make_others zero i made next = next made
  make_others (suc n) i made next =
      mkcontext i thread1 (λ c. make_others n (i + 1) (made ++ c ∷ []) next)

  -- `err` is what the comparison with SIG_ERR gives.
  unfoldable pub setup_signals : List Complaint
  setup_signals = let err = k.signal in if err then in_signal ∷ [] else []

  unfoldable pub main : Start
  unfolding mkcontext make_others setup_signals
  main = elim (k.malloc 0) [
    | none ↦ exits 1 (in_malloc ∷ [])
    | some signal_stack ↦ mkcontext 0 thread2 (λ first.
        make_others (num_contexts - 1) 1 (first ∷ []) (λ made.
          starts signal_stack made
            (setup_signals ++ (if not k.setitimer then in_setitimer ∷ [] else [])) initial))
  ]

-- The contexts from `i` on, with the stacks that malloc gave.
abbrev pub others : (ℕ → ℕ) → ℕ → ℕ → List Made
others stack zero i = []
others stack (suc n) i = record { stack = stack (i + 1); entry = thread1 } ∷ others stack n (i + 1)

mkcontext_lem :
    (k : Answers) (i stack : ℕ) (function : Entry) (next : Made → Start)
    → k.malloc (i + 1) ≡ some stack
    → k.sigemptyset i ≡ true
    → mkcontext k i function next ≡ next (record { stack = stack; entry = function })
unfolding mkcontext
mkcontext_lem k i stack function next m e = rw (m, e, mkcontext) refl

make_others_lem :
    (k : Answers) (stack : ℕ → ℕ) (n i : ℕ) (made : List Made) (next : List Made → Start)
    → ((j : ℕ) → k.malloc j ≡ some (stack j))
    → ((j : ℕ) → k.sigemptyset j ≡ true)
    → make_others k n i made next ≡ next (made ++ others stack n i)
unfolding make_others
make_others_lem k stack zero i made next m e = ap next (sym (append-nil made))
make_others_lem k stack (suc n) i made next m e =
    mkcontext_lem k i (stack (i + 1)) thread1 (λ c. make_others k n (i + 1) (made ++ c ∷ []) next)
      (m (i + 1)) (e i)
    ∙ make_others_lem k stack n (i + 1)
        (made ++ record { stack = stack (i + 1); entry = thread1 } ∷ []) next m e
    ∙ ap next (
        append_assoc made (record { stack = stack (i + 1); entry = thread1 } ∷ [])
          (others stack n (i + 1)))

-- Where every malloc and every sigemptyset succeeds, main of src/signals/context-demo.c makes ten
-- contexts with a stack each, the first for thread2 and the others for thread1, complains of the
-- signal handler exactly where signal succeeds, of the timer exactly where setitimer fails, and
-- starts the first context.
pub setup_lem :
    (k : Answers) (stack : ℕ → ℕ)
    → ((j : ℕ) → k.malloc j ≡ some (stack j))
    → ((j : ℕ) → k.sigemptyset j ≡ true)
    → main k
      ≡ starts
          (stack 0)
          (record { stack = stack 1; entry = thread2 } ∷ others stack 9 1)
          ((if k.signal then in_signal ∷ [] else [])
            ++ (if k.setitimer then [] else in_setitimer ∷ []))
          initial
unfolding main setup_signals
setup_lem k stack m e =
    let timer : (if not k.setitimer then in_setitimer ∷ [] else [])
        ≡ (if k.setitimer then [] else in_setitimer ∷ []) =
      ground arith in
    let start = λ (made : List Made).
      starts (stack 0) made (setup_signals k ++ (if not k.setitimer then in_setitimer ∷ [] else []))
        initial in
    rw (m 0, main)
      (mkcontext_lem k 0 (stack 1) thread2 (λ first. make_others k 9 1 (first ∷ []) start) (m 1)
          (e 0)
        ∙ make_others_lem k stack 9 1 (record { stack = stack 1; entry = thread2 } ∷ []) start m e
        ∙ ap
            (λ ls.
              starts (stack 0) (record { stack = stack 1; entry = thread2 } ∷ others stack 9 1)
                ((if k.signal then in_signal ∷ [] else []) ++ ls) initial)
            timer)
