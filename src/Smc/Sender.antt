-- ===== src/Smc/Sender.antt =====
-- src/smc-signals.cpp as a whole: `thread` sends signals, each delivery runs `sig_handler`, and
-- `main` reports. Deliveries come one behind the other; the kernel may merge some that are sent.
use fex_assorted_tests_bins.Prelude.{
  ℕ, zero, suc, ◌+◌, ◌*◌, ◌%◌, ◌^◌, ◌<◌, false, Option, none, some, List, [], ◌∷◌, ◌++◌, ◌≡◌, refl,
  ◌∙◌, subst, arith, get_elem?, replicate, if◌then◌else◌, ◌==◌,
}
use fex_assorted_tests_bins.Smc.Machine.{Machine, IsCoherent}
use fex_assorted_tests_bins.Smc.Action.{Action}
use fex_assorted_tests_bins.Smc.Programs.{Globals, smc_test}
use fex_assorted_tests_bins.Smc.Verdicts.{IsCodePage, smc_test-count}

-- `int signals[] = { SIGINT, SIGSEGV, 63, SIGUSR1, SIGUSR2 }`
abbrev pub signals : List ℕ
signals = 2 ∷ 11 ∷ 63 ∷ 10 ∷ 12 ∷ []

-- `for (int i = 0; i < 1000; i++)` for each of the signals.
unfoldable pub in_turn : List ℕ → List ℕ
in_turn [] = []
in_turn (sig ∷ sigs) = replicate 1000 sig ++ in_turn sigs

-- `signals[i % 5]`, for the `k` rounds that are left.
unfoldable pub mixed : ℕ → ℕ → List ℕ
mixed zero i = []
mixed (suc k) i = elim (get_elem? signals (i % 5)) [ none ↦ [] | some sig ↦ sig ∷ mixed k (i + 1) ]

-- `thread`: what it sends to the main thread, in order.
unfoldable pub thread_sends : List ℕ
unfolding in_turn mixed
thread_sends = in_turn signals ++ mixed 1000 0

-- `failed` and `count`, and `sigcount`.
pub record Counters : Type 0 where
  pub globals : Globals
  pub sigcount : ℕ

module _ (m : Machine) (mmap : m.State → ℕ × m.State) where
  open m use {State, view}

  -- `sig_handler`; `smc_test` begins with its mmap.
  unfoldable pub sig_handler : Counters → Action m Counters
  sig_handler c s =
      let (code, t) = mmap s in
      elim (smc_test m code c.globals t) [
        | none ↦ none
        | some (g, u) ↦ some (record { globals = g; sigcount = (c.sigcount + 1) % 2 ^ 64 }, u)
      ]

  -- So many deliveries.
  unfoldable pub deliveries : ℕ → Counters → Action m Counters
  deliveries zero c s = some (c, s)
  deliveries (suc n) c s = elim (sig_handler c s) [ none ↦ none | some (c', t) ↦ deliveries n c' t ]

  -- `main`: its status, and the counters that it prints.
  unfoldable pub signals_main : ℕ → Action m (ℕ × Counters)
  unfolding deliveries sig_handler
  signals_main n s =
      elim (deliveries n (record { globals = record { failed = false; count = 0 }; sigcount = 0 })
        s) [ none ↦ none | some (c, t) ↦ some (((if c.globals.failed then 1 else 0), c), t) ]

  -- A kernel that gives each mmap a page that may be written and run.
  abbrev pub IsAllocating : Type 0
  IsAllocating = (s : State) → (p : ℕ) × IsCodePage (view (mmap s).1) (mmap s).0 p

  sig_handler-some :
      (c : Counters) (s u : State) (g : Globals)
      → smc_test m (mmap s).0 c.globals (mmap s).1 ≡ some (g, u)
      → sig_handler c s ≡ some (record { globals = g; sigcount = (c.sigcount + 1) % 2 ^ 64 }, u)
  unfolding sig_handler
  sig_handler-some c s u g e = rw (e, sig_handler) refl

  deliveries-suc :
      (n : ℕ) (c c' : Counters) (s t : State) (r : Option (Counters × State))
      → sig_handler c s ≡ some (c', t)
      → deliveries n c' t ≡ r
      → deliveries (suc n) c s ≡ r
  unfolding deliveries
  deliveries-suc n c c' s t r e e' = rw (e, deliveries) e'

  module _ (law : IsCoherent m) (alloc : IsAllocating) where
    deliveries-count :
        (n : ℕ) (c : Counters) (s : State)
        → (c' : Counters) × (t : State) × (deliveries n c s ≡ some (c', t))
          × (c'.globals.failed ≡ c.globals.failed)
          × (c'.globals.count % 2 ^ 64 ≡ (c.globals.count + n * 10) % 2 ^ 64)
          × (c'.sigcount % 2 ^ 64 ≡ (c.sigcount + n) % 2 ^ 64)
    deliveries-count zero c s = (c, s, (unfold deliveries in refl), refl, omega arith, omega arith)
    deliveries-count (suc n) c s =
        let (p, page) = alloc s in
        let (g, u, e, same, count) = smc_test-count m law (mmap s).0 p c.globals (mmap s).1 page in
        let next : Counters = record { globals = g; sigcount = (c.sigcount + 1) % 2 ^ 64 } in
        let (c', t, e', same', count', sigs) = deliveries-count n next u in
        (
          c',
          t,
          deliveries-suc n c next s u _ (sig_handler-some c s u g e) e',
          same' ∙ same,
          omega arith,
          omega arith,
        )

    -- On a coherent machine whose mmap always gives a page that may be written and run, however
    -- many signals are delivered one behind the other, main of src/smc-signals.cpp returns 0 with
    -- failed not set; count is ten times their number and sigcount their number, modulo 2^64.
    pub signals_main_passes :
        (n : ℕ) (s : State)
        → (c : Counters) × (t : State) × (signals_main n s ≡ some ((0, c), t))
          × (c.globals.failed ≡ false)
          × (c.globals.count % 2 ^ 64 ≡ n * 10 % 2 ^ 64)
          × (c.sigcount % 2 ^ 64 ≡ n % 2 ^ 64)
    unfolding signals_main
    signals_main_passes n s =
        let (c, t, e, same, count, sigs) =
          deliveries-count n
            (record { globals = record { failed = false; count = 0 }; sigcount = 0 }) s in
        (c, t, rw (e, signals_main) (rw same refl), same, count ∙ omega arith, sigs ∙ omega arith)

-- How often a signal is sent.
abbrev pub occurrences : ℕ → List ℕ → ℕ
occurrences sig [] = 0
occurrences sig (x ∷ xs) = (if sig == x then 1 else 0) + occurrences sig xs

occurrences-append :
    (sig : ℕ) (xs ys : List ℕ)
    → occurrences sig (xs ++ ys) ≡ occurrences sig xs + occurrences sig ys
occurrences-append sig [] ys = omega arith
occurrences-append sig (x ∷ xs) ys = omega (arith, occurrences-append sig xs ys)

occurrences-replicate :
    (n sig x : ℕ) → occurrences sig (replicate n x) ≡ n * (if sig == x then 1 else 0)
occurrences-replicate zero sig x = omega arith
occurrences-replicate (suc n) sig x = ground (arith, occurrences-replicate n sig x)

occurrences-in_turn :
    (sig : ℕ) (sigs : List ℕ) → occurrences sig (in_turn sigs) ≡ 1000 * occurrences sig sigs
unfolding in_turn
occurrences-in_turn sig [] = refl
occurrences-in_turn sig (x ∷ xs) = omega (
  arith,
  occurrences-append sig (replicate 1000 x) (in_turn xs),
  occurrences-replicate 1000 sig x,
  occurrences-in_turn sig xs,
)

mixed_one :
    (k i sig : ℕ) → get_elem? signals (i % 5) ≡ some sig → mixed (suc k) i ≡ sig ∷ mixed k (i + 1)
unfolding mixed
mixed_one k i sig e = rw (e, mixed) refl

mixed_at :
    (k j r sig : ℕ)
    → r < 5
    → get_elem? signals r ≡ some sig
    → mixed (suc k) (5 * j + r) ≡ sig ∷ mixed k (5 * j + r + 1)
mixed_at k j r sig lt e =
    let rest : r ≡ (5 * j + r) % 5 = omega arith in
    mixed_one k (5 * j + r) sig (subst (λ i. get_elem? signals i ≡ some sig) rest e)

one_more :
    (a b c d e x k n : ℕ)
    → n ≡ a + (b + (c + (d + (e + 0))))
    → x ≡ k * n
    → a + (b + (c + (d + (e + x)))) ≡ suc k * n
one_more a b c d e x k n h rest = grind arith

-- Five rounds, from an index where the signals begin.
occurrences-mixed :
    (k j sig : ℕ) → occurrences sig (mixed (5 * k) (5 * j + 0)) ≡ k * occurrences sig signals
occurrences-mixed zero j sig = unfold mixed in omega arith
occurrences-mixed (suc k) j sig =
    let five : suc (suc (suc (suc (suc (5 * k))))) ≡ 5 * suc k = omega arith in
    let next : 5 * j + 4 + 1 ≡ 5 * (j + 1) + 0 = omega arith in
    let one : 5 * j + 0 + 1 ≡ 5 * j + 1 = omega arith in
    let two : 5 * j + 1 + 1 ≡ 5 * j + 2 = omega arith in
    let three : 5 * j + 2 + 1 ≡ 5 * j + 3 = omega arith in
    let four : 5 * j + 3 + 1 ≡ 5 * j + 4 = omega arith in
    let rest = occurrences-mixed k (j + 1) sig in
    subst (λ n. occurrences sig (mixed n (5 * j + 0)) ≡ suc k * occurrences sig signals) five
      (rw
        (
          mixed_at (suc (suc (suc (suc (5 * k))))) j 0 2 (omega arith) refl,
          one,
          mixed_at (suc (suc (suc (5 * k)))) j 1 11 (omega arith) refl,
          two,
          mixed_at (suc (suc (5 * k))) j 2 63 (omega arith) refl,
          three,
          mixed_at (suc (5 * k)) j 3 10 (omega arith) refl,
          four,
          mixed_at (5 * k) j 4 12 (omega arith) refl,
          next,
        )
        (one_more _ _ _ _ _ _ k (occurrences sig signals) refl rest))

-- thread of src/smc-signals.cpp sends each of the five signals 1200 times, and no other.
pub occurrences-thread_sends :
    (sig : ℕ) → occurrences sig thread_sends ≡ 1200 * occurrences sig signals
unfolding thread_sends
occurrences-thread_sends sig = omega (
  arith,
  occurrences-append sig (in_turn signals) (mixed 1000 0),
  occurrences-in_turn sig signals,
  occurrences-mixed 200 0 sig,
)
