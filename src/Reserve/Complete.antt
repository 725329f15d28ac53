-- ===== src/Reserve/Complete.antt =====
-- What `main` of src/reserve-address-space.cpp has reserved when it ends.
use fex_assorted_tests_bins.Prelude.{
  ℕ, zero, suc, ◌+◌, ◌*◌, ◌/◌, ◌%◌, ◌^◌, ◌≤◌, ◌<◌, ◌≡◌, ◌≢◌, ◌⊎◌, inl, inr, refl, arith, not, subst,
  ◌&&◌, ◌==◌, ==_iff, if◌then◌else◌, Bool-cases,
}
use fex_assorted_tests_bins.Reserve.{
  page_size, enomem, eperm, Attempt, mapped, failed, Kernel, Result, done, error, no_fuel, fill,
  sweep, max_rounds, reserve_all,
}

-- The bytes of address space that are free: a success takes its length, in whole pages, from
-- them, and a call that fails
-- leaves them.
pub record IsMmap (k : Kernel) : Type 0 where
  pub free : k.State → ℕ
  pub takes :
      (len : ℕ) (s t : k.State)
      → len % page_size ≡ 0
      → k.mmap len s ≡ mapped t
      → free t + len ≡ free s
  pub refuses : (len errno : ℕ) (s t : k.State) → k.mmap len s ≡ failed errno t → free t ≡ free s

-- A call for `len` bytes was refused with ENOMEM or EPERM, and left the state.
abbrev pub Refused : (k : Kernel) → ℕ → k.State → Type 0
Refused k len t =
    (s : k.State) × (errno : ℕ) × (k.mmap len s ≡ failed errno t)
    × ((errno ≡ enomem) ⊎ (errno ≡ eperm))

-- A call was refused with this errno.
abbrev pub IsLast : (k : Kernel) → ℕ → k.State → Type 0
IsLast k errno t = (len : ℕ) × (s : k.State) × (k.mmap len s ≡ failed errno t)

Attempt-cases :
    {S : Type 0} (a : Attempt S)
    → ((t : S) × (a ≡ mapped t)) ⊎ ((errno : ℕ) × (t : S) × (a ≡ failed errno t))
Attempt-cases (mapped t) = inl (t, refl)
Attempt-cases (failed errno t) = inr (errno, t, refl)

-- 4096 * 2^j / 2
abbrev pub piece : ℕ → ℕ
piece zero = 2048
piece (suc j) = 2 * piece j

piece-IsWhole : (j : ℕ) → 2 * piece j % page_size ≡ 0
piece-IsWhole zero = omega arith
piece-IsWhole (suc j) = omega (arith, piece-IsWhole j)

piece-large : (j : ℕ) → 2048 ≤ piece j
piece-large zero = omega arith
piece-large (suc j) = omega (arith, piece-large j)

module _ (k : Kernel) (law : IsMmap k) where
  open k use {State, mmap}
  open law use {free, takes, refuses}

  -- All the bytes of `before` are mapped or still free, and the last call, for `len` bytes, was
  -- refused with ENOMEM or EPERM; or the last call was refused with another errno.
  abbrev pub Ends : ℕ → ℕ → Result State → Type 0
  Ends before len (done total t) = (total + free t ≡ before) × Refused k len t
  Ends before len (error errno t) = (errno ≢ enomem) × (errno ≢ eperm) × IsLast k errno t
  Ends before len no_fuel = ⊥

  fill_stop :
      (errno total before len : ℕ) (s t : State)
      → mmap len s ≡ failed errno t
      → total + free s ≡ before
      → Ends before len
          (if not (errno == enomem) && not (errno == eperm) then error errno t else done total t)
  fill_stop errno total before len s t q e =
      let kept : total + free t ≡ before = omega (arith, refuses len errno s t q) in
      elim (Bool-cases (errno == enomem)) [
        | inl memory ↦ rw memory (kept, (s, errno, q, inl ((==_iff _ _).0 memory)))
        | inr other ↦ elim (Bool-cases (errno == eperm)) [
          | inl perm ↦ rw (other, perm) (kept, (s, errno, q, inr ((==_iff _ _).0 perm)))
          | inr neither ↦ rw (other, neither) (ground arith, ground arith, (len, s, q))
        ]
      ]

  fill-mapped :
      (fuel len total : ℕ) (s t : State)
      → mmap len s ≡ mapped t
      → fill k (suc fuel) len total s ≡ fill k fuel len ((total + len) % 2 ^ 64) t
  unfolding fill
  fill-mapped fuel len total s t q = rw (q, fill)

  fill-failed :
      (fuel len total errno : ℕ) (s t : State)
      → mmap len s ≡ failed errno t
      → fill k (suc fuel) len total s
        ≡ (if not (errno == enomem) && not (errno == eperm) then error errno t else done total t)
  unfolding fill
  fill-failed fuel len total errno s t q = rw (q, fill)

  fill-Ends :
      (fuel len total before : ℕ) (s : State)
      → page_size ≤ len
      → len % page_size ≡ 0
      → free s < fuel * page_size
      → total + free s ≡ before
      → before < 2 ^ 64
      → Ends before len (fill k fuel len total s)
  fill-Ends zero len total before s p whole f e b = absurd (omega arith)
  fill-Ends (suc fuel) len total before s p whole f e b = elim (Attempt-cases (mmap len s)) [
    | inl (t, q) ↦
        let left = takes len s t whole q in
        let sum : (total + len) % 2 ^ 64 ≡ total + len = omega arith in
        rw (fill-mapped fuel len total s t q)
          (rw sum (fill-Ends fuel len (total + len) before t p whole (omega arith) (omega arith) b))
    | inr (errno, t, q) ↦
        rw (fill-failed fuel len total errno s t q) (fill_stop errno total before len s t q e)
  ]

  -- One round of the outer loop, by how the inner one ends.
  round : (rounds fuel len : ℕ) → Result State → Result State
  round rounds fuel len (done total t) = sweep k rounds fuel (len / 2) total t
  round rounds fuel len (error errno t) = error errno t
  round rounds fuel len no_fuel = no_fuel

  sweep-round :
      (rounds fuel len total : ℕ) (s : State)
      → page_size ≤ len
      → sweep k (suc rounds) fuel len total s ≡ round rounds fuel len (fill k fuel len total s)
  unfolding sweep round
  sweep-round rounds fuel len total s p = ground arith

  round-Ends :
      (j rounds fuel before : ℕ) (o : Result State)
      → ((total : ℕ) (t : State)
          → total + free t ≡ before
          → (j ≡ 0 → Refused k page_size t)
          → Ends before page_size (sweep k rounds fuel (piece j) total t))
      → Ends before (2 * piece j) o
      → Ends before page_size (round rounds fuel (2 * piece j) o)
  unfolding round
  round-Ends j rounds fuel before (done total t) next h =
      let half : 2 * piece j / 2 ≡ piece j = omega arith in
      rw half (
        next total t h.0 λ z.
          let first : 2 * piece j ≡ page_size = rw z refl in subst (λ n. Refused k n t) first h.1)
  round-Ends j rounds fuel before (error errno t) next h = h
  round-Ends j rounds fuel before no_fuel next h = h

  -- The sizes halve from `piece (suc j)` down to a page.
  sweep-Ends :
      (j rounds fuel total before : ℕ) (s : State)
      → j < rounds
      → before < fuel * page_size
      → total + free s ≡ before
      → before < 2 ^ 64
      → (j ≡ 0 → Refused k page_size s)
      → Ends before page_size (sweep k rounds fuel (piece j) total s)
  sweep-Ends j zero fuel total before s r f e b w = absurd (omega arith)
  sweep-Ends zero (suc rounds) fuel total before s r f e b w = unfold sweep in (e, w refl)
  sweep-Ends (suc j) (suc rounds) fuel total before s r f e b w =
      let large : page_size ≤ 2 * piece j = omega (arith, piece-large j) in
      rw (sweep-round rounds fuel (2 * piece j) total s large) (
        round-Ends j rounds fuel before (fill k fuel (2 * piece j) total s)
          (λ total' t e' w'. sweep-Ends j rounds fuel total' before t (omega arith) f e' b w')
          (fill-Ends fuel (2 * piece j) total before s large (piece-IsWhole j) (omega arith) e b))

  -- On a kernel whose mmap takes whole pages from its free bytes where it succeeds and none where
  -- it fails, with fuel for each page that is free and fewer than 2^64 bytes free, main of
  -- src/reserve-address-space.cpp ends: if it returns 0, total_len is what it took from the free
  -- bytes, without overflow, and its last call asked for one page and was refused with ENOMEM or
  -- EPERM; it returns -1 only behind a call that was refused with another errno.
  pub reserve_all-Ends :
      (fuel : ℕ) (s : State)
      → free s < fuel * page_size
      → free s < 2 ^ 64
      → Ends (free s) page_size (reserve_all k fuel s)
  unfolding reserve_all
  reserve_all-Ends fuel s f b =
      sweep-Ends 40 max_rounds fuel 0 (free s) s (omega arith) f (omega arith) b
        (λ z. absurd (omega arith))
