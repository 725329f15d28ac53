-- ===== src/Probes/Answers.antt =====
-- What src/memfd.cpp and src/shmid.cpp get to see on a kernel that does what is documented.
use fex_assorted_tests_bins.Prelude.{
  ℕ, ◌+◌, ◌-◌, ◌<◌, ◌≤◌, ◌≡◌, ◌⊎◌, inl, inr, refl, sym, ◌∙◌, ap, subst, ℤ, pos, negsuc, Bool, true,
  false, Option, none, some, List, [], ◌∷◌, ◌==◌, ==_iff, lt-cases, arith, if◌then◌else◌,
}
use fex_assorted_tests_bins.Probes.{
  done, bus_error, View, Memory, pointers, expecting_bus_error, and_then, beyond, printed, mmaptest,
  Segments, shmid_main,
}

-- `len` addresses from `a` show the object `o` from its start.
abbrev pub Shows : View → (a len o : ℕ) → Type 0
Shows v a len o = (i : ℕ) → i < len → v.backing (a + i) ≡ some (o, i)

-- A store changes one byte.
abbrev pub with_byte : View → ℕ → ℕ → ℕ → View
with_byte v o i b = record v {
  byte = λ p j. if p == o then (if j == i then b else v.byte p j) else v.byte p j;
}

-- An address of the second mapping is not one of the first.
outside :
    (ptr ptr2 i : ℕ)
    → i < 8192
    → ((j : ℕ) → j < 4096 → (ptr + j < ptr2) ⊎ (ptr2 + 8192 ≤ ptr + j))
    → (ptr2 + i < ptr) ⊎ (ptr + 4096 ≤ ptr2 + i)
outside ptr ptr2 i low h = elim (lt-cases (ptr2 + i) ptr) [
  | inl below ↦ inl below
  | inr above ↦ elim (lt-cases (ptr2 + i) (ptr + 4096)) [
    | inr behind ↦ inr behind
    | inl inside ↦ elim (h (ptr2 + i - ptr) (omega arith)) [
      | inl before ↦ absurd (omega arith)
      | inr after ↦ absurd (omega arith)
    ]
  ]
]

five :
    {a b c d e a' b' c' d' e' : ℤ}
    → a ≡ a'
    → b ≡ b'
    → c ≡ c'
    → d ≡ d'
    → e ≡ e'
    → ◌≡◌ {A = List ℤ} (a ∷ b ∷ c ∷ d ∷ e ∷ []) (a' ∷ b' ∷ c' ∷ d' ∷ e' ∷ [])
five p q r s t = cc

module _ (m : Memory) where
  open m use {State, view, mmap, mremap, store}

  pub record IsMemory : Type 0 where
    pub mmap_law :
        (len : ℕ) (s : State)
        → (o : ℕ) × Shows (view (mmap len s).1) (mmap len s).0 len o
          × ((view (mmap len s).1).size o ≡ len)
    -- An old size of 0 makes a second mapping, apart from what is mapped.
    pub mirror_law :
        (old new o : ℕ) (s : State)
        → (view s).backing (old + 0) ≡ some (o, 0)
        → Shows (view (mremap old 0 new s).1) (mremap old 0 new s).0 new o
          × ((p : ℕ) → (view (mremap old 0 new s).1).size p ≡ (view s).size p)
          × ((x : ℕ) (q : ℕ × ℕ)
              → (view s).backing x ≡ some q
              → ((view (mremap old 0 new s).1).backing x ≡ some q)
                × ((x < (mremap old 0 new s).0) ⊎ ((mremap old 0 new s).0 + new ≤ x)))
    -- A whole mapping that grows shows the same object, and what is not of it stays.
    pub move_law :
        (old len new o : ℕ) (s : State)
        → 0 < len
        → Shows (view s) old len o
        → Shows (view (mremap old len new s).1) (mremap old len new s).0 new o
          × ((p : ℕ) → (view (mremap old len new s).1).size p ≡ (view s).size p)
          × ((x : ℕ) (q : ℕ × ℕ)
              → (x < old) ⊎ (old + len ≤ x)
              → (view s).backing x ≡ some q
              → (view (mremap old len new s).1).backing x ≡ some q)
    pub store_law :
        (a b o i : ℕ) (s : State)
        → (view s).backing a ≡ some (o, i)
        → i < (view s).size o
        → (t : State) × (store a b s ≡ done t) × (view t ≡ with_byte (view s) o i b)
    -- A store behind the end of the object.
    pub bus_law :
        (a b o i : ℕ) (s : State)
        → (view s).backing a ≡ some (o, i)
        → (view s).size o ≤ i
        → store a b s ≡ bus_error s

  -- Where two mappings of 8192 bytes show an object of 4096.
  record Grown (v : View) (ptr2 ptr3 o : ℕ) : Type 0 where
    second : Shows v ptr2 8192 o
    third : Shows v ptr3 8192 o
    size : v.size o ≡ 4096

  stored-Grown :
      (v : View) (ptr2 ptr3 o i b : ℕ) → Grown v ptr2 ptr3 o → Grown (with_byte v o i b) ptr2 ptr3 o
  stored-Grown v ptr2 ptr3 o i b g = record { second = g.second; third = g.third; size = g.size }

  module _ (law : IsMemory) where
    mapped-Grown :
        (s : State)
        → let s₁ = (mmap 4096 s).1 in
          let ptr = (mmap 4096 s).0 in
          let s₂ = (mremap ptr 0 8192 s₁).1 in
          (o : ℕ) × Grown
            (view (mremap ptr 4096 8192 s₂).1)
            (mremap ptr 0 8192 s₁).0
            (mremap ptr 4096 8192 s₂).0
            o
    mapped-Grown s =
        let (ptr, s₁) = mmap 4096 s in
        let (o, first, size) = law.mmap_law 4096 s in
        let (ptr2, s₂) = mremap ptr 0 8192 s₁ in
        let (second, size₂, kept) = law.mirror_law ptr 8192 o s₁ (first 0 (omega arith)) in
        let (third, size₃, kept₃) =
          law.move_law ptr 4096 8192 o s₂ (omega arith)
            (λ i low. (kept (ptr + i) (o, i) (first i low)).0) in
        (
          o,
          record {
            second = λ i low.
                kept₃ (ptr2 + i) (o, i)
                  (outside ptr ptr2 i low (λ j low'. (kept (ptr + j) (o, j) (first j low')).1))
                  (second i low);
            third = third;
            size = size₃ o ∙ size₂ o ∙ size;
          },
        )

    -- On a kernel whose mappings show objects from their start, whose mremap mirrors a mapping for
    -- an old size of 0, apart from what is mapped, and moves one that grows, and whose stores
    -- behind the end of an object are refused, mmaptest of src/memfd.cpp prints its two lines and
    -- then ends by SIGBUS; both mappings show the one object then, whose first two bytes are those
    -- that were stored through one each.
    pub mmaptest-bus_error :
        (s : State)
        → (ptr : ℕ) × (ptr2 : ℕ) × (ptr3 : ℕ) × (o : ℕ) × (t : State) × (mmaptest m s
            ≡ (pointers ptr ptr2 ptr3 ∷ expecting_bus_error ∷ [], bus_error t))
          × ((view t).byte o 0 ≡ 1)
          × ((view t).byte o 1 ≡ 1)
          × Shows (view t) ptr2 8192 o
          × Shows (view t) ptr3 8192 o
    unfolding mmaptest and_then beyond printed
    mmaptest-bus_error s =
        let (ptr, s₁) = mmap 4096 s in
        let (ptr2, s₂) = mremap ptr 0 8192 s₁ in
        let (ptr3, s₃) = mremap ptr 4096 8192 s₂ in
        let (o, g) = mapped-Grown s in
        let (t, e, v) =
          law.store_law (ptr3 + 0) 1 o 0 s₃ (g.third 0 (omega arith)) (omega (arith, g.size)) in
        let g' : Grown (view t) ptr2 ptr3 o =
          subst (λ w. Grown w ptr2 ptr3 o) (sym v) (stored-Grown (view s₃) ptr2 ptr3 o 0 1 g) in
        let (u, e', v') =
          law.store_law (ptr2 + 1) 1 o 1 t (g'.second 1 (omega arith)) (omega (arith, g'.size)) in
        let g'' : Grown (view u) ptr2 ptr3 o =
          subst (λ w. Grown w ptr2 ptr3 o) (sym v') (stored-Grown (view t) ptr2 ptr3 o 1 1 g') in
        let last =
          law.bus_law (ptr2 + 4096) 1 o 4096 u (g''.second 4096 (omega arith))
            (omega (arith, g''.size)) in
        let same : (o == o) ≡ true = (==_iff o o).1 refl in
        (
          ptr,
          ptr2,
          ptr3,
          o,
          u,
          rw (e, and_then) (rw (e', and_then) (rw (last, and_then) refl)),
          ap (λ (w : View). w.byte o 0) v'
              ∙ (rw same refl)
              ∙ ap (λ (w : View). w.byte o 0) v
              ∙ (rw same refl),
          ap (λ (w : View). w.byte o 1) v' ∙ (rw same refl),
          g''.second,
          g''.third,
        )

module _ (k : Segments) where
  open k use {shmget}

  -- The segments by their keys, with their sizes.
  pub record IsSegments : Type 0 where
    pub known : ℕ → k.State → Option (ℕ × ℕ)
    pub private_law :
        (size : ℕ) (s : k.State)
        → (id : ℕ) × ((shmget none size true s).0 ≡ pos id)
          × ((key : ℕ) → known key (shmget none size true s).1 ≡ known key s)
    pub create_law :
        (key size : ℕ) (s : k.State)
        → known key s ≡ none
        → (id : ℕ) × ((shmget (some key) size true s).0 ≡ pos id)
          × (known key (shmget (some key) size true s).1 ≡ some (id, size))
    -- A size up to that of the segment gives it, with IPC_CREAT and without; a greater one is EINVAL.
    pub found_law :
        (key id had size : ℕ) (create : Bool) (s : k.State)
        → known key s ≡ some (id, had)
        → size ≤ had
        → ((shmget (some key) size create s).0 ≡ pos id)
          × (known key (shmget (some key) size create s).1 ≡ some (id, had))
    pub too_large_law :
        (key id had size : ℕ) (create : Bool) (s : k.State)
        → known key s ≡ some (id, had)
        → had < size
        → (shmget (some key) size create s).0 ≡ negsuc 0

  -- Where no segment has the key 1, src/shmid.cpp prints a number for IPC_PRIVATE, the same number for each of
  -- the three calls that ask for 4096 bytes under the key, and -1 for 8192 bytes.
  pub shmid_main_lem :
      (law : IsSegments) (s : k.State)
      → law.known 1 s ≡ none
      → (shm : ℕ) × (id : ℕ) × (shmid_main k s ≡ pos shm ∷ pos id ∷ pos id ∷ pos id ∷ negsuc 0 ∷ [])
  unfolding shmid_main
  shmid_main_lem law s free =
      let s₁ = (shmget none 4096 true s).1 in
      let (shm, e, same) = law.private_law 4096 s in
      let s₂ = (shmget (some 1) 4096 true s₁).1 in
      let (id, e₂, k₂) = law.create_law 1 4096 s₁ (same 1 ∙ free) in
      let s₃ = (shmget (some 1) 4096 true s₂).1 in
      let (e₃, k₃) = law.found_law 1 id 4096 4096 true s₂ k₂ (omega arith) in
      let s₄ = (shmget (some 1) 4096 false s₃).1 in
      let (e₄, k₄) = law.found_law 1 id 4096 4096 false s₃ k₃ (omega arith) in
      let e₅ = law.too_large_law 1 id 4096 8192 true s₄ k₄ (omega arith) in
      (shm, id, five e e₂ e₃ e₄ e₅)
