-- ===== src/Segfault/Retry.antt =====
-- The one fault of src/segfault.cpp, and the store behind it.
use fex_assorted_tests_bins.Prelude.{
  ℕ, suc, ◌+◌, ◌/◌, ◌%◌, ◌^◌, ◌<◌, ◌≡◌, ◌∙◌, refl, ap, subst, true, false, some, List, [], ◌∷◌,
  arith, inl, inr, lt-cases,
}
use fex_assorted_tests_bins.Smc.Machine.{within}
use fex_assorted_tests_bins.Segfault.{
  stored, faults, Kernel, IsKernel, Line, pages, sig, sighandler, retry, main,
}

module _ (k : Kernel) (law : IsKernel k) where
  open k use {State, byte, writable, mmap, mprotect, store}

  -- Where the store begins, and the state in front of it.
  abbrev cut : State → State
  cut s = mprotect ((mmap s).0 + 4096) false (mmap s).1

  first_fault :
      (s : State) → store ((mmap s).0 + 4094) 0x12345678 (cut s) ≡ faults ((mmap s).0 + 4094 + 2)
  first_fault s =
      let a = (mmap s).0 in
      let page : (a + 4096) % 4096 ≡ 0 = omega (arith, law.aligned s) in
      law.fault_law (a + 4094) 0x12345678 2 (cut s) (omega arith)
        (law.mprotect_law (a + 4096) (a + 4094 + 2) false (mmap s).1 page ∙ ground arith)
        (λ j h.
          let there : a + (4094 + j) ≡ a + 4094 + j = omega arith in
          law.mprotect_law (a + 4096) (a + 4094 + j) false (mmap s).1 page
          ∙ (let out : within (a + 4096) 4096 (a + 4094 + j) ≡ false = ground arith in
              rw out (
                subst (λ x. writable (mmap s).1 x ≡ true) there
                  (law.mmap_law s (4094 + j) (omega arith)))))

  handled_writable :
      (s : State) (i : ℕ)
      → i < 4
      → writable (sighandler k ((mmap s).0 + 4094 + 2) (cut s)) ((mmap s).0 + 4094 + i) ≡ true
  unfolding sighandler
  handled_writable s i h =
      let a = (mmap s).0 in
      let page : (a + 4096) % 4096 ≡ 0 = omega (arith, law.aligned s) in
      let page' : (a + 4094 + 2) % 4096 ≡ 0 = omega (arith, law.aligned s) in
      let there : a + (4094 + i) ≡ a + 4094 + i = omega arith in
      law.mprotect_law (a + 4094 + 2) (a + 4094 + i) true (cut s) page' ∙ elim (lt-cases i 2) [
        | inr high ↦
            let inside : within (a + 4094 + 2) 4096 (a + 4094 + i) ≡ true = ground arith in
            rw inside refl
        | inl low ↦
            let out : within (a + 4094 + 2) 4096 (a + 4094 + i) ≡ false = ground arith in
            let out' : within (a + 4096) 4096 (a + 4094 + i) ≡ false = ground arith in
            rw out (
              law.mprotect_law (a + 4096) (a + 4094 + i) false (mmap s).1 page
              ∙ rw out' (
                  subst (λ x. writable (mmap s).1 x ≡ true) there
                    (law.mmap_law s (4094 + i) (omega arith))))
      ]

  retry-stored :
      (n a v : ℕ) (s t : State) → store a v s ≡ stored t → retry k (suc n) a v s ≡ some ([], t)
  unfolding retry
  retry-stored n a v s t e = rw (e, retry) refl

  retry-faults :
      (n a v si_addr : ℕ) (s t : State) (lines : List Line)
      → store a v s ≡ faults si_addr
      → retry k n a v (sighandler k si_addr s) ≡ some (lines, t)
      → retry k (suc n) a v s ≡ some (sig 11 si_addr ∷ lines, t)
  unfolding retry
  retry-faults n a v si_addr s t lines e h = rw (e, retry) (rw h refl)

  main_lem :
      (n : ℕ) (s t : State) (lines : List Line)
      → retry k n ((mmap s).0 + 4094) 0x12345678 (cut s) ≡ some (lines, t)
      → main k n s ≡ some (pages (mmap s).0 ((mmap s).0 + 4096) ∷ lines, t)
  unfolding main
  main_lem n s t lines h = rw (h, main) refl

  -- On a kernel whose mappings start at pages and whose faults name the first byte that may not be
  -- written, main of src/segfault.cpp ends after one signal, whose address is that of the second
  -- page, and the four bytes of the store then stand across the two pages.
  pub main_recovers :
      (n : ℕ) (s : State)
      → (t : State) × (main k (suc (suc n)) s
          ≡ some (pages (mmap s).0 ((mmap s).0 + 4096) ∷ sig 11 ((mmap s).0 + 4096) ∷ [], t))
        × ((i : ℕ) → i < 4 → byte t ((mmap s).0 + 4094 + i) ≡ 0x12345678 / 256 ^ i % 256)
  main_recovers n s =
      let a = (mmap s).0 in
      let e = first_fault s in
      let (t, e', bytes) =
        law.store_law (a + 4094) 0x12345678 (sighandler k (a + 4094 + 2) (cut s))
          (handled_writable s) in
      let same : a + 4094 + 2 ≡ a + 4096 = omega arith in
      (
        t,
        main_lem (suc (suc n)) s t (sig 11 (a + 4094 + 2) ∷ []) (
              retry-faults (suc n) (a + 4094) 0x12345678 (a + 4094 + 2) (cut s) t [] e
                (retry-stored n (a + 4094) 0x12345678 (sighandler k (a + 4094 + 2) (cut s)) t e'))
            ∙ ap (λ x. some (pages a (a + 4096) ∷ sig 11 x ∷ [], t)) same,
        bytes,
      )
