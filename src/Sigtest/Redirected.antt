-- ===== src/Sigtest/Redirected.antt =====
-- The store of src/signals/sigtest3.cpp, whose fault handler gives it another address.
use fex_assorted_tests_bins.Prelude.{
  ℕ, zero, suc, ◌≡◌, refl, Bool, true, false, none, some, [], ◌∷◌, ◌++◌, ◌==◌, ==_iff,
  if◌then◌else◌,
}
use fex_assorted_tests_bins.Sigtest.{
  signaled_called, about_to_sigact, about_to_sigsegv, after_sigsegv, Reg, rax, other_reg, Cell,
  set_reg, redirect, store_32, redirect_main,
}

-- With the address in another register, each new try faults at the old address.
store_32_stuck :
    (test : ℕ) (writable : ℕ → Bool) (fuel : ℕ) (c : Cell)
    → writable (c.regs other_reg) ≡ false
    → store_32 test writable other_reg fuel c ≡ none
unfolding store_32 redirect
store_32_stuck test writable zero c h = refl
store_32_stuck test writable (suc fuel) c h =
    rw h (store_32_stuck test writable fuel (redirect test writable other_reg c) h)

-- With the address in rax, the second try has the address of `test`.
store_32_lem :
    (test fuel : ℕ) (writable : ℕ → Bool) (c : Cell)
    → writable (c.regs rax) ≡ false
    → writable test ≡ true
    → store_32 test writable rax (suc (suc fuel)) c
      ≡ some
          (record (redirect test writable rax c) { word = λ a. if a == test then 32 else c.word a })
unfolding store_32 redirect
store_32_lem test fuel writable c bad good = rw bad (rw good refl)

-- Where address 9 may not be written and test may, main of src/signals/sigtest3.cpp ends with 32 in
-- test, t at test and its four lines printed, with fuel for two tries or more, if its store takes
-- the address from rax; if it takes the address from another register, it has not ended with any
-- fuel.
pub main_redirected :
    (test fuel : ℕ) (writable : ℕ → Bool) (c : Cell)
    → writable 9 ≡ false
    → writable test ≡ true
    → ((d : Cell) × (redirect_main test writable rax (suc (suc fuel)) c ≡ some d)
        × (d.word test ≡ 32)
        × (d.t ≡ test)
        × (d.printed
            ≡ (c.printed ++ (about_to_sigact ∷ about_to_sigsegv ∷ []))
              ++ (signaled_called ∷ [])
              ++ (after_sigsegv ∷ [])))
      × (redirect_main test writable other_reg fuel c ≡ none)
unfolding redirect_main redirect
main_redirected test fuel writable c bad good =
    let same : (test == test) ≡ true = (==_iff test test).1 refl in
    let ready : Reg → Cell = λ reg. record c {
      t = 9;
      regs = set_reg reg 9 c.regs;
      printed = c.printed ++ (about_to_sigact ∷ about_to_sigsegv ∷ []);
    } in
    let e = store_32_lem test fuel writable (ready rax) bad good in
    let stuck = store_32_stuck test writable fuel (ready other_reg) bad in
    (
      (
        record (redirect test writable rax (ready rax)) {
          word = λ a. if a == test then 32 else c.word a;
          printed = (redirect test writable rax (ready rax)).printed ++ after_sigsegv ∷ [];
        },
        rw (e, redirect_main) refl,
        rw same refl,
        refl,
        refl,
      ),
      rw (stuck, redirect_main) refl,
    )
