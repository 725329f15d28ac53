-- ===== src/Copyable/Four.antt =====
-- `main` of src/copyable-functions/template-test.cpp: four instances of two trampolines.
use fex_assorted_tests_bins.Prelude.{ℕ, suc, ◌-◌, ◌^◌, ◌≡◌, refl, some, List, [], ◌∷◌, ◌++◌}
use fex_assorted_tests_bins.Copyable.{
  bind_instance, bind_some, Mmap, Line, here_1, here_2, marshaler, marshaler2, to_call_1, to_call_2,
  to_call2_2, called, marshalled, marshalled_2, rv,
}
use fex_assorted_tests_bins.Copyable.Bytes.{Memory}
use fex_assorted_tests_bins.Copyable.Lives.{
  IsLater, IsLater-trans, Lives, IsLater-Lives, Gives, make_instance_lem, bind_instance-IsLater,
  bind_instance-IsMapped, bind_instance-IsCopy,
}
use fex_assorted_tests_bins.Copyable.Template.{
  Linked, one, two, main, test_func_to_call_1, test_func_to_call_2, test_func2_to_call_2,
}
use fex_assorted_tests_bins.Copyable.Program.{
  IsProgram, IsLater-IsProgram, call_one, call_two, one-IsFresh, two-IsFresh, one-1, one-2, two-2,
}

-- The memory after each instance is made.
abbrev pub after_1 : Linked → ℕ → Memory → Memory
after_1 l a m = (bind_instance l.one_name a l.to_call_1_at l.marshaler_at m).memory

abbrev pub after_2 : Linked → ℕ → Memory → Memory
after_2 l a m = (bind_instance l.one_name a l.to_call_2_at l.marshaler_at m).memory

abbrev pub after_3 : Linked → ℕ → Memory → Memory
after_3 l a m = (bind_instance l.two_name a l.to_call2_2_at l.marshaler2_at m).memory

-- What the four calls print.
abbrev pub calls : Linked → List Line
calls l =
    marshalled marshaler 1 here_1 l.to_call_1_at
    ∷ called to_call_1 1 here_1
    ∷ rv 1 (2 ^ 32 - 1)
    ∷ marshalled marshaler 2 here_2 l.to_call_2_at
    ∷ called to_call_2 2 here_2
    ∷ rv 2 (2 ^ 32 - 2)
    ∷ marshalled_2 marshaler2 here_1 3 l.to_call2_2_at
    ∷ called to_call2_2 3 here_1
    ∷ rv 3 (2 ^ 32 - 1)
    ∷ marshalled_2 marshaler2 here_2 4 l.to_call2_2_at
    ∷ called to_call2_2 4 here_2
    ∷ rv 4 (2 ^ 32 - 2)
    ∷ []

-- The four instances, one made after the other from `m`.
module _ (l : Linked) (image image2 : ℕ → ℕ) (mmap : Mmap) (n a b c d : ℕ) (m : Memory)
    (k : IsProgram l image image2 m) (g1 : Gives mmap l.one_name m a)
    (g2 : Gives mmap l.one_name (after_1 l a m) b)
    (g3 : Gives mmap l.two_name (after_2 l b (after_1 l a m)) c)
    (g4 : Gives mmap l.two_name (after_3 l c (after_2 l b (after_1 l a m))) d) where
  abbrev m1 : Memory
  m1 = after_1 l a m

  abbrev m2 : Memory
  m2 = after_2 l b m1

  abbrev m3 : Memory
  m3 = after_3 l c m2

  abbrev m4 : Memory
  m4 = after_3 l d m3

  first-IsLater : IsLater m m1
  first-IsLater =
      bind_instance-IsLater l.one_name a l.to_call_1_at l.marshaler_at m k.loaded.laid_out g1.fresh

  second-IsLater : IsLater m1 m2
  second-IsLater =
      bind_instance-IsLater l.one_name b l.to_call_2_at l.marshaler_at m1 k.loaded.laid_out g2.fresh

  third-IsLater : IsLater m2 m3
  third-IsLater =
      bind_instance-IsLater l.two_name c l.to_call2_2_at l.marshaler2_at m2 k.loaded2.laid_out
        g3.fresh

  fourth-IsLater : IsLater m3 m4
  fourth-IsLater =
      bind_instance-IsLater l.two_name d l.to_call2_2_at l.marshaler2_at m3 k.loaded2.laid_out
        g4.fresh

  k1 : IsProgram l image image2 m1
  k1 = IsLater-IsProgram l image image2 m m1 first-IsLater k

  k2 : IsProgram l image image2 m2
  k2 = IsLater-IsProgram l image image2 m1 m2 second-IsLater k1

  k3 : IsProgram l image image2 m3
  k3 = IsLater-IsProgram l image image2 m2 m3 third-IsLater k2

  first-Lives : Lives (one l image image2) a l.to_call_1_at l.marshaler_at m4
  first-Lives =
      IsLater-Lives l.one_name image _ _ a l.to_call_1_at l.marshaler_at m1 m4 k.loaded.laid_out
        (IsLater-trans second-IsLater (IsLater-trans third-IsLater fourth-IsLater))
        (record {
          copy =
              bind_instance-IsCopy l.one_name a l.to_call_1_at l.marshaler_at m image _ _ k.loaded
                g1.fresh k.pointer_1 k.pointer_marshaler;
          present = bind_instance-IsMapped l.one_name a l.to_call_1_at l.marshaler_at m;
        })

  second-Lives : Lives (one l image image2) b l.to_call_2_at l.marshaler_at m4
  second-Lives =
      IsLater-Lives l.one_name image _ _ b l.to_call_2_at l.marshaler_at m2 m4 k.loaded.laid_out
        (IsLater-trans third-IsLater fourth-IsLater)
        (record {
          copy =
              bind_instance-IsCopy l.one_name b l.to_call_2_at l.marshaler_at m1 image _ _ k1.loaded
                g2.fresh k.pointer_2 k.pointer_marshaler;
          present = bind_instance-IsMapped l.one_name b l.to_call_2_at l.marshaler_at m1;
        })

  third-Lives : Lives (two l image image2) c l.to_call2_2_at l.marshaler2_at m4
  third-Lives =
      IsLater-Lives l.two_name image2 _ _ c l.to_call2_2_at l.marshaler2_at m3 m4 k.loaded2.laid_out
        fourth-IsLater
        (record {
          copy =
              bind_instance-IsCopy l.two_name c l.to_call2_2_at l.marshaler2_at m2 image2 _ _
                k2.loaded2 g3.fresh k.pointer2_2 k.pointer_marshaler2;
          present = bind_instance-IsMapped l.two_name c l.to_call2_2_at l.marshaler2_at m2;
        })

  fourth-Lives : Lives (two l image image2) d l.to_call2_2_at l.marshaler2_at m4
  fourth-Lives = record {
    copy =
        bind_instance-IsCopy l.two_name d l.to_call2_2_at l.marshaler2_at m3 image2 _ _ k3.loaded2
          g4.fresh k.pointer2_2 k.pointer_marshaler2;
    present = bind_instance-IsMapped l.two_name d l.to_call2_2_at l.marshaler2_at m3;
  }

  -- Where the program is loaded as its linker laid it out and all four calls of mmap return fresh
  -- addresses, main of src/copyable-functions/template-test.cpp ends, and prints what the four
  -- instances print when they are made, and then the lines of the four calls, each through its own
  -- marshaler to its own function; the lines of rv3 and rv4 show -1 and -2, the values of the first
  -- two calls.
  pub four-calls :
      main l image image2 mmap (suc (suc n)) m
      ≡ some (
          (bind_instance l.one_name a l.to_call_1_at l.marshaler_at m).lines
          ++ (bind_instance l.one_name b l.to_call_2_at l.marshaler_at m1).lines
          ++ (bind_instance l.two_name c l.to_call2_2_at l.marshaler2_at m2).lines
          ++ (bind_instance l.two_name d l.to_call2_2_at l.marshaler2_at m3).lines
          ++ calls l)
  unfolding main bind_instance
  four-calls =
      bind_some _ _ _ (make_instance_lem mmap l.one_name a l.to_call_1_at l.marshaler_at m g1) (
        bind_some _ _ _ (make_instance_lem mmap l.one_name b l.to_call_2_at l.marshaler_at m1 g2) (
          bind_some _ _ _
            (make_instance_lem mmap l.two_name c l.to_call2_2_at l.marshaler2_at m2 g3)
            (bind_some _ _ _
              (make_instance_lem mmap l.two_name d l.to_call2_2_at l.marshaler2_at m3 g4)
              (bind_some _ _ _
                (call_one l image image2 n a l.to_call_1_at m4 1 here_1 test_func_to_call_1
                  first-Lives (one-IsFresh l image image2 m a k g1.fresh) (one-1 l image image2))
                (bind_some _ _ _
                  (call_one l image image2 n b l.to_call_2_at m4 2 here_2 test_func_to_call_2
                    second-Lives (one-IsFresh l image image2 m1 b k1 g2.fresh)
                    (one-2 l image image2 k.functions_apart))
                  (bind_some _ _ _
                    (call_two l image image2 n c l.to_call2_2_at m4 here_1 3 test_func2_to_call_2
                      third-Lives (two-IsFresh l image image2 m2 c k2 g3.fresh)
                      (two-2 l image image2))
                    (bind_some _ _ _
                      (call_two l image image2 n d l.to_call2_2_at m4 here_2 4 test_func2_to_call_2
                        fourth-Lives (two-IsFresh l image image2 m3 d k3 g4.fresh)
                        (two-2 l image image2))
                      refl)))))))
