-- ===== src/Copyable.antt =====
-- src/copyable-functions/copyable-functions.h: copies of a section of code that differ in the pointers
-- bound in them, and what a call of a copy does.
pub mod Bytes
pub mod Bound
pub mod Patched
pub mod Instances
pub mod Calls
pub mod Template
pub mod Lives
pub mod Program
pub mod Four
use fex_assorted_tests_bins.Prelude.{
  ℕ, zero, suc, ◌+◌, ◌-◌, ◌%◌, ◌^◌, Bool, true, ◌||◌, ◌&&◌, Option, none, some, List, [], ◌∷◌, ◌++◌,
  ◌==◌, ◌≡◌, if◌then◌else◌,
}
use fex_assorted_tests_bins.Copyable.Bytes.{Memory, map_pages, memcpy, store, load}

-- Where the linker put a section, its function, and the pair of pointers that the function reads.
pub record Section : Type 0 where
  pub start : ℕ
  pub stop : ℕ
  pub canonical : ℕ
  pub info : ℕ

abbrev pub section_size : Section → ℕ
section_size s = s.stop - s.start

abbrev pub code_offset : Section → ℕ
code_offset s = s.canonical - s.start

abbrev pub info_offset : Section → ℕ
info_offset s = s.info - s.start

-- `int`, in two's complement.
abbrev pub int : ℕ → ℕ
int n = n % 2 ^ 32

-- The strings that the tests pass.
pub data Text : Type 0 where
  here_1 here_2 : Text

-- The names that the functions print.
pub data Name : Type 0 where
  marshaler marshaler2 to_call_1 to_call_2 to_call2_2 : Name

pub data Line : Type 0 where
  section_len code_at info_at patch_at : ℕ → Line
  patching : (patch old new : ℕ) → Line
  called : Name → ℕ → Text → Line
  marshalled : Name → ℕ → Text → ℕ → Line
  marshalled_2 : Name → Text → ℕ → ℕ → Line
  rv : ℕ → ℕ → Line

-- What a call prints and returns.
abbrev pub Run : Type 0
Run = List Line × ℕ

-- A made instance.
pub record Made : Type 0 where
  pub fn : ℕ
  pub lines : List Line
  pub memory : Memory

-- `make_instance` behind its mmap.
unfoldable pub bind_instance : Section → ℕ → ℕ → ℕ → Memory → Made
bind_instance s instance target marshal m =
    let copied = memcpy instance s.start (section_size s) (map_pages instance (section_size s) m) in
    let info = instance + info_offset s in
    record {
      fn = instance + code_offset s;
      lines =
          section_len (int (section_size s))
          ∷ code_at (int (code_offset s))
          ∷ info_at (int (info_offset s))
          ∷ [];
      memory = store 8 (info + 8) marshal (store 8 info target copied);
    }

-- The address that the kernel chose for a length; `none` is MAP_FAILED.
abbrev pub Mmap : Type 0
Mmap = ℕ → Memory → Option ℕ

-- `memcpy` to MAP_FAILED faults.
unfoldable pub make_instance : Mmap → Section → ℕ → ℕ → Memory → Option Made
make_instance mmap s target marshal m = elim (mmap (section_size s) m) [
  | none ↦ none
  | some instance ↦ some (bind_instance s instance target marshal m)
]

-- The functions of one type, by address, and the section of their trampoline: its bytes, which of
-- them an instance has of its own, and where an instance finds its pointers.
pub record Family (A B : Type 0) : Type 0 where
  pub section : Section
  pub image : ℕ → ℕ
  pub own : ℕ → Bool
  pub info_of : ℕ → Memory → ℕ
  pub function : ℕ → Option (A → B → Run)
  pub marshal : ℕ → Option ((ℕ → A → B → Option Run) → A → B → ℕ → Option Run)

-- Whether `n` bytes from `base + i` on are the section's.
unfoldable pub holds_code : (ℕ → ℕ) → (ℕ → Bool) → ℕ → ℕ → ℕ → Memory → Bool
holds_code image own zero i base m = true
holds_code image own (suc n) i base m =
    (own i || (m.byte (base + i) == image i)) && holds_code image own n (i + 1) base m

-- `info->marshaler(args..., info->target)`
abbrev pub trampoline_canonical :
    {A B : Type 0} → (ℕ → A → B → ℕ → Option Run) → Memory → ℕ → A → B → Option Run
trampoline_canonical call_marshal m info a b =
    call_marshal (load 8 (info + 8) m) a b (load 8 info m)

-- A call of a copy of the section, where marshalers are called through `rest`.
unfoldable pub call_copy :
    {A B : Type 0} → Family A B → (ℕ → A → B → Option Run) → Memory → ℕ → A → B → Option Run
call_copy fam rest m base a b =
    if holds_code fam.image fam.own (section_size fam.section) 0 base m
    then trampoline_canonical
        (λ g a b t. elim (fam.marshal g) [ none ↦ none | some h ↦ h rest a b t ]) m
        (fam.info_of base m) a b
    else none

-- A call of an address: a function, or a copy of the section; any other address is not code. The
-- fuel bounds the depth of the calls.
unfoldable pub call : {A B : Type 0} → Family A B → ℕ → Memory → ℕ → A → B → Option Run
call fam zero m e a b = none
call fam (suc n) m e a b =
    let rest = call fam n m in
    elim (fam.function e) [
      | some f ↦ some (f a b)
      | none ↦ call_copy fam rest m (e - code_offset fam.section) a b
    ]

infixl 20 ◌>>=◌
abbrev pub ◌>>=◌ {ℓ κ} : {A : Type ℓ} {B : Type κ} → Option A → (A → Option B) → Option B
none >>= f = none
some a >>= f = f a

pub bind_some {ℓ κ} :
    {A : Type ℓ} {B : Type κ} (o : Option A) (f : A → Option B) (a : A) {r : Option B}
    → o ≡ some a
    → f a ≡ r
    → (o >>= f) ≡ r
bind_some o f a e h = rw e h
