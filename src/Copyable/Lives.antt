-- ===== src/Copyable/Lives.antt =====
-- Instances made by src/copyable-functions/copyable-functions.h: they hold what is bound in them, and live on
-- while others are made.
use fex_assorted_tests_bins.Prelude.{ℕ, ◌+◌, ◌^◌, ◌<◌, ◌≡◌, refl, ◌∙◌, true, Option, some, arith}
use fex_assorted_tests_bins.Copyable.{
  Section, section_size, info_offset, bind_instance, Mmap, make_instance, Family, Run,
}
use fex_assorted_tests_bins.Copyable.Bytes.{
  Memory, map_pages, memcpy, load, IsOutside, memcpy-mapped, map_pages-mapped, map_pages-new,
  store-mapped,
}
use fex_assorted_tests_bins.Copyable.Bound.{
  IsLaidOut, IsCopy, IsCopy-kept, pointers-target, pointers-marshal, pointers-out, copied-in,
  copied-out, IsFresh, fresh-IsOutside,
}
use fex_assorted_tests_bins.Copyable.Template.{trampoline}

abbrev pub IsMapped : Memory → ℕ → ℕ → Type 0
IsMapped m a len = (i : ℕ) → i < len → m.mapped (a + i) ≡ true

-- What was mapped stays as it is.
pub record IsLater (m m' : Memory) : Type 0 where
  pub byte : (x : ℕ) → m.mapped x ≡ true → m'.byte x ≡ m.byte x
  pub mapped : (x : ℕ) → m.mapped x ≡ true → m'.mapped x ≡ true

-- The section of a family, as it was loaded.
pub record IsLoaded (s : Section) (image : ℕ → ℕ) (m : Memory) : Type 0 where
  pub laid_out : IsLaidOut s
  pub bytes : (i : ℕ) → i < section_size s → m.byte (s.start + i) ≡ image i
  pub present : IsMapped m s.start (section_size s)

pub IsLater-IsLoaded :
    {s : Section} {image : ℕ → ℕ} {m m' : Memory}
    → IsLater m m'
    → IsLoaded s image m
    → IsLoaded s image m'
IsLater-IsLoaded {s = s} later k = record {
  laid_out = k.laid_out;
  bytes = λ i h. later.byte (s.start + i) (k.present i h) ∙ k.bytes i h;
  present = λ i h. later.mapped (s.start + i) (k.present i h);
}

module _ (s : Section) (a target marshal : ℕ) (m : Memory) where
  pub bind_instance-mapped :
      (bind_instance s a target marshal m).memory.mapped ≡ (map_pages a (section_size s) m).mapped
  unfolding bind_instance
  bind_instance-mapped =
      store-mapped 8 (a + info_offset s + 8) marshal _
      ∙ store-mapped 8 (a + info_offset s) target _
      ∙ memcpy-mapped a s.start (section_size s) _

  bind_instance-out :
      (x : ℕ)
      → IsOutside (a + info_offset s) 16 x
      → (bind_instance s a target marshal m).memory.byte x
        ≡ (memcpy a s.start (section_size s) (map_pages a (section_size s) m)).byte x
  unfolding bind_instance
  bind_instance-out x o = pointers-out (a + info_offset s) target marshal _ x o

  bind_instance-target :
      target < 2 ^ 64
      → load 8 (a + info_offset s) (bind_instance s a target marshal m).memory ≡ target
  unfolding bind_instance
  bind_instance-target h = pointers-target (a + info_offset s) target marshal _ h

  bind_instance-marshal :
      marshal < 2 ^ 64
      → load 8 (a + info_offset s + 8) (bind_instance s a target marshal m).memory ≡ marshal
  unfolding bind_instance
  bind_instance-marshal h = pointers-marshal (a + info_offset s) target marshal _ h

  -- Making an instance changes nothing that was mapped.
  pub bind_instance-IsLater :
      IsLaidOut s
      → IsFresh m a (section_size s)
      → IsLater m (bind_instance s a target marshal m).memory
  bind_instance-IsLater k f = record {
    byte = λ x h.
        let out = fresh-IsOutside m a (section_size s) x f h in
        bind_instance-out x (grind (arith, k.info_low, k.info_high))
        ∙ copied-out a s.start (section_size s) m x out;
    mapped = λ x h. rw bind_instance-mapped (map_pages-mapped a (section_size s) x m h);
  }

  pub bind_instance-IsMapped :
      IsMapped (bind_instance s a target marshal m).memory a (section_size s)
  bind_instance-IsMapped i h = rw bind_instance-mapped (map_pages-new a (section_size s) i m h)

  -- doc
  pub bind_instance-IsCopy :
      {A B : Type 0} (image : ℕ → ℕ) (function : ℕ → Option (A → B → Run))
      (marshaler : ℕ → Option ((ℕ → A → B → Option Run) → A → B → ℕ → Option Run))
      → IsLoaded s image m
      → IsFresh m a (section_size s)
      → target < 2 ^ 64
      → marshal < 2 ^ 64
      → IsCopy
          (trampoline s image function marshaler)
          a
          target
          marshal
          (bind_instance s a target marshal m).memory
  bind_instance-IsCopy image function marshaler k f t u = record {
    code = λ i h o.
        let out : IsOutside (info_offset s) 16 i = ground arith in
        bind_instance-out (a + i) (grind arith)
        ∙ copied-in a s.start (section_size s) m i h
            (fresh-IsOutside m a (section_size s) (s.start + i) f (k.present i h))
        ∙ k.bytes i h;
    info = refl;
    bound_target = bind_instance-target t;
    bound_marshal = bind_instance-marshal u;
  }

-- A copy with everything that lies in it mapped.
pub record Lives {A B : Type 0} (fam : Family A B) (base target marshal : ℕ) (m : Memory)
    : Type 0 where
  pub copy : IsCopy fam base target marshal m
  pub present : IsMapped m base (section_size fam.section)

pub IsLater-Lives :
    {A B : Type 0} (s : Section) (image : ℕ → ℕ) (function : ℕ → Option (A → B → Run))
    (marshaler : ℕ → Option ((ℕ → A → B → Option Run) → A → B → ℕ → Option Run))
    (base target marshal : ℕ) (m m' : Memory)
    → IsLaidOut s
    → IsLater m m'
    → Lives (trampoline s image function marshaler) base target marshal m
    → Lives (trampoline s image function marshaler) base target marshal m'
IsLater-Lives s image function marshaler base target marshal m m' k later d = record {
  copy =
      IsCopy-kept (trampoline s image function marshaler) base target marshal m m' k
        (λ i h. later.byte (base + i) (d.present i h)) refl d.copy;
  present = λ i h. later.mapped (base + i) (d.present i h);
}

pub IsLater-trans : {m m' m'' : Memory} → IsLater m m' → IsLater m' m'' → IsLater m m''
IsLater-trans p q = record {
  byte = λ x h. q.byte x (p.mapped x h) ∙ p.byte x h;
  mapped = λ x h. q.mapped x (p.mapped x h);
}

-- `mmap` returns `a`, where nothing was.
pub record Gives (mmap : Mmap) (s : Section) (m : Memory) (a : ℕ) : Type 0 where
  pub returned : mmap (section_size s) m ≡ some a
  pub fresh : IsFresh m a (section_size s)

pub make_instance_lem :
    (mmap : Mmap) (s : Section) (a target marshal : ℕ) (m : Memory)
    → Gives mmap s m a
    → make_instance mmap s target marshal m ≡ some (bind_instance s a target marshal m)
unfolding make_instance
make_instance_lem mmap s a target marshal m g = let e = g.returned in rw (e, make_instance) refl
