-- ===== src/Smc/Machine.antt =====
-- The processor and the memory calls under src/smc*.cpp and src/mremap.cpp: none of them is code of
-- the repository, so they are a record of operations, and what is documented of them is a record
-- of laws over a view of the memory.
use fex_assorted_tests_bins.Prelude.{
  ◌%◌, ℕ, ◌+◌, ◌*◌, ◌^◌, ◌<◌, Bool, true, ◌&&◌, Option, some, ◌≡◌, leb, ltb, ◌==◌, if◌then◌else◌,
}

pub record Prot : Type 0 where
  pub write : Bool
  pub exec : Bool

-- What memory looks like: the byte of physical memory behind an address, its contents, what may
-- be done at an address, and whether the byte stays common to both processes of a fork.
pub record View : Type 0 where
  pub phys : ℕ → Option ℕ
  pub byte : ℕ → ℕ
  pub writable : ℕ → Bool
  pub executable : ℕ → Bool
  pub shared : ℕ → Bool

-- Each operation gives `none` where the program would be killed.
pub record Machine : Type 1 where
  pub State : Type 0
  pub view : State → View
  -- `*a = v`
  pub store : ℕ → ℕ → State → Option State
  -- `((int(*)())a)()`, the result as 32 bits
  pub call : ℕ → State → Option (ℕ × State)
  pub mprotect : ℕ → ℕ → Prot → State → State
  pub munmap : ℕ → ℕ → State → State
  -- `if (fork() == 0) { child; exit(0); } else wait(NULL);`
  pub fork_wait : (State → Option State) → State → Option State

abbrev pub update {ℓ} : {A : Type ℓ} → (ℕ → A) → ℕ → A → ℕ → A
update f i a j = if i == j then a else f j

abbrev pub within : ℕ → ℕ → ℕ → Bool
within a len x = leb a x && ltb x (a + len)

-- One page from `a` with other rights.
abbrev pub protected : View → ℕ → Prot → View
protected v a prot = record v {
  writable = λ x. if within a 4096 x then prot.write else v.writable x;
  executable = λ x. if within a 4096 x then prot.exec else v.executable x;
}

-- `mov eax, imm32; ret`, little-endian
abbrev pub imm32 : ℕ → ℕ → ℕ → ℕ → ℕ
imm32 b₀ b₁ b₂ b₃ = b₀ + b₁ * 2 ^ 8 + b₂ * 2 ^ 16 + b₃ * 2 ^ 24

-- The bytes behind `len` addresses from `a` are those from `p` on.
abbrev pub IsWindow : View → ℕ → ℕ → ℕ → Type 0
IsWindow v a p len = (i : ℕ) → i < len → v.phys (a + i) ≡ some (p + i)

-- The start of a page, which mprotect asks for.
abbrev pub IsAligned : ℕ → Type 0
IsAligned a = a % 4096 ≡ 0

-- The bytes from `p` on stay common to both processes of a fork.
abbrev pub IsShared : View → ℕ → ℕ → Type 0
IsShared v p len = (i : ℕ) → i < len → v.shared (p + i) ≡ true

abbrev pub MayWrite : View → ℕ → ℕ → Type 0
MayWrite v a len = (i : ℕ) → i < len → v.writable (a + i) ≡ true

abbrev pub MayRun : View → ℕ → ℕ → Type 0
MayRun v a len = (i : ℕ) → i < len → v.executable (a + i) ≡ true

-- The six bytes of the routine that the tests write, behind physical address `p`.
pub record IsStub (f : ℕ → ℕ) (p b₀ b₁ b₂ b₃ : ℕ) : Type 0 where
  pub opcode : f (p + 0) ≡ 0xB8
  pub imm₀ : f (p + 1) ≡ b₀
  pub imm₁ : f (p + 2) ≡ b₁
  pub imm₂ : f (p + 3) ≡ b₂
  pub imm₃ : f (p + 4) ≡ b₃
  pub ret : f (p + 5) ≡ 0xC3

module _ (m : Machine) where
  open m use {State, view, store, call, mprotect, fork_wait}

  -- A processor whose instruction fetch sees every store, through each mapping of the byte.
  pub record IsCoherent : Type 0 where
    pub store_law :
        (a v p : ℕ) (s : State)
        → (view s).phys a ≡ some p
        → (view s).writable a ≡ true
        → (t : State) × (store a v s ≡ some t)
          × (view t ≡ record (view s) { byte = update (view s).byte p v })
    pub call_law :
        (a p b₀ b₁ b₂ b₃ : ℕ) (s : State)
        → IsWindow (view s) a p 6
        → MayRun (view s) a 6
        → IsStub (view s).byte p b₀ b₁ b₂ b₃
        → (t : State) × (call a s ≡ some (imm32 b₀ b₁ b₂ b₃, t)) × (view t ≡ view s)
    pub mprotect_law :
        (a p : ℕ) (prot : Prot) (s : State)
        → IsAligned a
        → IsWindow (view s) a p 4096
        → view (mprotect a 4096 prot s) ≡ protected (view s) a prot
    -- The child starts with the same memory; what it does to shared bytes is seen by the parent.
    pub fork_law :
        (child : State → Option State) (s : State) (w : View)
        → ((c : State) → view c ≡ view s → (d : State) × (child c ≡ some d) × (view d ≡ w))
        → (t : State) × (fork_wait child s ≡ some t)
          × (view t ≡ record (view s) {
            byte = λ q. if (view s).shared q then w.byte q else (view s).byte q;
          })
