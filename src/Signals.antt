-- ===== src/Signals.antt =====
-- src/tests/signal: programs that check when the kernel delivers a signal raised by its own
-- handler. The kernel is not code of the repository: `raise` is a parameter, and its laws say how
-- it runs the handler.
pub mod Samask
pub mod Sigmask
pub mod NoDefer
pub mod Deciding
use fex_assorted_tests_bins.Prelude.{ℕ, Bool, true, false, ◌≡◌, if◌then◌else◌}

-- The process goes on, or has ended with an exit status (`exit(-1)` is 255).
pub data Exit (S : Type 0) : Type 0 where
  running : S → Exit S
  exited : ℕ → Exit S

infixl 5 ◌>>=◌
abbrev pub ◌>>=◌ : {S : Type 0} → Exit S → (S → Exit S) → Exit S
running s >>= f = f s
exited c >>= f = exited c

-- The globals of a program, and what the kernel keeps for it: whether the signal waits to be
-- delivered, and whether the mask that a return from the handler restores blocks it.
pub record Process (G : Type 0) : Type 0 where
  pub globals : G
  pub pending : Bool
  pub masked : Bool

-- A handler, over what `raise` does while it runs.
abbrev pub Handler : Type 0 → Type 0
Handler G = (Process G → Exit (Process G)) → Process G → Exit (Process G)

module _ {G : Type 0} where
  -- `raise` of a signal that is blocked.
  abbrev pub mark : Process G → Exit (Process G)
  mark s = running (record s { pending = true })

  -- Behind a return from the handler a signal that waits is delivered, unless it is masked.
  abbrev pub return_to : (Process G → Exit (Process G)) → Exit (Process G) → Exit (Process G)
  return_to raise (exited c) = exited c
  return_to raise (running t) =
      if t.pending then (if t.masked then running t else raise t) else running t

  -- Without SA_NODEFER the signal is blocked while its handler runs.
  pub record IsBlocking (handler : Handler G) (raise : Process G → Exit (Process G)) : Type 0 where
    pub deliver :
        (s : Process G)
        → s.masked ≡ false
        → raise s ≡ return_to raise (handler mark (record s { pending = false }))
    pub hold : (s : Process G) → s.masked ≡ true → raise s ≡ mark s

  -- With SA_NODEFER a signal raised by the handler is delivered at once, in the middle of it.
  pub record IsNesting (handler : Handler G) (raise : Process G → Exit (Process G)) : Type 0 where
    pub deliver : (s : Process G) → s.masked ≡ false → raise s ≡ handler raise s
