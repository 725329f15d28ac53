-- ===== src/Nested/Kills.antt =====
-- `thread`, `sighandler` and `main` of src/signals-nested-2.cpp as steps: the thread sends SIGUSR1 to the
-- main thread, whose handlers interrupt each other.
use fex_assorted_tests_bins.Prelude.{
  ℕ, suc, ◌+◌, ◌≡◌, Bool, true, false, Option, none, some, List, [], ◌∷◌, leb, if◌then◌else◌,
}

-- An open `sighandler`: at its start or behind its printf, where SIGUSR1 is blocked, or in its loop with
-- so many calls of `test` left.
pub data Frame : Type 0 where
  entered announced : Frame
  testing : ℕ → Frame

-- Where `thread` is: at pthread_kill, behind usleep, or behind its printf, at exit.
pub data Point : Type 0 where
  killing checking finishing : Point

-- `sigcount`, how often "Signal" and "Finished" were printed, whether SIGUSR1 is pending, the open handlers of the
-- main thread with the running one first, and the status of `exit`. Else the main thread waits in
-- pthread_join, since `thread` does not return.
pub record State : Type 0 where
  pub sigcount : ℕ
  pub printed : ℕ
  pub finished_lines : ℕ
  pub pending : Bool
  pub frames : List Frame
  pub point : Point
  pub status : Option ℕ

abbrev pub initial : State
initial = record {
  sigcount = 0;
  printed = 0;
  finished_lines = 0;
  pending = false;
  frames = [];
  point = killing;
  status = none;
}

-- `pthread_kill(mainthread, SIGUSR1)`: a signal that is pending stays pending.
unfoldable pub kill : State → State
kill s = record s { pending = true; point = checking }

-- `if (sigcount >= 1000) { printf("Finished\n"); ... }`
unfoldable pub check : State → State
check s =
    if leb 1000 s.sigcount
    then record s { finished_lines = s.finished_lines + 1; point = finishing }
    else record s { point = killing }

-- `exit(0)`
unfoldable pub quit : State → State
quit s = record s { status = some 0 }

-- A handler starts.
unfoldable pub deliver : State → State
deliver s = record s { pending = false; frames = entered ∷ s.frames }

-- `printf("Signal\n")`; and `sigcount++`, with the mask emptied behind it.
unfoldable pub announce : List Frame → State → State
announce below s = record s { printed = s.printed + 1; frames = announced ∷ below }

unfoldable pub enter : List Frame → State → State
enter below s = record s { sigcount = s.sigcount + 1; frames = testing 100 ∷ below }

-- One call of `test` returns; and the handler does.
unfoldable pub test : ℕ → List Frame → State → State
test left below s = record s { frames = testing left ∷ below }

unfoldable pub leave : List Frame → State → State
leave below s = record s { frames = below }

-- SIGUSR1 is blocked.
abbrev pub blocked : List Frame → Bool
blocked [] = false
blocked (entered ∷ fs) = true
blocked (announced ∷ fs) = true
blocked (testing n ∷ fs) = false

pub data Step (s t : State) : Type 0 where
  killed : s.status ≡ none → s.point ≡ killing → t ≡ kill s → Step s t
  checked : s.status ≡ none → s.point ≡ checking → t ≡ check s → Step s t
  quitted : s.status ≡ none → s.point ≡ finishing → t ≡ quit s → Step s t
  delivered :
      s.status ≡ none → s.pending ≡ true → blocked s.frames ≡ false → t ≡ deliver s → Step s t
  announced_one :
      (below : List Frame)
      → s.status ≡ none
      → s.frames ≡ entered ∷ below
      → t ≡ announce below s
      → Step s t
  handled :
      (below : List Frame)
      → s.status ≡ none
      → s.frames ≡ announced ∷ below
      → t ≡ enter below s
      → Step s t
  tested :
      (left : ℕ) (below : List Frame)
      → s.status ≡ none
      → s.frames ≡ testing (suc left) ∷ below
      → t ≡ test left below s
      → Step s t
  left :
      (below : List Frame)
      → s.status ≡ none
      → s.frames ≡ testing 0 ∷ below
      → t ≡ leave below s
      → Step s t

pub data Reach (s : State) : State → Type 0 where
  here : Reach s s
  next : {t u : State} → Reach s t → Step t u → Reach s u
