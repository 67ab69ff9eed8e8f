-- ===== src/Screen/Paging/Shown.antt =====
-- What the pager shows in a session of the screen, and in which state of the terminal.
use fiveman.PagerFork.{Page, Program, page_of}
use fiveman.Common.{
  ℕ, ◌<◌, Bool, true, some, List, [], ◌∷◌, ◌++◌, ◌≡◌, refl, sym, ap, length, get_elem?,
  append_assoc, append-nil,
}
use fiveman.Common.Text.{Text}
use mathlib.Core.List.{map-append}
use fiveman.PagerFork.Rounds.{idle}
use fiveman.Screen.Keys.{initial_ui}
use fiveman.Screen.Paging.{
  setup_screen, teardown_screen, Session, Round, Turn, went, waits, crashes, turn, session,
}
use fiveman.Types.{ProcessState}
use fiveman.Screen.Paging.Terminal.{closed, active, mode}
use fiveman.Screen.Paging.Files.{Files, files, file_of, moved, length-files}
use fiveman.Screen.Paging.Row.{Ready, Standing, Goes, pages, turn-Goes}

-- The files that the keys ask for, one after the other.
unfoldable pub asked : Files → ℕ → List Round → List Text
asked fs row [] = []
asked fs row (r ∷ rs) =
    file_of r.key (get_elem? fs row) ++ asked fs (moved r.key (length fs) row) rs

abbrev pub AllReady : Bool → Files → List Round → Type 0
AllReady can_fork fs [] = Unit
AllReady can_fork fs (r ∷ rs) = Ready can_fork fs r × AllReady can_fork fs rs

unfoldable pub last_row : ℕ → ℕ → List Round → ℕ
last_row total row [] = row
last_row total row (r ∷ rs) = last_row total (moved r.key total row) rs

-- When the screen is set up for the table, with the pager's process at its first read.
abbrev pub opened : List ProcessState → Session
opened table = record {
  ui = initial_ui;
  table = table;
  pager = idle [] [] 0 [];
  terminal = setup_screen [];
}

-- The rounds all end, the pager has shown the files, the screen has the terminal, and gives it back.
pub record Shown (shown : List Page) (row : ℕ) (t : Turn) : Type 0 where
  pub end : Session
  pub ends : t ≡ went end
  pub showed : end.pager.shown ≡ shown
  pub last : end.ui.highlighted_row ≡ row
  pub on : mode end.terminal ≡ some active
  pub given_back : mode (teardown_screen end.terminal) ≡ some closed

Goes-Shown :
    (fs : Files) (shown : List Page) (row : ℕ) (t : Turn) → Goes fs shown row t → Shown shown row t
unfolding mode teardown_screen
Goes-Shown fs shown row (went s) h = record {
  end = s;
  ends = refl;
  showed = ap (λ p. p.shown) h.pager;
  last = h.same_row;
  on = h.terminal;
  given_back = rw (h.terminal, mode) refl;
}
Goes-Shown fs shown row (waits s) h = elim h [ ]
Goes-Shown fs shown row crashes h = elim h [ ]

pub opened-Standing :
    (table : List ProcessState) → 0 < length table → Standing (files table) [] 0 (opened table)
unfolding mode setup_screen initial_ui
opened-Standing table h = record {
  in_range = rw (length-files table) h;
  same_row = refl;
  same_files = refl;
  num = 0;
  pager = refl;
  terminal = refl;
}

module _ (pager : Program) where
  then_session :
      (rs : List Round) (fs fs' : Files) (shown shown' : List Page) (row row' total : ℕ) (t : Turn)
      → Goes fs shown row t
      → ((s : Session) → Standing fs shown row s → Goes fs' shown' row' (session pager total rs s))
      → Goes fs' shown' row'
          (elim t [ went s ↦ session pager total rs s | waits s ↦ waits s | crashes ↦ crashes ])
  then_session rs fs fs' shown shown' row row' total (went s) h k = k s h
  then_session rs fs fs' shown shown' row row' total (waits s) h k = elim h [ ]
  then_session rs fs fs' shown shown' row row' total crashes h k = elim h [ ]

  session-Goes :
      (rs : List Round) (fs : Files) (shown : List Page) (row : ℕ) (s : Session)
      → AllReady true fs rs
      → Standing fs shown row s
      → Goes fs
          (shown ++ pages pager (asked fs row rs))
          (last_row (length fs) row rs)
          (session pager (length fs) rs s)
  unfolding session asked last_row
  session-Goes [] fs shown row s ready h = rw append-nil h
  session-Goes (r ∷ rs) fs shown row s ready h =
      let seen = file_of r.key (get_elem? fs row) in
      rw
        (
          map-append {B = Page} (λ file. page_of pager file) seen
              (asked fs (moved r.key (length fs) row) rs),
          sym (
              append_assoc shown (pages pager seen)
                (pages pager (asked fs (moved r.key (length fs) row) rs))),
        )
        (then_session rs fs fs (shown ++ pages pager seen) _ (moved r.key (length fs) row) _
          (length fs) (turn pager (length fs) r s) (turn-Goes pager r fs shown row s ready.0 h)
          (λ s' k.
            session-Goes rs fs (shown ++ pages pager seen) (moved r.key (length fs) row) s' ready.1
              k))

  -- From setup_screen, with a process at least: whatever keys are pressed, and whatever the other
  -- threads do in between that leaves the files and the highlighted row alone, if each file can be
  -- paged and a process can be forked, every round ends. The files of the rows that the keys `o` and
  -- `e` were pressed at have each been given to a child, once and in that order, which has shown it
  -- or, when the pager could not be executed, has printed its message; and every call of ncurses and
  -- of the pager stands where it may stand: a page is behind suspend_screen and before resume_screen,
  -- the screen has the terminal in the end, and teardown_screen gives it back.
  pub session-Shown :
      (rs : List Round) (table : List ProcessState)
      → 0 < length table
      → AllReady true (files table) rs
      → Shown
          (pages pager (asked (files table) 0 rs))
          (last_row (length table) 0 rs)
          (session pager (length table) rs (opened table))
  session-Shown rs table some_row ready = rw (sym (length-files table)) (
      Goes-Shown (files table) _ _ (session pager (length (files table)) rs (opened table))
        (session-Goes rs (files table) [] 0 (opened table) ready (opened-Standing table some_row)))
