-- ===== src/Screen/Paging.antt =====
-- draw_screen with the pager: a key that asks for a page of output, suspend_screen and resume_screen
-- around it, from setup_screen to teardown_screen.
--
-- `terminal` is what the screen calls, the last call first; the calls that draw are left out. What
-- follows the switch on the key, the signals and the status thread are a function for each round.
pub mod Terminal
pub mod Files
pub mod Row
pub mod Shown
pub mod Blocked
pub mod Direct
mod Tests
use fiveman.PagerFork.{Page, Program, page_of}
use fiveman.Common.{
  ℕ, Bool, true, false, Option, none, some, List, [], ◌∷◌, ◌==◌, if◌then◌else◌, get_elem?,
}
use fiveman.Common.Text.{Text}
use fiveman.PagerFork
use fiveman.PagerFork.{Answers, Pager, Paged, confirmed, blocked, page_file}
use fiveman.Process.Output.{page_stdout, page_stderr}
use fiveman.Screen.Keys.{Ui, Key, letter, press, at_row}
use fiveman.Types.{ProcessState}

-- The calls of ncurses that the screen makes, and of fiveman_pager_fork_page_file.
pub data ScreenCall : Type 0 where
  initscr keypad nonl nocbreak noecho raw halfdelay curs_set : ScreenCall
  refresh getch def_prog_mode endwin reset_prog_mode : ScreenCall
  page : Text → ScreenCall

unfoldable pub setup_screen : List ScreenCall → List ScreenCall
setup_screen calls =
    curs_set ∷ halfdelay ∷ raw ∷ noecho ∷ nocbreak ∷ nonl ∷ keypad ∷ initscr ∷ calls

unfoldable pub teardown_screen : List ScreenCall → List ScreenCall
teardown_screen calls = endwin ∷ calls

unfoldable pub suspend_screen : List ScreenCall → List ScreenCall
suspend_screen calls = endwin ∷ def_prog_mode ∷ calls

unfoldable pub resume_screen : List ScreenCall → List ScreenCall
resume_screen calls = refresh ∷ reset_prog_mode ∷ calls

pub record Session : Type 0 where
  pub ui : Ui
  pub table : List ProcessState
  pub pager : Pager
  pub terminal : List ScreenCall

-- What a round finds: the key, what has changed since the last key, what the status thread changes
-- while the pager runs, and what the pager's reader is answered.
pub record Round : Type 0 where
  pub key : Key
  pub before : Ui × List ProcessState → Ui × List ProcessState
  pub during : List ProcessState → List ProcessState
  pub answers : List Answers

-- `waits` stays in fiveman_pager_fork_wait_for_confirm; `crashes` is a use of memory that is not
-- there, by the screen or by the reader.
pub data Turn : Type 0 where
  went waits : Session → Turn
  crashes : Turn

abbrev pub with_table : Session → Option (List ProcessState) → Turn
with_table s none = crashes
with_table s (some table) = went (record s { table = table })

abbrev pub with_press : Session → Option (Ui × List ProcessState) → Turn
with_press s none = crashes
with_press s (some (ui, table)) = went (record s { ui = ui; table = table })

-- Behind the call of the pager: the mark of the state, as it is by then.
unfoldable pub paged : (ProcessState → ProcessState) → Round → Session → Paged → Turn
paged mark r s (confirmed pager) =
    with_table (record s { pager = pager; terminal = resume_screen s.terminal })
      (at_row mark s.ui.highlighted_row (r.during s.table))
paged mark r s (blocked pager) = waits (record s { pager = pager; table = r.during s.table })
paged mark r s PagerFork.overflow = crashes

module _ (pager : Program) where
  -- A page of the file, by its name; a name of NULL is read.
  unfoldable pub page_name : (ProcessState → ProcessState) → Round → Session → Option Text → Turn
  unfolding paged
  page_name mark r s none = crashes
  page_name mark r s (some file) =
      let suspended = record s { terminal = page file ∷ suspend_screen s.terminal } in
      paged mark r suspended (page_file pager file r.answers s.pager)

  -- The page of the highlighted state.
  unfoldable pub page_row :
      (ProcessState → Option Text) → (ProcessState → ProcessState) → Round → Session → Turn
  unfolding page_name
  page_row name mark r s = elim (get_elem? s.table s.ui.highlighted_row) [
    | none ↦ crashes
    | some p ↦ page_name mark r s (name p)
  ]

  -- The switch on the key.
  unfoldable pub switch : Key → ℕ → Round → Session → Turn
  unfolding page_row
  switch (letter c) total r s =
      if c == b'o'
      then page_row (λ p. p.stdout) page_stdout r s
      else if c == b'e'
      then page_row (λ p. p.stderr) page_stderr r s
      else if c == b'r'
      then with_press (record s { terminal = refresh ∷ s.terminal })
          (press (letter c) total s.ui s.table)
      else with_press s (press (letter c) total s.ui s.table)
  switch key total r s = with_press s (press key total s.ui s.table)

  -- From `refresh` and `getch` to the end of the switch.
  unfoldable pub turn : ℕ → Round → Session → Turn
  unfolding switch
  turn total r s =
      let now = r.before (s.ui, s.table) in
      switch r.key total r
        (record s { ui = now.0; table = now.1; terminal = getch ∷ refresh ∷ s.terminal })

  -- Rounds of the loop, each behind the one before.
  unfoldable pub session : ℕ → List Round → Session → Turn
  unfolding turn
  session total [] s = went s
  session total (r ∷ rs) s = elim (turn total r s) [
    | went s' ↦ session total rs s'
    | waits s' ↦ waits s'
    | crashes ↦ crashes
  ]
