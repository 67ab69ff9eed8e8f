-- ===== src/Screen/Paging/Blocked.antt =====
-- A page of output that is asked for when no process can be forked.
use fiveman.PagerFork.{Page, Program}
use fiveman.Common.{ℕ, false, Option, none, some, List, [], ◌≡◌, ◌⊎◌, inl, inr, refl, length}
use fiveman.Common.Text.{Text}
use fiveman.PagerFork.Pages.{page_file_blocked}
use fiveman.PagerFork.Rounds.{idle}
use fiveman.Process.Output.{page_stdout, page_stderr}
use fiveman.Screen.Keys.{Key, letter, key_up, key_down, err}
use fiveman.Screen.Paging.{
  suspend_screen, Session, Round, Turn, waits, paged, page_name, page_row, switch, turn,
}
use fiveman.Types.{ProcessState}
use fiveman.Screen.Paging.Terminal.{active, suspended, mode}
use fiveman.Screen.Paging.Files.{Files, Pageable}
use fiveman.Screen.Paging.Row.{Ready, Standing, Pressed, Standing-Pressed, highlighted}

-- The screen waits for the pager, with the terminal given away and with nothing shown or marked.
pub record Waiting (shown : List Page) (table : List ProcessState) (t : Turn) : Type 0 where
  pub here : Session
  pub waits : t ≡ waits here
  pub same_shown : here.pager.shown ≡ shown
  pub unmarked : here.table ≡ table
  pub off : mode here.terminal ≡ some suspended

abbrev pub Asks : Key → Type 0
Asks (letter c) = (c ≡ b'o') ⊎ (c ≡ b'e')
Asks _ = ⊥

module _ (pager : Program) where
  page_name-Waiting :
      (mark : ProcessState → ProcessState) (r : Round) (shown : List Page) (num : ℕ) (s : Session)
      (name : Option Text)
      → s.pager ≡ idle [] shown num []
      → mode s.terminal ≡ some active
      → Pageable false r.answers name
      → Waiting shown (r.during s.table) (page_name pager mark r s name)
  unfolding page_name paged mode suspend_screen
  page_name-Waiting mark r shown num s none e t p = elim p [ ]
  page_name-Waiting mark r shown num s (some name) e t p =
      rw (e, page_file_blocked pager name r.answers shown num p)
        (record {
          here = _;
          waits = refl;
          same_shown = refl;
          unmarked = refl;
          off = rw (t, mode) refl;
        })

  switch-Waiting :
      (key : Key) (r : Round) (fs : Files) (shown : List Page) (row num : ℕ) (s : Session)
      → Asks key
      → Ready false fs r
      → Pressed fs shown row num s
      → Waiting shown (r.during s.table) (switch pager key (length fs) r s)
  unfolding switch page_row
  switch-Waiting (letter c) r fs shown row num s asks ready h =
      let (p, found, at, able_out, able_error) = highlighted false r fs shown row num s ready h in
      elim asks [
        | inl out ↦
            rw (out, found, page_row)
              (page_name-Waiting page_stdout r shown num s p.stdout h.pager h.terminal able_out)
        | inr error ↦
            rw (error, found, page_row)
              (page_name-Waiting page_stderr r shown num s p.stderr h.pager h.terminal able_error)
      ]
  switch-Waiting key_up r fs shown row num s asks ready h = elim asks [ ]
  switch-Waiting key_down r fs shown row num s asks ready h = elim asks [ ]
  switch-Waiting err r fs shown row num s asks ready h = elim asks [ ]

  -- Between two rounds, when each file can be paged but no process can be forked: `o` or `e` ends in
  -- the wait for the pager, with the terminal given away, nothing shown and nothing marked.
  pub turn-Waiting :
      (r : Round) (fs : Files) (shown : List Page) (row : ℕ) (s : Session)
      → Asks r.key
      → Ready false fs r
      → Standing fs shown row s
      → Waiting shown (r.during (r.before (s.ui, s.table)).1) (turn pager (length fs) r s)
  unfolding turn
  turn-Waiting r fs shown row s asks ready h =
      switch-Waiting r.key r fs shown row h.num _ asks ready
        (Standing-Pressed false r fs shown row s ready h)
