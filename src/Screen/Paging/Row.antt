-- ===== src/Screen/Paging/Row.antt =====
-- One round of the screen, with the page of output that its key asks for.
use fiveman.PagerFork.{Page, Program, page_of}
use fiveman.Common.{
  ℕ, ◌<◌, Bool, true, Option, none, some, List, [], ◌∷◌, ◌++◌, ◌≡◌, inl, inr, Bool-cases, refl, sym,
  subst, ap, ◌∙◌, ◌==◌, length, map, get_elem?, append-nil,
}
use fiveman.Common.Text.{Text}
use fiveman.PagerFork.Pages.{page_file_confirmed}
use fiveman.PagerFork.Rounds.{idle}
use fiveman.Process.Output.{page_stdout, page_stderr}
use fiveman.Screen.Keys.{Ui, Key, letter, key_up, key_down, err, press}
use fiveman.Screen.Paging.{
  refresh, getch, suspend_screen, resume_screen, Session, Round, Turn, went, paged, page_name,
  page_row, switch, turn, with_press,
}
use fiveman.Types.{ProcessState}
use fiveman.Screen.Paging.Terminal.{active, mode}
use fiveman.Screen.Paging.Files.{
  Files, files_of, files, given, file_of, moved, Pageable, AllPageable, at_row-files,
  get_elem?-files, PageableAt, get_elem?-Pageable, Moves, press-Moves, moved-InRange,
}

-- What the other threads do between two rounds and while the pager runs leaves the files of the
-- processes and the highlighted row alone, and each file can be paged.
pub record Ready (can_fork : Bool) (fs : Files) (r : Round) : Type 0 where
  pub keeps_row :
      (ui : Ui) (table : List ProcessState)
      → (r.before (ui, table)).0.highlighted_row ≡ ui.highlighted_row
  pub keeps_files :
      (ui : Ui) (table : List ProcessState) → files (r.before (ui, table)).1 ≡ files table
  pub during_files : (table : List ProcessState) → files (r.during table) ≡ files table
  pub pageable : AllPageable can_fork r.answers fs

-- Between two rounds: the pager waits for a file, and the screen has the terminal.
pub record Standing (fs : Files) (shown : List Page) (row : ℕ) (s : Session) : Type 0 where
  pub in_range : row < length fs
  pub same_row : s.ui.highlighted_row ≡ row
  pub same_files : files s.table ≡ fs
  pub num : ℕ
  pub pager : s.pager ≡ idle [] shown num []
  pub terminal : mode s.terminal ≡ some active

-- The turn goes on, and the pager has shown the files.
abbrev pub Goes : Files → List Page → ℕ → Turn → Type 0
Goes fs shown row (went s) = Standing fs shown row s
Goes fs shown row _ = ⊥

with_press-Goes :
    (fs : Files) (shown : List Page) (row num : ℕ) (s : Session)
    (o : Option (Ui × List ProcessState))
    → row < length fs
    → s.pager ≡ idle [] shown num []
    → mode s.terminal ≡ some active
    → Moves fs row o
    → Goes fs shown row (with_press s o)
with_press-Goes fs shown row num s none h e t moves = elim moves [ ]
with_press-Goes fs shown row num s (some (ui, table)) h e t moves = record {
  in_range = h;
  same_row = moves.0;
  same_files = moves.1;
  num = num;
  pager = e;
  terminal = t;
}

-- Behind `getch`: the row and the files, the pager idle, and the screen on.
pub record Pressed (fs : Files) (shown : List Page) (row num : ℕ) (s : Session) : Type 0 where
  pub in_range : row < length fs
  pub same_row : s.ui.highlighted_row ≡ row
  pub same_files : files s.table ≡ fs
  pub pager : s.pager ≡ idle [] shown num []
  pub terminal : mode s.terminal ≡ some active

again :
    {fs : Files} {shown : List Page} {row num : ℕ} (s : Session)
    → Pressed fs shown row num s
    → Pressed fs shown row num (record s { terminal = refresh ∷ s.terminal })
unfolding mode
again s h = record {
  in_range = h.in_range;
  same_row = h.same_row;
  same_files = h.same_files;
  pager = h.pager;
  terminal = rw (h.terminal, mode) refl;
}

unpaged-Goes :
    (key : Key) (fs : Files) (shown : List Page) (row num : ℕ) (s : Session)
    → Pressed fs shown row num s
    → Goes fs shown (moved key (length fs) row) (with_press s (press key (length fs) s.ui s.table))
unpaged-Goes key fs shown row num s h =
    with_press-Goes fs shown (moved key (length fs) row) num s (press key (length fs) s.ui s.table)
      (moved-InRange key (length fs) row h.in_range) h.pager h.terminal
      (rw (sym h.same_files, sym h.same_row)
        (press-Moves key s.ui s.table (rw (h.same_files, h.same_row) h.in_range)))

-- The state at the highlighted row, and that its files can be paged.
pub highlighted :
    (can_fork : Bool) (r : Round) (fs : Files) (shown : List Page) (row num : ℕ) (s : Session)
    → Ready can_fork fs r
    → Pressed fs shown row num s
    → (p : ProcessState) × (get_elem? s.table s.ui.highlighted_row ≡ some p)
      × (get_elem? fs row ≡ some (files_of p))
      × Pageable can_fork r.answers p.stdout
      × Pageable can_fork r.answers p.stderr
highlighted can_fork r fs shown row num s ready h =
    let (p, found, look) =
      get_elem?-files s.table s.ui.highlighted_row (rw (h.same_files, h.same_row) h.in_range) in
    let at =
      ap (λ table. get_elem? table row) (sym h.same_files)
      ∙ ap (λ i. get_elem? (files s.table) i) (sym h.same_row)
      ∙ look in
    let able =
      subst (PageableAt can_fork r.answers) at
        (get_elem?-Pageable can_fork r.answers fs row ready.pageable) in
    (p, found, at, able.0, able.1)

-- What a round finds behind `getch`.
pub Standing-Pressed :
    (can_fork : Bool) (r : Round) (fs : Files) (shown : List Page) (row : ℕ) (s : Session)
    → Ready can_fork fs r
    → (h : Standing fs shown row s)
    → Pressed fs shown row h.num (record s {
      ui = (r.before (s.ui, s.table)).0;
      table = (r.before (s.ui, s.table)).1;
      terminal = getch ∷ refresh ∷ s.terminal;
    })
unfolding mode
Standing-Pressed can_fork r fs shown row s ready h = record {
  in_range = h.in_range;
  same_row = ready.keeps_row s.ui s.table ∙ h.same_row;
  same_files = ready.keeps_files s.ui s.table ∙ h.same_files;
  pager = h.pager;
  terminal = rw (h.terminal, mode) refl;
}

module _ (pager : Program) where
  -- The pages of the files, by the pager.
  abbrev pub pages : List Text → List Page
  pages = map (λ file. page_of pager file)

  page_name-Goes :
      (mark : ProcessState → ProcessState) (r : Round) (fs : Files) (shown : List Page)
      (row num : ℕ) (s : Session) (name : Option Text)
      → ((p : ProcessState) → files_of (mark p) ≡ files_of p)
      → Ready true fs r
      → Pressed fs shown row num s
      → Pageable true r.answers name
      → Goes fs (shown ++ pages (given name)) row (page_name pager mark r s name)
  unfolding page_name paged mode suspend_screen resume_screen
  page_name-Goes mark r fs shown row num s none keeps ready h p = elim p [ ]
  page_name-Goes mark r fs shown row num s (some file) keeps ready h p =
      let during = ready.during_files s.table ∙ h.same_files in
      let (table', e, same) =
        at_row-files mark s.ui.highlighted_row (r.during s.table) keeps
          (rw (during, h.same_row) h.in_range) in
      rw (h.pager, page_file_confirmed pager file r.answers shown num p, e)
        (record {
          in_range = h.in_range;
          same_row = h.same_row;
          same_files = same ∙ during;
          num = length file;
          pager = refl;
          terminal = rw (h.terminal, mode) refl;
        })

  page_row-Goes :
      (name : ProcessState → Option Text) (mark : ProcessState → ProcessState) (r : Round)
      (fs : Files) (shown : List Page) (row num : ℕ) (s : Session) (p : ProcessState)
      → ((p : ProcessState) → files_of (mark p) ≡ files_of p)
      → Ready true fs r
      → Pressed fs shown row num s
      → get_elem? s.table s.ui.highlighted_row ≡ some p
      → Pageable true r.answers (name p)
      → Goes fs (shown ++ pages (given (name p))) row (page_row pager name mark r s)
  unfolding page_row
  page_row-Goes name mark r fs shown row num s p keeps ready h found able =
      rw (found, page_row) (page_name-Goes mark r fs shown row num s (name p) keeps ready h able)

  switch-Goes :
      (key : Key) (r : Round) (fs : Files) (shown : List Page) (row num : ℕ) (s : Session)
      → Ready true fs r
      → Pressed fs shown row num s
      → Goes fs
          (shown ++ pages (file_of key (get_elem? fs row)))
          (moved key (length fs) row)
          (switch pager key (length fs) r s)
  unfolding switch mode page_stdout page_stderr
  switch-Goes (letter c) r fs shown row num s ready h =
      let (p, found, at, able_out, able_error) = highlighted true r fs shown row num s ready h in
      let other = unpaged-Goes (letter c) fs shown row num in
      rw (at, file_of)
        (elim (Bool-cases (c == b'o')) [
          | inl out ↦ rw out (
              page_row-Goes (λ q. q.stdout) page_stdout r fs shown row num s p (λ q. refl) ready h
                found able_out)
          | inr not_out ↦ rw not_out (elim (Bool-cases (c == b'e')) [
            | inl error ↦ rw error (
                page_row-Goes (λ q. q.stderr) page_stderr r fs shown row num s p (λ q. refl) ready h
                  found able_error)
            | inr not_error ↦ rw not_error (
                rw append-nil (elim (Bool-cases (c == b'r')) [
                  | inl redraw ↦
                      rw redraw (other (record s { terminal = refresh ∷ s.terminal }) (again s h))
                  | inr not_redraw ↦ rw not_redraw (other s h)
                ]))
          ])
        ])
  switch-Goes key_up r fs shown row num s ready h =
      rw append-nil (unpaged-Goes key_up fs shown row num s h)
  switch-Goes key_down r fs shown row num s ready h =
      rw append-nil (unpaged-Goes key_down fs shown row num s h)
  switch-Goes err r fs shown row num s ready h =
      rw append-nil (unpaged-Goes err fs shown row num s h)

  pub turn-Goes :
      (r : Round) (fs : Files) (shown : List Page) (row : ℕ) (s : Session)
      → Ready true fs r
      → Standing fs shown row s
      → Goes fs
          (shown ++ pages (file_of r.key (get_elem? fs row)))
          (moved r.key (length fs) row)
          (turn pager (length fs) r s)
  unfolding turn
  turn-Goes r fs shown row s ready h =
      switch-Goes r.key r fs shown row h.num _ ready
        (Standing-Pressed true r fs shown row s ready h)
