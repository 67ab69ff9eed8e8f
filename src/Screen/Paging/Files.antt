-- ===== src/Screen/Paging/Files.antt =====
-- The files of the processes, which no key changes, and the row that a key leaves highlighted.
use fiveman.Common.{
  ℕ, zero, suc, ◌+◌, ◌-◌, ◌<◌, Bool, true, false, Option, none, some, List, [], ◌∷◌, ◌≡◌, refl, ap,
  arith, ltb, ◌==◌, if◌then◌else◌, length, set, get_elem?,
}
use fiveman.Common.Text.{Text}
use fiveman.PagerFork.{Answers}
use fiveman.PagerFork.Pages.{Request}
use fiveman.Process.{desires_intent}
use fiveman.Process.Output.{page_stdout, page_stderr}
use fiveman.Screen.Keys.{
  Ui, Key, letter, key_up, key_down, err, press, press_letter, at_row, with_row,
}
use fiveman.Types.{ProcessState, intent_start, intent_stop}

-- The two files of each process.
abbrev pub Files : Type 0
Files = List (Option Text × Option Text)

abbrev pub files_of : ProcessState → Option Text × Option Text
files_of p = (p.stdout, p.stderr)

unfoldable pub files : List ProcessState → Files
files [] = []
files (p ∷ ps) = files_of p ∷ files ps

abbrev pub given : Option Text → List Text
given none = []
given (some file) = file ∷ []

-- The file that a key asks for.
abbrev pub file_of : Key → Option (Option Text × Option Text) → List Text
file_of (letter c) (some (out, error)) =
    if c == b'o' then given out else if c == b'e' then given error else []
file_of _ _ = []

-- The row that is highlighted behind a key.
abbrev pub moved : Key → ℕ → ℕ → ℕ
moved key_up total row = row - 1
moved key_down total row = if ltb (row + 1) total then row + 1 else row
moved _ total row = row

abbrev pub Pageable : Bool → List Answers → Option Text → Type 0
Pageable can_fork answers none = ⊥
Pageable can_fork answers (some file) = Request can_fork file answers

abbrev pub AllPageable : Bool → List Answers → Files → Type 0
AllPageable can_fork answers [] = Unit
AllPageable can_fork answers ((out, error) ∷ fs) =
    Pageable can_fork answers out
    × Pageable can_fork answers error
    × AllPageable can_fork answers fs

pub length-files : (table : List ProcessState) → length (files table) ≡ length table
unfolding files
length-files [] = refl
length-files (p ∷ ps) = omega (arith, length-files ps)

files-set :
    (f : ProcessState → ProcessState) (table : List ProcessState) (row : ℕ) (p : ProcessState)
    → ((p : ProcessState) → files_of (f p) ≡ files_of p)
    → get_elem? table row ≡ some p
    → files (set table row (f p)) ≡ files table
unfolding files
files-set f [] row p keeps e = refl
files-set f (q ∷ ps) zero p keeps e = let same = keeps p in cc
files-set f (q ∷ ps) (suc row) p keeps e = ap (λ fs. files_of q ∷ fs) (files-set f ps row p keeps e)

pub get_elem?-files :
    (table : List ProcessState) (row : ℕ)
    → row < length (files table)
    → (p : ProcessState) × (get_elem? table row ≡ some p)
      × (get_elem? (files table) row ≡ some (files_of p))
unfolding files
get_elem?-files [] row h = absurd (omega (arith, h))
get_elem?-files (p ∷ ps) zero h = (p, refl, refl)
get_elem?-files (p ∷ ps) (suc row) h = get_elem?-files ps row (omega (arith, h))

pub at_row-files :
    (f : ProcessState → ProcessState) (row : ℕ) (table : List ProcessState)
    → ((p : ProcessState) → files_of (f p) ≡ files_of p)
    → row < length (files table)
    → (table' : List ProcessState) × (at_row f row table ≡ some table')
      × (files table' ≡ files table)
unfolding at_row
at_row-files f row table keeps h =
    let (p, found, _) = get_elem?-files table row h in
    (set table row (f p), rw (found, at_row), files-set f table row p keeps found)

abbrev pub PageableAt : Bool → List Answers → Option (Option Text × Option Text) → Type 0
PageableAt can_fork answers none = Unit
PageableAt can_fork answers (some (out, error)) =
    Pageable can_fork answers out × Pageable can_fork answers error

pub get_elem?-Pageable :
    (can_fork : Bool) (answers : List Answers) (fs : Files) (row : ℕ)
    → AllPageable can_fork answers fs
    → PageableAt can_fork answers (get_elem? fs row)
get_elem?-Pageable can_fork answers [] row h = tt
get_elem?-Pageable can_fork answers ((o, x) ∷ fs) zero h = (h.0, h.1)
get_elem?-Pageable can_fork answers ((o, x) ∷ fs) (suc row) h =
    get_elem?-Pageable can_fork answers fs row h.2

-- What a key leaves of the row and of the files.
abbrev pub Moves : Files → ℕ → Option (Ui × List ProcessState) → Type 0
Moves fs row none = ⊥
Moves fs row (some (ui, table)) = (ui.highlighted_row ≡ row) × (files table ≡ fs)

Moves-cases :
    (fs : Files) (row : ℕ) (b : Bool) (x y : Option (Ui × List ProcessState))
    → Moves fs row x
    → Moves fs row y
    → Moves fs row (if b then x else y)
Moves-cases fs row true x y h k = h
Moves-cases fs row false x y h k = k

with_row-Moves :
    (f : ProcessState → ProcessState) (ui : Ui) (table : List ProcessState)
    → ((p : ProcessState) → files_of (f p) ≡ files_of p)
    → ui.highlighted_row < length (files table)
    → Moves (files table) ui.highlighted_row (with_row ui (at_row f ui.highlighted_row table))
with_row-Moves f ui table keeps h =
    let (table', e, same) = at_row-files f ui.highlighted_row table keeps h in rw e (refl, same)

press_letter-Moves :
    (c : ℕ) (ui : Ui) (table : List ProcessState)
    → ui.highlighted_row < length (files table)
    → Moves (files table) ui.highlighted_row (press_letter c ui table)
unfolding press_letter desires_intent page_stdout page_stderr
press_letter-Moves c ui table h =
    let cases = Moves-cases (files table) ui.highlighted_row in
    cases (c == b'q') _ _ (refl, refl)
      (cases (c == b's') _ _
        (with_row-Moves (λ p. desires_intent p intent_stop) ui table (λ p. refl) h)
        (cases (c == b'l') _ _
          (with_row-Moves (λ p. desires_intent p intent_start) ui table (λ p. refl) h)
          (cases (c == b'o') _ _ (with_row-Moves page_stdout ui table (λ p. refl) h) (
            cases (c == b'e') _ _ (with_row-Moves page_stderr ui table (λ p. refl) h)
              (refl, refl)))))

pub press-Moves :
    (key : Key) (ui : Ui) (table : List ProcessState)
    → ui.highlighted_row < length (files table)
    → Moves
        (files table)
        (moved key (length (files table)) ui.highlighted_row)
        (press key (length (files table)) ui table)
unfolding press
press-Moves (letter c) ui table h = press_letter-Moves c ui table h
press-Moves key_up ui table h = (refl, refl)
press-Moves key_down ui table h = ground arith
press-Moves err ui table h = (refl, refl)

pub moved-InRange : (key : Key) (total row : ℕ) → row < total → moved key total row < total
moved-InRange key total row h = ground arith
