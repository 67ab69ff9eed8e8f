-- ===== src/Screen/Keys.antt =====
-- draw_screen: the rows of the table, the keys, and the way out.
--
-- `highlighted_row` is never negative behind a round, so it is a number: `- 1` stops at 0 as the
-- source's tests do. The drawing, the lock and the pager are left out here: what a page of output
-- leaves in the state is page_stdout or page_stderr, and the page itself is in Paging.
use fiveman.Common.{
  ℕ, zero, suc, ◌+◌, ◌-◌, ◌<◌, Bool, true, false, not, Option, none, some, List, [], ◌∷◌, ◌≡◌, refl,
  ◌∙◌, arith, leb, ltb, ◌==◌, if◌then◌else◌, length, set, get_elem?,
}
use fiveman.Common.Int.{pos, ltb_ℤ}
use fiveman.Machine.{Posix, M, pure, ◌>>=◌, sys_time}
use fiveman.Process.{sigkill, sigterm, desires_intent}
use fiveman.Process.Age.{distance}
use fiveman.Process.Output.{page_stdout, page_stderr}
use fiveman.Table.{table_desires_intent, table_signal, table_num_alive}
use fiveman.Types.{ProcessState, intent_start, intent_stop}

-- What `getch` answers: a character, the two arrow keys, or ERR.
pub data Key : Type 0 where
  letter : ℕ → Key
  key_up key_down err : Key

-- The locals of draw_screen and its two globals.
pub record Ui : Type 0 where
  pub highlighted_row : ℕ
  pub is_terminating : Bool
  pub term_issued_at : ℕ
  pub exit_fiveman : Bool
  pub exit_fiveman_immediately : Bool

-- The globals are set to FALSE by setup_screen. `term_issued_at` is not read before it is written.
unfoldable pub initial_ui : Ui
initial_ui = record {
  highlighted_row = 0;
  is_terminating = false;
  term_issued_at = 0;
  exit_fiveman = false;
  exit_fiveman_immediately = false;
}

abbrev pub term_timeout : ℕ
term_timeout = 100

-- The loop that fills `states`: a table longer than the array is written behind its end.
unfoldable pub states_fit : ℕ → List ProcessState → Bool
states_fit total table = leb (length table) total

-- A change of the highlighted state; with no state there, an element that was never set is read.
unfoldable pub at_row :
    (ProcessState → ProcessState) → ℕ → List ProcessState → Option (List ProcessState)
at_row f row table = elim (get_elem? table row) [
  | none ↦ none
  | some s ↦ some (set table row (f s))
]

-- handle_sigint
unfoldable pub handle_sigint : Ui → Ui
handle_sigint ui = record ui { exit_fiveman = true }

abbrev pub with_row : Ui → Option (List ProcessState) → Option (Ui × List ProcessState)
with_row ui none = none
with_row ui (some table) = some (ui, table)

unfoldable pub press_letter : ℕ → Ui → List ProcessState → Option (Ui × List ProcessState)
unfolding at_row
press_letter c ui table =
    if c == b'q'
    then some (record ui { exit_fiveman = true }, table)
    else if c == b's'
    then with_row ui (at_row (λ s. desires_intent s intent_stop) ui.highlighted_row table)
    else if c == b'l'
    then with_row ui (at_row (λ s. desires_intent s intent_start) ui.highlighted_row table)
    else if c == b'o'
    then with_row ui (at_row page_stdout ui.highlighted_row table)
    else if c == b'e'
    then with_row ui (at_row page_stderr ui.highlighted_row table)
    else some (ui, table)

-- The switch on the key.
unfoldable pub press : Key → ℕ → Ui → List ProcessState → Option (Ui × List ProcessState)
unfolding press_letter
press (letter c) total ui table = press_letter c ui table
press key_up total ui table = some (record ui { highlighted_row = ui.highlighted_row - 1 }, table)
press key_down total ui table = some (
  record ui {
    highlighted_row =
        if leb total (ui.highlighted_row + 1) then total - 1 else ui.highlighted_row + 1;
  },
  table,
)
press err total ui table = some (ui, table)

module _ {W : Type 0} (os : Posix W) where
  -- `if (is_terminating)`
  unfoldable pub terminate : Ui → List ProcessState → M W Ui
  terminate ui table = do
    alive ← table_num_alive os table
    if ltb 0 alive
        then (do
          current ← sys_time os
          let late = not (ltb_ℤ (distance current ui.term_issued_at) (pos term_timeout))
          _ ← table_signal os (if late then sigkill else sigterm) table
          pure (record ui { exit_fiveman_immediately = late }))
        else pure (record ui { exit_fiveman_immediately = true })

  -- `if (exit_fiveman)`
  unfoldable pub begin_exit : Ui → List ProcessState → M W (Ui × List ProcessState)
  begin_exit ui table = do
    now ← sys_time os
    pure (
      record ui { term_issued_at = now; exit_fiveman = false; is_terminating = true },
      table_desires_intent intent_stop table,
    )

  -- The two tests at the end of the loop; the flag is the `break`.
  unfoldable pub test_exit : Ui → List ProcessState → M W (Ui × List ProcessState × Bool)
  unfolding begin_exit
  test_exit ui table =
      if ui.exit_fiveman_immediately
      then pure (ui, table, true)
      else if ui.exit_fiveman
      then (do r ← begin_exit ui table; pure (r.0, r.1, false))
      else pure (ui, table, false)

  -- What stands behind the switch.
  unfoldable pub leave : Ui → List ProcessState → M W (Ui × List ProcessState × Bool)
  unfolding terminate test_exit
  leave ui table = do
    ui' ← if ui.is_terminating then terminate ui table else pure ui
    test_exit ui' table

length-set : (xs : List ProcessState) (i : ℕ) (v : ProcessState) → length (set xs i v) ≡ length xs
length-set [] i v = refl
length-set (x ∷ xs) zero v = refl
length-set (x ∷ xs) (suc i) v = omega (arith, length-set xs i v)

get_elem?-some :
    (xs : List ProcessState) (i : ℕ)
    → i < length xs
    → (x : ProcessState) × (get_elem? xs i ≡ some x)
get_elem?-some [] i h = elim h [ ]
get_elem?-some (x ∷ xs) zero h = (x, refl)
get_elem?-some (x ∷ xs) (suc i) h = get_elem?-some xs i (omega arith)

at_row-some :
    (f : ProcessState → ProcessState) (row : ℕ) (table : List ProcessState)
    → row < length table
    → (table' : List ProcessState) × (at_row f row table ≡ some table')
      × (length table' ≡ length table)
unfolding at_row
at_row-some f row table h =
    let (s, e) = get_elem?-some table row h in
    (set table row (f s), rw (e, at_row), length-set table row (f s))

abbrev pub InRange : ℕ → Option (Ui × List ProcessState) → Type 0
InRange total none = ⊥
InRange total (some (ui, table)) = (ui.highlighted_row < total) × (length table ≡ total)

with_row-InRange :
    (total : ℕ) (f : ProcessState → ProcessState) (ui : Ui) (table : List ProcessState)
    → ui.highlighted_row < total
    → length table ≡ total
    → InRange total (with_row ui (at_row f ui.highlighted_row table))
with_row-InRange total f ui table h e =
    let (table', found, same) = at_row-some f ui.highlighted_row table (omega arith) in
    rw found (h, same ∙ e)

InRange-cases :
    (total : ℕ) (b : Bool) (x y : Option (Ui × List ProcessState))
    → InRange total x
    → InRange total y
    → InRange total (if b then x else y)
InRange-cases total true x y h k = h
InRange-cases total false x y h k = k

press_letter-InRange :
    (c total : ℕ) (ui : Ui) (table : List ProcessState)
    → ui.highlighted_row < total
    → length table ≡ total
    → InRange total (press_letter c ui table)
unfolding press_letter
press_letter-InRange c total ui table h e =
    InRange-cases total (c == b'q') _ _ (h, e)
      (InRange-cases total (c == b's') _ _
        (with_row-InRange total (λ s. desires_intent s intent_stop) ui table h e)
        (InRange-cases total (c == b'l') _ _
          (with_row-InRange total (λ s. desires_intent s intent_start) ui table h e)
          (InRange-cases total (c == b'o') _ _ (with_row-InRange total page_stdout ui table h e) (
            InRange-cases total (c == b'e') _ _ (with_row-InRange total page_stderr ui table h e)
              (h, e)))))

-- With a row to highlight, and the array as long as the table, every key finds a state at the
-- highlighted row and leaves such a row highlighted.
pub press-InRange :
    (key : Key) (total : ℕ) (ui : Ui) (table : List ProcessState)
    → ui.highlighted_row < total
    → length table ≡ total
    → InRange total (press key total ui table)
unfolding press
press-InRange (letter c) total ui table h e = press_letter-InRange c total ui table h e
press-InRange key_up total ui table h e = (omega arith, e)
press-InRange key_down total ui table h e = ground arith
press-InRange err total ui table h e = (h, e)
