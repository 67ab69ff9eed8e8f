-- ===== src/System/Safety.antt =====
-- What holds in every state that the program reaches, and what a key and the tests behind it keep.
use fiveman.Common.{
  subst, ℕ, ◌<◌, Bool, true, false, Option, none, some, List, ◌≡◌, refl, Bool-cases, inl, inr,
  length, get_elem?, set, if◌then◌else◌, ◌==◌,
}
use fiveman.Machine.{Posix, Machine, Outcome, returned, Ensures}
use fiveman.Process.{desires_intent}
use fiveman.Process.Output.{page_stdout, page_stderr}
use fiveman.Process.Converge.Discipline.{Disciplined}
use fiveman.Screen.Keys.{
  Ui, Key, letter, key_up, key_down, err, at_row, with_row, press_letter, press, handle_sigint,
  begin_exit, test_exit,
}
use fiveman.System.{System}
use fiveman.System.Same.{
  Same, desires_intent-Same, reflect-Same, page_stdout-Same, page_stderr-Same, Pairwise-refl,
  Pairwise-trans, Pairwise-map, Pairwise-set,
}
use fiveman.Table.{table_reflect_desired_intent}
use fiveman.Table.Loops.{Pairwise}
use fiveman.Types.{ProcessState, intent_start, intent_stop}

-- What a key leaves: the same processes.
abbrev pub Pressed : List ProcessState → Option (Ui × List ProcessState) → Type 0
Pressed table none = Unit
Pressed table (some (ui, table')) = Pairwise Same table table'

with_row-Pressed :
    (f : ProcessState → ProcessState)
    → ((s : ProcessState) → Same s (f s))
    → (ui : Ui) (table : List ProcessState) (found : Option ProcessState)
    → get_elem? table ui.highlighted_row ≡ found
    → Pressed table (
        with_row ui
          (elim found [ none ↦ none | some s ↦ some (set table ui.highlighted_row (f s)) ]))
with_row-Pressed f h ui table none e = tt
with_row-Pressed f h ui table (some s) e = Pairwise-set table ui.highlighted_row s (f s) e (h s)

Pressed-cases :
    (table : List ProcessState) (b : Bool) (x y : Option (Ui × List ProcessState))
    → Pressed table x
    → Pressed table y
    → Pressed table (if b then x else y)
Pressed-cases table true x y h k = h
Pressed-cases table false x y h k = k

pub press-Pressed :
    (key : Key) (total : ℕ) (ui : Ui) (table : List ProcessState)
    → Pressed table (press key total ui table)
unfolding press press_letter at_row
press-Pressed (letter c) total ui table =
    let at = λ (f : ProcessState → ProcessState) (h : (s : ProcessState) → Same s (f s)).
      with_row-Pressed f h ui table (get_elem? table ui.highlighted_row) refl in
    Pressed-cases table (c == b'q') _ _ (Pairwise-refl table) (
      Pressed-cases table (c == b's') _ _
        (at (λ s. desires_intent s intent_stop) (desires_intent-Same intent_stop))
        (Pressed-cases table (c == b'l') _ _
          (at (λ s. desires_intent s intent_start) (desires_intent-Same intent_start))
          (Pressed-cases table (c == b'o') _ _ (at page_stdout page_stdout-Same) (
            Pressed-cases table (c == b'e') _ _ (at page_stderr page_stderr-Same)
              (Pairwise-refl table)))))
press-Pressed key_up total ui table = Pairwise-refl table
press-Pressed key_down total ui table = Pairwise-refl table
press-Pressed err total ui table = Pairwise-refl table

-- The row stays highlighted and the processes stay.
abbrev pub Stays : Ui → List ProcessState → Ui × List ProcessState × Bool → Type 0
Stays ui table r = (r.0.highlighted_row ≡ ui.highlighted_row) × Pairwise Same table r.1

module _ {W : Type 0} (os : Posix W) where
  abbrev SameRow : Ui → Ui → Machine W → Type 0
  SameRow ui ui' _ = ui'.highlighted_row ≡ ui.highlighted_row

  pub test_exit-Stays :
      (ui : Ui) (table : List ProcessState) (m : Machine W)
      → Ensures (test_exit os ui table m) (λ r _. Stays ui table r)
  unfolding test_exit begin_exit
  test_exit-Stays ui table m =
      let stopped =
        Pairwise-map (λ s. desires_intent s intent_stop) (desires_intent-Same intent_stop) table in
      elim (Bool-cases ui.exit_fiveman_immediately) [
        | inl now ↦ rw now (refl, Pairwise-refl table)
        | inr later ↦ elim (Bool-cases ui.exit_fiveman) [
          | inl quit ↦ rw (later, quit) (refl, stopped)
          | inr stays ↦ rw (later, stays) (refl, Pairwise-refl table)
        ]
      ]

-- The log is disciplined, the table holds the processes that it held at the start, each at its
-- place, and a row of the table is highlighted.
pub record Safe {W : Type 0} (start : List ProcessState) (s : System W) : Type 0 where
  pub disciplined : Disciplined s.machine.calls
  pub same : Pairwise Same start s.table
  pub in_range : s.ui.highlighted_row < length start

pub ensured :
    {W A : Type 0} (Q : A → Machine W → Type 0) {o : Outcome W A} {a : A} {m : Machine W}
    → o ≡ returned a m
    → Ensures o Q
    → Q a m
ensured Q e h = subst (λ o. Ensures o Q) e h

pub interrupted-Safe :
    {W : Type 0} {start : List ProcessState} (s : System W)
    → Safe start s
    → Safe start (record s { ui = handle_sigint s.ui })
unfolding handle_sigint
interrupted-Safe s h = record { disciplined = h.disciplined; same = h.same; in_range = h.in_range }

pub reflected-Safe :
    {start : List ProcessState} {W : Type 0} (s : System W)
    → Safe start s
    → Safe start (record s { table = table_reflect_desired_intent s.table })
reflected-Safe {start} s h = record {
  disciplined = h.disciplined;
  same = Pairwise-trans start s.table _ h.same (Pairwise-map _ reflect-Same s.table);
  in_range = h.in_range;
}
