-- ===== src/System/Leaving.antt =====
-- How the screen is left, and that no key is a way out.
use fiveman.Common.{
  ℕ, Bool, true, false, Option, none, some, List, ◌≡◌, ◌⊎◌, subst, sym, refl, ◌∙◌, ◌==◌,
  if◌then◌else◌,
}
use fiveman.Machine.{Call}
use fiveman.Process.{sigkill, desires_intent}
use fiveman.Process.Output.{page_stdout, page_stderr}
use fiveman.Screen.Keys.{
  Ui, Key, letter, key_up, key_down, err, at_row, with_row, press_letter, press,
}
use fiveman.Screen.Quit.{LeftBy, FoundDead, signalled}
use fiveman.Types.{ProcessState, intent_start, intent_stop}

-- A key changes neither of the two flags.
abbrev pub Unflagged : Ui → Option (Ui × List ProcessState) → Type 0
Unflagged ui none = Unit
Unflagged ui (some (ui', table)) =
    (ui'.is_terminating ≡ ui.is_terminating)
    × (ui'.exit_fiveman_immediately ≡ ui.exit_fiveman_immediately)

Unflagged-cases :
    (ui : Ui) (b : Bool) (x y : Option (Ui × List ProcessState))
    → Unflagged ui x
    → Unflagged ui y
    → Unflagged ui (if b then x else y)
Unflagged-cases ui true x y h k = h
Unflagged-cases ui false x y h k = k

with_row-Unflagged :
    (ui : Ui) (found : Option (List ProcessState)) → Unflagged ui (with_row ui found)
with_row-Unflagged ui none = tt
with_row-Unflagged ui (some table) = (refl, refl)

pub press-Unflagged :
    (key : Key) (total : ℕ) (ui : Ui) (table : List ProcessState)
    → Unflagged ui (press key total ui table)
unfolding press press_letter
press-Unflagged (letter c) total ui table =
    let at = λ (f : ProcessState → ProcessState).
      with_row-Unflagged ui (at_row f ui.highlighted_row table) in
    Unflagged-cases ui (c == b'q') _ _ (refl, refl)
      (Unflagged-cases ui (c == b's') _ _ (at (λ s. desires_intent s intent_stop)) (
        Unflagged-cases ui (c == b'l') _ _ (at (λ s. desires_intent s intent_start)) (
          Unflagged-cases ui (c == b'o') _ _ (at page_stdout)
            (Unflagged-cases ui (c == b'e') _ _ (at page_stderr) (refl, refl)))))
press-Unflagged key_up total ui table = (refl, refl)
press-Unflagged key_down total ui table = (refl, refl)
press-Unflagged err total ui table = (refl, refl)

-- A round that ends the loop was made while fiveman terminates, and found no process of the table
-- alive or has sent SIGKILL to all of them; one that does not leaves the flag of the end unset.
abbrev pub Left : Ui → Ui × List ProcessState × Bool → List Call → List Call → Type 0
Left ui (ui', table, true) before after =
    (ui.is_terminating ≡ true)
    × (FoundDead table before after ⊎ (cs : List Call) × (after ≡ signalled sigkill table cs))
Left ui (ui', table, false) before after = ui'.exit_fiveman_immediately ≡ false

pub LeftBy-Left :
    (ui ui' : Ui) (table : List ProcessState) (r : Ui × List ProcessState × Bool)
    (before after : List Call)
    → ui'.is_terminating ≡ ui.is_terminating
    → LeftBy ui' table r before after
    → Left ui r before after
LeftBy-Left ui ui' table (u, t, true) before after e (term, same, how) = (
  sym e ∙ term,
  subst (λ t. FoundDead t before after ⊎ (cs : List Call) × (after ≡ signalled sigkill t cs))
      (sym same) how,
)
LeftBy-Left ui ui' table (u, t, false) before after e h = h.0
