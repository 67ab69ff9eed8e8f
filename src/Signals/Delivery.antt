-- ===== src/Signals/Delivery.antt =====
-- What a signal does to the program behind install_signal_handlers.
use fiveman.Common.{ℕ, Bool, true, List, ◌≡◌, refl, ◌∙◌, ap, inl, inr, Bool-cases}
use fiveman.Common.Int.{ℤ, is_minus_one}
use fiveman.Machine.{Posix, Machine, M, Ensures}
use fiveman.Options
use fiveman.Options.{Result, done, exited, failed}
use fiveman.Process.Converge.Discipline.{Disciplined, reap_zombie_processes-Keeps}
use fiveman.Screen.Keys.{Ui, handle_sigint}
use fiveman.Signals.{
  Signal, sigchld, sigint, sigterm, sigpipe, on_sigchld, on_sigint, Action, Actions, sigaction,
  install_signal_handlers, handle_sigchld, run_handler, deliver, with_action,
}
use fiveman.System.{System}
use fiveman.System.Safety.{Safe}
use fiveman.Table.{table_reap_zombie_processes}
use fiveman.Table.Loops.{Ensures-and_then, for_each-Keeps}
use fiveman.Types.{ProcessState}

-- Whether fiveman is asked to end behind the signal.
abbrev pub asked_to_end : Signal → Bool → Bool
asked_to_end sigint b = true
asked_to_end _ b = b

-- The signals that main installs handlers for.
abbrev pub IsHandled : Signal → Type 0
IsHandled sigchld = Unit
IsHandled sigint = Unit
IsHandled sigterm = ⊥
IsHandled sigpipe = ⊥

-- SIGCHLD and SIGINT have their handlers, and the other actions are those from before.
pub record Installed (before after : Actions) : Type 0 where
  pub chld : after.for_sigchld.handler ≡ on_sigchld
  pub int : after.for_sigint.handler ≡ on_sigint
  pub term : after.for_sigterm ≡ before.for_sigterm
  pub pipe : after.for_sigpipe ≡ before.for_sigpipe

sigaction-done :
    (answer : ℤ) (s : Signal) (a : Action) (before after : Actions)
    → sigaction answer s a before ≡ done after
    → after ≡ with_action s a before
unfolding sigaction
sigaction-done answer s a before after e = elim (Bool-cases (is_minus_one answer)) [
  | inl x ↦ cc
  | inr x ↦ cc
]

and_then-done :
    (r : Result Actions) (f : Actions → Result Actions) (after : Actions)
    → Options.and_then r f ≡ done after
    → (mid : Actions) × (r ≡ done mid) × (f mid ≡ done after)
and_then-done (done mid) f after e = (mid, refl, e)
and_then-done (exited n) f after e = cc
and_then-done failed f after e = cc

install_signal_handlers-Installed :
    (chld int : ℤ) (before after : Actions)
    → install_signal_handlers chld int before ≡ done after
    → Installed before after
unfolding install_signal_handlers
install_signal_handlers-Installed chld int before after e =
    let (mid, first, second) = and_then-done _ _ after e in
    let chld_set = sigaction-done chld sigchld _ before mid first in
    let int_set = sigaction-done int sigint _ mid after second in
    record {
      chld = ap (λ a. a.for_sigchld.handler) int_set ∙ ap (λ a. a.for_sigchld.handler) chld_set;
      int = ap (λ a. a.for_sigint.handler) int_set;
      term = ap (λ a. a.for_sigterm) int_set ∙ ap (λ a. a.for_sigterm) chld_set;
      pipe = ap (λ a. a.for_sigpipe) int_set ∙ ap (λ a. a.for_sigpipe) chld_set;
    }

module _ {W : Type 0} (os : Posix W) (fuel : ℕ) (start : List ProcessState) where
  -- The table is the same, the state is safe, and the flag of the end is set if the signal asks.
  abbrev pub Delivered : Signal → System W → Ui → Machine W → Type 0
  Delivered s sys ui m =
      Safe start (record { table = sys.table; ui = ui; machine = m })
      × (ui.exit_fiveman ≡ asked_to_end s sys.ui.exit_fiveman)
      × (ui.exit_fiveman_immediately ≡ sys.ui.exit_fiveman_immediately)

  run_handler-sigchld :
      (by_default : Ui → M W Ui) (sys : System W)
      → Safe start sys
      → Ensures
          (run_handler os fuel by_default on_sigchld sys.table sys.ui sys.machine)
          (Delivered sigchld sys)
  unfolding run_handler handle_sigchld
  run_handler-sigchld by_default sys safe =
      Ensures-and_then (λ _ m. Disciplined m.calls) (Delivered sigchld sys)
        (table_reap_zombie_processes os fuel sys.table sys.machine) _
        (for_each-Keeps _ (reap_zombie_processes-Keeps os fuel) sys.table sys.machine
          safe.disciplined)
        (λ _ m d.
          (record { disciplined = d; same = safe.same; in_range = safe.in_range }, refl, refl))

  run_handler-sigint :
      (by_default : Ui → M W Ui) (sys : System W)
      → Safe start sys
      → Ensures
          (run_handler os fuel by_default on_sigint sys.table sys.ui sys.machine)
          (Delivered sigint sys)
  unfolding run_handler handle_sigint
  run_handler-sigint by_default sys safe = (
    record { disciplined = safe.disciplined; same = safe.same; in_range = safe.in_range },
    refl,
    refl,
  )

  -- When install_signal_handlers has returned, a signal that it installs a handler for leaves a
  -- safe state safe and its table as it was; SIGINT asks fiveman to end, SIGCHLD does not, and no
  -- signal ends the screen at once. The actions for the other signals are those from before.
  pub install_signal_handlers-Delivered :
      (chld int : ℤ) (before after : Actions) (by_default : Signal → Ui → M W Ui) (s : Signal)
      (sys : System W)
      → install_signal_handlers chld int before ≡ done after
      → IsHandled s
      → Safe start sys
      → Installed before after
        × Ensures
            (deliver os fuel by_default s after sys.table sys.ui sys.machine)
            (Delivered s sys)
  install_signal_handlers-Delivered chld int before after by_default sigchld sys e handled safe =
      let set = install_signal_handlers-Installed chld int before after e in
      (set, rw (set.chld) (run_handler-sigchld (by_default sigchld) sys safe))
  install_signal_handlers-Delivered chld int before after by_default sigint sys e handled safe =
      let set = install_signal_handlers-Installed chld int before after e in
      (set, rw (set.int) (run_handler-sigint (by_default sigint) sys safe))
  install_signal_handlers-Delivered chld int before after by_default sigterm sys e handled safe =
      absurd handled
  install_signal_handlers-Delivered chld int before after by_default sigpipe sys e handled safe =
      absurd handled
