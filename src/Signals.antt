-- ===== src/Signals.antt =====
-- src/signal_handlers.c: which handler is installed for which signal, and what the handlers do.
--
-- sigaction answers 0, or -1 and changes nothing; its answers are arguments. Flags that the program
-- does not set are `none`: sigaction then reads a member of the struct that was never written, and
-- `signal` is given none.
pub mod Reaping
pub mod Delivery
mod Tests
use fiveman.Common.{ℕ, zero, suc, Option, none, some, List, [], ◌∷◌, if◌then◌else◌}
use fiveman.Common.Int.{ℤ, pos, negsuc, is_minus_one}
use fiveman.Machine.{Posix, exited, M, pure, and_then, ◌>>=◌, ◌>>◌}
use fiveman.Options.{Result, done}
use fiveman.Options
use fiveman.Process.Converge.{reap_loop}
use fiveman.Screen.Keys.{Ui, handle_sigint}
use fiveman.Table.{table_reap_zombie_processes}
use fiveman.Types.{ProcessState}

pub data Signal : Type 0 where
  sigchld sigint sigterm sigpipe : Signal

pub data Handler : Type 0 where
  sig_dfl sig_ign on_sigchld on_sigint on_childkill : Handler

pub data Flag : Type 0 where
  sa_restart sa_nocldstop sa_nocldwait sa_resethand : Flag

-- struct sigaction, with an empty mask.
pub record Action : Type 0 where
  pub handler : Handler
  pub flags : Option (List Flag)

-- The actions of the process for the signals that the program knows.
pub record Actions : Type 0 where
  pub for_sigchld : Action
  pub for_sigint : Action
  pub for_sigterm : Action
  pub for_sigpipe : Action

abbrev pub action_for : Signal → Actions → Action
action_for sigchld actions = actions.for_sigchld
action_for sigint actions = actions.for_sigint
action_for sigterm actions = actions.for_sigterm
action_for sigpipe actions = actions.for_sigpipe

abbrev pub with_action : Signal → Action → Actions → Actions
with_action sigchld a actions = record actions { for_sigchld = a }
with_action sigint a actions = record actions { for_sigint = a }
with_action sigterm a actions = record actions { for_sigterm = a }
with_action sigpipe a actions = record actions { for_sigpipe = a }

-- `sigaction`, and `exit(1)` when it answers -1.
unfoldable pub sigaction : ℤ → Signal → Action → Actions → Result Actions
sigaction answer s a actions =
    if is_minus_one answer then Options.exited (pos 1) else done (with_action s a actions)

abbrev pub unset : Handler → Action
unset h = record { handler = h; flags = none }

unfoldable pub reset_signal_handlers : ℤ → ℤ → Actions → Result Actions
unfolding sigaction
reset_signal_handlers chld int actions =
    Options.and_then
      (sigaction chld sigchld (record { handler = sig_dfl; flags = some (sa_resethand ∷ []) })
        actions)
      (sigaction int sigint (unset sig_dfl))

unfoldable pub install_ignore_sigint_handler : ℤ → Actions → Result Actions
unfolding sigaction
install_ignore_sigint_handler int actions = sigaction int sigint (unset sig_ign) actions

unfoldable pub install_signal_handlers : ℤ → ℤ → Actions → Result Actions
unfolding sigaction
install_signal_handlers chld int actions =
    Options.and_then
      (sigaction chld sigchld
        (record {
          handler = on_sigchld;
          flags = some (sa_restart ∷ sa_nocldstop ∷ sa_nocldwait ∷ []);
        })
        actions)
      (sigaction int sigint (unset on_sigint))

unfoldable pub install_child_kill_handler : ℤ → Actions → Result Actions
unfolding sigaction
install_child_kill_handler term actions = sigaction term sigterm (unset on_childkill) actions

unfoldable pub ignore_sigpipe : Actions → Actions
ignore_sigpipe actions = with_action sigpipe (unset sig_ign) actions

unfoldable pub restore_sigpipe : Actions → Actions
restore_sigpipe actions = with_action sigpipe (unset sig_dfl) actions

module _ {W : Type 0} (os : Posix W) (fuel : ℕ) where
  -- The table is application_state_table, and [] its NULL. `fuel` bounds each loop over `waitpid`.
  unfoldable pub handle_sigchld : List ProcessState → M W (Unit {0})
  handle_sigchld application_state_table =
      table_reap_zombie_processes os fuel application_state_table

  unfoldable pub handle_childkill : M W Ui
  handle_childkill m = exited (pos 0)

  -- reap_zombie_processes of src/signal_handlers.c, which waits for any child.
  unfoldable pub reap_any_zombie_processes : M W (Unit {0})
  reap_any_zombie_processes = reap_loop os fuel (negsuc 0)

  -- What a signal does with the globals of the screen; `by_default` is the action of the system.
  unfoldable pub run_handler : (Ui → M W Ui) → Handler → List ProcessState → Ui → M W Ui
  unfolding handle_sigchld handle_childkill
  run_handler by_default sig_dfl table ui = by_default ui
  run_handler by_default sig_ign table ui = pure ui
  run_handler by_default on_sigchld table ui = do _ ← handle_sigchld table; pure ui
  run_handler by_default on_sigint table ui = pure (handle_sigint ui)
  run_handler by_default on_childkill table ui = handle_childkill

  abbrev pub deliver : (Signal → Ui → M W Ui) → Signal → Actions → List ProcessState → Ui → M W Ui
  deliver by_default s actions = run_handler (by_default s) ((action_for s actions).handler)
