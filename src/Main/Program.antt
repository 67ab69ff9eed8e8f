-- ===== src/Main/Program.antt =====
-- src/main.c from its first line to the screen, and from the screen to the end.
--
-- What the program finds around it is the record Setting. The pager's child stays in its loop.
use fiveman.Common.{ℕ, Bool, true, false, ◌&&◌, Option, none, some, List, if◌then◌else◌}
use fiveman.Common.Int.{ℤ, word32}
use fiveman.Common.Text.{Text, atoi}
use fiveman.Machine.{Posix, Sampling, failed, exited, diverged, M, pure, ◌>>=◌}
use fiveman.Main.{initial_port, set_up}
use fiveman.Options
use fiveman.Options.{Answer, Options, Result, done, parse_options}
use fiveman.PagerFork.Lifecycle.{
  Fork, Created, parent, child, pager_fork_create, pager_fork_destroy,
}
use fiveman.Signals.{Actions, install_signal_handlers}
use fiveman.StatusThread.{status_thread_create}
use fiveman.Table.{table_deallocate}
use fiveman.Types.{ProcessState, StatusThread}

-- What the system answers to main: the pipes and the process of the pager, the variables SUDO_GID,
-- SUDO_UID and PORT, sigaction, the command line, `access` with R_OK, and the bytes of a file.
pub record Setting : Type 0 where
  pub file_filedes : ℕ × ℕ
  pub confirm_filedes : ℕ × ℕ
  pub fork : ℤ
  pub descriptors : List ℕ
  pub sudo_gid : Option Text
  pub sudo_uid : Option Text
  pub sigaction_chld : ℤ
  pub sigaction_int : ℤ
  pub actions : Actions
  pub port_env : Option Text
  pub answers : List Answer
  pub word : Option Text
  pub getwd : Option Text
  pub errno : ℤ
  pub readable : Text → Bool
  pub bytes : Text → Option (List ℕ)

-- The state of main when the screen begins.
pub record Started : Type 0 where
  pub pager_fork : Fork
  pub descriptors : List ℕ
  pub setegid : Option ℕ
  pub seteuid : Option ℕ
  pub actions : Actions
  pub options : Options
  pub num_instructions : ℕ
  pub application_state_table : List ProcessState
  pub thread : StatusThread

-- The group or user that main changes to, of 32 bits without a sign; none is NULL, no change.
unfoldable pub sudo_id : Option Text → Option ℕ
sudo_id none = none
sudo_id (some text) = some (word32 (atoi text))

-- cmd != NULL
abbrev pub is_set : Option Text → Bool
is_set none = false
is_set (some _) = true

module _ {W : Type 0} (os : Posix W) (sampling : Sampling W) where
  -- Behind parse_options: the assertions and the table with its thread.
  unfoldable pub begin_threads : Setting → Fork → List ℕ → Actions → Options → M W Started
  begin_threads e fork descriptors actions o =
      if is_set o.command && e.readable o.directory && e.readable o.procfile
      then (do
        r ← set_up os sampling (e.bytes o.procfile) o.port
        thread ← status_thread_create os r.1 r.0 o.directory
        pure (record {
          pager_fork = fork;
          descriptors = descriptors;
          setegid = sudo_id e.sudo_gid;
          seteuid = sudo_id e.sudo_uid;
          actions = actions;
          options = o;
          num_instructions = r.0;
          application_state_table = r.1;
          thread = thread;
        }))
      else (λ m. failed)

  unfoldable pub begin_with : Setting → Fork → List ℕ → Actions → Result Options → M W Started
  unfolding begin_threads
  begin_with e fork descriptors actions (done o) = begin_threads e fork descriptors actions o
  begin_with e fork descriptors actions (Options.exited n) = λ m. exited n
  begin_with e fork descriptors actions Options.failed = λ m. failed

  -- Behind install_signal_handlers.
  unfoldable pub parse_and_begin : Setting → Created → Result Actions → M W Started
  unfolding begin_with
  parse_and_begin e (child _ _) handlers = λ m. diverged
  parse_and_begin e (parent fork descriptors) (done actions) =
      begin_with e fork descriptors actions
        (parse_options e.answers e.word e.getwd e.errno (initial_port e.port_env))
  parse_and_begin e (parent fork descriptors) (Options.exited n) = λ m. exited n
  parse_and_begin e (parent fork descriptors) Options.failed = λ m. failed

  unfoldable pub start_up : Setting → M W Started
  unfolding parse_and_begin
  start_up e =
      parse_and_begin e (pager_fork_create e.file_filedes e.confirm_filedes e.fork e.descriptors)
        (install_signal_handlers e.sigaction_chld e.sigaction_int e.actions)

module _ {W : Type 0} (os : Posix W) (sampling : Sampling W) where
  -- Behind fiveman_status_thread_destroy; the answer is what descriptors stay open.
  unfoldable pub release : Fork → List ℕ → List ProcessState → M W (List ℕ)
  release fork descriptors table = do
    _ ← table_deallocate os sampling table
    pager_fork_destroy os fork descriptors
