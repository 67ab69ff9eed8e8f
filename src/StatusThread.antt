-- ===== src/StatusThread.antt =====
-- src/fiveman_status_thread.c, with update_screen_entry of src/ncurses_screen.c: the thread that
-- brings the processes to their intents, once a second, and shows the screen what has become of
-- them. The round is one function; the lock, the copies of the entries into the shared array and
-- the `sleep` leave no trace in it; Threads has the lock and the copies.
pub mod Rounds
pub mod Creation
mod Tests
use fiveman.Common.{
  ℕ, Bool, true, false, List, [], ◌∷◌, map, length, ◌==◌, zero, suc, leb, if◌then◌else◌,
}
use fiveman.Common.Text.{Text}
use fiveman.Machine.{Posix, Sampling, diverged, crashed, M, pure, and_then, ◌>>=◌, ◌>>◌}
use fiveman.Process.Age.{lifetime}
use fiveman.Process.Converge.{current_activity, child_process_status}
use fiveman.Process.Output.{stdout_has_new_entries, stderr_has_new_entries}
use fiveman.Table.{each, table_reflect_desired_intent, table_reap_zombie_processes, table_converge}
use fiveman.Types.{ProcessState, ScreenEntry, StatusThread}

module _ {W : Type 0} (os : Posix W) where
  unfoldable pub update_screen_entry : ProcessState → M W ScreenEntry
  unfolding current_activity lifetime stdout_has_new_entries stderr_has_new_entries
  update_screen_entry s = do
    activity ← current_activity os s
    age ← lifetime os s
    pure (record {
      activity = activity;
      pid = s.pid;
      age = age;
      sample = s.sample;
      stdout_active = stdout_has_new_entries s;
      stderr_active = stderr_has_new_entries s;
    })

  -- Both arrays of entries are filled, in two passes over the same state.
  unfoldable pub initial_entries : ProcessState → M W (ScreenEntry × ScreenEntry)
  unfolding update_screen_entry
  initial_entries s = do cur ← update_screen_entry s; prev ← update_screen_entry s; pure (cur, prev)

  -- The entries of a table longer than the arrays are written behind their ends: the lists have them
  -- all, and `num_entries` is the size of the arrays.
  unfoldable pub status_thread_create : List ProcessState → ℕ → Text → M W StatusThread
  unfolding initial_entries
  status_thread_create table num_entries directory = do
    entries ← each initial_entries table
    pure (record {
      exit = 0;
      table = table;
      num_entries = num_entries;
      cur_entries = map (λ e. e.0) entries;
      prev_entries = map (λ e. e.1) entries;
      directory = directory;
    })

module _ {W : Type 0} (os : Posix W) (sampling : Sampling W) (environ : List Text) (fuel : ℕ) where
  -- One state in the loop over the rows.
  unfoldable pub update_row : ProcessState → M W (ProcessState × ScreenEntry)
  update_row s = do
    s' ← child_process_status os sampling s
    entry ← update_screen_entry os s'
    pure (s', entry)

  -- One round of fiveman_update_thread_main, and whether it was the last one. `fuel` bounds the
  -- loop over `waitpid` for each process.
  unfoldable pub update_round : StatusThread → M W (StatusThread × Bool)
  update_round t = do
    let reflected = table_reflect_desired_intent t.table
    _ ← table_reap_zombie_processes os fuel reflected
    converged ← table_converge os sampling environ t.directory reflected
    rows ← each update_row converged
    pure (record t { table = map (λ r. r.0) rows; cur_entries = map (λ r. r.1) rows }, t.exit == 1)
