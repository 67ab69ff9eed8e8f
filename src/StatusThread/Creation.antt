-- ===== src/StatusThread/Creation.antt =====
-- What fiveman_status_thread_create makes.
use fiveman.Common.{ℕ, List, ◌≡◌, refl}
use fiveman.Common.Text.{Text}
use fiveman.Machine.{Posix, Machine, Ensures}
use fiveman.Process.Converge.Discipline.{Keeps, Disciplined}
use fiveman.StatusThread.{initial_entries, update_screen_entry, status_thread_create}
use fiveman.StatusThread.Rounds.{update_screen_entry-Keeps}
use fiveman.Table.{each}
use fiveman.Table.Loops.{Logged, Ensures-and_then, each-Keeps}
use fiveman.Types.{ProcessState, StatusThread}

module _ {W : Type 0} (os : Posix W) where
  pub initial_entries-Keeps : (s : ProcessState) → Keeps (initial_entries os s)
  unfolding initial_entries
  initial_entries-Keeps s m d =
      Ensures-and_then Logged Logged (update_screen_entry os s m) _
        (update_screen_entry-Keeps os s m d)
        (λ cur m₁ d₁.
          Ensures-and_then Logged Logged (update_screen_entry os s m₁) _
            (update_screen_entry-Keeps os s m₁ d₁) (λ prev m₂ d₂. d₂))

  -- A creation that returns has the table, and makes allowed calls alone.
  pub status_thread_create_lem :
      (table : List ProcessState) (num : ℕ) (directory : Text) (m : Machine W)
      → Disciplined m.calls
      → Ensures
          (status_thread_create os table num directory m)
          (λ t m'. (t.table ≡ table) × Disciplined m'.calls)
  unfolding status_thread_create
  status_thread_create_lem table num directory m d =
      Ensures-and_then Logged
        (λ (t : StatusThread) (m' : Machine W). (t.table ≡ table) × Disciplined m'.calls)
        (each (initial_entries os) table m) _ (each-Keeps _ initial_entries-Keeps table m d)
        (λ entries m₁ d₁. (refl, d₁))
