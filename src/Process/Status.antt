-- ===== src/Process/Status.antt =====
-- src/fiveman_process_state.c: fiveman_process_state_status_string, a line of text for a process,
-- which nothing calls.
use fiveman.Common.{ℕ, Bool, [], ◌++◌, if◌then◌else◌, length}
use fiveman.Common.Int.{ℤ, pos, is_positive, signed32}
use fiveman.Common.Text.{Text, codes, fit, show_int}
use fiveman.Machine.{Posix, M, pure, ◌>>=◌}
use fiveman.Process.{shown}
use fiveman.Process.Age.{lifetime, lifetime_str}
use fiveman.Process.Converge.{is_alive}
use fiveman.Process.Output.{stdout_has_new_entries, stderr_has_new_entries}
use fiveman.Types.{ProcessState}

abbrev pub active_status_title : Text
active_status_title = codes "[ACTIVE]"

abbrev pub inactive_status_title : Text
inactive_status_title = codes "[INACTIVE]"

abbrev pub stopped_status_title : Text
stopped_status_title = codes "[STOPPED]"

abbrev age_state_buf_len : ℕ
age_state_buf_len = 1024

abbrev new_entries : Bool → Text → Text
new_entries b info = if b then info else []

module _ {W : Type 0} (os : Posix W) (two_places : ℤ → ℕ → Text) where
  -- The title and the pid that is shown.
  unfoldable pub status_title : ProcessState → M W (Text × ℤ)
  status_title s =
      if is_positive s.pid
      then (do
        alive ← is_alive os s
        pure (if alive then active_status_title else stopped_status_title, s.pid))
      else pure (inactive_status_title, pos 0)

  -- The arguments of the last `snprintf`, put together by its format.
  abbrev pub status_text : Text × ℤ → Text → ℤ → ProcessState → Text
  status_text title age index s =
      title.0
      ++ codes " ("
      ++ show_int title.1
      ++ codes " for "
      ++ age
      ++ codes ") "
      ++ show_int index
      ++ codes ". "
      ++ shown s.instruction.name
      ++ codes ": "
      ++ shown s.instruction.exec
      ++ codes " "
      ++ show_int (signed32 s.sample.cpu_usage)
      ++ codes "% "
      ++ new_entries (stdout_has_new_entries s) (codes "[stdout]")
      ++ codes " "
      ++ new_entries (stderr_has_new_entries s) (codes "[stderr]")

  -- What is left in the buffer, and the answer: the length of the whole text.
  unfoldable pub status_string : ℕ → ℤ → ProcessState → M W (Text × ℕ)
  unfolding status_title
  status_string buf_len index s = do
    title ← status_title s
    distance ← lifetime os s
    let text = status_text title (lifetime_str two_places distance age_state_buf_len) index s
    pure (fit buf_len text, length text)
