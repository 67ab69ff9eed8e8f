-- ===== src/Screen/Extents.antt =====
-- update_screen_extents and draw_headers, and draw_screen_entry.
use fiveman.Common.{ℕ, suc, ◌+◌, Bool, List, [], ◌∷◌, ◌++◌, if◌then◌else◌, replicate}
use fiveman.Common.Int.{ℤ, pos, ◌-ℤ◌, ltb_ℤ, pos_part, signed32, signed64}
use fiveman.Common.Text.{Text, codes, fit, c_string, show_int}
use fiveman.Process.{shown}
use fiveman.Machine.{Posix, M, pure, ◌>>=◌}
use fiveman.Process.Age.{lifetime, lifetime_str}
use fiveman.Process.Converge.{current_activity}
use fiveman.Procfile.{Instruction}
use fiveman.Screen.Bytes.{byte_measurement_string, readwrite_byte_measurement_string}
use fiveman.Types.{
  ProcessState, ScreenEntry, CurrentActivity, stopped, running, starting_up, shutting_down, unknown,
}

-- fiveman_ncurses_screen_extents; none of the sizes is negative.
pub record Extents : Type 0 where
  pub name_size : ℕ
  pub state_size : ℕ
  pub pid_size : ℕ
  pub age_size : ℕ
  pub cpu_size : ℕ
  pub mem_size : ℕ
  pub net_size : ℕ
  pub io_size : ℕ
  pub fs_size : ℕ
  pub stdout_size : ℕ
  pub stderr_size : ℕ
  pub spacing_size : ℕ

-- total -= size + spacing
abbrev pub less : ℤ → ℕ → ℕ → ℤ
less total size spacing = total -ℤ pos (size + spacing)

unfoldable pub update_screen_extents : ℤ → Extents
update_screen_extents maxx =
    let t₁ = less maxx 20 1 in
    let t₂ = less t₁ 10 1 in
    let t₃ = less t₂ 30 1 in
    let t₄ = less t₃ 5 1 in
    let t₅ = less t₄ 12 1 in
    let t₆ = less t₅ 12 1 in
    let t₇ = less t₆ 12 1 in
    let t₈ = less t₇ 12 1 in
    let t₉ = less t₈ 6 1 in
    let total = less t₉ 6 1 in
    record {
      name_size = if ltb_ℤ total (pos 0) then 0 else pos_part total;
      state_size = 20;
      pid_size = 10;
      age_size = 30;
      cpu_size = 5;
      mem_size = 12;
      net_size = 12;
      io_size = 12;
      fs_size = 12;
      stdout_size = 6;
      stderr_size = 6;
      spacing_size = 1;
    }

-- A text at its column: `move` and `addstr`.
pub record Cell : Type 0 where
  pub col : ℕ
  pub text : Text

-- The texts with the sizes by which `col_head` moves on behind each.
abbrev pub place : ℕ → ℕ → List (Text × ℕ) → List Cell
place spacing col_head [] = []
place spacing col_head ((t, size) ∷ r) =
    record { col = col_head; text = t } ∷ place spacing (col_head + (size + spacing)) r

unfoldable pub draw_headers : Extents → List Cell
draw_headers e = place e.spacing_size 0 (
    (codes "PROCESS", e.name_size)
    ∷ (codes "PID", e.pid_size)
    ∷ (codes "STATE", e.state_size)
    ∷ (codes "AGE", e.age_size)
    ∷ (codes "CPU", e.cpu_size)
    ∷ (codes "MEM", e.mem_size)
    ∷ (codes "NET R/W", e.net_size)
    ∷ (codes "IO R/W", e.io_size)
    ∷ (codes "FS R/W", e.fs_size)
    ∷ (codes "STDOUT", e.stdout_size)
    ∷ (codes "STDERR", e.stderr_size)
    ∷ [])

abbrev pub activity_text : CurrentActivity → Text
activity_text stopped = codes "STOPPED"
activity_text running = codes "ACTIVE"
activity_text starting_up = codes "LAUNCHING"
activity_text shutting_down = codes "STOPPING"
activity_text unknown = codes "UNKNOWN"

abbrev pub marker : Bool → Text
marker active = if active then codes "*" else []

-- The texts of a row. `activity` is what fiveman_process_state_current_activity answers when the row is drawn, and
-- `age` what fiveman_process_state_lifetime does. "%i" reads the unsigned `cpu_usage` as an `int`,
-- and the unsigned measurements are passed as `long long`.
module _ (two_places : ℤ → ℕ → Text) (general : ℤ → ℕ → Text) where
  unfoldable pub entry_texts :
      Extents → Instruction → CurrentActivity → ℤ → ScreenEntry → List (Text × ℕ)
  entry_texts e instr activity age entry =
      let name_str = fit e.name_size (shown instr.name ++ (codes ": " ++ shown instr.exec)) in
      let pid_str = fit e.pid_size (show_int entry.pid) in
      let state_str = fit e.state_size (activity_text activity) in
      let age_str = lifetime_str two_places age e.age_size in
      let cpu_str = fit e.cpu_size (show_int (signed32 entry.sample.cpu_usage) ++ codes "%") in
      let mem_str =
        c_string
          (byte_measurement_string general (signed64 entry.sample.memory_usage)
            (replicate (suc e.mem_size) 0) 0 e.mem_size).0 in
      let rates = λ (size read write : ℕ).
        c_string
          (readwrite_byte_measurement_string general (signed64 read) (signed64 write)
            (replicate (suc size) 0) size).0 in
      (name_str, e.name_size)
      ∷ (pid_str, e.pid_size)
      ∷ (state_str, e.state_size)
      ∷ (age_str, e.age_size)
      ∷ (cpu_str, e.cpu_size)
      ∷ (mem_str, e.mem_size)
      ∷ (rates e.net_size entry.sample.net_read_rate entry.sample.net_write_rate, e.net_size)
      ∷ (rates e.io_size entry.sample.io_read_rate entry.sample.io_write_rate, e.io_size)
      ∷ (rates e.fs_size entry.sample.fs_read_rate entry.sample.fs_write_rate, e.fs_size)
      ∷ (fit e.stdout_size (marker entry.stdout_active), e.stdout_size)
      ∷ (fit e.stderr_size (marker entry.stderr_active), e.stderr_size)
      ∷ []

  unfoldable pub entry_cells : Extents → Instruction → CurrentActivity → ℤ → ScreenEntry → List Cell
  unfolding entry_texts
  entry_cells e instr activity age entry =
      place e.spacing_size 0 (entry_texts e instr activity age entry)

module _ {W : Type 0} (os : Posix W) (two_places : ℤ → ℕ → Text) (general : ℤ → ℕ → Text) where
  -- The probe of the process and the clock are asked for each row that is drawn.
  unfoldable pub draw_screen_entry : Extents → ProcessState → ScreenEntry → M W (List Cell)
  unfolding entry_cells
  draw_screen_entry e state entry = do
    activity ← current_activity os state
    age ← lifetime os state
    pure (entry_cells two_places general e state.instruction activity age entry)
