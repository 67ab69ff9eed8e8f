-- ===== src/Types.antt =====
-- src/fiveman_types.h: the records that the components share. A pointer that may be NULL is an
-- Option; the `next` pointers of a process table are a list.
use fiveman.Common.{ℕ, Option, List, Bool}
use fiveman.Common.Int.{ℤ, pos}
use fiveman.Common.Text.{Text}
use fiveman.Procfile.{Instruction}

pub data CurrentActivity : Type 0 where
  stopped running starting_up shutting_down unknown : CurrentActivity

-- In the order of the C enumeration, so `intent_start` is the value of zeroed memory.
pub data Intent : Type 0 where
  intent_start intent_sig intent_stop intent_none : Intent

pub record ProcessIntent : Type 0 where
  pub intent : Intent
  pub payload : ℤ  -- the C field `data`

-- Unsigned 64 bits each, `cpu_usage` 32.
pub record Sample : Type 0 where
  pub sample_time : ℕ
  pub total_time : ℕ
  pub cpu_usage : ℕ
  pub memory_usage : ℕ
  pub io_read_rate : ℕ
  pub io_write_rate : ℕ
  pub net_read_rate : ℕ
  pub net_write_rate : ℕ
  pub fs_read_rate : ℕ
  pub fs_write_rate : ℕ

-- The two fields of `struct stat` that are read.
pub record Stat : Type 0 where
  pub st_mtime : ℕ
  pub st_size : ℕ

-- io_counter and mac_sampling_data of src/fiveman_process_statistics_mac.c; the handles of Mach
-- and DTrace are numbers, and MACH_PORT_NULL is 0.
pub record IoCounter : Type 0 where
  pub start : ℕ
  pub read : ℕ
  pub write : ℕ

pub record SamplingData : Type 0 where
  pub fs : IoCounter
  pub net : IoCounter
  pub dev : IoCounter
  pub sampled_task : ℕ
  pub dtp : ℕ
  pub prog : ℕ
  pub proc : ℕ

pub record ProcessState : Type 0 where
  pub instruction : Instruction
  pub intent : ProcessIntent
  pub desired_intent : ProcessIntent
  pub sample : Sample
  pub desired_port : ℤ
  pub pid : ℤ
  pub host_read_fd : ℤ
  pub child_write_fd : ℤ
  pub last_state_change : ℕ
  pub stdout : Option Text
  pub stdout_stat : Stat
  pub stdout_paged_at : ℕ
  pub stderr : Option Text
  pub stderr_stat : Stat
  pub stderr_paged_at : ℕ
  pub sample_ctxt : Option SamplingData

-- What `bzero` and `calloc` leave.
abbrev pub zero_sample : Sample
zero_sample = record {
  sample_time = 0;
  total_time = 0;
  cpu_usage = 0;
  memory_usage = 0;
  io_read_rate = 0;
  io_write_rate = 0;
  net_read_rate = 0;
  net_write_rate = 0;
  fs_read_rate = 0;
  fs_write_rate = 0;
}

abbrev pub zero_intent : ProcessIntent
zero_intent = record { intent = intent_start; payload = pos 0 }

abbrev pub zero_stat : Stat
zero_stat = record { st_mtime = 0; st_size = 0 }

-- fiveman_ncurses_screen_entry; the entry at a row is that of the state at that place.
pub record ScreenEntry : Type 0 where
  pub activity : CurrentActivity
  pub pid : ℤ
  pub age : ℤ
  pub sample : Sample
  pub stdout_active : Bool
  pub stderr_active : Bool

pub record StatusThread : Type 0 where
  pub exit : ℕ
  pub table : List ProcessState
  pub num_entries : ℕ
  pub cur_entries : List ScreenEntry
  pub prev_entries : List ScreenEntry
  pub directory : Text
