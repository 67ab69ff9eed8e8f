-- ===== src/Main/Sample.antt =====
-- A start in a directory with a Procfile of one line, for the tests.
use fiveman.StatusThread.{status_thread_create, initial_entries, update_screen_entry}
use fiveman.Process.Output.{stdout_has_new_entries, stderr_has_new_entries}
use fiveman.Process.Age.{lifetime, distance}
use fiveman.Process.Converge.{current_activity}
use fiveman.Process.{allocate, initialize, init_sampling}
use fiveman.Common.{true, false, none, some, [], ◌∷◌, ◌++◌, ◌≡◌, refl}
use fiveman.Common.Int.{pos}
use fiveman.Common.Text.{Text, codes, atoi, strtol, atoi_spaces, atoi_signed, atoi_digits}
use fiveman.Machine.{Machine, returned}
use fiveman.Main.{initial_port, set_up, set_up_table}
use fiveman.Main.Program.{
  Setting, Started, start_up, sudo_id, parse_and_begin, begin_with, begin_threads,
}
use fiveman.Options.{
  root_option, parse_options, take_options, take_option, find_directory, find_procfile,
  default_procfile, select_command,
}
use fiveman.PagerFork.Lifecycle.{tail_of, pager_fork_create}
use fiveman.Procfile.{
  initial, on_delimiter, parse_procfile, read_pieces, scan_line, scan_byte, set_exec, token,
  skip_blanks, finish, instruction_allocate,
}
use fiveman.Simulation.{Sim, sim, sim_sampling, boot, web_instruction}
use fiveman.Signals.{
  Actions, unset, sig_dfl, on_sigchld, on_sigint, sa_restart, sa_nocldstop, sa_nocldwait,
  install_signal_handlers, sigaction,
}
use fiveman.Table.{table_allocate, each}
use fiveman.Types.{ProcessState, ScreenEntry, intent_start, starting_up, zero_sample}

abbrev pub untouched : Actions
untouched = record {
  for_sigchld = unset sig_dfl;
  for_sigint = unset sig_dfl;
  for_sigterm = unset sig_dfl;
  for_sigpipe = unset sig_dfl;
}

abbrev pub one_line : Text
one_line = codes "web: bin/web" ++ b'\n' ∷ []

-- A start in /srv under sudo, with one process.
abbrev pub setting : Setting
setting = record {
  file_filedes = (3, 4);
  confirm_filedes = (5, 6);
  fork = pos 77;
  descriptors = 0 ∷ 1 ∷ 2 ∷ [];
  sudo_gid = some (codes "20");
  sudo_uid = some (codes "501");
  sigaction_chld = pos 0;
  sigaction_int = pos 0;
  actions = untouched;
  port_env = none;
  answers = root_option (codes "/srv") ∷ [];
  word = none;
  getwd = none;
  errno = pos 0;
  readable = λ _. true;
  bytes = λ _. some one_line;
}

-- What start_up makes of it.
abbrev pub web : ProcessState
web = record (allocate web_instruction (pos 5000)) {
  intent = record { intent = intent_start; payload = pos 0 };
  stdout = some (codes "/tmp/fiveman-web-stdout.XXXXX");
  stderr = some (codes "/tmp/fiveman-web-stderr.XXXXX");
}

abbrev pub starting_entry : ScreenEntry
starting_entry = record {
  activity = starting_up;
  pid = pos 0;
  age = pos 1000;
  sample = zero_sample;
  stdout_active = false;
  stderr_active = false;
}

abbrev pub web_started : Started
web_started = record {
  pager_fork = tail_of (3, 4) (5, 6) (pos 77);
  descriptors = 5 ∷ 4 ∷ 0 ∷ 1 ∷ 2 ∷ [];
  setegid = some 20;
  seteuid = some 501;
  actions = record untouched {
    for_sigchld = record {
      handler = on_sigchld;
      flags = some (sa_restart ∷ sa_nocldstop ∷ sa_nocldwait ∷ []);
    };
    for_sigint = unset on_sigint;
  };
  options = record {
    directory = codes "/srv";
    procfile = codes "/srv/Procfile";
    port = pos 5000;
    command = some (codes "start");
  };
  num_instructions = 1;
  application_state_table = web ∷ [];
  thread = record {
    exit = 0;
    table = web ∷ [];
    num_entries = 1;
    cur_entries = starting_entry ∷ [];
    prev_entries = record starting_entry { age = pos 1001 } ∷ [];
    directory = codes "/srv";
  };
}

abbrev pub at_screen : Machine Sim
at_screen = record { world = record { clock = 1002; live = [] }; calls = [] }

pub web_started_lem : start_up sim sim_sampling setting boot ≡ returned web_started at_screen
unfolding start_up parse_and_begin begin_with begin_threads pager_fork_create
    install_signal_handlers sigaction initial_port parse_options take_options take_option
    find_directory find_procfile default_procfile select_command set_up set_up_table parse_procfile
    read_pieces scan_line scan_byte on_delimiter set_exec token skip_blanks finish initial
    instruction_allocate table_allocate allocate each initialize status_thread_create
    initial_entries update_screen_entry current_activity lifetime stdout_has_new_entries
    stderr_has_new_entries init_sampling sudo_id atoi strtol atoi_spaces atoi_signed atoi_digits
    distance
web_started_lem = refl
