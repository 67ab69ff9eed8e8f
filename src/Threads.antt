-- ===== src/Threads.antt =====
-- The two threads of src/main.c with the place that each has reached: the loop of
-- fiveman_update_thread_main from its first line to its end, and draw_screen from the first row that
-- is drawn to the join.
--
-- The moves of the two threads and the signals come between each other as they may: the status
-- thread converges and samples without the lock, also while the screen holds it to probe and to
-- signal the processes one after the other. The work of the status thread on a process is two moves:
-- its calls, with what it has read of the process, and the storing of what it has computed, in which
-- the fields that the screen has written in between stay. Each thread has a log of its own, so that
-- nothing is said of how the calls of the one stand between those of the other; the calls of the
-- handlers are in the log of the screen. What other calls change between two calls of one move is up
-- to the world, of which nothing is known.
--
-- The arrays of entries and of states are taken as long as the table, which they are unless the
-- Procfile ends inside a command (Main/SetUp).
--
-- The thread's two parts under the lock are one move each, and wait for it. The drawing of a row,
-- for which the lock is taken, is one move as well, and so are the two tests at the end of the
-- screen's loop with what follows them. The wait for the pager may have no end. A call that fails an
-- assertion, exits or crashes ends the program, and is no move.
pub mod Stored
pub mod Safety
pub mod Order
pub mod Next
pub mod Join
pub mod Progress
pub mod Finish
pub mod Orphan
pub mod Leaving
mod Tests
use fiveman.Common.{
  ℕ, zero, suc, ◌+◌, Bool, true, false, not, some, List, [], ◌≡◌, map, length, get_elem?, set, ◌==◌,
  ◌||◌, if◌then◌else◌,
}
use fiveman.Common.Int.{ℤ, pos, ltb_ℤ}
use fiveman.Common.Text.{Text}
use fiveman.Machine.{Posix, Sampling, Machine, Call, returned, sys_time}
use fiveman.Process.Converge.{is_alive, signal, converge, reap_zombie_processes, current_activity}
use fiveman.Process.{sigkill, sigterm}
use fiveman.Process.Age.{distance, lifetime}
use fiveman.Screen.Keys.{Ui, Key, letter, handle_sigint, press, test_exit, term_timeout}
use fiveman.StatusThread.{initial_entries, update_row}
use fiveman.System.{System}
use fiveman.Table.{table_reflect_desired_intent}
use fiveman.Types.{ProcessState, ScreenEntry, CurrentActivity, stopped, zero_sample}

-- Where the status thread stands; the number is the row that it comes to next. `preparing` is the
-- loop that fills its own entries, `storing` and `showing` have made the calls for a row and not yet
-- stored the state, and `publishing` is before the copy into the shared entries.
pub data Pc : Type 0 where
  preparing : ℕ → Pc
  reflecting : Pc
  reaping : ℕ → Pc
  converging : ℕ → Pc
  storing : (row : ℕ) → ProcessState → Pc
  updating : ℕ → Pc
  showing : (row : ℕ) → ProcessState → ScreenEntry → Pc
  publishing : Pc
  sleeping : Pc
  ended : Pc

-- Where the main thread stands: at the row that is drawn next; at `getch`; in the wait for the pager,
-- for the key `o` or `e`; at `if (is_terminating)`; in its body under the lock,
-- where `probing` has the row that it comes to next and the number found alive, and `signalling` the
-- row and the signal; at the two tests behind it; behind the loop; in pthread_join, or behind it.
pub data MainPc : Type 0 where
  drawing : (row : ℕ) → MainPc
  paging : (key : ℕ) → MainPc
  waiting : MainPc
  terminating : MainPc
  probing : (row : ℕ) → (n : ℕ) → MainPc
  deciding : MainPc
  signalling : (row : ℕ) → (signal : ℤ) → MainPc
  testing : MainPc
  left : MainPc
  joining : MainPc
  joined : MainPc

abbrev pub holds_lock : MainPc → Bool
holds_lock (probing row n) = true
holds_lock deciding = true
holds_lock (signalling row signal) = true
holds_lock _ = false

-- `drawn` is cur_draw_entries of the thread, `entries` and `exit` those of thread_info. `log` has the
-- calls of the status thread; those of the screen and of the handlers are in `system`.
pub record Threads (W : Type 0) : Type 0 where
  pub system : System W
  pub log : List Call
  pub pc : Pc
  pub drawn : List ScreenEntry
  pub entries : List ScreenEntry
  pub exit : ℕ
  pub main_pc : MainPc

abbrev pub with_table : {W : Type 0} → System W → List ProcessState → System W
with_table s table = record s { table = table }

abbrev pub with_machine : {W : Type 0} → System W → Machine W → System W
with_machine s m = record s { machine = m }

abbrev pub with_ui : {W : Type 0} → System W → Ui → System W
with_ui s ui = record s { ui = ui }

-- `diff >= term_timeout`
abbrev pub is_late : ℕ → Ui → Bool
is_late current ui = not (ltb_ℤ (distance current ui.term_issued_at) (pos term_timeout))

-- What the status thread stores in a state: all but the fields that the screen writes.
abbrev pub stored : ProcessState → ProcessState → ProcessState
stored now s = record s {
  desired_intent = now.desired_intent;
  stdout_paged_at = now.stdout_paged_at;
  stderr_paged_at = now.stderr_paged_at;
}

-- The machine as the status thread calls it, and what its calls leave.
abbrev pub own : {W : Type 0} → Threads W → Machine W
own s = record (s.system.machine) { calls = s.log }

abbrev pub worked : {W : Type 0} → Threads W → Machine W → Threads W
worked s m = record s {
  system = record (s.system) { machine = record (s.system.machine) { world = m.world } };
  log = m.calls;
}

-- The keys for a page of output.
abbrev pub is_page : Key → Bool
is_page (letter c) = c == b'o' || c == b'e'
is_page key = false

-- What `bzero` makes of an entry.
abbrev zero_entry : ScreenEntry
zero_entry = record {
  activity = stopped;
  pid = pos 0;
  age = pos 0;
  sample = zero_sample;
  stdout_active = false;
  stderr_active = false;
}

-- Behind fiveman_status_thread_create, when the screen is about to draw. The thread's own
-- array has as many entries as the shared one, which are zero.
abbrev pub first : {W : Type 0} → System W → List ScreenEntry → Threads W
first s entries = record {
  system = s;
  log = [];
  pc = preparing 0;
  drawn = map (λ _. zero_entry) entries;
  entries = entries;
  exit = 0;
  main_pc = drawing 0;
}

module _ {W : Type 0} (os : Posix W) (sampling : Sampling W) (environ : List Text)
    (directory : Text) (fuel : ℕ) (total : ℕ) where
  -- A move of the status thread.
  pub data Work : Threads W → Threads W → Type 0 where
    prepare :
        (s : Threads W) (i : ℕ) (p : ProcessState) (e : ScreenEntry × ScreenEntry) (m : Machine W)
        → s.pc ≡ preparing i
        → get_elem? s.system.table i ≡ some p
        → initial_entries os p (own s) ≡ returned e m
        → Work s (record (worked s m) { pc = preparing (suc i); drawn = set s.drawn i e.0 })
    prepared :
        (s : Threads W)
        → s.pc ≡ preparing (length s.system.table)
        → Work s (record s { pc = reflecting })
    reflect :
        (s : Threads W)
        → s.pc ≡ reflecting
        → holds_lock s.main_pc ≡ false
        → Work s (record s {
          system = with_table s.system (table_reflect_desired_intent s.system.table);
          pc = reaping 0;
        })
    reap :
        (s : Threads W) (i : ℕ) (p : ProcessState) (u : Unit {0}) (m : Machine W)
        → s.pc ≡ reaping i
        → get_elem? s.system.table i ≡ some p
        → reap_zombie_processes os fuel p (own s) ≡ returned u m
        → Work s (record (worked s m) { pc = reaping (suc i) })
    reaped_all :
        (s : Threads W)
        → s.pc ≡ reaping (length s.system.table)
        → Work s (record s { pc = converging 0 })
    converge_one :
        (s : Threads W) (i : ℕ) (p p' : ProcessState) (m : Machine W)
        → s.pc ≡ converging i
        → get_elem? s.system.table i ≡ some p
        → converge os sampling environ directory p (own s) ≡ returned p' m
        → Work s (record (worked s m) { pc = storing i p' })
    converge_store :
        (s : Threads W) (i : ℕ) (p' now : ProcessState)
        → s.pc ≡ storing i p'
        → get_elem? s.system.table i ≡ some now
        → Work s (record s {
          system = with_table s.system (set s.system.table i (stored now p'));
          pc = converging (suc i);
        })
    converged_all :
        (s : Threads W)
        → s.pc ≡ converging (length s.system.table)
        → Work s (record s { pc = updating 0 })
    update :
        (s : Threads W) (i : ℕ) (p p' : ProcessState) (e : ScreenEntry) (m : Machine W)
        → s.pc ≡ updating i
        → get_elem? s.system.table i ≡ some p
        → update_row os sampling environ fuel p (own s) ≡ returned (p', e) m
        → Work s (record (worked s m) { pc = showing i p' e })
    update_store :
        (s : Threads W) (i : ℕ) (p' now : ProcessState) (e : ScreenEntry)
        → s.pc ≡ showing i p' e
        → get_elem? s.system.table i ≡ some now
        → Work s (record s {
          system = with_table s.system (set s.system.table i (stored now p'));
          pc = updating (suc i);
          drawn = set s.drawn i e;
        })
    updated_all :
        (s : Threads W)
        → s.pc ≡ updating (length s.system.table)
        → Work s (record s { pc = publishing })
    publish :
        (s : Threads W)
        → s.pc ≡ publishing
        → holds_lock s.main_pc ≡ false
        → Work s (record s { entries = s.drawn; pc = if s.exit == 1 then ended else sleeping })
    wake : (s : Threads W) → s.pc ≡ sleeping → Work s (record s { pc = reflecting })

  -- A move of the main thread. `none` of `press` is a crash and no move. The state is marked when the
  -- pager has ended, as it is by then.
  pub data Show : Threads W → Threads W → Type 0 where
    draw_row :
        (s : Threads W) (row : ℕ) (p : ProcessState) (activity : CurrentActivity) (age : ℤ)
        (m m' : Machine W)
        → s.main_pc ≡ drawing row
        → get_elem? s.system.table row ≡ some p
        → current_activity os p s.system.machine ≡ returned activity m
        → lifetime os p m ≡ returned age m'
        → Show s (record s { system = with_machine s.system m'; main_pc = drawing (suc row) })
    drawn_all :
        (s : Threads W)
        → s.main_pc ≡ drawing (length s.system.table)
        → Show s (record s { main_pc = waiting })
    page_begins :
        (s : Threads W) (c : ℕ)
        → s.main_pc ≡ waiting
        → is_page (letter c) ≡ true
        → Show s (record s { main_pc = paging c })
    page_ends :
        (s : Threads W) (c : ℕ) (ui : Ui) (table : List ProcessState)
        → s.main_pc ≡ paging c
        → press (letter c) total s.system.ui s.system.table ≡ some (ui, table)
        → Show s (record s {
          system = record (s.system) { table = table; ui = ui };
          main_pc = terminating;
        })
    key_pressed :
        (s : Threads W) (key : Key) (ui : Ui) (table : List ProcessState)
        → s.main_pc ≡ waiting
        → is_page key ≡ false
        → press key total s.system.ui s.system.table ≡ some (ui, table)
        → Show s (record s {
          system = record (s.system) { table = table; ui = ui };
          main_pc = terminating;
        })
    lock_terminating :
        (s : Threads W)
        → s.main_pc ≡ terminating
        → s.system.ui.is_terminating ≡ true
        → Show s (record s { main_pc = probing 0 0 })
    probe :
        (s : Threads W) (row n : ℕ) (p : ProcessState) (alive : Bool) (m : Machine W)
        → s.main_pc ≡ probing row n
        → get_elem? s.system.table row ≡ some p
        → is_alive os p s.system.machine ≡ returned alive m
        → Show s (record s {
          system = with_machine s.system m;
          main_pc = probing (suc row) (if alive then suc n else n);
        })
    none_alive :
        (s : Threads W)
        → s.main_pc ≡ probing (length s.system.table) 0
        → Show s (record s {
          system = with_ui s.system (record (s.system.ui) { exit_fiveman_immediately = true });
          main_pc = testing;
        })
    some_alive :
        (s : Threads W) (n : ℕ)
        → s.main_pc ≡ probing (length s.system.table) (suc n)
        → Show s (record s { main_pc = deciding })
    decide :
        (s : Threads W) (current : ℕ) (late : Bool) (m : Machine W)
        → s.main_pc ≡ deciding
        → sys_time os s.system.machine ≡ returned current m
        → is_late current s.system.ui ≡ late
        → Show s (record s {
          system = record (s.system) {
            ui = record (s.system.ui) { exit_fiveman_immediately = late };
            machine = m;
          };
          main_pc = signalling 0 (if late then sigkill else sigterm);
        })
    signal_one :
        (s : Threads W) (row : ℕ) (n : ℤ) (p : ProcessState) (answer : ℤ) (m : Machine W)
        → s.main_pc ≡ signalling row n
        → get_elem? s.system.table row ≡ some p
        → signal os n p s.system.machine ≡ returned answer m
        → Show s (record s { system = with_machine s.system m; main_pc = signalling (suc row) n })
    signalled_all :
        (s : Threads W) (n : ℤ)
        → s.main_pc ≡ signalling (length s.system.table) n
        → Show s (record s { main_pc = testing })
    not_terminating :
        (s : Threads W)
        → s.main_pc ≡ terminating
        → s.system.ui.is_terminating ≡ false
        → Show s (record s { main_pc = testing })
    tested :
        (s : Threads W) (ui : Ui) (table : List ProcessState) (ends : Bool) (m : Machine W)
        → s.main_pc ≡ testing
        → test_exit os s.system.ui s.system.table s.system.machine ≡ returned (ui, table, ends) m
        → Show s (record s {
          system = record { table = table; ui = ui; machine = m };
          main_pc = if ends then left else drawing 0;
        })
    destroy : (s : Threads W) → s.main_pc ≡ left → Show s (record s { exit = 1; main_pc = joining })
    join :
        (s : Threads W)
        → s.main_pc ≡ joining
        → s.pc ≡ ended
        → Show s (record s { main_pc = joined })

  -- A signal handler, with handle_sigchld once for each process, or anything else in the world.
  pub data Outside : Threads W → Threads W → Type 0 where
    sigint :
        (s : Threads W)
        → Outside s (record s { system = record (s.system) { ui = handle_sigint s.system.ui } })
    sigchld :
        (s : Threads W) (i : ℕ) (p : ProcessState) (u : Unit {0}) (m : Machine W)
        → get_elem? s.system.table i ≡ some p
        → reap_zombie_processes os fuel p s.system.machine ≡ returned u m
        → Outside s (record s { system = with_machine s.system m })
    elsewhere :
        (s : Threads W) (w : W)
        → Outside s
            (record s { system = with_machine s.system (record (s.system.machine) { world = w }) })

  -- Any number of moves; the number counts those of the status thread.
  pub data Run : ℕ → Threads W → Threads W → Type 0 where
    here : (s : Threads W) → Run zero s s
    works : (n : ℕ) (s t u : Threads W) → Run n s t → Work t u → Run (suc n) s u
    shows : (n : ℕ) (s t u : Threads W) → Run n s t → Show t u → Run n s u
    outside : (n : ℕ) (s t u : Threads W) → Run n s t → Outside t u → Run n s u
