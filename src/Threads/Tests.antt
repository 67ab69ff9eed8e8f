-- ===== src/Threads/Tests.antt =====
-- The two threads on the simulated system, with one process.
use fiveman.Common.{ℕ, true, false, some, [], ◌∷◌, ◌≡◌, ◌≤◌, ◌*◌, ◌+◌, refl, arith, length}
use fiveman.Common.Int.{pos, is_positive}
use fiveman.Common.Text.{codes, show_int}
use fiveman.Machine.{Machine, Outcome, returned, Ensures}
use fiveman.Main.Begin.{begin}
use fiveman.Main.Sample
use fiveman.Main.Sample.{setting, web_started, web_started_lem, at_screen}
use fiveman.Process.Age.{lifetime, distance}
use fiveman.Process.{allocate, reflect_desired_intent, desires_intent}
use fiveman.Process.Converge.{
  converge, reap_zombie_processes, is_alive, child_process_status, current_activity,
}
use fiveman.Process.Environment.{get_env, new_environment, path_variable, port_variable}
use fiveman.Screen.Ending.{Returns}
use fiveman.Screen.Keys.{Ui, Key, initial_ui, press, test_exit, begin_exit, states_fit, leave}
use fiveman.Simulation.{Sim, sim, sim_sampling, sim_environ, boot, web_instruction}
use fiveman.StatusThread.{initial_entries, update_row, update_screen_entry}
use fiveman.System.{System}
use fiveman.System.Safety.{Safe}
use fiveman.System.Same.{Same-refl}
use fiveman.Threads.{
  Threads, first, Run, here, works, shows, prepare, prepared, reflect, reap, reaped_all,
  key_pressed, not_terminating, tested, joined, converge_one, converge_store, converged_all, update,
  update_store, updated_all, draw_row, drawn_all, stored, publish, lock_terminating, probe,
  none_alive, destroy, join, joining, terminating, sleeping, reflecting, wake,
}
use fiveman.Threads.Finish.{Finished, release-Finished}
use fiveman.Threads.Join.{Run-GoesOn}
use fiveman.Threads.Leaving.{Run-Left}
use fiveman.System.Leaving.{Left}
use fiveman.Threads.Next.{GoesOn}
use fiveman.Threads.Order.{Ordered, Run-Ordered}
use fiveman.Threads.Orphan.{racing, num_spawn, IsLeft, Run-orphan}
use fiveman.Threads.Progress.{Live, Run-Live}
use fiveman.Threads.Safety.{AllSafe, Run-Safe}
use fiveman.Types.{ProcessState, ScreenEntry, intent_start, intent_stop, stopped, zero_sample}

abbrev web : ProcessState
web = record (allocate web_instruction (pos 5000)) {
  stdout = some (codes "/tmp/out");
  stderr = some (codes "/tmp/err");
}

-- The status thread has taken the intent to start over, and `q` has been pressed behind that.
abbrev last_web : ProcessState
last_web = desires_intent (reflect_desired_intent web) intent_stop

abbrev terminating_ui : Ui
terminating_ui = record initial_ui { is_terminating = true; term_issued_at = 1003 }

abbrev later : Machine Sim
later = record { world = record { clock = 1005; live = [] }; calls = [] }

abbrev state_of : Outcome Sim ProcessState → ProcessState
state_of (returned p m) = p
state_of _ = web

abbrev machine_of : {A : Type 0} → Outcome Sim A → Machine Sim
machine_of (returned a m) = m
machine_of _ = boot

abbrev start_of_web : Outcome Sim ProcessState
start_of_web = converge sim sim_sampling sim_environ (codes "/app") last_web later

abbrev no_entry : ScreenEntry
no_entry = record {
  activity = stopped;
  pid = pos 0;
  age = pos 0;
  sample = zero_sample;
  stdout_active = false;
  stderr_active = false;
}

abbrev row_of : Outcome Sim (ProcessState × ScreenEntry) → ProcessState × ScreenEntry
row_of (returned r m) = r
row_of _ = (web, no_entry)

abbrev row_of_web : Outcome Sim (ProcessState × ScreenEntry)
row_of_web =
    update_row sim sim_sampling sim_environ 3 (stored last_web (state_of start_of_web))
      (machine_of start_of_web)

start_of_web_returns : start_of_web ≡ returned (state_of start_of_web) (machine_of start_of_web)
unfolding converge reflect_desired_intent desires_intent allocate get_env new_environment
    path_variable port_variable show_int
start_of_web_returns = refl

row_of_web_returns : row_of_web ≡ returned (row_of row_of_web) (machine_of row_of_web)
unfolding converge reflect_desired_intent desires_intent allocate get_env new_environment
    path_variable port_variable show_int update_row child_process_status update_screen_entry
row_of_web_returns = refl

abbrev entries_of : Outcome Sim (ScreenEntry × ScreenEntry) → ScreenEntry × ScreenEntry
entries_of (returned e m) = e
entries_of _ = (no_entry, no_entry)

abbrev first_entry : ScreenEntry
first_entry = (entries_of (initial_entries sim web boot)).0

abbrev begun : System Sim
begun = record { table = web ∷ []; ui = initial_ui; machine = boot }

abbrev at_start : Threads Sim
at_start = first begun (no_entry ∷ [])

abbrev at_race : Threads Sim
at_race = racing last_web terminating_ui later [] (first_entry ∷ []) (no_entry ∷ [])

-- The thread fills its entry, and the screen draws; the thread takes the intent over and reaps; then
-- `q` is pressed, and the screen draws again.
to_race : Run sim sim_sampling sim_environ (codes "/app") 3 1 5 at_start at_race
unfolding initial_entries update_screen_entry press test_exit begin_exit initial_ui current_activity
    reflect_desired_intent desires_intent reap_zombie_processes allocate lifetime distance
to_race =
    let r₁ = works _ _ _ _ (here at_start) (
      prepare at_start 0 web (entries_of (initial_entries sim web boot))
        (machine_of (initial_entries sim web boot)) refl refl refl) in
    let d₁ = shows _ _ _ _ r₁ (draw_row _ 0 web _ _ _ _ refl refl refl refl) in
    let d₂ = shows _ _ _ _ d₁ (drawn_all _ refl) in
    let r₂ = works _ _ _ _ d₂ (prepared _ refl) in
    let r₃ = works _ _ _ _ r₂ (reflect _ refl refl) in
    let r₄ = works _ _ _ _ r₃ (reap _ 0 (reflect_desired_intent web) tt _ refl refl refl) in
    let r₅ = works _ _ _ _ r₄ (reaped_all _ refl) in
    let r₆ = shows _ _ _ _ r₅ (key_pressed _ (Key.letter b'q') _ _ refl refl refl) in
    let r₇ = shows _ _ _ _ r₆ (not_terminating _ refl refl) in
    let r₈ = shows _ _ _ _ r₇ (tested _ terminating_ui (last_web ∷ []) false _ refl refl) in
    let d₃ = shows _ _ _ _ r₈ (draw_row _ 0 last_web _ _ _ _ refl refl refl refl) in
    shows _ _ _ _ d₃ (drawn_all _ refl)

no_pid : is_positive last_web.pid ≡ false
unfolding desires_intent reflect_desired_intent allocate
no_pid = refl

starts : last_web.intent.intent ≡ intent_start
unfolding desires_intent reflect_desired_intent allocate
starts = refl

Run-orphan_example :
    (t : Threads Sim) × Run sim sim_sampling sim_environ (codes "/app") 3 1 7 at_race t
    × (t.main_pc ≡ joined)
    × (t.system.table ≡ stored (stored last_web (state_of start_of_web)) (row_of row_of_web).0 ∷ [])
    × (num_spawn t.log ≡ 1)
    × IsLeft [] t.log
    × (t.system.machine.calls ≡ [])
Run-orphan_example =
    Run-orphan sim sim_sampling sim_environ (codes "/app") 3 last_web (state_of start_of_web)
      (row_of row_of_web).0 (row_of row_of_web).1 terminating_ui later (machine_of start_of_web)
      (machine_of row_of_web) [] (first_entry ∷ []) (no_entry ∷ []) no_pid starts refl
      start_of_web_returns row_of_web_returns

-- From the screen of a started main to its end: `q` is pressed before the thread has taken an intent
-- over, so nothing is started.
abbrev screen : Threads Sim
screen = first (begin web_started at_screen) web_started.thread.cur_entries

abbrev quit_web : ProcessState
quit_web = desires_intent Sample.web intent_stop

abbrev quit_row : Machine Sim → Outcome Sim ProcessState
quit_row = converge sim sim_sampling sim_environ (codes "/srv") (reflect_desired_intent quit_web)

abbrev clock_at : ℕ → Machine Sim
clock_at n = record { world = record { clock = n; live = [] }; calls = [] }

abbrev shown_quit : Outcome Sim (ProcessState × ScreenEntry)
shown_quit =
    update_row sim sim_sampling sim_environ 3 (state_of (quit_row (clock_at 1007))) (clock_at 1007)

abbrev stopping_ui : Ui
stopping_ui = record initial_ui { is_terminating = true; term_issued_at = 1005 }

to_joined :
    (t : Threads Sim) × Run sim sim_sampling sim_environ (codes "/srv") 3 1 12 screen t
    × (t.main_pc ≡ joined)
unfolding initial_entries update_screen_entry press test_exit begin_exit initial_ui is_alive
    reflect_desired_intent desires_intent reap_zombie_processes allocate converge update_row
    child_process_status current_activity lifetime distance
to_joined =
    let entries = initial_entries sim Sample.web at_screen in
    let r₁ =
      works _ _ _ _ (here screen)
        (prepare screen 0 Sample.web (entries_of entries) (machine_of entries) refl refl refl) in
    let r₂ = works _ _ _ _ r₁ (prepared _ refl) in
    let d₁ = shows _ _ _ _ r₂ (draw_row _ 0 Sample.web _ _ _ _ refl refl refl refl) in
    let d₂ = shows _ _ _ _ d₁ (drawn_all _ refl) in
    let r₃ = shows _ _ _ _ d₂ (key_pressed _ (Key.letter b'q') _ _ refl refl refl) in
    let r₄ = shows _ _ _ _ r₃ (not_terminating _ refl refl) in
    let r₅ = shows _ _ _ _ r₄ (tested _ stopping_ui (quit_web ∷ []) false _ refl refl) in
    let d₃ = shows _ _ _ _ r₅ (draw_row _ 0 quit_web _ _ _ _ refl refl refl refl) in
    let d₄ = shows _ _ _ _ d₃ (drawn_all _ refl) in
    let r₆ = works _ _ _ _ d₄ (reflect _ refl refl) in
    let r₇ = works _ _ _ _ r₆ (reap _ 0 (reflect_desired_intent quit_web) tt _ refl refl refl) in
    let r₈ = works _ _ _ _ r₇ (reaped_all _ refl) in
    let r₉ = works _ _ _ _ r₈ (
      converge_one _ 0 (reflect_desired_intent quit_web) (state_of (quit_row (clock_at 1007)))
        (clock_at 1007) refl refl refl) in
    let w₁ = works _ _ _ _ r₉ (converge_store _ 0 _ _ refl refl) in
    let s₁ = works _ _ _ _ w₁ (converged_all _ refl) in
    let s₂ = works _ _ _ _ s₁ (
      update _ 0 (state_of (quit_row (clock_at 1007))) (row_of shown_quit).0 (row_of shown_quit).1
        (machine_of shown_quit) refl refl refl) in
    let w₂ = works _ _ _ _ s₂ (update_store _ 0 _ _ _ refl refl) in
    let s₃ = works _ _ _ _ w₂ (updated_all _ refl) in
    let s₄ = shows _ _ _ _ s₃ (key_pressed _ Key.err _ _ refl refl refl) in
    let s₅ = shows _ _ _ _ s₄ (lock_terminating _ refl refl) in
    let s₆ = shows _ _ _ _ s₅ (probe _ 0 0 (row_of shown_quit).0 false _ refl refl refl) in
    let s₇ = shows _ _ _ _ s₆ (none_alive _ refl) in
    let s₈ = shows _ _ _ _ s₇ (tested _ _ _ true _ refl refl) in
    let s₉ = shows _ _ _ _ s₈ (destroy _ refl) in
    let t₁ = works _ _ _ _ s₉ (publish _ refl refl) in
    (_, shows _ _ _ _ t₁ (join _ refl refl), refl)

release-Finished_example : Finished sim sim_sampling web_started to_joined.0
unfolding states_fit
release-Finished_example =
    release-Finished sim sim_sampling sim_environ 3 setting boot at_screen web_started 12
      to_joined.0 tt web_started_lem refl to_joined.1 to_joined.2

begun-Safe : Safe (web ∷ []) begun
unfolding initial_ui
begun-Safe = record { disciplined = tt; same = (Same-refl web, tt); in_range = omega arith }

begun-AllSafe : AllSafe (web ∷ []) at_start
begun-AllSafe = record { system = begun-Safe; log = tt; stores = tt }

Run-Safe_example : AllSafe (web ∷ []) at_race
Run-Safe_example =
    Run-Safe sim sim_sampling sim_environ (codes "/app") 3 (web ∷ []) 5 at_start at_race to_race
      begun-AllSafe

Run-Live_example : Live sim sim_sampling sim_environ (codes "/app") 3 (web ∷ []) at_race
Run-Live_example =
    Run-Live sim sim_sampling sim_environ (codes "/app") 3 (web ∷ []) 5 at_start at_race
      begun-AllSafe (omega arith) (omega arith) to_race

at_start-Ordered : Ordered at_start
unfolding initial_ui
at_start-Ordered = ground arith

Run-Ordered_example : Ordered at_race
Run-Ordered_example =
    Run-Ordered sim sim_sampling sim_environ (codes "/app") 3 1 5 at_start at_race to_race
      at_start-Ordered

-- The thread has just been asked to end, and sleeps.
abbrev asked : Threads Sim
asked = record {
  system = record begun { ui = record terminating_ui { exit_fiveman_immediately = true } };
  log = [];
  pc = sleeping;
  drawn = no_entry ∷ [];
  entries = no_entry ∷ [];
  exit = 1;
  main_pc = joining;
}

asked-Safe : Safe (web ∷ []) asked.system
unfolding initial_ui
asked-Safe = record { disciplined = tt; same = (Same-refl web, tt); in_range = omega arith }

asked-AllSafe : AllSafe (web ∷ []) asked
asked-AllSafe = record { system = asked-Safe; log = tt; stores = tt }

asked-Ordered : Ordered asked
unfolding initial_ui
asked-Ordered = ground arith

woken :
    Run sim sim_sampling sim_environ (codes "/app") 3 1 1 asked (record asked { pc = reflecting })
woken = works 0 asked asked _ (here asked) (wake asked refl)

Run-GoesOn_example :
    (1 ≤ 6 * length (web ∷ []) + 6)
    × GoesOn sim sim_sampling sim_environ (codes "/app") 3 1 (record asked { pc = reflecting })
Run-GoesOn_example =
    Run-GoesOn sim sim_sampling sim_environ (codes "/app") 3 (web ∷ []) 0 1 asked asked
      (record asked { pc = reflecting }) asked-AllSafe asked-Ordered tt (here asked) refl woken

-- While fiveman terminates no key has come.
abbrev behind_key : Threads Sim
behind_key = record at_race { main_pc = terminating }

no_key : Run sim sim_sampling sim_environ (codes "/app") 3 1 0 at_race behind_key
unfolding press
no_key =
    shows 0 at_race at_race behind_key (here at_race)
      (key_pressed at_race Key.err terminating_ui (last_web ∷ []) refl refl refl)

at_race-Ordered : Ordered at_race
unfolding initial_ui
at_race-Ordered = ground arith

Run-Left_example :
    Returns (leave sim terminating_ui (last_web ∷ []) later)
    × Ensures
        (leave sim terminating_ui (last_web ∷ []) later)
        (λ r m'. Left terminating_ui r [] m'.calls)
Run-Left_example =
    Run-Left sim sim_sampling sim_environ (codes "/app") 3 1 0 at_race behind_key no_key
      at_race-Ordered refl
