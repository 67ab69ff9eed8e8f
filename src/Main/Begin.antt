-- ===== src/Main/Begin.antt =====
-- From the first line of main to the screen.
use fiveman.Common.{
  ℕ, ◌<◌, Bool, true, false, Option, none, some, List, [], ◌≡◌, refl, ◌&&◌, Bool-cases, inl, inr,
}
use fiveman.Common.Int.{ℤ}
use fiveman.Machine.{Posix, Sampling, Machine, Ensures}
use fiveman.Main.{initial_port, set_up, set_up_table}
use fiveman.Main.Program.{
  is_set, Setting, Started, begin_threads, begin_with, parse_and_begin, start_up,
}
use fiveman.Main.SetUp.{Ready, initialize-Keeps, set_up-Ready}
use fiveman.Options.{Options, Result, done, exited, failed, parse_options}
use fiveman.PagerFork.Lifecycle.{Fork, Created, parent, child}
use fiveman.Process.Converge.Discipline.{Disciplined, Keeps}
use fiveman.Procfile
use fiveman.Procfile.{Instruction, initial, parsed, aborted, out_of_fuel, parse_procfile}
use fiveman.Procfile.Occupied.{parse_procfile-Occupied}
use fiveman.Procfile.Counting.{in_command}
use fiveman.Procfile.Reference.{run}
use fiveman.Screen.Keys.{initial_ui, states_fit}
use fiveman.Signals.{Actions, install_signal_handlers}
use fiveman.StatusThread.{status_thread_create}
use fiveman.StatusThread.Creation.{status_thread_create_lem}
use fiveman.System.{System}
use fiveman.System.Safety.{Safe}
use fiveman.Table.{table_allocate, table_initialize}
use fiveman.Table.Loops.{each-Keeps, Logged, Ensures-and_then, Ensures_true, Ensures_both}
use fiveman.Types.{ProcessState, StatusThread}

-- The state of the screen and of the thread at the beginning.
abbrev pub begin : {W : Type 0} → Started → Machine W → System W
begin r m = record { table = r.application_state_table; ui = initial_ui; machine = m }

-- The table and the number that the arrays are sized by, for the bytes of the Procfile.
abbrev pub ReadyOf : {W : Type 0} → Option (List ℕ) → ℕ × List ProcessState → Machine W → Type 0
ReadyOf none r m = ⊥
ReadyOf (some file) r m = Ready (in_command (run initial [] file).0) r m

Ready-later :
    {W : Type 0} (b : Bool) (r : ℕ × List ProcessState) (m m' : Machine W)
    → Disciplined m'.calls
    → Ready b r m
    → Ready b r m'
Ready-later false r m m' d h = (
  h.0,
  h.1,
  h.2,
  λ k. record { disciplined = d; same = (h.3 k).same; in_range = (h.3 k).in_range },
)
Ready-later true r m m' d h = h

ReadyOf-later :
    {W : Type 0} (bytes : Option (List ℕ)) (r : ℕ × List ProcessState) (m m' : Machine W)
    → Disciplined m'.calls
    → ReadyOf bytes r m
    → ReadyOf bytes r m'
ReadyOf-later none r m m' d h = h
ReadyOf-later (some file) r m m' d h = Ready-later (in_command (run initial [] file).0) r m m' d h

Ready-fits :
    {W : Type 0} (b : Bool) (r : ℕ × List ProcessState) (m : Machine W)
    → Ready b r m
    → states_fit r.0 r.1 ≡ true
    → 0 < r.0
    → Safe r.1 (record { table = r.1; ui = initial_ui; machine = m })
Ready-fits false r m h fits k = h.3 k
Ready-fits true r m h fits k = cc

-- A table that fits the arrays makes a safe state.
pub ReadyOf-fits :
    {W : Type 0} (bytes : Option (List ℕ)) (r : ℕ × List ProcessState) (m : Machine W)
    → ReadyOf bytes r m
    → states_fit r.0 r.1 ≡ true
    → 0 < r.0
    → Safe r.1 (record { table = r.1; ui = initial_ui; machine = m })
ReadyOf-fits none r m h fits k = elim h [ ]
ReadyOf-fits (some file) r m h fits k = Ready-fits (in_command (run initial [] file).0) r m h fits k

module _ {W : Type 0} (os : Posix W) (sampling : Sampling W) where
  set_up_table-Keeps : (o : Procfile.Outcome) (port : ℤ) → Keeps (set_up_table os sampling o port)
  unfolding set_up_table
  set_up_table-Keeps (parsed num is) port m d =
      let states = table_allocate is port in
      Ensures-and_then Logged Logged (table_initialize os sampling states m) _
        (each-Keeps _ (initialize-Keeps os sampling) states m d) (λ ts m' d'. d')
  set_up_table-Keeps aborted port m d = tt
  set_up_table-Keeps out_of_fuel port m d = tt

  set_up-Keeps : (bytes : Option (List ℕ)) (port : ℤ) → Keeps (set_up os sampling bytes port)
  unfolding set_up
  set_up-Keeps bytes port = set_up_table-Keeps (parse_procfile bytes) port

  set_up_table-num :
      (o : Procfile.Outcome) (port : ℤ) (m : Machine W)
      → ((n : ℕ) (is : List Instruction) → o ≡ parsed n is → 0 < n)
      → Ensures (set_up_table os sampling o port m) (λ r _. 0 < r.0)
  unfolding set_up_table
  set_up_table-num (parsed num is) port m h =
      Ensures-and_then (λ _ _. Unit {0}) (λ r _. 0 < r.0)
        (table_initialize os sampling (table_allocate is port) m) _ (Ensures_true _)
        (λ ts m' _. h num is refl)
  set_up_table-num aborted port m h = tt
  set_up_table-num out_of_fuel port m h = tt

  set_up-num :
      (bytes : Option (List ℕ)) (port : ℤ) (m : Machine W)
      → Ensures (set_up os sampling bytes port m) (λ r _. 0 < r.0)
  unfolding set_up
  set_up-num bytes port m =
      set_up_table-num (parse_procfile bytes) port m (parse_procfile-Occupied bytes)

  unreadable : (port : ℤ) (m : Machine W) → Ensures (set_up os sampling none port m) (ReadyOf none)
  unfolding set_up set_up_table parse_procfile
  unreadable port m = tt

  set_up-ReadyOf :
      (bytes : Option (List ℕ)) (port : ℤ) (m : Machine W)
      → Disciplined m.calls
      → Ensures (set_up os sampling bytes port m) (ReadyOf bytes)
  set_up-ReadyOf (some file) port m d = set_up-Ready os sampling file port m d
  set_up-ReadyOf none port m d = unreadable port m

-- What main has established when the screen begins. `arrays` says whether the table fits the arrays
-- of the screen and of the thread.
pub record IsStarted {W : Type 0} (e : Setting) (r : Started) (m : Machine W) : Type 0 where
  pub options :
      parse_options e.answers e.word e.getwd e.errno (initial_port e.port_env) ≡ done r.options
  pub usable :
      is_set r.options.command && e.readable r.options.directory && e.readable r.options.procfile
      ≡ true
  pub handlers : install_signal_handlers e.sigaction_chld e.sigaction_int e.actions ≡ done r.actions
  pub shared : r.thread.table ≡ r.application_state_table
  pub occupied : 0 < r.num_instructions
  pub arrays :
      ReadyOf (e.bytes r.options.procfile) (r.num_instructions, r.application_state_table) m
  pub disciplined : Disciplined m.calls

module _ {W : Type 0} (os : Posix W) (sampling : Sampling W) (e : Setting) where
  abbrev all_usable : Options → Bool
  all_usable o = is_set o.command && e.readable o.directory && e.readable o.procfile

  begin_threads-IsStarted :
      (fork : Fork) (descriptors : List ℕ) (actions : Actions) (o : Options) (m : Machine W)
      → parse_options e.answers e.word e.getwd e.errno (initial_port e.port_env) ≡ done o
      → install_signal_handlers e.sigaction_chld e.sigaction_int e.actions ≡ done actions
      → Disciplined m.calls
      → Ensures (begin_threads os sampling e fork descriptors actions o m) (IsStarted e)
  unfolding begin_threads
  begin_threads-IsStarted fork descriptors actions o m parsed_options installed d =
      elim (Bool-cases (all_usable o)) [
        | inr x ↦ rw x tt
        | inl x ↦ rw x (
            Ensures-and_then
              (λ r m₁. (0 < r.0) × (ReadyOf (e.bytes o.procfile) r m₁ × Disciplined m₁.calls))
              (IsStarted e) (set_up os sampling (e.bytes o.procfile) o.port m) _
              (Ensures_both (λ r _. 0 < r.0)
                (λ r m₁. ReadyOf (e.bytes o.procfile) r m₁ × Disciplined m₁.calls) _
                (set_up-num os sampling (e.bytes o.procfile) o.port m)
                (Ensures_both (ReadyOf (e.bytes o.procfile)) Logged _
                  (set_up-ReadyOf os sampling (e.bytes o.procfile) o.port m d)
                  (set_up-Keeps os sampling (e.bytes o.procfile) o.port m d)))
              (λ r m₁ k.
                Ensures-and_then
                  (λ (t : StatusThread) (m₂ : Machine W). (t.table ≡ r.1) × Disciplined m₂.calls)
                  (IsStarted e) (status_thread_create os r.1 r.0 o.directory m₁) _
                  (status_thread_create_lem os r.1 r.0 o.directory m₁ k.1.1)
                  (λ t m₂ h. record {
                    options = parsed_options;
                    usable = x;
                    handlers = installed;
                    shared = h.0;
                    occupied = k.0;
                    arrays = ReadyOf-later (e.bytes o.procfile) r m₁ m₂ h.1 k.1.0;
                    disciplined = h.1;
                  })))
      ]

  begin_with-IsStarted :
      (fork : Fork) (descriptors : List ℕ) (actions : Actions) (result : Result Options)
      (m : Machine W)
      → parse_options e.answers e.word e.getwd e.errno (initial_port e.port_env) ≡ result
      → install_signal_handlers e.sigaction_chld e.sigaction_int e.actions ≡ done actions
      → Disciplined m.calls
      → Ensures (begin_with os sampling e fork descriptors actions result m) (IsStarted e)
  unfolding begin_with
  begin_with-IsStarted fork descriptors actions (done o) m p installed d =
      begin_threads-IsStarted fork descriptors actions o m p installed d
  begin_with-IsStarted fork descriptors actions (exited n) m p installed d = tt
  begin_with-IsStarted fork descriptors actions failed m p installed d = tt

  parse_and_begin-IsStarted :
      (created : Created) (handlers : Result Actions) (m : Machine W)
      → install_signal_handlers e.sigaction_chld e.sigaction_int e.actions ≡ handlers
      → Disciplined m.calls
      → Ensures (parse_and_begin os sampling e created handlers m) (IsStarted e)
  unfolding parse_and_begin
  parse_and_begin-IsStarted (child fork descriptors) handlers m installed d = tt
  parse_and_begin-IsStarted (parent fork descriptors) (done actions) m installed d =
      begin_with-IsStarted fork descriptors actions _ m refl installed d
  parse_and_begin-IsStarted (parent fork descriptors) (exited n) m installed d = tt
  parse_and_begin-IsStarted (parent fork descriptors) failed m installed d = tt

  -- When main reaches the screen, its command line has been parsed, its command is known and its
  -- files can be read, the handlers are installed, the thread has the table, there is one instruction
  -- at least, and all calls were allowed. If the Procfile does not end inside a command the table is
  -- as long as the arrays of the screen and of the thread, every process in it is tracked, and the
  -- state is safe; if it does, main reaches the screen with a table that is one longer than them.
  pub start_up-IsStarted :
      (m : Machine W) → Disciplined m.calls → Ensures (start_up os sampling e m) (IsStarted e)
  unfolding start_up
  start_up-IsStarted m d = parse_and_begin-IsStarted _ _ m refl d
