-- ===== src/Main/SetUp.antt =====
-- The state in which the screen begins.
use fiveman.Common.{
  ℕ, suc, ◌+◌, ◌<◌, Bool, true, false, some, List, [], ◌∷◌, ◌≡◌, refl, sym, ◌∙◌, ap, arith, length,
}
use fiveman.Common.Int.{ℤ, pos, ◌+ℤ◌, is_positive}
use fiveman.Machine.{Posix, Sampling, Machine, Ensures}
use fiveman.Main.{set_up, set_up_table}
use fiveman.Process.{allocate, initialize}
use fiveman.Process.Converge.Discipline.{Keeps, Disciplined}
use fiveman.Procfile
use fiveman.Procfile.{Instruction, parsed, aborted, out_of_fuel, parse_procfile, initial}
use fiveman.Procfile.Counting.{Counted, in_command, parse_procfile-Counted}
use fiveman.Procfile.Reference.{run}
use fiveman.Screen.Keys.{initial_ui, states_fit}
use fiveman.System.Same.{AllTracked}
use fiveman.System.Safety.{Safe}
use fiveman.System.Same.{Pairwise-refl}
use fiveman.Table.{table_allocate, table_initialize}
use fiveman.Table.Loops.{
  Ensures_both, Pairwise, Ensures-and_then, each-Keeps, each-Pairwise, Logged,
}
use fiveman.Types.{ProcessState}

-- No process runs yet.
abbrev Idle : ProcessState → ProcessState → Type 0
Idle p q = q.pid ≡ p.pid

module _ {W : Type 0} (os : Posix W) (sampling : Sampling W) where
  initialize-Idle :
      (p : ProcessState) (m : Machine W) → Ensures (initialize os sampling p m) (λ q _. Idle p q)
  unfolding initialize
  initialize-Idle p m = refl

  pub initialize-Keeps : (p : ProcessState) → Keeps (initialize os sampling p)
  unfolding initialize
  initialize-Keeps p m d = d

Idle-AllTracked :
    (is : List Instruction) (port : ℤ) (table : List ProcessState)
    → Pairwise Idle (table_allocate is port) table
    → AllTracked table × (length is ≡ length table)
unfolding table_allocate allocate
Idle-AllTracked [] port [] h = (tt, refl)
Idle-AllTracked [] port (t ∷ ts) h = absurd h
Idle-AllTracked (i ∷ is) port [] h = absurd h
Idle-AllTracked (i ∷ is) port (t ∷ ts) h =
    let (rest, size) = Idle-AllTracked is (port +ℤ pos 1) ts h.1 in
    ((λ p. absurd (no_pid t h.0 p), rest), ap suc size)
  where
    no_pid : (t : ProcessState) → t.pid ≡ pos 0 → is_positive t.pid ≡ true → ⊥
    no_pid t e p = ground arith

-- The table and the number that the arrays are sized by, by whether the file ends inside a command.
abbrev pub Ready : {W : Type 0} → Bool → ℕ × List ProcessState → Machine W → Type 0
Ready false (num, table) m =
    (length table ≡ num)
    × (states_fit num table ≡ true)
    × AllTracked table
    × (0 < num → Safe table (record { table = table; ui = initial_ui; machine = m }))
Ready true (num, table) m = (length table ≡ num + 1) × (states_fit num table ≡ false)

module _ {W : Type 0} (os : Posix W) (sampling : Sampling W) where
  ready :
      (b : Bool) (num : ℕ) (is : List Instruction) (port : ℤ) (table : List ProcessState)
      (m : Machine W)
      → Counted b num is
      → Pairwise Idle (table_allocate is port) table
      → Disciplined m.calls
      → Ready b (num, table) m
  unfolding states_fit initial_ui
  ready false num is port table m c idle d =
      let (tracked, size) = Idle-AllTracked is port table idle in
      (
        sym size ∙ c.0,
        ground (arith, size, c.0),
        tracked,
        λ some_row. record {
          disciplined = d;
          same = Pairwise-refl table;
          in_range = omega (arith, size, c.0, some_row);
        },
      )
  ready true num is port table m c idle d =
      let (tracked, size) = Idle-AllTracked is port table idle in
      (sym size ∙ c.0, ground (arith, size, c.0))

  set_up_table-Ready :
      (b : Bool) (o : Procfile.Outcome) (port : ℤ) (m : Machine W)
      → ((n : ℕ) (is : List Instruction) → o ≡ parsed n is → Counted b n is)
      → Disciplined m.calls
      → Ensures (set_up_table os sampling o port m) (λ r m'. Ready b r m')
  unfolding set_up_table
  set_up_table-Ready b aborted port m h d = tt
  set_up_table-Ready b out_of_fuel port m h d = tt
  set_up_table-Ready b (parsed num is) port m h d =
      let states = table_allocate is port in
      Ensures-and_then (λ ts m'. Pairwise Idle states ts × Disciplined m'.calls)
        (λ r m'. Ready b r m') (table_initialize os sampling states m) _
        (Ensures_both (λ ts _. Pairwise Idle states ts) Logged _
          (each-Pairwise Idle _ (initialize-Idle os sampling) states m)
          (each-Keeps _ (initialize-Keeps os sampling) states m d))
        (λ ts m₁ k. ready b num is port ts m₁ (h num is refl) k.0 k.1)

  -- Behind the set-up, if the Procfile does not end inside a command, the table fits the arrays
  -- exactly, every process is tracked, and the state is safe if there is a process; if it does, the
  -- table is one longer than the arrays that it is written to.
  pub set_up-Ready :
      (file : List ℕ) (port : ℤ) (m : Machine W)
      → Disciplined m.calls
      → Ensures
          (set_up os sampling (some file) port m)
          (λ r m'. Ready (in_command (run initial [] file).0) r m')
  unfolding set_up
  set_up-Ready file port m d =
      set_up_table-Ready (in_command (run initial [] file).0) (parse_procfile (some file)) port m
        (λ n is e. parse_procfile-Counted file e) d
