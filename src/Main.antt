-- ===== src/Main.antt =====
-- src/main.c up to the two threads: the port, the Procfile and the table. What the command line
-- says is an argument; the check that the files can be read is the `none` of an unreadable file.
pub mod SetUp
pub mod Program
pub mod Begin
pub mod Sample
mod Tests
use fiveman.Common.{ℕ, ◌-◌, ◌&&◌, Option, none, some, List, length, ltb, if◌then◌else◌}
use fiveman.Common.Int.{ℤ, pos, is_positive}
use fiveman.Common.Text.{Text, atoi}
use fiveman.Machine.{Posix, Sampling, Machine, failed, diverged, M, pure, and_then, ◌>>=◌}
use fiveman.Procfile
use fiveman.Procfile.{parsed, aborted, out_of_fuel, parse_procfile}
use fiveman.Table.{table_allocate, table_initialize}
use fiveman.Types.{ProcessState}

abbrev pub default_port : ℤ
default_port = pos 5000

-- The argument is what `getenv("PORT")` answers.
unfoldable pub initial_port : Option Text → ℤ
initial_port none = default_port
initial_port (some port_env) =
    if ltb 0 (length port_env) && is_positive (atoi port_env) then atoi port_env else default_port

module _ {W : Type 0} (os : Posix W) (sampling : Sampling W) where
  -- What follows parse_procfile.
  unfoldable pub set_up_table : Procfile.Outcome → ℤ → M W (ℕ × List ProcessState)
  set_up_table (parsed num_instructions instructions) port = do
    pstate ← table_initialize os sampling (table_allocate instructions port)
    pure (num_instructions, pstate)
  set_up_table aborted port = λ m. failed
  set_up_table out_of_fuel port = λ m. diverged

  -- The number of instructions by which the arrays are sized, and the table that fills them.
  unfoldable pub set_up : Option (List ℕ) → ℤ → M W (ℕ × List ProcessState)
  unfolding set_up_table
  set_up procfile port = set_up_table (parse_procfile procfile) port
