-- ===== src/Main/Tests.antt =====
-- The set-up from two Procfiles: one that ends its last line and one that does not.
use fiveman.Common.{true, false, some, [], ◌∷◌, ◌++◌, ◌≡◌, refl}
use fiveman.Common.Int.{pos}
use fiveman.Common.Text.{Text, codes, atoi, strtol, atoi_spaces, atoi_signed, atoi_digits}
use fiveman.Machine.{Ensures}
use fiveman.Main.{initial_port, set_up}
use fiveman.Main.Begin.{IsStarted, start_up-IsStarted}
use fiveman.Main.Program.{start_up}
use fiveman.Main.Sample.{setting}
use fiveman.Main.SetUp.{Ready, set_up-Ready}
use fiveman.Procfile.{initial, on_delimiter}
use fiveman.Procfile.Counting.{in_command}
use fiveman.Procfile.Reference.{run, feed}
use fiveman.Simulation.{sim, sim_sampling, boot}

abbrev two_lines : Text
two_lines = codes "web: bin/web" ++ (b'\n' ∷ codes "job: rake jobs") ++ b'\n' ∷ []

set_up-Ready_example :
    Ensures
      (set_up sim sim_sampling (some two_lines) (pos 5000) boot)
      (λ r m'. Ready (in_command (run initial [] two_lines).0) r m')
set_up-Ready_example = set_up-Ready sim sim_sampling two_lines (pos 5000) boot tt

ends_outside : in_command (run initial [] two_lines).0 ≡ false
unfolding run initial feed on_delimiter
ends_outside = refl

cut_ends_inside : in_command (run initial [] (codes "web: bin/web")).0 ≡ true
unfolding run initial feed on_delimiter
cut_ends_inside = refl

port_8080 : initial_port (some (codes "8080")) ≡ pos 8080
unfolding initial_port atoi strtol atoi_spaces atoi_signed atoi_digits
port_8080 = refl

port_empty : initial_port (some []) ≡ pos 5000
unfolding initial_port
port_empty = refl

start_up-IsStarted_example : Ensures (start_up sim sim_sampling setting boot) (IsStarted setting)
start_up-IsStarted_example = start_up-IsStarted sim sim_sampling setting boot tt
