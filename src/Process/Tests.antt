-- ===== src/Process/Tests.antt =====
-- One process on the simulated system, and the theorems about a process at it.
use fiveman.Common.{ℕ, some, [], ◌∷◌, ◌++◌, ◌≡◌, refl}
use fiveman.Common.Int.{ℤ, pos, negsuc}
use fiveman.Common.Text.{Text, codes, show_int, show_nat, show_digits, atoi_spaces}
use fiveman.Common.Text.Decimal.{atoi_spaces-show_int}
use fiveman.Machine.{Machine, Ensures, returned}
use fiveman.Process.{allocate, change_intent}
use fiveman.Process.Converge.{converge}
use fiveman.Process.Converge.Discipline.{Disciplined, converge-Keeps}
use fiveman.Process.Converge.Policy.{EffectOf, converge-EffectOf}
use fiveman.Process.Converge.Soundness.{Kept, converge-Kept}
use fiveman.Process.Environment.{get_env, or_else, new_environment, path_variable, port_variable}
use fiveman.Process.Environment.Vector.{new_environment-path}
use fiveman.Process.Age.{distance, lifetime, lifetime_str, scale}
use fiveman.Process.Output.{stdout_has_new_entries, stderr_has_new_entries}
use fiveman.Process.Status.{status_string, status_title}
use fiveman.Simulation.{Sim, sim, sim_sampling, sim_data, boot, sim_environ, web_instruction}
use fiveman.Types.{ProcessState, intent_start}

abbrev web : ProcessState
web = record (allocate web_instruction (pos 5000)) {
  stdout = some (codes "/tmp/out");
  stderr = some (codes "/tmp/err");
}

abbrev to_start : ProcessState
to_start = change_intent web intent_start

-- The same, with process 1100 running.
abbrev running_web : ProcessState
running_web = record to_start { pid = pos 1100; sample_ctxt = some sim_data }

abbrev web_runs : Machine Sim
web_runs = record boot { world = record { clock = 1001; live = 1100 ∷ [] } }

abbrev app : Text
app = codes "/app"

converge-Keeps_example :
    Ensures (converge sim sim_sampling sim_environ app to_start boot) (λ _ m'. Disciplined m'.calls)
converge-Keeps_example = converge-Keeps sim sim_sampling sim_environ app to_start boot tt

converge-EffectOf_example :
    Ensures
      (converge sim sim_sampling sim_environ app to_start boot)
      (λ s' m'. EffectOf to_start.intent.intent to_start s' boot.calls m'.calls)
converge-EffectOf_example = converge-EffectOf sim sim_sampling sim_environ app to_start boot

converge-Kept_example :
    Ensures
      (converge sim sim_sampling sim_environ app running_web web_runs)
      (λ s' _. Kept running_web s')
converge-Kept_example = converge-Kept sim sim_sampling sim_environ app running_web web_runs

-- A run that returns, with process 1100 started.
converge_starts :
    Ensures (converge sim sim_sampling sim_environ app to_start boot) (λ s' _. s'.pid ≡ pos 1100)
unfolding converge change_intent allocate get_env new_environment path_variable port_variable
    show_int
converge_starts = refl

new_environment-path_example :
    get_env (codes "PATH") (
      new_environment
        ((codes "PATH=/bin" ∷ []) ++ codes "TERM=vt100" ∷ [])
        (path_variable app (codes "/bin"))
        (port_variable (pos 5000)))
    ≡ or_else (get_env (codes "PATH") (codes "PATH=/bin" ∷ [])) (some (codes "/app:/bin"))
new_environment-path_example =
    new_environment-path (codes "PATH=/bin" ∷ []) (codes "TERM=vt100") app (codes "/bin") (pos 5000)

atoi_spaces-show_int_example : atoi_spaces (show_int (negsuc 41)) ≡ negsuc 41
atoi_spaces-show_int_example = atoi_spaces-show_int (negsuc 41)

abbrev plain : ℤ → ℕ → Text
plain z n = show_int z

-- A buffer of 32 bytes holds 31 of the line, and the answer is the length of the whole line.
cut_line :
    status_string sim plain 32 (pos 1) web boot
    ≡ returned
        (codes "[INACTIVE] (0 for 1000 minutes)", 52)
        (record { world = record { clock = 1001; live = [] }; calls = [] })
unfolding status_string status_title lifetime distance lifetime_str scale stdout_has_new_entries
    stderr_has_new_entries allocate show_int show_nat show_digits
cut_line = refl
