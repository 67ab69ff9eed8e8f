-- ===== src/StatusThread/Tests.antt =====
-- A round over two processes on the simulated system.
use fiveman.Common.{[], ◌∷◌}
use fiveman.Common.Int.{pos}
use fiveman.Common.Text.{codes}
use fiveman.Machine.{Ensures}
use fiveman.Process.{allocate}
use fiveman.Process.Converge.Soundness.{Kept}
use fiveman.Simulation.{sim, sim_sampling, sim_environ, boot, web_instruction, job_instruction}
use fiveman.StatusThread.{update_round}
use fiveman.StatusThread.Rounds.{Shows, update_round-Kept}
use fiveman.Table.Loops.{Pairwise}
use fiveman.Types.{StatusThread}

abbrev thread : StatusThread
thread = record {
  exit = 0;
  table = allocate web_instruction (pos 5000) ∷ allocate job_instruction (pos 5001) ∷ [];
  num_entries = 2;
  cur_entries = [];
  prev_entries = [];
  directory = codes "/app";
}

update_round-Kept_example :
    Ensures
      (update_round sim sim_sampling sim_environ 3 thread boot)
      (λ r _. Pairwise Kept thread.table r.0.table × Pairwise Shows r.0.table r.0.cur_entries)
update_round-Kept_example = update_round-Kept sim sim_sampling sim_environ 3 thread boot
