-- ===== src/System/Tests.antt =====
-- What main removes of one process.
use fiveman.Common.{some, [], ◌∷◌, ◌≡◌, refl}
use fiveman.Common.Int.{pos}
use fiveman.Common.Text.{codes}
use fiveman.Machine.{Call}
use fiveman.Process.{allocate}
use fiveman.Simulation.{web_instruction}
use fiveman.System.Cleanup.{removed}
use fiveman.Types.{ProcessState}

abbrev web : ProcessState
web = record (allocate web_instruction (pos 5000)) {
  stdout = some (codes "/tmp/out");
  stderr = some (codes "/tmp/err");
}

both_files :
    removed (web ∷ []) [] ≡ Call.unlink (codes "/tmp/err") ∷ Call.unlink (codes "/tmp/out") ∷ []
both_files = refl
