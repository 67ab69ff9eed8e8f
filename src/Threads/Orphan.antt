-- ===== src/Threads/Orphan.antt =====
-- A process that is started behind the last look of the screen, and left running.
use fiveman.Common.{ℕ, suc, true, false, List, [], ◌∷◌, ◌≡◌, refl, ◌∙◌, ap, arith}
use fiveman.Common.Int.{is_positive}
use fiveman.Common.Text.{Text}
use fiveman.Machine.{Posix, Sampling, Machine, Call, returned, Ensures}
use fiveman.Process.Converge.{is_alive, converge, child_process_status}
use fiveman.Screen.Keys.{Ui, Key, press, test_exit}
use fiveman.StatusThread.{update_row, update_screen_entry}
use fiveman.System.{System}
use fiveman.System.Safety.{ensured}
use fiveman.Table.Loops.{Ensures-and_then}
use fiveman.Threads.{
  Threads, converging, waiting, joined, key_pressed, lock_terminating, probe, none_alive, tested,
  destroy, join, converge_one, converge_store, converged_all, update, update_store, updated_all,
  publish, stored, Run, here, works, shows,
}
use fiveman.Types.{ProcessState, ScreenEntry, intent_start}

abbrev pub num_spawn : List Call → ℕ
num_spawn [] = 0
num_spawn (Call.spawn old_pid request pid ∷ cs) = suc (num_spawn cs)
num_spawn (_ ∷ cs) = num_spawn cs

abbrev pub num_killpg : List Call → ℕ
num_killpg [] = 0
num_killpg (Call.killpg pid n ∷ cs) = suc (num_killpg cs)
num_killpg (_ ∷ cs) = num_killpg cs

abbrev pub num_waitpid : List Call → ℕ
num_waitpid [] = 0
num_waitpid (Call.waitpid pid answer ∷ cs) = suc (num_waitpid cs)
num_waitpid (_ ∷ cs) = num_waitpid cs

-- No process group has been signalled and no process waited for.
abbrev pub IsLeft : List Call → List Call → Type 0
IsLeft before after =
    (num_killpg after ≡ num_killpg before) × (num_waitpid after ≡ num_waitpid before)

-- No process has been started either.
abbrev Quiet : List Call → List Call → Type 0
Quiet before after = (num_spawn after ≡ num_spawn before) × IsLeft before after

-- The status thread, with `log` behind it, comes to the first process, which has no pid, and the
-- screen waits for a key.
abbrev pub racing :
    {W : Type 0}
    → ProcessState
    → Ui
    → Machine W
    → List Call
    → List ScreenEntry
    → List ScreenEntry
    → Threads W
racing p ui m log drawn entries = record {
  system = record { table = p ∷ []; ui = ui; machine = m };
  log = log;
  pc = converging 0;
  drawn = drawn;
  entries = entries;
  exit = 0;
  main_pc = waiting;
}

module _ {W : Type 0} (os : Posix W) where
  is_alive-no_pid :
      (p : ProcessState) (m : Machine W)
      → is_positive p.pid ≡ false
      → is_alive os p m ≡ returned false m
  unfolding is_alive
  is_alive-no_pid p m h = rw h refl

module _ {W : Type 0} (os : Posix W) (sampling : Sampling W) (environ : List Text)
    (directory : Text) (fuel : ℕ) where
  -- One spawn, no signal and no wait.
  converge-num_spawn :
      (p : ProcessState) (m : Machine W)
      → is_positive p.pid ≡ false
      → p.intent.intent ≡ intent_start
      → Ensures
          (converge os sampling environ directory p m)
          (λ _ m'. (num_spawn m'.calls ≡ suc (num_spawn m.calls)) × IsLeft m.calls m'.calls)
  unfolding converge
  converge-num_spawn p m no_pid e = ground arith

  child_process_status-Quiet :
      (p : ProcessState) (m : Machine W)
      → Ensures (child_process_status os sampling p m) (λ _ m'. Quiet m.calls m'.calls)
  unfolding child_process_status
  child_process_status-Quiet p m = ground arith

  update_screen_entry-Quiet :
      (p : ProcessState) (m : Machine W)
      → Ensures (update_screen_entry os p m) (λ _ m'. Quiet m.calls m'.calls)
  unfolding update_screen_entry
  update_screen_entry-Quiet p m = ground arith

  update_row-Quiet :
      (p : ProcessState) (m : Machine W)
      → Ensures (update_row os sampling environ fuel p m) (λ _ m'. Quiet m.calls m'.calls)
  unfolding update_row
  update_row-Quiet p m =
      Ensures-and_then (λ _ m₁. Quiet m.calls m₁.calls) (λ _ m'. Quiet m.calls m'.calls)
        (child_process_status os sampling p m) _ (child_process_status-Quiet p m)
        (λ p' m₁ k.
          Ensures-and_then (λ _ m₂. Quiet m₁.calls m₂.calls) (λ _ m'. Quiet m.calls m'.calls)
            (update_screen_entry os p' m₁) _ (update_screen_entry-Quiet p' m₁)
            (λ e m₂ h. (h.0 ∙ k.0, (h.1.0 ∙ k.1.0, h.1.1 ∙ k.1.1))))

  module _ (p p' q : ProcessState) (e : ScreenEntry) (ui : Ui) (m m₁ m₂ : Machine W)
      (log : List Call) (drawn entries : List ScreenEntry) (no_pid : is_positive p.pid ≡ false)
      (starts : p.intent.intent ≡ intent_start) (ends : ui.is_terminating ≡ true)
      (started : converge os sampling environ directory p (record m { calls = log })
        ≡ returned p' m₁)
      (shown : update_row os sampling environ fuel (stored p p') m₁ ≡ returned (q, e) m₂) where
    abbrev orphaned : System W
    orphaned = record {
      table = stored (stored p p') q ∷ [];
      ui = record ui { exit_fiveman_immediately = true };
      machine = record m₂ { calls = m.calls };
    }

    -- The screen finds none alive and asks the thread to end, and joins it behind that round.
    orphan_run :
        (t : Threads W) × Run os sampling environ directory fuel 1 7
          (racing p ui m log drawn entries)
          t
        × (t.main_pc ≡ joined)
        × (t.system ≡ orphaned)
        × (t.log ≡ m₂.calls)
    unfolding press test_exit
    orphan_run =
        let r₀ = here (racing p ui m log drawn entries) in
        let r₁ = shows _ _ _ _ r₀ (key_pressed _ Key.err ui (p ∷ []) refl refl refl) in
        let r₂ = shows _ _ _ _ r₁ (lock_terminating _ refl ends) in
        let r₃ =
          shows _ _ _ _ r₂ (probe _ 0 0 p false m refl refl (is_alive-no_pid os p m no_pid)) in
        let r₄ = shows _ _ _ _ r₃ (none_alive _ refl) in
        let r₅ = shows _ _ _ _ r₄ (tested _ _ _ true m refl refl) in
        let r₆ = shows _ _ _ _ r₅ (destroy _ refl) in
        let w₁ = works _ _ _ _ r₆ (converge_one _ 0 p p' m₁ refl refl started) in
        let w₂ = works _ _ _ _ w₁ (converge_store _ 0 p' p refl refl) in
        let w₃ = works _ _ _ _ w₂ (converged_all _ refl) in
        let w₄ = works _ _ _ _ w₃ (update _ 0 (stored p p') q e m₂ refl refl shown) in
        let w₅ = works _ _ _ _ w₄ (update_store _ 0 q (stored p p') e refl refl) in
        let w₆ = works _ _ _ _ w₅ (updated_all _ refl) in
        let w₇ = works _ _ _ _ w₆ (publish _ refl refl) in
        (_, shows _ _ _ _ w₇ (join _ refl refl), refl, refl, refl)

    -- If fiveman terminates while the status thread is about to start a process that has no pid, the
    -- screen can find no process alive, end its loop and join the thread, and the thread starts the
    -- process in between: behind the join the status thread has started one process more, and since
    -- the key it has neither signalled a process group nor waited for a process; nor has the main
    -- thread or a handler made any call. The table has what the thread has stored of the process.
    pub Run-orphan :
        (t : Threads W) × Run os sampling environ directory fuel 1 7
          (racing p ui m log drawn entries)
          t
        × (t.main_pc ≡ joined)
        × (t.system.table ≡ stored (stored p p') q ∷ [])
        × (num_spawn t.log ≡ suc (num_spawn log))
        × IsLeft log t.log
        × (t.system.machine.calls ≡ m.calls)
    Run-orphan =
        let (t, run, at, system, calls) = orphan_run in
        let (spawned, left) =
          ensured (λ _ m'. (num_spawn m'.calls ≡ suc (num_spawn log)) × IsLeft log m'.calls) started
            (converge-num_spawn p (record m { calls = log }) no_pid starts) in
        let (as_many, (unsignalled, unreaped)) =
          ensured (λ _ m'. Quiet m₁.calls m'.calls) shown (update_row-Quiet (stored p p') m₁) in
        (
          t,
          run,
          at,
          ap (λ s. s.table) system,
          ap num_spawn calls ∙ as_many ∙ spawned,
          (ap num_killpg calls ∙ unsignalled ∙ left.0, ap num_waitpid calls ∙ unreaped ∙ left.1),
          ap (λ s. s.machine.calls) system,
        )
