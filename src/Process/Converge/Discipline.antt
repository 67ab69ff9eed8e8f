-- ===== src/Process/Converge/Discipline.antt =====
-- What every operation on a process keeps of the log of calls.
use fiveman.Common.{ℕ, zero, suc, true, false, List, [], ◌∷◌, ◌≡◌, ◌⊎◌, inl, inr, arith, Bool-cases}
use fiveman.Common.Int.{ℤ, pos, is_positive, is_zero}
use fiveman.Common.Text.{Text}
use fiveman.Machine.{Posix, Sampling, Machine, M, Call, Ensures}
use fiveman.Process.Converge.{
  is_alive, reap_loop, signal, converge_start, converge_signal, converge_stop, converge,
  current_activity, reap_zombie_processes, child_process_status,
}
use fiveman.Types.{ProcessState}

-- The last call found no process `pid`.
abbrev pub ProbedDead : ℤ → List Call → Type 0
ProbedDead pid (Call.kill p n answer ∷ cs) = (p ≡ pid) × (is_zero answer ≡ false)
ProbedDead pid _ = ⊥

-- Signals go to positive process groups alone, probes send no signal, and a process is started
-- only where none was before, or directly after a probe that found the old one gone.
abbrev pub Allowed : Call → List Call → Type 0
Allowed (Call.kill pid n answer) cs = (is_positive pid ≡ true) × (n ≡ pos 0)
Allowed (Call.killpg pid n) cs = is_positive pid ≡ true
Allowed (Call.waitpid pid answer) cs = is_positive pid ≡ true
Allowed (Call.unlink file) cs = Unit
Allowed (Call.spawn old request pid) cs = (is_positive old ≡ false) ⊎ ProbedDead old cs

abbrev pub Disciplined : List Call → Type 0
Disciplined [] = Unit
Disciplined (c ∷ cs) = Allowed c cs × Disciplined cs

-- The operation keeps the discipline.
abbrev pub Keeps : {W A : Type 0} → M W A → Type 0
Keeps {W} f = (m : Machine W) → Disciplined m.calls → Ensures (f m) (λ _ m'. Disciplined m'.calls)

module _ {W : Type 0} (os : Posix W) where
  pub signal-Keeps : (n : ℤ) (s : ProcessState) → Keeps (signal os n s)
  unfolding signal
  signal-Keeps n s m h = ground arith

  pub is_alive-Keeps : (s : ProcessState) → Keeps (is_alive os s)
  unfolding is_alive
  is_alive-Keeps s m h = ground arith

  converge_stop-Keeps : (s : ProcessState) → Keeps (converge_stop os s)
  unfolding converge_stop
  converge_stop-Keeps s m h = ground arith

  converge_signal-Keeps : (n : ℤ) (s : ProcessState) → Keeps (converge_signal os n s)
  unfolding converge_signal
  converge_signal-Keeps n s m h = ground arith

module _ {W : Type 0} (os : Posix W) (sampling : Sampling W) (environ : List Text)
    (directory : Text) where
  converge_start-Keeps : (s : ProcessState) → Keeps (converge_start os sampling environ directory s)
  unfolding converge_start
  converge_start-Keeps s m h = ground arith

  -- Whatever the intent is, and whether the process lives: behind a converge that returns a
  -- disciplined log is disciplined. So it probes and signals positive pids alone, and starts a
  -- process only where none was before or directly after a probe that did not find the old one.
  pub converge-Keeps : (s : ProcessState) → Keeps (converge os sampling environ directory s)
  unfolding converge
  converge-Keeps s m h = ground arith

module _ {W : Type 0} (os : Posix W) where
  pub current_activity-Keeps : (s : ProcessState) → Keeps (current_activity os s)
  unfolding current_activity
  current_activity-Keeps s m h = ground arith

  reap_loop-Keeps : (fuel : ℕ) (pid : ℤ) → is_positive pid ≡ true → Keeps (reap_loop os fuel pid)
  unfolding reap_loop
  reap_loop-Keeps zero pid p m h = tt
  reap_loop-Keeps (suc fuel) pid p m h =
      let (w, answer) = os.waitpid pid m.world in
      ground (
        arith,
        reap_loop-Keeps fuel pid p
            (record { world = w; calls = Call.waitpid pid answer ∷ m.calls }),
      )

  pub reap_zombie_processes-Keeps :
      (fuel : ℕ) (s : ProcessState) → Keeps (reap_zombie_processes os fuel s)
  unfolding reap_zombie_processes
  reap_zombie_processes-Keeps fuel s m h = elim (Bool-cases (is_positive s.pid)) [
    | inl p ↦ rw p (reap_loop-Keeps fuel s.pid p m h)
    | inr p ↦ rw p h
  ]

module _ {W : Type 0} (os : Posix W) (sampling : Sampling W) where
  pub child_process_status-Keeps : (s : ProcessState) → Keeps (child_process_status os sampling s)
  unfolding child_process_status
  child_process_status-Keeps s m h = ground arith
