-- ===== src/Process/Converge/Soundness.antt =====
-- A process with a pid has a sampling context, so the sampling never reads through NULL; and what
-- no operation on a process changes.
use fiveman.Common.{◌<◌, ◌^◌, true, none, List, ◌≡◌, ◌≢◌, arith}
use fiveman.Common.Int.{is_positive, is_zero}
use fiveman.Common.Text.{Text}
use fiveman.Machine.{Posix, Sampling, SpawnRequest, Machine, crashed, Ensures}
use fiveman.Process.Converge.{converge, sample_process, take_sample, child_process_status}
use fiveman.Types.{ProcessState, intent_start}

abbrev pub IsTracked : ProcessState → Type 0
IsTracked s = is_positive s.pid ≡ true → s.sample_ctxt ≢ none

-- The same process, of the same instruction, port and files.
pub record SameIdentity (s t : ProcessState) : Type 0 where
  pub instruction : t.instruction ≡ s.instruction
  pub desired_port : t.desired_port ≡ s.desired_port
  pub stdout : t.stdout ≡ s.stdout
  pub stderr : t.stderr ≡ s.stderr
  pub desired_intent : t.desired_intent ≡ s.desired_intent
  pub stdout_paged_at : t.stdout_paged_at ≡ s.stdout_paged_at
  pub stderr_paged_at : t.stderr_paged_at ≡ s.stderr_paged_at

-- The identity of a process stays, and a process that is tracked stays tracked.
pub record Kept (s t : ProcessState) : Type 0 where
  pub identity : SameIdentity s t
  pub tracked : IsTracked s → IsTracked t

module _ {W : Type 0} (os : Posix W) (sampling : Sampling W) (environ : List Text)
    (directory : Text) where
  -- A converge that returns, by any intent, keeps what a process is, and keeps a tracked process
  -- tracked: with a sampling context if it has a pid.
  pub converge-Kept :
      (s : ProcessState) (m : Machine W)
      → Ensures (converge os sampling environ directory s m) (λ s' _. Kept s s')
  unfolding converge
  converge-Kept s m = ground arith

  -- If `posix_spawn` stores a positive pid whenever it succeeds, a process that is to run has a pid
  -- behind every converge that returns.
  converge_start-pid :
      ((request : SpawnRequest) (w : W)
        → is_zero (os.spawn request w).1.0 ≡ true
        → is_positive (os.spawn request w).1.1 ≡ true)
      → (s : ProcessState) (m : Machine W) → s.intent.intent ≡ intent_start
      → Ensures (converge os sampling environ directory s m) (λ s' _. is_positive s'.pid ≡ true)
  unfolding converge
  converge_start-pid law s m e = grind arith

module _ {W : Type 0} (os : Posix W) (sampling : Sampling W) where
  -- A process that is followed by the sampling when its pid is positive is looked at without a read
  -- through NULL.
  pub child_process_status-ne-crashed :
      (s : ProcessState) (m : Machine W)
      → IsTracked s
      → child_process_status os sampling s m ≢ crashed
  unfolding child_process_status
  child_process_status-ne-crashed s m h = ground arith

  pub child_process_status-Kept :
      (s : ProcessState) (m : Machine W)
      → Ensures (child_process_status os sampling s m) (λ s' _. Kept s s')
  unfolding child_process_status
  child_process_status-Kept s m = ground arith

  -- With the time and the sample time below 2 ^ 64 a sample is taken at every call, unless the two
  -- numbers are equal.
  sample_process-take_sample :
      (s : ProcessState) (m : Machine W)
      → s.sample.sample_time < 2 ^ 64
      → (os.time m.world).1 < 2 ^ 64
      → s.sample.sample_time ≢ (os.time m.world).1
      → sample_process os sampling s m
        ≡ take_sample os sampling s (record m { world = (os.time m.world).0 })
  unfolding sample_process
  sample_process-take_sample s m h k ne = ground arith
