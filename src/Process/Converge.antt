-- ===== src/Process/Converge.antt =====
-- src/fiveman_process_state.c: what brings a process to its intent, and what looks after it.
pub mod Discipline
pub mod Soundness
pub mod Policy
use fiveman.Common.{
  ℕ, zero, suc, ◌+◌, ◌-◌, ◌%◌, ◌^◌, Bool, true, false, Option, none, some, List, [], ◌∷◌, leb,
  if◌then◌else◌,
}
use fiveman.Common.Int.{ℤ, pos, is_positive, is_zero}
use fiveman.Common.Text.{Text}
use fiveman.Machine.{
  Posix, Sampling, StatResult, stat_ok, eacces, other_error, Outcome, returned, failed, crashed,
  diverged, M, pure, and_then, ◌>>=◌, ◌>>◌, sys_kill, sys_killpg, sys_waitpid, sys_time, sys_stat,
}
use fiveman.Types.{
  ProcessState, ProcessIntent, Intent, intent_start, intent_sig, intent_stop, intent_none,
  CurrentActivity, stopped, running, starting_up, shutting_down, unknown, Sample, SamplingData,
  Stat,
}
use fiveman.Process.{start, set_sample, sigterm}

module _ {W : Type 0} (os : Posix W) where
  unfoldable pub is_alive : ProcessState → M W Bool
  is_alive s =
      if is_positive s.pid
      then (do answer ← sys_kill os s.pid (pos 0); pure (is_zero answer))
      else pure false

  unfoldable pub signal : ℤ → ProcessState → M W ℤ
  signal n s = if is_positive s.pid then (do sys_killpg os s.pid n; pure s.pid) else pure s.pid

  unfoldable pub stop : ProcessState → M W ℤ
  unfolding signal
  stop s = signal sigterm s

  abbrev touch : ProcessState → M W ProcessState
  touch s = do now ← sys_time os; pure (record s { last_state_change = now })

  unfoldable pub converge_signal : ℤ → ProcessState → M W ProcessState
  unfolding is_alive signal
  converge_signal n s =
      let done = record s { intent = record (s.intent) { intent = intent_none } } in
      if is_positive s.pid
      then (do alive ← is_alive s; if alive then (do _ ← signal n s; pure done) else pure done)
      else pure done

  unfoldable pub converge_stop : ProcessState → M W ProcessState
  unfolding is_alive stop
  converge_stop s =
      if is_positive s.pid
      then (do alive ← is_alive s; if alive then (do _ ← stop s; touch s) else pure s)
      else pure s

  unfoldable pub current_activity : ProcessState → M W CurrentActivity
  unfolding is_alive
  current_activity s = elim s.intent.intent [
    | intent_start ↦ (do alive ← is_alive s; pure (if alive then running else starting_up))
    | intent_stop ↦ (do alive ← is_alive s; pure (if alive then shutting_down else stopped))
    | intent_sig ↦ pure unknown
    | intent_none ↦ pure unknown
  ]

  -- `stat` of NULL fails with EFAULT; on a failure the old values stay.
  unfoldable pub refresh : Option Text → Stat → M W Stat
  refresh none old = pure old
  refresh (some file) old = sys_stat os file >>= λ r. elim r [
    | stat_ok new ↦ pure new
    | eacces ↦ (λ m. failed)
    | other_error ↦ pure old
  ]

  -- The loop over `waitpid`, on fuel.
  unfoldable pub reap_loop : ℕ → ℤ → M W (Unit {0})
  reap_loop zero pid = λ m. diverged
  reap_loop (suc fuel) pid =
      let rest = reap_loop fuel pid in
      (do answer ← sys_waitpid os pid; if is_positive answer then rest else pure tt)

  unfoldable pub reap_zombie_processes : ℕ → ProcessState → M W (Unit {0})
  reap_zombie_processes fuel s = if is_positive s.pid then reap_loop fuel s.pid else pure tt

module _ {W : Type 0} (os : Posix W) (sampling : Sampling W) (environ : List Text)
    (directory : Text) where
  unfoldable pub converge_start : ProcessState → M W ProcessState
  unfolding is_alive start
  converge_start s =
      let launch = (do s' ← start os sampling environ directory s; touch os s') in
      if is_positive s.pid
      then (do alive ← is_alive os s; if alive then pure s else launch)
      else launch

  unfoldable pub converge : ProcessState → M W ProcessState
  unfolding refresh converge_start converge_signal converge_stop
  converge s = do
    out ← refresh os s.stdout s.stdout_stat
    err ← refresh os s.stderr s.stderr_stat
    let s' = record s { stdout_stat = out; stderr_stat = err }
    elim s.intent.intent [
      | intent_start ↦ converge_start s'
      | intent_sig ↦ converge_signal os s.intent.payload s'
      | intent_stop ↦ converge_stop os s'
      | intent_none ↦ pure s'
    ]

module _ {W : Type 0} (os : Posix W) (sampling : Sampling W) where
  unfoldable pub take_sample : ProcessState → M W ProcessState
  unfolding set_sample
  take_sample s m = elim s.sample_ctxt [
    | none ↦ crashed
    | some c ↦
        let (w, answer) = sampling.sample_info c s.sample m.world in
        returned (set_sample (record s { sample_ctxt = some answer.0 }) answer.1)
          (record m { world = w })
  ]

  -- `now - sample_time` is unsigned, of 64 bits. Without a context the sampling reads through NULL.
  unfoldable pub sample_process : ProcessState → M W ProcessState
  unfolding take_sample
  sample_process s = do
    now ← sys_time os
    if leb 1 ((now + 2 ^ 64 - s.sample.sample_time) % 2 ^ 64) then take_sample s else pure s

  unfoldable pub child_process_status : ProcessState → M W ProcessState
  unfolding is_alive sample_process
  child_process_status s = do alive ← is_alive os s; if alive then sample_process s else pure s
