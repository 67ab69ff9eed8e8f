-- ===== src/Process.antt =====
-- src/fiveman_process_state.c: one process that fiveman keeps. This file has its life (allocate,
-- initialize, start, signal, deallocate) and its samples; the children have the rest.
pub mod Environment
pub mod Converge
pub mod Output
pub mod Age
pub mod Status
mod Tests
use fiveman.Common.{
  ℕ, zero, suc, ◌+◌, ◌-◌, ◌%◌, ◌^◌, Bool, true, false, Option, none, some, List, [], ◌∷◌, ◌++◌, ltb,
  leb, if◌then◌else◌,
}
use fiveman.Common.Int.{ℤ, pos, is_positive, is_zero}
use fiveman.Common.Text.{Text, codes, fit, c_string}
use fiveman.Machine.{
  Posix, Sampling, Machine, SpawnRequest, Outcome, returned, failed, crashed, diverged, M, pure,
  fail, and_then, ◌>>=◌, ◌>>◌, assert, sys_kill, sys_killpg, sys_waitpid, sys_time, sys_mktemp,
  sys_unlink, sys_spawn,
}
use fiveman.Procfile.{Instruction}
use fiveman.Types.{
  ProcessState, ProcessIntent, Intent, intent_start, intent_sig, intent_stop, intent_none, Sample,
  SamplingData, zero_sample, zero_intent, zero_stat, Stat,
}
use fiveman.Process.Environment.{get_env, new_environment, port_variable, path_variable}

abbrev pub sigkill : ℤ
sigkill = pos 9

abbrev pub sigterm : ℤ
sigterm = pos 15

-- `calloc`, then three of the fields.
unfoldable pub allocate : Instruction → ℤ → ProcessState
allocate instr port = record {
  instruction = instr;
  intent = record zero_intent { intent = intent_none };
  desired_intent = zero_intent;
  sample = zero_sample;
  desired_port = port;
  pid = pos 0;
  host_read_fd = pos 0;
  child_write_fd = pos 0;
  last_state_change = 0;
  stdout = none;
  stdout_stat = zero_stat;
  stdout_paged_at = 0;
  stderr = none;
  stderr_stat = zero_stat;
  stderr_paged_at = 0;
  sample_ctxt = none;
}

unfoldable pub clear_sample : ProcessState → ProcessState
clear_sample s = record s { sample = zero_sample }

unfoldable pub set_sample : ProcessState → Sample → ProcessState
set_sample s sample = record s { sample = sample }

unfoldable pub change_intent : ProcessState → Intent → ProcessState
change_intent s i = record s { intent = record (s.intent) { intent = i } }

unfoldable pub desires_intent : ProcessState → Intent → ProcessState
desires_intent s i = record s { desired_intent = record (s.desired_intent) { intent = i } }

-- The number that goes with INTENT_SIG is not taken along.
unfoldable pub reflect_desired_intent : ProcessState → ProcessState
reflect_desired_intent s = record s {
  intent = record (s.intent) { intent = s.desired_intent.intent };
}

-- The "%s" of a NULL name.
abbrev pub shown : Option Text → Text
shown none = codes "(null)"
shown (some s) = s

abbrev pub buf_len : ℕ
buf_len = 8192

-- What `calloc` and `strncpy` make of the buffer that `snprintf` has filled.
abbrev pub file_template : Instruction → Text → Text
file_template instr suffix =
    c_string (fit buf_len (codes "/tmp/fiveman-" ++ (shown instr.name ++ suffix)))

module _ {W : Type 0} (os : Posix W) (sampling : Sampling W) where
  unfoldable pub initialize : ProcessState → M W ProcessState
  unfolding clear_sample
  initialize s = do
    out ← sys_mktemp os (file_template s.instruction (codes "-stdout.XXXXX"))
    err ← sys_mktemp os (file_template s.instruction (codes "-stderr.XXXXX"))
    pure (
        clear_sample (record s {
          intent = record (s.intent) { intent = intent_start };
          stdout = some out;
          stderr = some err;
        }))

  unfoldable pub teardown_sampling : ProcessState → M W ProcessState
  teardown_sampling s m = elim s.sample_ctxt [
    | none ↦ returned (record s { sample_ctxt = none }) m
    | some c ↦
        returned (record s { sample_ctxt = none })
          (record m { world = sampling.teardown_sampling c m.world })
  ]

  unfoldable pub init_sampling : ProcessState → M W ProcessState
  init_sampling s m =
      let (w, ctxt) = sampling.init_sampling s.pid m.world in
      elim ctxt [
        | none ↦ failed
        | some c ↦ returned (record s { sample_ctxt = some c }) (record m { world = w })
      ]

  -- `exec` ends the argument vector early if it is NULL.
  abbrev pub shell_argv : Option Text → List Text
  shell_argv none = codes "/bin/sh" ∷ codes "-c" ∷ []
  shell_argv (some exec) = codes "/bin/sh" ∷ codes "-c" ∷ exec ∷ []

  abbrev pub spawn_request : ProcessState → List Text → SpawnRequest
  spawn_request s environment = record {
    path = codes "/bin/sh";
    argv = shell_argv s.instruction.exec;
    environment = environment;
    stdin_file = codes "/dev/null";
    stdout_file = s.stdout;
    stderr_file = s.stderr;
    pgroup = pos 0;
  }

  launch : ProcessState → List Text → M W ProcessState
  unfolding clear_sample teardown_sampling init_sampling
  launch s environment = do
    let s₁ = clear_sample s
    (status, subchild) ← sys_spawn os s₁.pid (spawn_request s₁ environment)
    assert (is_zero status)
    s₂ ← teardown_sampling s₁
    init_sampling (record s₂ { pid = subchild })

  -- The environment is that of fiveman. Without a PATH in it `strlen` is handed NULL.
  unfoldable pub start : List Text → Text → ProcessState → M W ProcessState
  unfolding launch
  start environ directory s = elim (get_env (codes "PATH") environ) [
    | none ↦ λ m. crashed
    | some path ↦
        launch s
          (new_environment environ (path_variable directory path) (port_variable s.desired_port))
  ]
