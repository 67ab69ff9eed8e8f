-- ===== src/Simulation.antt =====
-- A small operating system, on which the tests run the program: a clock that each call of `time`
-- moves on, and the processes that live. It meets what the theorems assume of POSIX.
use fiveman.Common.{ℕ, suc, ◌+◌, Bool, true, false, some, List, [], ◌∷◌, ◌==◌, if◌then◌else◌}
use fiveman.Common.Int.{ℤ, pos, negsuc}
use fiveman.Common.Text.{Text, codes}
use fiveman.Machine.{Posix, Sampling, Machine, stat_ok}
use fiveman.Procfile.{Instruction}
use fiveman.Types.{SamplingData, IoCounter, zero_sample}

pub record Sim : Type 0 where
  pub clock : ℕ
  pub live : List ℕ

abbrev lives : ℕ → List ℕ → Bool
lives n [] = false
lives n (p ∷ ps) = let rest = lives n ps in if n == p then true else rest

abbrev without : ℕ → List ℕ → List ℕ
without n [] = []
without n (p ∷ ps) = let rest = without n ps in if n == p then rest else p ∷ rest

abbrev pid_of : ℤ → ℕ
pid_of (pos n) = n
pid_of (negsuc n) = 0

abbrev zero_counter : IoCounter
zero_counter = record { start = 0; read = 0; write = 0 }

-- A new process has the pid 100 more than the time; a signal ends it.
abbrev pub sim : Posix Sim
sim = record {
  kill = λ pid n w. (w, if lives (pid_of pid) w.live then pos 0 else negsuc 0);
  killpg = λ pid n w. record w { live = without (pid_of pid) w.live };
  waitpid = λ pid w. (w, negsuc 0);
  time = λ w. (record w { clock = w.clock + 1 }, w.clock);
  stat = λ file w. (w, stat_ok (record { st_mtime = w.clock; st_size = 1 }));
  mktemp = λ template w. (w, template);
  unlink = λ file w. w;
  spawn = λ request w.
      (record w { live = (w.clock + 100) ∷ w.live }, (pos 0, pos (suc (w.clock + 99))));
}

abbrev pub sim_data : SamplingData
sim_data = record {
  fs = zero_counter;
  net = zero_counter;
  dev = zero_counter;
  sampled_task = 1;
  dtp = 1;
  prog = 1;
  proc = 1;
}

abbrev pub sim_sampling : Sampling Sim
sim_sampling = record {
  init_sampling = λ pid w. (w, some sim_data);
  teardown_sampling = λ c w. w;
  sample_info = λ c old w. (w, (c, record zero_sample { sample_time = w.clock }));
}

abbrev pub boot : Machine Sim
boot = record { world = record { clock = 1000; live = [] }; calls = [] }

abbrev pub sim_environ : List Text
sim_environ = codes "HOME=/root" ∷ codes "PATH=/bin" ∷ codes "TERM=vt100" ∷ []

abbrev pub web_instruction : Instruction
web_instruction = record { name = some (codes "web"); exec = some (codes "bin/web") }

abbrev pub job_instruction : Instruction
job_instruction = record { name = some (codes "job"); exec = some (codes "rake jobs:work") }
