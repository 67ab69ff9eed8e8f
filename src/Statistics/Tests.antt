-- ===== src/Statistics/Tests.antt =====
-- Two samples of a process, and a round of the status thread with this sampling.
use fiveman.Common.{ℕ, ◌*◌, ◌/◌, ◌%◌, ◌^◌, true, false, some, List, [], ◌∷◌, ◌≡◌, refl, arith, map}
use fiveman.Common.Int.{pos}
use fiveman.Common.Text.{codes}
use fiveman.Machine.{Ensures}
use fiveman.Process.{allocate}
use fiveman.Simulation.{Sim, sim, sim_environ, sim_data, boot, web_instruction}
use fiveman.Statistics.{Probe, difexpr, dorec, count_record, Readings, sample_info}
use fiveman.Statistics.Clear.{AllHold, update_round-IsReset}
use fiveman.Statistics.Setup.{Mac, mac_sampling}
use fiveman.Statistics.Times.{micros, TimesOf, sample_info-TimesOf}
use fiveman.Statistics.Tracing.{
  Firing, io, read_entry, fsinfo_write, SelfSocket, is_socket, trace, traced,
}
use fiveman.Statistics.Tracing.Counted.{FiredPerSecond, fired, sample_info-FiredPerSecond}
use fiveman.Statistics.Totals.{IsReset, AllPerSecond, samples, samples-AllPerSecond}
use fiveman.StatusThread.{update_round}
use fiveman.Types.{StatusThread, zero_sample}

abbrev read_of : ℕ → Probe
read_of n = record {
  rec = some (difexpr, 16);
  addr = record { block_size = n; start = 0; kind = 1 };
}

abbrev at : ℕ → List Probe → Readings
at seconds probes = record {
  status_okay = true;
  probes = probes;
  now = record { tv_sec = seconds; tv_usec = 0 };
  basic_info = some (record {
    user_time = record { tv_sec = 1; tv_usec = 600000 };
    system_time = record { tv_sec = 0; tv_usec = 500000 };
    resident_size = 4096;
  });
  thread_times = some (record {
    user_time = record { tv_sec = 2; tv_usec = 0 };
    system_time = record { tv_sec = 0; tv_usec = 0 };
  });
}

abbrev two_samples : List Readings
two_samples = at 1000 (read_of 5000 ∷ read_of 2500 ∷ []) ∷ at 1010 (read_of 300 ∷ []) ∷ []

abbrev share : ℕ → ℕ → ℕ
share a b = a * 100 / b

sim_data-IsReset : IsReset sim_data
sim_data-IsReset = omega arith

samples-AllPerSecond_example :
    AllPerSecond share two_samples zero_sample (samples share two_samples sim_data zero_sample)
samples-AllPerSecond_example =
    samples-AllPerSecond share two_samples sim_data zero_sample sim_data-IsReset

sample_info-TimesOf_example :
    ((sample_info share (at 1000 []) sim_data zero_sample).1.sample_time
      ≡ micros (at 1000 []).now % 2 ^ 64)
    × TimesOf share
        (at 1000 [])
        true
        (at 1000 []).basic_info
        (at 1000 []).thread_times
        zero_sample
        (sample_info share (at 1000 []) sim_data zero_sample).1
sample_info-TimesOf_example = sample_info-TimesOf share (at 1000 []) sim_data zero_sample

-- Process 77 reads a block from a device and 7000 bytes from the socket 5; another process writes.
abbrev firings : List Firing
firings =
    io 77 false 4096 1
    ∷ read_entry 77 1 5 (codes "sockfs") (codes "<unknown>") 2
    ∷ fsinfo_write 78 300 3
    ∷ []

abbrev no_socket : SelfSocket
no_socket tid = false

sample_info-FiredPerSecond_example :
    FiredPerSecond share 77 firings
      (at 1000 (map traced (trace 77 firings no_socket)))
      zero_sample
      (sample_info share (at 1000 (map traced (trace 77 firings no_socket))) sim_data zero_sample).1
sample_info-FiredPerSecond_example =
    sample_info-FiredPerSecond share 77 firings no_socket
      (at 1000 (map traced (trace 77 firings no_socket))) sim_data zero_sample (λ tid. refl) refl
      refl sim_data-IsReset

-- Of the 7000 bytes the counter has the descriptor.
descriptor_counted : fired 5 77 firings ≡ 5
unfolding is_socket
descriptor_counted = refl

abbrev sim_mac : Mac Sim
sim_mac = record {
  authorization_ref = λ w. false;
  authorization_create = λ w. (w, true);
  authorization_copy_rights = λ w. (w, true);
  authorization_create_rights = λ w. (w, true);
  task_for_pid = λ pid w. (w, some 7);
  dtrace_open = λ w. (w, 8);
  dtrace_setopt = λ dtp option value w. (w, true);
  dtrace_proc_grab = λ dtp pid w. (w, 9);
  dtrace_program_strcompile = λ dtp args w. (w, 10);
  dtrace_program_exec = λ dtp prog w. (w, true);
  dtrace_go = λ dtp w. (w, true);
  dtrace_proc_continue = λ dtp proc w. w;
  dtrace_proc_release = λ dtp proc w. w;
  dtrace_stop = λ dtp w. w;
  dtrace_close = λ dtp w. w;
  readings = λ ctxt w. (w, at w.clock (read_of 100 ∷ []));
}

abbrev thread : StatusThread
thread = record {
  exit = 0;
  table =
      record (allocate web_instruction (pos 5000)) { pid = pos 1100; sample_ctxt = some sim_data }
      ∷ [];
  num_entries = 1;
  cur_entries = [];
  prev_entries = [];
  directory = codes "/app";
}

update_round-IsReset_example :
    Ensures
      (update_round sim
        (mac_sampling sim_mac share)
        sim_environ
        3
        thread
        (record boot { world = record { clock = 1200; live = 1100 ∷ [] } }))
      (λ r _. AllHold IsReset r.0.table)
update_round-IsReset_example =
    update_round-IsReset sim sim_mac share sim_environ 3 thread
      (record boot { world = record { clock = 1200; live = 1100 ∷ [] } }) (sim_data-IsReset, tt)

-- 7500 bytes in the 1000 seconds since 1970, then 300 in 10 seconds.
two_rates : map (λ s. s.io_read_rate) (samples share two_samples sim_data zero_sample) ≡ 7 ∷ 30 ∷ []
unfolding samples sample_info dorec count_record
two_rates = refl
