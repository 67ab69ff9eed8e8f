-- ===== src/Statistics/Times.antt =====
-- The times of a sample, and what the first sample of a process is divided by.
use fiveman.Common.{
  ℕ, ◌+◌, ◌*◌, ◌%◌, ◌^◌, ◌<◌, Bool, true, false, Option, none, some, ◌≡◌, refl, arith, ltb, ◌==◌,
  if◌then◌else◌,
}
use fiveman.Types.{SamplingData, Sample, zero_sample}
use fiveman.Statistics.{
  sub64, microseconds_per_second, TimeVal, time_val_to_microseconds, timeradd, BasicInfo,
  ThreadTimes, Readings, total_time, delta_in_seconds, sample_task, sample_rates, sample_info, work,
}
use fiveman.Statistics.Totals.{seconds_of}

abbrev pub micros : TimeVal → ℕ
micros tv = tv.tv_sec * microseconds_per_second + tv.tv_usec

timeradd-micros : (a b : TimeVal) → micros (timeradd a b) ≡ micros a + micros b
unfolding timeradd
timeradd-micros a b = ground arith

total_time-micros :
    (b : BasicInfo) (t : ThreadTimes)
    → total_time b t
      ≡ (micros b.user_time + micros b.system_time + micros t.user_time + micros t.system_time)
        % 2 ^ 64
unfolding total_time time_val_to_microseconds
total_time-micros b t =
    let task = timeradd t.user_time t.system_time in
    omega (
      arith,
      timeradd-micros t.user_time t.system_time,
      timeradd-micros b.user_time task,
      timeradd-micros b.system_time (timeradd b.user_time task),
    )

module _ (percent : ℕ → ℕ → ℕ) where
  -- The time, the processor and the memory of a sample.
  abbrev pub TimesOf :
      Readings → Bool → Option BasicInfo → Option ThreadTimes → Sample → Sample → Type 0
  TimesOf r true (some b) (some t) previous s =
      (s.total_time
        ≡ (micros b.user_time + micros b.system_time + micros t.user_time + micros t.system_time)
          % 2 ^ 64)
      × (s.memory_usage ≡ b.resident_size)
      × (s.cpu_usage ≡ (
          if ltb 0 previous.sample_time
          then percent (sub64 s.total_time previous.total_time)
              (sub64 (time_val_to_microseconds r.now) previous.sample_time)
            % 2 ^ 32
          else 0))
  TimesOf r _ _ _ previous s = (s.total_time ≡ 0) × (s.memory_usage ≡ 0) × (s.cpu_usage ≡ 0)

  abbrev Timed : Readings → Bool → Sample → Sample → Type 0
  Timed r has_task previous s =
      (s.sample_time ≡ micros r.now % 2 ^ 64)
      × TimesOf r has_task r.basic_info r.thread_times previous s

  abbrev begun : Readings → Sample
  begun r = record zero_sample { sample_time = time_val_to_microseconds r.now }

  abbrev TaskTimed : Readings → Option BasicInfo → Option ThreadTimes → Sample → Sample → Type 0
  TaskTimed r b t previous s =
      (s.sample_time ≡ micros r.now % 2 ^ 64) × TimesOf r true b t previous s

  task-TaskTimed :
      (r : Readings) (b : Option BasicInfo) (t : Option ThreadTimes) (seconds : ℕ)
      (w : SamplingData) (previous : Sample)
      → TaskTimed r b t previous (
          sample_rates seconds w (
            sample_task percent previous
              (sub64 (time_val_to_microseconds r.now) previous.sample_time)
              b
              t
              (begun r)))
  unfolding sample_rates sample_task time_val_to_microseconds
  task-TaskTimed r none t seconds w previous = (refl, (refl, refl, refl))
  task-TaskTimed r (some b) none seconds w previous = (refl, (refl, refl, refl))
  task-TaskTimed r (some b) (some t) seconds w previous =
      (refl, (total_time-micros b t, refl, refl))

  sampled-Timed :
      (r : Readings) (no_task : Bool) (seconds : ℕ) (w : SamplingData) (previous : Sample)
      → Timed r (if no_task then false else true) previous (
          sample_rates seconds w (
            if no_task
            then begun r
            else sample_task percent previous
                (sub64 (time_val_to_microseconds r.now) previous.sample_time)
                r.basic_info
                r.thread_times
                (begun r)))
  unfolding sample_rates time_val_to_microseconds
  sampled-Timed r true seconds w previous = (refl, (refl, refl, refl))
  sampled-Timed r false seconds w previous =
      task-TaskTimed r r.basic_info r.thread_times seconds w previous

  -- A sample is stamped with the time in microseconds. If there is a task and both calls of
  -- `task_info` succeed it has the sum of the four times of the task, its memory, and a share of the
  -- processor if there was a sample before; else it has 0 for all three.
  pub sample_info-TimesOf :
      (r : Readings) (c : SamplingData) (previous : Sample)
      → let s = (sample_info percent r c previous).1 in
        (s.sample_time ≡ micros r.now % 2 ^ 64)
        × TimesOf r
            (if c.sampled_task == 0 then false else true)
            r.basic_info
            r.thread_times
            previous
            s
  unfolding sample_info
  sample_info-TimesOf r c previous =
      sampled-Timed r (c.sampled_task == 0) (seconds_of r previous)
        (if r.status_okay then work r.probes c else c) previous

-- For the sample of a process that was not sampled before, the seconds are those since 1970.
first_seconds :
    (r : Readings) (previous : Sample)
    → previous.sample_time ≡ 0
    → 0 < r.now.tv_sec
    → r.now.tv_sec < 2 ^ 32
    → r.now.tv_usec < microseconds_per_second
    → seconds_of r previous ≡ r.now.tv_sec
unfolding delta_in_seconds time_val_to_microseconds
first_seconds r previous z some_time h k = ground arith
