-- ===== src/Statistics.antt =====
-- src/fiveman_process_statistics_mac.c: the sampling of a process. What Mach, DTrace and the clock
-- answer is a parameter, and so is the rounding of a quotient of floats. `uint64_t` wraps.
pub mod Setup
pub mod Totals
pub mod Tracing
pub mod Times
pub mod Clear
mod Tests
use fiveman.Common.{
  ℕ, ◌+◌, ◌-◌, ◌*◌, ◌/◌, ◌%◌, ◌^◌, Bool, true, false, ◌&&◌, Option, none, some, List, [], ◌∷◌, ltb,
  leb, ◌==◌, if◌then◌else◌,
}
use fiveman.Types.{IoCounter, SamplingData, Sample, zero_sample}

abbrev pub microseconds_per_second : ℕ
microseconds_per_second = 1000000

abbrev pub add64 : ℕ → ℕ → ℕ
add64 a b = (a + b) % 2 ^ 64

-- a - b
abbrev pub sub64 : ℕ → ℕ → ℕ
sub64 a b = (a + 2 ^ 64 - b) % 2 ^ 64

-- `struct timeval`, and the `time_value_t` of Mach, with fields that are not negative.
pub record TimeVal : Type 0 where
  pub tv_sec : ℕ
  pub tv_usec : ℕ

unfoldable pub time_val_to_microseconds : TimeVal → ℕ
time_val_to_microseconds tv = (tv.tv_sec * microseconds_per_second + tv.tv_usec) % 2 ^ 64

-- The macro of sys/time.h.
unfoldable pub timeradd : TimeVal → TimeVal → TimeVal
timeradd a b =
    let sec = a.tv_sec + b.tv_sec in
    let usec = a.tv_usec + b.tv_usec in
    if leb microseconds_per_second usec
    then record { tv_sec = sec + 1; tv_usec = usec - microseconds_per_second }
    else record { tv_sec = sec; tv_usec = usec }

-- io_record: `kind` is the field `type`, of which 1 to 6 are an IO_RECORD_TYPE.
pub record IoRecord : Type 0 where
  pub block_size : ℕ
  pub start : ℕ
  pub kind : ℕ

abbrev pub io_record_dev_read : ℕ
io_record_dev_read = 1

abbrev pub io_record_dev_write : ℕ
io_record_dev_write = 2

abbrev pub io_record_fs_read : ℕ
io_record_fs_read = 3

abbrev pub io_record_fs_write : ℕ
io_record_fs_write = 4

abbrev pub io_record_net_read : ℕ
io_record_net_read = 5

abbrev pub io_record_net_write : ℕ
io_record_net_write = 6

-- `dtrd_action`: the two values that are told apart, and any other.
pub data Action : Type 0 where
  difexpr exit other : Action

pub data Verdict : Type 0 where
  consume_next consume_this : Verdict

-- A call of `dorec` by DTrace: `dtrd_action` and `dtrd_size`, if there is a record, and the data.
pub record Probe : Type 0 where
  pub rec : Option (Action × ℕ)
  pub addr : IoRecord

abbrev pub add_read : ℕ → IoCounter → IoCounter
add_read n c = record c { read = add64 c.read n }

abbrev pub add_write : ℕ → IoCounter → IoCounter
add_write n c = record c { write = add64 c.write n }

-- The switch on the type of a record.
unfoldable pub count_record : IoRecord → SamplingData → SamplingData
count_record r ctxt =
    if r.kind == io_record_dev_read
    then record ctxt { dev = add_read r.block_size ctxt.dev }
    else if r.kind == io_record_dev_write
    then record ctxt { dev = add_write r.block_size ctxt.dev }
    else if r.kind == io_record_fs_read
    then record ctxt { fs = add_read r.block_size ctxt.fs }
    else if r.kind == io_record_fs_write
    then record ctxt { fs = add_write r.block_size ctxt.fs }
    else if r.kind == io_record_net_read
    then record ctxt { net = add_read r.block_size ctxt.net }
    else if r.kind == io_record_net_write
    then record ctxt { net = add_write r.block_size ctxt.net }
    else ctxt

abbrev pub verdict : Action → Verdict
verdict exit = consume_next
verdict _ = consume_this

abbrev pub has_values : Action → ℕ → Bool
has_values difexpr size = ltb 0 size
has_values _ size = false

unfoldable pub dorec : Probe → SamplingData → SamplingData × Verdict
unfolding count_record
dorec probe ctxt = elim probe.rec [
  | none ↦ (ctxt, consume_next)
  | some (act, size) ↦
      (if has_values act size then count_record probe.addr ctxt else ctxt, verdict act)
]

-- The calls of `dorec` that `dtrace_work` makes.
unfoldable pub work : List Probe → SamplingData → SamplingData
unfolding dorec
work [] ctxt = ctxt
work (p ∷ ps) ctxt = work ps (dorec p ctxt).0

pub record BasicInfo : Type 0 where
  pub user_time : TimeVal
  pub system_time : TimeVal
  pub resident_size : ℕ

pub record ThreadTimes : Type 0 where
  pub user_time : TimeVal
  pub system_time : TimeVal

-- What a sample asks of the system, as it answers while the sample is taken. `probes` are the calls
-- of `dorec`, none of which is made unless `dtrace_status` answers DTRACE_STATUS_OKAY.
pub record Readings : Type 0 where
  pub status_okay : Bool
  pub probes : List Probe
  pub now : TimeVal
  pub basic_info : Option BasicInfo
  pub thread_times : Option ThreadTimes

unfoldable pub total_time : BasicInfo → ThreadTimes → ℕ
unfolding timeradd time_val_to_microseconds
total_time b t =
    let task = timeradd t.user_time t.system_time in
    time_val_to_microseconds (timeradd b.system_time (timeradd b.user_time task))

-- `time_delta_in_seconds`, of 32 bits.
unfoldable pub delta_in_seconds : ℕ → ℕ
delta_in_seconds time_delta =
    let seconds = time_delta / microseconds_per_second % 2 ^ 32 in
    if seconds == 0 then 1 else seconds

abbrev pub cleared : IoCounter → IoCounter
cleared c = record c { read = 0; write = 0 }

unfoldable pub clear_counters : SamplingData → SamplingData
clear_counters ctxt = record ctxt {
  fs = cleared ctxt.fs;
  net = cleared ctxt.net;
  dev = cleared ctxt.dev;
}

unfoldable pub sample_rates : ℕ → SamplingData → Sample → Sample
sample_rates seconds ctxt sample = record sample {
  io_read_rate = ctxt.dev.read / seconds;
  io_write_rate = ctxt.dev.write / seconds;
  net_read_rate = ctxt.net.read / seconds;
  net_write_rate = ctxt.net.write / seconds;
  fs_read_rate = ctxt.fs.read / seconds;
  fs_write_rate = ctxt.fs.write / seconds;
}

-- `lround(a / b * 100.0)`, of which `cpu_usage` takes 32 bits.
module _ (percent : ℕ → ℕ → ℕ) where
  -- What the two calls of `task_info` add to the sample, both of which must succeed.
  unfoldable pub sample_task : Sample → ℕ → Option BasicInfo → Option ThreadTimes → Sample → Sample
  unfolding total_time
  sample_task previous time_delta (some b) (some t) sample =
      let total = total_time b t in
      record sample {
        total_time = total;
        cpu_usage =
            if ltb 0 previous.sample_time
            then percent (sub64 total previous.total_time) time_delta % 2 ^ 32
            else sample.cpu_usage;
        memory_usage = b.resident_size;
      }
  sample_task previous time_delta (some b) none sample = sample
  sample_task previous time_delta none thread_times sample = sample

  -- fiveman_sample_info, into the sample that its caller has cleared.
  unfoldable pub sample_info : Readings → SamplingData → Sample → SamplingData × Sample
  unfolding work time_val_to_microseconds delta_in_seconds clear_counters sample_task sample_rates
  sample_info r ctxt previous =
      let worked = if r.status_okay then work r.probes ctxt else ctxt in
      let now_time = time_val_to_microseconds r.now in
      let time_delta = sub64 now_time previous.sample_time in
      let begun = record zero_sample { sample_time = now_time } in
      let sampled =
        if ctxt.sampled_task == 0
        then begun
        else sample_task previous time_delta r.basic_info r.thread_times begun in
      (clear_counters worked, sample_rates (delta_in_seconds time_delta) worked sampled)
