-- ===== src/Statistics/Totals.antt =====
-- The counters of a sampling context are the sums of what DTrace has reported.
use fiveman.Common.{
  subst, sym, ap, ℕ, ◌+◌, ◌/◌, ◌<◌, ◌%◌, ◌^◌, Bool, true, false, Option, none, some, List, [], ◌∷◌,
  ◌≡◌, refl, ◌∙◌, arith, Bool-cases, inl, inr, ◌==◌, if◌then◌else◌,
}
use fiveman.Types.{SamplingData, Sample}
use fiveman.Statistics.{
  add64, IoRecord, Action, Probe, has_values, count_record, dorec, work, Readings, sample_info,
  clear_counters, sample_rates, delta_in_seconds, sub64, time_val_to_microseconds,
}

-- What one call of `dorec` reports of a type of record.
abbrev pub amount : ℕ → Option (Action × ℕ) → IoRecord → ℕ
amount kind none r = 0
amount kind (some (act, size)) r =
    if has_values act size then (if r.kind == kind then r.block_size else 0) else 0

abbrev pub total : ℕ → List Probe → ℕ
total kind [] = 0
total kind (p ∷ ps) = amount kind p.rec p.addr + total kind ps

-- The six counters are of 64 bits.
pub record IsBounded (c : SamplingData) : Type 0 where
  pub dev_read : c.dev.read < 2 ^ 64
  pub dev_write : c.dev.write < 2 ^ 64
  pub fs_read : c.fs.read < 2 ^ 64
  pub fs_write : c.fs.write < 2 ^ 64
  pub net_read : c.net.read < 2 ^ 64
  pub net_write : c.net.write < 2 ^ 64

-- Each counter has grown by what the probes report of its type of record, and the rest is the same.
pub record Counted (ps : List Probe) (c c' : SamplingData) : Type 0 where
  pub dev_read : c'.dev.read ≡ add64 c.dev.read (total 1 ps)
  pub dev_write : c'.dev.write ≡ add64 c.dev.write (total 2 ps)
  pub fs_read : c'.fs.read ≡ add64 c.fs.read (total 3 ps)
  pub fs_write : c'.fs.write ≡ add64 c.fs.write (total 4 ps)
  pub net_read : c'.net.read ≡ add64 c.net.read (total 5 ps)
  pub net_write : c'.net.write ≡ add64 c.net.write (total 6 ps)
  pub sampled_task : c'.sampled_task ≡ c.sampled_task
  pub dtp : c'.dtp ≡ c.dtp
  pub prog : c'.prog ≡ c.prog
  pub proc : c'.proc ≡ c.proc

Counted-IsBounded : {ps : List Probe} {c c' : SamplingData} → Counted ps c c' → IsBounded c'
Counted-IsBounded h = omega arith

Counted-nil : (c : SamplingData) → IsBounded c → Counted [] c c
Counted-nil c b = ground arith

Counted-cons :
    (p : Probe) (ps : List Probe) (c c₁ c₂ : SamplingData)
    → Counted (p ∷ []) c c₁
    → Counted ps c₁ c₂
    → Counted (p ∷ ps) c c₂
Counted-cons p ps c c₁ c₂ h k = omega arith

count_record-Counted :
    (p : Probe) (c : SamplingData) (act : Action) (size : ℕ)
    → p.rec ≡ some (act, size)
    → has_values act size ≡ true
    → IsBounded c
    → Counted (p ∷ []) c (count_record p.addr c)
unfolding count_record
count_record-Counted p c act size e v b = ground arith

dorec-Counted :
    (rec : Option (Action × ℕ)) (addr : IoRecord) (c : SamplingData)
    → IsBounded c
    → Counted
        (record { rec = rec; addr = addr } ∷ [])
        c
        (dorec (record { rec = rec; addr = addr }) c).0
unfolding dorec
dorec-Counted none addr c b = ground arith
dorec-Counted (some (act, size)) addr c b = elim (Bool-cases (has_values act size)) [
  | inl v ↦
      let p : Probe = record { rec = some (act, size); addr = addr } in
      subst (λ values. Counted (p ∷ []) c (if values then count_record addr c else c)) (sym v)
        (count_record-Counted p c act size refl v b)
  | inr v ↦ ground arith
]

work-Counted : (ps : List Probe) (c : SamplingData) → IsBounded c → Counted ps c (work ps c)
unfolding work
work-Counted [] c b = Counted-nil c b
work-Counted (p ∷ ps) c b =
    let first = dorec-Counted p.rec p.addr c b in
    Counted-cons p ps c (dorec p c).0 (work ps (dorec p c).0) first
      (work-Counted ps (dorec p c).0 (Counted-IsBounded first))

-- The calls of `dorec` that are made.
abbrev pub heard : Readings → List Probe
heard r = if r.status_okay then r.probes else []

abbrev pub seconds_of : Readings → Sample → ℕ
seconds_of r previous =
    delta_in_seconds (sub64 (time_val_to_microseconds r.now) previous.sample_time)

pub record IsReset (c : SamplingData) : Type 0 where
  pub dev_read : c.dev.read ≡ 0
  pub dev_write : c.dev.write ≡ 0
  pub fs_read : c.fs.read ≡ 0
  pub fs_write : c.fs.write ≡ 0
  pub net_read : c.net.read ≡ 0
  pub net_write : c.net.write ≡ 0

-- The rates are taken over one second at least, from what was counted before and what is reported
-- now, and nothing is left to be counted again.
pub record Reported (r : Readings) (c : SamplingData) (previous : Sample) (c' : SamplingData)
    (s : Sample) : Type 0 where
  pub seconds : 0 < seconds_of r previous
  pub io_read : s.io_read_rate ≡ add64 c.dev.read (total 1 (heard r)) / seconds_of r previous
  pub io_write : s.io_write_rate ≡ add64 c.dev.write (total 2 (heard r)) / seconds_of r previous
  pub fs_read : s.fs_read_rate ≡ add64 c.fs.read (total 3 (heard r)) / seconds_of r previous
  pub fs_write : s.fs_write_rate ≡ add64 c.fs.write (total 4 (heard r)) / seconds_of r previous
  pub net_read : s.net_read_rate ≡ add64 c.net.read (total 5 (heard r)) / seconds_of r previous
  pub net_write : s.net_write_rate ≡ add64 c.net.write (total 6 (heard r)) / seconds_of r previous
  pub reset : IsReset c'
  pub sampled_task : c'.sampled_task ≡ c.sampled_task

clear_counters-IsReset : (c : SamplingData) → IsReset (clear_counters c)
unfolding clear_counters
clear_counters-IsReset c = ground arith

delta_in_seconds_pos : (d : ℕ) → 0 < delta_in_seconds d
unfolding delta_in_seconds
delta_in_seconds_pos d = ground arith

heard-Counted :
    (okay : Bool) (ps : List Probe) (c : SamplingData)
    → IsBounded c
    → Counted (if okay then ps else []) c (if okay then work ps c else c)
heard-Counted true ps c b = work-Counted ps c b
heard-Counted false ps c b = Counted-nil c b

module _ (percent : ℕ → ℕ → ℕ) where
  -- A sample has for each kind of record the bytes counted before and reported now, to 64 bits, over
  -- the whole seconds since the previous sample, one at least, and resets the counters.
  pub sample_info-Reported :
      (r : Readings) (c : SamplingData) (previous : Sample)
      → IsBounded c
      → Reported r c previous
          (sample_info percent r c previous).0
          (sample_info percent r c previous).1
  unfolding sample_info sample_rates
  sample_info-Reported r c previous b =
      let per_second = λ (n : ℕ). n / seconds_of r previous in
      let k = heard-Counted r.status_okay r.probes c b in
      record {
        seconds = delta_in_seconds_pos _;
        io_read = ap per_second k.dev_read;
        io_write = ap per_second k.dev_write;
        fs_read = ap per_second k.fs_read;
        fs_write = ap per_second k.fs_write;
        net_read = ap per_second k.net_read;
        net_write = ap per_second k.net_write;
        reset = clear_counters-IsReset (if r.status_okay then work r.probes c else c);
        sampled_task = k.sampled_task;
      }

  -- Samples taken one after the other, each from the one before.
  unfoldable pub samples : List Readings → SamplingData → Sample → List Sample
  samples [] c previous = []
  samples (r ∷ rest) c previous =
      let (c', s) = sample_info percent r c previous in s ∷ samples rest c' s

  abbrev pub PerSecond : Readings → Sample → Sample → Type 0
  PerSecond r previous s =
      (0 < seconds_of r previous)
      × (s.io_read_rate ≡ total 1 (heard r) % 2 ^ 64 / seconds_of r previous)
      × (s.io_write_rate ≡ total 2 (heard r) % 2 ^ 64 / seconds_of r previous)
      × (s.fs_read_rate ≡ total 3 (heard r) % 2 ^ 64 / seconds_of r previous)
      × (s.fs_write_rate ≡ total 4 (heard r) % 2 ^ 64 / seconds_of r previous)
      × (s.net_read_rate ≡ total 5 (heard r) % 2 ^ 64 / seconds_of r previous)
      × (s.net_write_rate ≡ total 6 (heard r) % 2 ^ 64 / seconds_of r previous)

  abbrev pub AllPerSecond : List Readings → Sample → List Sample → Type 0
  AllPerSecond [] previous [] = Unit
  AllPerSecond (r ∷ rest) previous (s ∷ ss) = PerSecond r previous s × AllPerSecond rest s ss
  AllPerSecond _ previous _ = ⊥

  pub Reported-PerSecond :
      (r : Readings) (c : SamplingData) (previous : Sample) (c' : SamplingData) (s : Sample)
      → IsReset c
      → Reported r c previous c' s
      → PerSecond r previous s
  Reported-PerSecond r c previous c' s z k =
      let fresh =
        λ (n m : ℕ) (e : n ≡ 0). ap (λ (t : ℕ). t / seconds_of r previous) (add64-zero n m e) in
      (
        k.seconds,
        k.io_read ∙ fresh _ _ z.dev_read,
        k.io_write ∙ fresh _ _ z.dev_write,
        k.fs_read ∙ fresh _ _ z.fs_read,
        k.fs_write ∙ fresh _ _ z.fs_write,
        k.net_read ∙ fresh _ _ z.net_read,
        k.net_write ∙ fresh _ _ z.net_write,
      )
    where
      add64-zero : (n m : ℕ) → n ≡ 0 → add64 n m ≡ m % 2 ^ 64
      add64-zero n m e = omega arith

  -- From cleared counters on each sample has the bytes that DTrace has reported for it, to 64 bits,
  -- over the whole seconds since the sample before, one at least: what is reported for one sample
  -- is in no other.
  pub samples-AllPerSecond :
      (rs : List Readings) (c : SamplingData) (previous : Sample)
      → IsReset c
      → AllPerSecond rs previous (samples rs c previous)
  unfolding samples
  samples-AllPerSecond [] c previous z = tt
  samples-AllPerSecond (r ∷ rs) c previous z =
      let k = sample_info-Reported r c previous (omega arith) in
      (
        Reported-PerSecond r c previous _ _ z k,
        samples-AllPerSecond rs (sample_info percent r c previous).0
            (sample_info percent r c previous).1 k.reset,
      )
