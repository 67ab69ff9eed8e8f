-- ===== src/Statistics/Tracing/Counted.antt =====
-- What a sample has of the firings of the probes.
use fiveman.Common.{
  ℕ, ◌+◌, ◌/◌, ◌%◌, ◌^◌, Bool, true, false, ◌&&◌, List, [], ◌∷◌, ◌++◌, ◌≡◌, refl, ap, ◌∙◌, arith,
  ◌==◌, if◌then◌else◌, map, Bool-cases, inl, inr,
}
use fiveman.Types.{SamplingData, Sample}
use fiveman.Statistics.{Readings, IoRecord, sample_info}
use fiveman.Statistics.Totals.{
  total, heard, seconds_of, IsReset, Reported-PerSecond, sample_info-Reported,
}
use fiveman.Statistics.Tracing.{
  Firing, io, fsinfo_read, fsinfo_write, read_entry, write_entry, is_socket, SelfSocket, set_socket,
  socket_clauses, fire, trace, traced,
}

-- Which of the six counters a firing goes to.
abbrev pub kind_of : Firing → ℕ
kind_of (io pid write b_bcount timestamp) = if write then 2 else 1
kind_of (fsinfo_read pid arg1 timestamp) = 3
kind_of (fsinfo_write pid arg1 timestamp) = 4
kind_of (read_entry pid tid arg0 fi_fs fi_name timestamp) = 5
kind_of (write_entry pid tid arg0 fi_fs fi_name timestamp) = 6

-- Whether it is of the process, and for a system call on a socket.
abbrev pub is_of : ℕ → Firing → Bool
is_of target (io pid write b_bcount timestamp) = pid == target
is_of target (fsinfo_read pid arg1 timestamp) = pid == target
is_of target (fsinfo_write pid arg1 timestamp) = pid == target
is_of target (read_entry pid tid arg0 fi_fs fi_name timestamp) =
    pid == target && is_socket fi_fs fi_name
is_of target (write_entry pid tid arg0 fi_fs fi_name timestamp) =
    pid == target && is_socket fi_fs fi_name

-- The number of bytes of an io or fsinfo, and the file descriptor of a system call.
abbrev pub bytes_or_descriptor : Firing → ℕ
bytes_or_descriptor (io pid write b_bcount timestamp) = b_bcount % 2 ^ 32
bytes_or_descriptor (fsinfo_read pid arg1 timestamp) = arg1 % 2 ^ 32
bytes_or_descriptor (fsinfo_write pid arg1 timestamp) = arg1 % 2 ^ 32
bytes_or_descriptor (read_entry pid tid arg0 fi_fs fi_name timestamp) = arg0 % 2 ^ 32
bytes_or_descriptor (write_entry pid tid arg0 fi_fs fi_name timestamp) = arg0 % 2 ^ 32

abbrev pub adds : ℕ → ℕ → Firing → ℕ
adds kind target f =
    if is_of target f then (if kind_of f == kind then bytes_or_descriptor f else 0) else 0

-- The sum over the firings.
abbrev pub fired : ℕ → ℕ → List Firing → ℕ
fired kind target [] = 0
fired kind target (f ∷ fs) = adds kind target f + fired kind target fs

-- No thread is between the two clauses of a system call.
abbrev pub IsOff : SelfSocket → Type 0
IsOff self = (tid : ℕ) → self tid ≡ false

set_socket-same :
    (tid : ℕ) (value : Bool) (self : SelfSocket) → set_socket tid value self tid ≡ value
set_socket-same tid value self = ground arith

set_socket-IsOff : (tid : ℕ) (self : SelfSocket) → IsOff self → IsOff (set_socket tid false self)
set_socket-IsOff tid self off t = let h = off t in ground arith

set_socket_twice-IsOff :
    (tid : ℕ) (self : SelfSocket)
    → IsOff self
    → IsOff (set_socket tid false (set_socket tid true self))
set_socket_twice-IsOff tid self off t = let h = off t in ground arith

-- What a clause pair leaves and traces.
abbrev Fires : ℕ → Bool → ℕ → ℕ → SelfSocket × List IoRecord → Type 0
Fires kind counts own size (self, rs) =
    IsOff self
    × (total kind (map traced rs)
        ≡ (if counts then (if own == kind then size % 2 ^ 32 else 0) else 0))

socket_clauses-Fires :
    (kind target own pid tid arg0 : ℕ) (socket : Bool) (timestamp : ℕ) (self : SelfSocket)
    → IsOff self
    → Fires kind
        (pid == target && socket)
        own
        arg0
        (socket_clauses target own pid tid arg0 socket timestamp self)
unfolding socket_clauses
socket_clauses-Fires kind target own pid tid arg0 true timestamp self off =
    elim (Bool-cases (pid == target)) [
      | inl mine ↦
          rw (mine, set_socket-same tid true self)
            (set_socket_twice-IsOff tid self off, ground arith)
      | inr other ↦ rw (other, off tid) (off, refl)
    ]
socket_clauses-Fires kind target own pid tid arg0 false timestamp self off =
    elim (Bool-cases (pid == target)) [
      | inl mine ↦ rw (mine, set_socket-same tid false self) (set_socket-IsOff tid self off, refl)
      | inr other ↦ rw (other, off tid) (off, refl)
    ]

total-append :
    (kind : ℕ) (xs ys : List IoRecord)
    → total kind (map traced (xs ++ ys)) ≡ total kind (map traced xs) + total kind (map traced ys)
total-append kind [] ys = omega arith
total-append kind (x ∷ xs) ys = omega (arith, total-append kind xs ys)

fire-Fires :
    (kind target : ℕ) (f : Firing) (self : SelfSocket)
    → IsOff self
    → IsOff (fire target f self).0
      × (total kind (map traced (fire target f self).1) ≡ adds kind target f)
unfolding fire
fire-Fires kind target (io pid write b_bcount timestamp) self off = (off, ground arith)
fire-Fires kind target (fsinfo_read pid arg1 timestamp) self off = (off, ground arith)
fire-Fires kind target (fsinfo_write pid arg1 timestamp) self off = (off, ground arith)
fire-Fires kind target (read_entry pid tid arg0 fi_fs fi_name timestamp) self off =
    socket_clauses-Fires kind target 5 pid tid arg0 (is_socket fi_fs fi_name) timestamp self off
fire-Fires kind target (write_entry pid tid arg0 fi_fs fi_name timestamp) self off =
    socket_clauses-Fires kind target 6 pid tid arg0 (is_socket fi_fs fi_name) timestamp self off

total-trace :
    (kind target : ℕ) (fs : List Firing) (self : SelfSocket)
    → IsOff self
    → total kind (map traced (trace target fs self)) ≡ fired kind target fs
unfolding trace
total-trace kind target [] self off = refl
total-trace kind target (f ∷ fs) self off =
    let (off', now) = fire-Fires kind target f self off in
    total-append kind (fire target f self).1 (trace target fs (fire target f self).0)
    ∙ omega (arith, now, total-trace kind target fs (fire target f self).0 off')

heard-fired :
    (kind target : ℕ) (fs : List Firing) (self : SelfSocket) (r : Readings)
    → IsOff self
    → r.status_okay ≡ true
    → r.probes ≡ map traced (trace target fs self)
    → total kind (heard r) ≡ fired kind target fs
heard-fired kind target fs self r off okay probes =
    rw (okay, probes) (total-trace kind target fs self off)

module _ (percent : ℕ → ℕ → ℕ) where
  -- The rates of a sample by what has happened.
  abbrev pub FiredPerSecond : ℕ → List Firing → Readings → Sample → Sample → Type 0
  FiredPerSecond target fs r previous s =
      (s.io_read_rate ≡ fired 1 target fs % 2 ^ 64 / seconds_of r previous)
      × (s.io_write_rate ≡ fired 2 target fs % 2 ^ 64 / seconds_of r previous)
      × (s.fs_read_rate ≡ fired 3 target fs % 2 ^ 64 / seconds_of r previous)
      × (s.fs_write_rate ≡ fired 4 target fs % 2 ^ 64 / seconds_of r previous)
      × (s.net_read_rate ≡ fired 5 target fs % 2 ^ 64 / seconds_of r previous)
      × (s.net_write_rate ≡ fired 6 target fs % 2 ^ 64 / seconds_of r previous)

  -- From cleared counters, when DTrace is fine and reports what the D program traces: the device and
  -- file rates of the sample are the bytes of the process's reads and writes, per second, and the
  -- network rates are the sums of the file descriptors of its system calls on sockets, per second.
  pub sample_info-FiredPerSecond :
      (target : ℕ) (fs : List Firing) (self : SelfSocket) (r : Readings) (c : SamplingData)
      (previous : Sample)
      → IsOff self
      → r.status_okay ≡ true
      → r.probes ≡ map traced (trace target fs self)
      → IsReset c
      → FiredPerSecond target fs r previous (sample_info percent r c previous).1
  sample_info-FiredPerSecond target fs self r c previous off okay probes z =
      let h =
        Reported-PerSecond percent r c previous _ _ z
          (sample_info-Reported percent r c previous (omega arith)) in
      let by = λ (kind : ℕ).
        ap (λ n. n % 2 ^ 64 / seconds_of r previous)
          (heard-fired kind target fs self r off okay probes) in
      (h.1 ∙ by 1, h.2 ∙ by 2, h.3 ∙ by 3, h.4 ∙ by 4, h.5 ∙ by 5, h.6 ∙ by 6)
