-- ===== src/Statistics/Tracing.antt =====
-- The D program of src/fiveman_process_statistics_mac.c (progstr): the records that it traces for a
-- process, clause by clause.
--
-- A firing is a probe with what the clauses read of it. Of the clauses on the same probe the first
-- comes first. `self->socket` is a variable of each thread; the global records are written and traced
-- in one clause. The fields of a record are cut to their 32 or 64 bits.
pub mod Counted
use fiveman.Common.{
  ℕ, ◌%◌, ◌^◌, Bool, true, false, ◌||◌, some, List, [], ◌∷◌, ◌++◌, ◌==◌, if◌then◌else◌,
}
use fiveman.Common.Text.{Text, codes}
use fiveman.Statistics.{
  IoRecord, Probe, difexpr, io_record_dev_read, io_record_dev_write, io_record_fs_read,
  io_record_fs_write, io_record_net_read, io_record_net_write,
}

-- io:::done and io:::wait-done with b_bcount and B_WRITE; fsinfo with arg1; the system calls for
-- reading and for writing with arg0, which is the file descriptor, and fds[arg0].
pub data Firing : Type 0 where
  io : (pid : ℕ) → (write : Bool) → (b_bcount : ℕ) → (timestamp : ℕ) → Firing
  fsinfo_read : (pid : ℕ) → (arg1 : ℕ) → (timestamp : ℕ) → Firing
  fsinfo_write : (pid : ℕ) → (arg1 : ℕ) → (timestamp : ℕ) → Firing
  read_entry :
      (pid : ℕ)
      → (tid : ℕ) → (arg0 : ℕ) → (fi_fs : Text) → (fi_name : Text) → (timestamp : ℕ) → Firing
  write_entry :
      (pid : ℕ)
      → (tid : ℕ) → (arg0 : ℕ) → (fi_fs : Text) → (fi_name : Text) → (timestamp : ℕ) → Firing

abbrev same_text : Text → Text → Bool
same_text [] [] = true
same_text (a ∷ xs) (b ∷ ys) = let rest = same_text xs ys in if a == b then rest else false
same_text _ _ = false

unfoldable pub is_socket : Text → Text → Bool
is_socket fi_fs fi_name = same_text fi_fs (codes "sockfs") || same_text fi_name (codes "<socket>")

-- self->socket, by thread.
abbrev pub SelfSocket : Type 0
SelfSocket = ℕ → Bool

abbrev pub set_socket : ℕ → Bool → SelfSocket → SelfSocket
set_socket tid value self t = if t == tid then value else self t

-- What a clause leaves in the record that it traces.
abbrev pub io_record : ℕ → ℕ → ℕ → IoRecord
io_record block_size timestamp kind = record {
  block_size = block_size % 2 ^ 32;
  start = timestamp % 2 ^ 64;
  kind = kind;
}

-- The two clauses of a system call.
unfoldable pub socket_clauses :
    ℕ → ℕ → ℕ → ℕ → ℕ → Bool → ℕ → SelfSocket → SelfSocket × List IoRecord
socket_clauses target kind pid tid arg0 socket timestamp self =
    let self' = if pid == target then set_socket tid socket self else self in
    if self' tid
    then (set_socket tid false self', io_record arg0 timestamp kind ∷ [])
    else (self', [])

-- `target` is `$1`, the process that is sampled.
unfoldable pub fire : ℕ → Firing → SelfSocket → SelfSocket × List IoRecord
unfolding socket_clauses
fire target (io pid write b_bcount timestamp) self = (
  self,
  if pid == target
      then io_record b_bcount timestamp (if write then io_record_dev_write else io_record_dev_read)
        ∷ []
      else [],
)
fire target (fsinfo_read pid arg1 timestamp) self =
    (self, if pid == target then io_record arg1 timestamp io_record_fs_read ∷ [] else [])
fire target (fsinfo_write pid arg1 timestamp) self =
    (self, if pid == target then io_record arg1 timestamp io_record_fs_write ∷ [] else [])
fire target (read_entry pid tid arg0 fi_fs fi_name timestamp) self =
    socket_clauses target io_record_net_read pid tid arg0 (is_socket fi_fs fi_name) timestamp self
fire target (write_entry pid tid arg0 fi_fs fi_name timestamp) self =
    socket_clauses target io_record_net_write pid tid arg0 (is_socket fi_fs fi_name) timestamp self

unfoldable pub trace : ℕ → List Firing → SelfSocket → List IoRecord
unfolding fire
trace target [] self = []
trace target (f ∷ fs) self = let fired = fire target f self in fired.1 ++ trace target fs fired.0

-- A traced record as `dorec` gets it, of the size of an io_record.
abbrev pub traced : IoRecord → Probe
traced r = record { rec = some (difexpr, 24); addr = r }
