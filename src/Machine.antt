-- ===== src/Machine.antt =====
-- What the program asks of the operating system, and the monad in which its functions run.
--
-- The world is a parameter, with one operation for each call. Each operation answers with a new
-- world, which may differ in any way: other processes act between two calls. A machine is the
-- world with the log of the calls that the proofs speak of, the last call first.
use fiveman.Common.{ℕ, Bool, Option, none, some, List, ◌∷◌, if◌then◌else◌}
use fiveman.Common.Int.{ℤ}
use fiveman.Common.Text.{Text}
use fiveman.Types.{Sample, Stat, SamplingData}

-- The arguments of `posix_spawn`, with the files that its file actions open and the process group.
pub record SpawnRequest : Type 0 where
  pub path : Text
  pub argv : List Text
  pub environment : List Text
  pub stdin_file : Text
  pub stdout_file : Option Text
  pub stderr_file : Option Text
  pub pgroup : ℤ

pub data StatResult : Type 0 where
  stat_ok : Stat → StatResult
  eacces : StatResult
  other_error : StatResult

-- POSIX. `kill` answers 0 or -1; `waitpid` is called with WNOHANG; `spawn` answers its status and
-- the pid that it stored.
pub record Posix (W : Type 0) : Type 0 where
  pub kill : ℤ → ℤ → W → W × ℤ
  pub killpg : ℤ → ℤ → W → W
  pub waitpid : ℤ → W → W × ℤ
  pub time : W → W × ℕ
  pub stat : Text → W → W × StatResult
  pub mktemp : Text → W → W × Text
  pub unlink : Text → W → W
  pub spawn : SpawnRequest → W → W × (ℤ × ℤ)

-- src/fiveman_process_statistics.h: the sampling of a process. `none` is a failed assertion.
pub record Sampling (W : Type 0) : Type 0 where
  pub init_sampling : ℤ → W → W × Option SamplingData
  pub teardown_sampling : SamplingData → W → W
  pub sample_info : SamplingData → Sample → W → W × (SamplingData × Sample)

-- Of a `spawn` the log keeps the pid that the state had before.
pub data Call : Type 0 where
  kill : (pid : ℤ) → (signal : ℤ) → (answer : ℤ) → Call
  killpg : (pid : ℤ) → (signal : ℤ) → Call
  waitpid : (pid : ℤ) → (answer : ℤ) → Call
  unlink : (file : Text) → Call
  spawn : (old_pid : ℤ) → (request : SpawnRequest) → (pid : ℤ) → Call

pub record Machine (W : Type 0) : Type 0 where
  pub world : W
  pub calls : List Call

-- `failed` is an assertion that does not hold, `exited` a call of `exit`, `crashed` a use of NULL
-- or of memory out of bounds, `diverged` a loop that used up its fuel.
pub data Outcome (W : Type 0) (A : Type 0) : Type 0 where
  returned : A → Machine W → Outcome W A
  failed : Outcome W A
  exited : ℤ → Outcome W A
  crashed : Outcome W A
  diverged : Outcome W A

abbrev pub M : Type 0 → Type 0 → Type 0
M W A = Machine W → Outcome W A

abbrev pub pure : {W A : Type 0} → A → M W A
pure a m = returned a m

abbrev pub fail : {W A : Type 0} → M W A
fail m = failed

abbrev pub and_then : {W A B : Type 0} → Outcome W A → (A → M W B) → Outcome W B
and_then (returned a m) f = f a m
and_then failed f = failed
and_then (exited n) f = exited n
and_then crashed f = crashed
and_then diverged f = diverged

infixl 5 ◌>>=◌ ◌>>◌
abbrev pub ◌>>=◌ : {W A B : Type 0} → M W A → (A → M W B) → M W B
◌>>=◌ c f m = and_then (c m) f

abbrev pub ◌>>◌ : {W B : Type 0} → M W (Unit {0}) → M W B → M W B
c >> k = c >>= λ _. k

-- What holds of the answer and the machine if the run returns.
abbrev pub Ensures : {W A : Type 0} → Outcome W A → (A → Machine W → Type 0) → Type 0
Ensures (returned a m) Q = Q a m
Ensures _ Q = Unit

abbrev pub assert : {W : Type 0} → Bool → M W (Unit {0})
assert b m = if b then returned tt m else failed

module _ {W : Type 0} (os : Posix W) where
  abbrev pub sys_kill : ℤ → ℤ → M W ℤ
  sys_kill pid signal m =
      let (w, answer) = os.kill pid signal m.world in
      returned answer (record { world = w; calls = Call.kill pid signal answer ∷ m.calls })

  abbrev pub sys_killpg : ℤ → ℤ → M W (Unit {0})
  sys_killpg pid signal m =
      returned tt
        (record { world = os.killpg pid signal m.world; calls = Call.killpg pid signal ∷ m.calls })

  abbrev pub sys_waitpid : ℤ → M W ℤ
  sys_waitpid pid m =
      let (w, answer) = os.waitpid pid m.world in
      returned answer (record { world = w; calls = Call.waitpid pid answer ∷ m.calls })

  abbrev pub sys_time : M W ℕ
  sys_time m = let (w, now) = os.time m.world in returned now (record m { world = w })

  abbrev pub sys_stat : Text → M W StatResult
  sys_stat file m = let (w, r) = os.stat file m.world in returned r (record m { world = w })

  abbrev pub sys_mktemp : Text → M W Text
  sys_mktemp template m =
      let (w, file) = os.mktemp template m.world in returned file (record m { world = w })

  -- `unlink` of NULL fails and does nothing.
  abbrev pub sys_unlink : Option Text → M W (Unit {0})
  sys_unlink none m = returned tt m
  sys_unlink (some file) m =
      returned tt (record { world = os.unlink file m.world; calls = Call.unlink file ∷ m.calls })

  abbrev pub sys_spawn : ℤ → SpawnRequest → M W (ℤ × ℤ)
  sys_spawn old_pid request m =
      let (w, answer) = os.spawn request m.world in
      returned answer (record { world = w; calls = Call.spawn old_pid request answer.1 ∷ m.calls })
