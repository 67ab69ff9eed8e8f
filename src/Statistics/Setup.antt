-- ===== src/Statistics/Setup.antt =====
-- The beginning and the end of a sampling, and the sampling that the rest of the program uses.
use fiveman.Common.{ℕ, Bool, ◌&&◌, Option, none, some, List, [], ◌∷◌, ◌==◌, if◌then◌else◌}
use fiveman.Common.Int.{ℤ}
use fiveman.Common.Text.{Text, codes, fit, show_int}
use fiveman.Machine.{Sampling}
use fiveman.Statistics.{Readings, sample_info}
use fiveman.Types.{SamplingData, IoCounter}

-- Mach, the authorization services and DTrace. A handle is a number, 0 is NULL; `true` is success.
-- The static reference to the authorization is kept in the world.
pub record Mac (W : Type 0) : Type 0 where
  pub authorization_ref : W → Bool
  pub authorization_create : W → W × Bool
  pub authorization_copy_rights : W → W × Bool
  pub authorization_create_rights : W → W × Bool
  pub task_for_pid : ℤ → W → W × Option ℕ
  pub dtrace_open : W → W × ℕ
  pub dtrace_setopt : ℕ → Text → Text → W → W × Bool
  pub dtrace_proc_grab : ℕ → ℤ → W → W × ℕ
  pub dtrace_program_strcompile : ℕ → List Text → W → W × ℕ
  pub dtrace_program_exec : ℕ → ℕ → W → W × Bool
  pub dtrace_go : ℕ → W → W × Bool
  pub dtrace_proc_continue : ℕ → ℕ → W → W
  pub dtrace_proc_release : ℕ → ℕ → W → W
  pub dtrace_stop : ℕ → W → W
  pub dtrace_close : ℕ → W → W
  pub readings : SamplingData → W → W × Readings

-- `none` is a failed assertion.
abbrev pub S : Type 0 → Type 0 → Type 0
S W A = W → W × Option A

abbrev pub after : {W A B : Type 0} → W × Option A → (A → S W B) → W × Option B
after (w, none) f = (w, none)
after (w, some a) f = f a w

infixl 5 ◌>>=◌ ◌>>◌
abbrev pub ◌>>=◌ : {W A B : Type 0} → S W A → (A → S W B) → S W B
◌>>=◌ c f w = after (c w) f

abbrev pub ◌>>◌ : {W B : Type 0} → S W (Unit {0}) → S W B → S W B
c >> k = c >>= λ _. k

abbrev pub done : {W A : Type 0} → A → S W A
done a w = (w, some a)

-- assert(call == success), assert(handle != NULL), and a call that cannot fail.
abbrev pub success : {W : Type 0} → (W → W × Bool) → S W (Unit {0})
success call w = let (w', okay) = call w in (w', if okay then some tt else none)

abbrev pub not_null : {W : Type 0} → (W → W × ℕ) → S W ℕ
not_null call w = let (w', handle) = call w in (w', if handle == 0 then none else some handle)

abbrev pub perform : {W : Type 0} → (W → W) → S W (Unit {0})
perform call w = (call w, some tt)

abbrev pub zero_counter : IoCounter
zero_counter = record { start = 0; read = 0; write = 0 }

module _ {W : Type 0} (mac : Mac W) where
  -- The five options are all set, whether one fails or not; `|` of their results is -1 if one did.
  unfoldable pub set_opts : ℕ → W → W × Bool
  set_opts dtp w =
      let (w₁, strsize) = mac.dtrace_setopt dtp (codes "strsize") (codes "4096") w in
      let (w₂, bufsize) = mac.dtrace_setopt dtp (codes "bufsize") (codes "64k") w₁ in
      let (w₃, aggsize) = mac.dtrace_setopt dtp (codes "aggsize") (codes "0k") w₂ in
      let (w₄, specsize) = mac.dtrace_setopt dtp (codes "specsize") (codes "0k") w₃ in
      let (w₅, arch) = mac.dtrace_setopt dtp (codes "arch") (codes "x86_64") w₄ in
      (w₅, strsize && bufsize && aggsize && specsize && arch)

  unfoldable pub authorize : S W (Unit {0})
  authorize w =
      if mac.authorization_ref w
      then (w, some tt)
      else (do
        success mac.authorization_create
        success mac.authorization_copy_rights
        success mac.authorization_create_rights)
          w

  -- fiveman_init_sampling
  unfoldable pub init_sampling : ℤ → S W SamplingData
  unfolding authorize set_opts
  init_sampling pid = do
    authorize
    task ← mac.task_for_pid pid
    dtp ← not_null mac.dtrace_open
    success (set_opts dtp)
    proc ← not_null (mac.dtrace_proc_grab dtp pid)
    prog ←
        not_null
          (mac.dtrace_program_strcompile dtp (codes "/bin/sh" ∷ fit 1024 (show_int pid) ∷ []))
    success (mac.dtrace_program_exec dtp prog)
    success (mac.dtrace_go dtp)
    perform (mac.dtrace_proc_continue dtp proc)
    done (record {
      fs = zero_counter;
      net = zero_counter;
      dev = zero_counter;
      sampled_task = task;
      dtp = dtp;
      prog = prog;
      proc = proc;
    })

  -- fiveman_teardown_sampling, of a context that is not NULL.
  unfoldable pub teardown_sampling : SamplingData → W → W
  teardown_sampling ctxt w =
      let w₁ = mac.dtrace_proc_continue ctxt.dtp ctxt.proc w in
      let w₂ = mac.dtrace_proc_release ctxt.dtp ctxt.proc w₁ in
      mac.dtrace_close ctxt.dtp (mac.dtrace_stop ctxt.dtp w₂)

  -- The three functions of src/fiveman_process_statistics.h.
  unfoldable pub mac_sampling : (ℕ → ℕ → ℕ) → Sampling W
  unfolding init_sampling teardown_sampling
  mac_sampling percent = record {
    init_sampling = init_sampling;
    teardown_sampling = teardown_sampling;
    sample_info = λ ctxt previous w.
        let (w', r) = mac.readings ctxt w in (w', sample_info percent r ctxt previous);
  }
