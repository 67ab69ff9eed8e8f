-- ===== src/Process/Converge/Policy.antt =====
-- What a converge does, by the intent: how many processes it starts and which signals it sends.
use fiveman.Common.{Bool, true, false, Option, List, ◌∷◌, ◌≡◌, ◌⊎◌, arith, refl, subst, ◌∙◌}
use fiveman.Common.Int.{ℤ, pos, is_positive, is_zero}
use fiveman.Common.Text.{Text}
use fiveman.Machine.{Posix, Sampling, Machine, Call, Ensures, M, pure}
use fiveman.Process.{sigterm}
use fiveman.Process.Converge.{converge, refresh, converge_start, converge_signal, converge_stop}
use fiveman.Table.Loops.{Ensures-and_then}
use fiveman.Types.{
  ProcessState, Stat, Intent, intent_start, intent_stop, intent_sig, intent_none, zero_sample,
}

-- One probe has been made of the process, and found it alive or not.
abbrev pub Probed : ℤ → Bool → List Call → List Call → Type 0
Probed pid alive before (Call.kill p n answer ∷ cs) =
    (p ≡ pid) × (n ≡ pos 0) × (is_zero answer ≡ alive) × (cs ≡ before)
Probed pid alive before _ = ⊥

-- The process was found alive, and has got a signal.
abbrev pub Signalled : ℤ → ℤ → List Call → List Call → Type 0
Signalled pid n before (Call.killpg p k ∷ cs) = (p ≡ pid) × (k ≡ n) × Probed pid true before cs
Signalled pid n before _ = ⊥

-- A process has been started, and its pid stored: where there was none, or the old one was found
-- gone.
abbrev pub Launched : ProcessState → ProcessState → List Call → List Call → Type 0
Launched s s' before (Call.spawn old request pid ∷ cs) =
    (old ≡ s.pid)
    × (s'.pid ≡ pid)
    × (((is_positive s.pid ≡ false) × (cs ≡ before))
        ⊎ ((is_positive s.pid ≡ true) × Probed s.pid false before cs))
Launched s s' before _ = ⊥

-- The signal has been sent if there is a process and it was found alive.
abbrev pub SignalledIfAlive : ProcessState → ℤ → List Call → List Call → Type 0
SignalledIfAlive s n before after =
    ((is_positive s.pid ≡ false) × (after ≡ before))
    ⊎ ((is_positive s.pid ≡ true) × Probed s.pid false before after)
    ⊎ ((is_positive s.pid ≡ true) × Signalled s.pid n before after)

-- The effect of a converge by the intent, on the state and on the log of calls.
abbrev pub EffectOf : Intent → ProcessState → ProcessState → List Call → List Call → Type 0
EffectOf intent_start s s' before after =
    (s'.intent ≡ s.intent)
    × (((is_positive s.pid ≡ true)
          × Probed s.pid true before after
          × (s'.pid ≡ s.pid)
          × (s'.sample ≡ s.sample)
          × (s'.last_state_change ≡ s.last_state_change))
        ⊎ (Launched s s' before after × (s'.sample ≡ zero_sample)))
EffectOf intent_stop s s' before after =
    (s'.intent ≡ s.intent)
    × (s'.pid ≡ s.pid)
    × (s'.sample ≡ s.sample)
    × SignalledIfAlive s sigterm before after
EffectOf intent_sig s s' before after =
    (s'.intent.intent ≡ intent_none)
    × (s'.pid ≡ s.pid)
    × (s'.sample ≡ s.sample)
    × (s'.last_state_change ≡ s.last_state_change)
    × SignalledIfAlive s s.intent.payload before after
EffectOf intent_none s s' before after =
    (after ≡ before)
    × (s'.intent ≡ s.intent)
    × (s'.pid ≡ s.pid)
    × (s'.sample ≡ s.sample)
    × (s'.last_state_change ≡ s.last_state_change)

module _ {W : Type 0} (os : Posix W) (sampling : Sampling W) (environ : List Text)
    (directory : Text) where
  refresh-calls :
      (file : Option Text) (old : Stat) (m : Machine W)
      → Ensures (refresh os file old m) (λ _ m'. m'.calls ≡ m.calls)
  unfolding refresh
  refresh-calls file old m = ground arith

  converge_start-EffectOf :
      (s : ProcessState) (m : Machine W)
      → Ensures
          (converge_start os sampling environ directory s m)
          (λ s' m'. EffectOf intent_start s s' m.calls m'.calls)
  unfolding converge_start
  converge_start-EffectOf s m = ground arith

  converge_signal-EffectOf :
      (s : ProcessState) (m : Machine W)
      → Ensures
          (converge_signal os s.intent.payload s m)
          (λ s' m'. EffectOf intent_sig s s' m.calls m'.calls)
  unfolding converge_signal
  converge_signal-EffectOf s m = ground arith

  converge_stop-EffectOf :
      (s : ProcessState) (m : Machine W)
      → Ensures (converge_stop os s m) (λ s' m'. EffectOf intent_stop s s' m.calls m'.calls)
  unfolding converge_stop
  converge_stop-EffectOf s m = ground arith

  abbrev with_stats : ProcessState → Stat → Stat → ProcessState
  with_stats s out error = record s { stdout_stat = out; stderr_stat = error }

  by_intent-EffectOf :
      (i : Intent) (s : ProcessState) (out error : Stat) (before : List Call) (m : Machine W)
      → m.calls ≡ before
      → Ensures
          ((elim i as (λ _. M W ProcessState) [
            | intent_start ↦ converge_start os sampling environ directory (with_stats s out error)
            | intent_sig ↦ converge_signal os s.intent.payload (with_stats s out error)
            | intent_stop ↦ converge_stop os (with_stats s out error)
            | intent_none ↦ pure (with_stats s out error)
          ])
            m)
          (λ s' m'. EffectOf i s s' before m'.calls)
  by_intent-EffectOf intent_start s out error before m e =
      subst
        (λ b.
          Ensures (converge_start os sampling environ directory (with_stats s out error) m)
            (λ s' m'. EffectOf intent_start s s' b m'.calls))
        e (converge_start-EffectOf (with_stats s out error) m)
  by_intent-EffectOf intent_stop s out error before m e =
      subst
        (λ b.
          Ensures (converge_stop os (with_stats s out error) m)
            (λ s' m'. EffectOf intent_stop s s' b m'.calls))
        e (converge_stop-EffectOf (with_stats s out error) m)
  by_intent-EffectOf intent_sig s out error before m e =
      subst
        (λ b.
          Ensures (converge_signal os s.intent.payload (with_stats s out error) m)
            (λ s' m'. EffectOf intent_sig s s' b m'.calls))
        e (converge_signal-EffectOf (with_stats s out error) m)
  by_intent-EffectOf intent_none s out error before m e = (e, refl, refl, refl, refl)

  -- What a converge that returns has done, call by call. By INTENT_START: a process that a probe has
  -- found alive is left with its pid and sample; if there is none, or the probe has found it gone,
  -- exactly one process is started, its pid is stored and the sample is cleared. By INTENT_STOP and
  -- INTENT_SIG: a process that a probe has found alive gets SIGTERM, or the wanted signal, once, and
  -- no other does; pid and sample stay, and the intent stays or becomes INTENT_NONE. By INTENT_NONE
  -- no call is logged and pid, sample and intent stay.
  pub converge-EffectOf :
      (s : ProcessState) (m : Machine W)
      → Ensures
          (converge os sampling environ directory s m)
          (λ s' m'. EffectOf s.intent.intent s s' m.calls m'.calls)
  unfolding converge
  converge-EffectOf s m =
      Ensures-and_then (λ _ m₁. m₁.calls ≡ m.calls)
        (λ s' m'. EffectOf s.intent.intent s s' m.calls m'.calls)
        (refresh os s.stdout s.stdout_stat m) _ (refresh-calls s.stdout s.stdout_stat m)
        (λ out m₁ e.
          Ensures-and_then (λ _ m₂. m₂.calls ≡ m₁.calls)
            (λ s' m'. EffectOf s.intent.intent s s' m.calls m'.calls)
            (refresh os s.stderr s.stderr_stat m₁) _ (refresh-calls s.stderr s.stderr_stat m₁)
            (λ error m₂ k. by_intent-EffectOf s.intent.intent s out error m.calls m₂ (k ∙ e)))
