-- ===== src/Screen/Quit.antt =====
-- The way out of draw_screen: what a round that leaves has found, and what one that stays has done.
use fiveman.Common.{
  subst, ℕ, zero, suc, Bool, true, false, List, [], ◌∷◌, ◌≡◌, ◌⊎◌, inl, inr, refl, arith, ltb,
  if◌then◌else◌, Bool-cases, not,
}
use fiveman.Common.Int.{ℤ, pos, is_positive, is_zero, ltb_ℤ}
use fiveman.Machine.{Posix, Machine, M, pure, and_then, ◌>>=◌, sys_time, Call, Ensures}
use fiveman.Process.{sigkill, sigterm}
use fiveman.Process.Converge.{is_alive, signal}
use fiveman.Process.Age.{distance}
use fiveman.Screen.Keys.{Ui, terminate, begin_exit, test_exit, leave, term_timeout}
use fiveman.Table.{for_each, table_signal, table_num_alive, table_desires_intent}
use fiveman.Table.Loops.{Ensures-and_then, Ensures_imp}
use fiveman.Types.{ProcessState, intent_stop}

-- The log behind a signal to every process that has a pid, in the order of the table.
abbrev pub signalled : ℤ → List ProcessState → List Call → List Call
signalled n [] cs = cs
signalled n (s ∷ ss) cs =
    signalled n ss (if is_positive s.pid then Call.killpg s.pid n ∷ cs else cs)

-- A probe of every process that has a pid, none of which was found.
abbrev pub FoundDead : List ProcessState → List Call → List Call → Type 0
FoundDead [] before after = after ≡ before
FoundDead (s ∷ ss) before after =
    ((is_positive s.pid ≡ false) × FoundDead ss before after)
    ⊎ ((answer : ℤ) × (is_zero answer ≡ false)
        × FoundDead ss (Call.kill s.pid (pos 0) answer ∷ before) after)

module _ {W : Type 0} (os : Posix W) where
  signal-signalled :
      (n : ℤ) (s : ProcessState) (m : Machine W)
      → Ensures (signal os n s m) (λ _ m'.
        m'.calls ≡ (if is_positive s.pid then Call.killpg s.pid n ∷ m.calls else m.calls))
  unfolding signal
  signal-signalled n s m = ground arith

  table_signal-signalled :
      (n : ℤ) (table : List ProcessState) (m : Machine W)
      → Ensures (table_signal os n table m) (λ _ m'. m'.calls ≡ signalled n table m.calls)
  unfolding for_each
  table_signal-signalled n [] m = refl
  table_signal-signalled n (s ∷ ss) m =
      let first = (if is_positive s.pid then Call.killpg s.pid n ∷ m.calls else m.calls) in
      Ensures-and_then (λ _ m'. m'.calls ≡ first) (λ _ m'. m'.calls ≡ signalled n (s ∷ ss) m.calls)
        (signal os n s m) _ (signal-signalled n s m)
        (λ _ m₁ e.
          subst (λ c. Ensures (table_signal os n ss m₁) (λ _ m'. m'.calls ≡ signalled n ss c)) e
            (table_signal-signalled n ss m₁))

  abbrev AliveOrProbed : ProcessState → List Call → Bool → List Call → Type 0
  AliveOrProbed s before alive after =
      (alive ≡ true)
      ⊎ ((is_positive s.pid ≡ false) × (after ≡ before))
      ⊎ ((answer : ℤ) × (is_zero answer ≡ false)
          × (after ≡ Call.kill s.pid (pos 0) answer ∷ before))

  is_alive-AliveOrProbed :
      (s : ProcessState) (m : Machine W)
      → Ensures (is_alive os s m) (λ alive m'. AliveOrProbed s m.calls alive m'.calls)
  unfolding is_alive
  is_alive-AliveOrProbed s m = elim (Bool-cases (is_positive s.pid)) [
    | inr p ↦ rw p (inr (inl (refl, refl)))
    | inl p ↦ rw p (elim (Bool-cases (is_zero (os.kill s.pid (pos 0) m.world).1)) [
      | inl z ↦ inl z
      | inr z ↦ inr (inr ((os.kill s.pid (pos 0) m.world).1, z, refl))
    ])
  ]

  FoundDead-step :
      (s : ProcessState) (ss : List ProcessState) (a b c : List Call)
      → AliveOrProbed s a false b
      → FoundDead ss b c
      → FoundDead (s ∷ ss) a c
  FoundDead-step s ss a b c (inl e) h = cc
  FoundDead-step s ss a b c (inr (inl (p, e))) h = inl (p, rw e at h)
  FoundDead-step s ss a b c (inr (inr (answer, z, e))) h = inr (answer, z, rw e at h)

  table_num_alive-FoundDead :
      (table : List ProcessState) (m : Machine W)
      → Ensures (table_num_alive os table m) (λ n m'. n ≡ 0 → FoundDead table m.calls m'.calls)
  unfolding table_num_alive
  table_num_alive-FoundDead [] m = λ e. refl
  table_num_alive-FoundDead (s ∷ ss) m =
      Ensures-and_then (λ alive m'. AliveOrProbed s m.calls alive m'.calls)
        (λ n m'. n ≡ 0 → FoundDead (s ∷ ss) m.calls m'.calls) (is_alive os s m) _
        (is_alive-AliveOrProbed s m)
        (λ alive m₁ h.
          Ensures-and_then (λ n m'. n ≡ 0 → FoundDead ss m₁.calls m'.calls)
            (λ n m'. n ≡ 0 → FoundDead (s ∷ ss) m.calls m'.calls) (table_num_alive os ss m₁) _
            (table_num_alive-FoundDead ss m₁) (λ n m₂ k. counted alive n m₁.calls m₂.calls h k))
    where
      counted :
          (alive : Bool) (n : ℕ) (b c : List Call)
          → AliveOrProbed s m.calls alive b
          → (n ≡ 0 → FoundDead ss b c)
          → (if alive then suc n else n) ≡ 0
          → FoundDead (s ∷ ss) m.calls c
      counted true n b c h k e = absurd (omega (arith, e))
      counted false n b c h k e = FoundDead-step s ss m.calls b c h (k e)

-- What a round does behind its key, with the state of the screen and the table it finds: it ends
-- the loop only while fiveman terminates, and behind a look at the table that found no process
-- alive or behind a SIGKILL to every process group.
abbrev pub LeftBy :
    Ui → List ProcessState → Ui × List ProcessState × Bool → List Call → List Call → Type 0
LeftBy ui table (ui', table', true) before after =
    (ui.is_terminating ≡ true)
    × (table' ≡ table)
    × (FoundDead table before after ⊎ (cs : List Call) × (after ≡ signalled sigkill table cs))
LeftBy ui table (ui', table', false) before after =
    (ui'.exit_fiveman_immediately ≡ false)
    × ((ui.is_terminating ≡ true → (cs : List Call) × (after ≡ signalled sigterm table cs))
        × (ui.exit_fiveman ≡ true
            → (table' ≡ table_desires_intent intent_stop table) × (ui'.is_terminating ≡ true)))

module _ {W : Type 0} (os : Posix W) where
  abbrev Terminated : Ui → List ProcessState → List Call → Ui → List Call → Type 0
  Terminated ui table before ui' after =
      ((ui'.exit_fiveman_immediately ≡ true)
        × (FoundDead table before after ⊎ (cs : List Call) × (after ≡ signalled sigkill table cs)))
      ⊎ ((ui'.exit_fiveman_immediately ≡ false)
          × (ui'.exit_fiveman ≡ ui.exit_fiveman)
          × (ui'.is_terminating ≡ ui.is_terminating)
          × ((cs : List Call) × (after ≡ signalled sigterm table cs)))

  kill_all :
      (late : Bool) (ui : Ui) (table : List ProcessState) (before : List Call) (m : Machine W)
      → Ensures
          (and_then
            (table_signal os (if late then sigkill else sigterm) table m)
            (λ _. pure (record ui { exit_fiveman_immediately = late })))
          (λ ui' m'. Terminated ui table before ui' m'.calls)
  kill_all true ui table before m =
      Ensures-and_then (λ _ m'. m'.calls ≡ signalled sigkill table m.calls) _
        (table_signal os sigkill table m) _ (table_signal-signalled os sigkill table m)
        (λ _ m₁ e. inl (refl, inr (m.calls, e)))
  kill_all false ui table before m =
      Ensures-and_then (λ _ m'. m'.calls ≡ signalled sigterm table m.calls) _
        (table_signal os sigterm table m) _ (table_signal-signalled os sigterm table m)
        (λ _ m₁ e. inr (refl, refl, refl, (m.calls, e)))

  terminate-Terminated :
      (ui : Ui) (table : List ProcessState) (m : Machine W)
      → Ensures (terminate os ui table m) (λ ui' m'. Terminated ui table m.calls ui' m'.calls)
  unfolding terminate
  terminate-Terminated ui table m =
      Ensures-and_then (λ n m'. n ≡ 0 → FoundDead table m.calls m'.calls) _
        (table_num_alive os table m) _ (table_num_alive-FoundDead os table m)
        (λ n m₁ h.
          elim n
              as (λ n.
                (n ≡ 0 → FoundDead table m.calls m₁.calls)
                → Ensures (tail n m₁) (λ ui' m'. Terminated ui table m.calls ui' m'.calls)) [
                  | zero ↦ λ h. inl (refl, inl (h refl))
                  | suc n ↦ λ h.
                      let some_alive : ltb 0 (suc n) ≡ true = ground arith in
                      rw some_alive (kill_all (late m₁) ui table m.calls (after_time m₁))
                ]
            h)
    where
      late : Machine W → Bool
      late m = not (ltb_ℤ (distance (os.time m.world).1 ui.term_issued_at) (pos term_timeout))

      after_time : Machine W → Machine W
      after_time m = record m { world = (os.time m.world).0 }

      tail : ℕ → M W Ui
      tail n =
          if ltb 0 n
          then (do
            current ← sys_time os
            let late = not (ltb_ℤ (distance current ui.term_issued_at) (pos term_timeout))
            _ ← table_signal os (if late then sigkill else sigterm) table
            pure (record ui { exit_fiveman_immediately = late }))
          else pure (record ui { exit_fiveman_immediately = true })

  abbrev Progress : Ui → List ProcessState → List Call → Ui → List Call → Type 0
  Progress ui table before ui' after =
      ((ui'.exit_fiveman_immediately ≡ true)
        × (ui.is_terminating ≡ true)
        × (FoundDead table before after ⊎ (cs : List Call) × (after ≡ signalled sigkill table cs)))
      ⊎ ((ui'.exit_fiveman_immediately ≡ false)
          × (ui'.exit_fiveman ≡ ui.exit_fiveman)
          × (ui.is_terminating ≡ true → (cs : List Call) × (after ≡ signalled sigterm table cs)))

  test_exit-LeftBy :
      (ui ui' : Ui) (table : List ProcessState) (before : List Call) (m : Machine W)
      → Progress ui table before ui' m.calls
      → Ensures (test_exit os ui' table m) (λ r m'. LeftBy ui table r before m'.calls)
  unfolding test_exit begin_exit
  test_exit-LeftBy ui ui' table before m (inl (now, t, how)) = rw now (t, refl, how)
  test_exit-LeftBy ui ui' table before m (inr (stay, same, sent)) =
      elim (Bool-cases ui'.exit_fiveman) [
        | inl quit ↦ rw (stay, quit) (refl, (sent, λ e. (refl, refl)))
        | inr stays ↦ rw (stay, stays) (refl, (sent, λ e. cc))
      ]

  first_step :
      (ui : Ui) (table : List ProcessState) (b : Bool) (m : Machine W)
      → ui.is_terminating ≡ b
      → ui.exit_fiveman_immediately ≡ false
      → Ensures
          ((if b then terminate os ui table else pure ui) m)
          (λ ui' m'. Progress ui table m.calls ui' m'.calls)
  first_step ui table true m t h =
      Ensures_imp (λ ui' m'. Terminated ui table m.calls ui' m'.calls) _ (terminate os ui table m)
        (terminate-Terminated ui table m) (λ ui' m₁ k. progress ui' m₁.calls k)
    where
      progress :
          (ui' : Ui) (after : List Call)
          → Terminated ui table m.calls ui' after
          → Progress ui table m.calls ui' after
      progress ui' after (inl (now, how)) = inl (now, t, how)
      progress ui' after (inr (stay, same, same_t, sent)) = inr (stay, same, λ _. sent)
  first_step ui table false m t h = inr (h, refl, λ e. cc)

  -- What follows the key, begun without `exit_fiveman_immediately`, ends the loop only while fiveman
  -- terminates, with the table as it is, and behind a look that found no process of it alive or
  -- behind a SIGKILL to all of them. If it stays in the loop while fiveman terminates it has sent
  -- SIGTERM to all of them, and if `exit_fiveman` was set every process desires to stop and fiveman
  -- terminates.
  pub leave-LeftBy :
      (ui : Ui) (table : List ProcessState) (m : Machine W)
      → ui.exit_fiveman_immediately ≡ false
      → Ensures (leave os ui table m) (λ r m'. LeftBy ui table r m.calls m'.calls)
  unfolding leave
  leave-LeftBy ui table m h =
      Ensures-and_then (λ ui' m'. Progress ui table m.calls ui' m'.calls) _
        ((if ui.is_terminating then terminate os ui table else pure ui) m) _
        (first_step ui table ui.is_terminating m refl h)
        (λ ui' m₁ k. test_exit-LeftBy ui ui' table m.calls m₁ k)
