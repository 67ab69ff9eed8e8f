-- ===== src/Signals/Reaping.antt =====
-- The loops over waitpid end, and every process of the table is waited for.
use fiveman.Common.{
  ℕ, zero, suc, ◌<◌, ◌≤◌, true, false, List, [], ◌∷◌, ◌≡◌, refl, arith, Bool-cases, inl, inr,
}
use fiveman.Common.Int.{ℤ, negsuc, is_positive}
use fiveman.Machine.{Posix, Machine, Call, returned}
use fiveman.Process.Converge.{reap_loop, reap_zombie_processes}
use fiveman.Signals.{handle_sigchld, reap_any_zombie_processes}
use fiveman.Table.{for_each, table_reap_zombie_processes}
use fiveman.Types.{ProcessState}

-- waitpid answers with a pid only when it takes a child away, and makes none.
pub record Reaps {W : Type 0} (os : Posix W) (children : W → ℕ) : Type 0 where
  pub fewer :
      (pid : ℤ) (w : W)
      → is_positive (os.waitpid pid w).1 ≡ true
      → children (os.waitpid pid w).0 < children w
  pub no_more : (pid : ℤ) (w : W) → children (os.waitpid pid w).0 ≤ children w

-- The log behind calls of waitpid for `pid`: all but the last one answer with a pid.
pub data Reaping (pid : ℤ) : List Call → List Call → Type 0 where
  last :
      (cs : List Call) (answer : ℤ)
      → is_positive answer ≡ false
      → Reaping pid cs (Call.waitpid pid answer ∷ cs)
  again :
      (cs cs' : List Call) (answer : ℤ)
      → is_positive answer ≡ true
      → Reaping pid (Call.waitpid pid answer ∷ cs) cs'
      → Reaping pid cs cs'

-- The same for each process of the table with a pid, in the order of the table.
abbrev pub ReapingAll : List ProcessState → List Call → List Call → Type 0
ReapingAll [] before after = after ≡ before
ReapingAll (s ∷ ss) before after =
    (mid : List Call) × (is_positive s.pid ≡ true → Reaping s.pid before mid)
    × (is_positive s.pid ≡ false → mid ≡ before)
    × ReapingAll ss mid after

module _ {W : Type 0} (os : Posix W) (children : W → ℕ) (reaps : Reaps os children) where
  reap_loop_lem :
      (fuel : ℕ) (pid : ℤ) (m : Machine W)
      → children m.world < fuel
      → (m' : Machine W) × (reap_loop os fuel pid m ≡ returned tt m')
        × Reaping pid m.calls m'.calls
        × (children m'.world ≤ children m.world)
  unfolding reap_loop
  reap_loop_lem zero pid m h = absurd (omega (arith, h))
  reap_loop_lem (suc fuel) pid m h =
      let answer = (os.waitpid pid m.world).1 in
      let m₁ : Machine W = record {
        world = (os.waitpid pid m.world).0;
        calls = Call.waitpid pid answer ∷ m.calls;
      } in
      elim (Bool-cases (is_positive answer)) [
        | inl p ↦
            let fewer = reaps.fewer pid m.world p in
            let (m', e, r, le) = reap_loop_lem fuel pid m₁ (omega arith) in
            (m', rw p e, again m.calls m'.calls answer p r, omega arith)
        | inr n ↦ (m₁, rw n refl, last m.calls answer n, reaps.no_more pid m.world)
      ]

  reap_zombie_processes_lem :
      (fuel : ℕ) (s : ProcessState) (m : Machine W)
      → children m.world < fuel
      → (m' : Machine W) × (reap_zombie_processes os fuel s m ≡ returned tt m')
        × (is_positive s.pid ≡ true → Reaping s.pid m.calls m'.calls)
        × (is_positive s.pid ≡ false → m'.calls ≡ m.calls)
        × (children m'.world ≤ children m.world)
  unfolding reap_zombie_processes
  reap_zombie_processes_lem fuel s m h = elim (Bool-cases (is_positive s.pid)) [
    | inl p ↦
        let (m', e, r, le) = reap_loop_lem fuel s.pid m h in (m', rw p e, (λ _. r), (λ n. cc), le)
    | inr n ↦ (m, rw n refl, (λ p. cc), (λ _. refl), omega arith)
  ]

  table_reap_zombie_processes_lem :
      (fuel : ℕ) (table : List ProcessState) (m : Machine W)
      → children m.world < fuel
      → (m' : Machine W) × (table_reap_zombie_processes os fuel table m ≡ returned tt m')
        × ReapingAll table m.calls m'.calls
  unfolding for_each
  table_reap_zombie_processes_lem fuel [] m h = (m, refl, refl)
  table_reap_zombie_processes_lem fuel (s ∷ ss) m h =
      let (m₁, e, some_pid, no_pid, le) = reap_zombie_processes_lem fuel s m h in
      let (m', e', r) = table_reap_zombie_processes_lem fuel ss m₁ (omega arith) in
      (m', rw (e, e'), (m₁.calls, some_pid, no_pid, r))

  -- With more fuel than there are children, the handler of SIGCHLD returns, and has called waitpid
  -- for each process of the table that has a pid, in the order of the table, until it answered with
  -- none, and for no other.
  pub handle_sigchld-ReapingAll :
      (fuel : ℕ) (table : List ProcessState) (m : Machine W)
      → children m.world < fuel
      → (m' : Machine W) × (handle_sigchld os fuel table m ≡ returned tt m')
        × ReapingAll table m.calls m'.calls
  unfolding handle_sigchld
  handle_sigchld-ReapingAll = table_reap_zombie_processes_lem

  reap_any_zombie_processes-Reaping :
      (fuel : ℕ) (m : Machine W)
      → children m.world < fuel
      → (m' : Machine W) × (reap_any_zombie_processes os fuel m ≡ returned tt m')
        × Reaping (negsuc 0) m.calls m'.calls
  unfolding reap_any_zombie_processes
  reap_any_zombie_processes-Reaping fuel m h =
      let (m', e, r, le) = reap_loop_lem fuel (negsuc 0) m h in (m', e, r)
