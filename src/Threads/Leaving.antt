-- ===== src/Threads/Leaving.antt =====
-- How the screen is left, in any state that the two threads reach.
use fiveman.Common.{ℕ, List, ◌≡◌, refl, false, inl, inr, Bool-cases, arith}
use fiveman.Common.Text.{Text}
use fiveman.Machine.{Posix, Sampling, Ensures}
use fiveman.Screen.Ending.{Returns, leave-Returns}
use fiveman.Screen.Keys.{leave}
use fiveman.Screen.Quit.{LeftBy, leave-LeftBy}
use fiveman.System.Leaving.{Left, LeftBy-Left}
use fiveman.Table.Loops.{Ensures_imp}
use fiveman.Threads.{Threads, terminating, Run}
use fiveman.Threads.Order.{Ordered, Run-Ordered}

-- Behind a key the flag of the end is unset.
terminating-open :
    {W : Type 0} (t : Threads W)
    → Ordered t
    → t.main_pc ≡ terminating
    → t.system.ui.exit_fiveman_immediately ≡ false
terminating-open t order at = elim (Bool-cases t.system.ui.exit_fiveman_immediately) [
  | inl set ↦ let leaves = order.flagged set in ground arith
  | inr unset ↦ unset
]

module _ {W : Type 0} (os : Posix W) (sampling : Sampling W) (environ : List Text)
    (directory : Text) (fuel : ℕ) (total : ℕ) where
  -- In every state that the threads, the signals and the world reach from an ordered one, in which
  -- the main thread has done what a key says, whatever the key, and SIGINT may have come: what
  -- stands behind the switch, run without a pause, returns. If it ends the screen's loop, it did so
  -- while fiveman terminates, and has found no process of the table alive or has sent SIGKILL to all
  -- of them; if it does not end it, the flag of the end is unset.
  pub Run-Left :
      (n : ℕ) (s t : Threads W)
      → Run os sampling environ directory fuel total n s t
      → Ordered s
      → t.main_pc ≡ terminating
      → Returns (leave os t.system.ui t.system.table t.system.machine)
        × Ensures
            (leave os t.system.ui t.system.table t.system.machine)
            (λ r m'. Left t.system.ui r t.system.machine.calls m'.calls)
  Run-Left n s t run order at =
      let later = Run-Ordered os sampling environ directory fuel total n s t run order in
      let ui = t.system.ui in
      let table = t.system.table in
      let m = t.system.machine in
      (
        leave-Returns os ui table m,
        Ensures_imp (λ r m'. LeftBy ui table r m.calls m'.calls) _ (leave os ui table m)
            (leave-LeftBy os ui table m (terminating-open t later at))
            (λ r m' l. LeftBy-Left ui ui table r m.calls m'.calls refl l),
      )
