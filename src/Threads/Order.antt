-- ===== src/Threads/Order.antt =====
-- In which order the two threads come to their ends.
use fiveman.Common.{ℕ, Bool, true, false, some, List, ◌≡◌, subst, arith, if◌then◌else◌}
use fiveman.Common.Text.{Text}
use fiveman.Machine.{Posix, Sampling, Machine, Ensures}
use fiveman.Screen.Keys.{Ui, Key, letter, press, test_exit, begin_exit, handle_sigint}
use fiveman.System.Leaving.{Unflagged, press-Unflagged}
use fiveman.System.Safety.{ensured}
use fiveman.Threads.{
  Threads, Pc, ended, MainPc, probing, deciding, signalling, testing, left, joining, joined, Work,
  prepare, prepared, reflect, reap, reaped_all, converge_one, converged_all, update, updated_all,
  publish, wake, Show, draw_row, drawn_all, page_begins, page_ends, converge_store, update_store,
  key_pressed, lock_terminating, probe, none_alive, some_alive, decide, signal_one, signalled_all,
  not_terminating, tested, destroy, join, Outside, sigint, sigchld, elsewhere, Run, here, works,
  shows, outside,
}
use fiveman.Types.{ProcessState}

abbrev pub is_ended : Pc → Bool
is_ended ended = true
is_ended _ = false

abbrev pub is_joined : MainPc → Bool
is_joined joined = true
is_joined _ = false

-- In fiveman_status_thread_destroy, or behind it.
abbrev pub asks : MainPc → Bool
asks joining = true
asks joined = true
asks _ = false

-- Behind the loop of draw_screen.
abbrev pub is_behind : MainPc → Bool
is_behind left = true
is_behind joining = true
is_behind joined = true
is_behind _ = false

-- In the body of `if (is_terminating)`.
abbrev pub in_body : MainPc → Bool
in_body (probing row n) = true
in_body deciding = true
in_body (signalling row n) = true
in_body _ = false

-- From the assignment of exit_fiveman_immediately to its test, and behind the loop.
abbrev pub may_leave : MainPc → Bool
may_leave (signalling row n) = true
may_leave testing = true
may_leave left = true
may_leave joining = true
may_leave joined = true
may_leave _ = false

-- The thread ends only when it is asked to, which is when the screen's loop is left; the main thread
-- joins it only when it has ended; and the loop is left only while fiveman terminates.
pub record Ordered {W : Type 0} (s : Threads W) : Type 0 where
  pub asked : s.exit ≡ (if asks s.main_pc then 1 else 0)
  pub ended_asked : is_ended s.pc ≡ true → asks s.main_pc ≡ true
  pub joined_ended : is_joined s.main_pc ≡ true → is_ended s.pc ≡ true
  pub behind : is_behind s.main_pc ≡ true → s.system.ui.exit_fiveman_immediately ≡ true
  pub terminates : s.system.ui.exit_fiveman_immediately ≡ true → s.system.ui.is_terminating ≡ true
  pub body : in_body s.main_pc ≡ true → s.system.ui.is_terminating ≡ true
  pub flagged : s.system.ui.exit_fiveman_immediately ≡ true → may_leave s.main_pc ≡ true

module _ {W : Type 0} (os : Posix W) (sampling : Sampling W) (environ : List Text)
    (directory : Text) (fuel : ℕ) (total : ℕ) where
  pub Work-Ordered :
      (s t : Threads W) → Work os sampling environ directory fuel total s t → Ordered s → Ordered t
  Work-Ordered _ _ (prepare s i p e m at found done) h = ground arith
  Work-Ordered _ _ (prepared s at) h = ground arith
  Work-Ordered _ _ (reflect s at free) h = ground arith
  Work-Ordered _ _ (reap s i p u m at found done) h = ground arith
  Work-Ordered _ _ (reaped_all s at) h = ground arith
  Work-Ordered _ _ (converge_one s i p p' m at found done) h = ground arith
  Work-Ordered _ _ (converge_store s i p' now at found) h = ground arith
  Work-Ordered _ _ (converged_all s at) h = ground arith
  Work-Ordered _ _ (update s i p p' e m at found done) h = ground arith
  Work-Ordered _ _ (update_store s i p' now e at found) h = ground arith
  Work-Ordered _ _ (updated_all s at) h = ground arith
  Work-Ordered _ _ (publish s at free) h = ground arith
  Work-Ordered _ _ (wake s at) h = ground arith

  key_pressed-flags :
      (key : Key) (ui ui' : Ui) (table table' : List ProcessState)
      → press key total ui table ≡ some (ui', table')
      → (ui'.is_terminating ≡ ui.is_terminating)
        × (ui'.exit_fiveman_immediately ≡ ui.exit_fiveman_immediately)
  key_pressed-flags key ui ui' table table' e =
      subst (Unflagged ui) e (press-Unflagged key total ui table)

  -- The tests leave the flag of the end alone, end the loop exactly if it is set, and do not undo the
  -- termination.
  abbrev Tested : Ui → Ui × List ProcessState × Bool → Type 0
  Tested ui r =
      (r.0.exit_fiveman_immediately ≡ ui.exit_fiveman_immediately)
      × (r.2 ≡ ui.exit_fiveman_immediately)
      × (ui.is_terminating ≡ true → r.0.is_terminating ≡ true)

  test_exit-Tested :
      (ui : Ui) (table : List ProcessState) (m : Machine W)
      → Ensures (test_exit os ui table m) (λ r _. Tested ui r)
  unfolding test_exit begin_exit
  test_exit-Tested ui table m = ground arith

  pub Show-Ordered :
      (s t : Threads W) → Show os sampling environ directory fuel total s t → Ordered s → Ordered t
  Show-Ordered _ _ (draw_row s row p activity age m m' at found done aged) h = ground arith
  Show-Ordered _ _ (drawn_all s at) h = ground arith
  Show-Ordered _ _ (page_begins s c at pages) h = ground arith
  Show-Ordered _ _ (page_ends s c ui table at pressed) h =
      let flags = key_pressed-flags (letter c) s.system.ui ui s.system.table table pressed in
      ground arith
  Show-Ordered _ _ (key_pressed s key ui table at other pressed) h =
      let flags = key_pressed-flags key s.system.ui ui s.system.table table pressed in ground arith
  Show-Ordered _ _ (lock_terminating s at term) h = ground arith
  Show-Ordered _ _ (probe s row n p alive m at found done) h = ground arith
  Show-Ordered _ _ (none_alive s at) h = ground arith
  Show-Ordered _ _ (some_alive s n at) h = ground arith
  Show-Ordered _ _ (decide s current late m at done e) h = ground arith
  Show-Ordered _ _ (signal_one s row n p answer m at found done) h = ground arith
  Show-Ordered _ _ (signalled_all s n at) h = ground arith
  Show-Ordered _ _ (not_terminating s at term) h = ground arith
  Show-Ordered _ _ (tested s ui table ends m at done) h =
      let kept =
        ensured (λ r _. Tested s.system.ui r) done
          (test_exit-Tested s.system.ui s.system.table s.system.machine) in
      ground arith
  Show-Ordered _ _ (destroy s at) h = ground arith
  Show-Ordered _ _ (join s at e) h = ground arith

  pub Outside-Ordered :
      (s t : Threads W)
      → Outside os sampling environ directory fuel total s t
      → Ordered s
      → Ordered t
  unfolding handle_sigint
  Outside-Ordered _ _ (sigint s) h = ground arith
  Outside-Ordered _ _ (sigchld s i p u m found done) h = ground arith
  Outside-Ordered _ _ (elsewhere s w) h = ground arith

  -- From an ordered state only ordered ones are reached: fiveman_status_thread_destroy is entered
  -- only behind the loop of the screen, which is left only while fiveman terminates; the thread ends
  -- only behind that, and the main thread goes on to free the table only when the thread has ended.
  pub Run-Ordered :
      (n : ℕ) (s t : Threads W)
      → Run os sampling environ directory fuel total n s t
      → Ordered s
      → Ordered t
  Run-Ordered _ _ _ (here s) h = h
  Run-Ordered _ _ _ (works n s t u r move) h = Work-Ordered t u move (Run-Ordered n s t r h)
  Run-Ordered _ _ _ (shows n s t u r move) h = Show-Ordered t u move (Run-Ordered n s t r h)
  Run-Ordered _ _ _ (outside n s t u r move) h = Outside-Ordered t u move (Run-Ordered n s t r h)
