-- ===== src/Threads/Join.antt =====
-- How pthread_join comes to its end: the status thread, once it is asked to, has only so many moves
-- left, and can always make the next one.
use fiveman.Common.{
  ℕ, ◌+◌, ◌-◌, ◌*◌, ◌≤◌, ◌<◌, true, false, List, ◌≡◌, refl, sym, subst, ap, ◌∙◌, arith, length,
}
use fiveman.Common.Text.{Text}
use fiveman.Machine.{Posix, Sampling}
use fiveman.System.Same.{Same}
use fiveman.Table.Loops.{Pairwise-length}
use fiveman.Threads.{
  Threads, Pc, preparing, reflecting, reaping, converging, storing, updating, showing, publishing,
  sleeping, ended, MainPc, holds_lock, Work, prepare, prepared, reflect, reap, reaped_all,
  converge_one, converge_store, converged_all, update, update_store, updated_all, publish, wake,
  Show, draw_row, drawn_all, page_begins, page_ends, key_pressed, lock_terminating, probe,
  none_alive, some_alive, decide, signal_one, signalled_all, not_terminating, tested, destroy, join,
  Outside, sigint, sigchld, elsewhere, Run, here, works, shows, outside,
}
use fiveman.Threads.Next.{InRows, lt_of_get_elem?, GoesOn, goes_on}
use fiveman.Threads.Order.{Ordered, asks, Run-Ordered}
use fiveman.Threads.Safety.{AllSafe, Run-Safe}
use fiveman.Types.{ProcessState}

-- The moves up to the end of a thread that is asked to end, for a table of `n` processes.
unfoldable pub remaining : ℕ → Pc → ℕ
remaining n (preparing i) = n - i + (5 * n + 6)
remaining n reflecting = 5 * n + 5
remaining n (reaping i) = n - i + (4 * n + 4)
remaining n (converging i) = 2 * (n - i) + (2 * n + 3)
remaining n (storing i p) = 2 * (n - i) + (2 * n + 2)
remaining n (updating i) = 2 * (n - i) + 2
remaining n (showing i p e) = 2 * (n - i) + 1
remaining n publishing = 1
remaining n sleeping = 5 * n + 6
remaining n ended = 0

-- Each move takes one off, if the thread is asked to end.
abbrev Counts : {W : Type 0} → ℕ → Threads W → Threads W → Type 0
Counts n s t = (InRows n s.pc → InRows n t.pc) × (s.exit ≡ 1 → remaining n t.pc < remaining n s.pc)

module _ {W : Type 0} (os : Posix W) (sampling : Sampling W) (environ : List Text)
    (directory : Text) (fuel : ℕ) (total : ℕ) where
  Work-Counts :
      (n : ℕ) (s t : Threads W)
      → Work os sampling environ directory fuel total s t
      → length s.system.table ≡ n
      → Counts n s t
  unfolding remaining
  Work-Counts n _ _ (prepare s i p e m at found done) size =
      let below = lt_of_get_elem? s.system.table i p found in rw at (omega arith)
  Work-Counts n _ _ (prepared s at) size = rw (at, size) (omega arith)
  Work-Counts n _ _ (reflect s at free) size = rw at (omega arith)
  Work-Counts n _ _ (reap s i p u m at found done) size =
      let below = lt_of_get_elem? s.system.table i p found in rw at (omega arith)
  Work-Counts n _ _ (reaped_all s at) size = rw (at, size) (omega arith)
  Work-Counts n _ _ (converge_one s i p p' m at found done) size =
      let below = lt_of_get_elem? s.system.table i p found in rw at (omega arith)
  Work-Counts n _ _ (converge_store s i p' now at found) size =
      let below = lt_of_get_elem? s.system.table i now found in rw at (omega arith)
  Work-Counts n _ _ (converged_all s at) size = rw (at, size) (omega arith)
  Work-Counts n _ _ (update s i p p' e m at found done) size =
      let below = lt_of_get_elem? s.system.table i p found in rw at (omega arith)
  Work-Counts n _ _ (update_store s i p' now e at found) size =
      let below = lt_of_get_elem? s.system.table i now found in rw at (omega arith)
  Work-Counts n _ _ (updated_all s at) size = rw (at, size) (omega arith)
  Work-Counts n _ _ (publish s at free) size = ground arith
  Work-Counts n _ _ (wake s at) size = rw at (omega arith)

  -- The other moves leave the place of the thread alone, and do not take back what it was asked.
  abbrev Aside : Threads W → Threads W → Type 0
  Aside s t = (t.pc ≡ s.pc) × (asks s.main_pc ≡ true → asks t.main_pc ≡ true)

  Show-Aside : (s t : Threads W) → Show os sampling environ directory fuel total s t → Aside s t
  Show-Aside _ _ (draw_row s row p activity age m m' at found done aged) = ground arith
  Show-Aside _ _ (drawn_all s at) = ground arith
  Show-Aside _ _ (page_begins s c at pages) = ground arith
  Show-Aside _ _ (page_ends s c ui table at pressed) = ground arith
  Show-Aside _ _ (key_pressed s key ui table at other pressed) = ground arith
  Show-Aside _ _ (lock_terminating s at term) = ground arith
  Show-Aside _ _ (probe s row n p alive m at found done) = ground arith
  Show-Aside _ _ (none_alive s at) = ground arith
  Show-Aside _ _ (some_alive s n at) = ground arith
  Show-Aside _ _ (decide s current late m at done e) = ground arith
  Show-Aside _ _ (signal_one s row n p answer m at found done) = ground arith
  Show-Aside _ _ (signalled_all s n at) = ground arith
  Show-Aside _ _ (not_terminating s at term) = ground arith
  Show-Aside _ _ (tested s ui table ends m at done) = ground arith
  Show-Aside _ _ (destroy s at) = ground arith
  Show-Aside _ _ (join s at e) = ground arith

  Outside-Aside :
      (s t : Threads W) → Outside os sampling environ directory fuel total s t → Aside s t
  Outside-Aside _ _ (sigint s) = (refl, λ h. h)
  Outside-Aside _ _ (sigchld s i p u m found done) = (refl, λ h. h)
  Outside-Aside _ _ (elsewhere s w) = (refl, λ h. h)

  pub Work-main_pc :
      (s t : Threads W) → Work os sampling environ directory fuel total s t → t.main_pc ≡ s.main_pc
  Work-main_pc _ _ (prepare s i p e m at found done) = refl
  Work-main_pc _ _ (prepared s at) = refl
  Work-main_pc _ _ (reflect s at free) = refl
  Work-main_pc _ _ (reap s i p u m at found done) = refl
  Work-main_pc _ _ (reaped_all s at) = refl
  Work-main_pc _ _ (converge_one s i p p' m at found done) = refl
  Work-main_pc _ _ (converge_store s i p' now at found) = refl
  Work-main_pc _ _ (converged_all s at) = refl
  Work-main_pc _ _ (update s i p p' e m at found done) = refl
  Work-main_pc _ _ (update_store s i p' now e at found) = refl
  Work-main_pc _ _ (updated_all s at) = refl
  Work-main_pc _ _ (publish s at free) = refl
  Work-main_pc _ _ (wake s at) = refl

asks-holds_lock : (pc : MainPc) → asks pc ≡ true → holds_lock pc ≡ false
asks-holds_lock pc h = ground arith

remaining_le : (n : ℕ) (pc : Pc) → remaining n pc ≤ 6 * n + 6
unfolding remaining
remaining_le n pc = ground arith

module _ {W : Type 0} (os : Posix W) (sampling : Sampling W) (environ : List Text)
    (directory : Text) (fuel : ℕ) (start : List ProcessState) where
  pub Run-InRows :
      (k : ℕ) (s t : Threads W)
      → Run os sampling environ directory fuel (length start) k s t
      → AllSafe start s
      → InRows (length start) s.pc
      → InRows (length start) t.pc
  Run-InRows _ _ _ (here s) safe rows = rows
  Run-InRows _ _ _ (works k s t u r move) safe rows =
      let now = Run-Safe os sampling environ directory fuel start k s t r safe in
      (Work-Counts os sampling environ directory fuel (length start) (length start) t u move
          (sym (Pairwise-length Same start t.system.table now.system.same))).0
        (Run-InRows k s t r safe rows)
  Run-InRows _ _ _ (shows k s t u r move) safe rows =
      subst (InRows (length start))
        (sym (Show-Aside os sampling environ directory fuel (length start) t u move).0)
        (Run-InRows k s t r safe rows)
  Run-InRows _ _ _ (outside k s t u r move) safe rows =
      subst (InRows (length start))
        (sym (Outside-Aside os sampling environ directory fuel (length start) t u move).0)
        (Run-InRows k s t r safe rows)

  abbrev Counted : ℕ → Threads W → Threads W → Type 0
  Counted k s t =
      (asks t.main_pc ≡ true) × (k + remaining (length start) t.pc ≤ remaining (length start) s.pc)

  Run-Counted :
      (k : ℕ) (s t : Threads W)
      → Run os sampling environ directory fuel (length start) k s t
      → AllSafe start s
      → Ordered s
      → asks s.main_pc ≡ true
      → Counted k s t
  Run-Counted _ _ _ (here s) safe order asked = (asked, omega arith)
  Run-Counted _ _ _ (works k s t u r move) safe order asked =
      let (asked', bound) = Run-Counted k s t r safe order asked in
      let now = Run-Safe os sampling environ directory fuel start k s t r safe in
      let order' = Run-Ordered os sampling environ directory fuel (length start) k s t r order in
      let told : t.exit ≡ 1 = ground arith in
      let less =
        (Work-Counts os sampling environ directory fuel (length start) (length start) t u move
            (sym (Pairwise-length Same start t.system.table now.system.same))).1
          told in
      (
        ap asks (Work-main_pc os sampling environ directory fuel (length start) t u move) ∙ asked',
        omega arith,
      )
  Run-Counted _ _ _ (shows k s t u r move) safe order asked =
      let (asked', bound) = Run-Counted k s t r safe order asked in
      let (same, kept) = Show-Aside os sampling environ directory fuel (length start) t u move in
      (kept asked', rw same bound)
  Run-Counted _ _ _ (outside k s t u r move) safe order asked =
      let (asked', bound) = Run-Counted k s t r safe order asked in
      let (same, kept) = Outside-Aside os sampling environ directory fuel (length start) t u move in
      (kept asked', rw same bound)

  -- Once fiveman_status_thread_destroy has asked the status thread to end, the thread makes at most
  -- six moves for each process and six more, whatever the others do in between; and in each state
  -- behind that it has ended, or it can make its next move, or the call that it comes to does not
  -- return. So pthread_join waits for no more moves than these, and for no lock.
  pub Run-GoesOn :
      (j k : ℕ) (r s t : Threads W)
      → AllSafe start r
      → Ordered r
      → InRows (length start) r.pc
      → Run os sampling environ directory fuel (length start) j r s
      → asks s.main_pc ≡ true
      → Run os sampling environ directory fuel (length start) k s t
      → (k ≤ 6 * length start + 6) × GoesOn os sampling environ directory fuel (length start) t
  Run-GoesOn j k r s t safe order rows before asked behind =
      let safe_s = Run-Safe os sampling environ directory fuel start j r s before safe in
      let order_s =
        Run-Ordered os sampling environ directory fuel (length start) j r s before order in
      let rows_s = Run-InRows j r s before safe rows in
      let safe_t = Run-Safe os sampling environ directory fuel start k s t behind safe_s in
      let rows_t = Run-InRows k s t behind safe_s rows_s in
      let (asked_t, bound) = Run-Counted k s t behind safe_s order_s asked in
      let size = Pairwise-length Same start t.system.table safe_t.system.same in
      (
        omega (arith, bound, remaining_le (length start) s.pc),
        goes_on os sampling environ directory fuel (length start) t t.pc refl
            (subst (λ n. InRows n t.pc) size rows_t) (asks-holds_lock t.main_pc asked_t),
      )
