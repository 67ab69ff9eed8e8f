-- ===== src/Threads/Safety.antt =====
-- What holds in every state that the two threads reach.
use fiveman.Common.{
  ℕ, suc, ◌<◌, Bool, true, false, Option, some, List, ◌≡◌, refl, sym, subst, length, get_elem?, set,
  if◌then◌else◌, ◌==◌,
}
use fiveman.Common.Text.{Text}
use fiveman.Machine.{Posix, Sampling, Machine}
use fiveman.Process.Converge.Discipline.{
  Disciplined, is_alive-Keeps, signal-Keeps, reap_zombie_processes-Keeps,
}
use fiveman.Screen.Ending.{test_exit-Keeps}
use fiveman.Screen.Keys.{Ui, press, press-InRange, InRange}
use fiveman.StatusThread.Creation.{initial_entries-Keeps}
use fiveman.System.{System}
use fiveman.System.Safety.{
  Safe, reflected-Safe, Pressed, press-Pressed, Stays, test_exit-Stays, interrupted-Safe, ensured,
}
use fiveman.System.Same.{Same, Pairwise-trans}
use fiveman.Table.Loops.{Pairwise-length}
use fiveman.Threads.Stored.{
  SameAs, IsStored, SameAs-trans, SameAs-stored, get_elem?-SameAs, set-SameAs,
}
use fiveman.Process.Converge.Soundness.{Kept, converge-Kept}
use fiveman.Process.Converge.Discipline.{Keeps, converge-Keeps, current_activity-Keeps}
use fiveman.Process.Age.{lifetime}
use fiveman.StatusThread.Rounds.{update_row-Keeps, update_row-Kept, Shows}
use fiveman.System.Same.{Kept-Same}
use fiveman.Screen.Keys.{letter}
use fiveman.Threads.{
  Pc, reflecting, reaping, converging, storing, updating, showing, publishing, sleeping, ended, own,
  worked, stored, draw_row, drawn_all, page_begins, page_ends, converge_store, update_store,
  with_table, Threads, with_machine, Work, prepare, prepared, reflect, reap, reaped_all,
  converge_one, converged_all, update, updated_all, publish, wake, Show, key_pressed,
  lock_terminating, probe, none_alive, some_alive, decide, signal_one, signalled_all,
  not_terminating, tested, destroy, join, Outside, sigint, sigchld, elsewhere, Run, here, works,
  shows, outside,
}
use fiveman.Types.{ProcessState}

module _ {W : Type 0} {start : List ProcessState} where
  -- A call that only adds to the log in a disciplined way.
  with_machine-Safe :
      (s : System W) (m : Machine W)
      → Disciplined m.calls
      → Safe start s
      → Safe start (with_machine s m)
  with_machine-Safe s m d h = record { disciplined = d; same = h.same; in_range = h.in_range }

  with_key-Safe :
      (s : System W) (ui : Ui) (table : List ProcessState)
      (pressed : Option (Ui × List ProcessState))
      → pressed ≡ some (ui, table)
      → InRange (length start) pressed
      → Pressed s.table pressed
      → Safe start s
      → Safe start (record s { table = table; ui = ui })
  with_key-Safe s ui table pressed e in_range same h =
      let row = subst (InRange (length start)) e in_range in
      let kept = subst (Pressed s.table) e same in
      record {
        disciplined = h.disciplined;
        same = Pairwise-trans start s.table table h.same kept;
        in_range = row.0;
      }

-- A safe state, in which the status thread has made disciplined calls alone too, and what it is about
-- to store is of the process at that row.
pub record AllSafe {W : Type 0} (start : List ProcessState) (t : Threads W) : Type 0 where
  pub system : Safe start t.system
  pub log : Disciplined t.log
  pub stores : IsStored start t.pc

module _ {W : Type 0} {start : List ProcessState} where
  -- What the world has become is of no interest.
  worked-Safe :
      (s : Threads W) (m : Machine W) → Safe start s.system → Safe start (worked s m).system
  worked-Safe s m h = with_machine-Safe s.system _ h.disciplined h

  -- Calls that only add to the log of the thread.
  worked-AllSafe :
      (s : Threads W) (m : Machine W) (pc : Pc)
      → Disciplined m.calls
      → IsStored start pc
      → AllSafe start s
      → AllSafe start (record (worked s m) { pc = pc })
  worked-AllSafe s m pc d k h = record { system = worked-Safe s m h.system; log = d; stores = k }

  moved-AllSafe :
      (s : Threads W) (pc : Pc)
      → IsStored start pc
      → AllSafe start s
      → AllSafe start (record s { pc = pc })
  moved-AllSafe s pc k h = record { system = h.system; log = h.log; stores = k }

  store-Safe :
      (s : System W) (i : ℕ) (p now : ProcessState)
      → SameAs (get_elem? start i) p
      → Safe start s
      → Safe start (with_table s (set s.table i (stored now p)))
  store-Safe s i p now k h = record {
    disciplined = h.disciplined;
    same =
        set-SameAs start s.table i (stored now p) h.same
          (SameAs-stored (get_elem? start i) now p k);
    in_range = h.in_range;
  }

published-IsStored :
    (start : List ProcessState) (b : Bool) → IsStored start (if b then ended else sleeping)
published-IsStored start true = tt
published-IsStored start false = tt

lifetime-Keeps : {W : Type 0} (os : Posix W) (p : ProcessState) → Keeps (lifetime os p)
unfolding lifetime
lifetime-Keeps os p m d = d

module _ {W : Type 0} (os : Posix W) (sampling : Sampling W) (environ : List Text)
    (directory : Text) (fuel : ℕ) (start : List ProcessState) where
  found-SameAs :
      (s : Threads W) (i : ℕ) (p p' : ProcessState)
      → get_elem? s.system.table i ≡ some p
      → Kept p p'
      → AllSafe start s
      → SameAs (get_elem? start i) p'
  found-SameAs s i p p' found k h =
      SameAs-trans (get_elem? start i) p p'
        (get_elem?-SameAs start s.system.table i p h.system.same found) (Kept-Same p p' k)

  Work-AllSafe :
      (s t : Threads W)
      → Work os sampling environ directory fuel (length start) s t
      → AllSafe start s
      → AllSafe start t
  Work-AllSafe _ _ (prepare s i p e m at found done) h =
      let d =
        ensured (λ _ m'. Disciplined m'.calls) done (initial_entries-Keeps os p (own s) h.log) in
      record { system = worked-Safe s m h.system; log = d; stores = tt }
  Work-AllSafe _ _ (prepared s at) h = moved-AllSafe s reflecting tt h
  Work-AllSafe _ _ (reflect s at free) h = record {
    system = reflected-Safe s.system h.system;
    log = h.log;
    stores = tt;
  }
  Work-AllSafe _ _ (reap s i p u m at found done) h =
      worked-AllSafe s m (reaping (suc i))
        (ensured (λ _ m'. Disciplined m'.calls) done
          (reap_zombie_processes-Keeps os fuel p (own s) h.log))
        tt h
  Work-AllSafe _ _ (reaped_all s at) h = moved-AllSafe s (converging 0) tt h
  Work-AllSafe _ _ (converge_one s i p p' m at found done) h =
      worked-AllSafe s m (storing i p')
        (ensured (λ _ m'. Disciplined m'.calls) done
          (converge-Keeps os sampling environ directory p (own s) h.log))
        (found-SameAs s i p p' found
          (ensured (λ q _. Kept p q) done (converge-Kept os sampling environ directory p (own s)))
          h)
        h
  Work-AllSafe _ _ (converge_store s i p' now at found) h = record {
    system = store-Safe s.system i p' now (subst (IsStored start) at h.stores) h.system;
    log = h.log;
    stores = tt;
  }
  Work-AllSafe _ _ (converged_all s at) h = moved-AllSafe s (updating 0) tt h
  Work-AllSafe _ _ (update s i p p' e m at found done) h =
      worked-AllSafe s m (showing i p' e)
        (ensured (λ _ m'. Disciplined m'.calls) done
          (update_row-Keeps os sampling environ fuel p (own s) h.log))
        (found-SameAs s i p p' found
          (ensured (λ r _. Kept p r.0 × Shows r.0 r.1) done
            (update_row-Kept os sampling environ fuel p (own s))).0
          h)
        h
  Work-AllSafe _ _ (update_store s i p' now e at found) h = record {
    system = store-Safe s.system i p' now (subst (IsStored start) at h.stores) h.system;
    log = h.log;
    stores = tt;
  }
  Work-AllSafe _ _ (updated_all s at) h = moved-AllSafe s publishing tt h
  Work-AllSafe _ _ (publish s at free) h = record {
    system = h.system;
    log = h.log;
    stores = published-IsStored start (s.exit == 1);
  }
  Work-AllSafe _ _ (wake s at) h = moved-AllSafe s reflecting tt h

  Show-Safe :
      (s t : Threads W)
      → Show os sampling environ directory fuel (length start) s t
      → Safe start s.system
      → Safe start t.system
  Show-Safe _ _ (draw_row s row p activity age m m' at found done aged) h =
      with_machine-Safe s.system m'
        (ensured (λ _ m₂. Disciplined m₂.calls) aged
          (lifetime-Keeps os p m (
            ensured (λ _ m₁. Disciplined m₁.calls) done
              (current_activity-Keeps os p s.system.machine h.disciplined))))
        h
  Show-Safe _ _ (drawn_all s at) h = h
  Show-Safe _ _ (page_begins s c at asks) h = h
  Show-Safe _ _ (page_ends s c ui table at pressed) h =
      let size = sym (Pairwise-length Same start s.system.table h.same) in
      with_key-Safe s.system ui table (press (letter c) (length start) s.system.ui s.system.table)
        pressed (press-InRange (letter c) (length start) s.system.ui s.system.table h.in_range size)
        (press-Pressed (letter c) (length start) s.system.ui s.system.table) h
  Show-Safe _ _ (key_pressed s key ui table at other pressed) h =
      let size = sym (Pairwise-length Same start s.system.table h.same) in
      with_key-Safe s.system ui table (press key (length start) s.system.ui s.system.table) pressed
        (press-InRange key (length start) s.system.ui s.system.table h.in_range size)
        (press-Pressed key (length start) s.system.ui s.system.table) h
  Show-Safe _ _ (lock_terminating s at term) h = h
  Show-Safe _ _ (probe s row n p alive m at found done) h =
      with_machine-Safe s.system m
        (ensured (λ _ m'. Disciplined m'.calls) done
          (is_alive-Keeps os p s.system.machine h.disciplined))
        h
  Show-Safe _ _ (none_alive s at) h = record {
    disciplined = h.disciplined;
    same = h.same;
    in_range = h.in_range;
  }
  Show-Safe _ _ (some_alive s n at) h = h
  Show-Safe _ _ (decide s current late m at done e) h = record {
    disciplined = ensured (λ _ m'. Disciplined m'.calls) done h.disciplined;
    same = h.same;
    in_range = h.in_range;
  }
  Show-Safe _ _ (signal_one s row n p answer m at found done) h =
      with_machine-Safe s.system m
        (ensured (λ _ m'. Disciplined m'.calls) done
          (signal-Keeps os n p s.system.machine h.disciplined))
        h
  Show-Safe _ _ (signalled_all s n at) h = h
  Show-Safe _ _ (not_terminating s at term) h = h
  Show-Safe _ _ (tested s ui table ends m at done) h =
      let stays =
        ensured (λ r _. Stays s.system.ui s.system.table r) done
          (test_exit-Stays os s.system.ui s.system.table s.system.machine) in
      record {
        disciplined =
            ensured (λ _ m'. Disciplined m'.calls) done
              (test_exit-Keeps os s.system.ui s.system.table s.system.machine h.disciplined);
        same = Pairwise-trans start s.system.table table h.same stays.1;
        in_range = subst (λ n. n < length start) (sym stays.0) h.in_range;
      }
  Show-Safe _ _ (destroy s at) h = h
  Show-Safe _ _ (join s at e) h = h

  Outside-Safe :
      (s t : Threads W)
      → Outside os sampling environ directory fuel (length start) s t
      → Safe start s.system
      → Safe start t.system
  Outside-Safe _ _ (sigint s) h = interrupted-Safe s.system h
  Outside-Safe _ _ (sigchld s i p u m found done) h =
      with_machine-Safe s.system m
        (ensured (λ _ m'. Disciplined m'.calls) done
          (reap_zombie_processes-Keeps os fuel p s.system.machine h.disciplined))
        h
  Outside-Safe _ _ (elsewhere s w) h =
      with_machine-Safe s.system (record (s.system.machine) { world = w }) h.disciplined h

  Show-log :
      (s t : Threads W)
      → Show os sampling environ directory fuel (length start) s t
      → (t.log ≡ s.log) × (t.pc ≡ s.pc)
  Show-log _ _ (draw_row s row p activity age m m' at found done aged) = (refl, refl)
  Show-log _ _ (drawn_all s at) = (refl, refl)
  Show-log _ _ (page_begins s c at asks) = (refl, refl)
  Show-log _ _ (page_ends s c ui table at pressed) = (refl, refl)
  Show-log _ _ (key_pressed s key ui table at other pressed) = (refl, refl)
  Show-log _ _ (lock_terminating s at term) = (refl, refl)
  Show-log _ _ (probe s row n p alive m at found done) = (refl, refl)
  Show-log _ _ (none_alive s at) = (refl, refl)
  Show-log _ _ (some_alive s n at) = (refl, refl)
  Show-log _ _ (decide s current late m at done e) = (refl, refl)
  Show-log _ _ (signal_one s row n p answer m at found done) = (refl, refl)
  Show-log _ _ (signalled_all s n at) = (refl, refl)
  Show-log _ _ (not_terminating s at term) = (refl, refl)
  Show-log _ _ (tested s ui table ends m at done) = (refl, refl)
  Show-log _ _ (destroy s at) = (refl, refl)
  Show-log _ _ (join s at e) = (refl, refl)

  Outside-log :
      (s t : Threads W)
      → Outside os sampling environ directory fuel (length start) s t
      → (t.log ≡ s.log) × (t.pc ≡ s.pc)
  Outside-log _ _ (sigint s) = (refl, refl)
  Outside-log _ _ (sigchld s i p u m found done) = (refl, refl)
  Outside-log _ _ (elsewhere s w) = (refl, refl)

  aside-AllSafe :
      (s t : Threads W)
      → (t.log ≡ s.log) × (t.pc ≡ s.pc)
      → AllSafe start s
      → Safe start t.system
      → AllSafe start t
  aside-AllSafe s t same h k = record {
    system = k;
    log = subst Disciplined (sym same.0) h.log;
    stores = subst (IsStored start) (sym same.1) h.stores;
  }

  -- Whatever moves the two threads, the handlers and the world make, and in whatever order: in each
  -- state up to the join and behind it the calls of the status thread, among themselves, are
  -- disciplined, so that it starts a process only where there was none or next to its own probe that
  -- found the old one gone; those of the screen and of the handlers are too; every process stays at
  -- its place in the table with its instruction, port and files, also when the thread stores what it
  -- has computed over what the screen has written in between; and a row of the table is highlighted.
  pub Run-Safe :
      (n : ℕ) (s t : Threads W)
      → Run os sampling environ directory fuel (length start) n s t
      → AllSafe start s
      → AllSafe start t
  Run-Safe _ _ _ (here s) h = h
  Run-Safe _ _ _ (works n s t u r move) h = Work-AllSafe t u move (Run-Safe n s t r h)
  Run-Safe _ _ _ (shows n s t u r move) h =
      let now = Run-Safe n s t r h in
      aside-AllSafe t u (Show-log t u move) now (Show-Safe t u move now.system)
  Run-Safe _ _ _ (outside n s t u r move) h =
      let now = Run-Safe n s t r h in
      aside-AllSafe t u (Outside-log t u move) now (Outside-Safe t u move now.system)
