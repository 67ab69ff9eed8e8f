-- ===== src/Threads/Progress.antt =====
-- That the two threads do not wait for each other for ever.
use fiveman.Common.{
  ℕ, zero, suc, ◌≤◌, ◌<◌, true, false, Option, none, some, List, ◌≡◌, ◌⊎◌, inl, inr, refl, sym,
  subst, ap, ◌∙◌, arith, length, Bool, Bool-cases, if◌then◌else◌,
}
use fiveman.Common.Text.{Text}
use fiveman.Machine.{Posix, Sampling, Machine}
use fiveman.System.Same.{Same}
use fiveman.Table.Loops.{Pairwise-length}
use fiveman.Threads.{
  Threads, MainPc, drawing, paging, is_page, waiting, terminating, probing, deciding, signalling,
  testing, left, joining, joined, ended, holds_lock, Pc, Work, Show, draw_row, drawn_all,
  page_begins, page_ends, key_pressed, lock_terminating, probe, none_alive, some_alive, decide,
  signal_one, signalled_all, not_terminating, tested, destroy, join, Outside, sigint, sigchld,
  elsewhere, Run, here, works, shows, outside,
}
use fiveman.Threads.Join.{Work-main_pc, Run-InRows}
use fiveman.Threads.Next.{InRows, row-cases, lt_of_get_elem?, Dies, GoesOn, goes_on}
use fiveman.Threads.Order.{is_ended}
use fiveman.Threads.Safety.{AllSafe, Run-Safe}
use fiveman.Types.{ProcessState, Intent, intent_start, intent_stop, intent_sig, intent_none}
use fiveman.Process.Age.{lifetime}
use fiveman.Process.Converge.{signal, current_activity}
use fiveman.Screen.Keys.{Ui, Key, letter, key_up, key_down, err, press, press-InRange, InRange}
use fiveman.Screen.Ending.{Returns, is_alive-Returns, signal-Returns, test_exit-Returns}

-- The row that the screen comes to next is one of the table, or just behind it.
abbrev pub InTable : ℕ → MainPc → Type 0
InTable n (drawing row) = row ≤ n
InTable n (probing row alive) = row ≤ n
InTable n (signalling row signal) = row ≤ n
InTable n _ = Unit

ended-cases : (pc : Pc) → (pc ≡ ended) ⊎ (is_ended pc ≡ false)
ended-cases pc = ground arith

press-some :
    (total : ℕ) (pressed : Option (Ui × List ProcessState))
    → InRange total pressed
    → (ui : Ui) × (table : List ProcessState) × (pressed ≡ some (ui, table))
press-some total none h = elim h [ ]
press-some total (some (ui, table)) h = (ui, table, refl)

-- Where a key takes the main thread.
abbrev pub after_key : Key → MainPc
after_key (letter c) = if is_page (letter c) then paging c else terminating
after_key _ = terminating

-- In the wait for the pager.
abbrev pub is_paging : MainPc → Bool
is_paging (paging c) = true
is_paging _ = false

Intent-cases :
    (i : Intent) → (i ≡ intent_start) ⊎ (i ≡ intent_stop) ⊎ (i ≡ intent_sig) ⊎ (i ≡ intent_none)
Intent-cases i = ground arith

current_activity-Returns :
    {W : Type 0} (os : Posix W) (p : ProcessState) (m : Machine W)
    → Returns (current_activity os p m)
unfolding current_activity
current_activity-Returns os p m =
    let (alive, m', e) = is_alive-Returns os p m in
    elim (Intent-cases p.intent.intent) [
      | inl h ↦ rw (h, e) (_, _, refl)
      | inr (inl h) ↦ rw (h, e) (_, _, refl)
      | inr (inr (inl h)) ↦ rw h (_, _, refl)
      | inr (inr (inr h)) ↦ rw h (_, _, refl)
    ]

module _ {W : Type 0} (os : Posix W) (sampling : Sampling W) (environ : List Text)
    (directory : Text) (fuel : ℕ) (total : ℕ) where
  Show-InTable :
      (n : ℕ) (s t : Threads W)
      → Show os sampling environ directory fuel total s t
      → length s.system.table ≡ n
      → InTable n s.main_pc
      → InTable n t.main_pc
  Show-InTable n _ _ (draw_row s row p activity age m m' at found done aged) size h =
      omega (arith, size, lt_of_get_elem? s.system.table row p found)
  Show-InTable n _ _ (drawn_all s at) size h = tt
  Show-InTable n _ _ (page_begins s c at pages) size h = tt
  Show-InTable n _ _ (page_ends s c ui table at pressed) size h = tt
  Show-InTable n _ _ (key_pressed s key ui table at other pressed) size h = tt
  Show-InTable n _ _ (lock_terminating s at term) size h = omega arith
  Show-InTable n _ _ (probe s row k p alive m at found done) size h =
      omega (arith, size, lt_of_get_elem? s.system.table row p found)
  Show-InTable n _ _ (none_alive s at) size h = tt
  Show-InTable n _ _ (some_alive s k at) size h = tt
  Show-InTable n _ _ (decide s current late m at done e) size h = omega arith
  Show-InTable n _ _ (signal_one s row k p answer m at found done) size h =
      omega (arith, size, lt_of_get_elem? s.system.table row p found)
  Show-InTable n _ _ (signalled_all s k at) size h = tt
  Show-InTable n _ _ (not_terminating s at term) size h = tt
  Show-InTable n _ _ (tested s ui table ends m at done) size h = ground arith
  Show-InTable n _ _ (destroy s at) size h = tt
  Show-InTable n _ _ (join s at e) size h = tt

  Outside-main_pc :
      (s t : Threads W)
      → Outside os sampling environ directory fuel total s t
      → t.main_pc ≡ s.main_pc
  Outside-main_pc _ _ (sigint s) = refl
  Outside-main_pc _ _ (sigchld s i p u m found done) = refl
  Outside-main_pc _ _ (elsewhere s w) = refl

  -- At `getch` every key has its move, which for a page of output begins the wait for the pager; in
  -- that wait nothing is known; in pthread_join the thread has not ended, or there is a move;
  -- everywhere else before the end there is one.
  abbrev pub MainGoesOn : MainPc → Threads W → Type 0
  MainGoesOn waiting s =
      (key : Key)
      → (t : Threads W) × Show os sampling environ directory fuel total s t
        × (t.main_pc ≡ after_key key)
  MainGoesOn (paging c) s = Unit
  MainGoesOn joining s =
      (is_ended s.pc ≡ false)
      ⊎ ((t : Threads W) × Show os sampling environ directory fuel total s t)
  MainGoesOn joined s = Unit
  MainGoesOn _ s = (t : Threads W) × Show os sampling environ directory fuel total s t

  found_all :
      (s : Threads W) (n : ℕ)
      → s.main_pc ≡ probing (length s.system.table) n
      → (t : Threads W) × Show os sampling environ directory fuel total s t
  found_all s zero at = (_, none_alive s at)
  found_all s (suc n) at = (_, some_alive s n at)

  pressed_goes_on :
      (s : Threads W) (key : Key)
      → s.main_pc ≡ waiting
      → s.system.ui.highlighted_row < total
      → length s.system.table ≡ total
      → is_page key ≡ false
      → (t : Threads W) × Show os sampling environ directory fuel total s t
        × (t.main_pc ≡ terminating)
  pressed_goes_on s key at h size other =
      let (ui, table, e) =
        press-some total (press key total s.system.ui s.system.table)
          (press-InRange key total s.system.ui s.system.table h size) in
      (_, key_pressed s key ui table at other e, refl)

  key_goes_on :
      (s : Threads W) (key : Key)
      → s.main_pc ≡ waiting
      → s.system.ui.highlighted_row < total
      → length s.system.table ≡ total
      → (t : Threads W) × Show os sampling environ directory fuel total s t
        × (t.main_pc ≡ after_key key)
  key_goes_on s (letter c) at h size = elim (Bool-cases (is_page (letter c))) [
    | inl pages ↦ (_, page_begins s c at pages, rw pages refl)
    | inr other ↦
        let (t, move, there) = pressed_goes_on s (letter c) at h size other in
        (t, move, rw other there)
  ]
  key_goes_on s key_up at h size = pressed_goes_on s key_up at h size refl
  key_goes_on s key_down at h size = pressed_goes_on s key_down at h size refl
  key_goes_on s err at h size = pressed_goes_on s err at h size refl

  main_goes_on :
      (s : Threads W) (pc : MainPc)
      → s.main_pc ≡ pc
      → InTable (length s.system.table) pc
      → s.system.ui.highlighted_row < total
      → length s.system.table ≡ total
      → MainGoesOn pc s
  unfolding lifetime
  main_goes_on s (drawing row) at rows h size = elim (row-cases s.system.table row rows) [
    | inl last ↦ (_, drawn_all s (at ∙ ap drawing last))
    | inr (p, found) ↦
        let (activity, m, e) = current_activity-Returns os p s.system.machine in
        (_, draw_row s row p activity _ m _ at found e refl)
  ]
  main_goes_on s (paging c) at rows h size = tt
  main_goes_on s waiting at rows h size = λ key. key_goes_on s key at h size
  main_goes_on s terminating at rows h size = elim (Bool-cases s.system.ui.is_terminating) [
    | inl h₁ ↦ (_, lock_terminating s at h₁)
    | inr h₂ ↦ (_, not_terminating s at h₂)
  ]
  main_goes_on s (probing row n) at rows h size = elim (row-cases s.system.table row rows) [
    | inl last ↦ found_all s n (at ∙ ap (λ i. probing i n) last)
    | inr (p, found) ↦
        let (alive, m, e) = is_alive-Returns os p s.system.machine in
        (_, probe s row n p alive m at found e)
  ]
  main_goes_on s deciding at rows h size = (_, decide s _ _ _ at refl refl)
  main_goes_on s (signalling row n) at rows h size = elim (row-cases s.system.table row rows) [
    | inl last ↦ (_, signalled_all s n (at ∙ ap (λ i. signalling i n) last))
    | inr (p, found) ↦
        let (answer, m, e) = signal-Returns os n p s.system.machine in
        (_, signal_one s row n p answer m at found e)
  ]
  main_goes_on s testing at rows h size =
      let ((ui, table, ends), m, e) =
        test_exit-Returns os s.system.ui s.system.table s.system.machine in
      (_, tested s ui table ends m at e)
  main_goes_on s left at rows h size = (_, destroy s at)
  main_goes_on s joining at rows h size = elim (ended-cases s.pc) [
    | inl h₁ ↦ inr (_, join s at h₁)
    | inr h₂ ↦ inl h₂
  ]
  main_goes_on s joined at rows h size = tt

  -- Main has joined the thread or waits for the pager, or one of the two can move, or the thread's
  -- call does not return.
  abbrev pub Someone : Threads W → Type 0
  Someone s =
      (s.main_pc ≡ joined)
      ⊎ (is_paging s.main_pc ≡ true)
      ⊎ ((t : Threads W) × Show os sampling environ directory fuel total s t)
      ⊎ ((t : Threads W) × Work os sampling environ directory fuel total s t)
      ⊎ Dies os sampling environ directory fuel total s.pc s

  unless_held :
      (s : Threads W)
      → InRows (length s.system.table) s.pc
      → (holds_lock s.main_pc ≡ true) ⊎ GoesOn os sampling environ directory fuel total s
  unless_held s rows = elim (Bool-cases (holds_lock s.main_pc)) [
    | inl held ↦ inl held
    | inr free ↦ inr (goes_on os sampling environ directory fuel total s s.pc refl rows free)
  ]

  not_ended-Someone :
      (s : Threads W)
      → is_ended s.pc ≡ false
      → GoesOn os sampling environ directory fuel total s
      → Someone s
  not_ended-Someone s h (inl e) = cc
  not_ended-Someone s h (inr (inl work)) = inr (inr (inr (inl work)))
  not_ended-Someone s h (inr (inr dies)) = inr (inr (inr (inr dies)))

  MainGoesOn-Someone :
      (s : Threads W) (pc : MainPc)
      → s.main_pc ≡ pc
      → MainGoesOn pc s
      → (holds_lock pc ≡ true) ⊎ GoesOn os sampling environ directory fuel total s
      → Someone s
  MainGoesOn-Someone s (drawing row) at main thread = inr (inr (inl main))
  MainGoesOn-Someone s (paging c) at main thread = inr (inl (ap is_paging at))
  MainGoesOn-Someone s waiting at main thread =
      let (t, show, there) = main Key.err in inr (inr (inl (t, show)))
  MainGoesOn-Someone s terminating at main thread = inr (inr (inl main))
  MainGoesOn-Someone s (probing row n) at main thread = inr (inr (inl main))
  MainGoesOn-Someone s deciding at main thread = inr (inr (inl main))
  MainGoesOn-Someone s (signalling row n) at main thread = inr (inr (inl main))
  MainGoesOn-Someone s testing at main thread = inr (inr (inl main))
  MainGoesOn-Someone s left at main thread = inr (inr (inl main))
  MainGoesOn-Someone s joining at (inr show) thread = inr (inr (inl show))
  MainGoesOn-Someone s joining at (inl running) (inl held) = cc
  MainGoesOn-Someone s joining at (inl running) (inr goes_on) = not_ended-Someone s running goes_on
  MainGoesOn-Someone s joined at main thread = inl at

module _ {W : Type 0} (os : Posix W) (sampling : Sampling W) (environ : List Text)
    (directory : Text) (fuel : ℕ) (start : List ProcessState) where
  Run-InTable :
      (k : ℕ) (s t : Threads W)
      → Run os sampling environ directory fuel (length start) k s t
      → AllSafe start s
      → InTable (length start) s.main_pc
      → InTable (length start) t.main_pc
  Run-InTable _ _ _ (here s) safe rows = rows
  Run-InTable _ _ _ (works k s t u r move) safe rows =
      subst (InTable (length start))
        (sym (Work-main_pc os sampling environ directory fuel (length start) t u move))
        (Run-InTable k s t r safe rows)
  Run-InTable _ _ _ (shows k s t u r move) safe rows =
      let now = Run-Safe os sampling environ directory fuel start k s t r safe in
      Show-InTable os sampling environ directory fuel (length start) (length start) t u move
        (sym (Pairwise-length Same start t.system.table now.system.same))
        (Run-InTable k s t r safe rows)
  Run-InTable _ _ _ (outside k s t u r move) safe rows =
      subst (InTable (length start))
        (sym (Outside-main_pc os sampling environ directory fuel (length start) t u move))
        (Run-InTable k s t r safe rows)

  -- What each thread can do next.
  pub record Live (t : Threads W) : Type 0 where
    pub main : MainGoesOn os sampling environ directory fuel (length start) t.main_pc t
    pub thread :
        (holds_lock t.main_pc ≡ true) ⊎ GoesOn os sampling environ directory fuel (length start) t
    pub someone : Someone os sampling environ directory fuel (length start) t

  -- In every state that is reached, in whatever order the threads, the signals and the world move:
  -- the main thread can make a move, for every key where it waits for one (which for `o` and `e` takes
  -- it into the wait for the pager), unless it is in that wait, of whose end nothing is said, or in
  -- pthread_join and the status thread has not ended, or behind that; and the status thread has
  -- ended, or can make a move, or stands before a call that does not return, unless the main thread
  -- holds the lock, which it does not in the wait for the pager. So behind no moves do the two wait for
  -- each other: main has joined the thread, or waits for the pager, or one of the two can move, or
  -- stands before a call that does not return.
  pub Run-Live :
      (k : ℕ) (s t : Threads W)
      → AllSafe start s
      → InRows (length start) s.pc
      → InTable (length start) s.main_pc
      → Run os sampling environ directory fuel (length start) k s t
      → Live t
  Run-Live k s t safe rows table moves =
      let now = Run-Safe os sampling environ directory fuel start k s t moves safe in
      let size = sym (Pairwise-length Same start t.system.table now.system.same) in
      let at_rows = Run-InRows os sampling environ directory fuel start k s t moves safe rows in
      let in_table = Run-InTable k s t moves safe table in
      let main =
        main_goes_on os sampling environ directory fuel (length start) t t.main_pc refl
          (subst (λ n. InTable n t.main_pc) (sym size) in_table) now.system.in_range size in
      let thread =
        unless_held os sampling environ directory fuel (length start) t
          (subst (λ n. InRows n t.pc) (sym size) at_rows) in
      record {
        main = main;
        thread = thread;
        someone =
            MainGoesOn-Someone os sampling environ directory fuel (length start) t t.main_pc refl
              main thread;
      }
