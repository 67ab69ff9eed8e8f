-- ===== src/Threads/Finish.antt =====
-- The end of main, behind every run of the two threads.
use fiveman.Common.{
  ℕ, true, List, ◌∷◌, ◌≡◌, refl, ◌∙◌, ap, arith, length, Bool-cases, inl, inr, if◌then◌else◌,
}
use fiveman.Common.Int.{ℤ, pos, is_positive}
use fiveman.Common.Text.{Text}
use fiveman.Machine.{Posix, Sampling, Machine, Call, returned}
use fiveman.Main.Begin.{begin, ReadyOf-fits, IsStarted, start_up-IsStarted}
use fiveman.Main.Program.{Setting, Started, start_up, release}
use fiveman.PagerFork.Lifecycle.{Fork, pager_fork_destroy}
use fiveman.Process.{sigterm}
use fiveman.Process.Converge.Discipline.{Disciplined}
use fiveman.Screen.Keys.{initial_ui, states_fit}
use fiveman.System.{System}
use fiveman.System.Cleanup.{RunsTo, removed, removed-Same, table_deallocate-RunsTo}
use fiveman.System.Safety.{ensured}
use fiveman.Threads.{Threads, Run, first, joined}
use fiveman.Threads.Order.{Ordered, Run-Ordered, is_ended, is_joined, is_behind}
use fiveman.Threads.Safety.{Run-Safe}
use fiveman.Types.{ProcessState, ScreenEntry}

-- The log behind the SIGTERM to the pager's process, if there is one.
abbrev pub pager_ended : ℤ → ℤ → List Call → List Call
pager_ended pid answer cs = if is_positive pid then Call.kill pid sigterm answer ∷ cs else cs

module _ {W : Type 0} (os : Posix W) where
  pager_fork_destroy-RunsTo :
      (fork : Fork) (descriptors : List ℕ) (m : Machine W)
      → (answer : ℤ) × RunsTo
          (pager_fork_destroy os fork descriptors m)
          (pager_ended fork.pid answer m.calls)
  unfolding pager_fork_destroy
  pager_fork_destroy-RunsTo fork descriptors m = elim (Bool-cases (is_positive fork.pid)) [
    | inl p ↦ rw p (_, (_, _, refl, refl))
    | inr n ↦ rw n (pos 0, (_, _, refl, refl))
  ]

module _ {W : Type 0} (os : Posix W) (sampling : Sampling W) where
  release-RunsTo :
      (fork : Fork) (descriptors : List ℕ) (table : List ProcessState) (m : Machine W)
      → (answer : ℤ) × RunsTo
          (release os sampling fork descriptors table m)
          (pager_ended fork.pid answer (removed table m.calls))
  unfolding release
  release-RunsTo fork descriptors table m =
      let (u, m₁, e, c) = table_deallocate-RunsTo os sampling table m in
      let (answer, (ds, m₂, e', c')) = pager_fork_destroy-RunsTo os fork descriptors m₁ in
      (answer, (ds, m₂, rw (e, e'), c' ∙ ap (pager_ended fork.pid answer) c))

begin-Ordered :
    {W : Type 0} (s : System W) (entries : List ScreenEntry)
    → s.ui ≡ initial_ui
    → Ordered (first s entries)
unfolding initial_ui
begin-Ordered s entries e = ground arith

-- Main has come behind the join: the status thread has ended, fiveman terminates, the two logs are
-- disciplined, and what is left of main returns, and removes the files and ends the pager.
pub record Finished {W : Type 0} (os : Posix W) (sampling : Sampling W) (r : Started)
    (t : Threads W) : Type 0 where
  pub thread_ended : is_ended t.pc ≡ true
  pub terminates : t.system.ui.is_terminating ≡ true
  pub disciplined : Disciplined t.system.machine.calls × Disciplined t.log
  pub answer : ℤ
  pub releases :
      RunsTo (release os sampling r.pager_fork r.descriptors t.system.table t.system.machine) (
        pager_ended r.pager_fork.pid answer
          (removed r.application_state_table t.system.machine.calls))

module _ {W : Type 0} (os : Posix W) (sampling : Sampling W) (environ : List Text) (fuel : ℕ) where
  -- When main has reached the screen with a table that fits the arrays, and the two threads, the
  -- signals and the world have made any moves up to one behind the join: the status thread has ended,
  -- so that it does not use the table any more, fiveman terminates, and the log of the status thread
  -- and that of the main thread and its handlers are each disciplined. The rest of main returns: it removes
  -- the two files of each process of the table that main made from the Procfile, in its order, and
  -- then sends SIGTERM to the pager's process if there is one; it logs no other call.
  pub release-Finished :
      (e : Setting) (m₀ m : Machine W) (r : Started) (n : ℕ) (t : Threads W)
      → Disciplined m₀.calls
      → start_up os sampling e m₀ ≡ returned r m
      → states_fit r.num_instructions r.application_state_table ≡ true
      → Run os sampling environ r.options.directory fuel
          (length r.application_state_table)
          n
          (first (begin r m) r.thread.cur_entries)
          t
      → t.main_pc ≡ joined
      → Finished os sampling r t
  release-Finished e m₀ m r n t d started fits moves at =
      let table = r.application_state_table in
      let begun = ensured (IsStarted e) started (start_up-IsStarted os sampling e m₀ d) in
      let safe =
        ReadyOf-fits (e.bytes r.options.procfile) (r.num_instructions, table) m begun.arrays fits
          begun.occupied in
      let now =
        Run-Safe os sampling environ r.options.directory fuel table n
          (first (begin r m) r.thread.cur_entries) t moves
          (record { system = safe; log = tt; stores = tt }) in
      let order =
        Run-Ordered os sampling environ r.options.directory fuel (length table) n
          (first (begin r m) r.thread.cur_entries) t moves
          (begin-Ordered (begin r m) r.thread.cur_entries refl) in
      let (answer, (ds, m', e', c)) =
        release-RunsTo os sampling r.pager_fork r.descriptors t.system.table t.system.machine in
      let same = removed-Same table t.system.table t.system.machine.calls now.system.same in
      record {
        thread_ended = order.joined_ended (ap is_joined at);
        terminates = order.terminates (order.behind (ap is_behind at));
        disciplined = (now.system.disciplined, now.log);
        answer = answer;
        releases = (ds, m', e', c ∙ ap (pager_ended r.pager_fork.pid answer) same);
      }
