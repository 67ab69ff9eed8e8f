-- ===== src/Table.antt =====
-- src/fiveman_process_state_table.c: the processes of a Procfile, in the order of the file. The
-- list stands for the chain of `next` pointers, and each loop over the chain goes down the list.
pub mod Ports
pub mod Loops
use fiveman.Common.{ℕ, zero, suc, ◌+◌, Bool, true, false, List, [], ◌∷◌, map, if◌then◌else◌}
use fiveman.Common.Int.{ℤ, pos, ◌+ℤ◌}
use fiveman.Common.Text.{Text}
use fiveman.Machine.{Posix, Sampling, M, pure, and_then, ◌>>=◌, ◌>>◌, sys_unlink}
use fiveman.Process.{
  allocate, initialize, teardown_sampling, change_intent, desires_intent, reflect_desired_intent,
}
use fiveman.Process.Converge.{is_alive, signal, converge, reap_zombie_processes}
use fiveman.Procfile.{Instruction}
use fiveman.Types.{ProcessState, Intent}

-- A loop that changes each state in turn.
unfoldable pub each : {W A B : Type 0} → (A → M W B) → List A → M W (List B)
each f [] = pure []
each f (x ∷ xs) = do y ← f x; ys ← each f xs; pure (y ∷ ys)

-- A loop for its effects.
unfoldable pub for_each : {W A B : Type 0} → (A → M W B) → List A → M W (Unit {0})
for_each f [] = pure tt
for_each f (x ∷ xs) = do _ ← f x; for_each f xs

unfoldable pub table_allocate : List Instruction → ℤ → List ProcessState
table_allocate [] port = []
table_allocate (i ∷ is) port = allocate i port ∷ table_allocate is (port +ℤ pos 1)

abbrev pub table_change_intent : Intent → List ProcessState → List ProcessState
table_change_intent i = map (λ s. change_intent s i)

abbrev pub table_desires_intent : Intent → List ProcessState → List ProcessState
table_desires_intent i = map (λ s. desires_intent s i)

abbrev pub table_reflect_desired_intent : List ProcessState → List ProcessState
table_reflect_desired_intent = map reflect_desired_intent

module _ {W : Type 0} (os : Posix W) where
  abbrev pub table_signal : ℤ → List ProcessState → M W (Unit {0})
  table_signal n = for_each (signal os n)

  unfoldable pub table_num_alive : List ProcessState → M W ℕ
  table_num_alive [] = pure 0
  table_num_alive (s ∷ ss) = do
    alive ← is_alive os s
    n ← table_num_alive ss
    pure (if alive then suc n else n)

  abbrev pub table_reap_zombie_processes : ℕ → List ProcessState → M W (Unit {0})
  table_reap_zombie_processes fuel = for_each (reap_zombie_processes os fuel)

module _ {W : Type 0} (os : Posix W) (sampling : Sampling W) where
  abbrev pub table_initialize : List ProcessState → M W (List ProcessState)
  table_initialize = each (initialize os sampling)

  abbrev pub table_converge : List Text → Text → List ProcessState → M W (List ProcessState)
  table_converge environ directory = each (converge os sampling environ directory)

  -- fiveman_process_state_deallocate goes down the chain by itself.
  unfoldable pub deallocate : ProcessState → M W (Unit {0})
  deallocate s = do
    _ ← teardown_sampling os sampling s
    sys_unlink os s.stdout
    sys_unlink os s.stderr

  abbrev pub table_deallocate : List ProcessState → M W (Unit {0})
  table_deallocate = for_each deallocate
