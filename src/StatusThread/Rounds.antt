-- ===== src/StatusThread/Rounds.antt =====
-- What a round of the status thread keeps.
use fiveman.Common.{ℕ, Bool, List, [], ◌∷◌, ◌≡◌, arith, map}
use fiveman.Common.Text.{Text}
use fiveman.Machine.{Posix, Sampling, Machine, Ensures}
use fiveman.Process.Output.{stdout_has_new_entries, stderr_has_new_entries}
use fiveman.Process.{reflect_desired_intent}
use fiveman.Process.Converge.{child_process_status}
use fiveman.Process.Converge.Discipline.{
  Keeps, converge-Keeps, child_process_status-Keeps, reap_zombie_processes-Keeps,
}
use fiveman.Process.Converge.Soundness.{
  SameIdentity, Kept, converge-Kept, child_process_status-Kept,
}
use fiveman.StatusThread.{update_screen_entry, update_row, update_round}
use fiveman.Table.{each, table_reflect_desired_intent, table_reap_zombie_processes, table_converge}
use fiveman.Table.Loops.{
  Ensures-and_then, each-Keeps, for_each-Keeps, Pairwise, each-Pairwise, Ensures_true, Logged,
}
use fiveman.Types.{ProcessState, ScreenEntry, StatusThread}

module _ {W : Type 0} (os : Posix W) where
  pub update_screen_entry-Keeps : (s : ProcessState) → Keeps (update_screen_entry os s)
  unfolding update_screen_entry
  update_screen_entry-Keeps s m h = ground arith

module _ {W : Type 0} (os : Posix W) (sampling : Sampling W) (environ : List Text) (fuel : ℕ) where
  pub update_row-Keeps : (s : ProcessState) → Keeps (update_row os sampling environ fuel s)
  unfolding update_row
  update_row-Keeps s m h =
      Ensures-and_then Logged Logged (child_process_status os sampling s m) _
        (child_process_status-Keeps os sampling s m h)
        (λ s' m₁ h₁.
          Ensures-and_then Logged Logged (update_screen_entry os s' m₁) _
            (update_screen_entry-Keeps os s' m₁ h₁) (λ e m₂ h₂. h₂))

  -- Behind a round of the status thread that returns a disciplined log is disciplined: every call
  -- that the round made, for whatever process, was an allowed one.
  pub update_round-Keeps : (t : StatusThread) → Keeps (update_round os sampling environ fuel t)
  unfolding update_round
  update_round-Keeps t m h =
      let table = table_reflect_desired_intent t.table in
      Ensures-and_then Logged Logged (table_reap_zombie_processes os fuel table m) _
        (for_each-Keeps _ (reap_zombie_processes-Keeps os fuel) table m h)
        (λ _ m₁ h₁.
          Ensures-and_then Logged Logged (table_converge os sampling environ t.directory table m₁) _
            (each-Keeps _ (converge-Keeps os sampling environ t.directory) table m₁ h₁)
            (λ ss m₂ h₂.
              Ensures-and_then Logged Logged (each (update_row os sampling environ fuel) ss m₂) _
                (each-Keeps _ update_row-Keeps ss m₂ h₂) (λ e m₃ h₃. h₃)))

Kept-trans : (s t u : ProcessState) → Kept s t → Kept t u → Kept s u
Kept-trans s t u h k = record {
  identity = trans_identity s t u h.identity k.identity;
  tracked = λ x. k.tracked (h.tracked x);
}
  where
    trans_identity : (a b c : ProcessState) → SameIdentity a b → SameIdentity b c → SameIdentity a c
    trans_identity a b c p q = ground arith

-- An entry shows the state at its place.
pub record Shows (s : ProcessState) (e : ScreenEntry) : Type 0 where
  pub pid : e.pid ≡ s.pid
  pub sample : e.sample ≡ s.sample
  pub stdout_active : e.stdout_active ≡ stdout_has_new_entries s
  pub stderr_active : e.stderr_active ≡ stderr_has_new_entries s

module _ {W : Type 0} (os : Posix W) (sampling : Sampling W) (environ : List Text) (fuel : ℕ) where
  reflect-Kept : (s : ProcessState) → Kept s (reflect_desired_intent s)
  unfolding reflect_desired_intent
  reflect-Kept s = record { identity = ground arith; tracked = λ h. h }

  update_screen_entry-Shows :
      (s : ProcessState) (m : Machine W) → Ensures (update_screen_entry os s m) (λ e _. Shows s e)
  unfolding update_screen_entry
  update_screen_entry-Shows s m = ground arith

  pub update_row-Kept :
      (s : ProcessState) (m : Machine W)
      → Ensures (update_row os sampling environ fuel s m) (λ r _. Kept s r.0 × Shows r.0 r.1)
  unfolding update_row
  update_row-Kept s m =
      Ensures-and_then (λ s' _. Kept s s') (λ r _. Kept s r.0 × Shows r.0 r.1)
        (child_process_status os sampling s m) _ (child_process_status-Kept os sampling s m)
        (λ s' m₁ k.
          Ensures-and_then (λ e _. Shows s' e) (λ r _. Kept s r.0 × Shows r.0 r.1)
            (update_screen_entry os s' m₁) _ (update_screen_entry-Shows s' m₁) (λ e m₂ h. (k, h)))

  abbrev RoundKept : StatusThread → StatusThread × Bool → Machine W → Type 0
  RoundKept t r m = Pairwise Kept t.table r.0.table × Pairwise Shows r.0.table r.0.cur_entries

  -- The rows of a round, from the states behind their converge.
  rows-Kept :
      (table converged : List ProcessState) (rows : List (ProcessState × ScreenEntry))
      → Pairwise Kept (table_reflect_desired_intent table) converged
      → Pairwise (λ s r. Kept s r.0 × Shows r.0 r.1) converged rows
      → Pairwise Kept table (map (λ r. r.0) rows)
        × Pairwise Shows (map (λ r. r.0) rows) (map (λ r. r.1) rows)
  rows-Kept [] [] [] h k = (tt, tt)
  rows-Kept (s ∷ ss) (c ∷ cs) (r ∷ rs) h k =
      let (kept, shown) = rows-Kept ss cs rs h.1 k.1 in
      let reflected = Kept-trans s (reflect_desired_intent s) c (reflect-Kept s) h.0 in
      ((Kept-trans s c r.0 reflected k.0.0, kept), (k.0.1, shown))
  rows-Kept [] (c ∷ cs) rows h k = absurd h
  rows-Kept (s ∷ ss) [] rows h k = absurd h
  rows-Kept [] [] (r ∷ rs) h k = absurd k
  rows-Kept (s ∷ ss) (c ∷ cs) [] h k = absurd k

  -- A round that returns keeps each process at its place, with its identity and its sampling, and
  -- leaves for each an entry that shows its pid, its sample and whether its files have new entries.
  pub update_round-Kept :
      (t : StatusThread) (m : Machine W)
      → Ensures (update_round os sampling environ fuel t m) (RoundKept t)
  unfolding update_round
  update_round-Kept t m =
      let table = table_reflect_desired_intent t.table in
      Ensures-and_then (λ _ _. Unit {0}) (RoundKept t) (table_reap_zombie_processes os fuel table m)
        _ (Ensures_true _)
        (λ _ m₁ _.
          Ensures-and_then (λ ss _. Pairwise Kept table ss) (RoundKept t)
            (table_converge os sampling environ t.directory table m₁) _
            (each-Pairwise Kept _ (converge-Kept os sampling environ t.directory) table m₁)
            (λ ss m₂ h.
              Ensures-and_then (λ rows _. Pairwise (λ s r. Kept s r.0 × Shows r.0 r.1) ss rows)
                (RoundKept t) (each (update_row os sampling environ fuel) ss m₂) _
                (each-Pairwise (λ s r. Kept s r.0 × Shows r.0 r.1) _ update_row-Kept ss m₂)
                (λ rows m₃ k. rows-Kept t.table ss rows h k)))
