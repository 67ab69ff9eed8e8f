-- ===== src/Threads/Next.antt =====
-- The next move of the status thread: the row that it comes to is one of the table, and it can move
-- if the lock is free and the call for that row returns.
use fiveman.Common.{
  ℕ, zero, suc, ◌≤◌, ◌<◌, true, false, some, List, [], ◌∷◌, ◌≡◌, ◌⊎◌, inl, inr, refl, ap, ◌∙◌,
  arith, length, get_elem?,
}
use fiveman.Common.Text.{Text}
use fiveman.Machine.{Posix, Sampling, Machine, Outcome, returned, failed, exited, crashed, diverged}
use fiveman.Process.Converge.{converge, reap_zombie_processes}
use fiveman.StatusThread.{initial_entries, update_row}
use fiveman.Threads.{
  Threads, Pc, preparing, reflecting, reaping, converging, storing, updating, showing, publishing,
  sleeping, ended, own, holds_lock, Work, prepare, prepared, reflect, reap, reaped_all,
  converge_one, converge_store, converged_all, update, update_store, updated_all, publish, wake,
}
use fiveman.Threads.Order.{is_ended}
use fiveman.Types.{ProcessState}

-- The row that the thread comes to next is one of the table, or just behind it; one for which it is
-- about to store is one of the table.
abbrev pub InRows : ℕ → Pc → Type 0
InRows n (preparing i) = i ≤ n
InRows n (reaping i) = i ≤ n
InRows n (converging i) = i ≤ n
InRows n (storing i p) = i < n
InRows n (updating i) = i ≤ n
InRows n (showing i p e) = i < n
InRows n _ = Unit

-- The last row is done, or there is a process at the row.
pub row-cases :
    (table : List ProcessState) (i : ℕ)
    → i ≤ length table
    → (i ≡ length table) ⊎ ((p : ProcessState) × (get_elem? table i ≡ some p))
row-cases [] i h = inl (omega arith)
row-cases (s ∷ ss) zero h = inr (s, refl)
row-cases (s ∷ ss) (suc i) h = elim (row-cases ss i (omega arith)) [
  | inl e ↦ inl (omega arith)
  | inr found ↦ inr found
]

row_found :
    (table : List ProcessState) (i : ℕ)
    → i < length table
    → (p : ProcessState) × (get_elem? table i ≡ some p)
row_found [] i h = let absurd : ⊥ = omega arith in elim absurd [ ]
row_found (s ∷ ss) zero h = (s, refl)
row_found (s ∷ ss) (suc i) h = row_found ss i (omega arith)

pub lt_of_get_elem? :
    (table : List ProcessState) (i : ℕ) (p : ProcessState)
    → get_elem? table i ≡ some p
    → i < length table
lt_of_get_elem? [] i p e = cc
lt_of_get_elem? (s ∷ ss) zero p e = omega arith
lt_of_get_elem? (s ∷ ss) (suc i) p e = omega (arith, lt_of_get_elem? ss i p e)

module _ {W : Type 0} (os : Posix W) (sampling : Sampling W) (environ : List Text)
    (directory : Text) (fuel : ℕ) (total : ℕ) where
  -- No outcome is a return.
  abbrev pub Fails : {A : Type 0} → Outcome W A → Type 0
  Fails (returned a m) = ⊥
  Fails _ = Unit

  -- The call for the row at which the thread stands does not return.
  abbrev pub Dies : Pc → Threads W → Type 0
  Dies (preparing i) s =
      (p : ProcessState) × (get_elem? s.system.table i ≡ some p)
      × Fails (initial_entries os p (own s))
  Dies (reaping i) s =
      (p : ProcessState) × (get_elem? s.system.table i ≡ some p)
      × Fails (reap_zombie_processes os fuel p (own s))
  Dies (converging i) s =
      (p : ProcessState) × (get_elem? s.system.table i ≡ some p)
      × Fails (converge os sampling environ directory p (own s))
  Dies (updating i) s =
      (p : ProcessState) × (get_elem? s.system.table i ≡ some p)
      × Fails (update_row os sampling environ fuel p (own s))
  Dies _ s = ⊥

  abbrev pub GoesOn : Threads W → Type 0
  GoesOn s =
      (is_ended s.pc ≡ true)
      ⊎ ((t : Threads W) × Work os sampling environ directory fuel total s t)
      ⊎ Dies s.pc s

  Outcome-cases :
      {A : Type 0} (o : Outcome W A) → ((a : A) × (m : Machine W) × (o ≡ returned a m)) ⊎ Fails o
  Outcome-cases (returned a m) = inl (a, m, refl)
  Outcome-cases failed = inr tt
  Outcome-cases (exited n) = inr tt
  Outcome-cases crashed = inr tt
  Outcome-cases diverged = inr tt

  pub goes_on :
      (s : Threads W) (pc : Pc)
      → s.pc ≡ pc
      → InRows (length s.system.table) pc
      → holds_lock s.main_pc ≡ false
      → (is_ended pc ≡ true)
        ⊎ ((t : Threads W) × Work os sampling environ directory fuel total s t)
        ⊎ Dies pc s
  goes_on s (preparing i) at rows free = elim (row-cases s.system.table i rows) [
    | inl last ↦ inr (inl (_, prepared s (at ∙ ap preparing last)))
    | inr (p, found) ↦ elim (Outcome-cases (initial_entries os p (own s))) [
      | inl (e, m, done) ↦ inr (inl (_, prepare s i p e m at found done))
      | inr fails ↦ inr (inr (p, found, fails))
    ]
  ]
  goes_on s reflecting at rows free = inr (inl (_, reflect s at free))
  goes_on s (reaping i) at rows free = elim (row-cases s.system.table i rows) [
    | inl last ↦ inr (inl (_, reaped_all s (at ∙ ap reaping last)))
    | inr (p, found) ↦ elim (Outcome-cases (reap_zombie_processes os fuel p (own s))) [
      | inl (u, m, done) ↦ inr (inl (_, reap s i p u m at found done))
      | inr fails ↦ inr (inr (p, found, fails))
    ]
  ]
  goes_on s (converging i) at rows free = elim (row-cases s.system.table i rows) [
    | inl last ↦ inr (inl (_, converged_all s (at ∙ ap converging last)))
    | inr (p, found) ↦ elim (Outcome-cases (converge os sampling environ directory p (own s))) [
      | inl (p', m, done) ↦ inr (inl (_, converge_one s i p p' m at found done))
      | inr fails ↦ inr (inr (p, found, fails))
    ]
  ]
  goes_on s (storing i p') at rows free =
      let (now, found) = row_found s.system.table i rows in
      inr (inl (_, converge_store s i p' now at found))
  goes_on s (updating i) at rows free = elim (row-cases s.system.table i rows) [
    | inl last ↦ inr (inl (_, updated_all s (at ∙ ap updating last)))
    | inr (p, found) ↦ elim (Outcome-cases (update_row os sampling environ fuel p (own s))) [
      | inl ((p', e), m, done) ↦ inr (inl (_, update s i p p' e m at found done))
      | inr fails ↦ inr (inr (p, found, fails))
    ]
  ]
  goes_on s (showing i p' e) at rows free =
      let (now, found) = row_found s.system.table i rows in
      inr (inl (_, update_store s i p' now e at found))
  goes_on s publishing at rows free = inr (inl (_, publish s at free))
  goes_on s sleeping at rows free = inr (inl (_, wake s at))
  goes_on s ended at rows free = inl refl
