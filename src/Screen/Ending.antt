-- ===== src/Screen/Ending.antt =====
-- That the tests behind a key always come to an end, and that the termination does.
use fiveman.Common.{
  sym, Bool-cases, inl, inr, subst, ℕ, suc, ◌+◌, ◌<◌, ◌≤◌, ◌^◌, Bool, true, false, not, List, [],
  ◌∷◌, ◌≡◌, refl, arith, ltb, if◌then◌else◌,
}
use fiveman.Common.Int.{ℤ, pos, is_positive, ltb_ℤ}
use fiveman.Machine.{Posix, Machine, Outcome, returned, pure, and_then}
use fiveman.Process.{sigkill, sigterm}
use fiveman.Process.Age.{distance}
use fiveman.Process.Converge.{is_alive, signal}
use fiveman.Process.Converge.Discipline.{Keeps}
use fiveman.Screen.Keys.{Ui, terminate, begin_exit, test_exit, leave, term_timeout}
use fiveman.Table.{for_each, table_signal, table_num_alive}
use fiveman.Types.{ProcessState}

abbrev pub Returns : {W A : Type 0} → Outcome W A → Type 0
Returns {W} {A} o = (a : A) × (m : Machine W) × (o ≡ returned a m)

module _ {W : Type 0} (os : Posix W) where
  pub is_alive-Returns : (s : ProcessState) (m : Machine W) → Returns (is_alive os s m)
  unfolding is_alive
  is_alive-Returns s m = elim (Bool-cases (is_positive s.pid)) [
    | inl p ↦ rw p (_, _, refl)
    | inr p ↦ rw p (_, _, refl)
  ]

  table_num_alive-Returns :
      (table : List ProcessState) (m : Machine W) → Returns (table_num_alive os table m)
  unfolding table_num_alive
  table_num_alive-Returns [] m = (_, _, refl)
  table_num_alive-Returns (s ∷ ss) m =
      let (alive, m₁, e) = is_alive-Returns s m in
      let (n, m₂, k) = table_num_alive-Returns ss m₁ in (if alive then suc n else n, m₂, rw (e, k))

  pub signal-Returns : (n : ℤ) (s : ProcessState) (m : Machine W) → Returns (signal os n s m)
  unfolding signal
  signal-Returns n s m = elim (Bool-cases (is_positive s.pid)) [
    | inl p ↦ rw p (_, _, refl)
    | inr p ↦ rw p (_, _, refl)
  ]

  table_signal-Returns :
      (n : ℤ) (table : List ProcessState) (m : Machine W) → Returns (table_signal os n table m)
  unfolding for_each
  table_signal-Returns n [] m = (_, _, refl)
  table_signal-Returns n (s ∷ ss) m =
      let (a, m₁, e) = signal-Returns n s m in
      let (b, m₂, k) = table_signal-Returns n ss m₁ in (b, m₂, rw (e, k))

  terminate-Returns :
      (ui : Ui) (table : List ProcessState) (m : Machine W) → Returns (terminate os ui table m)
  unfolding terminate
  terminate-Returns ui table m =
      let (n, m₁, e) = table_num_alive-Returns table m in
      let late = not (ltb_ℤ (distance (os.time m₁.world).1 ui.term_issued_at) (pos term_timeout)) in
      let (_, m₂, sent) =
        table_signal-Returns (if late then sigkill else sigterm) table
          (record m₁ { world = (os.time m₁.world).0 }) in
      elim (Bool-cases (ltb 0 n)) [
        | inl alive ↦ (record ui { exit_fiveman_immediately = late }, m₂, rw (e, alive, sent))
        | inr dead ↦ (record ui { exit_fiveman_immediately = true }, m₁, rw (e, dead))
      ]

  pub test_exit-Returns :
      (ui : Ui) (table : List ProcessState) (m : Machine W) → Returns (test_exit os ui table m)
  unfolding test_exit begin_exit
  test_exit-Returns ui table m = elim (Bool-cases ui.exit_fiveman_immediately) [
    | inl now ↦ rw now (_, _, refl)
    | inr later ↦ elim (Bool-cases ui.exit_fiveman) [
      | inl quit ↦ rw (later, quit) (_, _, refl)
      | inr stays ↦ rw (later, stays) (_, _, refl)
    ]
  ]

  pub leave-Returns :
      (ui : Ui) (table : List ProcessState) (m : Machine W) → Returns (leave os ui table m)
  unfolding leave
  leave-Returns ui table m = either ui.is_terminating
    where
      either :
          (b : Bool)
          → Returns (
              and_then
                ((if b then terminate os ui table else pure ui) m)
                (λ ui'. test_exit os ui' table))
      either true =
          let (ui', m₁, e) = terminate-Returns ui table m in
          let (r, m₂, k) = test_exit-Returns ui' table m₁ in (r, m₂, rw (e, k))
      either false = test_exit-Returns ui table m

  -- 100 seconds behind the first SIGTERM.
  late_lem :
      (now issued : ℕ)
      → issued + 100 ≤ now
      → now < issued + 2 ^ 31
      → not (ltb_ℤ (distance now issued) (pos term_timeout)) ≡ true
  unfolding distance
  late_lem now issued h k = ground arith

  terminate_late :
      (ui : Ui) (table : List ProcessState) (m : Machine W)
      → ((n : ℕ) (m₁ : Machine W)
          → table_num_alive os table m ≡ returned n m₁
          → (ui.term_issued_at + 100 ≤ (os.time m₁.world).1)
            × ((os.time m₁.world).1 < ui.term_issued_at + 2 ^ 31))
      → (m' : Machine W) × (terminate os ui table m
          ≡ returned (record ui { exit_fiveman_immediately = true }) m')
  unfolding terminate
  terminate_late ui table m h =
      let (n, m₁, e) = table_num_alive-Returns table m in
      let late = late_lem (os.time m₁.world).1 ui.term_issued_at (h n m₁ e).0 (h n m₁ e).1 in
      let (_, m₂, sent) =
        table_signal-Returns sigkill table (record m₁ { world = (os.time m₁.world).0 }) in
      elim (Bool-cases (ltb 0 n)) [
        | inl alive ↦ (m₂, rw (e, alive, late, sent))
        | inr dead ↦ (m₁, rw (e, dead))
      ]

  -- While fiveman terminates, if the clock that is read behind the look at the table stands 100
  -- seconds or more (and below 2 ^ 31) past the time that it began, the round returns and ends the
  -- loop, whatever the processes do.
  pub leave-late :
      (ui : Ui) (table : List ProcessState) (m : Machine W)
      → ui.is_terminating ≡ true
      → ((n : ℕ) (m₁ : Machine W)
          → table_num_alive os table m ≡ returned n m₁
          → (ui.term_issued_at + 100 ≤ (os.time m₁.world).1)
            × ((os.time m₁.world).1 < ui.term_issued_at + 2 ^ 31))
      → (m' : Machine W) × (leave os ui table m
          ≡ returned (record ui { exit_fiveman_immediately = true }, table, true) m')
  unfolding leave test_exit
  leave-late ui table m t h =
      let (m', e) = terminate_late ui table m h in
      (
        m',
        subst
            (λ b.
              and_then ((if b then terminate os ui table else pure ui) m)
                (λ ui'. test_exit os ui' table)
              ≡ returned (record ui { exit_fiveman_immediately = true }, table, true) m')
            (sym t) (rw e),
      )

module _ {W : Type 0} (os : Posix W) where
  pub test_exit-Keeps : (ui : Ui) (table : List ProcessState) → Keeps (test_exit os ui table)
  unfolding test_exit begin_exit
  test_exit-Keeps ui table m d = ground arith
