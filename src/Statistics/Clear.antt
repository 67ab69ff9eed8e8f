-- ===== src/Statistics/Clear.antt =====
-- A process that is not just being sampled has all its counters at 0.
use fiveman.Common.{ℕ, Option, none, some, List, [], ◌∷◌, map, arith}
use fiveman.Common.Int.{ℤ}
use fiveman.Common.Text.{Text}
use fiveman.Machine.{Posix, Sampling, Machine, M, Ensures}
use fiveman.Process.{reflect_desired_intent}
use fiveman.StatusThread.{update_screen_entry, update_row, update_round}
use fiveman.Table.{each, table_reflect_desired_intent, table_reap_zombie_processes, table_converge}
use fiveman.Table.Loops.{Ensures-and_then, Ensures_true}
use fiveman.Process.Converge.{converge, child_process_status}
use fiveman.Statistics.Setup.{Mac, init_sampling, mac_sampling}
use fiveman.Statistics.Totals.{IsReset, sample_info-Reported}
use fiveman.Types.{ProcessState, SamplingData, Sample, StatusThread}

abbrev pub Holds : (SamplingData → Type 0) → Option SamplingData → Type 0
Holds P none = Unit
Holds P (some c) = P c

-- What a sampling keeps of its contexts.
pub record IsKept {W : Type 0} (sampling : Sampling W) (P : SamplingData → Type 0) : Type 0 where
  pub initial : (pid : ℤ) (w : W) → Holds P (sampling.init_sampling pid w).1
  pub sampled :
      (c : SamplingData) (previous : Sample) (w : W)
      → P c
      → P (sampling.sample_info c previous w).1.0

module _ {W : Type 0} (os : Posix W) (sampling : Sampling W) (P : SamplingData → Type 0)
    (kept : IsKept sampling P) where
  converge-Holds :
      (environ : List Text) (directory : Text) (s : ProcessState) (m : Machine W)
      → Holds P s.sample_ctxt
      → Ensures (converge os sampling environ directory s m) (λ s' _. Holds P s'.sample_ctxt)
  unfolding converge
  converge-Holds environ directory s m h = grind (arith, kept.initial)

  child_process_status-Holds :
      (s : ProcessState) (m : Machine W)
      → Holds P s.sample_ctxt
      → Ensures (child_process_status os sampling s m) (λ s' _. Holds P s'.sample_ctxt)
  unfolding child_process_status
  child_process_status-Holds s m h = grind (arith, kept.sampled)

-- The sampling of Mac OS X keeps the counters at 0 between two samples.
module _ {W : Type 0} (mac : Mac W) (percent : ℕ → ℕ → ℕ) where
  init_sampling-IsReset : (pid : ℤ) (w : W) → Holds IsReset (init_sampling mac pid w).1
  unfolding init_sampling
  init_sampling-IsReset pid w = ground arith

  mac_sampling-IsKept : IsKept (mac_sampling mac percent) IsReset
  unfolding mac_sampling
  mac_sampling-IsKept = record {
    initial = init_sampling-IsReset;
    sampled = λ c previous w z.
        (sample_info-Reported percent (mac.readings c w).1 c previous (omega arith)).reset;
  }

abbrev pub AllHold : (SamplingData → Type 0) → List ProcessState → Type 0
AllHold P [] = Unit
AllHold P (s ∷ ss) = Holds P s.sample_ctxt × AllHold P ss

reflect-AllHold :
    (P : SamplingData → Type 0) (ss : List ProcessState)
    → AllHold P ss
    → AllHold P (table_reflect_desired_intent ss)
unfolding reflect_desired_intent
reflect-AllHold P [] h = tt
reflect-AllHold P (s ∷ ss) h = (h.0, reflect-AllHold P ss h.1)

module _ {W : Type 0} (P : SamplingData → Type 0) where
  -- A loop over a table in which each round keeps what holds of the contexts.
  each-AllHold :
      {B : Type 0} (state_of : B → ProcessState) (f : ProcessState → M W B)
      → ((s : ProcessState) (m : Machine W)
          → Holds P s.sample_ctxt
          → Ensures (f s m) (λ y _. Holds P (state_of y).sample_ctxt))
      → (ss : List ProcessState) (m : Machine W) → AllHold P ss
      → Ensures (each f ss m) (λ ys _. AllHold P (map state_of ys))
  unfolding each
  each-AllHold state_of f h [] m all = tt
  each-AllHold state_of f h (s ∷ ss) m all =
      Ensures-and_then (λ y _. Holds P (state_of y).sample_ctxt)
        (λ ys _. AllHold P (map state_of ys)) (f s m) _ (h s m all.0)
        (λ y m₁ p.
          Ensures-and_then (λ ys _. AllHold P (map state_of ys))
            (λ ys _. AllHold P (map state_of ys)) (each f ss m₁) _
            (each-AllHold state_of f h ss m₁ all.1) (λ ys m₂ ps. (p, ps)))

module _ {W : Type 0} (os : Posix W) (sampling : Sampling W) (P : SamplingData → Type 0)
    (kept : IsKept sampling P) (environ : List Text) (fuel : ℕ) where
  update_row-Holds :
      (s : ProcessState) (m : Machine W)
      → Holds P s.sample_ctxt
      → Ensures (update_row os sampling environ fuel s m) (λ r _. Holds P r.0.sample_ctxt)
  unfolding update_row
  update_row-Holds s m h =
      Ensures-and_then (λ s' _. Holds P s'.sample_ctxt) (λ r _. Holds P r.0.sample_ctxt)
        (child_process_status os sampling s m) _
        (child_process_status-Holds os sampling P kept s m h)
        (λ s' m₁ p.
          Ensures-and_then (λ _ _. Unit {0}) (λ r _. Holds P r.0.sample_ctxt)
            (update_screen_entry os s' m₁) _ (Ensures_true _) (λ e m₂ _. p))

  update_round-AllHold :
      (t : StatusThread) (m : Machine W)
      → AllHold P t.table
      → Ensures (update_round os sampling environ fuel t m) (λ r _. AllHold P r.0.table)
  unfolding update_round
  update_round-AllHold t m all =
      let table = table_reflect_desired_intent t.table in
      Ensures-and_then (λ _ _. Unit {0}) (λ r _. AllHold P r.0.table)
        (table_reap_zombie_processes os fuel table m) _ (Ensures_true _)
        (λ _ m₁ _.
          Ensures-and_then (λ ss _. AllHold P (map (λ s. s) ss)) (λ r _. AllHold P r.0.table)
            (table_converge os sampling environ t.directory table m₁) _
            (each-AllHold P (λ s. s) _ (converge-Holds os sampling P kept environ t.directory) table
              m₁ (reflect-AllHold P t.table all))
            (λ ss m₂ h.
              Ensures-and_then (λ rows _. AllHold P (map (λ r. r.0) rows))
                (λ r _. AllHold P r.0.table) (each (update_row os sampling environ fuel) ss m₂) _
                (each-AllHold P (λ r. r.0) _ update_row-Holds ss m₂ (map_id ss h))
                (λ rows m₃ k. k)))
    where
      map_id : (ss : List ProcessState) → AllHold P (map (λ s. s) ss) → AllHold P ss
      map_id [] h = tt
      map_id (s ∷ ss) h = (h.0, map_id ss h.1)

-- With the sampling of Mac OS X, where the counters of every process that is sampled are 0, they
-- are 0 again behind a round of the status thread that returns, whatever it starts and samples.
pub update_round-IsReset :
    {W : Type 0} (os : Posix W) (mac : Mac W) (percent : ℕ → ℕ → ℕ) (environ : List Text) (fuel : ℕ)
    (t : StatusThread) (m : Machine W)
    → AllHold IsReset t.table
    → Ensures
        (update_round os (mac_sampling mac percent) environ fuel t m)
        (λ r _. AllHold IsReset r.0.table)
update_round-IsReset os mac percent environ fuel t m all =
    update_round-AllHold os (mac_sampling mac percent) IsReset (mac_sampling-IsKept mac percent)
      environ fuel t m all
