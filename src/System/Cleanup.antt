-- ===== src/System/Cleanup.antt =====
-- The end of main: the files of every process are removed.
use fiveman.Common.{Option, none, some, List, [], ◌∷◌, ◌≡◌, refl, ◌∙◌, ap, arith}
use fiveman.Common.Text.{Text}
use fiveman.Machine.{Posix, Sampling, Machine, Outcome, returned, Call, sys_unlink}
use fiveman.Process.{teardown_sampling}
use fiveman.System.Same.{Same}
use fiveman.Table.{for_each, deallocate, table_deallocate}
use fiveman.Table.Loops.{Pairwise}
use fiveman.Types.{ProcessState, SamplingData}

abbrev pub unlinked : Option Text → List Call → List Call
unlinked none cs = cs
unlinked (some file) cs = Call.unlink file ∷ cs

-- The log behind the removal of the two files of each process, in the order of the table.
abbrev pub removed : List ProcessState → List Call → List Call
removed [] cs = cs
removed (s ∷ ss) cs = removed ss (unlinked s.stderr (unlinked s.stdout cs))

pub removed-Same :
    (start table : List ProcessState) (cs : List Call)
    → Pairwise Same start table
    → removed table cs ≡ removed start cs
removed-Same [] [] cs h = refl
removed-Same (s ∷ ss) (t ∷ ts) cs h =
    rw (h.0.stdout, h.0.stderr) (removed-Same ss ts (unlinked s.stderr (unlinked s.stdout cs)) h.1)
removed-Same [] (t ∷ ts) cs h = absurd h
removed-Same (s ∷ ss) [] cs h = absurd h

-- The run returns with this log.
abbrev pub RunsTo : {W A : Type 0} → Outcome W A → List Call → Type 0
RunsTo {W} {A} o cs = (a : A) × (m : Machine W) × (o ≡ returned a m) × (m.calls ≡ cs)

module _ {W : Type 0} (os : Posix W) (sampling : Sampling W) where
  sys_unlink-RunsTo :
      (file : Option Text) (m : Machine W) → RunsTo (sys_unlink os file m) (unlinked file m.calls)
  sys_unlink-RunsTo none m = (_, _, refl, refl)
  sys_unlink-RunsTo (some file) m = (_, _, refl, refl)

  teardown_sampling-RunsTo :
      (s : ProcessState) (m : Machine W) → RunsTo (teardown_sampling os sampling s m) m.calls
  unfolding teardown_sampling
  teardown_sampling-RunsTo s m =
      (record s { sample_ctxt = none }, torn s.sample_ctxt, ground arith, ground arith)
    where
      torn : Option SamplingData → Machine W
      torn none = m
      torn (some c) = record m { world = sampling.teardown_sampling c m.world }

  deallocate-RunsTo :
      (s : ProcessState) (m : Machine W)
      → RunsTo (deallocate os sampling s m) (unlinked s.stderr (unlinked s.stdout m.calls))
  unfolding deallocate
  deallocate-RunsTo s m =
      let (_, m₁, e₁, c₁) = teardown_sampling-RunsTo s m in
      let (_, m₂, e₂, c₂) = sys_unlink-RunsTo s.stdout m₁ in
      let (u, m₃, e₃, c₃) = sys_unlink-RunsTo s.stderr m₂ in
      (u, m₃, rw (e₁, e₂, e₃), c₃ ∙ ap (unlinked s.stderr) (c₂ ∙ ap (unlinked s.stdout) c₁))

  pub table_deallocate-RunsTo :
      (table : List ProcessState) (m : Machine W)
      → RunsTo (table_deallocate os sampling table m) (removed table m.calls)
  unfolding for_each
  table_deallocate-RunsTo [] m = (_, _, refl, refl)
  table_deallocate-RunsTo (s ∷ ss) m =
      let (_, m₁, e, c) = deallocate-RunsTo s m in
      let (u, m₂, e', c') = table_deallocate-RunsTo ss m₁ in
      (u, m₂, rw (e, e'), c' ∙ ap (removed ss) c)
