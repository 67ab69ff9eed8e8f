-- ===== src/Table/Ports.antt =====
-- A table has a state for each instruction, in order, at consecutive ports.
use fiveman.Common.{
  ℕ, zero, suc, Option, none, some, List, [], ◌∷◌, ◌≡◌, refl, ap, ◌∙◌, arith, get_elem?,
}
use fiveman.Common.Int.{ℤ, pos, ◌+ℤ◌}
use fiveman.Process.{allocate}
use fiveman.Procfile.{Instruction}
use fiveman.Table.{table_allocate}
use fiveman.Types.{ProcessState}

+ℤ-suc : (p : ℤ) (i : ℕ) → (p +ℤ pos 1) +ℤ pos i ≡ p +ℤ pos (suc i)
unfolding ◌+ℤ◌
+ℤ-suc p i = ground arith

+ℤ-zero : (p : ℤ) → p +ℤ pos 0 ≡ p
unfolding ◌+ℤ◌
+ℤ-zero p = ground arith

abbrev pub allocated : Option Instruction → ℤ → Option ProcessState
allocated none port = none
allocated (some x) port = some (allocate x port)

-- The state at index `i` is the one of the instruction at index `i`, at the starting port plus `i`;
-- there is none where there is no instruction.
get_elem?-table_allocate :
    (is : List Instruction) (port : ℤ) (i : ℕ)
    → get_elem? (table_allocate is port) i ≡ allocated (get_elem? is i) (port +ℤ pos i)
unfolding table_allocate
get_elem?-table_allocate [] port i = refl
get_elem?-table_allocate (x ∷ is) port zero = rw (+ℤ-zero port)
get_elem?-table_allocate (x ∷ is) port (suc i) =
    get_elem?-table_allocate is (port +ℤ pos 1) i ∙ ap (allocated (get_elem? is i)) (+ℤ-suc port i)
