-- ===== src/Procfile/Counting.antt =====
-- The number that parse_procfile returns against the list that it hands out.
use fiveman.Common.{
  ℕ, suc, ◌+◌, Bool, true, false, none, some, List, [], ◌∷◌, ◌++◌, ◌≡◌, ◌≢◌, ◌⊎◌, inl, inr, refl,
  arith, ◌==◌, Bool-cases, length, length-append, ap,
}
use fiveman.Common.Text.{Text, c_string}
use fiveman.Procfile.{
  Instruction, Parse, parsed, on_delimiter, set_exec, finish, initial, parse_procfile,
}
use fiveman.Procfile.Chunks.{judge, parse_procfile-judge}
use fiveman.Procfile.Reference.{feed, run, trim}

abbrev pub IsComplete : Instruction → Type 0
IsComplete x = (x.name ≢ none) × (x.exec ≢ none)

abbrev pub AllComplete : List Instruction → Type 0
AllComplete [] = Unit
AllComplete (x ∷ xs) = IsComplete x × AllComplete xs

-- Every instruction is complete, but the last has no command: its `exec` is NULL.
abbrev pub LastOpen : List Instruction → Type 0
LastOpen [] = ⊥
LastOpen (x ∷ []) = (x.name ≢ none) × (x.exec ≡ none)
LastOpen (x ∷ y ∷ r) = IsComplete x × LastOpen (y ∷ r)

-- A list that goes with the count `n`; the flag is whether a command is still to come.
abbrev pub Counted : Bool → ℕ → List Instruction → Type 0
Counted false n is = (length is ≡ n) × AllComplete is
Counted true n is = (length is ≡ n + 1) × LastOpen is

abbrev pub in_command : Parse → Bool
in_command p = p.expecting == b'\n'

abbrev Inv : Parse → Type 0
Inv p =
    ((p.expecting ≡ b':') ⊎ (p.expecting ≡ b'\n')) × Counted (in_command p) p.found p.instructions

LastOpen-append :
    (is : List Instruction) (t : Text)
    → AllComplete is
    → LastOpen (is ++ (record { name = some t; exec = none } ∷ []))
LastOpen-append [] t h = ((λ e. cc), refl)
LastOpen-append (x ∷ []) t h = (h.0, ((λ e. cc), refl))
LastOpen-append (x ∷ y ∷ r) t h = (h.0, LastOpen-append (y ∷ r) t h.1)

set_exec-AllComplete :
    (t : Text) (is : List Instruction) → LastOpen is → AllComplete (set_exec t is)
unfolding set_exec
set_exec-AllComplete t [] h = absurd h
set_exec-AllComplete t (x ∷ []) h = ((h.0, λ e. cc), tt)
set_exec-AllComplete t (x ∷ y ∷ r) h = (h.0, set_exec-AllComplete t (y ∷ r) h.1)

pub length-set_exec : (t : Text) (is : List Instruction) → length (set_exec t is) ≡ length is
unfolding set_exec
length-set_exec t [] = refl
length-set_exec t (x ∷ []) = refl
length-set_exec t (x ∷ y ∷ r) = ap suc (length-set_exec t (y ∷ r))

on_colon : (t : Text) (p : Parse) → p.expecting ≡ b':' → Inv p → Inv (on_delimiter b':' t p)
unfolding on_delimiter
on_colon t p e h =
    let counted : Counted false p.found p.instructions = rw e at (h.1) in
    (
      inr refl,
      (
        omega (
          arith,
          counted.0,
          length-append p.instructions (record { name = some t; exec = none } ∷ []),
        ),
        LastOpen-append p.instructions t counted.1,
      ),
    )

on_newline : (t : Text) (p : Parse) → p.expecting ≡ b'\n' → Inv p → Inv (on_delimiter b'\n' t p)
unfolding on_delimiter
on_newline t p e h =
    let counted : Counted true p.found p.instructions = rw e at (h.1) in
    (
      inl refl,
      (
        omega (arith, counted.0, length-set_exec t p.instructions),
        set_exec-AllComplete t p.instructions counted.1,
      ),
    )

feed-Inv : (c : ℕ) (pending : List ℕ) (p : Parse) → Inv p → Inv (feed c pending p).0
unfolding feed
feed-Inv c pending p h = elim (Bool-cases (c == p.expecting)) [
  | inl hit ↦ rw hit (elim h.0 [
    | inl e ↦ let c' : c ≡ b':' = ground arith in rw c' (on_colon (c_string (trim pending)) p e h)
    | inr e ↦
        let c' : c ≡ b'\n' = ground arith in rw c' (on_newline (c_string (trim pending)) p e h)
  ])
  | inr miss ↦ rw miss h
]

run-Inv : (cs pending : List ℕ) (p : Parse) → Inv p → Inv (run p pending cs).0
unfolding run
run-Inv [] pending p h = h
run-Inv (c ∷ cs) pending p h =
    run-Inv cs (feed c pending p).1 (feed c pending p).0 (feed-Inv c pending p h)

finish-parsed :
    (p : Parse) {n : ℕ} {is : List Instruction}
    → finish p ≡ parsed n is
    → (p.found ≡ n) × (p.instructions ≡ is)
unfolding finish
finish-parsed p h = ground arith

-- The returned number is the length of the list and every instruction is complete, if the file
-- does not end inside a command; else the list is one longer, and its last `exec` is NULL.
pub parse_procfile-Counted :
    (file : List ℕ) {n : ℕ} {is : List Instruction}
    → parse_procfile (some file) ≡ parsed n is
    → Counted (in_command (run initial [] file).0) n is
unfolding judge initial
parse_procfile-Counted file {n} {is} h =
    let last = (run initial [] file).0 in
    let (es, el) = finish-parsed last (parse_procfile-judge file h) in
    rw (← es, ← el) (run-Inv file [] initial (inl refl, (refl, tt))).1
