-- ===== src/Procfile/Occupied.antt =====
-- A Procfile that is accepted has an instruction.
use fiveman.Common.{
  ℕ, zero, suc, ◌+◌, ◌<◌, false, Option, none, some, List, [], ◌∷◌, ◌≡◌, ◌⊎◌, inl, inr, refl, arith,
  ◌==◌, ltb, length, length-append, Bool-cases, take, drop,
}
use fiveman.Common.Text.{Text}
use fiveman.Procfile.Counting.{length-set_exec}
use fiveman.Procfile.{
  Parse, Instruction, parsed, aborted, token, on_delimiter, scan_byte, scan_line, finish,
  read_pieces, initial, parse_procfile, instruction_allocate, line_size,
}

abbrev Occupied : Parse → Type 0
Occupied p = 0 < length p.instructions

-- Before the first delimiter, or with an instruction.
abbrev Inv : ℕ → Parse → Type 0
Inv parse_head p = ((parse_head ≡ 0) × (p.expecting ≡ b':')) ⊎ Occupied p

on_delimiter-colon : (t : Text) (p : Parse) → Occupied (on_delimiter b':' t p)
unfolding on_delimiter
on_delimiter-colon t p =
    omega (arith, length-append p.instructions (record instruction_allocate { name = some t } ∷ []))

on_delimiter-Occupied : (c : ℕ) (t : Text) (p : Parse) → Occupied p → Occupied (on_delimiter c t p)
unfolding on_delimiter
on_delimiter-Occupied c t p h = elim (Bool-cases (c == b':')) [
  | inl colon ↦ rw colon (
      omega
        (arith, length-append p.instructions (record instruction_allocate { name = some t } ∷ [])))
  | inr x ↦ elim (Bool-cases (c == b'\n')) [
    | inl newline ↦ rw (x, newline) (omega (arith, h, length-set_exec t p.instructions))
    | inr y ↦ rw (x, y) h
  ]
]

scan_byte-Inv :
    (line : List ℕ) (c i parse_head : ℕ) (p : Parse)
    → Inv parse_head p
    → Inv (scan_byte line c i parse_head p).0 (scan_byte line c i parse_head p).1
unfolding scan_byte
scan_byte-Inv line c i parse_head p h = elim (Bool-cases (c == p.expecting)) [
  | inr other ↦ rw other h
  | inl found ↦ rw found (elim h [
    | inr occupied ↦ inr (on_delimiter-Occupied c (token line parse_head i) p occupied)
    | inl first ↦
        let colon : c ≡ b':' = ground (arith, found, first) in
        inr (rw colon (on_delimiter-colon (token line parse_head i) p))
  ])
]

scan_line-Inv :
    (line cs : List ℕ) (i parse_head : ℕ) (p : Parse)
    → Inv parse_head p
    → Inv (scan_line line cs i parse_head p).0 (scan_line line cs i parse_head p).1
unfolding scan_line
scan_line-Inv line [] i parse_head p h = h
scan_line-Inv line (c ∷ cs) i parse_head p h =
    scan_line-Inv line cs (i + 1) _ _ (scan_byte-Inv line c i parse_head p h)

finish-Occupied :
    (p : Parse) (n : ℕ) (is : List Instruction) → Occupied p → finish p ≡ parsed n is → 0 < n
unfolding finish
finish-Occupied p n is h e = ground arith

Inv-Occupied :
    (parse_head : ℕ) (p : Parse) → (parse_head == 0) ≡ false → Inv parse_head p → Occupied p
Inv-Occupied parse_head p found h = elim h [
  | inl first ↦ absurd (ground (arith, found, first))
  | inr occupied ↦ occupied
]

read_pieces-Occupied :
    (fuel size : ℕ) (file : List ℕ) (total_read : ℕ) (p : Parse) (n : ℕ) (is : List Instruction)
    → Inv 0 p
    → read_pieces fuel size file total_read p ≡ parsed n is
    → 0 < n
unfolding read_pieces
read_pieces-Occupied zero size file total_read p n is h e = cc
read_pieces-Occupied (suc fuel) size file total_read p n is h e =
    let line = take size (drop total_read file) in
    let r = scan_line line line 0 0 p in
    let scanned = scan_line-Inv line line 0 0 p h in
    elim (Bool-cases (r.0 == 0)) [
      | inl nothing ↦ let refused : aborted ≡ parsed n is = rw nothing at e in cc
      | inr found ↦
          let occupied = Inv-Occupied r.0 r.1 found scanned in
          elim (Bool-cases (ltb (length line) size)) [
            | inl short ↦
                let done : finish r.1 ≡ parsed n is = rw (found, short) at e in
                finish-Occupied r.1 n is occupied done
            | inr whole ↦
                let rest : read_pieces fuel size file (total_read + r.0) r.1 ≡ parsed n is =
                  rw (found, whole) at e in
                read_pieces-Occupied fuel size file (total_read + r.0) r.1 n is (inr occupied) rest
          ]
    ]

-- The number that a parse returns is not 0.
pub parse_procfile-Occupied :
    (bytes : Option (List ℕ)) (n : ℕ) (is : List Instruction)
    → parse_procfile bytes ≡ parsed n is
    → 0 < n
unfolding parse_procfile initial
parse_procfile-Occupied none n is e = cc
parse_procfile-Occupied (some file) n is e =
    read_pieces-Occupied (length file + 2) line_size file 0 initial n is (inl (refl, refl)) e
