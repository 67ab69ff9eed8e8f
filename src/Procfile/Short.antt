-- ===== src/Procfile/Short.antt =====
-- Files of at most one piece: which are accepted, and the length at which the loop gives up.
use native.Mathlib.Nat.{zero-add}
use fiveman.Common.{
  ℕ, zero, suc, ◌+◌, ◌<◌, Bool, true, false, not, ◌&&◌, ◌||◌, some, List, [], ◌∷◌, ◌≡◌, refl, sym,
  ap, ◌∙◌, arith, ltb, ◌==◌, if◌then◌else◌, Bool-cases, inl, inr, length, drop, take_all,
}
use fiveman.Procfile.{
  Parse, aborted, token, on_delimiter, scan_byte, scan_line, finish, read_pieces, initial,
  parse_procfile, line_size,
}
use fiveman.Procfile.Chunks.{judge}
use fiveman.Procfile.Reference.{run}
use fiveman.Procfile.Scan.{scan_line-run}

abbrev pub contains : ℕ → List ℕ → Bool
contains e [] = false
contains e (c ∷ cs) = c == e || contains e cs

scan_byte_hit :
    (line : List ℕ) (c i parse_head : ℕ) (p : Parse)
    → (c == p.expecting) ≡ true
    → scan_byte line c i parse_head p ≡ (i + 1, on_delimiter c (token line parse_head i) p)
unfolding scan_byte
scan_byte_hit line c i h p e = rw e

scan_byte_miss :
    (line : List ℕ) (c i parse_head : ℕ) (p : Parse)
    → (c == p.expecting) ≡ false
    → scan_byte line c i parse_head p ≡ (parse_head, p)
unfolding scan_byte
scan_byte_miss line c i h p e = rw e

-- `parse_head` stays 0 exactly when the byte waited for does not come.
scan_line_head :
    (line cs : List ℕ) (i parse_head : ℕ) (p : Parse)
    → ((scan_line line cs i parse_head p).0 == 0)
      ≡ ((parse_head == 0) && not (contains p.expecting cs))
unfolding scan_line
scan_line_head line [] i h p = ground arith
scan_line_head line (c ∷ cs) i h p = elim (Bool-cases (c == p.expecting)) [
  | inl hit ↦
      let ih = scan_line_head line cs (i + 1) (i + 1) (on_delimiter c (token line h i) p) in
      ap first_at_0 (scan_byte_hit line c i h p hit) ∙ ih ∙ rw hit (ground arith)
  | inr miss ↦
      ap first_at_0 (scan_byte_miss line c i h p miss)
      ∙ scan_line_head line cs (i + 1) h p
      ∙ rw miss
]
  where
    first_at_0 : ℕ × Parse → Bool
    first_at_0 r = (scan_line line cs (i + 1) r.0 r.1).0 == 0

-- The last round.
read_pieces_last :
    (fuel size : ℕ) (file : List ℕ) (p : Parse)
    → length file < size
    → read_pieces (suc fuel) size file 0 p
      ≡ (if contains p.expecting file then finish (run p [] file).0 else aborted)
unfolding read_pieces
read_pieces_last fuel size file p h =
    let whole = take_all size file (omega arith) in
    let short : ltb (length file) size ≡ true = ground arith in
    let head = scan_line_head file file 0 0 p in
    let scanned = (scan_line-run file [] file 0 0 p refl refl (omega arith)).0 in
    rw (whole, head, short, scanned) (ground arith)

-- A file below the size of a piece is refused if it holds no colon. Otherwise the outcome is that
-- of the reading in one pass.
pub parse_procfile_short :
    (file : List ℕ)
    → length file < line_size
    → parse_procfile (some file) ≡ (if contains b':' file then judge file else aborted)
unfolding parse_procfile judge initial
parse_procfile_short file h =
    let fuel : length file + 2 ≡ suc (length file + 1) = omega arith in
    rw fuel (read_pieces_last (length file + 1) line_size file initial h)

-- A round that finds no byte left.
read_pieces_empty :
    (fuel size : ℕ) (file : List ℕ) (total_read : ℕ) (p : Parse)
    → drop total_read file ≡ []
    → read_pieces (suc fuel) size file total_read p ≡ aborted
unfolding read_pieces scan_line
read_pieces_empty fuel zero file t p h = refl
read_pieces_empty fuel (suc size) file t p h = rw h

read_pieces_next :
    (fuel size : ℕ) (file : List ℕ) (p : Parse)
    → length file ≡ size
    → let (head, p') = scan_line file file 0 0 p in
      read_pieces fuel size file (0 + head) p' ≡ aborted
      → read_pieces (suc fuel) size file 0 p ≡ aborted
unfolding read_pieces
read_pieces_next fuel size file p h next =
    let whole = take_all size file (omega arith) in rw (whole, next) (ground arith)

-- A full piece that ends at a delimiter: the loop asks for more and refuses to find nothing.
read_pieces_full :
    (fuel size : ℕ) (file : List ℕ) (p : Parse)
    → length file ≡ size
    → (run p [] file).1 ≡ []
    → read_pieces (suc (suc fuel)) size file 0 p ≡ aborted
read_pieces_full fuel size file p h e =
    let scanned = (scan_line-run file [] file 0 0 p refl refl (omega arith)).0 in
    let (head, p') = scan_line file file 0 0 p in
    let gone : drop (0 + head) file ≡ [] =
      rw zero-add (sym (ap (λ (r : Parse × List ℕ). r.1) scanned) ∙ e) in
    read_pieces_next (suc fuel) size file p h (read_pieces_empty fuel size file (0 + head) p' gone)

-- A file of exactly one piece whose last byte ends its last line is refused.
pub parse_procfile_boundary :
    (file : List ℕ)
    → length file ≡ line_size
    → (run initial [] file).1 ≡ []
    → parse_procfile (some file) ≡ aborted
unfolding parse_procfile
parse_procfile_boundary file h e =
    let fuel : length file + 2 ≡ suc (suc (length file)) = omega arith in
    rw fuel (read_pieces_full (length file) line_size file initial h e)
