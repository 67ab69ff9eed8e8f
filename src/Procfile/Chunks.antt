-- ===== src/Procfile/Chunks.antt =====
-- Reading in pieces does not show: whatever the size of the pieces, a file that is accepted is
-- read as in one pass, and the loop over the pieces ends.
use mathlib.Core.Path.{◌≡⟨◌⟩◌, ◌∎}
use fiveman.Common.{
  ℕ, zero, suc, ◌+◌, ◌≤◌, ◌<◌, true, Option, none, some, List, [], ◌++◌, ◌≡◌, ◌≢◌, refl, sym, ap,
  arith, ltb, ◌==◌, Bool-cases, inl, inr, length, take, drop, take-append-drop, drop-add, take_all,
  length-drop, length-take, drop-append,
}
use fiveman.Procfile.{
  Parse, Instruction, Outcome, parsed, aborted, out_of_fuel, scan_line, finish, read_pieces,
  initial, parse_procfile, line_size,
}
use fiveman.Procfile.Reference.{run, run-append, run-Free, run_gather, Free}
use fiveman.Procfile.Scan.{scan_line-run}

aborted≢parsed : {n : ℕ} {is : List Instruction} → aborted ≡ parsed n is → ⊥
aborted≢parsed h = cc

-- The machine's verdict on a whole file: what is still in hand at its end is forgotten.
unfoldable pub judge : List ℕ → Outcome
judge file = finish (run initial [] file).0

module _ (size : ℕ) (file : List ℕ) (total_read : ℕ) (p : Parse) where
  abbrev line : List ℕ
  line = take size (drop total_read file)

  abbrev scanned : ℕ × Parse
  scanned = scan_line line line 0 0 p

  scanned_lem : (run p [] line ≡ (scanned.1, drop scanned.0 line)) × (scanned.0 ≤ length line)
  scanned_lem = scan_line-run line [] line 0 0 p refl refl (omega arith)

  abbrev held : List ℕ
  held = drop scanned.0 line

  abbrev beyond : List ℕ
  beyond = drop size (drop total_read file)

  held-Free : Free scanned.1.expecting held
  held-Free = rw scanned_lem.0 at (run-Free line [] p tt)

  held-beyond : held ++ beyond ≡ drop (total_read + scanned.0) file
  held-beyond =
      held ++ beyond
      ≡⟨ sym (drop-append scanned.0 line beyond scanned_lem.1) ⟩ drop scanned.0 (line ++ beyond)
      ≡⟨ ap (drop scanned.0) (take-append-drop size (drop total_read file)) ⟩
        drop scanned.0 (drop total_read file)
      ≡⟨ sym (drop-add total_read scanned.0 file) ⟩ drop (total_read + scanned.0) file ∎

  -- What a piece leaves in hand is read again with the next piece, to the same effect.
  refill : run p [] (drop total_read file) ≡ run scanned.1 [] (drop (total_read + scanned.0) file)
  refill =
      run p [] (drop total_read file)
      ≡⟨ ap (run p []) (sym (take-append-drop size (drop total_read file))) ⟩
        run p [] (line ++ beyond)
      ≡⟨ run-append line beyond p [] ⟩ run (run p [] line).0 (run p [] line).1 beyond
      ≡⟨ ap (λ (r : Parse × List ℕ). run r.0 r.1 beyond) scanned_lem.0 ⟩ run scanned.1 held beyond
      ≡⟨ ap (λ (r : Parse × List ℕ). run r.0 r.1 beyond)
          (sym (run_gather held [] scanned.1 held-Free)) ⟩
        run (run scanned.1 [] held).0 (run scanned.1 [] held).1 beyond
      ≡⟨ sym (run-append held beyond scanned.1 []) ⟩ run scanned.1 [] (held ++ beyond)
      ≡⟨ ap (run scanned.1 []) held-beyond ⟩ run scanned.1 [] (drop (total_read + scanned.0) file) ∎

  -- A piece shorter than asked for is the rest of the file.
  short-line : ltb (length line) size ≡ true → line ≡ drop total_read file
  short-line h =
      take_all size (drop total_read file) (ground (arith, length-take size (drop total_read file)))

-- An accepted file is read as in one pass.
read_pieces-run :
    (fuel size : ℕ) (file : List ℕ) (total_read : ℕ) (p : Parse) {n : ℕ} {is : List Instruction}
    → read_pieces fuel size file total_read p ≡ parsed n is
    → finish (run p [] (drop total_read file)).0 ≡ parsed n is
unfolding read_pieces
read_pieces-run zero size file t p h = cc
read_pieces-run (suc fuel) size file t p h = elim (Bool-cases ((scanned size file t p).0 == 0)) [
  | inl stuck ↦ absurd (aborted≢parsed (rw stuck at h))
  | inr moved ↦ elim (Bool-cases (ltb (length (line size file t p)) size)) [
    | inl short ↦
        rw (← short-line size file t p short, (scanned_lem size file t p).0)
          (rw (moved, short) at h)
    | inr full ↦
        rw (refill size file t p) (read_pieces-run fuel size file _ _ (rw (moved, full) at h))
  ]
]

finish-ne-out_of_fuel : (p : Parse) → finish p ≢ out_of_fuel
unfolding finish
finish-ne-out_of_fuel p e = ground arith

room :
    (size : ℕ) (file : List ℕ) (t : ℕ) (p : Parse)
    → t ≤ length file
    → t + (scanned size file t p).0 ≤ length file
room size file t p h =
    omega (arith, (scanned_lem size file t p).1, length-take size (drop t file), length-drop t file)

-- Each round but the last consumes a byte, so the loop ends within the fuel.
read_pieces_total :
    (fuel size : ℕ) (file : List ℕ) (total_read : ℕ) (p : Parse)
    → total_read ≤ length file
    → length file + 1 < fuel + total_read
    → read_pieces fuel size file total_read p ≢ out_of_fuel
unfolding read_pieces
read_pieces_total zero size file t p r h = absurd (omega arith)
read_pieces_total (suc fuel) size file t p r h =
    elim (Bool-cases ((scanned size file t p).0 == 0)) [
      | inl stuck ↦ rw stuck (λ e. cc)
      | inr moved ↦ elim (Bool-cases (ltb (length (line size file t p)) size)) [
        | inl short ↦ rw (moved, short) (finish-ne-out_of_fuel (scanned size file t p).1)
        | inr full ↦
            rw (moved, full)
              (read_pieces_total fuel size file _ _ (room size file t p r) (
                let fuelled : length file + 1 < fuel + (t + (scanned size file t p).0) =
                  ground arith in
                fuelled))
      ]
    ]

-- If the parser, which reads in pieces, parses a file, then one pass over the whole file, byte by
-- byte (`judge`), gives the same number and the same instructions.
pub parse_procfile-judge :
    (file : List ℕ) {n : ℕ} {is : List Instruction}
    → parse_procfile (some file) ≡ parsed n is
    → judge file ≡ parsed n is
unfolding judge parse_procfile
parse_procfile-judge file h = read_pieces-run (length file + 2) line_size file 0 initial h

-- The fuel that parse_procfile gives to its loops is enough for every file.
pub parse_procfile-ne-out_of_fuel : (file : Option (List ℕ)) → parse_procfile file ≢ out_of_fuel
unfolding parse_procfile
parse_procfile-ne-out_of_fuel none = λ e. cc
parse_procfile-ne-out_of_fuel (some file) =
    read_pieces_total (length file + 2) line_size file 0 initial (omega arith) (omega arith)
