-- ===== src/Procfile/Scan.antt =====
-- The loops over `i` and `j` of parse_procfile do to one piece what the reference machine does.
use fiveman.Common.{
  ℕ, zero, suc, ◌+◌, ◌-◌, ◌≤◌, true, false, List, [], ◌∷◌, ◌++◌, ◌≡◌, refl, sym, ap, ◌∙◌, arith,
  append_assoc, append-nil, ◌==◌, Bool-cases, inl, inr, length, take, drop, get_or, length-append,
  take-append, drop-append, drop-get_or, drop_all, length-drop,
}
use fiveman.Common.Text.{c_string}
use fiveman.Procfile.{Parse, is_blank, skip_blanks, token, scan_byte, scan_line}
use fiveman.Procfile.Reference.{all_blank, drop_blanks, trim, feed, run}

-- Over blanks alone the head stays.
skip_blanks-all_blank :
    (line : List ℕ) (head j n : ℕ)
    → j + n ≤ length line
    → all_blank (take n (drop j line)) ≡ true
    → skip_blanks line head j n ≡ head
unfolding skip_blanks
skip_blanks-all_blank line head j zero r h = refl
skip_blanks-all_blank line head j (suc n) r h =
    let h' = rw (drop-get_or j line 0 (omega arith)) at h in
    ground (arith, h', skip_blanks-all_blank line head (j + 1) n (omega arith))

skip_blanks-drop_blanks :
    (line : List ℕ) (head j n k : ℕ)
    → j + n ≡ k
    → k ≤ length line
    → all_blank (take n (drop j line)) ≡ false
    → let start = skip_blanks line head j n in
      take (k - start) (drop start line) ≡ drop_blanks (take n (drop j line))
unfolding skip_blanks
skip_blanks-drop_blanks line head j zero k e r h = cc
skip_blanks-drop_blanks line head j (suc n) k e r h =
    elim (Bool-cases (is_blank (get_or line j 0))) [
      | inl blank ↦
          let d = drop-get_or j line 0 (omega arith) in
          let h' = rw (d, blank) at h in
          rw (blank, d)
            (rw blank (skip_blanks-drop_blanks line head (j + 1) n k (omega arith) r h'))
      | inr other ↦
          let d = drop-get_or j line 0 (omega arith) in
          let m : k - j ≡ suc n = omega arith in rw (other, m, d) (rw other)
    ]

-- The token is the trimmed bytes between `parse_head` and `i`.
token-trim :
    (line : List ℕ) (parse_head i : ℕ)
    → parse_head ≤ i
    → i ≤ length line
    → token line parse_head i ≡ c_string (trim (take (i - parse_head) (drop parse_head line)))
unfolding token
token-trim line h i hi il = elim (Bool-cases (all_blank (take (i - h) (drop h line)))) [
  | inl e ↦ rw (e, skip_blanks-all_blank line h h (i - h) (omega arith) e)
  | inr e ↦ rw e (ap c_string (skip_blanks-drop_blanks line h h (i - h) i (omega arith) il e))
]

-- The bytes in hand, between `parse_head` and `i`, are those behind `parse_head` in the part read.
between :
    (read rest : List ℕ) (parse_head i : ℕ)
    → length read ≡ i
    → parse_head ≤ i
    → take (i - parse_head) (drop parse_head (read ++ rest)) ≡ drop parse_head read
between read rest h i e hi =
    let m : i - h ≡ length (drop h read) = omega (arith, length-drop h read) in
    rw (drop-append h read rest (omega arith), m) (take-append (drop h read) rest)

-- One byte: the machine's step, with the head still within the part read.
scan_byte-feed :
    (line read rest : List ℕ) (c i parse_head : ℕ) (p : Parse)
    → line ≡ read ++ (c ∷ rest)
    → length read ≡ i
    → parse_head ≤ i
    → let (head', p') = scan_byte line c i parse_head p in
      (feed c (drop parse_head read) p ≡ (p', drop head' (read ++ c ∷ []))) × (head' ≤ i + 1)
unfolding scan_byte feed
scan_byte-feed line read rest c i h p el e hi = elim (Bool-cases (c == p.expecting)) [
  | inl hit ↦
      let room : i ≤ length line = omega (arith, ap length el, length-append read (c ∷ rest)) in
      let held = rw (← el) at (between read (c ∷ rest) h i e hi) in
      let none_left =
        drop_all (i + 1) (read ++ c ∷ []) (omega (arith, length-append read (c ∷ []))) in
      rw hit (rw (token-trim line h i hi room, held, none_left), omega arith)
  | inr miss ↦
      rw miss (ap (λ s. (p, s)) (sym (drop-append h read (c ∷ []) (omega arith))), omega arith)
]

-- A piece: what the reference machine does with its bytes, and the bytes that stay in hand.
pub scan_line-run :
    (line read rest : List ℕ) (i parse_head : ℕ) (p : Parse)
    → line ≡ read ++ rest
    → length read ≡ i
    → parse_head ≤ i
    → let (head', p') = scan_line line rest i parse_head p in
      (run p (drop parse_head read) rest ≡ (p', drop head' line)) × (head' ≤ length line)
unfolding scan_line run
scan_line-run line read [] i h p e l hi =
    let same : line ≡ read = e ∙ append-nil read in (rw same, omega (arith, ap length same))
scan_line-run line read (c ∷ cs) i h p e l hi =
    let (step, bound) = scan_byte-feed line read cs c i h p e l hi in
    let (head', p') = scan_byte line c i h p in
    rw step (
      scan_line-run line (read ++ c ∷ []) cs (i + 1) head' p'
        (e ∙ sym (append_assoc read (c ∷ []) cs)) (omega (arith, length-append read (c ∷ [])))
        bound)
