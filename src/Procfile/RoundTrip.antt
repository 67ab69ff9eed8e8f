-- ===== src/Procfile/RoundTrip.antt =====
-- Files written by the rule `name: command`, one to a line, and what is read back from them.
use native.Mathlib.Nat.{add-zero}
use mathlib.Core.Path.{◌≡⟨◌⟩◌, ◌∎}
use fiveman.Common.{
  ℕ, suc, ◌+◌, ◌<◌, true, false, none, some, List, [], ◌∷◌, ◌++◌, ◌≡◌, refl, sym, ap, ◌∙◌, arith,
  length, map, append_assoc, append-nil, ==_iff,
}
use fiveman.Common.Text.{Text, c_string}
use fiveman.Procfile.{
  Instruction, Parse, parsed, aborted, is_blank, on_delimiter, set_exec, finish, initial,
  parse_procfile, line_size,
}
use fiveman.Procfile.Chunks.{judge}
use fiveman.Procfile.Reference.{feed, run, run-append, run_gather, Free, trim}
use fiveman.Procfile.Short.{contains, parse_procfile_short}

pub record Entry : Type 0 where
  pub name : Text
  pub command : Text

-- A text that survives the trim and the copy: it begins with no blank, and holds no NUL.
abbrev pub IsSolid : Text → Type 0
IsSolid [] = ⊥
IsSolid (c ∷ cs) = (is_blank c ≡ false) × Free 0 (c ∷ cs)

pub record IsPrintable (e : Entry) : Type 0 where
  pub name_solid : IsSolid e.name
  pub name_free : Free b':' e.name
  pub command_solid : IsSolid e.command
  pub command_free : Free b'\n' e.command

abbrev pub AllPrintable : List Entry → Type 0
AllPrintable [] = Unit
AllPrintable (e ∷ es) = IsPrintable e × AllPrintable es

-- `name: command`, with no end of line.
abbrev pub open_line : Entry → Text
open_line e = e.name ++ (b':' ∷ b' ' ∷ e.command)

abbrev pub print : List Entry → Text
print [] = []
print (e ∷ es) = open_line e ++ (b'\n' ∷ print es)

abbrev pub instruction : Entry → Instruction
instruction e = record { name = some e.name; exec = some e.command }

c_string_lem : (s : Text) → Free 0 s → c_string s ≡ s
c_string_lem [] h = refl
c_string_lem (c ∷ cs) h = rw (h.0, c_string_lem cs h.1)

trim_solid : (s : Text) → IsSolid s → c_string (trim s) ≡ s
trim_solid [] h = absurd h
trim_solid (c ∷ cs) h = rw (h.0) (c_string_lem (c ∷ cs) h.1)

trim_padded : (s : Text) → IsSolid s → c_string (trim (b' ' ∷ s)) ≡ s
trim_padded [] h = absurd h
trim_padded (c ∷ cs) h = rw (h.0) (c_string_lem (c ∷ cs) h.1)

set_exec-append :
    (t : Text) (is : List Instruction) (x : Instruction)
    → set_exec t (is ++ x ∷ []) ≡ is ++ (record x { exec = some t } ∷ [])
unfolding set_exec
set_exec-append t [] x = refl
set_exec-append t (y ∷ []) x = refl
set_exec-append t (y ∷ z ∷ r) x = ap (◌∷◌ y) (set_exec-append t (z ∷ r) x)

feed_hit :
    (pending : List ℕ) (p : Parse) (c : ℕ)
    → p.expecting ≡ c
    → feed c pending p ≡ (on_delimiter c (c_string (trim pending)) p, [])
unfolding feed
feed_hit pending p c e = rw ((==_iff c p.expecting).1 (sym e))

-- The state behind a name and its colon.
abbrev named : Entry → Parse → Parse
named e p = record p {
  expecting = b'\n';
  instructions = p.instructions ++ (record { name = some e.name; exec = none } ∷ []);
}

-- The state behind a whole line.
abbrev pub with_entries : Parse → List Entry → Parse
with_entries p es = record p {
  found = p.found + length es;
  instructions = p.instructions ++ map instruction es;
}

on_colon :
    (e : Entry) (p : Parse)
    → IsPrintable e
    → p.expecting ≡ b':'
    → feed b':' e.name p ≡ (named e p, [])
unfolding on_delimiter
on_colon e p h ex = feed_hit e.name p b':' ex ∙ rw (trim_solid e.name h.name_solid)

on_newline :
    (e : Entry) (p : Parse)
    → IsPrintable e
    → p.expecting ≡ b':'
    → feed b'\n' (b' ' ∷ e.command) (named e p) ≡ (with_entries p (e ∷ []), [])
unfolding on_delimiter
on_newline e p h ex =
    feed_hit (b' ' ∷ e.command) (named e p) b'\n' refl
    ∙ rw (trim_padded e.command h.command_solid, set_exec-append, ex)

run-open_line :
    (e : Entry) (p : Parse)
    → IsPrintable e
    → p.expecting ≡ b':'
    → run p [] (open_line e) ≡ (named e p, b' ' ∷ e.command)
unfolding run
run-open_line e p h ex =
    let rest = b' ' ∷ e.command in
    run p [] (open_line e)
    ≡⟨ run-append e.name (b':' ∷ rest) p [] ⟩ after (run p [] e.name)
    ≡⟨ ap after (run_gather e.name [] p (rw ex h.name_free)) ⟩ after (p, e.name)
    ≡⟨ ap (λ (r : Parse × List ℕ). run r.0 r.1 rest) (on_colon e p h ex) ⟩ run (named e p) [] rest
    ≡⟨ run_gather rest [] (named e p) (refl, h.command_free) ⟩ (named e p, rest) ∎
  where
    after : Parse × List ℕ → Parse × List ℕ
    after r = run r.0 r.1 (b':' ∷ b' ' ∷ e.command)

run-line :
    (e : Entry) (p : Parse)
    → IsPrintable e
    → p.expecting ≡ b':'
    → run p [] (open_line e ++ b'\n' ∷ []) ≡ (with_entries p (e ∷ []), [])
unfolding run
run-line e p h ex =
    run-append (open_line e) (b'\n' ∷ []) p []
    ∙ ap (λ (r : Parse × List ℕ). run r.0 r.1 (b'\n' ∷ [])) (run-open_line e p h ex)
    ∙ on_newline e p h ex

pub run-print :
    (es : List Entry) (p : Parse)
    → AllPrintable es
    → p.expecting ≡ b':'
    → run p [] (print es) ≡ (with_entries p es, [])
unfolding run
run-print [] p h ex = rw (append-nil, add-zero)
run-print (e ∷ es) p h ex =
    run p [] (print (e ∷ es))
    ≡⟨ ap (run p []) (sym (append_assoc (open_line e) (b'\n' ∷ []) (print es))) ⟩
      run p [] ((open_line e ++ b'\n' ∷ []) ++ print es)
    ≡⟨ run-append (open_line e ++ b'\n' ∷ []) (print es) p [] ⟩
      after (run p [] (open_line e ++ b'\n' ∷ []))
    ≡⟨ ap after (run-line e p h.0 ex) ⟩ run (with_entries p (e ∷ [])) [] (print es)
    ≡⟨ run-print es (with_entries p (e ∷ [])) h.1 ex ⟩
      (with_entries (with_entries p (e ∷ [])) es, [])
    ≡⟨ (rw (append_assoc, regroup p.found (length es))) ⟩ (with_entries p (e ∷ es), []) ∎
  where
    after : Parse × List ℕ → Parse × List ℕ
    after r = run r.0 r.1 (print es)

    regroup : (n m : ℕ) → n + 1 + m ≡ n + suc m
    regroup n m = omega arith

contains-append : (c : ℕ) (xs ys : List ℕ) → contains c (xs ++ (c ∷ ys)) ≡ true
contains-append c [] ys = ground arith
contains-append c (x ∷ xs) ys = ground (arith, contains-append c xs ys)

contains_front : (c : ℕ) (xs ys : List ℕ) → contains c xs ≡ true → contains c (xs ++ ys) ≡ true
contains_front c [] ys h = cc
contains_front c (x ∷ xs) ys h = ground (arith, contains_front c xs ys)

contains-print : (e : Entry) (es : List Entry) → contains b':' (print (e ∷ es)) ≡ true
contains-print e es =
    rw append_assoc (contains-append b':' e.name (b' ' ∷ (e.command ++ (b'\n' ∷ print es))))

-- A file of one line or more that is below a piece is read back as it was written.
pub parse_procfile-print :
    (e : Entry) (es : List Entry)
    → AllPrintable (e ∷ es)
    → length (print (e ∷ es)) < line_size
    → parse_procfile (some (print (e ∷ es))) ≡ parsed (length (e ∷ es)) (map instruction (e ∷ es))
unfolding judge finish initial
parse_procfile-print e es h small =
    parse_procfile_short (print (e ∷ es)) small
    ∙ rw (contains-print e es, run-print (e ∷ es) initial h refl) (ground arith)

-- With the last end of line left out the last command is lost: it is not counted, and the list
-- ends in an instruction with a NULL command.
pub parse_procfile-unterminated :
    (e : Entry) (es : List Entry) (last : Entry)
    → AllPrintable (e ∷ es)
    → IsPrintable last
    → length (print (e ∷ es) ++ open_line last) < line_size
    → parse_procfile (some (print (e ∷ es) ++ open_line last))
      ≡ parsed
          (length (e ∷ es))
          (map instruction (e ∷ es) ++ (record { name = some last.name; exec = none } ∷ []))
unfolding judge finish initial
parse_procfile-unterminated e es last h hl small =
    let front = print (e ∷ es) in
    let colon = contains_front b':' front (open_line last) (contains-print e es) in
    let read = run-append front (open_line last) initial [] in
    let read_front = run-print (e ∷ es) initial h refl in
    let read_last = run-open_line last (with_entries initial (e ∷ es)) hl refl in
    parse_procfile_short (front ++ open_line last) small
    ∙ rw (colon, read, read_front, read_last) (ground arith)

-- The same with one line alone: an assertion fails.
parse_procfile-unterminated_alone :
    (last : Entry)
    → IsPrintable last
    → length (open_line last) < line_size
    → parse_procfile (some (open_line last)) ≡ aborted
unfolding judge finish initial
parse_procfile-unterminated_alone last h small =
    parse_procfile_short (open_line last) small
    ∙ rw (contains-append b':' last.name (b' ' ∷ last.command), run-open_line last initial h refl)
