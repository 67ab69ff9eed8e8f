-- ===== src/Procfile.antt =====
-- src/procfile.c and src/fiveman_instruction.c: the Procfile parser. It reads the file in pieces
-- of `line_size` bytes and starts each piece behind the last delimiter that it has consumed.
--
-- The file is the list of its bytes; `fread` gives at most the asked number of bytes from the
-- position on, and sets the end-of-file flag if it gives fewer. The linked list of instructions
-- is a list in the order of its `next` pointers: `cur` is the last node, and `prev` is that node
-- again whenever a colon is expected, so `prev->next = cur` appends.
pub mod Reference
pub mod Scan
pub mod Chunks
pub mod Short
pub mod Counting
pub mod Occupied
pub mod RoundTrip
mod Tests
use fiveman.Common.{
  ℕ, zero, suc, ◌+◌, ◌-◌, Bool, true, false, ◌||◌, Option, none, some, List, [], ◌∷◌, ◌++◌, ltb,
  ◌==◌, if◌then◌else◌, length, take, drop, get_or,
}
use fiveman.Common.Text.{Text, c_string}

-- `none` is the NULL that `calloc` leaves.
pub record Instruction : Type 0 where
  pub name : Option Text
  pub exec : Option Text

-- The locals that live from one piece to the next.
pub record Parse : Type 0 where
  pub expecting : ℕ
  pub found : ℕ
  pub instructions : List Instruction

pub data Outcome : Type 0 where
  parsed : (found : ℕ) → (instructions : List Instruction) → Outcome
  aborted : Outcome  -- a failed `assert`
  out_of_fuel : Outcome

abbrev pub line_size : ℕ
line_size = 8192

abbrev pub is_blank : ℕ → Bool
is_blank c = c == b' ' || c == b'\t'

-- The loop over `j`, with `n` rounds left: the first byte that is no blank, or `head`.
unfoldable pub skip_blanks : List ℕ → ℕ → ℕ → ℕ → ℕ
skip_blanks line head j zero = head
skip_blanks line head j (suc n) =
    let rest = skip_blanks line head (j + 1) n in if is_blank (get_or line j 0) then rest else j

unfoldable pub token : List ℕ → ℕ → ℕ → Text
token line parse_head i =
    let start = skip_blanks line parse_head parse_head (i - parse_head) in
    c_string (take (i - start) (drop start line))

-- fiveman_instruction_allocate
unfoldable pub instruction_allocate : Instruction
instruction_allocate = record { name = none; exec = none }

-- cur->exec = token
unfoldable pub set_exec : Text → List Instruction → List Instruction
set_exec t [] = []
set_exec t (x ∷ []) = record x { exec = some t } ∷ []
set_exec t (x ∷ y ∷ r) = x ∷ set_exec t (y ∷ r)

-- The switch on the delimiter.
unfoldable pub on_delimiter : ℕ → Text → Parse → Parse
unfolding instruction_allocate
on_delimiter c t p =
    if c == b':'
    then record p {
      instructions = p.instructions ++ (record instruction_allocate { name = some t } ∷ []);
      expecting = b'\n';
    }
    else if c == b'\n'
    then record p {
      instructions = set_exec t p.instructions;
      found = p.found + 1;
      expecting = b':';
    }
    else p

-- One round of the loop over `i`: the new `parse_head`, and the rest of the state.
unfoldable pub scan_byte : List ℕ → ℕ → ℕ → ℕ → Parse → ℕ × Parse
scan_byte line c i parse_head p =
    if c == p.expecting
    then (i + 1, on_delimiter c (token line parse_head i) p)
    else (parse_head, p)

-- The loop over `i`, with the bytes from `i` on.
unfoldable pub scan_line : List ℕ → List ℕ → ℕ → ℕ → Parse → ℕ × Parse
scan_line line [] i parse_head p = (parse_head, p)
scan_line line (c ∷ cs) i parse_head p =
    let (head', p') = scan_byte line c i parse_head p in scan_line line cs (i + 1) head' p'

-- The assertions behind the loop.
unfoldable pub finish : Parse → Outcome
finish p = elim p.instructions [
  | [] ↦ if ltb 0 p.found then aborted else parsed p.found []
  | x ∷ xs ↦ if ltb 0 p.found then parsed p.found (x ∷ xs) else aborted
]

-- The loop over the pieces, of `size` bytes each. `fseek` clears the end-of-file flag, so the
-- loop's own test never ends it.
unfoldable pub read_pieces : ℕ → ℕ → List ℕ → ℕ → Parse → Outcome
read_pieces zero size file total_read p = out_of_fuel
read_pieces (suc fuel) size file total_read p =
    let line = take size (drop total_read file) in
    let (parse_head, p') = scan_line line line 0 0 p in
    let rest = read_pieces fuel size file (total_read + parse_head) p' in
    if parse_head == 0 then aborted else if ltb (length line) size then finish p' else rest

unfoldable pub initial : Parse
initial = record { expecting = b':'; found = 0; instructions = [] }

-- `none` is a file that cannot be opened. Each round but the last consumes a byte.
unfoldable pub parse_procfile : Option (List ℕ) → Outcome
parse_procfile none = aborted
parse_procfile (some file) = read_pieces (length file + 2) line_size file 0 initial
