-- ===== src/PagerFork.antt =====
-- src/fiveman_pager_fork.c: the process that shows the output files. The screen writes a file's
-- name into a pipe and waits on a second pipe for the word that the pager has ended.
--
-- A pipe is the list of the bytes in it. How many bytes a `read` finds is up to the system: an
-- answer `some k` gives the first `k` of those that are there and asked for, `none` is an error.
-- The reader's buffer is the list of the bytes before `buffer_pointer`, behind which it is zero.
pub mod Header
pub mod Rounds
pub mod Pages
pub mod Lifecycle
mod Tests
use fiveman.Common.{
  ℕ, ◌+◌, ◌*◌, ◌/◌, ◌%◌, ◌^◌, Bool, true, false, Option, none, some, List, [], ◌∷◌, ◌++◌, ltb, ◌==◌,
  if◌then◌else◌, length, take, drop,
}
use fiveman.Common.Int.{ℤ, pos, is_positive}
use fiveman.Common.Text.{Text, codes, c_string}
use fiveman.Process.Environment.{get_env}

abbrev pub buffer_size : ℕ
buffer_size = 65536

abbrev pub confirm_buffer_size : ℕ
confirm_buffer_size = 4096

abbrev pub default_pager : Text
default_pager = codes "/usr/bin/more"

-- `getenv("PAGER")`, if that is not empty.
unfoldable pub get_pager : Option Text → Text
get_pager none = default_pager
get_pager (some env_pager) = if ltb 0 (length env_pager) then env_pager else default_pager

-- The four bytes of `htonl`, in the order of memory, and the number that `ntohl` makes of such.
unfoldable pub htonl : ℕ → List ℕ
htonl n = n / 2 ^ 24 % 256 ∷ n / 2 ^ 16 % 256 ∷ n / 2 ^ 8 % 256 ∷ n % 256 ∷ []

unfoldable pub ntohl : List ℕ → ℕ
ntohl (a ∷ b ∷ c ∷ d ∷ _) = ((a * 256 + b) * 256 + c) * 256 + d
ntohl _ = 0

-- The locals of fiveman_pager_fork_main.
pub record Reader : Type 0 where
  pub reading_size : Bool
  pub reading_file : Bool
  pub num_bytes : ℕ
  pub buffer : List ℕ

-- The pager, and what `execlp` answers for it: `none` when it runs, or else errno.
pub record Program : Type 0 where
  pub path : Text
  pub execlp : Option ℤ

-- What a child of the reader has put on the terminal: the pager with the file, or the message that
-- the file could not be paged.
pub data Page : Type 0 where
  shows : (pager : Text) → (file : Text) → Page
  complains : (file : Text) → (errno : ℤ) → Page

-- The child between `fork` and its end.
unfoldable pub page_of : Program → Text → Page
page_of pager file = elim pager.execlp [
  | none ↦ shows pager.path file
  | some errno ↦ complains file errno
]

-- The reader between the two pipes, and what the children have shown, the
-- last one behind the others.
pub record Pager : Type 0 where
  pub file_pipe : List ℕ
  pub confirm_pipe : List ℕ
  pub reader : Reader
  pub shown : List Page

unfoldable pub initial_reader : Reader
initial_reader = record { reading_size = true; reading_file = false; num_bytes = 0; buffer = [] }

-- `if (reading_size)`. `none` is a write behind the end of the buffer.
unfoldable pub read_size : Option ℕ → Pager → Option Pager
read_size none p = some p
read_size (some k) p =
    let got = take k (take 4 p.file_pipe) in
    let buffer = p.reader.buffer ++ got in
    let rest = drop (length got) p.file_pipe in
    if ltb buffer_size (length buffer)
    then none
    else if length buffer == 4
    then some (record p {
      file_pipe = rest;
      reader = record {
        reading_size = false;
        reading_file = true;
        num_bytes = ntohl buffer;
        buffer = [];
      };
    })
    else some (record p { file_pipe = rest; reader = record (p.reader) { buffer = buffer } })

-- What the system answers in a round of the loop.
pub record Answers : Type 0 where
  pub size_read : Option ℕ
  pub file_read : Option ℕ
  pub fork : ℤ

abbrev pub bind : Option Pager → (Pager → Option Pager) → Option Pager
bind none f = none
bind (some p) f = f p

-- `blocked` is a wait for a byte of the confirm pipe that does not come in these rounds.
pub data Paged : Type 0 where
  confirmed blocked : Pager → Paged
  overflow : Paged

-- fiveman_pager_fork_wait_for_confirm, which takes all the bytes that are there.
unfoldable pub wait_for_confirm : Option Pager → Paged
wait_for_confirm none = overflow
wait_for_confirm (some p) = elim p.confirm_pipe [
  | [] ↦ blocked p
  | b ∷ bs ↦ confirmed (record p { confirm_pipe = drop confirm_buffer_size (b ∷ bs) })
]

module _ (pager : Program) where
  -- `fork` answers the parent with a pid or with -1, on which nothing is done. The child runs the
  -- pager or, when that fails, prints a message and ends; the parent waits for either.
  unfoldable pub pager_execute : Text → ℤ → Pager → Pager
  pager_execute file fork p =
      if is_positive fork
      then record p {
        shown = p.shown ++ (page_of pager file ∷ []);
        confirm_pipe = p.confirm_pipe ++ b'1' ∷ [];
      }
      else p

  -- `if (reading_file)`. A name that fills the whole buffer has no NUL behind it and is read on
  -- past its end, which is `none` too.
  unfoldable pub read_file : Option ℕ → ℤ → Pager → Option Pager
  unfolding pager_execute
  read_file none fork p = some p
  read_file (some k) fork p =
      let got = take k (take p.reader.num_bytes p.file_pipe) in
      let buffer = p.reader.buffer ++ got in
      let rest = drop (length got) p.file_pipe in
      let read = record p { file_pipe = rest; reader = record (p.reader) { buffer = buffer } } in
      if ltb buffer_size (length buffer)
      then none
      else if length buffer == p.reader.num_bytes
      then (if ltb (length buffer) buffer_size
          then some (
              pager_execute (c_string buffer) fork (record read {
                reader = record (read.reader) {
                  reading_size = true;
                  reading_file = false;
                  buffer = [];
                };
              }))
          else none)
      else some read

  -- One round of fiveman_pager_fork_main.
  unfoldable pub reader_round : Answers → Pager → Option Pager
  unfolding read_size read_file
  reader_round a p =
      bind (if p.reader.reading_size then read_size a.size_read p else some p)
        (λ p'. if p'.reader.reading_file then read_file a.file_read a.fork p' else some p')

  unfoldable pub reader_rounds : List Answers → Pager → Option Pager
  unfolding reader_round
  reader_rounds [] p = some p
  reader_rounds (a ∷ rest) p = bind (reader_round a p) (reader_rounds rest)

  -- fiveman_pager_fork_page_file, with the reader's rounds up to the end of the wait.
  unfoldable pub page_file : Text → List Answers → Pager → Paged
  unfolding reader_rounds wait_for_confirm
  page_file file answers p =
      let strsize = length file % 2 ^ 32 in
      wait_for_confirm (
        reader_rounds answers
          (record p { file_pipe = p.file_pipe ++ (htonl strsize ++ take strsize file) }))
