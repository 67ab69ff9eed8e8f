-- ===== src/PagerFork/Rounds.antt =====
-- The rounds of the reader, from a message in the pipe to the pager.
use fiveman.PagerFork.{Page, Program, page_of}
use fiveman.Common.{
  ℕ, zero, suc, ◌+◌, ◌≤◌, ◌<◌, ◌^◌, Bool, true, false, Option, none, some, List, [], ◌∷◌, ◌++◌, ◌≡◌,
  refl, ap, ◌∙◌, arith, ltb, leb, ◌==◌, Bool-cases, inl, inr, length, take, drop, length-append,
  length-drop, length-take, take_all, drop_all, take-append-drop, append_assoc,
}
use fiveman.Common.Int.{ℤ, is_positive}
use fiveman.Common.Text.{Text, c_string}
use fiveman.PagerFork.{
  Pager, Answers, buffer_size, htonl, ntohl, pager_execute, read_size, read_file, reader_round,
  reader_rounds, bind,
}
use fiveman.PagerFork.Header.{ntohl-htonl}
use fiveman.Procfile.Reference.{Free}

c_string-Free : (s : Text) → Free 0 s → c_string s ≡ s
c_string-Free [] h = refl
c_string-Free (c ∷ cs) h = rw (h.0, c_string-Free cs h.1)

module _ (confirm : List ℕ) (shown : List Page) where
  -- Between two files.
  abbrev pub idle : ℕ → List ℕ → Pager
  idle num_bytes file_pipe = record {
    file_pipe = file_pipe;
    confirm_pipe = confirm;
    reader = record {
      reading_size = true;
      reading_file = false;
      num_bytes = num_bytes;
      buffer = [];
    };
    shown = shown;
  }

  -- In a file of `num_bytes`, with `buffer` read and `rest` to come.
  abbrev pub midway : ℕ → List ℕ → List ℕ → Pager
  midway num_bytes buffer rest = record {
    file_pipe = rest;
    confirm_pipe = confirm;
    reader = record {
      reading_size = false;
      reading_file = true;
      num_bytes = num_bytes;
      buffer = buffer;
    };
    shown = shown;
  }

module _ (pager : Program) (confirm : List ℕ) (shown : List Page) where
  -- The rest of the name arrives.
  read_file_last :
      (file buffer rest : Text) (k : ℕ) (fork : ℤ)
      → buffer ++ rest ≡ file
      → Free 0 file
      → length file < buffer_size
      → length rest ≤ k
      → read_file pager (some k) fork (midway confirm shown (length file) buffer rest)
        ≡ some (pager_execute pager file fork (idle confirm shown (length file) []))
  unfolding read_file
  read_file_last file buffer rest k fork e h small enough =
      let size : length buffer + length rest ≡ length file =
        omega (arith, length-append buffer rest, ap (λ (l : Text). length l) e) in
      let asked = take_all (length file) rest (omega (arith, size)) in
      let got = take_all k rest enough in
      let left = drop_all (length rest) rest (omega arith) in
      let below : ltb buffer_size (length file) ≡ false = ground arith in
      let ends : ltb (length file) buffer_size ≡ true = ground arith in
      let whole : (length file == length file) ≡ true = ground arith in
      rw (asked, got, e, left, below, whole, ends, c_string-Free file h)

  -- A part of it arrives, and more is to come.
  read_file_part :
      (file buffer rest : Text) (k : ℕ) (fork : ℤ)
      → buffer ++ rest ≡ file
      → length file < buffer_size
      → k < length rest
      → read_file pager (some k) fork (midway confirm shown (length file) buffer rest)
        ≡ some (midway confirm shown (length file) (buffer ++ take k rest) (drop k rest))
  unfolding read_file
  read_file_part file buffer rest k fork e small part =
      let size : length buffer + length rest ≡ length file =
        omega (arith, length-append buffer rest, ap (λ (l : Text). length l) e) in
      let asked = take_all (length file) rest (omega (arith, size)) in
      let got : length (take k rest) ≡ k = omega (arith, length-take k rest) in
      let read : length (buffer ++ take k rest) ≡ length buffer + k =
        omega (arith, length-append buffer (take k rest), got) in
      let below : ltb buffer_size (length buffer + k) ≡ false = ground (arith, size) in
      let more : (length buffer + k == length file) ≡ false = ground (arith, size) in
      rw (asked, got, read, below, more)

  read_size_bytes :
      (a b c d : ℕ) (rest : List ℕ) (num k : ℕ)
      → 4 ≤ k
      → read_size (some k) (idle confirm shown num (a ∷ b ∷ c ∷ d ∷ rest))
        ≡ some (midway confirm shown (ntohl (a ∷ b ∷ c ∷ d ∷ [])) [] rest)
  unfolding read_size ntohl
  read_size_bytes a b c d rest num k enough =
      let got = take_all k (a ∷ b ∷ c ∷ d ∷ []) enough in rw got

  -- The header arrives whole.
  read_size_whole :
      (file : Text) (num k : ℕ)
      → length file < 2 ^ 32
      → 4 ≤ k
      → read_size (some k) (idle confirm shown num (htonl (length file) ++ file))
        ≡ some (midway confirm shown (length file) [] file)
  unfolding htonl
  read_size_whole file num k small enough =
      read_size_bytes _ _ _ _ file num k enough
      ∙ ap (λ n. some (midway confirm shown n [] file)) (ntohl-htonl (length file) small)

  -- An error, or no byte at all.
  read_size_nothing :
      (num : ℕ) (answer : Option ℕ)
      → read_size answer (idle confirm shown num []) ≡ some (idle confirm shown num [])
  unfolding read_size
  read_size_nothing num none = refl
  read_size_nothing num (some zero) = refl
  read_size_nothing num (some (suc k)) = refl

-- At least `n` bytes, if they are there.
abbrev pub AtLeast : ℕ → Option ℕ → Type 0
AtLeast n none = ⊥
AtLeast n (some k) = n ≤ k

-- A read of the header finds its four bytes, which are one atomic `write`, and a read of the name
-- finds one byte or more; `can_fork` says whether a process can be forked.
pub record Delivers (can_fork : Bool) (a : Answers) : Type 0 where
  pub header : AtLeast 4 a.size_read
  pub part : AtLeast 1 a.file_read
  pub forked : is_positive a.fork ≡ can_fork

abbrev pub AllDeliver : Bool → List Answers → Type 0
AllDeliver can_fork [] = Unit
AllDeliver can_fork (a ∷ rest) = Delivers can_fork a × AllDeliver can_fork rest

module _ (pager : Program) (confirm : List ℕ) (shown : List Page) where
  rounds_between :
      (answers : List Answers) (num : ℕ)
      → reader_rounds pager answers (idle confirm shown num []) ≡ some (idle confirm shown num [])
  unfolding reader_rounds reader_round
  rounds_between [] num = refl
  rounds_between (a ∷ rest) num =
      rw (read_size_nothing pager confirm shown num a.size_read) (rounds_between rest num)

module _ (pager : Program) (confirm : List ℕ) (shown : List Page) where
  -- The file has been shown and confirmed, or neither.
  abbrev pub paged : Bool → Text → Pager
  paged true file =
      idle (confirm ++ b'1' ∷ []) (shown ++ (page_of pager file ∷ [])) (length file) []
  paged false file = idle confirm shown (length file) []

  execute_idle :
      (can_fork : Bool) (file : Text) (fork : ℤ)
      → is_positive fork ≡ can_fork
      → pager_execute pager file fork (idle confirm shown (length file) []) ≡ paged can_fork file
  unfolding pager_execute
  execute_idle true file fork h = rw h
  execute_idle false file fork h = rw h

  rounds_paged :
      (can_fork : Bool) (answers : List Answers) (file : Text)
      → reader_rounds pager answers (paged can_fork file) ≡ some (paged can_fork file)
  rounds_paged true answers file =
      rounds_between pager (confirm ++ b'1' ∷ []) (shown ++ (page_of pager file ∷ [])) answers
        (length file)
  rounds_paged false answers file = rounds_between pager confirm shown answers (length file)

  -- One read of the name, and the rounds behind it.
  file_step :
      (can_fork : Bool) (answers : List Answers) (answer : Option ℕ) (fork : ℤ)
      (file buffer rest : Text)
      → AtLeast 1 answer
      → is_positive fork ≡ can_fork
      → buffer ++ rest ≡ file
      → Free 0 file
      → length file < buffer_size
      → ((b r : Text)
          → b ++ r ≡ file
          → 0 < length r
          → length r < length rest
          → reader_rounds pager answers (midway confirm shown (length file) b r)
            ≡ some (paged can_fork file))
      → bind
          (read_file pager answer fork (midway confirm shown (length file) buffer rest))
          (reader_rounds pager answers)
        ≡ some (paged can_fork file)
  file_step can_fork answers none fork file buffer rest d p e h small more = absurd d
  file_step can_fork answers (some k) fork file buffer rest d p e h small more =
      elim (Bool-cases (leb (length rest) k)) [
        | inl last ↦
            rw
              (
                read_file_last pager confirm shown file buffer rest k fork e h small (ground arith),
                execute_idle can_fork file fork p,
              )
              (rounds_paged can_fork answers file)
        | inr part ↦
            let left : k < length rest = ground arith in
            let size = length-drop k rest in
            let both =
              append_assoc buffer (take k rest) (drop k rest)
              ∙ ap (◌++◌ buffer) (take-append-drop k rest)
              ∙ e in
            rw (read_file_part pager confirm shown file buffer rest k fork e small left) (
              more (buffer ++ take k rest) (drop k rest) both (omega (arith, size))
                (omega (arith, size, d)))
      ]

  rounds_inside :
      (can_fork : Bool) (answers : List Answers) (file buffer rest : Text)
      → buffer ++ rest ≡ file
      → Free 0 file
      → length file < buffer_size
      → 0 < length rest
      → length rest ≤ length answers
      → AllDeliver can_fork answers
      → reader_rounds pager answers (midway confirm shown (length file) buffer rest)
        ≡ some (paged can_fork file)
  unfolding reader_rounds reader_round
  rounds_inside can_fork [] file buffer rest e h small some_left enough d =
      absurd (omega (arith, enough))
  rounds_inside can_fork (a ∷ answers) file buffer rest e h small some_left enough d =
      file_step can_fork answers a.file_read a.fork file buffer rest d.0.part d.0.forked e h small
        (λ b r e' left less.
          rounds_inside can_fork answers file b r e' h small left (omega (arith, enough, less)) d.1)

  header_step :
      (answers : List Answers) (header part : Option ℕ) (fork : ℤ) (file : Text) (num : ℕ)
      → AtLeast 4 header
      → length file < buffer_size
      → reader_round pager
          (record { size_read = header; file_read = part; fork = fork })
          (idle confirm shown num (htonl (length file) ++ file))
        ≡ read_file pager part fork (midway confirm shown (length file) [] file)
  unfolding reader_round
  header_step answers none part fork file num d small = absurd d
  header_step answers (some k) part fork file num d small =
      rw (read_size_whole pager confirm shown file num k (omega (arith, small)) d)

  -- A message of the pipe is shown and confirmed if a process can be forked, however many bytes each read of the name finds,
  -- in as many rounds as the name has bytes, one at least.
  pub reader_rounds_message :
      (can_fork : Bool) (answers : List Answers) (file : Text) (num : ℕ)
      → Free 0 file
      → length file < buffer_size
      → 0 < length answers
      → length file ≤ length answers
      → AllDeliver can_fork answers
      → reader_rounds pager answers (idle confirm shown num (htonl (length file) ++ file))
        ≡ some (paged can_fork file)
  unfolding reader_rounds
  reader_rounds_message can_fork [] file num h small one enough d = absurd (omega (arith, one))
  reader_rounds_message can_fork (a ∷ answers) file num h small one enough d =
      rw (header_step answers a.size_read a.file_read a.fork file num d.0.header small) (
        file_step can_fork answers a.file_read a.fork file [] file d.0.part d.0.forked refl h small
          (λ b r e left less.
            rounds_inside can_fork answers file b r e h small left (omega (arith, enough, less))
              d.1))
