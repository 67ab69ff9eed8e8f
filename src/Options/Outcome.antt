-- ===== src/Options/Outcome.antt =====
-- What parse_options hands to main.
use fiveman.Common.{
  ◌⊎◌, ◌-◌, ◌+◌, true, Option, none, some, List, [], ◌∷◌, ◌++◌, ◌≡◌, refl, arith, length,
  length-append, if◌then◌else◌, Bool-cases, inl, inr, take_all, ◌==◌,
}
use fiveman.Common.Int.{ℤ, pos, is_positive, is_zero}
use fiveman.Common.Text.{Text, codes, atoi}
use fiveman.Options.{
  Answer, procfile_option, root_option, port_option, help_option, question, other, Found, Result,
  done, exited, failed, and_then, take_option, take_options, dir_is_root, default_filename,
  default_procfile, find_directory, find_procfile, Options, parse_options, select_command,
  command_word, commands,
}

-- The buffer is as long as the path, so the assertion holds and nothing is cut.
pub default_procfile_lem :
    (directory : Text)
    → default_procfile directory
      ≡ done (
          if dir_is_root directory
          then directory ++ default_filename
          else directory ++ (codes "/" ++ default_filename))
unfolding default_procfile
default_procfile_lem directory = elim (Bool-cases (dir_is_root directory)) [
  | inl root ↦
      let text = directory ++ default_filename in
      let size : length text ≡ length directory + 8 = length-append directory default_filename in
      let measured : (length text == length directory + 8) ≡ true = ground (arith, size) in
      let whole = take_all (length directory + 8 + 1 - 1) text (omega (arith, size)) in
      rw (root, measured, whole)
  | inr below ↦
      let text = directory ++ (codes "/" ++ default_filename) in
      let size : length text ≡ length directory + 9 =
        length-append directory (codes "/" ++ default_filename) in
      let measured : (length text == length directory + 1 + 8) ≡ true = ground (arith, size) in
      let whole = take_all (length directory + 1 + 8 + 1 - 1) text (omega (arith, size)) in
      rw (below, measured, whole)
]

abbrev pub IsDone : {A : Type 0} → (A → Type 0) → Result A → Type 0
IsDone P (done a) = P a
IsDone P (exited n) = Unit
IsDone P failed = Unit

IsDone-and_then :
    {A B : Type 0} (P : A → Type 0) (Q : B → Type 0) (r : Result A) (f : A → Result B)
    → IsDone P r
    → ((a : A) → P a → IsDone Q (f a))
    → IsDone Q (and_then r f)
IsDone-and_then P Q (done a) f h k = k a h
IsDone-and_then P Q (exited n) f h k = tt
IsDone-and_then P Q failed f h k = tt

-- The answers of one kind, the last one first.
abbrev pub last_procfile : List Answer → Option Text → Option Text
last_procfile [] found = found
last_procfile (procfile_option t ∷ rest) found = last_procfile rest (some t)
last_procfile (_ ∷ rest) found = last_procfile rest found

abbrev pub last_root : List Answer → Option Text → Option Text
last_root [] found = found
last_root (root_option t ∷ rest) found = last_root rest (some t)
last_root (_ ∷ rest) found = last_root rest found

abbrev Taken : List Answer → Found → Found → Type 0
Taken rest before found =
    (found.procfile ≡ last_procfile rest before.procfile)
    × (found.directory ≡ last_root rest before.directory)
    × (is_positive found.port ≡ true)

take_options-Taken :
    (rest : List Answer) (before : Found)
    → is_positive before.port ≡ true
    → IsDone (Taken rest before) (take_options rest before)
unfolding take_options take_option
take_options-Taken [] before h = (refl, refl, h)
take_options-Taken (procfile_option t ∷ rest) before h =
    take_options-Taken rest (record before { procfile = some t }) h
take_options-Taken (root_option t ∷ rest) before h =
    take_options-Taken rest (record before { directory = some t }) h
take_options-Taken (port_option t ∷ rest) before h = elim (Bool-cases (is_positive (atoi t))) [
  | inl p ↦ rw p (take_options-Taken rest (record before { port = atoi t }) p)
  | inr n ↦ rw n tt
]
take_options-Taken (help_option ∷ rest) before h = tt
take_options-Taken (question ∷ rest) before h = take_options-Taken rest before h
take_options-Taken (other ∷ rest) before h = tt

-- The path of the Procfile where none is given.
abbrev pub default_path : Text → Text
default_path directory =
    if dir_is_root directory
    then directory ++ default_filename
    else directory ++ (codes "/" ++ default_filename)

-- The value or, without one, the default.
abbrev pub or_default : Option Text → Text → Text
or_default none t = t
or_default (some s) t = s

abbrev pub Handed : List Answer → Option Text → Options → Type 0
Handed answers getwd o =
    ((last_root answers none ≡ some o.directory)
      ⊎ ((last_root answers none ≡ none) × (getwd ≡ some o.directory)))
    × (o.procfile ≡ or_default (last_procfile answers none) (default_path o.directory))
    × (is_positive o.port ≡ true)

find_directory_lem :
    (given getwd : Option Text) (errno : ℤ)
    → IsDone
        (λ d. (given ≡ some d) ⊎ ((given ≡ none) × (getwd ≡ some d)))
        (find_directory given getwd errno)
unfolding find_directory
find_directory_lem (some d) getwd errno = inl refl
find_directory_lem none none errno = tt
find_directory_lem none (some d) errno = elim (Bool-cases (is_zero errno)) [
  | inl z ↦ rw z (inr (refl, refl))
  | inr z ↦ rw z tt
]

find_procfile_lem :
    (given : Option Text) (directory : Text)
    → IsDone (λ p. p ≡ or_default given (default_path directory)) (find_procfile given directory)
unfolding find_procfile
find_procfile_lem (some p) directory = refl
find_procfile_lem none directory = rw (default_procfile_lem directory) refl

-- When parse_options returns, the directory is the last -d or else the working directory, the
-- Procfile is the last -f or else the one in that directory, and the port is positive if the
-- port that it was given is.
parse_options-Handed :
    (answers : List Answer) (word getwd : Option Text) (errno port : ℤ)
    → is_positive port ≡ true
    → IsDone (Handed answers getwd) (parse_options answers word getwd errno port)
unfolding parse_options
parse_options-Handed answers word getwd errno port h =
    let begun : Found = record { directory = none; procfile = none; port = port } in
    IsDone-and_then (Taken answers begun) (Handed answers getwd) (take_options answers begun) _
      (take_options-Taken answers begun h)
      (λ found t.
        IsDone-and_then
          (λ d. (found.directory ≡ some d) ⊎ ((found.directory ≡ none) × (getwd ≡ some d)))
          (Handed answers getwd) (find_directory found.directory getwd errno) _
          (find_directory_lem found.directory getwd errno)
          (λ d k.
            IsDone-and_then (λ p. p ≡ or_default found.procfile (default_path d))
              (Handed answers getwd) (find_procfile found.procfile d) _
              (find_procfile_lem found.procfile d) (λ p e. (rw t.1 at k, rw t.0 at e, t.2))))

abbrev pub last_port : List Answer → ℤ → ℤ
last_port [] found = found
last_port (port_option t ∷ rest) found = last_port rest (atoi t)
last_port (_ ∷ rest) found = last_port rest found

-- Options that do not end the program: known ones, no help, and positive ports.
abbrev pub IsRegular : List Answer → Type 0
IsRegular [] = Unit
IsRegular (port_option t ∷ rest) = (is_positive (atoi t) ≡ true) × IsRegular rest
IsRegular (help_option ∷ rest) = ⊥
IsRegular (other ∷ rest) = ⊥
IsRegular (_ ∷ rest) = IsRegular rest

take_options-IsRegular :
    (rest : List Answer) (before : Found)
    → IsRegular rest
    → take_options rest before
      ≡ done (record {
        directory = last_root rest before.directory;
        procfile = last_procfile rest before.procfile;
        port = last_port rest before.port;
      })
unfolding take_options take_option
take_options-IsRegular [] before h = refl
take_options-IsRegular (procfile_option t ∷ rest) before h =
    take_options-IsRegular rest (record before { procfile = some t }) h
take_options-IsRegular (root_option t ∷ rest) before h =
    take_options-IsRegular rest (record before { directory = some t }) h
take_options-IsRegular (port_option t ∷ rest) before h =
    rw (h.0) (take_options-IsRegular rest (record before { port = atoi t }) h.1)
take_options-IsRegular (help_option ∷ rest) before h = absurd h
take_options-IsRegular (question ∷ rest) before h = take_options-IsRegular rest before h
take_options-IsRegular (other ∷ rest) before h = absurd h

find_directory_known :
    (given : Option Text) (wd : Text)
    → find_directory given (some wd) (pos 0) ≡ done (or_default given wd)
unfolding find_directory
find_directory_known none wd = refl
find_directory_known (some d) wd = refl

find_procfile_known :
    (given : Option Text) (directory : Text)
    → find_procfile given directory ≡ done (or_default given (default_path directory))
unfolding find_procfile
find_procfile_known none directory = default_procfile_lem directory
find_procfile_known (some p) directory = refl

-- With regular options, a working directory and errno 0 parse_options returns: the last -d or else
-- the working directory, the last -f or else the Procfile in that directory, the last -p, cut to
-- an int, or else the port that it was given, and the command that the word selects.
pub parse_options_lem :
    (answers : List Answer) (word : Option Text) (wd : Text) (port : ℤ)
    → IsRegular answers
    → let directory = or_default (last_root answers none) wd in
      parse_options answers word (some wd) (pos 0) port
      ≡ done (record {
        directory = directory;
        procfile = or_default (last_procfile answers none) (default_path directory);
        port = last_port answers port;
        command = select_command (command_word word) commands;
      })
unfolding parse_options
parse_options_lem answers word wd port h =
    let begun : Found = record { directory = none; procfile = none; port = port } in
    let directory = or_default (last_root answers none) wd in
    rw (
      take_options-IsRegular answers begun h,
      find_directory_known (last_root answers none) wd,
      find_procfile_known (last_procfile answers none) directory,
    )
