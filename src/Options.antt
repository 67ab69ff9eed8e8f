-- ===== src/Options.antt =====
-- src/options.c: the command line. What `getopt_long` answers, call after call, is an argument, rest
-- are the first word behind the options, the working directory and `errno` behind it.
pub mod Outcome
mod Tests
use fiveman.Common.{
  ℕ, ◌+◌, Bool, true, false, ◌&&◌, Option, none, some, List, [], ◌∷◌, ◌++◌, ◌==◌, length,
  if◌then◌else◌,
}
use fiveman.Common.Int.{ℤ, pos, negsuc, is_positive, is_zero}
use fiveman.Common.Text.{Text, codes, starts_with, fit, atoi}

-- The answers of `getopt_long`, with `optarg`.
pub data Answer : Type 0 where
  procfile_option root_option port_option : (optarg : Text) → Answer
  help_option question other : Answer

-- found_directory, found_procfile and *port.
pub record Found : Type 0 where
  pub directory : Option Text
  pub procfile : Option Text
  pub port : ℤ

-- `done` is a return, `failed` a failed assertion.
pub data Result (A : Type 0) : Type 0 where
  done : A → Result A
  exited : ℤ → Result A
  failed : Result A

abbrev pub and_then : {A B : Type 0} → Result A → (A → Result B) → Result B
and_then (done a) f = f a
and_then (exited n) f = exited n
and_then failed f = failed

-- One round of the loop over the options.
unfoldable pub take_option : Answer → Found → Result Found
take_option (procfile_option t) found = done (record found { procfile = some t })
take_option (root_option t) found = done (record found { directory = some t })
take_option (port_option t) found =
    if is_positive (atoi t) then done (record found { port = atoi t }) else failed
take_option help_option found = exited (pos 0)
take_option question found = done found
take_option other found = exited (negsuc 0)

unfoldable pub take_options : List Answer → Found → Result Found
take_options [] found = done found
take_options (a ∷ rest) found = and_then (take_option a found) (take_options rest)

-- `strncmp(found_directory, "/", strlen(found_directory)) == 0`
abbrev pub dir_is_root : Text → Bool
dir_is_root directory = starts_with (codes "/") directory

abbrev pub default_filename : Text
default_filename = codes "Procfile"

-- `snprintf` into a buffer of the computed length, and the assertion behind it.
unfoldable pub default_procfile : Text → Result Text
default_procfile directory =
    let root = dir_is_root directory in
    let path_len = if root then length directory + 8 else length directory + 1 + 8 in
    let text =
      if root
      then directory ++ default_filename
      else directory ++ (codes "/" ++ default_filename) in
    if length text == path_len then done (fit (path_len + 1) text) else failed

abbrev pub commands : List Text
commands = codes "start" ∷ []

-- The first command that begins with the word; `none` is the NULL of no such command.
unfoldable pub select_command : Text → List Text → Option Text
select_command word [] = none
select_command word (c ∷ cs) =
    let rest = select_command word cs in if starts_with c word then some c else rest

abbrev pub command_word : Option Text → Text
command_word none = codes "start"
command_word (some word) = word

pub record Options : Type 0 where
  pub directory : Text
  pub procfile : Text
  pub port : ℤ
  pub command : Option Text

-- The directory: `getwd` answers NULL or a directory, and `errno` must be 0 behind it.
unfoldable pub find_directory : Option Text → Option Text → ℤ → Result Text
find_directory (some directory) getwd errno = done directory
find_directory none none errno = failed
find_directory none (some directory) errno = if is_zero errno then done directory else failed

unfoldable pub find_procfile : Option Text → Text → Result Text
unfolding default_procfile
find_procfile (some procfile) directory = done procfile
find_procfile none directory = default_procfile directory

unfoldable pub parse_options : List Answer → Option Text → Option Text → ℤ → ℤ → Result Options
unfolding take_options find_directory find_procfile select_command
parse_options answers word getwd errno port =
    and_then (take_options answers (record { directory = none; procfile = none; port = port }))
      (λ found. and_then (find_directory found.directory getwd errno) (λ directory.
        and_then (find_procfile found.procfile directory) (λ procfile. done (record {
          directory = directory;
          procfile = procfile;
          port = found.port;
          command = select_command (command_word word) commands;
        }))))
