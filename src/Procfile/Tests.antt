-- ===== src/Procfile/Tests.antt =====
-- Runs of the Procfile parser, and its theorems at concrete files.
use fiveman.Common.{
  ℕ, zero, suc, false, ap, none, some, List, [], ◌∷◌, ◌++◌, ◌≡◌, ◌≢◌, refl, arith, map, replicate,
}
use fiveman.Common.Text.{Text, codes}
use fiveman.Procfile.{
  Parse, parsed, aborted, out_of_fuel, parse_procfile, read_pieces, scan_line, scan_byte,
  on_delimiter, set_exec, token, skip_blanks, finish, initial,
}
use fiveman.Procfile.Chunks.{judge, parse_procfile-judge, parse_procfile-ne-out_of_fuel}
use fiveman.Procfile.Counting.{Counted, in_command, parse_procfile-Counted}
use fiveman.Procfile.Reference.{run, Free}
use fiveman.Procfile.RoundTrip.{
  Entry, IsPrintable, print, run-print, open_line, instruction, parse_procfile-print,
  parse_procfile-unterminated,
}
use fiveman.Procfile.Short.{parse_procfile_boundary}
use fiveman.Common.{◌==◌}

abbrev web : Entry
web = record { name = codes "web"; command = codes "bin/web -p 1" }

abbrev job : Entry
job = record { name = codes "job"; command = codes "rake jobs:work" }

web-IsPrintable : IsPrintable web
web-IsPrintable = record {
  name_solid = ground arith;
  name_free = ground arith;
  command_solid = ground arith;
  command_free = ground arith;
}

job-IsPrintable : IsPrintable job
job-IsPrintable = record {
  name_solid = ground arith;
  name_free = ground arith;
  command_solid = ground arith;
  command_free = ground arith;
}

-- The blanks around the colon, and the colon in the command.
abbrev two_lines : Text
two_lines = codes "web: bin/web -p 1" ++ (b'\n' ∷ codes "  job:\trake jobs:work") ++ b'\n' ∷ []

abbrev cut_short : Text
cut_short = print (web ∷ []) ++ open_line job

two_lines-parsed :
    parse_procfile (some two_lines) ≡ parsed 2 (instruction web ∷ instruction job ∷ [])
unfolding parse_procfile read_pieces scan_line scan_byte on_delimiter set_exec token skip_blanks
    finish initial
two_lines-parsed = refl

-- A piece of 9 bytes ends inside a name; the reading goes on behind the last end of line.
small_pieces :
    read_pieces 9 9 (codes "a: b" ++ (b'\n' ∷ codes "cd: e") ++ b'\n' ∷ []) 0 initial
    ≡ parsed 2 (
        record { name = some (codes "a"); exec = some (codes "b") }
        ∷ record { name = some (codes "cd"); exec = some (codes "e") }
        ∷ [])
unfolding read_pieces scan_line scan_byte on_delimiter set_exec token skip_blanks finish initial
small_pieces = refl

parse_procfile-judge_example : judge two_lines ≡ parsed 2 (instruction web ∷ instruction job ∷ [])
parse_procfile-judge_example = parse_procfile-judge two_lines two_lines-parsed

parse_procfile-ne-out_of_fuel_example : parse_procfile (some two_lines) ≢ out_of_fuel
parse_procfile-ne-out_of_fuel_example = parse_procfile-ne-out_of_fuel (some two_lines)

parse_procfile-Counted_example :
    Counted (in_command (run initial [] two_lines).0) 2 (instruction web ∷ instruction job ∷ [])
parse_procfile-Counted_example = parse_procfile-Counted two_lines two_lines-parsed

parse_procfile-print_example :
    parse_procfile (some (print (web ∷ job ∷ []))) ≡ parsed 2 (map instruction (web ∷ job ∷ []))
parse_procfile-print_example =
    parse_procfile-print web (job ∷ []) (web-IsPrintable, (job-IsPrintable, tt)) (omega arith)

cut_short_example :
    parse_procfile (some (print (web ∷ []) ++ open_line job))
    ≡ parsed 1 (instruction web ∷ record { name = some (codes "job"); exec = none } ∷ [])
cut_short_example =
    parse_procfile-unterminated web [] job (web-IsPrintable, tt) job-IsPrintable (omega arith)

-- A line of n + 5 bytes, with its end.
abbrev long : ℕ → Entry
long n = record { name = codes "a"; command = replicate (suc n) b'x' }

Free-replicate : (n e : ℕ) → (b'x' == e) ≡ false → Free e (replicate n b'x')
Free-replicate zero e h = tt
Free-replicate (suc n) e h = (h, Free-replicate n e h)

long-IsPrintable : (n : ℕ) → IsPrintable (long n)
long-IsPrintable n = record {
  name_solid = (refl, (refl, tt));
  name_free = (refl, tt);
  command_solid = (refl, Free-replicate (suc n) 0 refl);
  command_free = Free-replicate (suc n) b'\n' refl;
}

long_ends : (n : ℕ) → (run initial [] (print (long n ∷ []))).1 ≡ []
unfolding initial
long_ends n =
    ap (λ (r : Parse × List ℕ). r.1) (run-print (long n ∷ []) initial (long-IsPrintable n, tt) refl)

parse_procfile_boundary_example : parse_procfile (some (print (long 8187 ∷ []))) ≡ aborted
parse_procfile_boundary_example =
    parse_procfile_boundary (print (long 8187 ∷ [])) refl (long_ends 8187)
