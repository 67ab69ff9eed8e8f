-- ===== src/Options/Tests.antt =====
-- A command line with two ports, a root and the word "s".
use fiveman.Common.{some, List, [], ◌∷◌, ◌≡◌, refl, none}
use fiveman.Common.Int.{pos}
use fiveman.Common.Text.{codes, atoi, strtol, atoi_spaces, atoi_signed, atoi_digits}
use fiveman.Options.{
  Answer, root_option, port_option, question, done, failed, Found, parse_options, take_option,
  take_options, find_directory, find_procfile, default_procfile, select_command, commands,
}
use fiveman.Options.Outcome.{
  IsRegular, last_procfile, last_port, or_default, default_path, parse_options_lem,
}

abbrev answers : List Answer
answers =
    port_option (codes "80") ∷ root_option (codes "/srv") ∷ question ∷ port_option (codes "81") ∷ []

answers-IsRegular : IsRegular answers
unfolding atoi strtol atoi_spaces atoi_signed atoi_digits
answers-IsRegular = (refl, (refl, tt))

parse_options_lem_example :
    parse_options answers (some (codes "s")) (some (codes "/home")) (pos 0) (pos 5000)
    ≡ done (record {
      directory = codes "/srv";
      procfile = or_default (last_procfile answers none) (default_path (codes "/srv"));
      port = last_port answers (pos 5000);
      command = select_command (codes "s") commands;
    })
parse_options_lem_example =
    parse_options_lem answers (some (codes "s")) (codes "/home") (pos 5000) answers-IsRegular

srv_options :
    parse_options answers (some (codes "s")) none (pos 0) (pos 5000)
    ≡ done (record {
      directory = codes "/srv";
      procfile = codes "/srv/Procfile";
      port = pos 81;
      command = some (codes "start");
    })
unfolding parse_options take_options take_option find_directory find_procfile default_procfile
    select_command atoi strtol atoi_spaces atoi_signed atoi_digits
srv_options = refl

abbrev nothing_found : Found
nothing_found = record { directory = none; procfile = none; port = pos 5000 }

-- Ports behind the range of an int: one is cut to port 80, and one to a negative number.
wrapped_port :
    take_option (port_option (codes "4294967376")) nothing_found
    ≡ done (record nothing_found { port = pos 80 })
unfolding take_option atoi strtol atoi_spaces atoi_signed atoi_digits
wrapped_port = refl

negative_port : take_option (port_option (codes "2147483648")) nothing_found ≡ failed
unfolding take_option atoi strtol atoi_spaces atoi_signed atoi_digits
negative_port = refl
