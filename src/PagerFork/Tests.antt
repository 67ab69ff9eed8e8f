-- ===== src/PagerFork/Tests.antt =====
-- A file name of 8 bytes that arrives in three pieces, and the pagers.
use fiveman.PagerFork.{Program, page_of, shows, complains}
use fiveman.Common.{ℕ, true, none, some, List, [], ◌∷◌, ◌≡◌, refl, arith, replicate}
use fiveman.Common.Int.{pos}
use fiveman.Common.Text.{Text, codes}
use fiveman.PagerFork.{
  Answers, default_pager, get_pager, initial_reader, confirmed, page_file, reader_rounds, htonl,
  ntohl, wait_for_confirm,
}
use fiveman.Machine.{returned}
use fiveman.PagerFork.Lifecycle.{
  Fresh, child, parent, pager_fork_create, pager_fork_create-destroy, pager_fork_destroy, tail_of,
  terminated,
}
use fiveman.PagerFork.Pages.{Request, page_files, page_files_confirmed}
use fiveman.PagerFork.Rounds.{idle, AllDeliver}
use fiveman.Simulation.{sim, boot}

abbrev more : Program
more = record { path = default_pager; execlp = none }

abbrev answer : Answers
answer = record { size_read = some 4; file_read = some 3; fork = pos 77 }

abbrev out : Text
out = codes "/tmp/out"

abbrev rounds : List Answers
rounds = replicate 8 answer

rounds-deliver : AllDeliver true rounds
rounds-deliver = ground arith

request : Request true out rounds
request = record {
  no_nul = ground arith;
  small = omega arith;
  round = omega arith;
  rounds = omega arith;
  delivers = rounds-deliver;
}

page_files_confirmed_example :
    page_files more ((out, rounds) ∷ (out, rounds) ∷ []) (idle [] [] 0 [])
    ≡ confirmed (idle [] (shows default_pager out ∷ shows default_pager out ∷ []) 8 [])
unfolding page_of
page_files_confirmed_example =
    page_files_confirmed more ((out, rounds) ∷ (out, rounds) ∷ []) [] 0 (request, (request, tt))

-- The same by running it, from the reader's first state.
first_page :
    page_file more out rounds
      (record { file_pipe = []; confirm_pipe = []; reader = initial_reader; shown = [] })
    ≡ confirmed (idle [] (shows default_pager out ∷ []) 8 [])
unfolding page_file page_of reader_rounds wait_for_confirm htonl ntohl initial_reader
first_page = refl

-- A pager that cannot be executed: nothing is shown, and it is confirmed all the same.
abbrev no_such : Program
no_such = record { path = codes "less -R"; execlp = some (pos 2) }

unshown :
    page_file no_such out rounds (idle [] [] 0 [])
    ≡ confirmed (idle [] (complains out (pos 2) ∷ []) 8 [])
unfolding page_file page_of reader_rounds wait_for_confirm htonl ntohl
unshown = refl

pager_from_environment : get_pager (some (codes "less")) ≡ codes "less"
unfolding get_pager
pager_from_environment = refl

pager_empty : get_pager (some []) ≡ default_pager
unfolding get_pager
pager_empty = refl

abbrev standard_descriptors : List ℕ
standard_descriptors = 0 ∷ 1 ∷ 2 ∷ []

pipes-Fresh : Fresh (3, 4) (5, 6) standard_descriptors
pipes-Fresh = record {
  file_read_fd =
      (omega arith, (omega arith, (omega arith, (omega arith, (omega arith, (omega arith, tt))))));
  file_write_fd =
      (omega arith, (omega arith, (omega arith, (omega arith, (omega arith, (omega arith, tt))))));
  confirm_read_fd =
      (omega arith, (omega arith, (omega arith, (omega arith, (omega arith, (omega arith, tt))))));
  confirm_write_fd =
      (omega arith, (omega arith, (omega arith, (omega arith, (omega arith, (omega arith, tt))))));
}

pager_fork_create-destroy_example :
    (pager_fork_create (3, 4) (5, 6) (pos 0) standard_descriptors
      ≡ child (tail_of (3, 4) (5, 6) (pos 0)) (6 ∷ 3 ∷ standard_descriptors))
    × (pager_fork_create (3, 4) (5, 6) (pos 77) standard_descriptors
        ≡ parent (tail_of (3, 4) (5, 6) (pos 77)) (5 ∷ 4 ∷ standard_descriptors))
    × (pager_fork_destroy sim (tail_of (3, 4) (5, 6) (pos 77)) (5 ∷ 4 ∷ standard_descriptors) boot
        ≡ returned standard_descriptors (terminated sim (pos 77) boot))
pager_fork_create-destroy_example =
    pager_fork_create-destroy sim (3, 4) (5, 6) (pos 77) standard_descriptors boot refl pipes-Fresh
