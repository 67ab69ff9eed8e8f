-- ===== src/Screen/Paging/Tests.antt =====
-- A session over two processes: the second is stopped, its output is paged, then the errors of the
-- first.
use fiveman.Common.{none}
use fiveman.PagerFork.{Program}
use fiveman.Common.{
  true, false, Bool, some, List, [], ◌∷◌, ◌≡◌, refl, inr, arith, length, replicate,
}
use fiveman.Common.Int.{ℤ, pos, negsuc, is_positive}
use fiveman.Common.Text.{Text, codes}
use fiveman.PagerFork.{Answers, default_pager}
use fiveman.PagerFork.Pages.{Request}
use fiveman.Process.{allocate}
use fiveman.Procfile.Reference.{Free}
use fiveman.Screen.Keys.{Key, letter, key_up, key_down}
use fiveman.Screen.Paging.{Round, session, turn}
use fiveman.Screen.Paging.Blocked.{Waiting, turn-Waiting}
use fiveman.Screen.Paging.Files.{files, AllPageable}
use fiveman.Screen.Paging.Row.{Ready, pages}
use fiveman.Screen.Paging.Shown.{Shown, asked, last_row, opened, opened-Standing, session-Shown}
use fiveman.Simulation.{web_instruction}
use fiveman.Types.{ProcessState}

abbrev with_files : Text → Text → ProcessState
with_files out error = record (allocate web_instruction (pos 5000)) {
  stdout = some out;
  stderr = some error;
}

abbrev two : List ProcessState
two =
    with_files (codes "/a.out") (codes "/a.err") ∷ with_files (codes "/b.out") (codes "/b.err") ∷ []

abbrev more : Program
more = record { path = default_pager; execlp = none }

abbrev answers : ℤ → List Answers
answers fork = replicate 6 (record { size_read = some 4; file_read = some 3; fork = fork })

abbrev round : ℤ → Key → Round
round fork key = record {
  key = key;
  before = λ x. x;
  during = λ table. table;
  answers = answers fork;
}

abbrev rounds : List Round
rounds =
    round (pos 77) key_down
    ∷ round (pos 77) (letter b's')
    ∷ round (pos 77) (letter b'o')
    ∷ round (pos 77) key_up
    ∷ round (pos 77) (letter b'e')
    ∷ []

name_request :
    (can_fork : Bool) (fork : ℤ) (file : Text)
    → Free 0 file
    → length file ≡ 6
    → is_positive fork ≡ can_fork
    → Request can_fork file (answers fork)
name_request can_fork fork file free size e = record {
  no_nul = free;
  small = omega arith;
  round = omega arith;
  rounds = omega arith;
  delivers = ground arith;
}

name_requests :
    (can_fork : Bool) (fork : ℤ)
    → is_positive fork ≡ can_fork
    → AllPageable can_fork (answers fork) (files two)
unfolding files allocate
name_requests can_fork fork e = (
  name_request can_fork fork (codes "/a.out") (ground arith) refl e,
  name_request can_fork fork (codes "/a.err") (ground arith) refl e,
  (
    name_request can_fork fork (codes "/b.out") (ground arith) refl e,
    name_request can_fork fork (codes "/b.err") (ground arith) refl e,
    tt,
  ),
)

round-Ready :
    (can_fork : Bool) (fork : ℤ) (key : Key)
    → is_positive fork ≡ can_fork
    → Ready can_fork (files two) (round fork key)
round-Ready can_fork fork key e = record {
  keeps_row = λ ui table. refl;
  keeps_files = λ ui table. refl;
  during_files = λ table. refl;
  pageable = name_requests can_fork fork e;
}

forked : (key : Key) → Ready true (files two) (round (pos 77) key)
forked key = round-Ready true (pos 77) key refl

session-Shown_example :
    Shown
      (pages more (asked (files two) 0 rounds))
      (last_row 2 0 rounds)
      (session more 2 rounds (opened two))
session-Shown_example = session-Shown more rounds two (omega arith) (
  forked key_down,
  (forked (letter b's'), (forked (letter b'o'), (forked key_up, (forked (letter b'e'), tt)))),
)

-- What these keys ask for.
asked_files : asked (files two) 0 rounds ≡ codes "/b.out" ∷ codes "/a.err" ∷ []
unfolding asked files
asked_files = refl

turn-Waiting_example :
    Waiting [] two (turn more (length (files two)) (round (negsuc 0) (letter b'e')) (opened two))
turn-Waiting_example =
    turn-Waiting more (round (negsuc 0) (letter b'e')) (files two) [] 0 (opened two) (inr refl)
      (round-Ready false (negsuc 0) (letter b'e') refl) (opened-Standing two (omega arith))
