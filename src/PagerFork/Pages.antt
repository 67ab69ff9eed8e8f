-- ===== src/PagerFork/Pages.antt =====
-- The paging of files, one after the other, as the screen asks for it.
use fiveman.PagerFork.{Page, Program, page_of}
use fiveman.Common.{
  ℕ, ◌≤◌, ◌<◌, ◌^◌, ◌%◌, Bool, true, false, List, [], ◌∷◌, ◌++◌, ◌≡◌, ◌∙◌, ap, arith, length,
  take_all, map, append_assoc, append-nil,
}
use fiveman.Common.Text.{Text}
use fiveman.PagerFork.{
  Pager, Answers, buffer_size, htonl, reader_rounds, Paged, confirmed, blocked, overflow,
  wait_for_confirm, page_file,
}
use fiveman.PagerFork.Rounds.{idle, AllDeliver, reader_rounds_message}
use fiveman.Procfile.Reference.{Free}

-- A name that can be paged, with as many rounds of the reader as it has bytes, one at least.
pub record Request (can_fork : Bool) (file : Text) (answers : List Answers) : Type 0 where
  pub no_nul : Free 0 file
  pub small : length file < buffer_size
  pub round : 0 < length answers
  pub rounds : length file ≤ length answers
  pub delivers : AllDeliver can_fork answers

module _ (pager : Program) where
  written :
      (can_fork : Bool) (file : Text) (answers : List Answers) (shown : List Page) (num : ℕ)
      → Request can_fork file answers
      → page_file pager file answers (idle [] shown num [])
        ≡ wait_for_confirm
            (reader_rounds pager answers (idle [] shown num (htonl (length file) ++ file)))
  unfolding page_file
  written can_fork file answers shown num r =
      let size : length file % 2 ^ 32 ≡ length file = omega (arith, r.small) in
      let whole = take_all (length file) file (omega arith) in rw (size, whole)

  -- A child is run for the file once and the screen goes on, with both pipes empty, however the
  -- bytes of the name are delivered.
  pub page_file_confirmed :
      (file : Text) (answers : List Answers) (shown : List Page) (num : ℕ)
      → Request true file answers
      → page_file pager file answers (idle [] shown num [])
        ≡ confirmed (idle [] (shown ++ (page_of pager file ∷ [])) (length file) [])
  unfolding wait_for_confirm
  page_file_confirmed file answers shown num r =
      written true file answers shown num r
      ∙ ap wait_for_confirm (
          reader_rounds_message pager [] shown true answers file num r.no_nul r.small r.round
            r.rounds r.delivers)

  -- When no process can be forked the file is read and dropped, and the screen waits for a
  -- confirmation that does not come.
  pub page_file_blocked :
      (file : Text) (answers : List Answers) (shown : List Page) (num : ℕ)
      → Request false file answers
      → page_file pager file answers (idle [] shown num [])
        ≡ blocked (idle [] shown (length file) [])
  unfolding wait_for_confirm
  page_file_blocked file answers shown num r =
      written false file answers shown num r
      ∙ ap wait_for_confirm (
          reader_rounds_message pager [] shown false answers file num r.no_nul r.small r.round
            r.rounds r.delivers)

  -- Calls of fiveman_pager_fork_page_file, each behind the end of the one before.
  unfoldable pub page_files : List (Text × List Answers) → Pager → Paged
  page_files [] p = confirmed p
  page_files ((file, answers) ∷ rest) p = elim (page_file pager file answers p) [
    | confirmed p' ↦ page_files rest p'
    | blocked p' ↦ blocked p'
    | overflow ↦ overflow
  ]

  abbrev pub AllRequests : List (Text × List Answers) → Type 0
  AllRequests [] = Unit
  AllRequests ((file, answers) ∷ rest) = Request true file answers × AllRequests rest

  -- The length that the reader remembers.
  abbrev pub last_length : ℕ → List (Text × List Answers) → ℕ
  last_length num [] = num
  last_length num ((file, answers) ∷ rest) = last_length (length file) rest

  -- If a process can be forked for each: for any files, each below the size of the buffer and each
  -- delivered in any pieces, a child is run for each, once, in the order of the calls and under the
  -- file's own name, and all are confirmed. Each child has shown the file by the pager or, when the
  -- pager could not be executed, has printed its message.
  pub page_files_confirmed :
      (files : List (Text × List Answers)) (shown : List Page) (num : ℕ)
      → AllRequests files
      → page_files files (idle [] shown num [])
        ≡ confirmed
            (idle [] (shown ++ map (λ f. page_of pager f.0) files) (last_length num files) [])
  unfolding page_files
  page_files_confirmed [] shown num h = rw append-nil
  page_files_confirmed ((file, answers) ∷ rest) shown num h =
      rw (page_file_confirmed file answers shown num h.0, page_files)
        (page_files_confirmed rest (shown ++ (page_of pager file ∷ [])) (length file) h.1
          ∙ ap (λ l. confirmed (idle [] l (last_length (length file) rest) []))
              (append_assoc shown (page_of pager file ∷ []) (map (λ f. page_of pager f.0) rest)))
