-- ===== src/Screen/Paging/Direct.antt =====
-- fiveman_process_state_page_file of src/fiveman_process_state.c: a pager that the screen starts
-- itself, and not by the process of src/fiveman_pager_fork.c. Nothing in the program calls it.
use fiveman.Common.{
  ℕ, Option, none, some, List, [], ◌∷◌, ◌++◌, ◌≡◌, refl, map, if◌then◌else◌, Bool-cases, inl, inr,
}
use fiveman.Common.Int.{ℤ, is_zero}
use fiveman.Common.Text.{Text, codes}
use fiveman.PagerFork.{get_pager}
use fiveman.Screen.Paging.{ScreenCall, suspend_screen, resume_screen}
use fiveman.Screen.Paging.Terminal.{active, mode}

-- The calls of the function, beside those of ncurses. The pager keeps the three standard descriptors
-- of fiveman, gets its environment, and is found by PATH.
pub data DirectCall : Type 0 where
  screen : ScreenCall → DirectCall
  posix_spawnp : (argv : List Text) → (inherited : List ℕ) → DirectCall
  tcsetpgrp : (fd : ℕ) → (pid : ℤ) → DirectCall
  waitpid_nohang : (pid : ℤ) → DirectCall
  printf : Text → DirectCall

-- The last call first. The answers are the status of posix_spawnp and the pid that it stores; `none`
-- is a failed assertion.
unfoldable pub process_state_page_file :
    Option Text → Text → ℤ → ℤ → List DirectCall → Option (List DirectCall)
process_state_page_file env_pager file posix_status subchild calls =
    let argv = get_pager env_pager ∷ file ∷ [] in
    let spawned = posix_spawnp argv (1 ∷ 2 ∷ 0 ∷ []) ∷ map screen (suspend_screen []) ++ calls in
    if is_zero posix_status
    then some (
        map screen (resume_screen [])
        ++ (printf (codes "Resuming scren!\n")
            ∷ waitpid_nohang subchild
            ∷ tcsetpgrp 2 subchild
            ∷ tcsetpgrp 1 subchild
            ∷ tcsetpgrp 0 subchild
            ∷ spawned))
    else none

-- The calls of ncurses among them.
abbrev screen_calls : List DirectCall → List ScreenCall
screen_calls [] = []
screen_calls (screen c ∷ cs) = c ∷ screen_calls cs
screen_calls (_ ∷ cs) = screen_calls cs

abbrev HasScreen : Option (List DirectCall) → Type 0
HasScreen none = Unit
HasScreen (some calls) = mode (screen_calls calls) ≡ some active

-- Called when the screen has the terminal, it returns with the screen having it again.
process_state_page_file-HasScreen :
    (env_pager : Option Text) (file : Text) (posix_status subchild : ℤ) (calls : List DirectCall)
    → mode (screen_calls calls) ≡ some active
    → HasScreen (process_state_page_file env_pager file posix_status subchild calls)
unfolding process_state_page_file suspend_screen resume_screen mode
process_state_page_file-HasScreen env_pager file posix_status subchild calls h =
    elim (Bool-cases (is_zero posix_status)) [
      | inl ok ↦ rw (ok, h, mode) refl
      | inr failed ↦ rw failed tt
    ]
