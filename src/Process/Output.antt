-- ===== src/Process/Output.antt =====
-- src/fiveman_process_state.c: the output files of a process, seen and unseen, and its status.
use fiveman.Common.{◌<◌, Bool, true, false, not, ◌&&◌, ◌≡◌, ◌≢◌, ◌↔◌, arith, ltb, ◌==◌}
use fiveman.Types.{ProcessState, Stat}

unfoldable pub stdout_has_new_entries : ProcessState → Bool
stdout_has_new_entries s =
    not (s.stdout_paged_at == s.stdout_stat.st_mtime) && ltb 0 s.stdout_stat.st_size

unfoldable pub stderr_has_new_entries : ProcessState → Bool
stderr_has_new_entries s =
    not (s.stderr_paged_at == s.stderr_stat.st_mtime) && ltb 0 s.stderr_stat.st_size

-- What paging leaves in the state; the file goes to the pager.
unfoldable pub page_stdout : ProcessState → ProcessState
page_stdout s = record s { stdout_paged_at = s.stdout_stat.st_mtime }

unfoldable pub page_stderr : ProcessState → ProcessState
page_stderr s = record s { stderr_paged_at = s.stderr_stat.st_mtime }

abbrev pub with_stats : ProcessState → Stat → Stat → ProcessState
with_stats s out err = record s { stdout_stat = out; stderr_stat = err }

-- A file that has been paged is new again exactly when the next `stat` shows another time of
-- change and a file that is not empty; paging one file leaves the mark of the other alone.
pub page_stdout-has_new_entries :
    (s : ProcessState) (out err : Stat)
    → ((stdout_has_new_entries (with_stats (page_stdout s) out err) ≡ true)
        ↔ ((out.st_mtime ≢ s.stdout_stat.st_mtime) × (0 < out.st_size)))
      × (stdout_has_new_entries (page_stdout s) ≡ false)
      × (stderr_has_new_entries (page_stdout s) ≡ stderr_has_new_entries s)
unfolding stdout_has_new_entries stderr_has_new_entries page_stdout
page_stdout-has_new_entries s out err = ground arith
