-- ===== src/PagerFork/Lifecycle.antt =====
-- fiveman_pager_fork_create and fiveman_pager_fork_destroy: the two pipes, of which each process
-- keeps one end, and the process of the pager.
use fiveman.Common.{
  ℕ, zero, suc, true, false, List, [], ◌∷◌, ◌≡◌, ◌≢◌, arith, refl, ◌==◌, if◌then◌else◌,
}
use fiveman.Common.Int.{ℤ, pos, negsuc, is_positive, is_zero}
use fiveman.Machine.{Posix, Machine, Call, M, returned, pure, ◌>>=◌, sys_kill}
use fiveman.Process.{sigterm}

-- struct fiveman_pager_fork; calloc leaves `pid` 0 until it is set.
pub record Fork : Type 0 where
  pub file_read_fd : ℕ
  pub file_write_fd : ℕ
  pub confirm_read_fd : ℕ
  pub confirm_write_fd : ℕ
  pub pid : ℤ

abbrev pub close : ℕ → List ℕ → List ℕ
close fd [] = []
close fd (d ∷ ds) = let rest = close fd ds in if fd == d then rest else d ∷ rest

-- `child` is the process that goes into fiveman_pager_fork_main, with its open descriptors.
pub data Created : Type 0 where
  parent : Fork → List ℕ → Created
  child : Fork → List ℕ → Created

-- The two pairs are what `pipe` stores, whose failure the source does not look at, and `fork` is
-- what `fork` answers: a failure, -1, goes the way of the parent.
unfoldable pub pager_fork_create : ℕ × ℕ → ℕ × ℕ → ℤ → List ℕ → Created
pager_fork_create file_filedes confirm_filedes fork descriptors =
    let open_fds =
      confirm_filedes.1 ∷ confirm_filedes.0 ∷ file_filedes.1 ∷ file_filedes.0 ∷ descriptors in
    let rsrc : Fork = record {
      file_read_fd = file_filedes.0;
      file_write_fd = file_filedes.1;
      confirm_read_fd = confirm_filedes.0;
      confirm_write_fd = confirm_filedes.1;
      pid = pos 0;
    } in
    if is_zero fork
    then child rsrc (close rsrc.confirm_read_fd (close rsrc.file_write_fd open_fds))
    else parent (record rsrc { pid = fork })
        (close rsrc.confirm_write_fd (close rsrc.file_read_fd open_fds))

module _ {W : Type 0} (os : Posix W) where
  -- The descriptors that stay open.
  unfoldable pub pager_fork_destroy : Fork → List ℕ → M W (List ℕ)
  pager_fork_destroy fork descriptors =
      if is_positive fork.pid
      then (do
        _ ← sys_kill os fork.pid sigterm
        pure (close fork.confirm_read_fd (close fork.file_write_fd descriptors)))
      else pure descriptors

abbrev Absent : ℕ → List ℕ → Type 0
Absent fd [] = Unit
Absent fd (d ∷ ds) = (fd ≢ d) × Absent fd ds

ne-false : (a b : ℕ) → a ≢ b → (a == b) ≡ false
ne-false a b h = ground (arith, h)

close-Absent : (fd : ℕ) (ds : List ℕ) → Absent fd ds → close fd ds ≡ ds
close-Absent fd [] h = refl
close-Absent fd (d ∷ ds) h = rw (ne-false fd d h.0, close-Absent fd ds h.1) refl

eq_itself : (a : ℕ) → (a == a) ≡ true
eq_itself a = ground arith

-- Four new descriptors, as two calls of `pipe` answer them.
pub record Fresh (file confirm : ℕ × ℕ) (descriptors : List ℕ) : Type 0 where
  pub file_read_fd : Absent file.0 (file.1 ∷ confirm.0 ∷ confirm.1 ∷ descriptors)
  pub file_write_fd : Absent file.1 (file.0 ∷ confirm.0 ∷ confirm.1 ∷ descriptors)
  pub confirm_read_fd : Absent confirm.0 (file.0 ∷ file.1 ∷ confirm.1 ∷ descriptors)
  pub confirm_write_fd : Absent confirm.1 (file.0 ∷ file.1 ∷ confirm.0 ∷ descriptors)

abbrev pub tail_of : ℕ × ℕ → ℕ × ℕ → ℤ → Fork
tail_of file confirm pid = record {
  file_read_fd = file.0;
  file_write_fd = file.1;
  confirm_read_fd = confirm.0;
  confirm_write_fd = confirm.1;
  pid = pid;
}

create-child :
    (file confirm : ℕ × ℕ) (descriptors : List ℕ)
    → Fresh file confirm descriptors
    → pager_fork_create file confirm (pos 0) descriptors
      ≡ child (tail_of file confirm (pos 0)) (confirm.1 ∷ file.0 ∷ descriptors)
unfolding pager_fork_create
create-child file confirm descriptors h =
    rw
      (
        ne-false file.1 confirm.1 h.file_write_fd.1.1.0,
        ne-false file.1 confirm.0 h.file_write_fd.1.0,
        eq_itself file.1,
        ne-false file.1 file.0 h.file_write_fd.0,
        close-Absent file.1 descriptors h.file_write_fd.1.1.1,
        ne-false confirm.0 confirm.1 h.confirm_read_fd.1.1.0,
        eq_itself confirm.0,
        ne-false confirm.0 file.0 h.confirm_read_fd.0,
        close-Absent confirm.0 descriptors h.confirm_read_fd.1.1.1,
      )
      refl

positive-is_zero : (x : ℤ) → is_positive x ≡ true → is_zero x ≡ false
positive-is_zero (pos zero) h = cc
positive-is_zero (pos (suc n)) h = refl
positive-is_zero (negsuc n) h = refl

module _ {W : Type 0} (os : Posix W) where
  -- The machine behind the SIGTERM to the pager's process.
  abbrev pub terminated : ℤ → Machine W → Machine W
  terminated pid m = record {
    world = (os.kill pid sigterm m.world).0;
    calls = Call.kill pid sigterm (os.kill pid sigterm m.world).1 ∷ m.calls;
  }

  create-parent :
      (file confirm : ℕ × ℕ) (pid : ℤ) (descriptors : List ℕ)
      → is_positive pid ≡ true
      → Fresh file confirm descriptors
      → pager_fork_create file confirm pid descriptors
        ≡ parent (tail_of file confirm pid) (confirm.0 ∷ file.1 ∷ descriptors)
  unfolding pager_fork_create
  create-parent file confirm pid descriptors p h =
      rw
        (
          positive-is_zero pid p,
          ne-false file.0 confirm.1 h.file_read_fd.1.1.0,
          ne-false file.0 confirm.0 h.file_read_fd.1.0,
          ne-false file.0 file.1 h.file_read_fd.0,
          eq_itself file.0,
          close-Absent file.0 descriptors h.file_read_fd.1.1.1,
          eq_itself confirm.1,
          ne-false confirm.1 confirm.0 h.confirm_write_fd.1.1.0,
          ne-false confirm.1 file.1 h.confirm_write_fd.1.0,
          close-Absent confirm.1 descriptors h.confirm_write_fd.1.1.1,
        )
        refl

  pub pager_fork_destroy_lem :
      (file confirm : ℕ × ℕ) (pid : ℤ) (descriptors : List ℕ) (m : Machine W)
      → is_positive pid ≡ true
      → Fresh file confirm descriptors
      → pager_fork_destroy os (tail_of file confirm pid) (confirm.0 ∷ file.1 ∷ descriptors) m
        ≡ returned descriptors (terminated pid m)
  unfolding pager_fork_destroy
  pager_fork_destroy_lem file confirm pid descriptors m p h =
      rw
        (
          p,
          ne-false file.1 confirm.0 h.file_write_fd.1.0,
          eq_itself file.1,
          close-Absent file.1 descriptors h.file_write_fd.1.1.1,
          eq_itself confirm.0,
          close-Absent confirm.0 descriptors h.confirm_read_fd.1.1.1,
        )
        refl

  -- With four new descriptors and a process forked, the child keeps only the end of the first pipe
  -- that is read and the end of the second that is written, and the parent the two others; what
  -- the parent has at the end, destroy closes, behind one SIGTERM to the child, and no other
  -- descriptor.
  pub pager_fork_create-destroy :
      (file confirm : ℕ × ℕ) (pid : ℤ) (descriptors : List ℕ) (m : Machine W)
      → is_positive pid ≡ true
      → Fresh file confirm descriptors
      → (pager_fork_create file confirm (pos 0) descriptors
          ≡ child (tail_of file confirm (pos 0)) (confirm.1 ∷ file.0 ∷ descriptors))
        × (pager_fork_create file confirm pid descriptors
            ≡ parent (tail_of file confirm pid) (confirm.0 ∷ file.1 ∷ descriptors))
        × (pager_fork_destroy os (tail_of file confirm pid) (confirm.0 ∷ file.1 ∷ descriptors) m
            ≡ returned descriptors (terminated pid m))
  pager_fork_create-destroy file confirm pid descriptors m p h = (
    create-child file confirm descriptors h,
    create-parent file confirm pid descriptors p h,
    pager_fork_destroy_lem file confirm pid descriptors m p h,
  )
