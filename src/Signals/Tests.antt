-- ===== src/Signals/Tests.antt =====
-- The handlers on a system whose clock counts the children that are left to wait for.
use fiveman.Common.{ℕ, zero, suc, some, [], ◌∷◌, ◌≡◌, refl, arith, ◌≤◌, ◌<◌, true}
use fiveman.Common.Int.{ℤ, pos, negsuc, is_positive}
use fiveman.Machine.{Posix, Machine, Call, Ensures, returned}
use fiveman.Options.{done}
use fiveman.Process.{allocate}
use fiveman.Process.Converge.{reap_loop, reap_zombie_processes}
use fiveman.Screen.Keys.{initial_ui}
use fiveman.Signals
use fiveman.Signals.{
  Handler, Actions, sigchld, sigint, sig_dfl, on_sigchld, on_sigint, unset, install_signal_handlers,
  sigaction, deliver, handle_sigchld, run_handler, reset_signal_handlers, Action,
}
use fiveman.Signals.Delivery.{Delivered, Installed, install_signal_handlers-Delivered}
use fiveman.Signals.Reaping.{Reaps, ReapingAll, handle_sigchld-ReapingAll}
use fiveman.Simulation.{Sim, sim, web_instruction}
use fiveman.System.{System}
use fiveman.System.Safety.{Safe}
use fiveman.System.Same.{Same-refl}
use fiveman.Table.{for_each}
use fiveman.Types.{ProcessState}

abbrev answer_of : ℕ → ℤ
answer_of zero = negsuc 0
answer_of (suc n) = pos 77

abbrev fewer_by_one : ℕ → ℕ
fewer_by_one zero = zero
fewer_by_one (suc n) = n

abbrev crowd : Posix Sim
crowd = record sim {
  waitpid = λ pid w. (record w { clock = fewer_by_one w.clock }, answer_of w.clock);
}

fewer_by_one_lem :
    (n : ℕ) → (is_positive (answer_of n) ≡ true → fewer_by_one n < n) × (fewer_by_one n ≤ n)
fewer_by_one_lem zero = ((λ e. cc), omega arith)
fewer_by_one_lem (suc n) = ((λ _. omega arith), omega arith)

crowd-Reaps : Reaps crowd (λ w. w.clock)
crowd-Reaps = record {
  fewer = λ pid w. (fewer_by_one_lem w.clock).0;
  no_more = λ pid w. (fewer_by_one_lem w.clock).1;
}

abbrev two_children : Machine Sim
two_children = record { world = record { clock = 2; live = [] }; calls = [] }

abbrev web_77 : ProcessState
web_77 = record (allocate web_instruction (pos 5000)) { pid = pos 77 }

handle_sigchld-ReapingAll_example :
    (m' : Machine Sim) × (handle_sigchld crowd 3 (web_77 ∷ []) two_children ≡ returned tt m')
    × ReapingAll (web_77 ∷ []) [] m'.calls
handle_sigchld-ReapingAll_example =
    handle_sigchld-ReapingAll crowd (λ w. w.clock) crowd-Reaps 3 (web_77 ∷ []) two_children
      (omega arith)

reaped_twice :
    handle_sigchld crowd 3 (web_77 ∷ []) two_children
    ≡ returned tt (record {
      world = record { clock = 0; live = [] };
      calls =
          Call.waitpid (pos 77) (negsuc 0)
          ∷ Call.waitpid (pos 77) (pos 77)
          ∷ Call.waitpid (pos 77) (pos 77)
          ∷ [];
    })
unfolding handle_sigchld for_each reap_zombie_processes reap_loop
reaped_twice = refl

abbrev at_first : Actions
at_first = record {
  for_sigchld = unset sig_dfl;
  for_sigint = unset sig_dfl;
  for_sigterm = unset sig_dfl;
  for_sigpipe = unset sig_dfl;
}

abbrev behind : Actions
behind = record at_first {
  for_sigchld = record {
    handler = on_sigchld;
    flags = some (Signals.sa_restart ∷ Signals.sa_nocldstop ∷ Signals.sa_nocldwait ∷ []);
  };
  for_sigint = unset on_sigint;
}

abbrev running_system : System Sim
running_system = record { table = web_77 ∷ []; ui = initial_ui; machine = two_children }

running_system-Safe : Safe (web_77 ∷ []) running_system
unfolding initial_ui
running_system-Safe = record {
  disciplined = tt;
  same = (Same-refl web_77, tt);
  in_range = omega arith;
}

installed : install_signal_handlers (pos 0) (pos 0) at_first ≡ done behind
unfolding install_signal_handlers sigaction
installed = refl

install_signal_handlers-Delivered_example :
    Installed at_first behind
    × Ensures
        (deliver crowd 3
          (λ s ui m. returned ui m)
          sigint
          behind
          (web_77 ∷ [])
          initial_ui
          two_children)
        (Delivered crowd 3 (web_77 ∷ []) sigint running_system)
install_signal_handlers-Delivered_example =
    install_signal_handlers-Delivered crowd 3 (web_77 ∷ []) (pos 0) (pos 0) at_first behind
      (λ s ui m. returned ui m) sigint running_system installed tt running_system-Safe
