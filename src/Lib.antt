-- ===== src/Lib.antt =====
-- fiveman: the processes of a Procfile, started, watched and stopped from a screen.
--
-- The program (paths from the repository's root). src/main.c reads the command line
-- (src/options.c) and parses the Procfile (src/procfile.c, src/fiveman_instruction.c) into a list
-- of instructions, makes of it a table of process states (src/fiveman_process_state_table.c,
-- src/fiveman_process_state.c) at consecutive ports, starts the status thread
-- (src/fiveman_status_thread.c) and runs the screen (src/ncurses_screen.c). The two threads share
-- the table; a lock guards the desired intents and the entries. The screen sets the desired
-- intents and, on the way out, sends signals; the thread takes the desired intents over, converges
-- each process to its intent by spawning or signalling, samples it, and fills the entries that the
-- screen draws.
--
-- The files.
--   Common, Common/Int, Common/Text, Common/Lists: native numbers, C's integers, byte strings.
--   Types: the records of src/fiveman_types.h, under the names of their fields.
--   Procfile: parse_procfile. The children: Reference (one pass over the whole file), Scan and
--     Chunks (the pieces are that pass), Short (files below a piece, and of exactly one),
--     Counting (the returned number), Occupied (whether it can be 0), RoundTrip (files that are written
--     are read back).
--   Machine: POSIX and the sampling as parameters, the log of calls, the monad of the program.
--   Process: fiveman_process_state.c, allocate to start. The children: Environment (the vector
--     that a child gets), Converge (converge and what it calls, reaping, sampling), Output (new
--     entries, paging), Age (lifetime), Status (the line of text for a process). Below Converge:
--     Discipline (which calls are made), Policy (what a converge does by its intent), Soundness
--     (what it keeps).
--   Table: the loops over the chain of states; Table/Ports and Table/Loops.
--   StatusThread: src/fiveman_status_thread.c, the creation and one round of the loop. The
--     children: Creation and Rounds (what a round keeps and shows).
--   Screen: src/ncurses_screen.c with handle_sigint of src/signal_handlers.c. The children: Bytes
--     and Buffer (measurements), Extents and Layout (columns), Frame (the rounds of the drawing),
--     Keys (the keys and the way out), Paging (the pages of output with the terminal around them:
--     Terminal, Files, Row, Shown, Blocked, and Direct for a function that is not called), Quit
--     and Ending (when and how the loop of the screen ends).
--   System: what the two threads share. The children: Same (which process stands where), Safety
--     (a safe state, and what a key and the tests behind it keep), Leaving (what ends the loop of
--     the screen), Cleanup (the removal of the files).
--   Threads: the two threads with the place that each has reached and with the lock, row by row:
--     the status thread from its first line to its end, and the screen from the drawing of the
--     first row through the keys, the wait for the pager, the probes and the signals to
--     fiveman_status_thread_destroy and pthread_join. The calls for a row and the storing of what they
--     computed are two moves of the status thread, which has a log of its own. The children: Stored
--     (what is about to be stored), Safety and Order (every state that is reached), Next (the moves
--     of the thread), Join (how many are left), Progress (who can move), Leaving (how the screen is
--     left), Finish (the end of main) and Orphan (what the converge without the lock allows).
--   Signals: src/signal_handlers.c. The children: Reaping (the handler of SIGCHLD) and Delivery
--     (what a signal does behind install_signal_handlers).
--   Statistics: src/fiveman_process_statistics_mac.c, the counters and the sample. The children:
--     Setup (the beginning and the end of a sampling, and the three functions as the Sampling of
--     Machine), Totals (what is counted), Tracing (the D program that DTrace is given), Times, Clear
--     (the counters between two rounds).
--   PagerFork: src/fiveman_pager_fork.c with fiveman_get_pager. The children: Header (the length
--     in network order), Rounds (the reader), Pages (the files that are asked for), Lifecycle
--     (the pipes, the process and their end).
--   Options: parse_options of src/options.c; Options/Outcome (what it returns).
--   Main: src/main.c, the port and the table from the Procfile. The children: SetUp (the table),
--     Program (main up to the screen and behind it), Begin (the state at the screen) and Sample (a
--     main that is applied). The end of main stands in Threads/Finish.
--   Simulation and the modules named Tests: a small system on which the theorems are applied.
--
-- How it is modelled. A function of the program that calls the system is a function in the monad M
-- of Machine: it answers a value and a new machine, or stops by a failed assertion, by a use of
-- memory that is not there, or by running out of fuel. The operating system, the sampling and the
-- text of a floating-point number are parameters. A system call may answer anything and change the
-- world in any way, so what is proved holds whatever other processes do in between. A pointer to a
-- state that is shared is the state's place in the table.
--
-- Bounds and fuel. Numbers of C's types of 32 and 64 bits wrap where the program computes with
-- them (Process/Age, sample_process, the measurements of Screen/Extents); ports and columns are
-- integers. The loop over the pieces of a Procfile has as much fuel as the file has bytes, and two
-- more: each round but the last consumes a byte. The loop over `waitpid` has a fuel of its own as
-- an argument, since the system decides how often it answers with a pid; more fuel than there are
-- children is enough (Signals/Reaping). The loop of the status thread has no
-- fuel: it is a relation of moves, and Threads/Join bounds those that are left when it is asked to
-- end. The numbers that atoi reads are those of strtol, cut to an int (Common/Text). The positions
-- in a Procfile and the number of its instructions, which the source keeps in an int, are natural
-- numbers: a file of 2 ^ 31 bytes is out of view.
--
-- Not modelled: the calls that draw and what ncurses does with the terminal, the length of the
-- sleep between two rounds; Mach and DTrace, of which the answers are parameters; getopt_long, of
-- which the answers are an argument; freeing memory; what a signal without a handler of the
-- program does.
pub mod Common
pub mod Procfile
pub mod Types
mod Simulation
pub mod Machine
pub mod Process
pub mod Table
pub mod StatusThread
pub mod Screen
pub mod System
pub mod Main
pub mod Options
pub mod PagerFork
pub mod Statistics
pub mod Signals
pub mod Threads
