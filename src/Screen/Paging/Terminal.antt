-- ===== src/Screen/Paging/Terminal.antt =====
-- The order in which ncurses wants the calls of setup_screen, suspend_screen, resume_screen and
-- teardown_screen of src/ncurses_screen.c.
use fiveman.Common.{Option, none, some, List, [], ◌∷◌}
use fiveman.Screen.Paging.{
  ScreenCall, initscr, keypad, nonl, nocbreak, noecho, raw, halfdelay, curs_set, refresh, getch,
  def_prog_mode, endwin, reset_prog_mode, page,
}

-- What ncurses has of the terminal: not begun or ended; the screen; the screen, with its modes saved
-- by def_prog_mode; given away by endwin; the modes back, but not yet the screen.
pub data Mode : Type 0 where
  closed active saved suspended restored : Mode

-- The calls in the order that ncurses documents; any other is `none`. A page is shown by another
-- process, which needs the terminal that endwin gives away.
abbrev pub next : ScreenCall → Mode → Option Mode
next initscr closed = some active
next keypad active = some active
next nonl active = some active
next nocbreak active = some active
next noecho active = some active
next raw active = some active
next halfdelay active = some active
next curs_set active = some active
next refresh active = some active
next getch active = some active
next def_prog_mode active = some saved
next endwin saved = some suspended
next (page file) suspended = some suspended
next reset_prog_mode suspended = some restored
next refresh restored = some active
next endwin active = some closed
next _ _ = none

abbrev pub next_of : ScreenCall → Option Mode → Option Mode
next_of c none = none
next_of c (some m) = next c m

-- The state of the terminal behind the calls, the last of which comes first.
unfoldable pub mode : List ScreenCall → Option Mode
mode [] = some closed
mode (c ∷ calls) = next_of c (mode calls)
