-- ===== src/Screen.antt =====
-- src/ncurses_screen.c: what the screen shows and what the keys do. The calls of ncurses are not
-- modelled; a drawn row is the list of the texts that `addstr` puts at their columns.
pub mod Bytes
pub mod Buffer
pub mod Extents
pub mod Layout
pub mod Frame
pub mod Keys
pub mod Paging
pub mod Quit
pub mod Ending
mod Tests
