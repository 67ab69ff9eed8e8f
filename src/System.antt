-- ===== src/System.antt =====
-- What the two threads of src/main.c share, with the machine: the table, the state of the screen.
-- What they do with it stands in Threads.
pub mod Same
pub mod Safety
pub mod Cleanup
pub mod Leaving
mod Tests
use fiveman.Common.{List}
use fiveman.Machine.{Machine}
use fiveman.Screen.Keys.{Ui}
use fiveman.Types.{ProcessState}

pub record System (W : Type 0) : Type 0 where
  pub table : List ProcessState
  pub ui : Ui
  pub machine : Machine W
