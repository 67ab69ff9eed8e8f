-- ===== src/Screen/Frame.antt =====
-- draw_screen: what stands on the screen at each round of its loop, as the terminal changes its size
-- and the entries change.
use fiveman.Common.{ℕ, suc, ◌<◌, Bool, ◌&&◌, not, List, [], ◌∷◌, ◌≡◌, ◌==◌, ◌++◌, if◌then◌else◌}
use fiveman.Common.Int.{ℤ, pos, ◌-ℤ◌}
use fiveman.Common.Text.{Text, codes}
use fiveman.Procfile.{Instruction}
use fiveman.Screen.Extents.{Extents, Cell, update_screen_extents, draw_headers, entry_cells}
use fiveman.Screen.Layout.{Separate, columns, Within}
use fiveman.Types.{ScreenEntry, CurrentActivity}

-- What a row is drawn from: the entry, and of its state the instruction, the activity that the probe
-- of draw_screen_entry finds and the age by its clock, which may be any.
pub record Shown : Type 0 where
  pub instruction : Instruction
  pub activity : CurrentActivity
  pub age : ℤ
  pub entry : ScreenEntry

-- A row of the table, its line on the screen, and whether it is drawn in bold.
pub record Row : Type 0 where
  pub line : ℕ
  pub cells : List Cell
  pub highlighted : Bool

-- A text from the first column on.
pub record Line : Type 0 where
  pub row : ℤ
  pub text : Text

abbrev bottom_bar_text : Text
bottom_bar_text =
    codes
      "[Up Arrow / Down Arrow] Choose Process | [l] Launch Process | [s] Stop Process | [o] View stdout | [e] View stderr | [q] Quit"

unfoldable pub draw_ui_text : Text → Text → ℕ → List Line
draw_ui_text procfile directory maxy =
    record { row = pos maxy -ℤ pos 1; text = bottom_bar_text }
    ∷ record {
      row = pos 0;
      text = codes "Procfile: " ++ procfile ++ codes " Directory: " ++ directory;
    }
    ∷ []

-- The locals of draw_screen for the drawing, with what stands on the screen: the first and the last
-- line, the header row and the rows below it.
pub record Picture : Type 0 where
  pub max_row : ℕ
  pub max_col : ℕ
  pub extents : Extents
  pub ui_text : List Line
  pub headers : List Cell
  pub inum : ℕ
  pub rows : List Row

-- What a round finds: the size of the terminal, the highlighted row and the entries.
pub record Round : Type 0 where
  pub max_row : ℕ
  pub max_col : ℕ
  pub highlighted_row : ℕ
  pub entries : List Shown

abbrev pub entry_start_row : ℕ
entry_start_row = 2

-- Before the loop: no row is drawn yet.
unfoldable pub first_picture : Text → Text → ℕ → ℕ → Picture
first_picture procfile directory max_row max_col =
    let extents = update_screen_extents (pos max_col) in
    record {
      max_row = max_row;
      max_col = max_col;
      extents = extents;
      ui_text = draw_ui_text procfile directory max_row;
      headers = draw_headers extents;
      inum = entry_start_row;
      rows = [];
    }

module _ (two_places general : ℤ → ℕ → Text) where
  -- The loop over the entries, from `cur_row` and the line `inum` on.
  unfoldable pub draw_rows : Extents → ℕ → ℕ → ℕ → List Shown → List Row
  draw_rows e highlighted_row cur_row inum [] = []
  draw_rows e highlighted_row cur_row inum (s ∷ ss) =
      record {
        line = inum;
        cells = entry_cells two_places general e s.instruction s.activity s.age s.entry;
        highlighted = highlighted_row == cur_row;
      }
      ∷ draw_rows e highlighted_row (suc cur_row) (suc inum) ss

module _ (two_places general : ℤ → ℕ → Text) (procfile directory : Text) where
  -- One round of the loop up to `getch`: the columns are computed again, and the
  -- screen is cleared and drawn again, when the size has changed.
  unfoldable pub draw_round : Picture → Round → Picture
  unfolding draw_rows
  draw_round p r =
      let redraw = not ((r.max_row == p.max_row) && (r.max_col == p.max_col)) in
      let extents = if redraw then update_screen_extents (pos r.max_col) else p.extents in
      record {
        max_row = r.max_row;
        max_col = r.max_col;
        extents = extents;
        headers = if redraw then draw_headers extents else p.headers;
        ui_text = if redraw then draw_ui_text procfile directory r.max_row else p.ui_text;
        rows = draw_rows two_places general extents r.highlighted_row 0 p.inum r.entries;
        inum = entry_start_row;
      }

  unfoldable pub draw_rounds : Picture → List Round → Picture
  unfolding draw_round
  draw_rounds p [] = p
  draw_rounds p (r ∷ rest) = draw_rounds (draw_round p r) rest

-- The columns are those for the width of the terminal, and the lines those for its height.
abbrev Current : Text → Text → Picture → Type 0
Current procfile directory p =
    (p.extents ≡ update_screen_extents (pos p.max_col))
    × (p.headers ≡ draw_headers p.extents)
    × (p.ui_text ≡ draw_ui_text procfile directory p.max_row)
    × (p.inum ≡ entry_start_row)

-- The texts of a row do not run into each other and stand below the headers.
abbrev pub AllAligned : List Cell → List Row → Type 0
AllAligned headers [] = Unit
AllAligned headers (r ∷ rs) =
    Separate r.cells × (columns r.cells ≡ columns headers) × AllAligned headers rs

-- The rows stand on the lines from `line` on, each above the last one.
abbrev pub AllLines : ℕ → ℕ → List Row → Type 0
AllLines line maxy [] = Unit
AllLines line maxy (r ∷ rs) = (r.line ≡ line) × (suc line < maxy) × AllLines (suc line) maxy rs

abbrev pub AllWithin : ℕ → List Row → Type 0
AllWithin maxx [] = Unit
AllWithin maxx (r ∷ rs) = Within maxx r.cells × AllWithin maxx rs

abbrev pub num_bold : List Row → ℕ
num_bold [] = 0
num_bold (r ∷ rs) = if r.highlighted then suc (num_bold rs) else num_bold rs

-- What stands on the screen behind a round.
pub record Drawn (procfile directory : Text) (r : Round) (p : Picture) : Type 0 where
  pub aligned : AllAligned p.headers p.rows
  pub headers : p.headers ≡ draw_headers (update_screen_extents (pos r.max_col))
  pub ui_text : p.ui_text ≡ draw_ui_text procfile directory r.max_row
  pub bold : num_bold p.rows ≡ 1
  pub lines : AllLines entry_start_row r.max_row p.rows
  pub within : AllWithin r.max_col p.rows
