-- ===== src/Screen/Layout.antt =====
-- The columns of the screen.
use fiveman.Common.{
  ℕ, zero, suc, ◌+◌, ◌-◌, ◌<◌, ◌≤◌, List, [], ◌∷◌, ◌++◌, ◌≡◌, refl, arith, if◌then◌else◌, ltb,
  length, map, replicate, set, length-append, length-take, Bool-cases, inl, inr,
}
use fiveman.Common.Int.{ℤ, pos, ◌-ℤ◌, sub_ℕ, ltb_ℤ, pos_part, signed64}
use fiveman.Common.Text.{Text, fit, c_string}
use fiveman.Process.Age.{lifetime_str}
use fiveman.Machine.{Posix, Machine, Ensures}
use fiveman.Process.Age.{lifetime}
use fiveman.Process.Converge.{current_activity}
use fiveman.Table.Loops.{Ensures-and_then, Ensures_true}
use fiveman.Procfile.{Instruction}
use fiveman.Screen.Bytes.{
  put, put_at, snprintf, byte_text, byte_measurement_string, readwrite_byte_measurement_string,
}
use fiveman.Screen.Extents.{
  Extents, less, update_screen_extents, Cell, place, draw_headers, entry_texts, entry_cells,
  draw_screen_entry,
}
use fiveman.Types.{ProcessState, ScreenEntry, CurrentActivity}

-- The width of all columns but the first, with the spaces between them.
abbrev pub fixed_width : ℕ
fixed_width = 135

less-pos : (m size spacing : ℕ) → less (pos m) size spacing ≡ sub_ℕ m (size + spacing)
unfolding ◌-ℤ◌
less-pos m size spacing = ground arith

less-sub_ℕ : (a b size spacing : ℕ) → less (sub_ℕ a b) size spacing ≡ sub_ℕ a (b + (size + spacing))
unfolding ◌-ℤ◌
less-sub_ℕ a b size spacing = ground arith

clamp-sub_ℕ : (a b : ℕ) → (if ltb_ℤ (sub_ℕ a b) (pos 0) then 0 else pos_part (sub_ℕ a b)) ≡ a - b
clamp-sub_ℕ a b = ground arith

-- The first column is as wide as the screen without the other columns and their spaces, or 0 where
-- those need the whole screen.
pub update_screen_extents-name_size :
    (maxx : ℕ) → (update_screen_extents (pos maxx)).name_size ≡ maxx - fixed_width
unfolding update_screen_extents
update_screen_extents-name_size m =
    rw
      (
        less-pos m 20 1,
        less-sub_ℕ m 21 10 1,
        less-sub_ℕ m 32 30 1,
        less-sub_ℕ m 63 5 1,
        less-sub_ℕ m 69 12 1,
      )
      (rw
        (
          less-sub_ℕ m 82 12 1,
          less-sub_ℕ m 95 12 1,
          less-sub_ℕ m 108 12 1,
          less-sub_ℕ m 121 6 1,
          less-sub_ℕ m 128 6 1,
        )
        (clamp-sub_ℕ m 135))

-- Every text ends before the next column begins.
abbrev pub Separate : List Cell → Type 0
Separate [] = Unit
Separate (c ∷ []) = Unit
Separate (c ∷ d ∷ r) = (c.col + length c.text < d.col) × Separate (d ∷ r)

abbrev pub columns : List Cell → List ℕ
columns = map (λ c. c.col)

-- The texts are no wider than the sizes that go with them.
abbrev pub AllFit : List (Text × ℕ) → Type 0
AllFit [] = Unit
AllFit ((t, size) ∷ r) = (length t ≤ size) × AllFit r

place-Separate :
    (spacing col : ℕ) (l : List (Text × ℕ))
    → 0 < spacing
    → AllFit l
    → Separate (place spacing col l)
place-Separate spacing col [] h k = tt
place-Separate spacing col ((t, size) ∷ []) h k = tt
place-Separate spacing col ((t, size) ∷ (u, n) ∷ r) h k =
    (omega arith, place-Separate spacing (col + (size + spacing)) ((u, n) ∷ r) h k.1)

-- Every text begins and ends on a screen of that width.
abbrev pub Within : ℕ → List Cell → Type 0
Within maxx [] = Unit
Within maxx (c ∷ cs) = (c.col < maxx) × (c.col + length c.text ≤ maxx) × Within maxx cs

abbrev total_width : ℕ → List (Text × ℕ) → ℕ
total_width spacing [] = 0
total_width spacing ((t, size) ∷ r) = size + spacing + total_width spacing r

-- The last column is not empty.
abbrev EndsWide : List (Text × ℕ) → Type 0
EndsWide [] = ⊥
EndsWide ((t, size) ∷ []) = 0 < size
EndsWide (p ∷ q ∷ r) = EndsWide (q ∷ r)

total_width-EndsWide :
    (spacing : ℕ) (l : List (Text × ℕ)) → EndsWide l → spacing < total_width spacing l
total_width-EndsWide spacing [] h = elim h [ ]
total_width-EndsWide spacing ((t, size) ∷ []) h = omega arith
total_width-EndsWide spacing ((t, size) ∷ (u, n) ∷ r) h =
    omega (arith, total_width-EndsWide spacing ((u, n) ∷ r) h)

place-Within :
    (maxx spacing col : ℕ) (l : List (Text × ℕ))
    → EndsWide l
    → AllFit l
    → col + total_width spacing l ≤ maxx + spacing
    → Within maxx (place spacing col l)
place-Within maxx spacing col [] e k h = tt
place-Within maxx spacing col ((t, size) ∷ []) e k h = (omega arith, omega (arith, k.0), tt)
place-Within maxx spacing col ((t, size) ∷ (u, n) ∷ r) e k h =
    let rest = total_width-EndsWide spacing ((u, n) ∷ r) e in
    (
      omega arith,
      omega (arith, k.0),
      place-Within maxx spacing (col + (size + spacing)) ((u, n) ∷ r) e k.1 (omega arith),
    )

fit_lem : (size : ℕ) (s : Text) → length (fit size s) ≤ size
fit_lem size s = omega (arith, length-take (size - 1) s)

-- In a buffer the last byte of which stays zero, a string is shorter than the buffer.
abbrev EndsZero : ℕ → List ℕ → Type 0
EndsZero n [] = ⊥
EndsZero zero (b ∷ bs) = b ≡ 0
EndsZero (suc n) (b ∷ bs) = EndsZero n bs

c_string-EndsZero : (n : ℕ) (bs : List ℕ) → EndsZero n bs → length (c_string bs) ≤ n
c_string-EndsZero n [] h = absurd h
c_string-EndsZero zero (b ∷ bs) h = ground arith
c_string-EndsZero (suc n) (b ∷ bs) h = ground (arith, c_string-EndsZero n bs h)

put-EndsZero : (n : ℕ) (bs xs : List ℕ) → length xs ≤ n → EndsZero n bs → EndsZero n (put bs xs)
put-EndsZero n [] xs h k = k
put-EndsZero n (b ∷ bs) [] h k = k
put-EndsZero zero (b ∷ bs) (x ∷ xs) h k = absurd (omega arith)
put-EndsZero (suc n) (b ∷ bs) (x ∷ xs) h k = put-EndsZero n bs xs (omega arith) k

put_at-EndsZero :
    (n start : ℕ) (bs xs : List ℕ)
    → start + length xs ≤ n
    → EndsZero n bs
    → EndsZero n (put_at bs start xs)
put_at-EndsZero n zero bs xs h k = put-EndsZero n bs xs (omega arith) k
put_at-EndsZero n (suc i) [] xs h k = k
put_at-EndsZero zero (suc i) (b ∷ bs) xs h k = absurd (omega arith)
put_at-EndsZero (suc n) (suc i) (b ∷ bs) xs h k = put_at-EndsZero n i bs xs (omega arith) k

set-EndsZero : (n i c : ℕ) (bs : List ℕ) → i < n → EndsZero n bs → EndsZero n (set bs i c)
set-EndsZero n i c [] h k = k
set-EndsZero zero i c (b ∷ bs) h k = absurd (omega arith)
set-EndsZero (suc n) zero c (b ∷ bs) h k = k
set-EndsZero (suc n) (suc i) c (b ∷ bs) h k = set-EndsZero n i c bs (omega arith) k

replicate-EndsZero : (n : ℕ) → EndsZero n (replicate (suc n) 0)
replicate-EndsZero zero = refl
replicate-EndsZero (suc n) = replicate-EndsZero n

snprintf-EndsZero :
    (n start size : ℕ) (bs : List ℕ) (text : Text)
    → start + size ≤ n
    → EndsZero n bs
    → EndsZero n (snprintf bs start size text).0
snprintf-EndsZero n start size bs text h k = elim (Bool-cases (ltb 0 size)) [
  | inr none_left ↦ rw none_left k
  | inl some_left ↦
      let within : start + length (fit size text ++ 0 ∷ []) ≤ n =
        ground (arith, length-append (fit size text) (0 ∷ []), length-take (size - 1) text) in
      rw some_left (put_at-EndsZero n start bs (fit size text ++ 0 ∷ []) within k)
]

module _ (general : ℤ → ℕ → Text) where
  byte_measurement_string-EndsZero :
      (z : ℤ) (n start size : ℕ) (bs : List ℕ)
      → start + size ≤ n
      → EndsZero n bs
      → EndsZero n (byte_measurement_string general z bs start size).0
  unfolding byte_measurement_string
  byte_measurement_string-EndsZero z n start size bs = snprintf-EndsZero n start size bs _

  readwrite-EndsZero :
      (read write : ℤ) (n : ℕ) (bs : List ℕ)
      → EndsZero n bs
      → EndsZero n (readwrite_byte_measurement_string general read write bs n).0
  unfolding readwrite_byte_measurement_string
  readwrite-EndsZero read write n bs k =
      let r = byte_text general read in
      let w = byte_text general write in
      let left = n - (length r + 1) in
      let first = snprintf-EndsZero n 0 n bs r (omega arith) k in
      elim (Bool-cases (ltb (length r) n)) [
        | inr long ↦ rw long first
        | inl fits ↦
            let second =
              set-EndsZero n (length r) b'/' (snprintf bs 0 n r).0 (ground arith) first in
            let within : length r + 1 + left ≤ n = ground arith in
            elim (Bool-cases (ltb 0 left)) [
              | inr full ↦ rw (fits, full) second
              | inl room ↦
                  rw (fits, room)
                    (rw room at (
                      snprintf-EndsZero n (length r + 1) left
                        (set (snprintf bs 0 n r).0 (length r) b'/') w within second))
            ]
      ]

module _ (two_places : ℤ → ℕ → Text) (general : ℤ → ℕ → Text) where
  measure_fits :
      (z : ℤ) (size : ℕ)
      → length (c_string (byte_measurement_string general z (replicate (suc size) 0) 0 size).0)
        ≤ size
  measure_fits z size = c_string-EndsZero size _ (
      byte_measurement_string-EndsZero general z size 0 size (replicate (suc size) 0) (omega arith)
        (replicate-EndsZero size))

  rates_fit :
      (read write : ℤ) (size : ℕ)
      → length (
          c_string
            (readwrite_byte_measurement_string general read write (replicate (suc size) 0) size).0)
        ≤ size
  rates_fit read write size = c_string-EndsZero size _ (
      readwrite-EndsZero general read write size (replicate (suc size) 0) (replicate-EndsZero size))

  entry_texts-AllFit :
      (e : Extents) (instr : Instruction) (activity : CurrentActivity) (age : ℤ)
      (entry : ScreenEntry)
      → AllFit (entry_texts two_places general e instr activity age entry)
  unfolding entry_texts lifetime_str
  entry_texts-AllFit e instr activity age entry =
      let s = entry.sample in
      (
        fit_lem e.name_size _,
        (
          fit_lem e.pid_size _,
          (
            fit_lem e.state_size _,
            (
              fit_lem e.age_size _,
              (
                fit_lem e.cpu_size _,
                (
                  measure_fits (signed64 s.memory_usage) e.mem_size,
                  (
                    rates_fit (signed64 s.net_read_rate) (signed64 s.net_write_rate) e.net_size,
                    (
                      rates_fit (signed64 s.io_read_rate) (signed64 s.io_write_rate) e.io_size,
                      (
                        rates_fit (signed64 s.fs_read_rate) (signed64 s.fs_write_rate) e.fs_size,
                        (fit_lem e.stdout_size _, (fit_lem e.stderr_size _, tt)),
                      ),
                    ),
                  ),
                ),
              ),
            ),
          ),
        ),
      )

  extents-spacing : (maxx : ℤ) → 0 < (update_screen_extents maxx).spacing_size
  unfolding update_screen_extents
  extents-spacing maxx = omega arith

  -- Whatever the entry holds and whatever the floats print as, a drawn row has its texts apart, and
  -- it has them at the columns of the headers.
  pub entry_cells-Separate :
      (maxx : ℤ) (instr : Instruction) (activity : CurrentActivity) (age : ℤ) (entry : ScreenEntry)
      → let e = update_screen_extents maxx in
        Separate (entry_cells two_places general e instr activity age entry)
        × (columns (entry_cells two_places general e instr activity age entry)
            ≡ columns (draw_headers e))
  unfolding entry_cells draw_headers
  entry_cells-Separate maxx instr activity age entry =
      let e = update_screen_extents maxx in
      (
        place-Separate e.spacing_size 0 (entry_texts two_places general e instr activity age entry)
            (extents-spacing maxx) (entry_texts-AllFit e instr activity age entry),
        refl,
      )

  ends_wide :
      (maxx : ℕ) (instr : Instruction) (activity : CurrentActivity) (age : ℤ) (entry : ScreenEntry)
      → EndsWide (
          entry_texts two_places general
            (update_screen_extents (pos maxx))
            instr
            activity
            age
            entry)
  unfolding entry_texts update_screen_extents
  ends_wide maxx instr activity age entry = omega arith

  total_lem :
      (maxx : ℕ) (instr : Instruction) (activity : CurrentActivity) (age : ℤ) (entry : ScreenEntry)
      → fixed_width ≤ maxx
      → let e = update_screen_extents (pos maxx) in
        0 + total_width e.spacing_size (entry_texts two_places general e instr activity age entry)
        ≤ maxx + e.spacing_size
  unfolding entry_texts update_screen_extents
  total_lem maxx instr activity age entry h =
      let name = update_screen_extents-name_size maxx in omega (arith, name, h)

  -- On a screen that is wide enough for all columns but the first, a drawn row stands on it.
  pub entry_cells-Within :
      (maxx : ℕ) (instr : Instruction) (activity : CurrentActivity) (age : ℤ) (entry : ScreenEntry)
      → fixed_width ≤ maxx
      → Within maxx (
          entry_cells two_places general
            (update_screen_extents (pos maxx))
            instr
            activity
            age
            entry)
  unfolding entry_cells
  entry_cells-Within maxx instr activity age entry h =
      let e = update_screen_extents (pos maxx) in
      let texts = entry_texts two_places general e instr activity age entry in
      place-Within maxx e.spacing_size 0 texts (ends_wide maxx instr activity age entry)
        (entry_texts-AllFit e instr activity age entry) (total_lem maxx instr activity age entry h)

module _ {W : Type 0} (os : Posix W) (two_places : ℤ → ℕ → Text) (general : ℤ → ℕ → Text) where
  -- Whatever the probe and the clock answer, the drawn row has its texts apart and on the screen.
  draw_screen_entry-Within :
      (maxx : ℕ) (s : ProcessState) (entry : ScreenEntry) (m : Machine W)
      → fixed_width ≤ maxx
      → Ensures
          (draw_screen_entry os two_places general (update_screen_extents (pos maxx)) s entry m)
          (λ cells _. Separate cells × Within maxx cells)
  unfolding draw_screen_entry
  draw_screen_entry-Within maxx s entry m h =
      let apart = λ (cells : List Cell) (_ : Machine W). Separate cells × Within maxx cells in
      Ensures-and_then (λ _ _. Unit {0}) apart (current_activity os s m) _ (Ensures_true _)
        (λ activity m₁ _.
          Ensures-and_then (λ _ _. Unit {0}) apart (lifetime os s m₁) _ (Ensures_true _)
            (λ age m₂ _. (
              (entry_cells-Separate two_places general (pos maxx) s.instruction activity age
                  entry).0,
              entry_cells-Within two_places general maxx s.instruction activity age entry h,
            )))
