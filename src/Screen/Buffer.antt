-- ===== src/Screen/Buffer.antt =====
-- The two measurements in one buffer, as draw_screen_entry calls for them: a zeroed buffer of one
-- byte more than the size that is named.
use fiveman.Common.{
  ℕ, zero, suc, ◌+◌, ◌-◌, ◌<◌, ◌≤◌, true, List, [], ◌∷◌, ◌++◌, ◌≡◌, refl, sym, ap, ◌∙◌, arith, ltb,
  if◌then◌else◌, Bool-cases, inl, inr, length, take, set, replicate, length-append, length-take,
  take_all, append_assoc,
}
use fiveman.Common.Int.{ℤ}
use fiveman.Common.Text.{Text, c_string, fit}
use fiveman.Procfile.Reference.{Free, Free-append}
use fiveman.Screen.Bytes.{put, put_at, snprintf, byte_text, readwrite_byte_measurement_string}

put-nil : (bs : List ℕ) → put bs [] ≡ bs
put-nil [] = refl
put-nil (b ∷ bs) = refl

put-zeros :
    (xs : List ℕ) (k n : ℕ)
    → length xs + suc k ≡ n
    → put (replicate n 0) (xs ++ 0 ∷ []) ≡ xs ++ replicate (suc k) 0
put-zeros xs k zero h = absurd (omega arith)
put-zeros [] k (suc n) h =
    let same : n ≡ k = omega arith in rw same (ap (◌∷◌ 0) (put-nil (replicate k 0)))
put-zeros (x ∷ xs) k (suc n) h = ap (◌∷◌ x) (put-zeros xs k n (omega arith))

-- A text and its NUL, over zeros.
put_at-zeros :
    (p xs : List ℕ) (k n : ℕ)
    → length xs + suc k ≡ n
    → put_at (p ++ replicate n 0) (length p) (xs ++ 0 ∷ []) ≡ p ++ (xs ++ replicate (suc k) 0)
put_at-zeros [] xs k n h = put-zeros xs k n h
put_at-zeros (y ∷ p) xs k n h = ap (◌∷◌ y) (put_at-zeros p xs k n h)

set-zeros :
    (p : List ℕ) (k c : ℕ) → set (p ++ replicate (suc k) 0) (length p) c ≡ p ++ (c ∷ replicate k 0)
set-zeros [] k c = refl
set-zeros (y ∷ p) k c = ap (◌∷◌ y) (set-zeros p k c)

c_string-zeros : (p : List ℕ) (k : ℕ) → Free 0 p → c_string (p ++ replicate (suc k) 0) ≡ p
c_string-zeros [] k h = refl
c_string-zeros (c ∷ p) k h = rw (h.0, c_string-zeros p k h.1)

Free-take : (n : ℕ) (xs : List ℕ) → Free 0 xs → Free 0 (take n xs)
Free-take zero xs h = tt
Free-take (suc n) [] h = tt
Free-take (suc n) (x ∷ xs) h = (h.0, Free-take n xs h.1)

-- A text printed behind `p` into what is left of a zeroed buffer reads as `p` and the text, cut.
c_string-snprintf :
    (p text : List ℕ) (size n : ℕ)
    → Free 0 p
    → Free 0 text
    → 0 < size
    → size ≤ n
    → c_string (snprintf (p ++ replicate n 0) (length p) size text).0 ≡ p ++ fit size text
c_string-snprintf p text size n hp ht pos_size room =
    let some_room : ltb 0 size ≡ true = ground arith in
    let short = length-take (size - 1) text in
    let k = n - 1 - length (fit size text) in
    let filled = put_at-zeros p (fit size text) k n (omega (arith, short)) in
    rw (some_room, filled, ← append_assoc)
      (c_string-zeros (p ++ fit size text) k
        (Free-append 0 p (fit size text) hp (Free-take (size - 1) text ht)))

-- The buffer behind the slash, where the first text fits.
slashed :
    (r : Text) (size : ℕ)
    → length r < size
    → set (snprintf (replicate (suc size) 0) 0 size r).0 (length r) b'/'
      ≡ (r ++ b'/' ∷ []) ++ replicate (size - length r) 0
slashed r size h =
    let some_room : ltb 0 size ≡ true = ground arith in
    let whole = take_all (size - 1) r (omega arith) in
    let filled = put-zeros r (size - length r) (suc size) (omega arith) in
    rw (some_room, whole, filled)
      (set-zeros r (size - length r) b'/'
        ∙ sym (append_assoc r (b'/' ∷ []) (replicate (size - length r) 0)))

length-slash : (r : Text) → length (r ++ b'/' ∷ []) ≡ length r + 1
length-slash r = length-append r (b'/' ∷ [])

Free-slash : (r : Text) → Free 0 r → Free 0 (r ++ b'/' ∷ [])
Free-slash r h = Free-append 0 r (b'/' ∷ []) h (refl, tt)

-- No byte is left for the second text.
slash_last :
    (r w : Text) (size : ℕ)
    → size ≡ length r + 1
    → Free 0 r
    → c_string ((r ++ b'/' ∷ []) ++ replicate (size - length r) 0)
      ≡ r ++ (b'/' ∷ fit (size - (length r + 1)) w)
slash_last r w size e h =
    let one : size - length r ≡ 1 = omega arith in
    let nothing : size - (length r + 1) - 1 ≡ 0 = omega arith in
    rw (one, nothing) (c_string-zeros (r ++ b'/' ∷ []) 0 (Free-slash r h))

second_text :
    (r w : Text) (size : ℕ)
    → length r + 1 < size
    → Free 0 r
    → Free 0 w
    → c_string
        (snprintf
          ((r ++ b'/' ∷ []) ++ replicate (size - length r) 0)
          (length r + 1)
          (size - (length r + 1))
          w).0
      ≡ r ++ (b'/' ∷ fit (size - (length r + 1)) w)
second_text r w size h hr hw = rw (← length-slash r) (
    c_string-snprintf (r ++ b'/' ∷ []) w (size - length (r ++ b'/' ∷ [])) (size - length r)
      (Free-slash r hr) hw (omega (arith, length-slash r)) (omega (arith, length-slash r))
    ∙ append_assoc r (b'/' ∷ []) _)

module _ (general : ℤ → ℕ → Text) (read write : ℤ) where
  abbrev pub shown_pair : ℕ → Text → Text → Text
  shown_pair size r w =
      if ltb (length r) size then r ++ (b'/' ∷ fit (size - (length r + 1)) w) else fit size r

  -- In a zeroed buffer of one byte more than its named size the two measurements stand with a
  -- slash between them, cut to the size; a first one that is too long stands alone.
  pub readwrite_byte_measurement_string_lem :
      (size : ℕ)
      → 0 < size
      → Free 0 (byte_text general read)
      → Free 0 (byte_text general write)
      → c_string
          (readwrite_byte_measurement_string general read write (replicate (suc size) 0) size).0
        ≡ shown_pair size (byte_text general read) (byte_text general write)
  unfolding readwrite_byte_measurement_string
  readwrite_byte_measurement_string_lem size h hr hw =
      let r = byte_text general read in
      let w = byte_text general write in
      elim (Bool-cases (ltb (length r) size)) [
        | inr long ↦ rw long (c_string-snprintf [] r size (suc size) tt hr h (omega arith))
        | inl fits ↦
            let below : length r < size = ground arith in
            elim (Bool-cases (ltb 0 (size - (length r + 1)))) [
              | inl room ↦
                  let below' : length r + 1 < size = ground arith in
                  rw (fits, room, slashed r size below)
                    (rw room at (second_text r w size below' hr hw))
              | inr full ↦
                  let e : size ≡ length r + 1 = ground arith in
                  rw (fits, full, slashed r size below) (slash_last r w size e hr)
            ]
      ]
