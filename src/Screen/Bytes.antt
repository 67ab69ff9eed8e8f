-- ===== src/Screen/Bytes.antt =====
-- byte_measurement_string and readwrite_byte_measurement_string. The text that "%g" makes of
-- the quotient, rounded to two places, is a parameter: a function of the measurement and of the
-- number that it is divided by.
use fiveman.Common.{
  ℕ, zero, suc, ◌+◌, ◌-◌, ◌*◌, ◌/◌, ◌^◌, ◌<◌, ◌≤◌, Bool, false, Bool-cases, some, List, [], ◌∷◌,
  ◌++◌, ◌≡◌, refl, ◌⊎◌, inl, inr, arith, ltb, if◌then◌else◌, length, set, get_elem?,
}
use fiveman.Common.Int.{ℤ, pos, negsuc, negate, quotient, is_positive, pos_part}
use fiveman.Common.Text.{Text, codes, fit}

abbrev pub bytes_per_kilobyte : ℕ
bytes_per_kilobyte = 1024

abbrev pub bytes_per_megabyte : ℕ
bytes_per_megabyte = bytes_per_kilobyte * 1024

abbrev pub bytes_per_gigabyte : ℕ
bytes_per_gigabyte = bytes_per_megabyte * 1024

abbrev pub bytes_per_terabyte : ℕ
bytes_per_terabyte = bytes_per_gigabyte * 1024

abbrev pub bytes_per_petabyte : ℕ
bytes_per_petabyte = bytes_per_terabyte * 1024

-- As in src/fiveman.h.
abbrev pub bytes_per_exabyte : ℕ
bytes_per_exabyte = bytes_per_terabyte * 1024

pub record ByteScale : Type 0 where
  pub divisor : ℕ
  pub suffix : Text

abbrev reaches : ℤ → ℕ → Bool
reaches n u = is_positive (quotient n u)

unfoldable pub byte_scale : ℤ → ByteScale
byte_scale n =
    if reaches n bytes_per_exabyte
    then record { divisor = bytes_per_exabyte; suffix = codes "EB" }
    else if reaches n bytes_per_petabyte
    then record { divisor = bytes_per_petabyte; suffix = codes "PB" }
    else if reaches n bytes_per_terabyte
    then record { divisor = bytes_per_terabyte; suffix = codes "TB" }
    else if reaches n bytes_per_gigabyte
    then record { divisor = bytes_per_gigabyte; suffix = codes "GB" }
    else if reaches n bytes_per_megabyte
    then record { divisor = bytes_per_megabyte; suffix = codes "MB" }
    else if reaches n bytes_per_kilobyte
    then record { divisor = bytes_per_kilobyte; suffix = codes "kB" }
    else record { divisor = 1; suffix = codes "B" }

-- A buffer is its bytes. Bytes written behind its end are lost here; `Buffer` shows that none are.
abbrev pub put : List ℕ → List ℕ → List ℕ
put [] xs = []
put (b ∷ bs) [] = b ∷ bs
put (b ∷ bs) (x ∷ xs) = x ∷ put bs xs

abbrev pub put_at : List ℕ → ℕ → List ℕ → List ℕ
put_at buffer zero xs = put buffer xs
put_at [] (suc n) xs = []
put_at (b ∷ bs) (suc n) xs = b ∷ put_at bs n xs

-- snprintf(&buffer[start], buf_size, …): the buffer, and the length that the whole text has.
abbrev pub snprintf : List ℕ → ℕ → ℕ → Text → List ℕ × ℕ
snprintf buffer start buf_size text = (
  if ltb 0 buf_size then put_at buffer start (fit buf_size text ++ 0 ∷ []) else buffer,
  length text,
)

module _ (general : ℤ → ℕ → Text) where
  unfoldable pub byte_text : ℤ → Text
  byte_text n = general n (byte_scale n).divisor ++ (byte_scale n).suffix

  unfoldable pub byte_measurement_string : ℤ → List ℕ → ℕ → ℕ → List ℕ × ℕ
  byte_measurement_string n buffer start buf_size = snprintf buffer start buf_size (byte_text n)

  unfoldable pub readwrite_byte_measurement_string : ℤ → ℤ → List ℕ → ℕ → List ℕ × ℕ
  unfolding byte_measurement_string
  readwrite_byte_measurement_string read write buffer buf_size =
      let (buffer₁, written) = byte_measurement_string read buffer 0 buf_size in
      let buffer₂ = set buffer₁ written b'/' in
      let remainder = buf_size - (written + 1) in
      let (buffer₃, more) = byte_measurement_string write buffer₂ (written + 1) remainder in
      if ltb written buf_size
      then if ltb 0 remainder then (buffer₃, written + 1 + more) else (buffer₂, written + 1)
      else (buffer₁, written)

abbrev pub unit_names : List Text
unit_names = codes "B" ∷ codes "kB" ∷ codes "MB" ∷ codes "GB" ∷ codes "TB" ∷ codes "EB" ∷ []

-- The unit is 1024 to the power `k`, under its name.
pub record ScaleOf (n : ℕ) (scale : ByteScale) : Type 0 where
  pub power : ℕ
  pub known : power ≤ 5
  pub divisor : scale.divisor ≡ 1024 ^ power
  pub reached : (power ≡ 0) ⊎ (1024 ^ power ≤ n)
  pub largest : (power ≡ 5) ⊎ (n < 1024 ^ suc power)
  pub suffix : get_elem? unit_names power ≡ some scale.suffix

is_positive-negate : (n : ℕ) → is_positive (negate n) ≡ false
is_positive-negate zero = refl
is_positive-negate (suc n) = refl

-- For every measurement, also a negative one: the unit is the largest power of 1024 that it reaches,
-- up to the fifth, and a byte if it reaches none; the names are those of the powers in their order,
-- in which the fifth is called EB and PB is missing.
pub byte_scale_lem : (z : ℤ) → ScaleOf (pos_part z) (byte_scale z)
unfolding byte_scale
byte_scale_lem (pos n) = elim (Bool-cases (reaches (pos n) bytes_per_exabyte)) [
  | inl h5 ↦ rw h5 (record {
    power = 5;
    known = omega arith;
    divisor = refl;
    reached = inr (ground (arith, h5));
    largest = inl refl;
    suffix = refl;
  })
  | inr g5 ↦ rw g5 (elim (Bool-cases (reaches (pos n) bytes_per_terabyte)) [
    | inl h4 ↦ rw h4 (record {
      power = 4;
      known = omega arith;
      divisor = refl;
      reached = inr (ground (arith, h4));
      largest = inr (ground (arith, g5));
      suffix = refl;
    })
    | inr g4 ↦ rw g4 (elim (Bool-cases (reaches (pos n) bytes_per_gigabyte)) [
      | inl h3 ↦ rw h3 (record {
        power = 3;
        known = omega arith;
        divisor = refl;
        reached = inr (ground (arith, h3));
        largest = inr (ground (arith, g4));
        suffix = refl;
      })
      | inr g3 ↦ rw g3 (elim (Bool-cases (reaches (pos n) bytes_per_megabyte)) [
        | inl h2 ↦ rw h2 (record {
          power = 2;
          known = omega arith;
          divisor = refl;
          reached = inr (ground (arith, h2));
          largest = inr (ground (arith, g3));
          suffix = refl;
        })
        | inr g2 ↦ rw g2 (elim (Bool-cases (reaches (pos n) bytes_per_kilobyte)) [
          | inl h1 ↦ rw h1 (record {
            power = 1;
            known = omega arith;
            divisor = refl;
            reached = inr (ground (arith, h1));
            largest = inr (ground (arith, g2));
            suffix = refl;
          })
          | inr g1 ↦ rw g1 (record {
            power = 0;
            known = omega arith;
            divisor = refl;
            reached = inl refl;
            largest = inr (ground (arith, g1));
            suffix = refl;
          })
        ])
      ])
    ])
  ])
]
byte_scale_lem (negsuc n) =
    rw
      (
        is_positive-negate (suc n / bytes_per_exabyte),
        is_positive-negate (suc n / bytes_per_terabyte),
        is_positive-negate (suc n / bytes_per_gigabyte),
        is_positive-negate (suc n / bytes_per_megabyte),
        is_positive-negate (suc n / bytes_per_kilobyte),
      )
      (record {
        power = 0;
        known = omega arith;
        divisor = refl;
        reached = inl refl;
        largest = inr (omega arith);
        suffix = refl;
      })
