-- ===== src/Process/Age.antt =====
-- src/fiveman_process_state.c: how long a process has been in its state, and the text of that.
-- There are no floats here: the text of a `double` with two places is a parameter, a function of
-- the distance and of the number of seconds that it is divided by.
use fiveman.Common.{ℕ, ◌+◌, ◌≤◌, ◌<◌, ◌^◌, Bool, ◌∷◌, ◌++◌, ◌≡◌, ◌⊎◌, arith, if◌then◌else◌}
use fiveman.Common.Int.{ℤ, pos, negsuc, sub_ℕ, to_int, quotient, is_positive}
use fiveman.Common.Text.{Text, codes, fit}
use fiveman.Machine.{Posix, M, pure, ◌>>=◌, sys_time}
use fiveman.Types.{ProcessState}

abbrev pub seconds_per_year : ℕ
seconds_per_year = 31536000

abbrev pub seconds_per_month : ℕ
seconds_per_month = 2592000

abbrev pub seconds_per_day : ℕ
seconds_per_day = 86400

abbrev pub seconds_per_hour : ℕ
seconds_per_hour = 3600

abbrev pub seconds_per_minute : ℕ
seconds_per_minute = 60

-- The distance is cut down to an `int`.
unfoldable pub distance : ℕ → ℕ → ℤ
distance now last_state_change = to_int (sub_ℕ now last_state_change)

unfoldable pub lifetime : {W : Type 0} → Posix W → ProcessState → M W ℤ
lifetime os s = do now ← sys_time os; pure (distance now s.last_state_change)

pub record Scale : Type 0 where
  pub divisor : ℕ
  pub label : Text

abbrev reaches : ℤ → ℕ → Bool
reaches d u = is_positive (quotient d u)

unfoldable pub scale : ℤ → Scale
scale d =
    if reaches d seconds_per_year
    then record { divisor = seconds_per_year; label = codes "years" }
    else if reaches d seconds_per_month
    then record { divisor = seconds_per_month; label = codes "months" }
    else if reaches d seconds_per_day
    then record { divisor = seconds_per_day; label = codes "days" }
    else if reaches d seconds_per_hour
    then record { divisor = seconds_per_hour; label = codes "hours" }
    else if reaches d seconds_per_minute
    then record { divisor = seconds_per_minute; label = codes "minutes" }
    else record { divisor = 1; label = codes "seconds" }

unfoldable pub lifetime_str : (ℤ → ℕ → Text) → ℤ → ℕ → Text
lifetime_str two_places d buf_size =
    fit buf_size (two_places d (scale d).divisor ++ (b' ' ∷ (scale d).label))

abbrev pub IsUnit : ℕ → Type 0
IsUnit u =
    (u ≡ 1)
    ⊎ (u ≡ seconds_per_minute)
    ⊎ (u ≡ seconds_per_hour)
    ⊎ (u ≡ seconds_per_day)
    ⊎ (u ≡ seconds_per_month)
    ⊎ (u ≡ seconds_per_year)

-- A positive age is shown in the largest unit that it reaches.
pub scale_largest :
    (n u : ℕ)
    → 0 < n
    → IsUnit u
    → IsUnit (scale (pos n)).divisor
      × ((scale (pos n)).divisor ≤ n)
      × (u ≤ n → u ≤ (scale (pos n)).divisor)
unfolding scale
scale_largest n u p h = ground arith

-- An age that has not begun is shown in seconds.
pub scale_negative : (n : ℕ) → (scale (negsuc n)).divisor ≡ 1
unfolding scale
scale_negative n = ground arith

-- Up to 2 ^ 31 seconds apart, either way round, no age is cut.
pub distance_exact :
    (now last : ℕ) → now < last + 2 ^ 31 → last < now + 2 ^ 31 → distance now last ≡ sub_ℕ now last
unfolding distance
distance_exact now last h k = ground arith
