-- ===== src/Common/Text.antt =====
-- C strings and what the program uses of string.h: a string is the list of its bytes, without
-- the NUL that ends it in memory.
pub mod Decimal
use Prim.Native.Char.{code}
use Prim.Native.String.{String}
use Prim.Native.Nat.{ℕ, zero, suc, ◌+◌, ◌-◌, ◌*◌, ◌/◌, ◌%◌, ◌^◌}
use mathlib.Core.Bool.{Bool, true, false, ◌&&◌, ◌||◌}
use mathlib.Core.List.{List, [], ◌∷◌, ◌++◌}
use fiveman.Common.Tests.{leb, ◌==◌, if◌then◌else◌}
use fiveman.Common.Lists.{take}
use fiveman.Common.Int.{ℤ, pos, negsuc, negate, pos_part, neg_part, to_int}

abbrev pub Text : Type 0
Text = List ℕ

-- The bytes of an ASCII literal.
abbrev pub codes : String → Text
codes String.[] = []
codes (String.◌∷◌ c s) = code c ∷ codes s

-- The C string that a run of bytes holds, as `strncpy` copies it: up to the first NUL.
abbrev pub c_string : List ℕ → Text
c_string [] = []
c_string (c ∷ cs) = let rest = c_string cs in if c == 0 then [] else c ∷ rest

-- strncmp(a, b, strlen(b)) == 0: `b` is a prefix of `a`.
abbrev pub starts_with : Text → Text → Bool
starts_with a [] = true
starts_with [] (y ∷ ys) = false
starts_with (x ∷ xs) (y ∷ ys) = x == y && starts_with xs ys

-- What `snprintf` leaves in a buffer of `size` bytes: at most `size - 1` bytes of the text.
abbrev pub fit : ℕ → Text → Text
fit size s = take (size - 1) s

-- "%i": with enough rounds for the digits of `n`.
unfoldable pub show_digits : ℕ → ℕ → Text
show_digits zero n = []
show_digits (suc rounds) n =
    let front = show_digits rounds (n / 10) in
    (if n / 10 == 0 then [] else front) ++ (b'0' + n % 10) ∷ []

unfoldable pub show_nat : ℕ → Text
show_nat n = show_digits (suc n) n

unfoldable pub show_int : ℤ → Text
show_int (pos n) = show_nat n
show_int (negsuc n) = b'-' ∷ show_nat (suc n)

-- isdigit and isspace in the C locale.
abbrev pub is_digit : ℕ → Bool
is_digit c = leb b'0' c && leb c b'9'

abbrev pub is_space : ℕ → Bool
is_space c = c == b' ' || leb 9 c && leb c 13

-- The digits of strtol, before its range.
unfoldable pub atoi_digits : ℕ → Text → ℕ
atoi_digits acc [] = acc
atoi_digits acc (c ∷ cs) =
    let rest = atoi_digits (acc * 10 + (c - b'0')) cs in if is_digit c then rest else acc

unfoldable pub atoi_signed : Text → ℤ
atoi_signed [] = pos 0
atoi_signed (c ∷ cs) =
    if c == b'-'
    then negate (atoi_digits 0 cs)
    else if c == b'+'
    then pos (atoi_digits 0 cs)
    else pos (atoi_digits 0 (c ∷ cs))

unfoldable pub atoi_spaces : Text → ℤ
atoi_spaces [] = pos 0
atoi_spaces (c ∷ cs) =
    let rest = atoi_spaces cs in if is_space c then rest else atoi_signed (c ∷ cs)

-- strtol, in the range of a `long` of 64 bits.
unfoldable pub strtol : Text → ℤ
unfolding atoi_spaces
strtol t =
    let z = atoi_spaces t in
    if leb (2 ^ 63) (pos_part z)
    then pos (2 ^ 63 - 1)
    else if leb (2 ^ 63 + 1) (neg_part z)
    then negsuc (2 ^ 63 - 1)
    else z

-- atoi is `(int) strtol`: C leaves a value out of range open, and the libraries cut it to 32 bits.
unfoldable pub atoi : Text → ℤ
unfolding strtol
atoi t = to_int (strtol t)
