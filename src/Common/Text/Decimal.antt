-- ===== src/Common/Text/Decimal.antt =====
-- `atoi_spaces` reads back what "%i" writes.
use Prim.Native.Nat.{ℕ, zero, suc, ◌+◌, ◌/◌, ◌%◌, ◌<◌}
use mathlib.Core.Path.{◌≡◌, refl, sym, ap, ◌∙◌}
use mathlib.Core.Bool.{true}
use mathlib.Core.List.{[], ◌∷◌, ◌++◌, append-nil, append_assoc}
use mathlib.Core.Logic.{inl, inr}
use native.Mathlib.Omega.{arith}
use fiveman.Common.Int.{ℤ, pos, negsuc, negate}
use fiveman.Common.Tests.{◌==◌, Bool-cases}
use fiveman.Common.Text.{
  Text, show_digits, show_nat, show_int, is_digit, atoi_digits, atoi_signed, atoi_spaces,
}

atoi_digits-show_digits :
    (rounds n : ℕ) (rest : Text)
    → n < rounds
    → atoi_digits 0 (show_digits rounds n ++ rest) ≡ atoi_digits n rest
unfolding show_digits atoi_digits
atoi_digits-show_digits zero n rest h = elim h [ ]
atoi_digits-show_digits (suc f) n rest h = elim (Bool-cases (n / 10 == 0)) [
  | inl last ↦ rw last (ground arith)
  | inr more ↦
      let digit = b'0' + n % 10 in
      let below : n / 10 < f = ground arith in
      rw (more, append_assoc (show_digits f (n / 10)) (digit ∷ []) rest)
        (atoi_digits-show_digits f (n / 10) (digit ∷ rest) below ∙ ground arith)
]

-- The digits of a number begin with a digit.
show_digits_head :
    (rounds n : ℕ)
    → n < rounds
    → (c : ℕ) × (cs : Text) × (show_digits rounds n ≡ c ∷ cs) × (is_digit c ≡ true)
unfolding show_digits
show_digits_head zero n h = elim h [ ]
show_digits_head (suc f) n h = elim (Bool-cases (n / 10 == 0)) [
  | inl last ↦ (b'0' + n % 10, [], rw last, ground arith)
  | inr more ↦
      let below : n / 10 < f = ground arith in
      let (c, cs, e, d) = show_digits_head f (n / 10) below in
      (c, cs ++ (b'0' + n % 10) ∷ [], rw (more, e), d)
]

atoi_digit :
    (c : ℕ) (cs : Text) → is_digit c ≡ true → atoi_spaces (c ∷ cs) ≡ pos (atoi_digits 0 (c ∷ cs))
unfolding atoi_spaces atoi_signed
atoi_digit c cs h = ground arith

show_nat_value : (n : ℕ) → atoi_digits 0 (show_nat n) ≡ n
unfolding show_nat
show_nat_value n =
    ap (atoi_digits 0) (sym (append-nil (show_digits (suc n) n)))
    ∙ atoi_digits-show_digits (suc n) n [] (omega arith)
    ∙ unfold atoi_digits in refl

atoi_spaces-show_nat : (n : ℕ) → atoi_spaces (show_nat n) ≡ pos n
unfolding show_nat
atoi_spaces-show_nat n =
    let (c, cs, e, d) = show_digits_head (suc n) n (omega arith) in
    ap atoi_spaces e ∙ atoi_digit c cs d ∙ ap pos (ap (atoi_digits 0) (sym e) ∙ show_nat_value n)

atoi_spaces_minus : (s : Text) → atoi_spaces (b'-' ∷ s) ≡ negate (atoi_digits 0 s)
unfolding atoi_spaces atoi_signed
atoi_spaces_minus s = refl

-- A number survives the way through an environment variable.
pub atoi_spaces-show_int : (z : ℤ) → atoi_spaces (show_int z) ≡ z
unfolding show_int
atoi_spaces-show_int (pos n) = atoi_spaces-show_nat n
atoi_spaces-show_int (negsuc n) =
    atoi_spaces_minus (show_nat (suc n)) ∙ ap negate (show_nat_value (suc n))
