-- ===== src/Table/Loops.antt =====
-- What a loop over a table keeps, from what its body keeps.
use fiveman.Common.{suc, List, [], ◌∷◌, ◌≡◌, refl, ap, length}
use fiveman.Machine.{
  Machine, Outcome, returned, failed, exited, crashed, diverged, M, and_then, Ensures,
}
use fiveman.Process.Converge.Discipline.{Keeps, Disciplined}
use fiveman.Table.{each, for_each}

abbrev pub Logged : {W A : Type 0} → A → Machine W → Type 0
Logged _ m = Disciplined m.calls

-- Two lists of one length, related place by place.
abbrev pub Pairwise : {A B : Type 0} → (A → B → Type 0) → List A → List B → Type 0
Pairwise R [] [] = Unit
Pairwise R (x ∷ xs) (y ∷ ys) = R x y × Pairwise R xs ys
Pairwise R _ _ = ⊥

module _ {W : Type 0} where
  -- The rule for a bind.
  pub Ensures-and_then :
      {A B : Type 0} (P : A → Machine W → Type 0) (Q : B → Machine W → Type 0) (o : Outcome W A)
      (f : A → M W B)
      → Ensures o P
      → ((a : A) (m : Machine W) → P a m → Ensures (f a m) Q)
      → Ensures (and_then o f) Q
  Ensures-and_then P Q (returned a m) f h k = k a m h
  Ensures-and_then P Q failed f h k = tt
  Ensures-and_then P Q (exited n) f h k = tt
  Ensures-and_then P Q crashed f h k = tt
  Ensures-and_then P Q diverged f h k = tt

  pub Ensures_imp :
      {A : Type 0} (P Q : A → Machine W → Type 0) (o : Outcome W A)
      → Ensures o P
      → ((a : A) (m : Machine W) → P a m → Q a m)
      → Ensures o Q
  Ensures_imp P Q (returned a m) h k = k a m h
  Ensures_imp P Q failed h k = tt
  Ensures_imp P Q (exited n) h k = tt
  Ensures_imp P Q crashed h k = tt
  Ensures_imp P Q diverged h k = tt

  pub Ensures_both :
      {A : Type 0} (P Q : A → Machine W → Type 0) (o : Outcome W A)
      → Ensures o P
      → Ensures o Q
      → Ensures o (λ a m. P a m × Q a m)
  Ensures_both P Q (returned a m) h k = (h, k)
  Ensures_both P Q failed h k = tt
  Ensures_both P Q (exited n) h k = tt
  Ensures_both P Q crashed h k = tt
  Ensures_both P Q diverged h k = tt

  pub each-Keeps :
      {A B : Type 0} (f : A → M W B) → ((x : A) → Keeps (f x)) → (xs : List A) → Keeps (each f xs)
  unfolding each
  each-Keeps f h [] m d = d
  each-Keeps f h (x ∷ xs) m d = Ensures-and_then Logged Logged (f x m) _ (h x m d) (λ y m₁ d₁.
      Ensures-and_then Logged Logged (each f xs m₁) _ (each-Keeps f h xs m₁ d₁) (λ ys m₂ d₂. d₂))

  pub for_each-Keeps :
      {A B : Type 0} (f : A → M W B)
      → ((x : A) → Keeps (f x))
      → (xs : List A) → Keeps (for_each f xs)
  unfolding for_each
  for_each-Keeps f h [] m d = d
  for_each-Keeps f h (x ∷ xs) m d =
      Ensures-and_then Logged Logged (f x m) _ (h x m d) (λ y m₁ d₁. for_each-Keeps f h xs m₁ d₁)

  -- A loop relates each state to what its body relates it to.
  pub each-Pairwise :
      {A B : Type 0} (R : A → B → Type 0) (f : A → M W B)
      → ((x : A) (m : Machine W) → Ensures (f x m) (λ y _. R x y))
      → (xs : List A) (m : Machine W) → Ensures (each f xs m) (λ ys _. Pairwise R xs ys)
  unfolding each
  each-Pairwise R f h [] m = tt
  each-Pairwise R f h (x ∷ xs) m =
      Ensures-and_then (λ y _. R x y) (λ ys _. Pairwise R (x ∷ xs) ys) (f x m) _ (h x m)
        (λ y m₁ r.
          Ensures-and_then (λ ys _. Pairwise R xs ys) (λ ys _. Pairwise R (x ∷ xs) ys)
            (each f xs m₁) _ (each-Pairwise R f h xs m₁) (λ ys m₂ rs. (r, rs)))

pub Ensures_true : {W A : Type 0} (o : Outcome W A) → Ensures o (λ _ _. Unit {0})
Ensures_true (returned a m) = tt
Ensures_true _ = tt

pub Pairwise-length :
    {A B : Type 0} (R : A → B → Type 0) (xs : List A) (ys : List B)
    → Pairwise R xs ys
    → length xs ≡ length ys
Pairwise-length R [] [] h = refl
Pairwise-length R [] (y ∷ ys) h = absurd h
Pairwise-length R (x ∷ xs) [] h = absurd h
Pairwise-length R (x ∷ xs) (y ∷ ys) h = ap suc (Pairwise-length R xs ys h.1)
