-- ===== src/System/Same.antt =====
-- What no step changes in a table: which process stands at which place.
use fiveman.Common.{
  subst, sym, ℕ, zero, suc, some, List, [], ◌∷◌, ◌≡◌, refl, ◌∙◌, map, get_elem?, set,
}
use fiveman.Process.{desires_intent, reflect_desired_intent}
use fiveman.Process.Converge.Soundness.{IsTracked, Kept}
use fiveman.Process.Output.{page_stdout, page_stderr}
use fiveman.Table.Loops.{Pairwise}
use fiveman.Types.{ProcessState, Intent, ProcessIntent}

pub record Same (s t : ProcessState) : Type 0 where
  pub instruction : t.instruction ≡ s.instruction
  pub desired_port : t.desired_port ≡ s.desired_port
  pub stdout : t.stdout ≡ s.stdout
  pub stderr : t.stderr ≡ s.stderr
  pub tracked : IsTracked s → IsTracked t

pub Same-refl : (s : ProcessState) → Same s s
Same-refl s = record {
  instruction = refl;
  desired_port = refl;
  stdout = refl;
  stderr = refl;
  tracked = λ h. h;
}

pub Same-trans : (s t u : ProcessState) → Same s t → Same t u → Same s u
Same-trans s t u h k = record {
  instruction = k.instruction ∙ h.instruction;
  desired_port = k.desired_port ∙ h.desired_port;
  stdout = k.stdout ∙ h.stdout;
  stderr = k.stderr ∙ h.stderr;
  tracked = λ x. k.tracked (h.tracked x);
}

pub Kept-Same : (s t : ProcessState) → Kept s t → Same s t
Kept-Same s t k = record {
  instruction = k.identity.instruction;
  desired_port = k.identity.desired_port;
  stdout = k.identity.stdout;
  stderr = k.identity.stderr;
  tracked = k.tracked;
}

-- The fields that the screen and the change of intents write.
pub marked :
    (s : ProcessState) (i d : ProcessIntent) (o e : ℕ)
    → Same s (record s { intent = i; desired_intent = d; stdout_paged_at = o; stderr_paged_at = e })
marked s i d o e = record {
  instruction = refl;
  desired_port = refl;
  stdout = refl;
  stderr = refl;
  tracked = λ h. h;
}

pub desires_intent-Same : (i : Intent) (s : ProcessState) → Same s (desires_intent s i)
unfolding desires_intent
desires_intent-Same i s = marked s _ _ _ _

pub reflect-Same : (s : ProcessState) → Same s (reflect_desired_intent s)
unfolding reflect_desired_intent
reflect-Same s = marked s _ _ _ _

pub page_stdout-Same : (s : ProcessState) → Same s (page_stdout s)
unfolding page_stdout
page_stdout-Same s = marked s _ _ _ _

pub page_stderr-Same : (s : ProcessState) → Same s (page_stderr s)
unfolding page_stderr
page_stderr-Same s = marked s _ _ _ _

pub Pairwise-refl : (xs : List ProcessState) → Pairwise Same xs xs
Pairwise-refl [] = tt
Pairwise-refl (x ∷ xs) = (Same-refl x, Pairwise-refl xs)

pub Pairwise-trans :
    (xs ys zs : List ProcessState) → Pairwise Same xs ys → Pairwise Same ys zs → Pairwise Same xs zs
Pairwise-trans [] [] zs h k = k
Pairwise-trans (x ∷ xs) (y ∷ ys) (z ∷ zs) h k =
    (Same-trans x y z h.0 k.0, Pairwise-trans xs ys zs h.1 k.1)
Pairwise-trans [] (y ∷ ys) zs h k = absurd h
Pairwise-trans (x ∷ xs) [] zs h k = absurd h
Pairwise-trans (x ∷ xs) (y ∷ ys) [] h k = absurd k

pub Pairwise-map :
    (f : ProcessState → ProcessState)
    → ((s : ProcessState) → Same s (f s))
    → (xs : List ProcessState) → Pairwise Same xs (map f xs)
Pairwise-map f h [] = tt
Pairwise-map f h (x ∷ xs) = (h x, Pairwise-map f h xs)

pub Pairwise-set :
    (xs : List ProcessState) (i : ℕ) (p p' : ProcessState)
    → get_elem? xs i ≡ some p
    → Same p p'
    → Pairwise Same xs (set xs i p')
Pairwise-set [] i p p' e h = tt
Pairwise-set (x ∷ xs) zero p p' e h =
    let here : x ≡ p = cc in (subst (λ q. Same q p') (sym here) h, Pairwise-refl xs)
Pairwise-set (x ∷ xs) (suc i) p p' e h = (Same-refl x, Pairwise-set xs i p p' e h)

abbrev pub AllTracked : List ProcessState → Type 0
AllTracked [] = Unit
AllTracked (s ∷ ss) = IsTracked s × AllTracked ss
