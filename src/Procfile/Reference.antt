-- ===== src/Procfile/Reference.antt =====
-- The parser with no pieces and no indices: one pass over the whole file, with the bytes since
-- the last delimiter in hand.
use fiveman.Common.{
  ℕ, Bool, true, false, ◌&&◌, List, [], ◌∷◌, ◌++◌, ◌≡◌, refl, ◌∙◌, append_assoc, append-nil, ◌==◌,
  if◌then◌else◌, Bool-cases, inl, inr,
}
use fiveman.Common.Text.{c_string}
use fiveman.Procfile.{Parse, is_blank, on_delimiter}

abbrev pub all_blank : List ℕ → Bool
all_blank [] = true
all_blank (c ∷ cs) = is_blank c && all_blank cs

abbrev pub drop_blanks : List ℕ → List ℕ
drop_blanks [] = []
drop_blanks (c ∷ cs) = let rest = drop_blanks cs in if is_blank c then rest else c ∷ cs

-- Blanks in front go, unless there is nothing else.
abbrev pub trim : List ℕ → List ℕ
trim s = if all_blank s then s else drop_blanks s

unfoldable pub feed : ℕ → List ℕ → Parse → Parse × List ℕ
feed c pending p =
    if c == p.expecting
    then (on_delimiter c (c_string (trim pending)) p, [])
    else (p, pending ++ c ∷ [])

unfoldable pub run : Parse → List ℕ → List ℕ → Parse × List ℕ
run p pending [] = (p, pending)
run p pending (c ∷ cs) = let (p', pending') = feed c pending p in run p' pending' cs

pub run-append :
    (xs ys : List ℕ) (p : Parse) (pending : List ℕ)
    → run p pending (xs ++ ys) ≡ run (run p pending xs).0 (run p pending xs).1 ys
unfolding run
run-append [] ys p pending = refl
run-append (c ∷ xs) ys p pending = run-append xs ys (feed c pending p).0 (feed c pending p).1

-- `s` does not hold the byte `e`.
abbrev pub Free : ℕ → List ℕ → Type 0
Free e [] = Unit
Free e (c ∷ cs) = ((c == e) ≡ false) × Free e cs

pub Free-append : (e : ℕ) (xs ys : List ℕ) → Free e xs → Free e ys → Free e (xs ++ ys)
Free-append e [] ys hx hy = hy
Free-append e (x ∷ xs) ys hx hy = (hx.0, Free-append e xs ys hx.1 hy)

feed-Free :
    (c : ℕ) (pending : List ℕ) (p : Parse)
    → Free p.expecting pending
    → Free (feed c pending p).0.expecting (feed c pending p).1
unfolding feed
feed-Free c pending p h = elim (Bool-cases (c == p.expecting)) [
  | inl hit ↦ rw hit tt
  | inr miss ↦ rw miss (Free-append p.expecting pending (c ∷ []) h (miss, tt))
]

-- What is in hand never holds the byte that is waited for.
pub run-Free :
    (cs pending : List ℕ) (p : Parse)
    → Free p.expecting pending
    → Free (run p pending cs).0.expecting (run p pending cs).1
unfolding run
run-Free [] pending p h = h
run-Free (c ∷ cs) pending p h =
    run-Free cs (feed c pending p).1 (feed c pending p).0 (feed-Free c pending p h)

-- Bytes without the one waited for are only gathered.
pub run_gather :
    (cs pending : List ℕ) (p : Parse) → Free p.expecting cs → run p pending cs ≡ (p, pending ++ cs)
unfolding run feed
run_gather [] pending p h = rw append-nil
run_gather (c ∷ cs) pending p h =
    rw (h.0) (run_gather cs (pending ++ c ∷ []) p h.1 ∙ rw append_assoc)
