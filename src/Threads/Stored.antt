-- ===== src/Threads/Stored.antt =====
-- What the status thread is about to store is of the process at that row.
use fiveman.Common.{ℕ, zero, suc, Option, none, some, List, [], ◌∷◌, ◌≡◌, subst, get_elem?, set}
use fiveman.System.Same.{Same, Same-trans, marked}
use fiveman.Table.Loops.{Pairwise}
use fiveman.Threads.{Pc, storing, showing, stored}
use fiveman.Types.{ProcessState}

-- It is the process of the start at the row, if there is one.
abbrev pub SameAs : Option ProcessState → ProcessState → Type 0
SameAs none p = Unit
SameAs (some s) p = Same s p

abbrev pub IsStored : List ProcessState → Pc → Type 0
IsStored start (storing i p) = SameAs (get_elem? start i) p
IsStored start (showing i p e) = SameAs (get_elem? start i) p
IsStored start _ = Unit

pub SameAs-trans :
    (o : Option ProcessState) (p q : ProcessState) → SameAs o p → Same p q → SameAs o q
SameAs-trans none p q h k = tt
SameAs-trans (some s) p q h k = Same-trans s p q h k

pub SameAs-stored :
    (o : Option ProcessState) (now p : ProcessState) → SameAs o p → SameAs o (stored now p)
SameAs-stored o now p h = SameAs-trans o p (stored now p) h (marked p p.intent _ _ _)

Same-found : (s t p : ProcessState) → some t ≡ some p → Same s t → Same s p
Same-found s t p e h = subst (SameAs (some s)) (some-injective t p e) h
  where
    some-injective : (t p : ProcessState) → some t ≡ some p → t ≡ p
    some-injective t p e = cc

pub get_elem?-SameAs :
    (start table : List ProcessState) (i : ℕ) (p : ProcessState)
    → Pairwise Same start table
    → get_elem? table i ≡ some p
    → SameAs (get_elem? start i) p
get_elem?-SameAs [] [] i p h e = tt
get_elem?-SameAs [] (t ∷ ts) i p h e = elim h [ ]
get_elem?-SameAs (s ∷ ss) [] i p h e = elim h [ ]
get_elem?-SameAs (s ∷ ss) (t ∷ ts) zero p h e = Same-found s t p e h.0
get_elem?-SameAs (s ∷ ss) (t ∷ ts) (suc i) p h e = get_elem?-SameAs ss ts i p h.1 e

pub set-SameAs :
    (start table : List ProcessState) (i : ℕ) (p : ProcessState)
    → Pairwise Same start table
    → SameAs (get_elem? start i) p
    → Pairwise Same start (set table i p)
set-SameAs [] [] i p h k = tt
set-SameAs [] (t ∷ ts) i p h k = elim h [ ]
set-SameAs (s ∷ ss) [] i p h k = elim h [ ]
set-SameAs (s ∷ ss) (t ∷ ts) zero p h k = (k, h.1)
set-SameAs (s ∷ ss) (t ∷ ts) (suc i) p h k = (h.0, set-SameAs ss ts i p h.1 k)
