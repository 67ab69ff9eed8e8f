-- ===== src/Process/Environment/Vector.antt =====
-- What becomes of the variables of fiveman in the vector that a process gets.
use fiveman.Common.{
  ℕ, zero, suc, ◌+◌, ◌-◌, ◌<◌, ◌≤◌, none, some, List, [], ◌∷◌, ◌++◌, ◌≡◌, refl, ap, arith, ◌∙◌,
  length, set, get_elem?, length-append, take_all, append_assoc,
}
use fiveman.Common.Int.{ℤ}
use fiveman.Common.Text.{Text, codes, show_int}
use fiveman.Process.Environment.{
  get_env, or_else, path_variable, port_variable, env_size, new_environment,
}

get_elem?-some : (vs : List Text) (i : ℕ) → i < length vs → (v : Text) × (get_elem? vs i ≡ some v)
get_elem?-some [] i h = elim h [ ]
get_elem?-some (v ∷ vs) zero h = (v, refl)
get_elem?-some (v ∷ vs) (suc i) h = get_elem?-some vs i (omega arith)

get_elem?-none : (vs : List Text) (i : ℕ) → length vs ≤ i → get_elem? vs i ≡ none
get_elem?-none [] i h = refl
get_elem?-none (v ∷ vs) zero h = elim h [ ]
get_elem?-none (v ∷ vs) (suc i) h = get_elem?-none vs i (omega arith)

-- From its second round on the loop looks at the variable before `i`.
env_size_from :
    (rounds : ℕ) (environ : List Text) (v : Text) (i k e : ℕ)
    → i + k ≡ length environ
    → k + 1 < rounds
    → env_size rounds environ (some v) i e ≡ length environ
unfolding env_size
env_size_from zero environ v i k e h r = elim r [ ]
env_size_from (suc (suc f)) environ v i zero e h r =
    rw (get_elem?-none environ i (omega arith), env_size) (omega arith)
env_size_from (suc zero) environ v i zero e h r = absurd (omega arith)
env_size_from (suc f) environ v i (suc k) e h r =
    let (w, found) = get_elem?-some environ i (omega arith) in
    rw found (env_size_from f environ w (i + 1) k i (omega arith) (omega arith))

-- The loop counts the variables.
env_size_lem :
    (environ : List Text)
    → 0 < length environ
    → env_size (length environ + 2) environ (get_elem? environ 0) 0 0 ≡ length environ
env_size_lem environ h =
    let (v, found) = get_elem?-some environ 0 h in
    rw found (
      env_size_from (length environ + 2) environ v 0 (length environ) 0 (omega arith) (omega arith))

set_last :
    (front : List Text) (last v : Text) (i : ℕ)
    → i ≡ length front
    → set (front ++ last ∷ []) i v ≡ front ++ v ∷ []
set_last [] last v zero h = refl
set_last [] last v (suc i) h = absurd (omega arith)
set_last (x ∷ front) last v zero h = absurd (omega arith)
set_last (x ∷ front) last v (suc i) h = ap (◌∷◌ x) (set_last front last v i (omega arith))

-- The last variable of fiveman gives way to the new PATH, and the port follows.
pub new_environment_lem :
    (front : List Text) (last path_var port_var : Text)
    → new_environment (front ++ last ∷ []) path_var port_var ≡ front ++ (path_var ∷ port_var ∷ [])
unfolding new_environment
new_environment_lem front last p q =
    let count = length-append front (last ∷ []) in
    rw (env_size_lem (front ++ last ∷ []) (omega (arith, count))) (
      rw (take_all (length (front ++ last ∷ [])) (front ++ last ∷ []) (omega arith)) (
        rw (
          set_last front last p (length (front ++ last ∷ []) - 1) (omega (arith, count)),
          append_assoc,
        )))

get_env-append :
    (name : Text) (xs ys : List Text)
    → get_env name (xs ++ ys) ≡ or_else (get_env name xs) (get_env name ys)
unfolding get_env
get_env-append name [] ys = refl
get_env-append name (x ∷ xs) ys = ground (arith, get_env-append name xs ys)

-- What `getenv` finds in the new vector: the old PATH if it stood before the last variable, and
-- the directory followed by it only if not.
pub new_environment-path :
    (front : List Text) (last directory path : Text) (port : ℤ)
    → get_env
        (codes "PATH")
        (new_environment (front ++ last ∷ []) (path_variable directory path) (port_variable port))
      ≡ or_else (get_env (codes "PATH") front) (some (directory ++ (codes ":" ++ path)))
new_environment-path front last directory path port =
    ap (get_env (codes "PATH")) (new_environment_lem front last _ _)
    ∙ get_env-append (codes "PATH") front _
    ∙ unfold get_env path_variable in refl

-- The child reads its port from PORT, unless a variable PORT of fiveman stands before its last one.
pub new_environment-port :
    (front : List Text) (last directory path : Text) (port : ℤ)
    → get_env
        (codes "PORT")
        (new_environment (front ++ last ∷ []) (path_variable directory path) (port_variable port))
      ≡ or_else (get_env (codes "PORT") front) (some (show_int port))
new_environment-port front last directory path port =
    ap (get_env (codes "PORT")) (new_environment_lem front last _ _)
    ∙ get_env-append (codes "PORT") front _
    ∙ unfold get_env path_variable port_variable in refl
