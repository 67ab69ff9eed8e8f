-- ===== src/Process/Environment.antt =====
-- The environment that fiveman_process_state_start gives to a process.
pub mod Vector
use fiveman.Common.{
  ℕ, zero, suc, ◌+◌, ◌-◌, ◌<◌, Bool, true, false, ◌&&◌, Option, none, some, List, [], ◌∷◌, ◌++◌,
  ◌≡◌, refl, ap, arith, ◌∙◌, ◌==◌, if◌then◌else◌, length, take, set, get_elem?, length-append,
}
use fiveman.Common.Int.{ℤ}
use fiveman.Common.Text.{Text, codes, starts_with, show_int}

-- The value of the first variable of that name.
abbrev value_after : Text → Text → Option Text
value_after [] (c ∷ cs) = if c == b'=' then some cs else none
value_after (x ∷ xs) (c ∷ cs) = let rest = value_after xs cs in if x == c then rest else none
value_after name [] = none

abbrev pub or_else : Option Text → Option Text → Option Text
or_else none d = d
or_else (some v) d = some v

unfoldable pub get_env : Text → List Text → Option Text
get_env name [] = none
get_env name (v ∷ vs) = or_else (value_after name v) (get_env name vs)

unfoldable pub path_variable : Text → Text → Text
path_variable directory path = codes "PATH=" ++ (directory ++ (codes ":" ++ path))

unfoldable pub port_variable : ℤ → Text
port_variable port = codes "PORT=" ++ show_int port

-- `for (i = 0; c != NULL; c = environ[i++]) esize = i;` with `c` the variable looked at.
unfoldable pub env_size : ℕ → List Text → Option Text → ℕ → ℕ → ℕ
env_size zero environ c i esize = esize
env_size (suc rounds) environ none i esize = esize
env_size (suc rounds) environ (some v) i esize =
    env_size rounds environ (get_elem? environ i) (i + 1) i

-- The vector after `memcpy` and the two writes, up to its NULL.
unfoldable pub new_environment : List Text → Text → Text → List Text
unfolding env_size
new_environment environ path_var port_var =
    let esize = env_size (length environ + 2) environ (get_elem? environ 0) 0 0 in
    set (take esize environ) (esize - 1) path_var ++ port_var ∷ []
