-- ===== src/Client/Flags.antt =====
-- client/scheduler/flags.go: the flags of `scalemate jobs create` and the job that they describe.
-- `strings.Split`, `strings.Index` and `strconv.Atoi` are written out for the uses here.
use Prim.Native.String.{String, [] as empty, ◌∷◌ as ◌∷ₛ◌, ◌++◌}
use Prim.Native.Char.{Char, code}
use scalemate.Prelude.{
  ℕ, ◌+◌, ◌-◌, ◌*◌, ◌^◌, ◌&&◌, List, [], ◌∷◌, Option, none, some, ltb, leb, ◌==◌, if◌then◌else◌,
  u32, same_text,
}
use scalemate.World.{fundamental, Result, ok, err}

-- A character before the first part.
abbrev pub prepend : Char → List String → List String
prepend c [] = (c ∷ₛ empty) ∷ []
prepend c (part ∷ parts) = (c ∷ₛ part) ∷ parts

-- `strings.Split` at a character, by its number.
unfoldable pub split : ℕ → String → List String
split sep empty = empty ∷ []
split sep (c ∷ₛ s) =
    let rest = split sep s in if code c == sep then empty ∷ rest else prepend c rest

abbrev pub prepend_first : Char → Option (String × String) → Option (String × String)
prepend_first c none = none
prepend_first c (some (before, after)) = some (c ∷ₛ before, after)

-- What stands before and after the first such character, if there is one.
unfoldable pub cut : ℕ → String → Option (String × String)
cut sep empty = none
cut sep (c ∷ₛ s) =
    let rest = cut sep s in if code c == sep then some (empty, s) else prepend_first c rest

-- The number of decimal digits, after the number `n`.
unfoldable pub digits : ℕ → String → Option ℕ
digits n empty = some n
digits n (c ∷ₛ s) =
    let rest = digits (n * 10 + (code c - 48)) s in
    if leb 48 (code c) && leb (code c) 57 then rest else none

abbrev pub in_range : Option ℕ → Option ℕ
in_range none = none
in_range (some n) = if ltb 0 n && ltb n (2 ^ 63) then some n else none

-- `strconv.Atoi` where only a positive number is accepted: a sign `+` may stand before the digits, and
-- a number beyond int64 is an error. The bare sign has the number 0 here, which is not accepted either.
unfoldable pub atoi_positive : String → Option ℕ
atoi_positive empty = none
atoi_positive (c ∷ₛ s) = in_range (digits 0 (if code c == 43 then s else c ∷ₛ s))

-- The Go maps: a key that is set again has its new value.
unfoldable pub set_text : String → String → List (String × String) → List (String × String)
set_text key value [] = (key, value) ∷ []
set_text key value ((k, v) ∷ entries) =
    let rest = set_text key value entries in
    if same_text k key then (k, value) ∷ entries else (k, v) ∷ rest

unfoldable pub set_number : ℕ → ℕ → List (ℕ × ℕ) → List (ℕ × ℕ)
set_number key value [] = (key, value) ∷ []
set_number key value ((k, v) ∷ entries) =
    let rest = set_number key value entries in
    if k == key then (k, value) ∷ entries else (k, v) ∷ rest

-- The parts of a definition with one colon.
abbrev pub two_parts : List String → Option (String × String)
two_parts (a ∷ b ∷ []) = some (a, b)
two_parts _ = none

-- `parsePathDefs`
unfoldable pub parse_path_defs :
    List (String × String) → List String → Result (List (String × String))
parse_path_defs to [] = ok to
parse_path_defs to (path_def ∷ paths) = elim (two_parts (split 58 path_def)) [
  | none ↦ err (fundamental ("invalid path format: " ++ path_def))
  | some (a, b) ↦ parse_path_defs (set_text a b to) paths
]

-- One definition of the flag for ports: the two numbers as uint32.
unfoldable pub parse_port : String → Result (ℕ × ℕ)
parse_port port_def = elim (two_parts (split 58 port_def)) [
  | none ↦ err (fundamental ("invalid port format: " ++ port_def))
  | some (a, b) ↦ elim (atoi_positive a) [
    | none ↦ err (fundamental ("invalid local port format: " ++ a))
    | some local ↦ elim (atoi_positive b) [
      | none ↦ err (fundamental ("invalid remote port format: " ++ b))
      | some remote ↦ ok (u32 local, u32 remote)
    ]
  ]
]

-- The loop over the flag for ports.
unfoldable pub parse_ports : List (ℕ × ℕ) → List String → Result (List (ℕ × ℕ))
parse_ports to [] = ok to
parse_ports to (port_def ∷ ports) = elim (parse_port port_def) [
  | err e ↦ err e
  | ok (local, remote) ↦ parse_ports (set_number local remote to) ports
]

-- The loop over the environment variables.
unfoldable pub parse_env_vars :
    List (String × String) → List String → Result (List (String × String))
parse_env_vars to [] = ok to
parse_env_vars to (env_var_def ∷ env_vars) = elim (cut 61 env_var_def) [
  | none ↦ err (fundamental ("invalid env variable format: " ++ env_var_def))
  | some (empty, value) ↦ err (fundamental ("invalid env variable format: " ++ env_var_def))
  | some (c ∷ₛ name, value) ↦ parse_env_vars (set_text (c ∷ₛ name) value to) env_vars
]
