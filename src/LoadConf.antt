-- ===== src/LoadConf.antt =====
-- loadconf/loadconf.cpp: `LoadConf`, the environment variables of a configuration's text and the
-- parameters that are taken out of it.
pub mod Templates
mod Tests
use hiaux.Base.{
  ℕ, zero, suc, ◌+◌, ◌-◌, ◌%◌, ◌^◌, List, [], ◌∷◌, ◌++◌, Bool, true, false, Option, none, some,
  Bytes, length, take, drop, ltb, if◌then◌else◌,
}
use hiaux.Base.Dict.{Dict, put}
use hiaux.Text.Find.{find}

-- `not_closed` and `not_set` are the two strings thrown, `out_of_range` that of `substr`.
pub data Outcome : Type 0 where
  replaced : Bytes → Outcome
  not_closed : Outcome
  not_set : Bytes → Outcome
  out_of_range : Outcome
  out_of_fuel : Outcome

-- The name of a variable, of the text from its `$` on: `substr(doll_pos + 2, close_pos - doll_pos - 2)`.
unfoldable pub var_at : Bytes → ℕ → Option Bytes
var_at text close =
    if ltb (length text) 2 then none else some (take ((close + 2 ^ 64 - 2) % 2 ^ 64) (drop 2 text))

-- `getenv` is the C library's.
module _ (getenv : Bytes → Option Bytes) where
  unfoldable pub append_value : (Bytes → Outcome) → Option Bytes → Bytes → Bytes → Outcome
  append_value rest none var ret = not_set var
  append_value rest (some value) var ret = rest (ret ++ value)

  unfoldable pub replace_var : (Bytes → Outcome) → Option Bytes → Bytes → Outcome
  replace_var rest none ret = out_of_range
  replace_var rest (some var) ret = append_value rest (getenv var) var ret

  unfoldable pub replace_closed : (Bytes → Bytes → Outcome) → Bytes → Bytes → Option ℕ → Outcome
  replace_closed rest text ret none = not_closed
  replace_closed rest text ret (some close) =
      replace_var (rest (drop (suc close) text)) (var_at text close) ret

  -- Behind the loop: `substr(prev_close, size - prev_close - 1)`, which is empty at the end.
  unfoldable pub replace_found : (Bytes → Bytes → Outcome) → Bytes → Bytes → Option ℕ → Outcome
  replace_found rest text ret none = replaced (ret ++ take (length text - 1) text)
  replace_found rest text ret (some doll) =
      replace_closed rest (drop doll text) (ret ++ take doll text) (find b'}' (drop doll text))

  -- The loop, on the text from `prev_close` on.
  unfoldable pub replace_loop : ℕ → Bytes → Bytes → Outcome
  replace_loop zero text ret = out_of_fuel
  replace_loop (suc fuel) text ret = replace_found (replace_loop fuel) text ret (find b'$' text)

  unfoldable pub replace_env_params : Bytes → Outcome
  replace_env_params text = replace_loop (suc (length text)) text []

-- `string_of` is the JSON value's member, if it is a string.
module _ (string_of : Bytes → Option Bytes) where
  unfoldable pub do_load_required : List Bytes → Dict Bytes → Option (Dict Bytes)
  do_load_required [] params = some params
  do_load_required (name ∷ names) params = elim (string_of name) [
    | none ↦ none
    | some value ↦ do_load_required names (put name value params)
  ]

-- `as_string` is what the JSON library makes of a member that need not be a string.
unfoldable pub do_load_optional : (Bytes → Bytes) → List Bytes → Dict Bytes → Dict Bytes
do_load_optional as_string [] params = params
do_load_optional as_string (name ∷ names) params =
    do_load_optional as_string names (put name (as_string name) params)

-- `load` on a parsed file.
unfoldable pub load :
    (Bytes → Option Bytes) → (Bytes → Bytes) → List Bytes → List Bytes → Option (Dict Bytes)
load string_of as_string required optional = elim (do_load_required string_of required []) [
  | none ↦ none
  | some params ↦ some (do_load_optional as_string optional params)
]
