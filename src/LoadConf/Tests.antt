-- ===== src/LoadConf/Tests.antt =====
-- The expansion of a text with one variable.
use hiaux.Base.{◌≡◌, refl, [], ◌∷◌, Option, some, Bytes, codes, arith}
use hiaux.Text.Find.{find, find-Lacks}
use hiaux.LoadConf.{replaced, replace_env_params}
use hiaux.LoadConf.Templates.{Part, IsPart, replace_env_params-print}

abbrev home : Bytes → Option Bytes
home name = some (codes "/root")

abbrev path : Part
path = record { literal = codes "{\"p\": \""; var = codes "HOME"; value = codes "/root" }

path-IsPart : IsPart home path
unfolding find
path-IsPart = record {
  no_dollar = find-Lacks b'$' (codes "{\"p\": \"") refl;
  no_brace = find-Lacks b'}' (codes "HOME") refl;
  is_set = refl;
  small = omega arith;
}

replace_env_params-print_example :
    replace_env_params home (codes "{\"p\": \"${HOME}/x\"}")
    ≡ replaced (codes "{\"p\": \"/root/x\"")
unfolding find
replace_env_params-print_example =
    replace_env_params-print home (path ∷ []) (codes "/x\"") b'}' (path-IsPart, tt)
      (find-Lacks b'$' (codes "/x\"}") refl)
