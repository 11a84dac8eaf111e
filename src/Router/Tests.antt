-- ===== src/Router/Tests.antt =====
-- The router's theorems on two routes.
use hiaux.Base.{ℕ, zero, suc, ◌≤◌, ◌<◌, ◌≡◌, refl, [], ◌∷◌, none, codes, take, arith}
use hiaux.Base.Dict.{Dict, lookup, put}
use hiaux.Router.{RouteInfo, call, add_header, add_route, handle, handle_longest, handle_unmatched}

abbrev routes : Dict RouteInfo
routes = add_route (add_route [] (codes "/") 1 []) (codes "/a") 2 (codes "X: y" ∷ [])

no_longer : (j : ℕ) → 2 < j → j ≤ 4 → lookup (take j (codes "/abc")) routes ≡ none
unfolding lookup add_route put
no_longer zero l h = absurd (omega arith)
no_longer (suc zero) l h = absurd (omega arith)
no_longer (suc (suc zero)) l h = absurd (omega arith)
no_longer (suc (suc (suc zero))) l h = refl
no_longer (suc (suc (suc (suc zero)))) l h = refl
no_longer (suc (suc (suc (suc (suc j))))) l h = absurd (omega arith)

handle_longest_example : handle routes (codes "/abc") ≡ call 2 ∷ add_header (codes "X: y") ∷ []
unfolding lookup add_route put
handle_longest_example =
    handle_longest routes (codes "/abc") 2 (record { handler = 2; headers = codes "X: y" ∷ [] })
      (omega arith) (omega arith) refl no_longer

none_at_all : (j : ℕ) → 0 < j → j ≤ 1 → lookup (take j (codes "b")) routes ≡ none
unfolding lookup add_route put
none_at_all zero l h = absurd (omega arith)
none_at_all (suc zero) l h = refl
none_at_all (suc (suc j)) l h = absurd (omega arith)

handle_unmatched_run : handle routes (codes "b") ≡ []
handle_unmatched_run = handle_unmatched routes (codes "b") none_at_all
