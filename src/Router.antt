-- ===== src/Router.antt =====
-- network/HttpServer/HttpRouter.h and HttpRouter.impl: `hiaux::HttpRouter`, the handlers of paths.
-- A handler is a number.
mod Tests
use hiaux.Base.{
  ℕ, zero, suc, ◌≤◌, ◌<◌, ◌≡◌, ◌⊎◌, inl, inr, refl, ap, sym, ◌∙◌, List, [], ◌∷◌, ◌++◌, Option, none,
  some, Bytes, length, take, arith, map,
}
use hiaux.Base.Dict.{Dict, lookup, put}
use mathlib.Core.Path.{subst}
use native.Mathlib.Decide.{dec_lt}

pub record RouteInfo : Type 0 where
  pub handler : ℕ
  pub headers : List Bytes

-- What `handle` does to the connection: the call of a handler, and `addHeader`.
pub data Effect : Type 0 where
  call : ℕ → Effect
  add_header : Bytes → Effect

unfoldable pub add_route : Dict RouteInfo → Bytes → ℕ → List Bytes → Dict RouteInfo
add_route routes path handler headers =
    put path (record { handler = handler; headers = headers }) routes

unfoldable pub serve : RouteInfo → List Effect
serve info = call info.handler ∷ map add_header info.headers

unfoldable pub serve_found : Option RouteInfo → List Effect → List Effect
serve_found none rest = rest
serve_found (some info) rest = serve info

-- The loop over the path's prefixes, the longest first; the empty one is not tried.
unfoldable pub serve_prefix : Dict RouteInfo → Bytes → ℕ → List Effect
serve_prefix routes path zero = []
serve_prefix routes path (suc i) =
    serve_found (lookup (take (suc i) path) routes) (serve_prefix routes path i)

unfoldable pub handle : Dict RouteInfo → Bytes → List Effect
handle routes path = serve_prefix routes path (length path)

serve_prefix-longest :
    (routes : Dict RouteInfo) (path : Bytes) (i : ℕ) (info : RouteInfo) (n : ℕ)
    → 0 < i
    → i ≤ n
    → lookup (take i path) routes ≡ some info
    → ((j : ℕ) → i < j → j ≤ n → lookup (take j path) routes ≡ none)
    → serve_prefix routes path n ≡ serve info
unfolding serve_prefix serve_found
serve_prefix-longest routes path i info zero p h e f = absurd (omega arith)
serve_prefix-longest routes path i info (suc n) p h e f = elim (dec_lt i (suc n)) [
  | yes l ↦
      rw (f (suc n) l (omega arith))
        (serve_prefix-longest routes path i info n p (omega arith) e (λ j a b. f j a (omega arith)))
  | no l ↦
      let found : lookup (take (suc n) path) routes ≡ some info =
        ap (λ j. lookup (take j path) routes) (omega arith) ∙ e in
      ap (λ o. serve_found o (serve_prefix routes path n)) found
]

serve_prefix-none :
    (routes : Dict RouteInfo) (path : Bytes) (n : ℕ)
    → ((j : ℕ) → 0 < j → j ≤ n → lookup (take j path) routes ≡ none)
    → serve_prefix routes path n ≡ []
unfolding serve_prefix serve_found
serve_prefix-none routes path zero f = refl
serve_prefix-none routes path (suc n) f =
    subst (λ o. serve_found o (serve_prefix routes path n) ≡ [])
      (sym (f (suc n) (omega arith) (omega arith)))
      (serve_prefix-none routes path n (λ j a b. f j a (omega arith)))

-- If a non-empty prefix of the path is a route and no longer prefix is one, the request is given
-- to that route's handler, and then the route's headers are added, in order.
pub handle_longest :
    (routes : Dict RouteInfo) (path : Bytes) (i : ℕ) (info : RouteInfo)
    → 0 < i
    → i ≤ length path
    → lookup (take i path) routes ≡ some info
    → ((j : ℕ) → i < j → j ≤ length path → lookup (take j path) routes ≡ none)
    → handle routes path ≡ call info.handler ∷ map add_header info.headers
unfolding handle serve
handle_longest routes path i info p h e f =
    serve_prefix-longest routes path i info (length path) p h e f

-- If no non-empty prefix of the path is a route, nothing is done, and so the request stays without
-- a response.
pub handle_unmatched :
    (routes : Dict RouteInfo) (path : Bytes)
    → ((j : ℕ) → 0 < j → j ≤ length path → lookup (take j path) routes ≡ none)
    → handle routes path ≡ []
unfolding handle
handle_unmatched routes path f = serve_prefix-none routes path (length path) f
