-- ===== src/Api/Tests.antt =====
-- Runs of an API with a free method, a signed one and an asynchronous one.
use hiaux.Base.{
  ℕ, ◌≡◌, ◌↔◌, ◌⊎◌, inr, refl, List, [], ◌∷◌, ◌++◌, true, false, some, Bytes, codes, arith,
}
use hiaux.Base.Dict.{lookup, put}
use mathlib.Core.Option
use hiaux.Api.{
  Params, accepted, Effect, send_response, check_fields, handle_request, merge_post_params,
  set_user_token, add_method, add_method_signed, add_method_signed_async, is_signed, all_set,
}
use hiaux.Api.Access.{IsAllowed, check_fields_iff, check_fields_arguments}
use hiaux.Api.Dispatch.{
  Setup, user, plain, signed_method, async_method, build, IsServedAsync, IsServedSync,
  is_signed-build, handle_request_newest, handle_request_denied, lookup-merge_post_params,
}

-- Stands for the digest.
abbrev digest : Bytes → Bytes
digest raw = b'#' ∷ raw

abbrev run_handler : ℕ → Params → List Effect × Bytes
run_handler h params = ([], Option.get_or (lookup (codes "x") params) (h ∷ []))

abbrev build_error : Bytes → Bytes
build_error message = codes "error: " ++ message

abbrev history : List Setup
history =
    plain (codes "later") (codes "x" ∷ []) 4
    ∷ async_method (codes "later") [] 3 60
    ∷ signed_method (codes "set") (codes "x" ∷ []) 2 60
    ∷ plain (codes "get") [] 1
    ∷ user (codes "u") (codes "key")
    ∷ []

abbrev signed_call : Params
signed_call =
    (codes "method", codes "set")
    ∷ (codes "x", codes "5")
    ∷ (codes "api_userid", codes "u")
    ∷ (codes "ts", codes "9")
    ∷ (codes "sign", codes "#set9key")
    ∷ []

-- The same call with another value of its argument.
abbrev altered_call : Params
altered_call =
    (codes "sign", codes "#set9key")
    ∷ (codes "x", codes "6000")
    ∷ (codes "api_userid", codes "u")
    ∷ (codes "ts", codes "9")
    ∷ (codes "method", codes "set")
    ∷ []

abbrev unsigned_call : Params
unsigned_call = (codes "method", codes "set") ∷ (codes "x", codes "5") ∷ []

signed_call_served :
    handle_request digest run_handler build_error (build history) signed_call false
    ≡ send_response 200 (codes "5") ∷ []
unfolding handle_request check_fields lookup add_method put add_method_signed_async
    add_method_signed set_user_token all_set
signed_call_served = refl

signed_call-IsAllowed : IsAllowed digest (build history) signed_call
unfolding lookup add_method put add_method_signed_async add_method_signed set_user_token
signed_call-IsAllowed = (
  codes "set",
  codes "x" ∷ [],
  refl,
  refl,
  ((codes "5", refl), tt),
  inr (codes "u", codes "9", codes "#set9key", refl, refl, refl, (codes "key", refl, refl)),
)

check_fields_iff_example :
    (check_fields digest (build history) signed_call ≡ accepted)
    ↔ IsAllowed digest (build history) signed_call
check_fields_iff_example = check_fields_iff digest (build history) signed_call

check_fields_arguments_example :
    check_fields digest (build history) signed_call
    ≡ check_fields digest (build history) altered_call
unfolding lookup add_method put add_method_signed_async add_method_signed set_user_token
check_fields_arguments_example =
    check_fields_arguments digest (build history) signed_call altered_call (codes "set")
      (codes "x" ∷ []) refl refl refl ((codes "5", refl), tt) ((codes "6000", refl), tt) refl refl
      refl

is_signed-build_run : is_signed (build history) (codes "later") ≡ true
is_signed-build_run = is_signed-build history (codes "later")

handle_request_newest_example :
    (m : Bytes) × (h : ℕ) × (lookup (codes "method") signed_call ≡ some m)
    × (IsServedAsync digest run_handler build_error history signed_call true m h
        ⊎ IsServedSync digest run_handler build_error history signed_call true m h)
handle_request_newest_example =
    handle_request_newest digest run_handler build_error history signed_call true
      signed_call-IsAllowed

unsigned_call-denied : ¬ IsAllowed digest (build history) unsigned_call
unfolding check_fields lookup add_method put add_method_signed_async add_method_signed
    set_user_token all_set
unsigned_call-denied allowed =
    let e = (check_fields_iff digest (build history) unsigned_call).1 allowed in ground arith

handle_request_denied_example :
    (err : Bytes) × (handle_request digest run_handler build_error
        (build history)
        unsigned_call
        false
      ≡ send_response 200 (build_error err) ∷ [])
handle_request_denied_example =
    handle_request_denied digest run_handler build_error (build history) unsigned_call false
      unsigned_call-denied

lookup-merge_post_params_run :
    lookup (codes "x") (merge_post_params signed_call ((codes "x", codes "7") ∷ []))
    ≡ some (codes "7")
unfolding Option.or_else
lookup-merge_post_params_run =
    lookup-merge_post_params (codes "x") signed_call ((codes "x", codes "7") ∷ [])
