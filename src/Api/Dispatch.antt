-- ===== src/Api/Dispatch.antt =====
-- `handleRequest` of network/HttpApi/HttpApi.impl on the methods that were registered.
use hiaux.Base.{
  ℕ, ◌≡◌, ◌⊎◌, inl, inr, refl, List, [], ◌∷◌, Bool, false, ◌||◌, Option, none, some, Bytes, codes,
  bytes_eq, if◌then◌else◌, arith, Option-cases,
}
use hiaux.Base.Dict.{lookup, put, is_some, lookup-put}
use mathlib.Core.Option
use hiaux.Api.{
  Api, Params, Verdict, accepted, refused, Effect, send_response, call_async, empty_api,
  set_user_token, add_method, add_method_signed, add_method_signed_async, is_signed, is_async,
  check_fields, respond, call_handler, call_async_handler, dispatch, after_check, handle_request,
  merge_post_params,
}
use hiaux.Api.Access.{IsAllowed, check_fields_iff}

-- A call of one of the functions that set an API up.
pub data Setup : Type 0 where
  user : Bytes → Bytes → Setup
  plain : Bytes → List Bytes → ℕ → Setup
  signed_method : Bytes → List Bytes → ℕ → ℕ → Setup
  async_method : Bytes → List Bytes → ℕ → ℕ → Setup

abbrev pub set_up : Setup → Api → Api
set_up (user u t) a = set_user_token a u t
set_up (plain n args h) a = add_method a n args h
set_up (signed_method n args h r) a = add_method_signed a n args h r
set_up (async_method n args h r) a = add_method_signed_async a n args h r

-- The API that a history of calls leaves, the newest call first.
abbrev pub build : List Setup → Api
build [] = empty_api
build (s ∷ ss) = set_up s (build ss)

-- The newest synchronous handler of a method, and its newest asynchronous one.
abbrev pub newest_sync : List Setup → Bytes → Option ℕ
newest_sync [] m = none
newest_sync (user u t ∷ ss) m = newest_sync ss m
newest_sync (plain n args h ∷ ss) m = if bytes_eq n m then some h else newest_sync ss m
newest_sync (signed_method n args h r ∷ ss) m = if bytes_eq n m then some h else newest_sync ss m
newest_sync (async_method n args h r ∷ ss) m = newest_sync ss m

abbrev pub newest_async : List Setup → Bytes → Option ℕ
newest_async [] m = none
newest_async (async_method n args h r ∷ ss) m = if bytes_eq n m then some h else newest_async ss m
newest_async (user u t ∷ ss) m = newest_async ss m
newest_async (plain n args h ∷ ss) m = newest_async ss m
newest_async (signed_method n args h r ∷ ss) m = newest_async ss m

-- Some call has registered the method to be signed.
abbrev pub ever_signed : List Setup → Bytes → Bool
ever_signed [] m = false
ever_signed (user u t ∷ ss) m = ever_signed ss m
ever_signed (plain n args h ∷ ss) m = ever_signed ss m
ever_signed (signed_method n args h r ∷ ss) m = bytes_eq n m || ever_signed ss m
ever_signed (async_method n args h r ∷ ss) m = bytes_eq n m || ever_signed ss m

sync-build :
    (ss : List Setup) (m : Bytes) → lookup m (build ss).methods_callbacks ≡ newest_sync ss m
unfolding add_method add_method_signed add_method_signed_async set_user_token lookup
sync-build [] m = refl
sync-build (user u t ∷ ss) m = sync-build ss m
sync-build (plain n args h ∷ ss) m =
    ground (arith, lookup-put n m h (build ss).methods_callbacks, sync-build ss m)
sync-build (signed_method n args h r ∷ ss) m =
    ground (arith, lookup-put n m h (build ss).methods_callbacks, sync-build ss m)
sync-build (async_method n args h r ∷ ss) m = sync-build ss m

async-build :
    (ss : List Setup) (m : Bytes) → lookup m (build ss).methods_callbacks_async ≡ newest_async ss m
unfolding add_method add_method_signed add_method_signed_async set_user_token lookup
async-build [] m = refl
async-build (user u t ∷ ss) m = async-build ss m
async-build (plain n args h ∷ ss) m = async-build ss m
async-build (signed_method n args h r ∷ ss) m = async-build ss m
async-build (async_method n args h r ∷ ss) m =
    ground (arith, lookup-put n m h (build ss).methods_callbacks_async, async-build ss m)

-- A method is signed if and only if some call registered it so: `addMethod` never takes it back.
pub is_signed-build : (ss : List Setup) (m : Bytes) → is_signed (build ss) m ≡ ever_signed ss m
unfolding is_signed add_method add_method_signed add_method_signed_async set_user_token lookup
is_signed-build [] m = refl
is_signed-build (user u t ∷ ss) m = is_signed-build ss m
is_signed-build (plain n args h ∷ ss) m = is_signed-build ss m
is_signed-build (signed_method n args h r ∷ ss) m =
    ground (arith, lookup-put n m 1 (build ss).signed, is_signed-build ss m)
is_signed-build (async_method n args h r ∷ ss) m =
    ground (arith, lookup-put n m 1 (build ss).signed, is_signed-build ss m)

is_async-build : (ss : List Setup) (m : Bytes) → is_async (build ss) m ≡ is_some (newest_async ss m)
unfolding is_async add_method add_method_signed add_method_signed_async set_user_token lookup
is_async-build [] m = refl
is_async-build (user u t ∷ ss) m = is_async-build ss m
is_async-build (plain n args h ∷ ss) m = is_async-build ss m
is_async-build (signed_method n args h r ∷ ss) m = is_async-build ss m
is_async-build (async_method n args h r ∷ ss) m =
    ground (arith, lookup-put n m 1 (build ss).async, is_async-build ss m)

args-build :
    (ss : List Setup) (m : Bytes)
    → is_some (lookup m (build ss).methods_args)
      ≡ (is_some (newest_async ss m) || is_some (newest_sync ss m))
unfolding add_method add_method_signed add_method_signed_async set_user_token lookup
args-build [] m = refl
args-build (user u t ∷ ss) m = args-build ss m
args-build (plain n args h ∷ ss) m =
    ground (arith, lookup-put n m args (build ss).methods_args, args-build ss m)
args-build (signed_method n args h r ∷ ss) m =
    ground (arith, lookup-put n m args (build ss).methods_args, args-build ss m)
args-build (async_method n args h r ∷ ss) m =
    ground (arith, lookup-put n m args (build ss).methods_args, args-build ss m)

module _ (sha1_hex : Bytes → Bytes) (run_handler : ℕ → Params → List Effect × Bytes)
    (build_error : Bytes → Bytes) where
  -- The request is given to the asynchronous handler.
  abbrev pub IsServedAsync : List Setup → Params → Bool → Bytes → ℕ → Type 0
  IsServedAsync ss params bin m h =
      (newest_async ss m ≡ some h)
      × (handle_request sha1_hex run_handler build_error (build ss) params bin
          ≡ call_async h params ∷ [])

  -- It is answered with what the synchronous handler made.
  abbrev pub IsServedSync : List Setup → Params → Bool → Bytes → ℕ → Type 0
  IsServedSync ss params bin m h =
      (newest_async ss m ≡ none)
      × (newest_sync ss m ≡ some h)
      × (handle_request sha1_hex run_handler build_error (build ss) params bin
          ≡ respond bin (run_handler h params))

  dispatch_newest :
      (ss : List Setup) (params : Params) (bin : Bool) (m : Bytes) (args : List Bytes)
      → lookup m (build ss).methods_args ≡ some args
      → (h : ℕ) × (((newest_async ss m ≡ some h)
            × (dispatch sha1_hex run_handler build_error (build ss) params bin m
                ≡ call_async h params ∷ []))
          ⊎ ((newest_async ss m ≡ none)
              × (newest_sync ss m ≡ some h)
              × (dispatch sha1_hex run_handler build_error (build ss) params bin m
                  ≡ respond bin (run_handler h params))))
  unfolding dispatch call_handler call_async_handler
  dispatch_newest ss params bin m args known = elim (Option-cases (newest_async ss m)) [
    | inr (h, e) ↦ (h, inl (e, rw (is_async-build ss m, async-build ss m, e) refl))
    | inl e ↦ elim (Option-cases (newest_sync ss m)) [
      | inr (h, k) ↦ (h, inr (e, k, rw (is_async-build ss m, sync-build ss m, e, k) refl))
      | inl k ↦ ground (arith, args-build ss m)
    ]
  ]

  -- A request that is allowed reaches exactly one handler, the newest asynchronous one of its method
  -- if one was ever registered and otherwise the newest synchronous one, whose response is sent.
  pub handle_request_newest :
      (ss : List Setup) (params : Params) (bin : Bool)
      → IsAllowed sha1_hex (build ss) params
      → (m : Bytes) × (h : ℕ) × (lookup (codes "method") params ≡ some m)
        × (IsServedAsync ss params bin m h ⊎ IsServedSync ss params bin m h)
  unfolding handle_request after_check
  handle_request_newest ss params bin allowed =
      let (m, args, e, known, given, signed) = allowed in
      let (h, d) = dispatch_newest ss params bin m args known in
      (m, h, e, rw ((check_fields_iff sha1_hex (build ss) params).1 allowed, e) d)

  -- A request that is not allowed reaches no handler: the answer is an error and nothing else.
  pub handle_request_denied :
      (a : Api) (params : Params) (bin : Bool)
      → ¬ IsAllowed sha1_hex a params
      → (err : Bytes) × (handle_request sha1_hex run_handler build_error a params bin
          ≡ send_response 200 (build_error err) ∷ [])
  unfolding handle_request after_check
  handle_request_denied a params bin denied = go (check_fields sha1_hex a params) refl
    where
      go :
          (v : Verdict)
          → check_fields sha1_hex a params ≡ v
          → (err : Bytes) × (after_check sha1_hex run_handler build_error a params bin v
              ≡ send_response 200 (build_error err) ∷ [])
      go accepted e = absurd (denied ((check_fields_iff sha1_hex a params).0 e))
      go (refused err) e = (err, refl)

-- The value that a form gives a field: the last one.
abbrev pub last_field : Bytes → List (Bytes × Bytes) → Option Bytes
last_field k [] = none
last_field k ((field, value) ∷ fields) =
    Option.or_else (last_field k fields) (if bytes_eq field k then some value else none)

-- A parameter of a POST request is the last field of its name in the body, or else the value in the
-- query.
pub lookup-merge_post_params :
    (k : Bytes) (params : Params) (fields : List (Bytes × Bytes))
    → lookup k (merge_post_params params fields)
      ≡ Option.or_else (last_field k fields) (lookup k params)
unfolding merge_post_params Option.or_else
lookup-merge_post_params k params [] = refl
lookup-merge_post_params k params ((f, v) ∷ fields) =
    ground (arith, lookup-merge_post_params k (put f v params) fields, lookup-put f k v params)
