-- ===== src/Api.antt =====
-- network/HttpApi/HttpApi.h and HttpApi.impl: `hiaux::HttpApi`, the methods of an API, who may
-- call them and how a request is dispatched. A handler is a number; what it does is an argument.
pub mod Access
pub mod Dispatch
mod Tests
use hiaux.Base.{
  ℕ, ◌≡◌, List, [], ◌∷◌, ◌++◌, Bool, true, false, ◌&&◌, ◌||◌, not, Option, none, some, Bytes, codes,
  length, bytes_eq, if◌then◌else◌,
}
use hiaux.Base.Dict.{Dict, lookup, put, is_some}
use hiaux.Text.Decimal.{print_u64}
use mathlib.Core.Option

abbrev pub Params : Type 0
Params = Dict Bytes

pub record Api : Type 0 where
  pub methods_args : Dict (List Bytes)
  pub signed : Dict ℕ
  pub async : Dict ℕ
  pub methods_callbacks : Dict ℕ
  pub methods_callbacks_async : Dict ℕ
  pub keys : Dict Bytes

-- What a request makes the server do: `sendResponse`, `sendCustomResponse`, or the call of an
-- asynchronous handler.
pub data Effect : Type 0 where
  send_response : ℕ → Bytes → Effect
  send_custom_response : Bytes → Effect
  call_async : ℕ → Params → Effect

abbrev pub empty_api : Api
empty_api = record {
  methods_args = [];
  signed = [];
  async = [];
  methods_callbacks = [];
  methods_callbacks_async = [];
  keys = [];
}

unfoldable pub set_user_token : Api → Bytes → Bytes → Api
set_user_token a userid token = record a { keys = put userid token a.keys }

unfoldable pub add_method : Api → Bytes → List Bytes → ℕ → Api
add_method a name args_names onreq = record a {
  methods_args = put name args_names a.methods_args;
  methods_callbacks = put name onreq a.methods_callbacks;
}

-- The last argument, the range of `ts`, is not used.
unfoldable pub add_method_signed : Api → Bytes → List Bytes → ℕ → ℕ → Api
add_method_signed a name args_names onreq max_ts_range = record a {
  methods_args = put name args_names a.methods_args;
  methods_callbacks = put name onreq a.methods_callbacks;
  signed = put name 1 a.signed;
}

unfoldable pub add_method_signed_async : Api → Bytes → List Bytes → ℕ → ℕ → Api
add_method_signed_async a name args_names onreq max_ts_range = record a {
  methods_args = put name args_names a.methods_args;
  methods_callbacks_async = put name onreq a.methods_callbacks_async;
  signed = put name 1 a.signed;
  async = put name 1 a.async;
}

unfoldable pub is_signed : Api → Bytes → Bool
is_signed a method = is_some (lookup method a.signed)

unfoldable pub is_async : Api → Bytes → Bool
is_async a method = is_some (lookup method a.async)

-- The loop over the arguments' names.
unfoldable pub all_set : List Bytes → Params → Bool
all_set [] fields = true
all_set (f ∷ fs) fields = elim (is_some (lookup f fields)) [
  | true ↦ all_set fs fields
  | false ↦ false
]

-- The result of `checkFields`: `refused` is `false`, with `_err_mess`.
pub data Verdict : Type 0 where
  accepted : Verdict
  refused : Bytes → Verdict

abbrev pub no_such_method : Effect
no_such_method = send_response 200 (codes "No such method")

unfoldable pub respond : Bool → List Effect × Bytes → List Effect
respond false (effects, resp) = effects ++ send_response 200 resp ∷ []
respond true (effects, resp) =
    effects ++ send_custom_response (print_u64 (length resp) ++ b'\n' ∷ resp) ∷ []

unfoldable pub call_async_handler : Params → Option ℕ → List Effect
call_async_handler params none = no_such_method ∷ []
call_async_handler params (some h) = call_async h params ∷ []

-- `_params["method"]` of a missing key is the empty string.
abbrev method_of : Params → Bytes
method_of params = Option.get_or (lookup (codes "method") params) []

-- `mergePostParams`, on the fields that the body is decoded to.
unfoldable pub merge_post_params : Params → List (Bytes × Bytes) → Params
merge_post_params params [] = params
merge_post_params params ((field, value) ∷ fields) =
    merge_post_params (put field value params) fields

-- `sha1_hex` is crypt/sha1.cpp: `sha1::calc` and `sha1::toHexString`.
module _ (sha1_hex : Bytes → Bytes) where
  unfoldable pub check_key : Bytes → Bytes → Bytes → Option Bytes → Verdict
  check_key method ts sign_got none = refused (codes "auth fail")
  check_key method ts sign_got (some key) =
      if bytes_eq sign_got (sha1_hex (method ++ (ts ++ key)))
      then accepted
      else refused (codes "auth fail")

  -- The service fields, as they are found.
  unfoldable pub check_service : Api → Bytes → Option Bytes → Option Bytes → Option Bytes → Verdict
  unfolding check_key
  check_service a method (some api_userid) (some ts) (some sign_got) =
      check_key method ts sign_got (lookup api_userid a.keys)
  check_service a method _ _ _ = refused (codes "not all service fields set (api_userid, ts, sign)")

  unfoldable pub check_signed : Api → Bytes → Params → Verdict
  unfolding check_service
  check_signed a method fields =
      if is_some (lookup method a.signed)
      then check_service a method (lookup (codes "api_userid") fields) (lookup (codes "ts") fields)
          (lookup (codes "sign") fields)
      else accepted

  unfoldable pub check_args : Api → Bytes → Params → Option (List Bytes) → Verdict
  unfolding check_signed
  check_args a method fields none = refused (codes "method not found")
  check_args a method fields (some args_names) =
      if all_set args_names fields
      then check_signed a method fields
      else refused (codes "not all method's params set")

  unfoldable pub check_method : Api → Params → Option Bytes → Verdict
  unfolding check_args
  check_method a fields none = refused (codes "method not set")
  check_method a fields (some method) = check_args a method fields (lookup method a.methods_args)

  unfoldable pub check_fields : Api → Params → Verdict
  unfolding check_method
  check_fields a fields = check_method a fields (lookup (codes "method") fields)

  -- `run_handler` is a synchronous handler: what it does to the connection, and its response.
  -- `build_error` is `m_buildApiError`.
  module _ (run_handler : ℕ → Params → List Effect × Bytes) (build_error : Bytes → Bytes) where
    unfoldable pub call_handler : Bool → Params → Option ℕ → List Effect
    unfolding respond
    call_handler bin params none = no_such_method ∷ []
    call_handler bin params (some h) = respond bin (run_handler h params)

    unfoldable pub dispatch : Api → Params → Bool → Bytes → List Effect
    unfolding call_handler call_async_handler is_async
    dispatch a params bin method =
        if is_async a method
        then call_async_handler params (lookup method a.methods_callbacks_async)
        else call_handler bin params (lookup method a.methods_callbacks)

    unfoldable pub after_check : Api → Params → Bool → Verdict → List Effect
    unfolding dispatch
    after_check a params bin (refused err_mess) = send_response 200 (build_error err_mess) ∷ []
    after_check a params bin accepted = dispatch a params bin (method_of params)

    unfoldable pub handle_request : Api → Params → Bool → List Effect
    unfolding after_check
    handle_request a params bin = after_check a params bin (check_fields a params)

    -- The custom request, where the cast succeeds: its method and its parameters.
    unfoldable pub handle_binary : Api → Option (Bytes × Params) → List Effect
    handle_binary a none = []
    handle_binary a (some (method, params)) =
        handle_request a (put (codes "method") method params) true

    -- `post_fields` is `base64_decode` and the protobuf's fields.
    unfoldable pub handle : (Bytes → List (Bytes × Bytes)) → Api → Params → Bytes → List Effect
    handle post_fields a values_get body =
        handle_request a (merge_post_params values_get (post_fields body)) false
