-- ===== src/ApiClient.antt =====
-- network/HttpApi/HttpApiClient.cpp: the URLs of `HttpApiClient`, signed or not.
pub mod Signing
mod Tests
use hiaux.Base.{
  ℕ, List, [], ◌∷◌, ◌++◌, Bool, true, false, Option, none, some, Bytes, codes, if◌then◌else◌,
}
use hiaux.Strings.Numbers.{uint64_to_string}

pub record HttpApiClient : Type 0 where
  pub url : Bytes
  pub api_userid : Bytes
  pub api_key : Bytes
  pub is_auth_info_set : Bool

-- The two constructors.
unfoldable pub signing_client : Bytes → Bytes → Bytes → HttpApiClient
signing_client url userid key = record {
  url = url;
  api_userid = userid;
  api_key = key;
  is_auth_info_set = true;
}

unfoldable pub plain_client : Bytes → HttpApiClient
plain_client url = record { url = url; api_userid = []; api_key = []; is_auth_info_set = false }

-- The loop over the parameters, in the order of the table.
unfoldable pub add_params : Bytes → List (Bytes × Bytes) → Bytes
add_params requrl [] = requrl
add_params requrl ((field, value) ∷ params) =
    add_params (requrl ++ (codes "&" ++ (field ++ (codes "=" ++ value)))) params

-- `sha1_hex` is crypt/sha1.cpp; the last argument of each is the time.
module _ (sha1_hex : Bytes → Bytes) where
  -- `none` where it throws.
  unfoldable pub build_post_request_url_signed : HttpApiClient → Bytes → ℕ → Option Bytes
  build_post_request_url_signed c method now =
      let ts = uint64_to_string now in
      if c.is_auth_info_set
      then some (
          c.url
          ++ (codes "?method="
              ++ (method
                  ++ (codes "&api_userid="
                      ++ (c.api_userid
                          ++ (codes "&ts="
                              ++ (ts
                                  ++ (codes "&sign="
                                      ++ sha1_hex (method ++ (ts ++ c.api_key))))))))))
      else none

  unfoldable pub with_params : Option Bytes → List (Bytes × Bytes) → Option Bytes
  with_params none params = none
  with_params (some requrl) params = some (add_params requrl params)

  unfoldable pub build_request_url_signed :
      HttpApiClient → Bytes → List (Bytes × Bytes) → ℕ → Option Bytes
  build_request_url_signed c method params now =
      with_params (build_post_request_url_signed c method now) params

unfoldable pub build_request_url : HttpApiClient → Bytes → List (Bytes × Bytes) → Bytes
build_request_url c method params =
    add_params (c.url ++ (codes "?method=" ++ (method ++ (codes "&api_userid=" ++ c.api_userid))))
      params
