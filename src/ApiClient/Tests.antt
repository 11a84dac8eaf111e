-- ===== src/ApiClient/Tests.antt =====
-- A signed call of one method.
use hiaux.Base.{◌≡◌, refl, List, [], ◌∷◌, true, some, Bytes, codes}
use mathlib.Core.Option
use hiaux.Text.Decimal.{print_u64}
use hiaux.Strings.Numbers.{uint64_to_string}
use hiaux.Api.{Api, empty_api, add_method_signed, set_user_token}
use hiaux.ApiClient.{
  HttpApiClient, signing_client, build_post_request_url_signed, build_request_url_signed,
  with_params, add_params,
}

abbrev same : Bytes → Bytes
same s = s

-- Stands for the digest.
abbrev digest : Bytes → Bytes
digest raw = b'a' ∷ raw

abbrev server : Api
server =
    set_user_token (add_method_signed empty_api (codes "set") (codes "x" ∷ []) 7 15) (codes "u")
      (codes "key")

abbrev client : HttpApiClient
client = record {
  url = codes "/api";
  api_userid = codes "u";
  api_key = codes "key";
  is_auth_info_set = true;
}

client-new : signing_client (codes "/api") (codes "u") (codes "key") ≡ client
unfolding signing_client
client-new = refl

abbrev form : List (Bytes × Bytes)
form = (codes "x", codes "5") ∷ []

signed_url :
    build_request_url_signed digest client (codes "set") form 9
    ≡ some (codes "/api?method=set&api_userid=u&ts=9&sign=aset9key&x=5")
unfolding build_request_url_signed build_post_request_url_signed with_params add_params
    uint64_to_string print_u64
signed_url = refl
