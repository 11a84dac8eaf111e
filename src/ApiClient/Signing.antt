-- ===== src/ApiClient/Signing.antt =====
-- A call that `HttpApiClient` signs, at the `HttpApi` of the server.
use hiaux.Base.{◌≡◌, List, [], none, Bytes, codes}
use hiaux.Base.Dict.{put}
use mathlib.Core.Option
use hiaux.Text.Find.{Lacks, find, find-Lacks}
use hiaux.Strings.Query.Fields.{IsPlain}
use hiaux.Api.{Api, Params}
use hiaux.Api.Dispatch.{last_field}

-- The text stands for itself in a query: it has no separator and no escape.
abbrev pub IsText : Bytes → Type 0
IsText s = IsPlain s × Lacks b'%' s

pub plain : (s : Bytes) → find b'?' s ≡ none → find b'=' s ≡ none → find b'&' s ≡ none → IsPlain s
plain s a b c = (find-Lacks b'?' s a, find-Lacks b'=' s b, find-Lacks b'&' s c)

-- The fields of a form leave the service fields alone.
pub record IsForm (fields : List (Bytes × Bytes)) : Type 0 where
  pub no_method : last_field (codes "method") fields ≡ none
  pub no_userid : last_field (codes "api_userid") fields ≡ none
  pub no_ts : last_field (codes "ts") fields ≡ none
  pub no_sign : last_field (codes "sign") fields ≡ none

-- The parameters that a signed URL stands for.
abbrev pub service : Bytes → Bytes → Bytes → Bytes → Params
service method userid ts sign =
    put (codes "sign") sign
      (put (codes "ts") ts (put (codes "api_userid") userid (put (codes "method") method [])))

-- `unescape` is libcurl's, and `sha1_hex` crypt/sha1.cpp.
module _ (unescape sha1_hex : Bytes → Bytes) where
  -- A text without escapes is left as it is.
  abbrev pub KeepsText : Type 0
  KeepsText = (s : Bytes) → Lacks b'%' s → unescape s ≡ s
