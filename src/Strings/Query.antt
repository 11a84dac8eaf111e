-- ===== src/Strings/Query.antt =====
-- `parseGET` in strings/string_utils.cpp: the parameters of a URL.
pub mod Fields
pub mod Printing
use hiaux.Base.{
  ℕ, zero, suc, ◌+◌, ◌-◌, ◌≡◌, ◌≢◌, refl, ap, sym, ◌∙◌, List, [], ◌∷◌, ◌++◌, Bool, true, false,
  Bytes, length, take, drop, ◌==◌, if◌then◌else◌, arith, All, All-append, length-append,
  take-append, drop-append, append_assoc, append-nil, take-length, take-zero,
}
use hiaux.Base.Dict.{Dict, put}
use hiaux.Text.Find.{Lacks}
use hiaux.Strings.Escape.{c_string}

-- `URL_PARSER_STATE`
pub data State : Type 0 where
  outside : State
  key : State
  value : State

-- The locals of the loop: `state`, `sbeg`, `key`, `value` and the map to fill.
pub record Loop : Type 0 where
  pub state : State
  pub sbeg : ℕ
  pub key : Bytes
  pub value : Bytes
  pub values_get : Dict Bytes

abbrev pub substr : Bytes → ℕ → ℕ → Bytes
substr s pos n = take n (drop pos s)

-- Where a field starts behind the character at `i`.
unfoldable pub next_sbeg : Bytes → ℕ → ℕ
next_sbeg rest i = elim rest [ [] ↦ i | x ∷ xs ↦ i + 1 ]

unfoldable pub start : Dict Bytes → Loop
start values_get = record {
  state = outside;
  sbeg = 0;
  key = [];
  value = [];
  values_get = values_get;
}

-- `unescapeUrl`: libcurl's decoding up to its first NUL. libcurl gives NULL only for want of memory,
-- which is not modelled.
unfoldable pub unescape_url : (Bytes → Bytes) → Bytes → Bytes
unescape_url curl_unescape s = c_string (curl_unescape s)

-- `unescape` is what is done to a value twice; the server gives `unescape_url`.
module _ (unescape : Bytes → Bytes) where
  unfoldable pub query_step : Bytes → Loop → ℕ → ℕ → Bytes → Loop
  query_step data_ l c i rest =
      if c == b'?'
      then record l { state = key; sbeg = next_sbeg rest i }
      else if c == b'='
      then record l {
        state = value;
        key = substr data_ l.sbeg (i - l.sbeg);
        sbeg = next_sbeg rest i;
      }
      else if c == b'&'
      then record l {
        state = key;
        value = substr data_ l.sbeg (i - l.sbeg);
        values_get =
            put l.key (unescape (unescape (substr data_ l.sbeg (i - l.sbeg)))) l.values_get;
        sbeg = next_sbeg rest i;
      }
      else l

  -- The loop from the character at `i` on; the list is what is left from there.
  unfoldable pub query_loop : Bytes → Loop → ℕ → Bytes → Loop
  query_loop data_ l i [] = l
  query_loop data_ l i (c ∷ rest) = query_loop data_ (query_step data_ l c i rest) (i + 1) rest

  -- Behind the loop: the last field.
  unfoldable pub last_value : Bytes → Loop → Dict Bytes
  last_value data_ l = elim l.state [
    | outside ↦ put l.key (unescape (unescape l.value)) l.values_get
    | key ↦ put (substr data_ l.sbeg (length data_ - l.sbeg)) (unescape (unescape [])) l.values_get
    | value ↦
        put l.key (unescape (unescape (substr data_ l.sbeg (length data_ - l.sbeg)))) l.values_get
  ]

  unfoldable pub parse_get : Bytes → Dict Bytes → Dict Bytes
  parse_get data_ values_get = last_value data_ (query_loop data_ (start values_get) 0 data_)
