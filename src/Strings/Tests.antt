-- ===== src/Strings/Tests.antt =====
-- The theorems on the string helpers at concrete strings.
use hiaux.Base.{
  ℕ, ◌≡◌, refl, List, [], ◌∷◌, ◌++◌, true, false, none, some, Option, Bytes, codes, arith, length,
  ◌≤◌, ◌<◌, ◌*◌, ◌+◌,
}
use hiaux.Text.Find.{find, find-Lacks}
use hiaux.Strings.Replace.{IsIn, replace_string, replace_string-IsIn, replace_string_endless}
use hiaux.Strings.Domains.{
  domain_of, reverse, invert_domain, invert_domain-domain_of, remove_redundant_delimeters,
}
use hiaux.Strings.Utf8.{IsUtf8, to_lower_utf8, to_lower_char_utf8, between, to_lower_utf8-encode}
use hiaux.Base.Dict.{put}
use hiaux.Strings.Split.{split, split_any, split-terminate}
use hiaux.Strings.Runs.{split_any-runs}
use hiaux.Strings.Spaces.{
  char_at, leading_spaces, remove_leading_spaces, remove_ending_spaces, remove_leading_spaces_lem,
  remove_ending_spaces_lem,
}
use hiaux.Strings.Escape.{
  escaped, escape_quote, literal, length-escaped, literal-escape_quote, escape_quote_backslash,
}
use hiaux.Strings.FileNames.{
  remove_filename_ext, change_filename_ext, remove_filename_ext-ext, remove_filename_ext-directory,
  change_filename_ext-directory,
}
use hiaux.Strings.Query.{parse_get}
use hiaux.Strings.Query.Printing.{parse_get-print_query, parse_get_empty_value}
use hiaux.Strings.Cookies.{Cookie, IsCookie, parse_cookies, parse_cookies-print}

split-terminate_run : split b',' (codes "a,,b") ≡ codes "a" ∷ [] ∷ codes "b" ∷ []
split-terminate_run =
    split-terminate b',' (codes "a" ∷ [] ∷ []) (codes "b") ((omega arith, tt), (tt, tt))
      (omega arith, tt)

split_any-runs_example : split_any (codes ", ") (codes "a, b,") ≡ codes "a" ∷ codes "b" ∷ []
split_any-runs_example = split_any-runs (codes ", ") (codes "a, b,")

remove_leading_spaces_lem_run : remove_leading_spaces (codes "  a ") ≡ codes "a "
unfolding leading_spaces
remove_leading_spaces_lem_run = remove_leading_spaces_lem 2 (codes "a ") refl

remove_ending_spaces_lem_run : remove_ending_spaces (codes "ab  ") ≡ some (codes "a")
remove_ending_spaces_lem_run = remove_ending_spaces_lem (codes "a") b'b' 1 (omega arith)

length-escaped_run :
    (length (codes "it's") ≤ length (escaped (codes "it's") b'\''))
    × (length (escaped (codes "it's") b'\'') < length (codes "it's") * 2 + 1)
length-escaped_run = length-escaped (codes "it's") b'\''

literal-escape_quote_run :
    literal false (escape_quote (codes "it's") ++ b'\'' ∷ codes " x")
    ≡ some (codes "it's", codes " x")
literal-escape_quote_run =
    literal-escape_quote (codes "it's") (codes " x")
      (omega arith, (omega arith, (omega arith, (omega arith, tt))))
      (omega arith, (omega arith, (omega arith, (omega arith, tt))))

escape_quote_backslash_example :
    literal false (escape_quote (codes "a\\' or 1"))
    ≡ some (codes "a\\", escape_quote (codes " or 1"))
escape_quote_backslash_example =
    escape_quote_backslash (codes "a") (codes " or 1") (omega arith, tt)
      (omega arith, (omega arith, (omega arith, (omega arith, (omega arith, tt)))))
      (omega arith, tt)

remove_filename_ext-ext_run : remove_filename_ext (codes "a.d/b.c") ≡ codes "a.d/b"
remove_filename_ext-ext_run =
    remove_filename_ext-ext (codes "a.d/b") (codes "c") (omega arith, tt) (omega arith, tt)

remove_filename_ext-directory_run : remove_filename_ext (codes "a.d/b") ≡ codes "a.d/b"
remove_filename_ext-directory_run =
    remove_filename_ext-directory (codes "a.d") (codes "b") (omega arith, tt) (omega arith, tt)

change_filename_ext-directory_run : change_filename_ext (codes "a.d/b") (codes "o") ≡ codes "a.o"
change_filename_ext-directory_run =
    change_filename_ext-directory (codes "a") (codes "d") (codes "b") (codes "o") (omega arith, tt)
      (omega arith, tt)

abbrev same : Bytes → Bytes
same s = s

parse_get-print_query_example :
    parse_get same (codes "/p?a=1&b=2") [] ≡ (codes "a", codes "1") ∷ (codes "b", codes "2") ∷ []
unfolding put
parse_get-print_query_example =
    parse_get-print_query same (codes "/p") ((codes "a", codes "1") ∷ []) (codes "b") [] b'2' []
      (
        (omega arith, (omega arith, tt)),
        (omega arith, (omega arith, tt)),
        (omega arith, (omega arith, tt)),
      )
      (
        (
          ((omega arith, tt), (omega arith, tt), (omega arith, tt)),
          ((omega arith, tt), (omega arith, tt), (omega arith, tt)),
        ),
        tt,
      )
      ((omega arith, tt), (omega arith, tt), (omega arith, tt))
      ((omega arith, tt), (omega arith, tt), (omega arith, tt))

parse_get_empty_value_run : parse_get same (codes "/?a=") [] ≡ (codes "a", codes "=") ∷ []
unfolding put
parse_get_empty_value_run =
    parse_get_empty_value same (codes "/") (codes "a") []
      ((omega arith, tt), (omega arith, tt), (omega arith, tt))
      ((omega arith, tt), (omega arith, tt), (omega arith, tt))

abbrev session : Cookie
session = record { spaced = false; name = codes "s"; value = codes "1=2" }

abbrev language : Cookie
language = record { spaced = true; name = codes "l"; value = [] }

session-IsCookie : IsCookie session
unfolding char_at
session-IsCookie = record {
  starts = omega arith;
  name_eq = (omega arith, tt);
  name_semi = (omega arith, tt);
  value_semi = (omega arith, (omega arith, (omega arith, tt)));
}

language-IsCookie : IsCookie language
unfolding char_at
language-IsCookie = record {
  starts = omega arith;
  name_eq = (omega arith, tt);
  name_semi = (omega arith, tt);
  value_semi = tt;
}

parse_cookies-print_example :
    parse_cookies (codes "s=1=2; l=") [] ≡ (codes "s", codes "1=2") ∷ (codes "l", []) ∷ []
unfolding put
parse_cookies-print_example =
    parse_cookies-print (session ∷ []) language [] (session-IsCookie, tt) language-IsCookie

-- Symbols that are their own encodings.
abbrev pub next_symbol : Bytes → Option (ℕ × Bytes)
next_symbol [] = none
next_symbol (c ∷ s) = some (c, s)

abbrev pub append_symbol : ℕ → Bytes
append_symbol c = c ∷ []

pub symbols-IsUtf8 : IsUtf8 next_symbol append_symbol
symbols-IsUtf8 = record {
  next_append = λ c s h. refl;
  some_byte = λ c h. omega arith;
  no_nul = λ c h. ((λ e. ground arith), tt);
}

to_lower_utf8-encode_example :
    to_lower_utf8 next_symbol append_symbol (codes "AbC" ++ 0x410 ∷ []) ≡ codes "abc" ++ 0x430 ∷ []
unfolding to_lower_char_utf8 between
to_lower_utf8-encode_example =
    to_lower_utf8-encode next_symbol append_symbol (codes "AbC" ++ 0x410 ∷ []) symbols-IsUtf8 (
      (omega arith, omega arith),
      ((omega arith, omega arith), ((omega arith, omega arith), ((omega arith, omega arith), tt))),
    )

replace_string-IsIn_example :
    (r : Bytes) × (replace_string 6 (codes "aaxaa") (codes "aa") (codes "b") ≡ some r)
    × ¬ IsIn (codes "aa") r
replace_string-IsIn_example =
    replace_string-IsIn 5 (codes "aaxaa") (codes "aa") (codes "b") (omega arith) (omega arith)

replace_string_endless_example : replace_string 9 (codes "xa") (codes "a") (codes "ba") ≡ none
replace_string_endless_example =
    replace_string_endless 9 (codes "xa") (codes "a") (codes "ba") (codes "b", [], refl)
      (codes "x", [], refl)

abbrev labels : List Bytes
labels = codes "www" ∷ codes "ya" ∷ codes "ru" ∷ []

invert_domain-domain_of_example :
    (invert_domain (domain_of labels) ≡ domain_of (reverse labels))
    × (invert_domain (invert_domain (domain_of labels)) ≡ domain_of labels)
unfolding find
invert_domain-domain_of_example = invert_domain-domain_of labels (
  (refl, find-Lacks b'.' (codes "www") refl),
  ((refl, find-Lacks b'.' (codes "ya") refl), ((refl, find-Lacks b'.' (codes "ru") refl), tt)),
)

-- Of three delimiters in a row two are left, and an erased one at the end is run past.
three_delimeters : remove_redundant_delimeters false (9 ∷ 9 ∷ 9 ∷ 97 ∷ []) ≡ some (9 ∷ 9 ∷ 97 ∷ [])
unfolding remove_redundant_delimeters
three_delimeters = refl

last_delimeter : remove_redundant_delimeters false (9 ∷ 9 ∷ []) ≡ none
unfolding remove_redundant_delimeters
last_delimeter = refl
