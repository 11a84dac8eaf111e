-- ===== src/Strings/Utf8/Words/Tests.antt =====
-- The words of a text, and the bigrams of a blank one.
use hiaux.Base.{ℕ, ◌≡◌, refl, [], ◌∷◌, Bool, false, codes, ◌==◌, arith}
use hiaux.Strings.Tests.{next_symbol, append_symbol, symbols-IsUtf8}
use hiaux.Strings.Utf8.Words.{split_utf8, no_such_word, get_bigrams}
use hiaux.Strings.Utf8.Words.Text.{split_utf8-text, get_bigrams_blank}

abbrev is_space : ℕ → Bool
is_space c = c == 0x20

split_utf8-text_example :
    split_utf8 next_symbol append_symbol (codes " ab  c") is_space []
    ≡ (codes "ab" ∷ codes "c" ∷ [], false)
split_utf8-text_example =
    split_utf8-text next_symbol append_symbol is_space (0x20 ∷ [])
      ((codes "ab", (0x20, 0x20 ∷ [])) ∷ []) (codes "c") [] symbols-IsUtf8
      (
        (omega arith, omega arith),
        (
          (omega arith, omega arith),
          (
            (omega arith, omega arith),
            (
              (omega arith, omega arith),
              ((omega arith, omega arith), ((omega arith, omega arith), tt)),
            ),
          ),
        ),
      )
      (refl, tt) (omega arith, ((refl, (refl, tt)), (refl, ((refl, tt), tt)))) (refl, tt)

get_bigrams_blank_example : get_bigrams next_symbol append_symbol (codes "  ") [] ≡ no_such_word
get_bigrams_blank_example = get_bigrams_blank next_symbol append_symbol 2 [] symbols-IsUtf8
