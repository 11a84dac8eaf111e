-- ===== src/Strings/Utf8/Words.antt =====
-- `splitUtf8` and `getBigrams` of strings/string_utils.cpp, which catch no exception of the UTF-8
-- library. A text has fewer than 2^31 words.
pub mod Text
mod Tests
use hiaux.Base.{
  ℕ, zero, suc, ◌+◌, ◌≤◌, ◌<◌, ◌≡◌, refl, ap, sym, ◌∙◌, List, [], ◌∷◌, ◌++◌, Bool, true, false,
  Option, none, some, Bytes, length, ◌==◌, if◌then◌else◌, arith, All, Bool-cases, inl, inr,
  length-append, append_assoc, append-nil, map,
}
use hiaux.Text.Find.{Lacks}
use hiaux.Strings.Escape.{c_string, c_string-Lacks}
use hiaux.Strings.Utf8.{IsSymbol, IsUtf8, concat_map, concat_map-Lacks}

-- `elem != elem_end`, and the string that begins at `elem`.
unfoldable pub push_word : Bytes → List Bytes → List Bytes
push_word [] elems = elems
push_word (b ∷ elem) elems = elems ++ c_string (b ∷ elem) ∷ []

-- The elements, and whether `utf8::next` has thrown.
module _ (next : Bytes → Option (ℕ × Bytes)) (append : ℕ → Bytes) where
  unfoldable pub after_symbol :
      (Bytes → Bytes → List Bytes → List Bytes × Bool)
      → (ℕ → Bool)
      → Bytes
      → List Bytes
      → Option (ℕ × Bytes)
      → List Bytes × Bool
  after_symbol loop delims elem elems none = (elems, true)
  after_symbol loop delims elem elems (some (symbol, rest)) =
      if delims symbol
      then loop rest [] (push_word elem elems)
      else loop rest (elem ++ append symbol) elems

  unfoldable pub words_from : (ℕ → Bool) → ℕ → Bytes → Bytes → List Bytes → List Bytes × Bool
  words_from delims zero s elem elems = (push_word elem elems, false)
  words_from delims (suc fuel) [] elem elems = (push_word elem elems, false)
  words_from delims (suc fuel) (b ∷ s) elem elems =
      after_symbol (words_from delims fuel) delims elem elems (next (b ∷ s))

  unfoldable pub split_utf8 : Bytes → (ℕ → Bool) → List Bytes → List Bytes × Bool
  split_utf8 s delims elems = words_from delims (length s) s [] elems

-- The end of `getBigrams`: the bigrams, an exception, or a read of a word that is not there.
pub data BigramsEnd : Type 0 where
  bigrams : List Bytes → BigramsEnd
  threw : BigramsEnd
  no_such_word : BigramsEnd

unfoldable pub pairs_of : List Bytes → List Bytes
pairs_of [] = []
pairs_of (w ∷ []) = []
pairs_of (w ∷ v ∷ ws) = (w ++ 0x20 ∷ v) ∷ pairs_of (v ∷ ws)

-- `words.size()-1` of no words is the largest `size_t`.
unfoldable pub bigrams_of : List Bytes × Bool → List Bytes → BigramsEnd
bigrams_of (words, true) out = threw
bigrams_of ([], false) out = no_such_word
bigrams_of (w ∷ ws, false) out = bigrams (out ++ pairs_of (w ∷ ws))

unfoldable pub get_bigrams :
    (Bytes → Option (ℕ × Bytes)) → (ℕ → Bytes) → Bytes → List Bytes → BigramsEnd
get_bigrams next append q out = bigrams_of (split_utf8 next append q (λ c. c == 0x20) []) out
