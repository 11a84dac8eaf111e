-- ===== src/Strings/Utf8/Words/Text.antt =====
-- `splitUtf8` and `getBigrams` of strings/string_utils.cpp on the encoding of a text.
use hiaux.Base.{
  ℕ, zero, suc, ◌≤◌, ◌<◌, ◌≡◌, refl, ap, sym, ◌∙◌, List, [], ◌∷◌, ◌++◌, Bool, true, false, Option,
  some, Bytes, length, ◌==◌, if◌then◌else◌, arith, All, Bool-cases, inl, inr, length-append,
  append_assoc, append-nil,
}
use hiaux.Text.Find.{Lacks}
use hiaux.Strings.Escape.{c_string-Lacks}
use hiaux.Strings.Utf8.Words.{
  push_word, after_symbol, words_from, split_utf8, no_such_word, bigrams_of, get_bigrams,
}
use hiaux.Strings.Utf8.{IsSymbol, IsUtf8, concat_map, concat_map-Lacks}

module _ (next : Bytes → Option (ℕ × Bytes)) (append : ℕ → Bytes) (delims : ℕ → Bool) where
  -- The loop on the symbols themselves.
  words_symbols : List ℕ → Bytes → List Bytes → List Bytes
  unfolding push_word
  words_symbols [] elem elems = push_word elem elems
  words_symbols (c ∷ cs) elem elems =
      if delims c
      then words_symbols cs [] (push_word elem elems)
      else words_symbols cs (elem ++ append c) elems

  words_from-next :
      (fuel c : ℕ) (s rest elem : Bytes) (elems : List Bytes)
      → 0 < length s
      → next s ≡ some (c, rest)
      → words_from next append delims (suc fuel) s elem elems
        ≡ after_symbol next append
            (words_from next append delims fuel)
            delims
            elem
            elems
            (some (c, rest))
  unfolding words_from
  words_from-next fuel c [] rest elem elems h e = absurd (omega arith)
  words_from-next fuel c (b ∷ s) rest elem elems h e =
      ap (after_symbol next append (words_from next append delims fuel) delims elem elems) e

  encode-shorter :
      (c : ℕ) (cs : List ℕ) (fuel : ℕ)
      → IsUtf8 next append
      → IsSymbol c
      → length (concat_map append (c ∷ cs)) ≤ suc fuel
      → length (concat_map append cs) ≤ fuel
  encode-shorter c cs fuel u h k =
      omega (arith, u.some_byte c h, length-append (append c) (concat_map append cs))

  words_from-encode :
      (cs : List ℕ) (fuel : ℕ) (elem : Bytes) (elems : List Bytes)
      → IsUtf8 next append
      → All IsSymbol cs
      → length (concat_map append cs) ≤ fuel
      → words_from next append delims fuel (concat_map append cs) elem elems
        ≡ (words_symbols cs elem elems, false)
  unfolding words_from after_symbol words_symbols
  words_from-encode [] zero elem elems u h k = refl
  words_from-encode [] (suc fuel) elem elems u h k = refl
  words_from-encode (c ∷ cs) zero elem elems u (h, hs) k =
      absurd (omega (arith, u.some_byte c h, length-append (append c) (concat_map append cs)))
  words_from-encode (c ∷ cs) (suc fuel) elem elems u (h, hs) k =
      let l = encode-shorter c cs fuel u h k in
      words_from-next fuel c (append c ++ concat_map append cs) (concat_map append cs) elem elems
        (omega (arith, u.some_byte c h, length-append (append c) (concat_map append cs)))
        (u.next_append c (concat_map append cs) h)
      ∙ (elim (Bool-cases (delims c)) [
        | inl e ↦ rw e (words_from-encode cs fuel [] (push_word elem elems) u hs l)
        | inr e ↦ rw e (words_from-encode cs fuel (elem ++ append c) elems u hs l)
      ])

  abbrev IsGap : List ℕ → Type 0
  IsGap cs = All (λ c. delims c ≡ true) cs

  abbrev IsWord : List ℕ → Type 0
  IsWord cs = All (λ c. delims c ≡ false) cs

  words_symbols-gap :
      (g cs : List ℕ) (elems : List Bytes)
      → IsGap g
      → words_symbols (g ++ cs) [] elems ≡ words_symbols cs [] elems
  unfolding words_symbols push_word
  words_symbols-gap [] cs elems h = refl
  words_symbols-gap (c ∷ g) cs elems (h, hs) = rw h (words_symbols-gap g cs elems hs)

  words_symbols-word :
      (w cs : List ℕ) (elem : Bytes) (elems : List Bytes)
      → IsWord w
      → words_symbols (w ++ cs) elem elems ≡ words_symbols cs (elem ++ concat_map append w) elems
  unfolding words_symbols
  words_symbols-word [] cs elem elems h = rw (append-nil elem) refl
  words_symbols-word (c ∷ w) cs elem elems (h, hs) = rw h (
      words_symbols-word w cs (elem ++ append c) elems hs
      ∙ ap (λ t. words_symbols cs t elems) (append_assoc elem (append c) (concat_map append w)))

  -- Words of symbols, each with the delimiter behind it and any more delimiters, and the last word.
  abbrev pub text_of : List (List ℕ × (ℕ × List ℕ)) → List ℕ → List ℕ
  text_of [] last = last
  text_of ((w, (d, g)) ∷ ps) last = w ++ (d ∷ (g ++ text_of ps last))

  abbrev pub ArePieces : List (List ℕ × (ℕ × List ℕ)) → Type 0
  ArePieces [] = Unit
  ArePieces ((w, (d, g)) ∷ ps) =
      (0 < length w) × (IsWord w × ((delims d ≡ true) × (IsGap g × ArePieces ps)))

  abbrev pub words_of : List (List ℕ × (ℕ × List ℕ)) → List ℕ → List Bytes
  words_of [] [] = []
  words_of [] (c ∷ w) = concat_map append (c ∷ w) ∷ []
  words_of ((w, (d, g)) ∷ ps) last = concat_map append w ∷ words_of ps last

  All-split : (P : ℕ → Type 0) (xs ys : List ℕ) → All P (xs ++ ys) → All P xs × All P ys
  All-split P [] ys h = (tt, h)
  All-split P (x ∷ xs) ys (h, hs) = let (a, b) = All-split P xs ys hs in ((h, a), b)

  push_bytes :
      (t : Bytes) (elems : List Bytes)
      → 0 < length t
      → Lacks 0 t
      → push_word t elems ≡ elems ++ t ∷ []
  unfolding push_word
  push_bytes [] elems h l = absurd (omega arith)
  push_bytes (b ∷ t) elems h l = ap (λ r. elems ++ r ∷ []) (c_string-Lacks (b ∷ t) l)

  push_encoded :
      (w : List ℕ) (elems : List Bytes)
      → IsUtf8 next append
      → All IsSymbol w
      → 0 < length w
      → push_word (concat_map append w) elems ≡ elems ++ concat_map append w ∷ []
  push_encoded [] elems u h k = absurd (omega arith)
  push_encoded (c ∷ w) elems u (h, hs) k =
      push_bytes (concat_map append (c ∷ w)) elems
        (omega (arith, u.some_byte c h, length-append (append c) (concat_map append w)))
        (concat_map-Lacks next append (c ∷ w) u (h, hs))

  words_symbols-last :
      (last : List ℕ) (elems : List Bytes)
      → IsUtf8 next append
      → All IsSymbol last
      → IsWord last
      → words_symbols last [] elems ≡ elems ++ words_of [] last
  unfolding words_symbols push_word
  words_symbols-last [] elems u h k = sym (append-nil elems)
  words_symbols-last (c ∷ w) elems u h k =
      ap (λ t. words_symbols t [] elems) (sym (append-nil (c ∷ w)))
      ∙ words_symbols-word (c ∷ w) [] [] elems k
      ∙ push_encoded (c ∷ w) elems u h (omega arith)

  words_symbols-text :
      (ps : List (List ℕ × (ℕ × List ℕ))) (last : List ℕ) (elems : List Bytes)
      → IsUtf8 next append
      → All IsSymbol (text_of ps last)
      → ArePieces ps
      → IsWord last
      → words_symbols (text_of ps last) [] elems ≡ elems ++ words_of ps last
  unfolding words_symbols
  words_symbols-text [] last elems u h k l = words_symbols-last last elems u h l
  words_symbols-text ((w, (d, g)) ∷ ps) last elems u h (n, (iw, (id, (ig, k)))) l =
      let (hw, (hd, hr)) = All-split IsSymbol w (d ∷ (g ++ text_of ps last)) h in
      words_symbols-word w (d ∷ (g ++ text_of ps last)) [] elems iw
      ∙ rw (id, push_encoded w elems u hw n)
          (words_symbols-gap g (text_of ps last) (elems ++ concat_map append w ∷ []) ig
            ∙ words_symbols-text ps last (elems ++ concat_map append w ∷ []) u
                (All-split IsSymbol g (text_of ps last) hr).1 k l
            ∙ append_assoc elems (concat_map append w ∷ []) (words_of ps last))

  -- `splitUtf8` splits the encoding of symbols that are not NUL and below the surrogates, given that
  -- the library's `next` reads what `append` writes. Let the symbols be some delimiters, then words
  -- that are not empty, each with one or more delimiters behind it, then a last word that may be
  -- empty. Then no exception is thrown and exactly the encodings of the words that are not empty are
  -- added to the elements, in order.
  pub split_utf8-text :
      (g : List ℕ) (ps : List (List ℕ × (ℕ × List ℕ))) (last : List ℕ) (elems : List Bytes)
      → IsUtf8 next append
      → All IsSymbol (g ++ text_of ps last)
      → IsGap g
      → ArePieces ps
      → IsWord last
      → split_utf8 next append (concat_map append (g ++ text_of ps last)) delims elems
        ≡ (elems ++ words_of ps last, false)
  unfolding split_utf8
  split_utf8-text g ps last elems u h ig k l =
      words_from-encode (g ++ text_of ps last) (length (concat_map append (g ++ text_of ps last)))
        [] elems u h (omega arith)
      ∙ ap (λ t. (t, false))
          (words_symbols-gap g (text_of ps last) elems ig
            ∙ words_symbols-text ps last elems u (All-split IsSymbol g (text_of ps last) h).1 k l)

-- The symbols of a text of spaces.
abbrev pub blanks : ℕ → List ℕ
blanks zero = []
blanks (suc n) = 0x20 ∷ blanks n

blanks-All : (P : ℕ → Type 0) (n : ℕ) → P 0x20 → All P (blanks n)
blanks-All P zero h = tt
blanks-All P (suc n) h = (h, blanks-All P n h)

-- `getBigrams` of an empty text, or of spaces alone, reads a word that is not there, whatever
-- bigrams there are before, given that the library's `next` reads what `append` writes.
pub get_bigrams_blank :
    (next : Bytes → Option (ℕ × Bytes)) (append : ℕ → Bytes) (n : ℕ) (out : List Bytes)
    → IsUtf8 next append
    → get_bigrams next append (concat_map append (blanks n)) out ≡ no_such_word
unfolding get_bigrams bigrams_of
get_bigrams_blank next append n out u =
    ap (λ t. bigrams_of t out)
      (ap (λ t. split_utf8 next append (concat_map append t) (λ c. c == 0x20) [])
          (sym (append-nil (blanks n)))
        ∙ split_utf8-text next append (λ c. c == 0x20) (blanks n) [] [] [] u
            (rw (append-nil (blanks n)) (blanks-All IsSymbol n (omega arith, omega arith)))
            (blanks-All (λ c. (c == 0x20) ≡ true) n refl) tt tt)
