-- ===== src/Strings/Utf8.antt =====
-- The UTF-8 helpers of strings/string_utils.cpp. A buffer is as long as the string, and what is
-- written past it is not modelled.
pub mod Words
use hiaux.Base.{
  ℕ, zero, suc, ◌+◌, ◌-◌, ◌≤◌, ◌<◌, ◌≡◌, ◌≢◌, refl, ap, sym, ◌∙◌, List, [], ◌∷◌, ◌++◌, Bool, true,
  false, ◌&&◌, ◌||◌, Option, none, some, Bytes, length, leb, ◌==◌, if◌then◌else◌, arith, All,
  All-append, length-append, append_assoc, append-nil, map,
}
use hiaux.Text.Find.{Lacks}
use hiaux.Strings.Escape.{c_string, c_string-Lacks}

unfoldable pub between : ℕ → ℕ → ℕ → Bool
between low high c = leb low c && leb c high

unfoldable pub is_utf8_char : ℕ → Bool
is_utf8_char c =
    between 0x41 0x5a c || (between 0x61 0x7a c || (between 0x410 0x42f c || between 0x430 0x44f c))

unfoldable pub to_lower_char_utf8 : ℕ → ℕ
to_lower_char_utf8 c =
    if between 0x41 0x5a c
    then c + 0x61 - 0x41
    else if between 0x410 0x42f c
    then c + 0x430 - 0x410
    else c

-- Behind `utf8::next`: an exception ends the loop.
after_next : {S : Type 0} → (Bytes → S → S) → (S → ℕ → S) → S → Option (ℕ × Bytes) → S
after_next loop step acc none = acc
after_next loop step acc (some (symbol, rest)) = loop rest (step acc symbol)

-- `utf8::next`, `none` where it throws, and `utf8::append` of a valid symbol.
module _ (next : Bytes → Option (ℕ × Bytes)) (append : ℕ → Bytes) where
  -- The loop over the symbols; `step` is its body.
  each_symbol : {S : Type 0} → (S → ℕ → S) → ℕ → Bytes → S → S
  unfolding after_next
  each_symbol step zero s acc = acc
  each_symbol step (suc fuel) [] acc = acc
  each_symbol step (suc fuel) (b ∷ s) acc =
      after_next (each_symbol step fuel) step acc (next (b ∷ s))

  unfoldable pub to_lower_utf8 : Bytes → Bytes
  unfolding each_symbol
  to_lower_utf8 s =
      c_string (each_symbol (λ res c. res ++ append (to_lower_char_utf8 c)) (length s) s [])

  unfoldable pub erase_non_chars_utf8 : Bytes → Bytes
  unfolding each_symbol
  erase_non_chars_utf8 s =
      c_string
        (each_symbol (λ res c. if is_utf8_char c then res ++ append c else res) (length s) s [])

  unfoldable pub replace_char_utf8 : Bytes → ℕ → ℕ → Bytes
  unfolding each_symbol
  replace_char_utf8 s what to = c_string (
      each_symbol (λ res c. if c == what then res ++ append to else res ++ append c) (length s) s
        [])

  -- The state has `first`, `f` and `s`; without a symbol the outputs stay as they are.
  unfoldable pub split_symbol : ℕ → Bool × (Bytes × Bytes) → ℕ → Bool × (Bytes × Bytes)
  split_symbol delim (true, (f, s)) c =
      if c == delim then (false, (f, s)) else (true, (f ++ append c, s))
  split_symbol delim (false, (f, s)) c = (false, (f, s ++ append c))

  unfoldable pub split_into_two_utf8 : Bytes → ℕ → Bytes × Bytes → Bytes × Bytes
  unfolding each_symbol
  split_into_two_utf8 [] delim out = out
  split_into_two_utf8 (b ∷ v) delim out =
      let (first, (f, s)) =
        each_symbol (split_symbol delim) (length (b ∷ v)) (b ∷ v) (true, ([], [])) in
      (c_string f, c_string s)

  -- The state has the buffer and the prefixes.
  unfoldable pub get_prefixes_utf8 : Bytes → List Bytes → List Bytes
  unfolding each_symbol
  get_prefixes_utf8 word prefixes =
      (each_symbol {S = Bytes × List Bytes}
        (λ st c. (st.0 ++ append c, st.1 ++ c_string (st.0 ++ append c) ∷ [])) (length word) word
        ([], prefixes)).1

-- A symbol below the surrogates.
abbrev pub IsSymbol : ℕ → Type 0
IsSymbol c = (0 < c) × (c < 0xd800)

-- What the library documents: `next` reads what `append` writes, which has a byte and no NUL.
pub record IsUtf8 (next : Bytes → Option (ℕ × Bytes)) (append : ℕ → Bytes) : Type 0 where
  pub next_append : (c : ℕ) (s : Bytes) → IsSymbol c → next (append c ++ s) ≡ some (c, s)
  pub some_byte : (c : ℕ) → IsSymbol c → 0 < length (append c)
  pub no_nul : (c : ℕ) → IsSymbol c → Lacks 0 (append c)

abbrev pub foldl : {S : Type 0} → (S → ℕ → S) → S → List ℕ → S
foldl step acc [] = acc
foldl step acc (c ∷ cs) = foldl step (step acc c) cs

abbrev pub concat_map : (ℕ → Bytes) → List ℕ → Bytes
concat_map g [] = []
concat_map g (c ∷ cs) = g c ++ concat_map g cs

module _ (next : Bytes → Option (ℕ × Bytes)) (append : ℕ → Bytes) where
  each_symbol-next :
      {S : Type 0} (step : S → ℕ → S) (fuel c : ℕ) (s rest : Bytes) (acc : S)
      → 0 < length s
      → next s ≡ some (c, rest)
      → each_symbol next append step (suc fuel) s acc
        ≡ each_symbol next append step fuel rest (step acc c)
  unfolding each_symbol
  each_symbol-next step fuel c [] rest acc h e = absurd (omega arith)
  each_symbol-next step fuel c (b ∷ s) rest acc h e =
      ap (after_next (each_symbol next append step fuel) step acc) e

  each_symbol-encode :
      {S : Type 0} (step : S → ℕ → S) (cs : List ℕ) (fuel : ℕ) (acc : S)
      → IsUtf8 next append
      → All IsSymbol cs
      → length (concat_map append cs) ≤ fuel
      → each_symbol next append step fuel (concat_map append cs) acc ≡ foldl step acc cs
  unfolding each_symbol
  each_symbol-encode step [] zero acc u h k = refl
  each_symbol-encode step [] (suc fuel) acc u h k = refl
  each_symbol-encode step (c ∷ cs) zero acc u (h, hs) k =
      absurd (omega (arith, u.some_byte c h, length-append (append c) (concat_map append cs)))
  each_symbol-encode step (c ∷ cs) (suc fuel) acc u (h, hs) k =
      each_symbol-next step fuel c (append c ++ concat_map append cs) (concat_map append cs) acc
        (omega (arith, u.some_byte c h, length-append (append c) (concat_map append cs)))
        (u.next_append c (concat_map append cs) h)
      ∙ each_symbol-encode step cs fuel (step acc c) u hs
          (omega (arith, u.some_byte c h, length-append (append c) (concat_map append cs)))

  foldl-append :
      (g : ℕ → Bytes) (cs : List ℕ) (acc : Bytes)
      → foldl (λ res c. res ++ g c) acc cs ≡ acc ++ concat_map g cs
  foldl-append g [] acc = sym (append-nil acc)
  foldl-append g (c ∷ cs) acc =
      foldl-append g cs (acc ++ g c) ∙ append_assoc acc (g c) (concat_map g cs)

  pub concat_map-Lacks :
      (cs : List ℕ) → IsUtf8 next append → All IsSymbol cs → Lacks 0 (concat_map append cs)
  concat_map-Lacks [] u h = tt
  concat_map-Lacks (c ∷ cs) u (h, hs) =
      All-append (λ x. x ≢ 0) (append c) (concat_map append cs) (u.no_nul c h)
        (concat_map-Lacks cs u hs)

  to_lower-IsSymbol : (c : ℕ) → IsSymbol c → IsSymbol (to_lower_char_utf8 c)
  unfolding to_lower_char_utf8 between
  to_lower-IsSymbol c h = ground arith

  concat_map_lower :
      (f : ℕ → ℕ) (cs : List ℕ) → concat_map (λ c. append (f c)) cs ≡ concat_map append (map f cs)
  concat_map_lower f [] = refl
  concat_map_lower f (c ∷ cs) = ap (λ t. append (f c) ++ t) (concat_map_lower f cs)

  map_symbols :
      (f : ℕ → ℕ) (cs : List ℕ)
      → ((c : ℕ) → IsSymbol c → IsSymbol (f c))
      → All IsSymbol cs
      → All IsSymbol (map f cs)
  map_symbols f [] g h = tt
  map_symbols f (c ∷ cs) g (h, hs) = (g c h, map_symbols f cs g hs)

  -- `toLowerUtf8` of the encoding of symbols that are not NUL and below the surrogates is the
  -- encoding of their lower forms, given that the library's `next` reads what `append` writes.
  pub to_lower_utf8-encode :
      (cs : List ℕ)
      → IsUtf8 next append
      → All IsSymbol cs
      → to_lower_utf8 next append (concat_map append cs)
        ≡ concat_map append (map to_lower_char_utf8 cs)
  unfolding to_lower_utf8
  to_lower_utf8-encode cs u h =
      let run =
        each_symbol-encode (λ res c. res ++ append (to_lower_char_utf8 c)) cs
          (length (concat_map append cs)) [] u h (omega arith) in
      ap c_string (
        run
        ∙ foldl-append (λ c. append (to_lower_char_utf8 c)) cs []
        ∙ concat_map_lower to_lower_char_utf8 cs)
      ∙ c_string-Lacks (concat_map append (map to_lower_char_utf8 cs)) (
          concat_map-Lacks (map to_lower_char_utf8 cs) u
            (map_symbols to_lower_char_utf8 cs to_lower-IsSymbol h))
