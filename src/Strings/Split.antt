-- ===== src/Strings/Split.antt =====
-- `split`, by one delimiter and by several, in strings/string_utils.cpp.
use hiaux.Base.{
  ℕ, ◌≡◌, ◌≢◌, refl, ap, List, [], ◌∷◌, ◌++◌, Bool, true, false, Bytes, arith, All, ◌==◌,
  if◌then◌else◌, append-nil, append_assoc,
}
use hiaux.Text.Find.{Lacks}

abbrev pub is_empty : Bytes → Bool
is_empty [] = true
is_empty (x ∷ xs) = false

-- At the end of the stream `getline` fails if it has read nothing.
abbrev pub last_item : Bytes → List Bytes
last_item item = if is_empty item then [] else item ∷ []

-- The tokens that `getline` extracts, with `item` read so far.
unfoldable pub split_from : ℕ → Bytes → Bytes → List Bytes
split_from delim item [] = last_item item
split_from delim item (c ∷ s) =
    if c == delim then item ∷ split_from delim [] s else split_from delim (item ++ c ∷ []) s

unfoldable pub split : ℕ → Bytes → List Bytes
split delim s = split_from delim [] s

-- One pass of `split` by several delimiters: the tokens that are not empty, each split.
unfoldable pub split_each : ℕ → List Bytes → List Bytes
split_each delim [] = []
split_each delim (t ∷ ts) =
    if is_empty t then split_each delim ts else split delim t ++ split_each delim ts

unfoldable pub nonempty : List Bytes → List Bytes
nonempty [] = []
nonempty (t ∷ ts) = if is_empty t then nonempty ts else t ∷ nonempty ts

unfoldable pub split_passes : List ℕ → List Bytes → List Bytes
split_passes [] tokens = tokens
split_passes (delim ∷ delims) tokens = split_passes delims (split_each delim tokens)

unfoldable pub split_any : List ℕ → Bytes → List Bytes
split_any delims s = nonempty (split_passes delims (s ∷ []))

-- The tokens, each followed by the delimiter.
abbrev pub terminate : ℕ → List Bytes → Bytes
terminate d [] = []
terminate d (t ∷ ts) = t ++ d ∷ terminate d ts

split_from-step :
    (d : ℕ) (item t s : Bytes) (c : ℕ)
    → c ≢ d
    → split_from d item (c ∷ s) ≡ split_from d (item ++ c ∷ []) s
unfolding split_from
split_from-step d item t s c h = ground arith

split_from-token :
    (d : ℕ) (item t s : Bytes)
    → Lacks d t
    → split_from d item (t ++ d ∷ s) ≡ (item ++ t) ∷ split_from d [] s
unfolding split_from
split_from-token d item [] s h = rw (append-nil item) (ground arith)
split_from-token d item (c ∷ t) s (h, k) =
    rw
      (
        split_from-step d item t (t ++ d ∷ s) c h,
        split_from-token d (item ++ c ∷ []) t s k,
        append_assoc item (c ∷ []) t,
      )
      refl

split_from-end : (d : ℕ) (item t : Bytes) → Lacks d t → split_from d item t ≡ last_item (item ++ t)
unfolding split_from
split_from-end d item [] h = rw (append-nil item) refl
split_from-end d item (c ∷ t) (h, k) =
    rw
      (
        split_from-step d item t t c h,
        split_from-end d (item ++ c ∷ []) t k,
        append_assoc item (c ∷ []) t,
      )
      refl

-- Splitting gives back the tokens that were each ended by the delimiter; what stands behind the
-- last delimiter is a token too, unless it is empty.
pub split-terminate :
    (d : ℕ) (ts : List Bytes) (t : Bytes)
    → All (Lacks d) ts
    → Lacks d t
    → split d (terminate d ts ++ t) ≡ ts ++ last_item t
unfolding split
split-terminate d [] t h k = split_from-end d [] t k
split-terminate d (u ∷ ts) t (h, hs) k =
    rw (append_assoc u (d ∷ terminate d ts) t, split_from-token d [] u (terminate d ts ++ t) h)
      (ap (◌∷◌ u) (split-terminate d ts t hs k))
