-- ===== src/Strings/Runs.antt =====
-- `split` by several delimiters, of strings/string_utils.cpp, against one pass over the string.
use hiaux.Base.{
  ℕ, ◌≡◌, inl, inr, refl, ap, sym, ◌∙◌, List, [], ◌∷◌, ◌++◌, Bool, true, false, ◌||◌, Bytes, All,
  All-append, ◌==◌, if◌then◌else◌, Bool-cases, append-nil, append_assoc,
}
use hiaux.Strings.Split.{
  last_item, split_from, split, split_each, nonempty, split_passes, split_any,
}

-- The runs of characters that are no delimiters, read off in one pass; `item` is the run so far.
abbrev pub runs : (ℕ → Bool) → Bytes → Bytes → List Bytes
runs f item [] = last_item item
runs f item (c ∷ s) = if f c then last_item item ++ runs f [] s else runs f (item ++ c ∷ []) s

abbrev pub is_in : List ℕ → ℕ → Bool
is_in [] c = false
is_in (d ∷ ds) c = c == d || is_in ds c

-- The runs of each of the strings.
abbrev all_runs : (ℕ → Bool) → List Bytes → List Bytes
all_runs f [] = []
all_runs f (t ∷ ts) = runs f [] t ++ all_runs f ts

all_runs-append :
    (f : ℕ → Bool) (ts us : List Bytes) → all_runs f (ts ++ us) ≡ all_runs f ts ++ all_runs f us
all_runs-append f [] us = refl
all_runs-append f (t ∷ ts) us =
    ap (λ r. runs f [] t ++ r) (all_runs-append f ts us)
    ∙ sym (append_assoc (runs f [] t) (all_runs f ts) (all_runs f us))

runs_delimited :
    (f : ℕ → Bool) (item t s : Bytes) (d : ℕ)
    → f d ≡ true
    → runs f item (t ++ d ∷ s) ≡ runs f item t ++ runs f [] s
runs_delimited f item [] s d h = rw h refl
runs_delimited f item (c ∷ t) s d h = elim (Bool-cases (f c)) [
  | inl e ↦
      rw (e, runs_delimited f [] t s d h)
        (sym (append_assoc (last_item item) (runs f [] t) (runs f [] s)))
  | inr e ↦ rw e (runs_delimited f (item ++ c ∷ []) t s d h)
]

-- A delimiter that does not occur makes no difference.
runs_without :
    (ds : List ℕ) (d : ℕ) (item t : Bytes)
    → All (λ c. c == d ≡ false) t
    → runs (is_in (d ∷ ds)) item t ≡ runs (is_in ds) item t
runs_without ds d item [] h = refl
runs_without ds d item (c ∷ t) (h, hs) = elim (Bool-cases (is_in ds c)) [
  | inl e ↦ rw (h, e) (ap (λ r. last_item item ++ r) (runs_without ds d [] t hs))
  | inr e ↦ rw (h, e) (runs_without ds d (item ++ c ∷ []) t hs)
]

runs-split_from :
    (ds : List ℕ) (d : ℕ) (item s : Bytes)
    → All (λ c. c == d ≡ false) item
    → all_runs (is_in ds) (split_from d item s) ≡ runs (is_in (d ∷ ds)) [] (item ++ s)
unfolding split_from
runs-split_from ds d [] [] h = refl
runs-split_from ds d (x ∷ item) [] h =
    append-nil (runs (is_in ds) [] (x ∷ item))
    ∙ sym (runs_without ds d [] (x ∷ item) h)
    ∙ ap (runs (is_in (d ∷ ds)) []) (sym (append-nil (x ∷ item)))
runs-split_from ds d item (c ∷ s) h = elim (Bool-cases (c == d)) [
  | inl e ↦ rw e (
      ap (λ r. runs (is_in ds) [] item ++ r) (runs-split_from ds d [] s tt)
      ∙ ap (λ r. r ++ runs (is_in (d ∷ ds)) [] s) (sym (runs_without ds d [] item h))
      ∙ sym (runs_delimited (is_in (d ∷ ds)) [] item s c (rw e refl)))
  | inr e ↦ rw e (
      runs-split_from ds d (item ++ c ∷ []) s
        (All-append (λ x. x == d ≡ false) item (c ∷ []) h (e, tt))
      ∙ ap (runs (is_in (d ∷ ds)) []) (append_assoc item (c ∷ []) s))
]

runs-split_each :
    (ds : List ℕ) (d : ℕ) (ts : List Bytes)
    → all_runs (is_in ds) (split_each d ts) ≡ all_runs (is_in (d ∷ ds)) ts
unfolding split_each split
runs-split_each ds d [] = refl
runs-split_each ds d ([] ∷ ts) = runs-split_each ds d ts
runs-split_each ds d ((x ∷ t) ∷ ts) =
    all_runs-append (is_in ds) (split_from d [] (x ∷ t)) (split_each d ts)
    ∙ ap (λ r. r ++ all_runs (is_in ds) (split_each d ts)) (runs-split_from ds d [] (x ∷ t) tt)
    ∙ ap (λ r. runs (is_in (d ∷ ds)) [] (x ∷ t) ++ r) (runs-split_each ds d ts)

runs_undelimited : (item t : Bytes) → runs (is_in []) item t ≡ last_item (item ++ t)
runs_undelimited item [] = ap last_item (sym (append-nil item))
runs_undelimited item (c ∷ t) =
    runs_undelimited (item ++ c ∷ []) t ∙ ap last_item (append_assoc item (c ∷ []) t)

nonempty-runs : (ts : List Bytes) → nonempty ts ≡ all_runs (is_in []) ts
unfolding nonempty
nonempty-runs [] = refl
nonempty-runs ([] ∷ ts) = nonempty-runs ts
nonempty-runs ((x ∷ t) ∷ ts) =
    ap (◌∷◌ (x ∷ t)) (nonempty-runs ts)
    ∙ ap (λ r. r ++ all_runs (is_in []) ts) (sym (runs_undelimited [] (x ∷ t)))

split_passes-runs :
    (ds : List ℕ) (ts : List Bytes) → nonempty (split_passes ds ts) ≡ all_runs (is_in ds) ts
unfolding split_passes
split_passes-runs [] ts = nonempty-runs ts
split_passes-runs (d ∷ ds) ts = split_passes-runs ds (split_each d ts) ∙ runs-split_each ds d ts

-- `split` by several delimiters, which goes over the tokens once for each delimiter, gives the runs of
-- characters that are none of them, as they are read off the string in one pass: each ends at a
-- delimiter or at the end of the string, and the empty ones are left out.
pub split_any-runs : (ds : List ℕ) (s : Bytes) → split_any ds s ≡ runs (is_in ds) [] s
unfolding split_any
split_any-runs ds s = split_passes-runs ds (s ∷ []) ∙ append-nil (runs (is_in ds) [] s)
