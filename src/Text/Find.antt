-- ===== src/Text/Find.antt =====
-- `std::string::find` and `find_last_of` of one character; `none` is `npos`.
use hiaux.Base.{
  ℕ, zero, suc, ◌<◌, ◌≡◌, ◌≢◌, refl, ap, [], ◌∷◌, ◌++◌, Option, none, some, arith, Bytes, length,
  take, drop, drop-zero, All, Option-cases, inl, inr, ◌==◌, if◌then◌else◌,
}
use mathlib.Core.Option

-- The position of the first `c`.
unfoldable pub find : ℕ → Bytes → Option ℕ
find c [] = none
find c (x ∷ xs) = if x == c then some 0 else Option.map suc (find c xs)

-- The position of the last `c`.
unfoldable pub find_last : ℕ → Bytes → Option ℕ
find_last c [] = none
find_last c (x ∷ xs) = elim (find_last c xs) [
  | some i ↦ some (suc i)
  | none ↦ if x == c then some 0 else none
]

abbrev pub Lacks : ℕ → Bytes → Type 0
Lacks c = All (λ x. x ≢ c)

pub find-Lacks : (c : ℕ) (xs : Bytes) → find c xs ≡ none → Lacks c xs
unfolding find
find-Lacks c [] h = tt
find-Lacks c (x ∷ xs) h = (ground arith, find-Lacks c xs (ground arith))

pub Lacks-find : (c : ℕ) (xs : Bytes) → Lacks c xs → find c xs ≡ none
unfolding find
Lacks-find c [] h = refl
Lacks-find c (x ∷ xs) h = ground (arith, Lacks-find c xs h.1)

-- The first `c` stands behind a part that lacks it.
pub find-some :
    (c : ℕ) (xs : Bytes) (i : ℕ)
    → find c xs ≡ some i
    → (i < length xs) × Lacks c (take i xs) × (take i xs ++ c ∷ drop (suc i) xs ≡ xs)
unfolding find
find-some c [] i h = ground arith
find-some c (x ∷ xs) zero h = (omega arith, tt, ground (arith, drop-zero xs))
find-some c (x ∷ xs) (suc i) h =
    let (fits, lacks, whole) = find-some c xs i (ground arith) in
    (omega arith, (ground arith, lacks), ap (◌∷◌ x) whole)

pub find-append : (c : ℕ) (xs ys : Bytes) → Lacks c xs → find c (xs ++ c ∷ ys) ≡ some (length xs)
unfolding find
find-append c [] ys h = ground arith
find-append c (x ∷ xs) ys h = ground (arith, find-append c xs ys h.1)

pub find_last-none : (c : ℕ) (xs : Bytes) → Lacks c xs → find_last c xs ≡ none
unfolding find_last
find_last-none c [] h = refl
find_last-none c (x ∷ xs) h = ground (arith, find_last-none c xs h.1)

pub find_last-append :
    (c : ℕ) (xs ys : Bytes) → Lacks c ys → find_last c (xs ++ c ∷ ys) ≡ some (length xs)
unfolding find_last
find_last-append c [] ys h = ground (arith, find_last-none c ys h)
find_last-append c (x ∷ xs) ys h = ground (arith, find_last-append c xs ys h)

-- The last `c` is where the first part has it if the second has none.
pub find_last-front : (c : ℕ) (xs ys : Bytes) → Lacks c ys → find_last c (xs ++ ys) ≡ find_last c xs
unfolding find_last
find_last-front c [] ys h = find_last-none c ys h
find_last-front c (x ∷ xs) ys h = rw (find_last-front c xs ys h) refl

pub find_last-bound : (c : ℕ) (xs : Bytes) (i : ℕ) → find_last c xs ≡ some i → i < length xs
unfolding find_last
find_last-bound c [] i h = ground arith
find_last-bound c (x ∷ xs) i h = elim (Option-cases (find_last c xs)) [
  | inl e ↦ ground arith
  | inr (j, e) ↦ ground (arith, find_last-bound c xs j e)
]
