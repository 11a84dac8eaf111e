-- ===== src/Strings/Spaces.antt =====
-- `removeLeadingSpaces`, `removeEndingSpaces` and their composition in strings/string_utils.cpp.
use hiaux.Base.{
  ℕ, zero, suc, ◌+◌, ◌-◌, ◌<◌, ◌≡◌, ◌≢◌, refl, ap, ◌∙◌, [], ◌∷◌, ◌++◌, not, Option, some, none,
  Bytes, length, take, drop, get_elem?, ◌==◌, if◌then◌else◌, arith, length-append, take-append,
  take-length, drop-zero,
}
use mathlib.Core.Option.{get_or}

-- `s[i]`: the NUL behind the last character at `size()`.
unfoldable pub char_at : Bytes → ℕ → ℕ
char_at s i = get_or (get_elem? s i) 0

-- The loop over the leading spaces, on what is left of the string: how many they are.
unfoldable pub leading_spaces : Bytes → ℕ
leading_spaces [] = 0
leading_spaces (c ∷ s) = if c == b' ' then suc (leading_spaces s) else 0

unfoldable pub remove_leading_spaces : Bytes → Bytes
remove_leading_spaces s =
    if not (char_at s 0 == b' ')
    then s
    else take (length s - leading_spaces s) (drop (leading_spaces s) s)

-- The loop over the ending spaces, from a position down: the last that is no space, or 0.
unfoldable pub last_before_spaces : Bytes → ℕ → ℕ
last_before_spaces s zero = 0
last_before_spaces s (suc p) =
    let rest = last_before_spaces s p in if char_at s (suc p) == b' ' then rest else suc p

-- `none` where `s[s.size() - 1]` is outside of the string.
unfoldable pub remove_ending_spaces : Bytes → Option Bytes
remove_ending_spaces [] = none
remove_ending_spaces (c ∷ s) =
    if not (char_at (c ∷ s) (length s) == b' ')
    then some (c ∷ s)
    else some (take (last_before_spaces (c ∷ s) (length s)) (c ∷ s))

unfoldable pub remove_leading_and_ending_spaces : Bytes → Option Bytes
remove_leading_and_ending_spaces s = remove_ending_spaces (remove_leading_spaces s)

abbrev pub spaces : ℕ → Bytes
spaces zero = []
spaces (suc n) = b' ' ∷ spaces n

length-spaces : (n : ℕ) → length (spaces n) ≡ n
length-spaces zero = refl
length-spaces (suc n) = omega (arith, length-spaces n)

leading_spaces-spaces :
    (n : ℕ) (s : Bytes) → leading_spaces s ≡ 0 → leading_spaces (spaces n ++ s) ≡ n
unfolding leading_spaces
leading_spaces-spaces zero s h = h
leading_spaces-spaces (suc n) s h = ap suc (leading_spaces-spaces n s h)

drop-spaces : (n : ℕ) (s : Bytes) → drop n (spaces n ++ s) ≡ s
drop-spaces zero s = drop-zero s
drop-spaces (suc n) s = drop-spaces n s

take-all : (n : ℕ) (s : Bytes) → n ≡ length s → take n s ≡ s
take-all n s e = rw e (take-length s)

not_leading : (s : Bytes) → leading_spaces s ≡ 0 → remove_leading_spaces s ≡ s
unfolding remove_leading_spaces leading_spaces char_at
not_leading [] h = refl
not_leading (c ∷ s) h = ground arith

-- `removeLeadingSpaces` takes off the spaces in front and nothing else.
pub remove_leading_spaces_lem :
    (n : ℕ) (s : Bytes) → leading_spaces s ≡ 0 → remove_leading_spaces (spaces n ++ s) ≡ s
unfolding remove_leading_spaces char_at
remove_leading_spaces_lem zero s h = not_leading s h
remove_leading_spaces_lem (suc n) s h =
    rw (leading_spaces-spaces (suc n) s h, drop-spaces (suc n) s)
      (take-all (length (spaces (suc n) ++ s) - suc n) s
        (omega (arith, length-append (spaces (suc n)) s, length-spaces (suc n))))

char_at-append : (s t : Bytes) (i p : ℕ) → p ≡ length s + i → char_at (s ++ t) p ≡ char_at t i
unfolding char_at
char_at-append [] t i p e = ap (λ j. get_or (get_elem? t j) 0) (omega arith)
char_at-append (x ∷ s) t i zero e = absurd (omega arith)
char_at-append (x ∷ s) t i (suc p) e = char_at-append s t i p (omega arith)

char_at-spaces : (n i : ℕ) → i < n → char_at (spaces n) i ≡ b' '
unfolding char_at
char_at-spaces (suc n) zero h = refl
char_at-spaces (suc n) (suc i) h = char_at-spaces n i (omega arith)
char_at-spaces zero i h = absurd (omega arith)

last_before_spaces-found :
    (s : Bytes) (p k q : ℕ)
    → q ≡ p + k
    → char_at s p ≢ b' '
    → ((i : ℕ) → i < k → char_at s (p + suc i) ≡ b' ')
    → last_before_spaces s q ≡ p
unfolding last_before_spaces
last_before_spaces-found s p k zero e h f = omega arith
last_before_spaces-found s p zero (suc q) e h f = let eq : suc q ≡ p = omega arith in ground arith
last_before_spaces-found s p (suc k) (suc q) e h f =
    let eq : suc q ≡ p + suc k = omega arith in
    ground (
      arith,
      f k (omega arith),
      last_before_spaces-found s p k q (omega arith) h (λ i l. f i (omega arith)),
    )

remove_ending_spaces-step :
    (s : Bytes) (q : ℕ)
    → length s ≡ suc q
    → char_at s q ≡ b' '
    → remove_ending_spaces s ≡ some (take (last_before_spaces s q) s)
unfolding remove_ending_spaces
remove_ending_spaces-step [] q e h = absurd (omega arith)
remove_ending_spaces-step (c ∷ s) q e h = let eq : length s ≡ q = omega arith in rw (eq, h) refl

-- If a string ends in spaces, `removeEndingSpaces` takes the last character before them too.
pub remove_ending_spaces_lem :
    (s : Bytes) (c n : ℕ) → c ≢ b' ' → remove_ending_spaces (s ++ c ∷ spaces (suc n)) ≡ some s
unfolding char_at
remove_ending_spaces_lem s c n h =
    let size : length (s ++ c ∷ spaces (suc n)) ≡ suc (length s + suc n) =
      omega (arith, length-append s (c ∷ spaces (suc n)), length-spaces (suc n)) in
    rw
      (
        remove_ending_spaces-step (s ++ c ∷ spaces (suc n)) (length s + suc n) size
            (space n (omega arith)),
        last_before_spaces-found (s ++ c ∷ spaces (suc n)) (length s) (suc n) (length s + suc n)
            refl (rw (char_at-append s (c ∷ spaces (suc n)) 0 (length s) (omega arith)) h) space,
      )
      (ap some (take-append s (c ∷ spaces (suc n))))
  where
    space : (i : ℕ) → i < suc n → char_at (s ++ c ∷ spaces (suc n)) (length s + suc i) ≡ b' '
    space i l =
        char_at-append s (c ∷ spaces (suc n)) (suc i) (length s + suc i) refl
        ∙ char_at-spaces (suc n) i l
