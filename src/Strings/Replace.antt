-- ===== src/Strings/Replace.antt =====
-- `replaceString` and `replaceSubstring` of strings/string_utils.cpp.
use mathlib.Core.Option
use hiaux.Base.{
  ℕ, zero, suc, ◌+◌, ◌≤◌, ◌<◌, ◌≡◌, refl, sym, ◌∙◌, ap, [], ◌∷◌, ◌++◌, Bool, true, false, ◌&&◌,
  Option, none, some, Bytes, length, take, drop, arith, ◌==◌, if◌then◌else◌, append_assoc,
  length-append, length-take, length-drop,
}

unfoldable pub starts_with : Bytes → Bytes → Bool
starts_with [] s = true
starts_with (w ∷ ws) [] = false
starts_with (w ∷ ws) (c ∷ s) = w == c && starts_with ws s

-- `std::string::find` of a text: its first position.
unfoldable pub find_text : Bytes → Bytes → Option ℕ
find_text what [] = if starts_with what [] then some 0 else none
find_text what (c ∷ s) =
    if starts_with what (c ∷ s) then some 0 else Option.map suc (find_text what s)

unfoldable pub replace_at : Bytes → Bytes → Bytes → ℕ → Bytes
replace_at s what to p = take p s ++ (to ++ drop (p + length what) s)

unfoldable pub substring_replaced : Bytes → Bytes → Bytes → Option ℕ → Bytes
substring_replaced s from to none = s
substring_replaced s from to (some p) = replace_at s from to p

unfoldable pub replace_substring : Bytes → Bytes → Bytes → Bytes
replace_substring s from to = substring_replaced s from to (find_text from s)

-- The loop of `replaceString`; `none` if the fuel is used up.
unfoldable pub replace_next :
    (Bytes → Option Bytes) → Bytes → Bytes → Bytes → Option ℕ → Option Bytes
replace_next next s what to none = some s
replace_next next s what to (some p) = next (replace_at s what to p)

unfoldable pub replace_string : ℕ → Bytes → Bytes → Bytes → Option Bytes
replace_string zero s what to = none
replace_string (suc fuel) s what to =
    replace_next (λ t. replace_string fuel t what to) s what to (find_text what s)

-- The text stands somewhere in the string.
abbrev pub IsIn : Bytes → Bytes → Type 0
IsIn what s = (a : Bytes) × (b : Bytes) × (s ≡ a ++ (what ++ b))

starts_with-append : (what s : Bytes) → starts_with what (what ++ s) ≡ true
unfolding starts_with
starts_with-append [] s = refl
starts_with-append (w ∷ ws) s = ground (arith, starts_with-append ws s)

starts_with-true : (what s : Bytes) → starts_with what s ≡ true → (b : Bytes) × (s ≡ what ++ b)
unfolding starts_with
starts_with-true [] s h = (s, refl)
starts_with-true (w ∷ ws) [] h = ground arith
starts_with-true (w ∷ ws) (c ∷ s) h =
    let rest = starts_with-true ws s (ground arith) in (rest.0, ground (arith, rest.1))

-- What is there is found.
IsIn-find_text : (what a b : Bytes) → find_text what (a ++ (what ++ b)) ≡ none → ⊥
unfolding find_text starts_with
IsIn-find_text [] [] [] h = ground arith
IsIn-find_text [] [] (c ∷ b) h = ground arith
IsIn-find_text (w ∷ ws) [] b h = ground (arith, starts_with-append (w ∷ ws) b)
IsIn-find_text what (c ∷ a) b h = ground (arith, IsIn-find_text what a b)

starts_with-length : (what s : Bytes) → starts_with what s ≡ true → length what ≤ length s
unfolding starts_with
starts_with-length [] s h = omega arith
starts_with-length (w ∷ ws) [] h = ground arith
starts_with-length (w ∷ ws) (c ∷ s) h = omega (arith, starts_with-length ws s (ground arith))

-- What is found fits.
find_text-some : (what s : Bytes) (p : ℕ) → find_text what s ≡ some p → p + length what ≤ length s
unfolding find_text
find_text-some what [] p h = go (starts_with what []) refl h
  where
    go :
        (b : Bool)
        → starts_with what [] ≡ b
        → (if b then some 0 else none) ≡ some p
        → p + length what ≤ 0
    go true e h = ground (arith, starts_with-length what [] e)
    go false e h = ground arith
find_text-some what (c ∷ s) p h =
    go (starts_with what (c ∷ s)) refl (find_text what s) (λ q. find_text-some what s q) h
  where
    go :
        (b : Bool)
        → starts_with what (c ∷ s) ≡ b
        → (o : Option ℕ) → ((q : ℕ) → o ≡ some q → q + length what ≤ length s)
        → (if b then some 0 else Option.map suc o) ≡ some p
        → p + length what ≤ suc (length s)
    go true e o k h = ground (arith, starts_with-length what (c ∷ s) e)
    go false e none k h = ground arith
    go false e (some q) k h = ground (arith, k q refl)

-- A replacement shortens by what `to` is shorter than `what`.
replace_at-length :
    (s what to : Bytes) (p : ℕ)
    → p + length what ≤ length s
    → length (replace_at s what to p) + length what ≡ length s + length to
unfolding replace_at
replace_at-length s what to p h = omega (
  arith,
  h,
  length-append (take p s) (to ++ drop (p + length what) s),
  length-append to (drop (p + length what) s),
  length-take p s (omega (arith, h)),
  length-drop (p + length what) s,
)

-- The new text has `what` where `to` has it.
replace_at-IsIn : (s what to : Bytes) (p : ℕ) → IsIn what to → IsIn what (replace_at s what to p)
unfolding replace_at
replace_at-IsIn s what to p (a, b, e) = (
  take p s ++ a,
  b ++ drop (p + length what) s,
  ap (λ t. take p s ++ (t ++ drop (p + length what) s)) e
      ∙ (ap (◌++◌ (take p s)) (
            append_assoc a (what ++ b) (drop (p + length what) s)
            ∙ ap (◌++◌ a) (append_assoc what b (drop (p + length what) s)))
          ∙ sym (append_assoc (take p s) a (what ++ (b ++ drop (p + length what) s)))),
)

absent : (what s : Bytes) → find_text what s ≡ none → IsIn what s → ⊥
absent what s d (a, b, e) = IsIn-find_text what a b (ap (find_text what) (sym e) ∙ d)

-- `replaceString` ends when `to` is shorter than `what`: with one round more than the string is long it
-- gives a string that has no `what` any more.
pub replace_string-IsIn :
    (n : ℕ) (s what to : Bytes)
    → length to < length what
    → length s ≤ n
    → (r : Bytes) × (replace_string (suc n) s what to ≡ some r) × ¬ IsIn what r
unfolding replace_string replace_next
replace_string-IsIn zero s what to h k = go (find_text what s) refl
  where
    go :
        (o : Option ℕ)
        → find_text what s ≡ o
        → (r : Bytes) × (replace_next (λ t. replace_string zero t what to) s what to o ≡ some r)
          × ¬ IsIn what r
    go none d = (s, refl, λ i. absent what s d i)
    go (some p) d = absurd (omega (arith, h, k, find_text-some what s p d))
replace_string-IsIn (suc n) s what to h k =
    go (λ t l. replace_string-IsIn n t what to h l) (find_text what s) refl
  where
    go :
        ((t : Bytes)
          → length t ≤ n
          → (r : Bytes) × (replace_string (suc n) t what to ≡ some r) × ¬ IsIn what r)
        → (o : Option ℕ) → find_text what s ≡ o
        → (r : Bytes) × (replace_next (λ t. replace_string (suc n) t what to) s what to o ≡ some r)
          × ¬ IsIn what r
    go rec none d = (s, refl, λ i. absent what s d i)
    go rec (some p) d =
        rec (replace_at s what to p)
          (omega (arith, h, k, replace_at-length s what to p (find_text-some what s p d)))

-- `replaceString` does not end when `to` has `what` in it and the string has it too: no number of rounds
-- gives a result.
pub replace_string_endless :
    (n : ℕ) (s what to : Bytes) → IsIn what to → IsIn what s → replace_string n s what to ≡ none
unfolding replace_string replace_next
replace_string_endless zero s what to h k = refl
replace_string_endless (suc n) s what to h (a, b, e) =
    go (λ t i. replace_string_endless n t what to h i) (find_text what s) refl
  where
    go :
        ((t : Bytes) → IsIn what t → replace_string n t what to ≡ none)
        → (o : Option ℕ) → find_text what s ≡ o
        → replace_next (λ t. replace_string n t what to) s what to o ≡ none
    go rec none d = absurd (IsIn-find_text what a b (ap (find_text what) (sym e) ∙ d))
    go rec (some p) d = rec (replace_at s what to p) (replace_at-IsIn s what to p h)
