-- ===== src/Strings/Domains.antt =====
-- `invertDomain`, `isStringInVec`, `booltostr` and `removeRedundantDelimeters` of
-- strings/string_utils.cpp.
use mathlib.Core.Option
use hiaux.Base.{
  ℕ, ◌≡◌, refl, sym, ◌∙◌, ap, List, [], ◌∷◌, ◌++◌, Bool, true, false, ◌||◌, Bytes, codes, bytes_eq,
  All, All-append, if◌then◌else◌, Option, none, some, append-nil, append_assoc, ◌==◌,
}
use hiaux.Text.Find.{Lacks}
use hiaux.Strings.Split.{is_empty, last_item, split, split_from, terminate, split-terminate}

-- `i != 0`, of the tokens in front.
abbrev pub dot_after : List Bytes → Bytes
dot_after [] = []
dot_after (t ∷ ts) = b'.' ∷ []

-- The loop, on the tokens from the last one on.
unfoldable pub inverted : List Bytes → Bytes
inverted [] = []
inverted (t ∷ ts) = if is_empty t then inverted ts else t ++ (dot_after ts ++ inverted ts)

abbrev pub reverse {ℓ} : {A : Type ℓ} → List A → List A
reverse [] = []
reverse (x ∷ xs) = reverse xs ++ x ∷ []

unfoldable pub invert_domain : Bytes → Bytes
invert_domain domain = inverted (reverse (split b'.' domain))

unfoldable pub is_string_in_vec : Bytes → List Bytes → Bool
is_string_in_vec s [] = false
is_string_in_vec s (t ∷ ts) = bytes_eq s t || is_string_in_vec s ts

unfoldable pub bool_to_string : Bool → Bytes
bool_to_string true = codes "true"
bool_to_string false = codes "false"

abbrev pub is_delimeter : ℕ → Bool
is_delimeter c = c == b'\t' || c == b'\n'

-- Behind an erased character the iterator is moved on, past the next one, or past the end.
unfoldable pub remove_redundant_delimeters : Bool → Bytes → Option Bytes
remove_redundant_delimeters prev [] = some []
remove_redundant_delimeters prev (c ∷ []) =
    if is_delimeter c then (if prev then none else some (c ∷ [])) else some (c ∷ [])
remove_redundant_delimeters prev (c ∷ d ∷ s) =
    let skipped = remove_redundant_delimeters true s in
    let behind = remove_redundant_delimeters true (d ∷ s) in
    let plain = remove_redundant_delimeters false (d ∷ s) in
    if is_delimeter c
    then (if prev then Option.map (◌∷◌ d) skipped else Option.map (◌∷◌ c) behind)
    else Option.map (◌∷◌ c) plain

-- Labels with a dot between them.
abbrev pub domain_of : List Bytes → Bytes
domain_of [] = []
domain_of (t ∷ ts) = t ++ (dot_after ts ++ domain_of ts)

-- A label has a character and no dot.
abbrev pub IsLabel : Bytes → Type 0
IsLabel t = (is_empty t ≡ false) × Lacks b'.' t

inverted-domain_of : (ts : List Bytes) → All IsLabel ts → inverted ts ≡ domain_of ts
unfolding inverted
inverted-domain_of [] h = refl
inverted-domain_of (t ∷ ts) h = rw (h.0.0, inverted-domain_of ts h.1) refl

All-reverse : (ts : List Bytes) → All IsLabel ts → All IsLabel (reverse ts)
All-reverse [] h = tt
All-reverse (t ∷ ts) h = All-append IsLabel (reverse ts) (t ∷ []) (All-reverse ts h.1) (h.0, tt)

-- The labels of a domain, the last one apart.
front : Bytes → List Bytes → List Bytes
front t [] = []
front t (u ∷ us) = t ∷ front u us

last : Bytes → List Bytes → Bytes
last t [] = t
last t (u ∷ us) = last u us

domain_of-terminate :
    (t : Bytes) (ts : List Bytes) → domain_of (t ∷ ts) ≡ terminate b'.' (front t ts) ++ last t ts
unfolding front last
domain_of-terminate t [] = append-nil t
domain_of-terminate t (u ∷ us) =
    ap (λ s. t ++ b'.' ∷ s) (domain_of-terminate u us)
    ∙ sym (append_assoc t (b'.' ∷ terminate b'.' (front u us)) (last u us))

front-Lacks : (t : Bytes) (ts : List Bytes) → All IsLabel (t ∷ ts) → All (Lacks b'.') (front t ts)
unfolding front
front-Lacks t [] h = tt
front-Lacks t (u ∷ us) h = (h.0.1, front-Lacks u us h.1)

last-IsLabel : (t : Bytes) (ts : List Bytes) → All IsLabel (t ∷ ts) → IsLabel (last t ts)
unfolding last
last-IsLabel t [] h = h.0
last-IsLabel t (u ∷ us) h = last-IsLabel u us h.1

front-last : (t : Bytes) (ts : List Bytes) → front t ts ++ last t ts ∷ [] ≡ t ∷ ts
unfolding front last
front-last t [] = refl
front-last t (u ∷ us) = ap (◌∷◌ t) (front-last u us)

split-domain_of : (ts : List Bytes) → All IsLabel ts → split b'.' (domain_of ts) ≡ ts
unfolding split split_from
split-domain_of [] h = refl
split-domain_of (t ∷ ts) h =
    ap (split b'.') (domain_of-terminate t ts)
    ∙ (split-terminate b'.' (front t ts) (last t ts) (front-Lacks t ts h) (last-IsLabel t ts h).1
        ∙ (ap (λ u. front t ts ++ u) (whole (last t ts) (last-IsLabel t ts h).0) ∙ front-last t ts))
  where
    whole : (u : Bytes) → is_empty u ≡ false → last_item u ≡ u ∷ []
    whole u e = rw e refl

reverse-snoc {ℓ} : {A : Type ℓ} (xs : List A) (x : A) → reverse (xs ++ x ∷ []) ≡ x ∷ reverse xs
reverse-snoc [] x = refl
reverse-snoc (y ∷ xs) x = ap (λ zs. zs ++ y ∷ []) (reverse-snoc xs x)

reverse-reverse {ℓ} : {A : Type ℓ} (xs : List A) → reverse (reverse xs) ≡ xs
reverse-reverse [] = refl
reverse-reverse (x ∷ xs) = reverse-snoc (reverse xs) x ∙ ap (◌∷◌ x) (reverse-reverse xs)

-- The labels of a domain come in the reverse order.
invert_domain-reverse :
    (ts : List Bytes) → All IsLabel ts → invert_domain (domain_of ts) ≡ domain_of (reverse ts)
unfolding invert_domain
invert_domain-reverse ts h =
    ap (λ us. inverted (reverse us)) (split-domain_of ts h)
    ∙ inverted-domain_of (reverse ts) (All-reverse ts h)

-- `invertDomain` of a domain whose labels are not empty puts them in the reverse order, and is
-- undone by a second call.
pub invert_domain-domain_of :
    (ts : List Bytes)
    → All IsLabel ts
    → (invert_domain (domain_of ts) ≡ domain_of (reverse ts))
      × (invert_domain (invert_domain (domain_of ts)) ≡ domain_of ts)
invert_domain-domain_of ts h = (
  invert_domain-reverse ts h,
  ap invert_domain (invert_domain-reverse ts h)
      ∙ (invert_domain-reverse (reverse ts) (All-reverse ts h) ∙ ap domain_of (reverse-reverse ts)),
)
