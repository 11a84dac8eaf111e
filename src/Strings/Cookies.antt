-- ===== src/Strings/Cookies.antt =====
-- `parseCookies` in strings/string_utils.cpp.
use hiaux.Base.{
  ℕ, suc, ◌+◌, ◌-◌, ◌≡◌, ◌≢◌, refl, ap, ◌∙◌, List, [], ◌∷◌, ◌++◌, Bool, true, false, Option, none,
  some, Bytes, length, take, drop, ◌==◌, if◌then◌else◌, arith, All, All-append, length-append,
  take-append, drop-append, drop-zero, append_assoc, append-nil, take-length, map,
}
use hiaux.Base.Dict.{Dict, put}
use hiaux.Text.Find.{find, Lacks, find-append}
use hiaux.Strings.Spaces.{char_at}
use hiaux.Strings.Split.{
  split, split_from, split_any, split_each, split_passes, nonempty, is_empty, terminate,
  split-terminate,
}

unfoldable pub put_cookie : Bytes → Option ℕ → Dict Bytes → Dict Bytes
put_cookie elem none cookies = cookies
put_cookie elem (some eq_pos) cookies =
    if char_at elem 0 == b' '
    then put (take (eq_pos - 1) (drop 1 elem))
        (take (length elem - eq_pos - 1) (drop (eq_pos + 1) elem)) cookies
    else put (take eq_pos elem) (take (length elem - eq_pos - 1) (drop (eq_pos + 1) elem)) cookies

unfoldable pub put_cookies : List Bytes → Dict Bytes → Dict Bytes
put_cookies [] cookies = cookies
put_cookies (elem ∷ elems) cookies =
    if is_empty elem
    then put_cookies elems cookies
    else put_cookies elems (put_cookie elem (find b'=' elem) cookies)

unfoldable pub parse_cookies : Bytes → Dict Bytes → Dict Bytes
parse_cookies header cookies = put_cookies (split_any (b';' ∷ []) header) cookies

-- A cookie of a header, with a space in front of it or not.
pub record Cookie : Type 0 where
  pub spaced : Bool
  pub name : Bytes
  pub value : Bytes

abbrev pub space : Bool → Bytes
space true = b' ' ∷ []
space false = []

abbrev pub print_cookie : Cookie → Bytes
print_cookie c = space c.spaced ++ (c.name ++ b'=' ∷ c.value)

-- The name is not empty, does not start with a space and has no `=` or `;`; the value has no `;`.
pub record IsCookie (c : Cookie) : Type 0 where
  pub starts : char_at (c.name ++ b'=' ∷ c.value) 0 ≢ b' '
  pub name_eq : Lacks b'=' c.name
  pub name_semi : Lacks b';' c.name
  pub value_semi : Lacks b';' c.value

abbrev pub put_printed : List Cookie → Dict Bytes → Dict Bytes
put_printed [] m = m
put_printed (c ∷ cs) m = put_printed cs (put c.name c.value m)

take-rest :
    (s t : Bytes) (c n : ℕ)
    → n ≡ length s
    → take (length (s ++ c ∷ t) - n - 1) (drop (n + 1) (s ++ c ∷ t)) ≡ t
take-rest s t c n e =
    let behind : drop (n + 1) (s ++ c ∷ t) ≡ t =
      rw (← append_assoc s (c ∷ []) t, the_end) (drop-append (s ++ c ∷ []) t) in
    let left : length (s ++ c ∷ t) - n - 1 ≡ length t = omega (arith, length-append s (c ∷ t)) in
    rw (behind, left) (take-length t)
  where
    the_end : n + 1 ≡ length (s ++ c ∷ [])
    the_end = omega (arith, length-append s (c ∷ []))

put_cookie-spaced :
    (spaced : Bool) (n v : Bytes) (m : Dict Bytes)
    → char_at (n ++ b'=' ∷ v) 0 ≢ b' '
    → Lacks b'=' n
    → put_cookie (space spaced ++ (n ++ b'=' ∷ v)) (find b'=' (space spaced ++ (n ++ b'=' ∷ v))) m
      ≡ put n v m
unfolding put_cookie char_at
put_cookie-spaced true n v m h k =
    let key : take (suc (length n) - 1) (drop 1 (b' ' ∷ (n ++ b'=' ∷ v))) ≡ n =
      rw (drop-zero (n ++ b'=' ∷ v))
        (ap (λ j. take j (n ++ b'=' ∷ v)) (omega arith) ∙ take-append n (b'=' ∷ v)) in
    rw
      (
        find-append b'=' (b' ' ∷ n) v (omega arith, k),
        key,
        take-rest (b' ' ∷ n) v b'=' (suc (length n)) refl,
      )
      refl
put_cookie-spaced false n v m h k =
    rw (find-append b'=' n v k, take-append n (b'=' ∷ v), take-rest n v b'=' (length n) refl)
      (ground arith)

is_empty-print_cookie : (c : Cookie) → is_empty (print_cookie c) ≡ false
is_empty-print_cookie c = go c.spaced c.name
  where
    go : (spaced : Bool) (n : Bytes) → is_empty (space spaced ++ (n ++ b'=' ∷ c.value)) ≡ false
    go true n = refl
    go false [] = refl
    go false (x ∷ n) = refl

put_cookies-print :
    (cs : List Cookie) (m : Dict Bytes)
    → All IsCookie cs
    → put_cookies (map print_cookie cs) m ≡ put_printed cs m
unfolding put_cookies
put_cookies-print [] m h = refl
put_cookies-print (c ∷ cs) m (h, hs) =
    rw (is_empty-print_cookie c, put_cookie-spaced c.spaced c.name c.value m h.starts h.name_eq)
      (put_cookies-print cs (put c.name c.value m) hs)

put_cookies-nonempty :
    (elems : List Bytes) (m : Dict Bytes) → put_cookies (nonempty elems) m ≡ put_cookies elems m
unfolding put_cookies nonempty
put_cookies-nonempty [] m = refl
put_cookies-nonempty ([] ∷ elems) m = put_cookies-nonempty elems m
put_cookies-nonempty ((x ∷ elem) ∷ elems) m =
    put_cookies-nonempty elems (put_cookie (x ∷ elem) (find b'=' (x ∷ elem)) m)

split_any-one : (d : ℕ) (s : Bytes) → split_any (d ∷ []) s ≡ nonempty (split d s)
unfolding split_any split_passes split_each split split_from nonempty
split_any-one d [] = refl
split_any-one d (x ∷ s) = ap nonempty (append-nil (split d (x ∷ s)))

print_cookie-Lacks : (c : Cookie) → IsCookie c → Lacks b';' (print_cookie c)
print_cookie-Lacks c h =
    All-append (λ x. x ≢ b';') (space c.spaced) (c.name ++ b'=' ∷ c.value) (of_space c.spaced)
      (All-append (λ x. x ≢ b';') c.name (b'=' ∷ c.value) h.name_semi (omega arith, h.value_semi))
  where
    of_space : (spaced : Bool) → Lacks b';' (space spaced)
    of_space true = (omega arith, tt)
    of_space false = tt

print_cookies-Lacks : (cs : List Cookie) → All IsCookie cs → All (Lacks b';') (map print_cookie cs)
print_cookies-Lacks [] h = tt
print_cookies-Lacks (c ∷ cs) (h, hs) = (print_cookie-Lacks c h, print_cookies-Lacks cs hs)

map-snoc :
    (cs : List Cookie) (c : Cookie)
    → map print_cookie cs ++ print_cookie c ∷ [] ≡ map print_cookie (cs ++ c ∷ [])
map-snoc [] c = refl
map-snoc (d ∷ cs) c = ap (◌∷◌ (print_cookie d)) (map-snoc cs c)

-- The cookies of a header, a semicolon between two and a space in front of a name or not, are put
-- into the map in their order, each name with its value.
pub parse_cookies-print :
    (cs : List Cookie) (c : Cookie) (m : Dict Bytes)
    → All IsCookie cs
    → IsCookie c
    → parse_cookies (terminate b';' (map print_cookie cs) ++ print_cookie c) m
      ≡ put_printed (cs ++ c ∷ []) m
unfolding parse_cookies
parse_cookies-print cs c m hs h =
    rw
      (
        split_any-one b';' (terminate b';' (map print_cookie cs) ++ print_cookie c),
        put_cookies-nonempty (split b';' (terminate b';' (map print_cookie cs) ++ print_cookie c))
            m,
        split-terminate b';' (map print_cookie cs) (print_cookie c) (print_cookies-Lacks cs hs)
            (print_cookie-Lacks c h),
        is_empty-print_cookie c,
        map-snoc cs c,
      )
      (put_cookies-print (cs ++ c ∷ []) m (All-append IsCookie cs (c ∷ []) hs (h, tt)))
