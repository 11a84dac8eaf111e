-- ===== src/Strings/Query/Fields.antt =====
-- `parseGET` of strings/string_utils.cpp on a field of the query: the loop's steps.
use hiaux.Base.{
  ℕ, ◌+◌, ◌-◌, ◌≡◌, ◌≢◌, refl, ap, ◌∙◌, [], ◌∷◌, ◌++◌, Bytes, length, arith, length-append,
  take-append, drop-append, append_assoc,
}
use hiaux.Base.Dict.{Dict, put}
use hiaux.Text.Find.{Lacks}
use hiaux.Strings.Query.{key, value, Loop, substr, next_sbeg, query_step, query_loop, start}

pub substr-middle :
    (before s rest : Bytes) (pos n : ℕ)
    → pos ≡ length before
    → n ≡ length s
    → substr (before ++ (s ++ rest)) pos n ≡ s
substr-middle before s rest pos n e f =
    rw (e, f, drop-append before (s ++ rest)) (take-append s rest)

pub next_sbeg-append : (s rest : Bytes) (i c : ℕ) → next_sbeg (s ++ c ∷ rest) i ≡ i + 1
unfolding next_sbeg
next_sbeg-append [] rest i c = refl
next_sbeg-append (x ∷ s) rest i c = refl

-- Between two fields: a key, or a value, starts at `n`.
abbrev pub at_key : ℕ → Bytes → Bytes → Dict Bytes → Loop
at_key n k v m = record { state = key; sbeg = n; key = k; value = v; values_get = m }

abbrev pub at_value : ℕ → Bytes → Bytes → Dict Bytes → Loop
at_value n k v m = record { state = value; sbeg = n; key = k; value = v; values_get = m }

-- No character of the field is one that the loop looks for.
abbrev pub IsPlain : Bytes → Type 0
IsPlain s = Lacks b'?' s × Lacks b'=' s × Lacks b'&' s

pub substr-key :
    (data_ before k rest : Bytes) (n : ℕ)
    → data_ ≡ before ++ (k ++ rest)
    → n ≡ length before
    → substr data_ n (n + length k - n) ≡ k
substr-key data_ before k rest n d e =
    rw d (substr-middle before k rest n (n + length k - n) e (omega arith))

pub substr-value :
    (data_ before k v rest : Bytes) (n q : ℕ)
    → data_ ≡ before ++ (k ++ b'=' ∷ (v ++ rest))
    → n ≡ length before
    → q ≡ length v
    → substr data_ (n + length k + 1) q ≡ v
substr-value data_ before k v rest n q d e f =
    let whole : data_ ≡ (before ++ (k ++ b'=' ∷ [])) ++ (v ++ rest) = d ∙ simp append_assoc in
    rw whole (
      substr-middle (before ++ (k ++ b'=' ∷ [])) v rest (n + length k + 1) q
        (omega (arith, length-append before (k ++ b'=' ∷ []), length-append k (b'=' ∷ []))) f)

-- `unescape` is libcurl's.
module _ (unescape : Bytes → Bytes) where
  query_step-plain :
      (data_ : Bytes) (l : Loop) (c i : ℕ) (rest : Bytes)
      → c ≢ b'?'
      → c ≢ b'='
      → c ≢ b'&'
      → query_step unescape data_ l c i rest ≡ l
  unfolding query_step
  query_step-plain data_ l c i rest a b d = ground arith

  pub query_loop-plain :
      (data_ : Bytes) (l : Loop) (i : ℕ) (s rest : Bytes)
      → IsPlain s
      → query_loop unescape data_ l i (s ++ rest) ≡ query_loop unescape data_ l (i + length s) rest
  unfolding query_loop
  query_loop-plain data_ l i [] rest h = ap (λ j. query_loop unescape data_ l j rest) (omega arith)
  query_loop-plain data_ l i (c ∷ s) rest ((a, h), (b, k), (d, m)) =
      ap (λ q. query_loop unescape data_ q (i + 1) (s ++ rest))
        (query_step-plain data_ l c i (s ++ rest) a b d)
      ∙ query_loop-plain data_ l (i + 1) s rest (h, k, m)
      ∙ ap (λ j. query_loop unescape data_ l j rest) (omega arith)

  pub query_loop-question :
      (data_ : Bytes) (m : Dict Bytes) (i : ℕ) (rest : Bytes)
      → query_loop unescape data_ (start m) i (b'?' ∷ rest)
        ≡ query_loop unescape data_ (at_key (next_sbeg rest i) [] [] m) (i + 1) rest
  unfolding query_loop query_step start
  query_loop-question data_ m i rest = refl

  pub query_loop-equals :
      (data_ : Bytes) (n : ℕ) (k v : Bytes) (m : Dict Bytes) (i : ℕ) (rest : Bytes)
      → query_loop unescape data_ (at_key n k v m) i (b'=' ∷ rest)
        ≡ query_loop unescape data_
            (at_value (next_sbeg rest i) (substr data_ n (i - n)) v m)
            (i + 1)
            rest
  unfolding query_loop query_step
  query_loop-equals data_ n k v m i rest = refl

  pub query_loop-ampersand :
      (data_ : Bytes) (n : ℕ) (k v : Bytes) (m : Dict Bytes) (i : ℕ) (rest : Bytes)
      → query_loop unescape data_ (at_value n k v m) i (b'&' ∷ rest)
        ≡ query_loop unescape data_
            (at_key
              (next_sbeg rest i)
              k
              (substr data_ n (i - n))
              (put k (unescape (unescape (substr data_ n (i - n)))) m))
            (i + 1)
            rest
  unfolding query_loop query_step
  query_loop-ampersand data_ n k v m i rest = refl

  pub query_loop-field :
      (data_ before k v w rest k0 v0 : Bytes) (m : Dict Bytes) (n i : ℕ)
      → w ≡ v ++ rest
      → data_ ≡ before ++ (k ++ b'=' ∷ w)
      → IsPlain k
      → IsPlain v
      → n ≡ length before
      → i ≡ n
      → next_sbeg w (n + length k) ≡ n + length k + 1
      → query_loop unescape data_ (at_key n k0 v0 m) i (k ++ b'=' ∷ w)
        ≡ query_loop unescape data_
            (at_value (n + length k + 1) k v0 m)
            (n + length k + 1 + length v)
            rest
  query_loop-field data_ before k v w rest k0 v0 m n i split d h j e f g =
      rw
        (
          query_loop-plain data_ (at_key n k0 v0 m) i k (b'=' ∷ w) h,
          f,
          query_loop-equals data_ n k0 v0 m (n + length k) w,
          g,
          substr-key data_ before k (b'=' ∷ w) n d e,
          split,
        )
        (query_loop-plain data_ (at_value (n + length k + 1) k v0 m) (n + length k + 1) v rest j)
