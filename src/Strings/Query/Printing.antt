-- ===== src/Strings/Query/Printing.antt =====
-- `parseGET` of strings/string_utils.cpp on a whole query.
use hiaux.Base.{
  ℕ, ◌+◌, ◌-◌, ◌≡◌, refl, ap, sym, ◌∙◌, List, [], ◌∷◌, ◌++◌, Bytes, length, arith, All,
  length-append, append_assoc, append-nil,
}
use hiaux.Base.Dict.{Dict, put}
use hiaux.Strings.Query.{substr, next_sbeg, query_loop, last_value, start, parse_get}
use hiaux.Strings.Query.Fields.{
  at_key, IsPlain, substr-middle, next_sbeg-append, query_loop-plain, query_loop-equals,
  query_loop-question, query_loop-ampersand, substr-key, substr-value, query_loop-field,
}

-- A query: its parameters, the last of them with a value.
abbrev pub print_query : List (Bytes × Bytes) → Bytes → Bytes → Bytes
print_query [] k v = k ++ b'=' ∷ v
print_query ((k, v) ∷ kvs) k' v' = k ++ b'=' ∷ (v ++ b'&' ∷ print_query kvs k' v')

next_sbeg-print_query :
    (kvs : List (Bytes × Bytes)) (k v : Bytes) (i : ℕ) → next_sbeg (print_query kvs k v) i ≡ i + 1
next_sbeg-print_query [] k v i = next_sbeg-append k v i b'='
next_sbeg-print_query ((k', v') ∷ kvs) k v i = next_sbeg-append k' _ i b'='

-- `unescape` is libcurl's.
module _ (unescape : Bytes → Bytes) where
  -- The parameters put into the map, in order.
  abbrev pub put_query : List (Bytes × Bytes) → Dict Bytes → Dict Bytes
  put_query [] m = m
  put_query ((k, v) ∷ kvs) m = put_query kvs (put k (unescape (unescape v)) m)

  parse_fields :
      (kvs : List (Bytes × Bytes)) (data_ before k v k0 v0 : Bytes) (c : ℕ) (m : Dict Bytes)
      (n i : ℕ)
      → data_ ≡ before ++ print_query kvs k (c ∷ v)
      → All (λ kv. IsPlain kv.0 × IsPlain kv.1) kvs
      → IsPlain k
      → IsPlain (c ∷ v)
      → n ≡ length before
      → i ≡ n
      → last_value unescape data_
          (query_loop unescape data_ (at_key n k0 v0 m) i (print_query kvs k (c ∷ v)))
        ≡ put k (unescape (unescape (c ∷ v))) (put_query kvs m)
  unfolding last_value query_loop next_sbeg
  parse_fields [] data_ before k v k0 v0 c m n i d hs h j e f =
      rw
        (
          query_loop-field unescape data_ before k (c ∷ v) (c ∷ v) [] k0 v0 m n i
              (sym (append-nil (c ∷ v))) d h j e f refl,
          substr-value data_ before k (c ∷ v) [] n (length data_ - (n + length k + 1))
              (d ∙ ap (λ w. before ++ (k ++ b'=' ∷ w)) (sym (append-nil (c ∷ v)))) e
              (omega (
                arith,
                ap length d,
                length-append before (k ++ b'=' ∷ c ∷ v),
                length-append k (b'=' ∷ c ∷ v),
              )),
        )
        refl
  parse_fields ((k', v') ∷ kvs) data_ before k v k0 v0 c m n i d ((a, b), hs) h j e f =
      let more = print_query kvs k (c ∷ v) in
      let p = n + length k' + 1 in
      let at_end : p + length v' - p ≡ length v' = omega arith in
      rw
        (
          query_loop-field unescape data_ before k' v' (v' ++ b'&' ∷ more) (b'&' ∷ more) k0 v0 m n i
              refl d a b e f (next_sbeg-append v' more (n + length k') b'&'),
          query_loop-ampersand unescape data_ p k' v0 m (p + length v') more,
          next_sbeg-print_query kvs k (c ∷ v) (p + length v'),
          substr-value data_ before k' v' (b'&' ∷ more) n (p + length v' - p) d e at_end,
        )
        (parse_fields kvs data_ (before ++ (k' ++ b'=' ∷ (v' ++ b'&' ∷ []))) k v k' v' c
          (put k' (unescape (unescape v')) m) (p + length v' + 1) (p + length v' + 1)
          (d ∙ simp append_assoc) hs h j
          (omega (
            arith,
            length-append before (k' ++ b'=' ∷ (v' ++ b'&' ∷ [])),
            length-append k' (b'=' ∷ (v' ++ b'&' ∷ [])),
            length-append v' (b'&' ∷ []),
          ))
          refl)

  -- The parameters of a URL behind its path, whose names and values hold none of `?`, `=` and `&`
  -- and whose last value is not empty, are put into the map in their order, each value unescaped
  -- twice.
  pub parse_get-print_query :
      (path : Bytes) (kvs : List (Bytes × Bytes)) (k v : Bytes) (c : ℕ) (m : Dict Bytes)
      → IsPlain path
      → All (λ kv. IsPlain kv.0 × IsPlain kv.1) kvs
      → IsPlain k
      → IsPlain (c ∷ v)
      → parse_get unescape (path ++ b'?' ∷ print_query kvs k (c ∷ v)) m
        ≡ put k (unescape (unescape (c ∷ v))) (put_query kvs m)
  unfolding parse_get
  parse_get-print_query path kvs k v c m g hs h j =
      let more = print_query kvs k (c ∷ v) in
      rw
        (
          query_loop-plain unescape (path ++ b'?' ∷ more) (start m) 0 path (b'?' ∷ more) g,
          query_loop-question unescape (path ++ b'?' ∷ more) m (0 + length path) more,
          next_sbeg-print_query kvs k (c ∷ v) (0 + length path),
        )
        (parse_fields kvs (path ++ b'?' ∷ more) (path ++ b'?' ∷ []) k v [] [] c m
          (0 + length path + 1) (0 + length path + 1) (simp append_assoc) hs h j
          (omega (arith, length-append path (b'?' ∷ []))) refl)

  -- If the URL ends behind the equals sign of its parameter, the value that is unescaped is the
  -- equals sign itself.
  pub parse_get_empty_value :
      (path k : Bytes) (m : Dict Bytes)
      → IsPlain path
      → IsPlain k
      → parse_get unescape (path ++ b'?' ∷ (k ++ b'=' ∷ [])) m
        ≡ put k (unescape (unescape (b'=' ∷ []))) m
  unfolding parse_get last_value query_loop next_sbeg
  parse_get_empty_value path k m g h =
      let n = 0 + length path + 1 in
      let whole = path ++ b'?' ∷ (k ++ b'=' ∷ []) in
      let d : whole ≡ (path ++ b'?' ∷ []) ++ (k ++ b'=' ∷ []) = simp append_assoc in
      let d' : whole ≡ (path ++ b'?' ∷ k) ++ (b'=' ∷ []) = simp append_assoc in
      let start_at : n ≡ length (path ++ b'?' ∷ []) =
        omega (arith, length-append path (b'?' ∷ [])) in
      let end_at : n + length k ≡ length (path ++ b'?' ∷ k) =
        omega (arith, length-append path (b'?' ∷ k)) in
      let one : length whole - (n + length k) ≡ 1 =
        omega (arith, length-append path (b'?' ∷ (k ++ b'=' ∷ [])), length-append k (b'=' ∷ [])) in
      let last : substr whole (n + length k) 1 ≡ b'=' ∷ [] =
        rw d' (substr-middle (path ++ b'?' ∷ k) (b'=' ∷ []) [] (n + length k) 1 end_at refl) in
      rw
        (
          query_loop-plain unescape whole (start m) 0 path (b'?' ∷ (k ++ b'=' ∷ [])) g,
          query_loop-question unescape whole m (0 + length path) (k ++ b'=' ∷ []),
          next_sbeg-append k [] (0 + length path) b'=',
          query_loop-plain unescape whole (at_key n [] [] m) n k (b'=' ∷ []) h,
          query_loop-equals unescape whole n [] [] m (n + length k) [],
          substr-key whole (path ++ b'?' ∷ []) k (b'=' ∷ []) n d start_at,
          one,
          last,
        )
        refl
