-- ===== src/Framing/Encoding.antt =====
-- What the two sides send: messages behind their sizes, and keepalives between them.
-- `encode_message` is the text that `Connection::addRequest` and `HttpApi::handleRequest` put on
-- the wire; `frames` is what a stream of such texts and keepalives means.
use hiaux.Base.{
  map, ℕ, suc, ◌≤◌, ◌≡◌, refl, List, [], ◌∷◌, ◌++◌, true, false, ◌&&◌, Bytes, length, All, ◌==◌,
  arith, append_assoc, append-nil, ◌∙◌, ap, sym, take-length, drop-length,
}
use hiaux.Text.Decimal.{
  print_u64, print_u64-All, print_u64-cons, scan_u64-print_u64, u64_max, IsDigit,
}
use hiaux.Text.Find.{Lacks}
use hiaux.Strings.Numbers.{string_to_uint64}
use hiaux.Framing.{size_line, Dialect, start_body, reads}
use hiaux.Framing.Reads.{
  start_body_empty, start_body_more, end_line_lem, reads-nil, reads-keepalive, at, StartsFrame,
  reads-append, reads-end_line, reads_whole_body,
}

pub data Item : Type 0 where
  keep : Item
  message : Bytes → Item

unfoldable pub encode_message : Bytes → Bytes
encode_message m = print_u64 (length m) ++ b'\n' ∷ m

unfoldable pub encode_item : Item → Bytes
encode_item keep = b'k' ∷ []
encode_item (message m) = encode_message m

unfoldable pub encode : List Item → Bytes
encode [] = []
encode (i ∷ is) = encode_item i ++ encode is

abbrev pub messages : List Item → List Bytes
messages [] = []
messages (keep ∷ is) = messages is
messages (message m ∷ is) = m ∷ messages is

-- What a side may send: messages within the limit, and keepalives only where they are known.
abbrev pub Sendable : Dialect → Item → Type 0
Sendable d keep = d.keepalive ≡ true
Sendable d (message m) = length m ≤ d.limit

pub messages-map : (ms : List Bytes) → messages (map message ms) ≡ ms
messages-map [] = refl
messages-map (m ∷ ms) = ap (◌∷◌ m) (messages-map ms)

pub Sendable-map :
    (d : Dialect) (ms : List Bytes)
    → All (λ m. length m ≤ d.limit) ms
    → All (Sendable d) (map message ms)
Sendable-map d [] h = tt
Sendable-map d (m ∷ ms) h = (h.0, Sendable-map d ms h.1)

pub encode-append : (is js : List Item) → encode (is ++ js) ≡ encode is ++ encode js
unfolding encode
encode-append [] js = refl
encode-append (i ∷ is) js =
    ap (◌++◌ (encode_item i)) (encode-append is js)
    ∙ sym (append_assoc (encode_item i) (encode is) (encode js))

Lacks-digits : (s : Bytes) → All IsDigit s → Lacks b'\n' s
Lacks-digits [] h = tt
Lacks-digits (c ∷ s) h = (omega (arith, h.0), Lacks-digits s h.1)

module _ (d : Dialect) (limit_fits : d.limit ≤ u64_max) where
  StartsFrame-print : (n : ℕ) (t : Bytes) → StartsFrame d (print_u64 n ++ t)
  StartsFrame-print n t =
      let (c, s, e) = print_u64-cons n in
      let digits : All IsDigit (c ∷ s) = rw e at (print_u64-All n) in rw e (not_k c digits.0)
    where
      not_k : (c : ℕ) → IsDigit c → d.keepalive && c == b'k' ≡ false
      not_k c h = ground arith

  string_to_uint64-print : (j n : ℕ) → n ≤ d.limit → string_to_uint64 j (print_u64 n) ≡ n
  unfolding string_to_uint64
  string_to_uint64-print j n h = rw (scan_u64-print_u64 n (omega arith))

  reads_body_of :
      (m : Bytes) (out : List Bytes)
      → length m ≤ d.limit
      → reads d (start_body d (length m) out) m ≡ at (size_line []) (out ++ m ∷ [])
  reads_body_of [] out h = rw (start_body_empty d out) (reads-nil d _)
  reads_body_of (c ∷ m) out h = rw (start_body_more d (length m) out h) (
      reads_whole_body d (length m) (suc (length m)) [] out (c ∷ m) (omega arith) (omega arith)
      ∙ rw (take-length (c ∷ m), drop-length (c ∷ m)) (reads-nil d _))

  pub reads-encode_message :
      (m : Bytes) (out : List Bytes)
      → length m ≤ d.limit
      → reads d (at (size_line []) out) (encode_message m) ≡ at (size_line []) (out ++ m ∷ [])
  unfolding encode_message
  reads-encode_message m out h =
      reads-end_line d out (print_u64 (length m)) m (StartsFrame-print (length m) (b'\n' ∷ m))
        (Lacks-digits (print_u64 (length m)) (print_u64-All (length m)))
      ∙ (rw
          (
            end_line_lem d _ out,
            string_to_uint64-print (d.junk (print_u64 (length m))) (length m) h,
          )
          (reads_body_of m out h))

  reads-encode_item :
      (i : Item) (out : List Bytes)
      → Sendable d i
      → reads d (at (size_line []) out) (encode_item i)
        ≡ at (size_line []) (out ++ messages (i ∷ []))
  unfolding encode_item
  reads-encode_item keep out h =
      reads-keepalive d out [] h ∙ reads-nil d _ ∙ ap (at (size_line [])) (sym (append-nil out))
  reads-encode_item (message m) out h = reads-encode_message m out h

  messages-cons : (i : Item) (is : List Item) → messages (i ∷ is) ≡ messages (i ∷ []) ++ messages is
  messages-cons keep is = refl
  messages-cons (message m) is = refl

  pub reads-encode :
      (is : List Item) (out : List Bytes)
      → All (Sendable d) is
      → reads d (at (size_line []) out) (encode is) ≡ at (size_line []) (out ++ messages is)
  unfolding encode
  reads-encode [] out h = reads-nil d _ ∙ ap (at (size_line [])) (sym (append-nil out))
  reads-encode (i ∷ is) out h =
      reads-append d (at (size_line []) out) (encode_item i) (encode is)
      ∙ ap (λ r. reads d r (encode is)) (reads-encode_item i out h.0)
      ∙ reads-encode is (out ++ messages (i ∷ [])) h.1
      ∙ ap (at (size_line [])) (
          append_assoc out (messages (i ∷ [])) (messages is)
          ∙ ap (◌++◌ out) (sym (messages-cons i is)))
