-- ===== src/BinClient/Parser/Parsed.antt =====
-- One call of the client's `parse` against the stream that it reads.
use hiaux.Base.{
  Bool, bytes_eq, le→leb, lt→leb, ℕ, zero, suc, ◌≤◌, ◌≡◌, refl, List, [], ◌∷◌, true, false, Bytes,
  length, take, drop, if◌then◌else◌, arith, inl, inr, sym, length-drop,
}
use hiaux.Framing.Greeting.{reads_greeting, reads_whole_greeting}
use hiaux.Framing.{greeting, size_line, failed, Reader, reads}
use hiaux.Framing.Reads.{at, reads-nil, reads-failed}
use mathlib.Core.Path.{subst}
use native.Mathlib.Decide.{dec_le}
use hiaux.BinClient.Parser.{
  State, reading_handshake, hiapi_handshake, read_handshake, read_size, parse_state, parse_token,
  reading_size, reading_message, ResponseParser, Outcome, returns, throws, cannot_hand_shake, parse,
}
use hiaux.BinClient.Parser.Sized.{
  client, start, IsReady, with_token, Parsed, read_message_more, read_size-Parsed,
}

module _ (junk : Bytes → ℕ) where
  Parsed-mono :
      (out : List Bytes) (r : Reader) (n k : ℕ) (o : Outcome)
      → n ≤ k
      → Parsed junk out r n o
      → Parsed junk out r k o
  Parsed-mono out r n k (throws called e p) h d = d
  Parsed-mono out r n k (returns called p) h (inl w) = inl w
  Parsed-mono out r n k (returns called p) h (inr (m, got, req, st, lt, e)) =
      inr (m, got, req, st, omega arith, e)

  module _ (out : List Bytes) (request : Bytes) where
    -- A greeting that is there in full.
    greeted-Parsed :
        (n : ℕ) (t : Bytes) (b : Bool)
        → 15 ≤ length t
        → Parsed junk out
            (reads (client junk) (if b then at (size_line []) out else at failed out) (drop 15 t))
            (length t)
            (if b
              then read_size junk true (with_token request reading_size n (drop 15 t))
              else throws false cannot_hand_shake
                  (with_token request reading_handshake n (drop 15 t)))
    greeted-Parsed n t true h =
        Parsed-mono out _ (length (drop 15 t)) (length t) _ (omega (arith, length-drop 15 t))
          (read_size-Parsed junk out request true n (drop 15 t))
    greeted-Parsed n t false h = reads-failed (client junk) out (drop 15 t)

    read_handshake-Parsed :
        (n : ℕ) (t : Bytes)
        → Parsed junk out
            (reads (client junk) (at (greeting []) out) t)
            (length t)
            (read_handshake junk (with_token request reading_handshake n t))
    unfolding read_handshake
    read_handshake-Parsed n t = elim (dec_le 15 (length t)) [
      | yes e ↦
          rw (le→leb 15 (length t) e, reads_whole_greeting (client junk) 14 [] out t refl e)
            (greeted-Parsed n t (bytes_eq (take 15 t) hiapi_handshake) e)
      | no e ↦ rw (lt→leb 15 (length t) (omega arith)) (
          inl (
            record { no_response = refl; waits = omega arith },
            reads_greeting (client junk) [] out t (omega arith),
          ))
    ]

    parse_token-Parsed :
        (st : State) (n : ℕ) (t : Bytes)
        → IsReady st n
        → Parsed junk out
            (reads (client junk) (at (start st n) out) t)
            (length t)
            (parse_token junk t (with_token request st n t))
    unfolding parse_token parse_state
    parse_token-Parsed reading_handshake n [] r =
        inl (record { no_response = refl; waits = omega arith }, reads-nil (client junk) _)
    parse_token-Parsed reading_size n [] r =
        inl (record { no_response = refl; waits = tt }, reads-nil (client junk) _)
    parse_token-Parsed reading_message n [] r =
        inl (record { no_response = refl; waits = r }, reads-nil (client junk) _)
    parse_token-Parsed reading_handshake n (c ∷ t) r = read_handshake-Parsed n (c ∷ t)
    parse_token-Parsed reading_size n (c ∷ t) r = read_size-Parsed junk out request false n (c ∷ t)
    parse_token-Parsed reading_message zero (c ∷ t) r = absurd (omega arith)
    parse_token-Parsed reading_message (suc k) (c ∷ t) r =
        read_message_more junk out request false k (c ∷ t) (suc (length t)) (omega arith)

  -- One call of `parse` by a parser with no response: it stops for want of bytes, or it takes the
  -- first message off the stream, or the stream is in error.
  pub parse-Parsed :
      (out : List Bytes) (p : ResponseParser)
      → p.got_response ≡ false
      → IsReady p.state p.size
      → Parsed junk out
          (reads (client junk) (at (start p.state p.size) out) p.cur_token)
          (length p.cur_token)
          (parse junk p)
  unfolding parse
  parse-Parsed out p e r =
      subst
        (λ q.
          Parsed junk out (reads (client junk) (at (start p.state p.size) out) p.cur_token)
            (length p.cur_token) (parse_token junk p.cur_token q))
        (λ i. record p { got_response = sym e i })
        (parse_token-Parsed out p.cur_response p.state p.size p.cur_token r)
