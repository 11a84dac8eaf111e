-- ===== src/BinServer/Parsed.antt =====
-- One call of `parse` against the stream that it reads.
use hiaux.Base.{
  ℕ, zero, suc, ◌≤◌, ◌<◌, ◌≡◌, ◌⊎◌, refl, List, [], ◌∷◌, ◌++◌, true, false, Option, some, Bytes,
  length, take, drop, ltb, ◌==◌, if◌then◌else◌, arith, Bool-cases, Option-cases, inl, inr, ap, sym,
  lt→ltb, le→ltb, ==_iff, length-drop, take-zero, drop-zero,
}
use hiaux.Text.Find.{find, Lacks, find-Lacks, find-some}
use hiaux.Strings.Numbers.{string_to_uint64}
use hiaux.Framing.{Mode, size_line, body, failed, Reader, Dialect, start_body, reads}
use hiaux.Framing.Reads.{
  reads_to_line, at, StartsFrame, reads-nil, reads-keepalive, reads-size_line, reads_whole_body,
  reads_body, reads-failed,
}
use mathlib.Core.Path.{subst}
use native.Mathlib.Decide.{dec_le, dec_lt}
use hiaux.Framing.Reads.{reads_to_line, start_body_over, start_body_empty, start_body_more}
use hiaux.BinServer.{
  State, reading_size, reading_message, Parser, Outcome, returns, throws, binrequest_max_size,
  read_message, read_line, parse_loop, parse,
}

-- The server's side: no greeting to read, messages up to 3 MB, keepalives.
abbrev pub server : (Bytes → ℕ) → Dialect
server junk = record { handshake = []; limit = binrequest_max_size; keepalive = true; junk = junk }

-- Where the reader stands when the whole of `m_cur_token` is still to be read.
abbrev pub start : State → ℕ → Mode
start reading_size n = size_line []
start reading_message n = body n []

-- Where it stands when `m_cur_token` was looked at and is not enough.
abbrev pub mode_of : Parser → Mode
mode_of p = elim p.state [
  | reading_size ↦ size_line p.cur_token
  | reading_message ↦ body p.size p.cur_token
]

-- In READING_MESSAGE some byte is missing.
abbrev pub IsReady : State → ℕ → Type 0
IsReady reading_size n = Unit {0}
IsReady reading_message n = 0 < n

abbrev pub Waits : State → ℕ → Bytes → Type 0
Waits reading_size n t = StartsFrame (server (λ _. 0)) t × Lacks b'\n' t
Waits reading_message n t = length t < n

-- Between two calls: no request waits, and the token holds no whole frame.
pub record IsWaiting (p : Parser) : Type 0 where
  pub no_request : p.got_request ≡ false
  pub waits : Waits p.state p.size p.cur_token

module _ (junk : Bytes → ℕ) where
  -- What `parse` made of a stream that the reader is to read from `r` on, `t` bytes in all.
  abbrev pub Parsed : List Bytes → Reader → ℕ → Outcome → Type 0
  Parsed out r n (throws p) = r ≡ at failed out
  Parsed out r n (returns p) =
      (IsWaiting p × (r ≡ at (mode_of p) out))
      ⊎ ((m : Bytes) × (p.got_request ≡ true)
          × (p.cur_request ≡ some m)
          × (p.state ≡ reading_size)
          × (length p.cur_token < n)
          × (r ≡ reads (server junk) (at (size_line []) (out ++ m ∷ [])) p.cur_token))

  Parsed-mono :
      (out : List Bytes) (r : Reader) (n k : ℕ) (o : Outcome)
      → n ≤ k
      → Parsed out r n o
      → Parsed out r k o
  Parsed-mono out r n k (throws p) h d = d
  Parsed-mono out r n k (returns p) h (inl w) = inl w
  Parsed-mono out r n k (returns p) h (inr (m, got, req, st, lt, e)) =
      inr (m, got, req, st, omega arith, e)

  read_message_done :
      (p : Parser)
      → p.size ≤ length p.cur_token
      → read_message p ≡ record p {
        cur_request = some (take p.size p.cur_token);
        got_request = true;
        cur_token = drop p.size p.cur_token;
        state = reading_size;
      }
  unfolding read_message
  read_message_done p h = ground arith

  read_message_waits : (p : Parser) → length p.cur_token < p.size → read_message p ≡ p
  unfolding read_message
  read_message_waits p h = ground arith

  module _ (out : List Bytes) (request : Option Bytes) where
    -- The parser with no request, and the members that `parse` looks at.
    abbrev with_token : State → ℕ → Bytes → Parser
    with_token st n t = record {
      state = st;
      cur_token = t;
      size = n;
      cur_request = request;
      got_request = false;
    }

    read_message_empty :
        (t : Bytes) (n : ℕ)
        → length t < n
        → Parsed out
            (reads (server junk) (at (size_line []) (out ++ [] ∷ [])) t)
            n
            (returns (read_message (with_token reading_message 0 t)))
    read_message_empty t n h =
        rw (read_message_done (with_token reading_message 0 t) (omega arith)) (
          inr (
            [],
            refl,
            ap some (take-zero t),
            refl,
            omega (arith, length-drop 0 t),
            ap (reads (server junk) (at (size_line []) (out ++ [] ∷ []))) (sym (drop-zero t)),
          ))

    read_message_more :
        (k : ℕ) (t : Bytes) (n : ℕ)
        → length t ≤ n
        → Parsed out
            (reads (server junk) (at (body (suc k) []) out) t)
            n
            (returns (read_message (with_token reading_message (suc k) t)))
    read_message_more k t n h = elim (dec_le (suc k) (length t)) [
      | yes e ↦ rw (read_message_done (with_token reading_message (suc k) t) e) (
          inr (
            take (suc k) t,
            refl,
            refl,
            refl,
            omega (arith, length-drop (suc k) t),
            reads_whole_body (server junk) k (suc k) [] out t (omega arith) e,
          ))
      | no e ↦ rw (read_message_waits (with_token reading_message (suc k) t) (omega arith)) (
          inl (
            record { no_request = refl; waits = omega arith },
            reads_body (server junk) (suc k) [] out t (omega arith),
          ))
    ]

    -- Behind a size line that is within the limit.
    read_message_sized :
        (m : ℕ) (t : Bytes) (n : ℕ)
        → m ≤ binrequest_max_size
        → length t < n
        → Parsed out
            (reads (server junk) (start_body (server junk) m out) t)
            n
            (returns (read_message (with_token reading_message m t)))
    read_message_sized zero t n l h =
        rw (start_body_empty (server junk) out) (read_message_empty t n h)
    read_message_sized (suc k) t n l h =
        rw (start_body_more (server junk) k out l) (read_message_more k t n (omega arith))

    read_line-Parsed :
        (n : ℕ) (t : Bytes)
        → StartsFrame (server junk) t
        → Parsed out
            (reads (server junk) (at (size_line []) out) t)
            (length t)
            (read_line junk (with_token reading_size n t) (find b'\n' t))
    unfolding read_line
    read_line-Parsed n t k = elim (Option-cases (find b'\n' t)) [
      | inl e ↦
          rw (e, read_line)
            (inl (
              record { no_request = refl; waits = (k, find-Lacks b'\n' t e) },
              reads-size_line (server junk) out t k (find-Lacks b'\n' t e),
            ))
      | inr (i, e) ↦
          rw (e, read_line, reads_to_line (server junk) out t i k e)
            (sized_line i (find-some b'\n' t i e).0 (string_to_uint64 (junk (take i t)) (take i t)))
    ]
      where
        sized_line :
            (i : ℕ)
            → i < length t
            → (m : ℕ)
            → Parsed out
                (reads (server junk) (start_body (server junk) m out) (drop (suc i) t))
                (length t)
                (if ltb binrequest_max_size m
                  then throws (with_token reading_size m (drop (suc i) t))
                  else returns (read_message (with_token reading_message m (drop (suc i) t))))
        sized_line i h m = elim (dec_lt binrequest_max_size m) [
          | yes over ↦
              rw (lt→ltb _ _ over, start_body_over (server junk) m out over)
                (reads-failed (server junk) out (drop (suc i) t))
          | no fits ↦ rw (le→ltb binrequest_max_size m (omega arith)) (
              read_message_sized m (drop (suc i) t) (length t) (omega arith)
                (omega (arith, length-drop (suc i) t)))
        ]

    parse_loop-Parsed :
        (st : State) (n : ℕ) (old t : Bytes)
        → IsReady st n
        → Parsed out
            (reads (server junk) (at (start st n) out) t)
            (length t)
            (parse_loop junk (with_token st n old) t)
    unfolding parse_loop
    parse_loop-Parsed reading_size n old [] r =
        inl (record { no_request = refl; waits = (tt, tt) }, reads-nil (server junk) _)
    parse_loop-Parsed reading_message n old [] r =
        inl (record { no_request = refl; waits = r }, reads-nil (server junk) _)
    parse_loop-Parsed reading_message zero old (c ∷ t) r = absurd (omega arith)
    parse_loop-Parsed reading_message (suc k) old (c ∷ t) r =
        read_message_more k (c ∷ t) (suc (length t)) (omega arith)
    parse_loop-Parsed reading_size n old (c ∷ t) r = elim (Bool-cases (c == b'k')) [
      | inl e ↦
          rw (e, (==_iff c b'k').0 e, reads-keepalive (server junk) out t refl)
            (Parsed-mono out _ (length t) (suc (length t)) _ (omega arith)
              (parse_loop-Parsed reading_size n old t tt))
      | inr e ↦ rw e (read_line-Parsed n (c ∷ t) e)
    ]

  -- One call of `parse` by a parser with no request: it stops for want of bytes, or it takes the
  -- first message off the stream, or the stream is in error.
  pub parse-Parsed :
      (out : List Bytes) (p : Parser)
      → p.got_request ≡ false
      → IsReady p.state p.size
      → Parsed out
          (reads (server junk) (at (start p.state p.size) out) p.cur_token)
          (length p.cur_token)
          (parse junk p)
  unfolding parse
  parse-Parsed out p e r =
      subst
        (λ q.
          Parsed out (reads (server junk) (at (start p.state p.size) out) p.cur_token)
            (length p.cur_token) (parse_loop junk q p.cur_token))
        (λ i. record p { got_request = sym e i })
        (parse_loop-Parsed out p.cur_request p.state p.size p.cur_token p.cur_token r)
