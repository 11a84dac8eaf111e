-- ===== src/BinClient/Parser/Sized.antt =====
-- The client's parser against the stream that it reads: the size line and the message.
use hiaux.Base.{
  Bool, ℕ, zero, suc, ◌≤◌, ◌<◌, ◌≡◌, ◌⊎◌, refl, List, [], ◌∷◌, ◌++◌, true, false, Bytes, length,
  take, drop, ltb, if◌then◌else◌, arith, Option-cases, inl, inr, ap, sym, lt→ltb, le→ltb,
  length-drop, take-zero, drop-zero,
}
use hiaux.Text.Find.{find, Lacks, find-Lacks, find-some}
use hiaux.Strings.Numbers.{string_to_uint64}
use hiaux.Framing.{Mode, greeting, size_line, body, failed, Reader, Dialect, start_body, reads}
use hiaux.Framing.Reads.{
  reads_to_line, at, StartsFrame, reads-size_line, reads_whole_body, reads_body, reads-failed,
}
use native.Mathlib.Decide.{dec_le, dec_lt}
use hiaux.Framing.Reads.{reads_to_line, start_body_over, start_body_empty, start_body_more}
use hiaux.BinClient.Parser.{
  State, reading_handshake, hiapi_handshake, read_size, reading_size, reading_message,
  ResponseParser, Outcome, returns, throws, response_parsing, message_size_limit, read_message,
  read_line,
}

-- The client's side: a greeting to read, messages up to 1 MB, no keepalives.
abbrev pub client : (Bytes → ℕ) → Dialect
client junk = record {
  handshake = hiapi_handshake;
  limit = message_size_limit;
  keepalive = false;
  junk = junk;
}

-- Where the reader stands when the whole of `m_cur_token` is still to be read.
abbrev pub start : State → ℕ → Mode
start reading_handshake n = greeting []
start reading_size n = size_line []
start reading_message n = body n []

-- Where it stands when `m_cur_token` was looked at and is not enough.
abbrev pub mode_of : ResponseParser → Mode
mode_of p = elim p.state [
  | reading_handshake ↦ greeting p.cur_token
  | reading_size ↦ size_line p.cur_token
  | reading_message ↦ body p.size p.cur_token
]

-- In READING_MESSAGE some byte is missing.
abbrev pub IsReady : State → ℕ → Type 0
IsReady reading_handshake n = Unit {0}
IsReady reading_size n = Unit {0}
IsReady reading_message n = 0 < n

abbrev pub Waits : State → ℕ → Bytes → Type 0
Waits reading_handshake n t = length t < length hiapi_handshake
Waits reading_size n t = Lacks b'\n' t
Waits reading_message n t = length t < n

-- Between two calls: no response waits, and the token holds no whole frame.
pub record IsWaiting (p : ResponseParser) : Type 0 where
  pub no_response : p.got_response ≡ false
  pub waits : Waits p.state p.size p.cur_token

-- The parser with no response, and the members that `parse` looks at.
abbrev pub with_token : Bytes → State → ℕ → Bytes → ResponseParser
with_token response st n t = record {
  state = st;
  cur_token = t;
  size = n;
  cur_response = response;
  got_response = false;
}

module _ (junk : Bytes → ℕ) where
  -- What `parse` made of a stream that the reader is to read from `r` on, `t` bytes in all.
  abbrev pub Parsed : List Bytes → Reader → ℕ → Outcome → Type 0
  Parsed out r n (throws called e p) = r ≡ at failed out
  Parsed out r n (returns called p) =
      (IsWaiting p × (r ≡ at (mode_of p) out))
      ⊎ ((m : Bytes) × (p.got_response ≡ true)
          × (p.cur_response ≡ m)
          × (p.state ≡ reading_size)
          × (length p.cur_token < n)
          × (r ≡ reads (client junk) (at (size_line []) (out ++ m ∷ [])) p.cur_token))

  pub StartsFrame-client : (t : Bytes) → StartsFrame (client junk) t
  StartsFrame-client [] = tt
  StartsFrame-client (c ∷ t) = refl

  read_message_done :
      (p : ResponseParser)
      → p.size ≤ length p.cur_token
      → read_message p ≡ record p {
        cur_response = take p.size p.cur_token;
        got_response = true;
        cur_token = drop p.size p.cur_token;
        state = reading_size;
      }
  unfolding read_message
  read_message_done p h = ground arith

  read_message_waits : (p : ResponseParser) → length p.cur_token < p.size → read_message p ≡ p
  unfolding read_message
  read_message_waits p h = ground arith

  module _ (out : List Bytes) (request : Bytes) (called : Bool) where
    read_message_empty :
        (t : Bytes) (n : ℕ)
        → length t < n
        → Parsed out
            (reads (client junk) (at (size_line []) (out ++ [] ∷ [])) t)
            n
            (returns called (read_message (with_token request reading_message 0 t)))
    read_message_empty t n h =
        rw (read_message_done (with_token request reading_message 0 t) (omega arith)) (
          inr (
            [],
            refl,
            take-zero t,
            refl,
            omega (arith, length-drop 0 t),
            ap (reads (client junk) (at (size_line []) (out ++ [] ∷ []))) (sym (drop-zero t)),
          ))

    pub read_message_more :
        (k : ℕ) (t : Bytes) (n : ℕ)
        → length t ≤ n
        → Parsed out
            (reads (client junk) (at (body (suc k) []) out) t)
            n
            (returns called (read_message (with_token request reading_message (suc k) t)))
    read_message_more k t n h = elim (dec_le (suc k) (length t)) [
      | yes e ↦ rw (read_message_done (with_token request reading_message (suc k) t) e) (
          inr (
            take (suc k) t,
            refl,
            refl,
            refl,
            omega (arith, length-drop (suc k) t),
            reads_whole_body (client junk) k (suc k) [] out t (omega arith) e,
          ))
      | no e ↦
          rw (read_message_waits (with_token request reading_message (suc k) t) (omega arith)) (
            inl (
              record { no_response = refl; waits = omega arith },
              reads_body (client junk) (suc k) [] out t (omega arith),
            ))
    ]

    -- Behind a size line that is within the limit.
    read_message_sized :
        (m : ℕ) (t : Bytes) (n : ℕ)
        → m ≤ message_size_limit
        → length t < n
        → Parsed out
            (reads (client junk) (start_body (client junk) m out) t)
            n
            (returns called (read_message (with_token request reading_message m t)))
    read_message_sized zero t n l h =
        rw (start_body_empty (client junk) out) (read_message_empty t n h)
    read_message_sized (suc k) t n l h =
        rw (start_body_more (client junk) k out l) (read_message_more k t n (omega arith))

    read_line-Parsed :
        (n : ℕ) (t : Bytes)
        → Parsed out
            (reads (client junk) (at (size_line []) out) t)
            (length t)
            (read_line junk called (with_token request reading_size n t) (find b'\n' t))
    unfolding read_line
    read_line-Parsed n t = elim (Option-cases (find b'\n' t)) [
      | inl e ↦
          rw (e, read_line)
            (inl (
              record { no_response = refl; waits = find-Lacks b'\n' t e },
              reads-size_line (client junk) out t (StartsFrame-client t) (find-Lacks b'\n' t e),
            ))
      | inr (i, e) ↦
          rw (e, read_line, reads_to_line (client junk) out t i (StartsFrame-client t) e)
            (sized_line i (find-some b'\n' t i e).0 (string_to_uint64 (junk (take i t)) (take i t)))
    ]
      where
        sized_line :
            (i : ℕ)
            → i < length t
            → (m : ℕ)
            → Parsed out
                (reads (client junk) (start_body (client junk) m out) (drop (suc i) t))
                (length t)
                (if ltb message_size_limit m
                  then throws called response_parsing
                      (with_token request reading_size m (drop (suc i) t))
                  else returns called
                      (read_message (with_token request reading_message m (drop (suc i) t))))
        sized_line i h m = elim (dec_lt message_size_limit m) [
          | yes over ↦
              rw (lt→ltb _ _ over, start_body_over (client junk) m out over)
                (reads-failed (client junk) out (drop (suc i) t))
          | no fits ↦ rw (le→ltb message_size_limit m (omega arith)) (
              read_message_sized m (drop (suc i) t) (length t) (omega arith)
                (omega (arith, length-drop (suc i) t)))
        ]

    pub read_size-Parsed :
        (n : ℕ) (t : Bytes)
        → Parsed out
            (reads (client junk) (at (size_line []) out) t)
            (length t)
            (read_size junk called (with_token request reading_size n t))
    unfolding read_size
    read_size-Parsed n t = read_line-Parsed n t
