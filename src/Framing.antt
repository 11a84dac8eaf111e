-- ===== src/Framing.antt =====
-- The stream that the two binary parsers (network/HttpApi/BinServer/Parser.cpp and
-- network/HttpApi/BinClient/Parser.cpp) are to read, described one byte at a time and without
-- their buffers: an optional greeting, then messages behind their sizes. This is a
-- specification; no line of the sources has this form.
pub mod Reads
pub mod Greeting
pub mod Encoding
use hiaux.Base.{
  ℕ, zero, suc, ◌+◌, ◌≡◌, refl, List, [], ◌∷◌, ◌++◌, Bool, true, false, ◌&&◌, Bytes, length,
  bytes_eq, ltb, ◌==◌, if◌then◌else◌,
}
use hiaux.Strings.Numbers.{string_to_uint64}

pub data Mode : Type 0 where
  greeting : Bytes → Mode
  size_line : Bytes → Mode
  body : ℕ → Bytes → Mode
  failed : Mode

-- What has been read: where the reader stands, and the messages so far.
pub record Reader : Type 0 where
  pub mode : Mode
  pub out : List Bytes

-- What tells the two sides apart. `junk` is what an unreadable size line yields.
pub record Dialect : Type 0 where
  pub handshake : Bytes
  pub limit : ℕ
  pub keepalive : Bool
  pub junk : Bytes → ℕ

module _ (d : Dialect) where
  -- A size was read: an empty message is complete at once.
  unfoldable pub start_body : ℕ → List Bytes → Reader
  start_body n out =
      if ltb d.limit n
      then record { mode = failed; out = out }
      else if n == 0
      then record { mode = size_line []; out = out ++ [] ∷ [] }
      else record { mode = body n []; out = out }

  unfoldable pub end_line : Bytes → List Bytes → Reader
  end_line line out = start_body (string_to_uint64 (d.junk line) line) out

  unfoldable pub read_line : Bytes → List Bytes → ℕ → Reader
  read_line line out c =
      if c == b'\n'
      then end_line line out
      else record { mode = size_line (line ++ c ∷ []); out = out }

  -- A `k` counts as a keepalive where a frame may begin.
  unfoldable pub read_size : Bytes → List Bytes → ℕ → Reader
  read_size [] out c =
      if d.keepalive && c == b'k'
      then record { mode = size_line []; out = out }
      else read_line [] out c
  read_size (x ∷ line) out c = read_line (x ∷ line) out c

  unfoldable pub read_body : ℕ → Bytes → List Bytes → ℕ → Reader
  read_body n got out c =
      if length (got ++ c ∷ []) == n
      then record { mode = size_line []; out = out ++ (got ++ c ∷ []) ∷ [] }
      else record { mode = body n (got ++ c ∷ []); out = out }

  unfoldable pub read_greeting : Bytes → List Bytes → ℕ → Reader
  read_greeting got out c =
      if length (got ++ c ∷ []) == length d.handshake
      then if bytes_eq (got ++ c ∷ []) d.handshake
        then record { mode = size_line []; out = out }
        else record { mode = failed; out = out }
      else record { mode = greeting (got ++ c ∷ []); out = out }

  unfoldable pub read_mode : Mode → List Bytes → ℕ → Reader
  read_mode (greeting got) out c = read_greeting got out c
  read_mode (size_line line) out c = read_size line out c
  read_mode (body n got) out c = read_body n got out c
  read_mode failed out c = record { mode = failed; out = out }

  unfoldable pub reads : Reader → Bytes → Reader
  reads r [] = r
  reads r (c ∷ s) = reads (read_mode r.mode r.out c) s
