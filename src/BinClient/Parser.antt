-- ===== src/BinClient/Parser.antt =====
-- network/HttpApi/BinClient/Parser.h and Parser.cpp: `hiapi::client::ResponseParser`.
-- Every branch of the `while (true)` in `parse` returns in its first round, so it is no loop here.
pub mod Parsed
pub mod Sized
use hiaux.Base.{
  ℕ, suc, ◌*◌, List, [], ◌∷◌, ◌++◌, Bool, true, false, Option, none, some, Bytes, codes, length,
  take, drop, ltb, leb, bytes_eq, if◌then◌else◌,
}
use hiaux.Text.Find.{find}
use hiaux.Strings.Numbers.{string_to_uint64}

pub data State : Type 0 where
  reading_handshake reading_size reading_message : State

pub record ResponseParser : Type 0 where
  pub state : State
  pub cur_token : Bytes
  pub size : ℕ
  pub cur_response : Bytes
  pub got_response : Bool

pub data Exception : Type 0 where
  cannot_hand_shake response_parsing : Exception

-- The Boolean says whether `m_onHandshaked` was called. A throw leaves the members as they are.
pub data Outcome : Type 0 where
  returns : Bool → ResponseParser → Outcome
  throws : Bool → Exception → ResponseParser → Outcome

abbrev pub hiapi_handshake : Bytes
hiapi_handshake = codes "hiapi_connected"

abbrev pub message_size_limit : ℕ
message_size_limit = 1024 * 1024

-- The constructor leaves `m_size` uninitialised.
unfoldable pub new_response_parser : ℕ → ResponseParser
new_response_parser size = record {
  state = reading_handshake;
  cur_token = [];
  size = size;
  cur_response = [];
  got_response = false;
}

-- The branch on READING_MESSAGE.
unfoldable pub read_message : ResponseParser → ResponseParser
read_message p =
    if leb p.size (length p.cur_token)
    then record p {
      cur_response = take p.size p.cur_token;
      got_response = true;
      cur_token = drop p.size p.cur_token;
      state = reading_size;
    }
    else p

module _ (junk : Bytes → ℕ) where
  -- The branch on READING_SIZE, at the result of the search for a newline.
  unfoldable pub read_line : Bool → ResponseParser → Option ℕ → Outcome
  read_line called p none = returns called p
  read_line called p (some endlpos) =
      let size_str = take endlpos p.cur_token in
      let size = string_to_uint64 (junk size_str) size_str in
      let rest = drop (suc endlpos) p.cur_token in
      if ltb message_size_limit size
      then throws called response_parsing (record p { cur_token = rest; size = size })
      else returns called
          (read_message (record p { cur_token = rest; size = size; state = reading_message }))

  pub read_size : Bool → ResponseParser → Outcome
  read_size called p = read_line called p (find b'\n' p.cur_token)

  -- The branch on READING_HANDSHAKE, and the fall into READING_SIZE.
  read_handshake : ResponseParser → Outcome
  unfolding read_size
  read_handshake p =
      let handshake = take (length hiapi_handshake) p.cur_token in
      let rest = drop (length hiapi_handshake) p.cur_token in
      if leb (length hiapi_handshake) (length p.cur_token)
      then if bytes_eq handshake hiapi_handshake
        then read_size true (record p { cur_token = rest; state = reading_size })
        else throws false cannot_hand_shake (record p { cur_token = rest })
      else returns false p

  parse_state : State → ResponseParser → Outcome
  unfolding read_handshake read_size
  parse_state reading_handshake p = read_handshake p
  parse_state reading_size p = read_size false p
  parse_state reading_message p = returns false (read_message p)

  parse_token : Bytes → ResponseParser → Outcome
  unfolding parse_state
  parse_token [] p = returns false p
  parse_token (c ∷ t) p = parse_state p.state p

  unfoldable pub parse : ResponseParser → Outcome
  unfolding parse_token
  parse p = parse_token p.cur_token p

  unfoldable pub execute : ResponseParser → Bytes → Outcome
  execute p s = parse (record p { cur_token = p.cur_token ++ s })

  -- The response handed over, and the parser behind it.
  unfoldable pub get_response : ResponseParser → Bytes × Outcome
  get_response p = (p.cur_response, parse (record p { got_response = false }))

abbrev pub has_response : ResponseParser → Bool
has_response p = p.got_response
