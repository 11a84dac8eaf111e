-- ===== src/BinServer.antt =====
-- network/HttpApi/BinServer/Parser.h and Parser.cpp: `hiapi::server::Parser`, the custom protocol
-- parser of the HTTP server, and the part of `HttpConnection::performRecv`
-- (network/HttpServer/Connection.impl) that feeds it and queues its requests.
-- A request is its dump; what `Request` makes of the dump is protobuf's.
pub mod Parsed
pub mod Stream
pub mod Delivery
mod Tests
use hiaux.Base.{
  ℕ, zero, suc, ◌+◌, ◌*◌, ◌≡◌, refl, List, [], ◌∷◌, ◌++◌, Bool, true, false, Option, none, some,
  Bytes, length, take, drop, ltb, leb, ◌==◌, if◌then◌else◌,
}
use hiaux.Text.Find.{find}
use hiaux.Strings.Numbers.{string_to_uint64}

pub data State : Type 0 where
  reading_size reading_message : State

pub record Parser : Type 0 where
  pub state : State
  pub cur_token : Bytes
  pub size : ℕ
  pub cur_request : Option Bytes
  pub got_request : Bool

-- `RequestParsingEx` leaves the members as they are at the throw.
pub data Outcome : Type 0 where
  returns : Parser → Outcome
  throws : Parser → Outcome

-- The constructor leaves `m_size` uninitialised.
unfoldable pub new_parser : ℕ → Parser
new_parser size = record {
  state = reading_size;
  cur_token = [];
  size = size;
  cur_request = none;
  got_request = false;
}

abbrev pub binrequest_max_size : ℕ
binrequest_max_size = 1024 * 1024 * 3

-- The branch on READING_MESSAGE.
unfoldable pub read_message : Parser → Parser
read_message p =
    if leb p.size (length p.cur_token)
    then record p {
      cur_request = some (take p.size p.cur_token);
      got_request = true;
      cur_token = drop p.size p.cur_token;
      state = reading_size;
    }
    else p

abbrev pub has_request : Parser → Bool
has_request p = p.got_request

-- What became of one `performRecv`: the queue of requests and the parser.
pub data Receipt : Type 0 where
  received : List (Option Bytes) → Parser → Receipt
  broken : List (Option Bytes) → Parser → Receipt
  out_of_fuel : Receipt

-- `junk` is the value of the variable that `string_to_uint64` leaves unset, taken to depend on the
-- text of the size line alone.
module _ (junk : Bytes → ℕ) where
  -- The branch on READING_SIZE behind the test for a keepalive, and the fall into READING_MESSAGE.
  read_line : Parser → Option ℕ → Outcome
  unfolding read_message
  read_line p none = returns p
  read_line p (some endlpos) =
      let size_str = take endlpos p.cur_token in
      let size = string_to_uint64 (junk size_str) size_str in
      let rest = drop (suc endlpos) p.cur_token in
      if ltb binrequest_max_size size
      then throws (record p { cur_token = rest; size = size })
      else returns
          (read_message (record p { cur_token = rest; size = size; state = reading_message }))

  -- `while (true)`: only a keepalive goes round. The second argument is `m_cur_token`.
  unfoldable pub parse_loop : Parser → Bytes → Outcome
  unfolding read_line read_message
  parse_loop p [] = returns (record p { cur_token = [] })
  parse_loop p (c ∷ t) = elim p.state [
    | reading_message ↦ returns (read_message (record p { cur_token = c ∷ t }))
    | reading_size ↦
        if c == b'k'
        then parse_loop p t
        else read_line (record p { cur_token = c ∷ t }) (find b'\n' (c ∷ t))
  ]

  unfoldable pub parse : Parser → Outcome
  parse p = parse_loop p p.cur_token

  unfoldable pub execute : Parser → Bytes → Outcome
  execute p s = parse (record p { cur_token = p.cur_token ++ s })

  -- The request handed over, and the parser behind it.
  unfoldable pub get_request : Parser → Option Bytes × Outcome
  get_request p = (p.cur_request, parse (record p { got_request = false }))

  -- `push(getRequest())`: a request is not pushed if `getRequest` throws.
  unfoldable pub pushed :
      (List (Option Bytes) → Parser → Receipt)
      → List (Option Bytes)
      → Option Bytes × Outcome
      → Receipt
  pushed rest q (request, throws p) = broken q p
  pushed rest q (request, returns p) = rest (q ++ request ∷ []) p

  -- `while (hasRequest()) custom_requests.push(getRequest())`
  unfoldable pub drain : ℕ → List (Option Bytes) → Outcome → Receipt
  unfolding pushed get_request
  drain fuel q (throws p) = broken q p
  drain zero q (returns p) = out_of_fuel
  drain (suc fuel) q (returns p) = elim (has_request p) [
    | true ↦ pushed (λ q' p'. drain fuel q' (returns p')) q (get_request p)
    | false ↦ received q p
  ]

  -- Nothing is executed when nothing was read.
  execute_read : Parser → Bytes → Outcome
  execute_read p [] = returns p
  execute_read p (c ∷ s) = execute p (c ∷ s)

  -- `m_custom_parser->execute(readbf)` and the loop behind it, with fuel for every byte.
  unfoldable pub recv : List (Option Bytes) → Parser → Bytes → Receipt
  unfolding execute_read
  recv q p s = drain (suc (suc (length (p.cur_token ++ s)))) q (execute_read p s)
