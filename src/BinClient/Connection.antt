-- ===== src/BinClient/Connection.antt =====
-- network/HttpApi/BinClient/Connection.h, Connection.cpp and Request.h: one connection of the
-- client. What `::send` and `::recv` return is an argument; a request's callback is a number, and
-- the calls of callbacks are logged in order.
pub mod Requests
pub mod Responses
pub mod Answers
pub mod Reading
pub mod Sending
pub mod Session
use hiaux.Base.{
  ℕ, zero, suc, ◌+◌, ◌-◌, ◌%◌, ◌^◌, List, [], ◌∷◌, ◌++◌, Bool, true, false, ◌&&◌, Bytes, codes,
  length, drop, ltb, ◌==◌, if◌then◌else◌, map,
}
use hiaux.Text.Decimal.{print_u64}
use hiaux.BinClient.Parser.{
  ResponseParser, Exception, Outcome, returns, throws, new_response_parser, execute, get_response,
  has_response,
}

pub record Request : Type 0 where
  pub callback : ℕ
  pub data_ : Bytes

-- `onFinished(success, response)` of a request.
pub data Call : Type 0 where
  finished : ℕ → Bool → Bytes → Call

pub data State : Type 0 where
  handshaking active terminating : State

pub record Connection : Type 0 where
  pub parser : ResponseParser
  pub last_activity_ts : ℕ
  pub keepalive_period : ℕ
  pub sent_requests : List Request
  pub sock : ℕ
  pub send_buffer : Bytes
  pub state : State

-- What `::send` returned, with `errno`: a positive count, or 0 or -1 with the answer to the
-- question whether `errno` is EAGAIN or EWOULDBLOCK.
pub data Sent : Type 0 where
  wrote : ℕ → Sent
  nothing : Bool → Sent
  minus_one : Bool → Sent

-- `LostConnectionEx`, and the `std::out_of_range` of `substr`.
pub data SendOutcome : Type 0 where
  sent_on : Connection → SendOutcome
  send_lost : Connection → SendOutcome
  send_out_of_range : Connection → SendOutcome

abbrev pub crlf : Bytes
crlf = 13 ∷ 10 ∷ []

-- The upgrade request that the constructor sends.
abbrev pub hello : Bytes
hello =
    codes "GET / HTTP/1.0"
    ++ (crlf
        ++ (codes "Host: hiapi"
            ++ (crlf
                ++ (codes "Connection: keep-alive"
                    ++ (crlf ++ (codes "Upgrade: hiapi" ++ (crlf ++ crlf)))))))

-- Behind `::send`: the test of the size against `nsent`, and `substr(nsent, …)`.
after_send : Connection → ℕ → SendOutcome
after_send c nsent =
    if length c.send_buffer == nsent
    then sent_on (record c { send_buffer = [] })
    else if ltb (length c.send_buffer) nsent
    then send_out_of_range c
    else sent_on (record c { send_buffer = drop nsent c.send_buffer })

-- An `int` of -1 is the largest `size_t`.
send_result : Connection → Sent → SendOutcome
unfolding after_send
send_result c (wrote n) = after_send c n
send_result c (nothing again) = if again then after_send c 0 else send_lost c
send_result c (minus_one again) = if again then after_send c (2 ^ 64 - 1) else send_lost c

unfoldable pub perform_send : Connection → Sent → SendOutcome
unfolding send_result
perform_send c r = if length c.send_buffer == 0 then sent_on c else send_result c r

-- The constructor, up to its call of `performSend`.
unfoldable pub new_connection : ℕ → ℕ → ℕ → Connection
new_connection sock now size = record {
  parser = new_response_parser size;
  last_activity_ts = now;
  keepalive_period = 5;
  sent_requests = [];
  sock = sock;
  send_buffer = hello;
  state = handshaking;
}

unfoldable pub add_request : Connection → Request → Connection
add_request c req = record c {
  sent_requests = c.sent_requests ++ req ∷ [];
  send_buffer = c.send_buffer ++ (print_u64 (length req.data_) ++ b'\n' ∷ req.data_);
}

-- Nothing is left to send, and the period is over; times are `uint64_t`.
abbrev pub keepalive_due : Connection → ℕ → Bool
keepalive_due c now =
    length c.send_buffer == 0
    && ltb c.keepalive_period ((now + 2 ^ 64 - c.last_activity_ts) % 2 ^ 64)

unfoldable pub check_keep_alive : Connection → ℕ → Sent → SendOutcome
check_keep_alive c now r =
    if keepalive_due c now
    then perform_send
        (record c { last_activity_ts = now; send_buffer = c.send_buffer ++ codes "k" }) r
    else sent_on c

-- The destructor gives up what is still unanswered.
unfoldable pub close_connection : Connection → List Call
close_connection c = map (λ r. finished r.callback false []) c.sent_requests

-- What one `::recv` returned: bytes, or -1 with `errno`, or 0.
pub data Nread : Type 0 where
  chunk : Bytes → Nread
  would_block interrupted read_error closed : Nread

pub data ReadOutcome : Type 0 where
  read_bytes : Bytes → ReadOutcome
  read_lost : ReadOutcome
  read_out_of_fuel : ReadOutcome

-- The next `::recv`; where the trace ends nothing more is there.
abbrev pub next_recv : List Nread → Nread × List Nread
next_recv [] = (would_block, [])
next_recv (n ∷ ns) = (n, ns)

-- The loop of `performRecv`: on EINTR it goes on with no new `::recv`.
unfoldable pub read_loop : ℕ → Nread → List Nread → Bytes → ReadOutcome
read_loop zero nread ns readbf = read_out_of_fuel
read_loop (suc fuel) (chunk s) ns readbf =
    read_loop fuel (next_recv ns).0 (next_recv ns).1 (readbf ++ s)
read_loop (suc fuel) would_block ns readbf = read_bytes readbf
read_loop (suc fuel) interrupted ns readbf = read_loop fuel interrupted ns readbf
read_loop (suc fuel) read_error ns readbf = read_lost
read_loop (suc fuel) closed ns readbf = read_lost

-- What became of a `performRecv`. `unsolicited` is the undefined `front()` of an empty queue.
pub data Receipt : Type 0 where
  received : Connection → List Call → Receipt
  recv_lost : Connection → List Call → Receipt
  threw : Exception → Connection → List Call → Receipt
  unsolicited : Connection → List Call → Receipt
  out_of_fuel : Receipt

-- `onHandshaked` is called from within `parse`.
abbrev pub with_parser : Bool → ResponseParser → Connection → Connection
with_parser called p c = record c { parser = p; state = if called then active else c.state }

module _ (junk : Bytes → ℕ) where
  -- `onResponse`, at the queue of sent requests, and the loop behind it.
  answer :
      (Connection → List Call → Receipt) → Connection → List Call → Bytes → List Request → Receipt
  answer rest c calls resp [] = unsolicited c calls
  answer rest c calls resp (r ∷ rs) =
      rest (record c { sent_requests = rs }) (calls ++ finished r.callback true resp ∷ [])

  -- `getResponse` and `onResponse`: the response is lost if the parser throws behind it.
  take_response :
      (Connection → List Call → Receipt) → Connection → List Call → Bytes → Outcome → Receipt
  unfolding answer
  take_response rest c calls resp (throws called e p) = threw e (with_parser called p c) calls
  take_response rest c calls resp (returns called p) =
      answer rest (with_parser called p c) calls resp c.sent_requests

  -- `while (m_parser.hasResponse())`
  unfoldable pub answer_loop : ℕ → Connection → List Call → Receipt
  unfolding take_response
  answer_loop zero c calls = out_of_fuel
  answer_loop (suc fuel) c calls = elim (has_response c.parser) [
    | false ↦ received c calls
    | true ↦
        take_response (answer_loop fuel) c calls (get_response junk c.parser).0
          (get_response junk c.parser).1
  ]

  after_execute : ℕ → Connection → List Call → Outcome → Receipt
  after_execute fuel c calls (throws called e p) = threw e (with_parser called p c) calls
  after_execute fuel c calls (returns called p) = answer_loop fuel (with_parser called p c) calls

  -- The part of `performRecv` behind its loop, with fuel for every byte.
  unfoldable pub on_bytes : Connection → List Call → Bytes → Receipt
  unfolding after_execute
  on_bytes c calls [] = answer_loop (suc (suc (length c.parser.cur_token))) c calls
  on_bytes c calls (b ∷ s) =
      after_execute (suc (suc (length (c.parser.cur_token ++ b ∷ s)))) c calls
        (execute junk c.parser (b ∷ s))

  on_read : Connection → List Call → ReadOutcome → Receipt
  on_read c calls (read_bytes readbf) = on_bytes c calls readbf
  on_read c calls read_lost = recv_lost c calls
  on_read c calls read_out_of_fuel = out_of_fuel

  -- One `performRecv`, with a trace of what `::recv` returns.
  unfoldable pub perform_recv : ℕ → Connection → List Call → List Nread → Receipt
  unfolding on_read
  perform_recv fuel c calls ns =
      on_read c calls (read_loop fuel (next_recv ns).0 (next_recv ns).1 [])
