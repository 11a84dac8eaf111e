-- ===== src/BinClient/Client.antt =====
-- network/HttpApi/BinClient/BinClientA.h and BinClientA.cpp: the client's pool of connections. What the
-- calls of the system return is an argument. A map's values are shared with no one else, but for those of
-- `m_free_connections`, which are `m_connections`' under the same sockets: it is a list of sockets. A
-- connection is found under the socket it was made for, which is its `m_sock`. What a callback of a
-- request does is no part of the call that it is made from.
pub mod Handlers
pub mod Conserved
pub mod Answered
pub mod History
mod Tests
use hiaux.Base.{
  ℕ, zero, suc, List, [], ◌∷◌, ◌++◌, Bool, true, false, Bytes, length, ltb, ◌==◌, if◌then◌else◌,
  Option, none, some,
}
use hiaux.BinClient.Connection.{
  Request, Call, finished, State, handshaking, active, terminating, Connection, Sent, SendOutcome,
  sent_on, send_lost, send_out_of_range, perform_send, new_connection, add_request,
  check_keep_alive, close_connection, Nread, Receipt, received, recv_lost, threw, unsolicited,
  out_of_fuel, perform_recv,
}

-- A `std::map` with a socket as its key, in its order.
unfoldable pub find : ℕ → List (ℕ × Connection) → Option Connection
find sock [] = none
find sock ((s, c) ∷ cs) = if s == sock then some c else find sock cs

unfoldable pub set : ℕ → Connection → List (ℕ × Connection) → List (ℕ × Connection)
set sock d [] = []
set sock d ((s, c) ∷ cs) = if s == sock then (s, d) ∷ cs else (s, c) ∷ set sock d cs

unfoldable pub erase : ℕ → List (ℕ × Connection) → List (ℕ × Connection)
erase sock [] = []
erase sock ((s, c) ∷ cs) = if s == sock then cs else (s, c) ∷ erase sock cs

-- `insert`, which keeps what is there.
unfoldable pub insert : ℕ → Connection → List (ℕ × Connection) → List (ℕ × Connection)
insert sock d [] = (sock, d) ∷ []
insert sock d ((s, c) ∷ cs) =
    if s == sock
    then (s, c) ∷ cs
    else (if ltb sock s then (sock, d) ∷ (s, c) ∷ cs else (s, c) ∷ insert sock d cs)

unfoldable pub put_free : ℕ → List ℕ → List ℕ
put_free sock [] = sock ∷ []
put_free sock (s ∷ ss) =
    if s == sock then s ∷ ss else (if ltb sock s then sock ∷ s ∷ ss else s ∷ put_free sock ss)

unfoldable pub erase_free : ℕ → List ℕ → List ℕ
erase_free sock [] = []
erase_free sock (s ∷ ss) = if s == sock then ss else s ∷ erase_free sock ss

pub record BinClientA : Type 0 where
  pub connections : List (ℕ × Connection)
  pub free_connections : List ℕ
  pub new_requests : List Request
  pub max_connections : ℕ
  pub calls : List Call

-- What `connectSocket` gives, `none` for `CannotConnectEx`, and what a new connection then meets: the
-- time, the parser's message size, and the result of its first `::send`.
pub record Dial : Type 0 where
  pub socket : Option ℕ
  pub now : ℕ
  pub size : ℕ
  pub sent : Sent

-- The client after a call; an iterator used after its element was erased, or another undefined
-- behaviour; the endless loop of a `performRecv`.
pub data Handled : Type 0 where
  handled : BinClientA → Handled
  undefined : Handled
  endless : Handled

-- Whether `LostConnectionEx` leaves the call: it does if the new connection's first `::send` fails.
unfoldable pub establish_made : BinClientA → ℕ → SendOutcome → BinClientA × Bool
establish_made b sock (sent_on c) = (record b { connections = insert sock c b.connections }, false)
establish_made b sock (send_lost c) = (b, true)
establish_made b sock (send_out_of_range c) = (b, true)

unfoldable pub establish_on : BinClientA → Dial → Option ℕ → BinClientA × Bool
establish_on b d none = (b, false)
establish_on b d (some sock) =
    establish_made b sock (perform_send (new_connection sock d.now d.size) d.sent)

unfoldable pub establish_new_connection : BinClientA → Dial → BinClientA × Bool
establish_new_connection b d = establish_on b d d.socket

unfoldable pub remove_connection : BinClientA → ℕ → BinClientA
remove_connection b sock = record b {
  connections = erase sock b.connections;
  free_connections = erase_free sock b.free_connections;
}

-- With the destructor of the connection, which no one holds after the call. What `establishNewConnection`
-- throws is caught.
unfoldable pub on_lost_connection : BinClientA → ℕ → Connection → Dial → BinClientA
on_lost_connection b sock c d =
    let made = (establish_new_connection (remove_connection b sock) d).0 in
    record made { calls = made.calls ++ close_connection c }

-- `performSend`, with its handlers of exceptions.
unfoldable pub send_handled : BinClientA → ℕ → Dial → SendOutcome → BinClientA
send_handled b sock d (sent_on c) = record b { connections = set sock c b.connections }
send_handled b sock d (send_lost c) = on_lost_connection b sock c d
send_handled b sock d (send_out_of_range c) = record b { connections = set sock c b.connections }

unfoldable pub recv_handled : BinClientA → ℕ → Dial → Receipt → Handled
recv_handled b sock d (received c calls) =
    handled (record b { connections = set sock c b.connections; calls = calls })
recv_handled b sock d (recv_lost c calls) =
    handled (on_lost_connection (record b { calls = calls }) sock c d)
recv_handled b sock d (threw e c calls) =
    handled (on_lost_connection (record b { calls = calls }) sock c d)
recv_handled b sock d (unsolicited c calls) = undefined
recv_handled b sock d out_of_fuel = endless
