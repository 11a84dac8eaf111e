-- ===== src/HttpServer.antt =====
-- network/HttpServer/HttpServer.h and HttpServer.impl: the table of connections, the handing of requests
-- to the handlers and the queues of their responses. A connection is an object that the table, the
-- queues and the handlers share: it is named by a number, the place in a list that only grows. What a
-- handler does besides being called is later events.
pub mod Loop
pub mod Responses
pub mod Events
pub mod Waiting
pub mod Handling
pub mod Pacing
pub mod Rounds
pub mod Steps
pub mod Fuel
pub mod Spending
pub mod Ending
mod Tests
use hiaux.Base.{
  ℕ, zero, suc, ◌+◌, List, [], ◌∷◌, ◌++◌, Bool, true, false, not, ◌&&◌, Bytes, length, get_elem?,
  ◌==◌, if◌then◌else◌, Option, none, some, concat,
}
use hiaux.Base.Dict.{Dict, lookup, insert}
use hiaux.Threads.Pool.{set_elem}
use hiaux.Http.{
  Request, Response, ResponseInfo, Connection, Callback, End, Sent, new_connection, not_dead,
}
use hiaux.Http.Input.{perform_recv, check_upgrade}
use hiaux.Http.Output.{add_response, add_custom_response, perform_send}

-- `CustomProtocolInfo`: the parser's builder and the handshake; the handler is named by the protocol.
pub record CustomProtocolInfo (Custom : Type 0) : Type 0 where
  pub parser_builder : Request → Option Custom
  pub handshake_message : Bytes

-- A call of `m_request_hdl` or of a custom protocol's handler, with the object of the connection.
pub data Hand : Type 0 where
  http : ℕ → Request → Hand
  custom : ℕ → Bytes → Bytes → Hand

module _ (Http Custom : Type 0) where
  pub record Object : Type 0 where
    pub sock : ℕ
    pub conn : Connection Http Custom

  -- With the log of the calls of handlers and that of the calls of `handleResponse`.
  pub record HttpServer : Type 0 where
    pub objects : List Object
    pub reading_connections : List (ℕ × ℕ)
    pub resp_queue : List (ℕ × Response)
    pub custom_resp_queue : List (ℕ × Bytes)
    pub custom_protocols : Dict (CustomProtocolInfo Custom)
    pub resp_info : ResponseInfo
    pub handed : List Hand
    pub answered : List ℕ

-- A `hiaux::hashtable` from sockets to objects.
unfoldable pub find_sock : ℕ → List (ℕ × ℕ) → Option ℕ
find_sock sock [] = none
find_sock sock ((s, o) ∷ t) = if s == sock then some o else find_sock sock t

unfoldable pub erase_sock : ℕ → List (ℕ × ℕ) → List (ℕ × ℕ)
erase_sock sock [] = []
erase_sock sock ((s, o) ∷ t) = if s == sock then t else (s, o) ∷ erase_sock sock t

-- `insert`, which keeps what is there; the table has no order.
unfoldable pub insert_sock : ℕ → ℕ → List (ℕ × ℕ) → List (ℕ × ℕ)
insert_sock sock o [] = (sock, o) ∷ []
insert_sock sock o ((s, p) ∷ t) = if s == sock then (s, p) ∷ t else (s, p) ∷ insert_sock sock o t

-- The server after a call, or after an exception, or undefined behaviour: the erasure of `end()`, a
-- step from an iterator whose element was erased, or a lock of `m_sendq_mtx` by the thread that has it.
pub data Served (Http Custom : Type 0) : Type 0 where
  served : HttpServer Http Custom → Served Http Custom
  threw : HttpServer Http Custom → Served Http Custom
  undefined : Served Http Custom
  out_of_fuel : Served Http Custom

-- How `Connection::performRecv` and the handler behind it ended. A handler that throws has sent responses. A custom parser that throws has
-- changed and has given some requests that were pushed before; an HTTP parser has made some callbacks.
pub data Fate (Http Custom : Type 0) : Type 0 where
  fine : Fate Http Custom
  handler_threw : List (ℕ × Response) → List (ℕ × Bytes) → Fate Http Custom
  parser_threw : Http → List Callback → Option Custom → List Bytes → Fate Http Custom

-- A round of the loops of `handleEvents`: the result of `::send`, and what a handler did that was called in
-- the round. It answers through its connection, not by `HttpServer::sendResponse`. An HTTP response that
-- it sends locks `m_sendq_mtx`, which the loops have locked.
pub data HandlerEnd : Type 0 where
  returned handler_throws sends_http : HandlerEnd

pub record Round : Type 0 where
  pub sent : Sent
  pub sends_custom : List (ℕ × Bytes)
  pub end : HandlerEnd

unfoldable pub made_parser :
    {Custom : Type 0} → Request → Option (CustomProtocolInfo Custom) → Option Custom × Bytes
made_parser q none = (none, [])
made_parser q (some info) = (info.parser_builder q, info.handshake_message)

module _ {Http Custom : Type 0} where
  unfoldable pub new_server : ResponseInfo → HttpServer Http Custom
  new_server resp_info = record {
    objects = [];
    reading_connections = [];
    resp_queue = [];
    custom_resp_queue = [];
    custom_protocols = [];
    resp_info = resp_info;
    handed = [];
    answered = [];
  }

  unfoldable pub add_custom_protocol :
      HttpServer Http Custom → Bytes → CustomProtocolInfo Custom → HttpServer Http Custom
  add_custom_protocol s protocol info = record s {
    custom_protocols = insert protocol info s.custom_protocols;
  }

  unfoldable pub set_conn :
      HttpServer Http Custom
      → ℕ
      → Object Http Custom
      → Connection Http Custom
      → HttpServer Http Custom
  set_conn s o x c = record s { objects = set_elem s.objects o (record x { conn = c }) }

  unfoldable pub kill_connection : HttpServer Http Custom → ℕ → HttpServer Http Custom
  kill_connection s sock = record s { reading_connections = erase_sock sock s.reading_connections }

  -- The loop of `performAccept`, on the sockets that `accept` gave, with the HTTP parser of each.
  unfoldable pub perform_accept :
      HttpServer Http Custom → Http → ℕ → List ℕ → HttpServer Http Custom
  perform_accept s parser now [] = s
  perform_accept s parser now (sock ∷ socks) =
      perform_accept
        (record s {
          objects =
              s.objects
              ++ record { sock = sock; conn = new_connection parser s.resp_info now } ∷ [];
          reading_connections = insert_sock sock (length s.objects) s.reading_connections;
        })
        parser now socks

  unfoldable pub get_custom_parser :
      HttpServer Http Custom → Bytes → Request → Option Custom × Bytes
  get_custom_parser s protocol q = made_parser q (lookup protocol s.custom_protocols)

  unfoldable pub send_response : HttpServer Http Custom → ℕ → Response → HttpServer Http Custom
  send_response s o resp = record s { resp_queue = s.resp_queue ++ (o, resp) ∷ [] }

  unfoldable pub send_found : HttpServer Http Custom → Response → Option ℕ → HttpServer Http Custom
  send_found s resp none = s
  send_found s resp (some o) = send_response s o resp

  unfoldable pub on_send_response : HttpServer Http Custom → ℕ → Response → HttpServer Http Custom
  on_send_response s sock resp = send_found s resp (find_sock sock s.reading_connections)

  unfoldable pub send_custom_found :
      HttpServer Http Custom → Bytes → Option ℕ → HttpServer Http Custom
  send_custom_found s resp none = s
  send_custom_found s resp (some o) = record s {
    custom_resp_queue = s.custom_resp_queue ++ (o, resp) ∷ [];
  }

  unfoldable pub on_send_custom_response :
      HttpServer Http Custom → ℕ → Bytes → HttpServer Http Custom
  on_send_custom_response s sock resp =
      send_custom_found s resp (find_sock sock s.reading_connections)

  unfoldable pub send_handshakes : HttpServer Http Custom → ℕ → List Bytes → HttpServer Http Custom
  send_handshakes s sock [] = s
  send_handshakes s sock (h ∷ hs) = send_handshakes (on_send_custom_response s sock h) sock hs

  -- What a handler sends.
  unfoldable pub send_customs : HttpServer Http Custom → List (ℕ × Bytes) → HttpServer Http Custom
  send_customs s [] = s
  send_customs s ((sock, resp) ∷ rs) = send_customs (on_send_custom_response s sock resp) rs

  unfoldable pub send_https : HttpServer Http Custom → List (ℕ × Response) → HttpServer Http Custom
  send_https s [] = s
  send_https s ((sock, resp) ∷ rs) = send_https (on_send_response s sock resp) rs
