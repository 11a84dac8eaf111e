-- ===== src/HttpServer/Loop.antt =====
-- The handlers of network/HttpServer/HttpServer.impl: the events of the sockets, the responses, and
-- `handleEvents`. What the calls of the system return is an argument.
use hiaux.Base.{
  ℕ, List, [], ◌∷◌, ◌++◌, Bool, true, false, Bytes, get_elem?, if◌then◌else◌, Option, none, some,
}
use hiaux.Base.Dict.{lookup}
use hiaux.Http.{Request, Connection, Callback, Sent, not_dead}
use hiaux.Http.Input.{callbacks, check_upgrade}
use hiaux.Http.Output.{perform_send}
use hiaux.HttpServer.{
  CustomProtocolInfo, Hand, http, custom, Object, HttpServer, find_sock, Fate, fine, parser_threw,
  handler_threw, send_customs, send_https, set_conn, kill_connection, get_custom_parser,
  send_handshakes,
}

module _ {Http Custom : Type 0} where
  unfoldable pub hand : HttpServer Http Custom → Hand → HttpServer Http Custom
  hand s h = record s { handed = s.handed ++ h ∷ [] }

  unfoldable pub run_found :
      HttpServer Http Custom
      → ℕ
      → Bytes
      → Bytes
      → Option (CustomProtocolInfo Custom)
      → HttpServer Http Custom
  run_found s o protocol q none = s
  run_found s o protocol q (some info) = hand s (custom o protocol q)

  unfoldable pub run_custom_handler :
      HttpServer Http Custom → ℕ → Bytes → Bytes → HttpServer Http Custom
  run_custom_handler s o protocol q = run_found s o protocol q (lookup protocol s.custom_protocols)

  -- Behind `checkUpgrade`, which has called `sendCustomResponse` with the handshakes.
  unfoldable pub upgraded :
      HttpServer Http Custom
      → ℕ
      → Object Http Custom
      → Request
      → Connection Http Custom × (List Bytes × Bool)
      → HttpServer Http Custom
  upgraded s o x q (c, (handshakes, up)) =
      let t = send_handshakes (set_conn s o x c) x.sock handshakes in
      if up then t else hand t (http o q)

  unfoldable pub take_custom :
      HttpServer Http Custom
      → ℕ
      → Object Http Custom
      → Connection Http Custom
      → List Bytes
      → HttpServer Http Custom
  take_custom s o x c [] = s
  take_custom s o x c (q ∷ qs) =
      run_custom_handler
        (set_conn s o x (record c { waiting_last_handling = true; custom_requests = qs })) o
        c.custom_protocol_id q

  unfoldable pub take_http :
      HttpServer Http Custom
      → ℕ
      → Object Http Custom
      → Connection Http Custom
      → List Request
      → HttpServer Http Custom
  take_http s o x c [] = take_custom s o x c c.custom_requests
  take_http s o x c (q ∷ qs) = upgraded s o x q (
      check_upgrade (get_custom_parser s)
        (record c { waiting_last_handling = true; http_requests = qs }) q)

  -- `handleWaitingRequests`, on the object `x` of number `o` with the connection `c`.
  unfoldable pub handle_waiting_requests :
      HttpServer Http Custom
      → ℕ
      → Object Http Custom
      → Connection Http Custom
      → HttpServer Http Custom
  handle_waiting_requests s o x c =
      if c.waiting_last_handling
      then s
      else (if c.custom_protocol
          then take_custom s o x c c.custom_requests
          else take_http s o x c c.http_requests)

  -- The connection of a read that threw behind the bytes.
  unfoldable pub broken_read :
      (Bytes → Bytes)
      → Connection Http Custom
      → ℕ
      → Http
      → List Callback
      → Option Custom
      → List Bytes
      → Connection Http Custom
  broken_read unescape c now parser ks custom_parser requests =
      if c.custom_protocol
      then record c {
        last_activity_ts = now;
        custom_parser = custom_parser;
        custom_requests = c.custom_requests ++ requests;
      }
      else callbacks unescape (record c { last_activity_ts = now; parser = parser }) ks

  -- Behind `Connection::performRecv`, which leaves the connection `c`.
  unfoldable pub after_recv :
      (Bytes → Bytes)
      → HttpServer Http Custom
      → ℕ
      → ℕ
      → Object Http Custom
      → Connection Http Custom
      → ℕ
      → Fate Http Custom
      → HttpServer Http Custom
  after_recv unescape s sock o x c now (parser_threw parser ks custom_parser requests) =
      kill_connection
        (set_conn s o x (broken_read unescape x.conn now parser ks custom_parser requests)) sock
  after_recv unescape s sock o x c now fine =
      if not_dead c now
      then handle_waiting_requests (set_conn s o x c) o x c
      else kill_connection (set_conn s o x c) sock
  after_recv unescape s sock o x c now (handler_threw resps customs) =
      if not_dead c now
      then kill_connection
          (send_customs (send_https (handle_waiting_requests (set_conn s o x c) o x c) resps)
            customs)
          sock
      else kill_connection (set_conn s o x c) sock

  unfoldable pub after_send :
      HttpServer Http Custom
      → ℕ
      → ℕ
      → Object Http Custom
      → ℕ
      → Connection Http Custom × Bool
      → HttpServer Http Custom
  after_send s sock o x now (c, true) = set_conn s o x c
  after_send s sock o x now (c, false) =
      if not_dead c now then set_conn s o x c else kill_connection (set_conn s o x c) sock

  unfoldable pub send_object :
      HttpServer Http Custom
      → ℕ
      → ℕ
      → Sent
      → ℕ
      → Option (Object Http Custom)
      → HttpServer Http Custom
  send_object s sock o r now none = s
  send_object s sock o r now (some x) = after_send s sock o x now (perform_send x.conn r now)

  unfoldable pub send_sock :
      HttpServer Http Custom → ℕ → Sent → ℕ → Option ℕ → HttpServer Http Custom
  send_sock s sock r now none = s
  send_sock s sock r now (some o) = send_object s sock o r now (get_elem? s.objects o)

  -- `performSend`, with the result of `::send` and the time.
  unfoldable pub on_write : HttpServer Http Custom → ℕ → Sent → ℕ → HttpServer Http Custom
  on_write s sock r now = send_sock s sock r now (find_sock sock s.reading_connections)
