-- ===== src/HttpServer/Events.antt =====
-- The events of the server of network/HttpServer/HttpServer.impl, in any order.
use hiaux.Base.{ℕ, List, [], ◌∷◌, Bytes, get_elem?, Option, none, some}
use hiaux.Http.{Response, Callback, End, Sent}
use hiaux.Http.Input.{perform_recv}
use hiaux.HttpServer.{
  Object, HttpServer, find_sock, Served, served, threw, undefined, Round, out_of_fuel, Fate,
  kill_connection, perform_accept, send_response, on_send_response, on_send_custom_response,
}
use hiaux.HttpServer.Loop.{after_recv, on_write}
use hiaux.HttpServer.Responses.{handle_queues}

pub data Event (Http Custom : Type 0) : Type 0 where
  accepts : Http → ℕ → List ℕ → Event Http Custom
  reads : ℕ → List Bytes → End → ℕ → Fate Http Custom → Event Http Custom
  writes : ℕ → Sent → ℕ → Event Http Custom
  fails : ℕ → Event Http Custom
  answers : ℕ → Response → Event Http Custom
  answers_sock : ℕ → Response → Event Http Custom
  answers_custom : ℕ → Bytes → Event Http Custom
  queues : (ℕ → Round) → ℕ → ℕ → Event Http Custom

module _ {Http Custom : Type 0} where
  module _ (unescape : Bytes → Bytes) (http_execute : Http → Bytes → Http × List Callback)
      (custom_execute : Custom → Bytes → Custom × List Bytes) where
    unfoldable pub recv_object :
        HttpServer Http Custom
        → ℕ
        → ℕ
        → List Bytes
        → End
        → ℕ
        → Fate Http Custom
        → Option (Object Http Custom)
        → HttpServer Http Custom
    recv_object s sock o parts end now fate none = s
    recv_object s sock o parts end now fate (some x) =
        after_recv unescape s sock o x
          (perform_recv unescape http_execute custom_execute x.conn parts end now) now fate

    unfoldable pub recv_sock :
        HttpServer Http Custom
        → ℕ
        → List Bytes
        → End
        → ℕ
        → Fate Http Custom
        → Option ℕ
        → HttpServer Http Custom
    recv_sock s sock parts end now fate none = s
    recv_sock s sock parts end now fate (some o) =
        recv_object s sock o parts end now fate (get_elem? s.objects o)

    -- `performRecv`
    unfoldable pub on_read :
        HttpServer Http Custom
        → ℕ
        → List Bytes
        → End
        → ℕ
        → Fate Http Custom
        → HttpServer Http Custom
    on_read s sock parts end now fate =
        recv_sock s sock parts end now fate (find_sock sock s.reading_connections)

    -- What happens to the server: a socket's event, an answer of a handler, or the end of `handleEvents`.
    unfoldable pub step : HttpServer Http Custom → Event Http Custom → Served Http Custom
    step s (accepts parser now socks) = served (perform_accept s parser now socks)
    step s (reads sock parts end now fate) = served (on_read s sock parts end now fate)
    step s (writes sock r now) = served (on_write s sock r now)
    step s (fails sock) = served (kill_connection s sock)
    step s (answers o resp) = served (send_response s o resp)
    step s (answers_sock sock resp) = served (on_send_response s sock resp)
    step s (answers_custom sock resp) = served (on_send_custom_response s sock resp)
    step s (queues r limit now) = handle_queues s r limit now

    unfoldable pub steps : Served Http Custom → List (Event Http Custom) → Served Http Custom
    steps t [] = t
    steps (served s) (e ∷ es) = steps (step s e) es
    steps (threw s) (e ∷ es) = steps (step s e) es
    steps undefined (e ∷ es) = undefined
    steps out_of_fuel (e ∷ es) = out_of_fuel
