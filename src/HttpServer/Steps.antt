-- ===== src/HttpServer/Steps.antt =====
-- The pace of the connections, over any events of the server.
use hiaux.Base.{
  ℕ, zero, suc, ◌≤◌, ◌≡◌, refl, List, [], ◌∷◌, ◌++◌, Bytes, get_elem?, Option, none, some, arith,
}
use hiaux.Base.Dict.{Dict}
use hiaux.Http.{ResponseInfo, Callback, End, new_connection}
use hiaux.HttpServer.{
  CustomProtocolInfo, Object, HttpServer, find_sock, Served, served, threw, undefined, out_of_fuel,
  Fate, kill_connection, perform_accept, send_response, send_found, on_send_response,
  on_send_custom_response, new_server,
}
use hiaux.HttpServer.Waiting.{perform_recv-waiting}
use hiaux.HttpServer.Events.{
  Event, accepts, reads, writes, fails, answers, answers_sock, answers_custom, queues, recv_object,
  recv_sock, on_read, step, steps,
}
use hiaux.HttpServer.Handling.{wait_of, IsPaced, Same-IsPaced, on_send_custom_response-Same}
use hiaux.HttpServer.Pacing.{IsServed, after_recv-IsPaced, on_write-IsPaced}
use hiaux.HttpServer.Rounds.{handle_queues-IsServed}

module _ {Http Custom : Type 0} where
  -- A new object has no flag.
  pub wait-snoc :
      (xs : List (Object Http Custom)) (y : Object Http Custom) (p : ℕ)
      → wait_of (get_elem? xs p) ≤ wait_of (get_elem? (xs ++ y ∷ []) p)
  wait-snoc [] y p = omega arith
  wait-snoc (x ∷ xs) y zero = omega arith
  wait-snoc (x ∷ xs) y (suc p) = wait-snoc xs y p

  pub perform_accept-IsPaced :
      (socks : List ℕ) (s : HttpServer Http Custom) (parser : Http) (now : ℕ)
      → IsPaced s
      → IsPaced (perform_accept s parser now socks)
  unfolding perform_accept
  perform_accept-IsPaced [] s parser now i = i
  perform_accept-IsPaced (sock ∷ socks) s parser now i =
      perform_accept-IsPaced socks _ parser now (λ p. omega (
        arith,
        i p,
        wait-snoc s.objects (record { sock = sock; conn = new_connection parser s.resp_info now })
            p,
      ))

  module _ (unescape : Bytes → Bytes) (http_execute : Http → Bytes → Http × List Callback)
      (custom_execute : Custom → Bytes → Custom × List Bytes) where
    on_read-IsPaced :
        (s : HttpServer Http Custom) (sock : ℕ) (parts : List Bytes) (end : End) (now : ℕ)
        (fate : Fate Http Custom)
        → IsPaced s
        → IsPaced (on_read unescape http_execute custom_execute s sock parts end now fate)
    unfolding on_read recv_sock recv_object
    on_read-IsPaced s sock parts end now fate i = go (find_sock sock s.reading_connections)
      where
        go_object :
            (o : ℕ) (m : Option (Object Http Custom))
            → get_elem? s.objects o ≡ m
            → IsPaced
                (recv_object unescape http_execute custom_execute s sock o parts end now fate m)
        go_object o none e = i
        go_object o (some x) e =
            after_recv-IsPaced unescape s sock o x _ now fate i e
              (perform_recv-waiting unescape http_execute custom_execute x.conn parts end now)

        go :
            (m : Option ℕ)
            → IsPaced (recv_sock unescape http_execute custom_execute s sock parts end now fate m)
        go none = i
        go (some o) = go_object o (get_elem? s.objects o) refl

    step-IsServed :
        (s : HttpServer Http Custom) (e : Event Http Custom)
        → IsPaced s
        → IsServed (step unescape http_execute custom_execute s e)
    unfolding step send_response on_send_response send_found kill_connection
    step-IsServed s (accepts parser now socks) i = perform_accept-IsPaced socks s parser now i
    step-IsServed s (reads sock parts end now fate) i = on_read-IsPaced s sock parts end now fate i
    step-IsServed s (writes sock r now) i = on_write-IsPaced s sock r now i
    step-IsServed s (fails sock) i = i
    step-IsServed s (answers o resp) i = i
    step-IsServed s (answers_sock sock resp) i = go (find_sock sock s.reading_connections)
      where
        go : (m : Option ℕ) → IsPaced (send_found s resp m)
        go none = i
        go (some o) = i
    step-IsServed s (answers_custom sock resp) i =
        Same-IsPaced s (on_send_custom_response s sock resp)
          (on_send_custom_response-Same s sock resp) i
    step-IsServed s (queues r limit now) i = handle_queues-IsServed s r limit now i

    steps-IsServed_from :
        (es : List (Event Http Custom)) (t : Served Http Custom)
        → IsServed t
        → IsServed (steps unescape http_execute custom_execute t es)
    unfolding steps
    steps-IsServed_from [] t h = h
    steps-IsServed_from (e ∷ es) (served s) h = steps-IsServed_from es _ (step-IsServed s e h)
    steps-IsServed_from (e ∷ es) (threw s) h = steps-IsServed_from es _ (step-IsServed s e h)
    steps-IsServed_from (e ∷ es) undefined h = tt
    steps-IsServed_from (e ∷ es) out_of_fuel h = tt

    -- After any events of the sockets, answers of the handlers and rounds over the queues of responses, in
    -- any order, on a new server with any custom protocols, where a handler that is called in a round
    -- answers through its connection, unless a round ended in undefined behaviour:
    -- the calls of handlers for a connection are at most as many as the responses to the connection
    -- that were handled, and at most one more while the connection waits for a response. Which
    -- request a response answers is not known to the server and not said here.
    pub steps-IsServed :
        (info : ResponseInfo) (protocols : Dict (CustomProtocolInfo Custom))
        (es : List (Event Http Custom))
        → IsServed (
            steps unescape http_execute custom_execute
              (served (record (new_server info) { custom_protocols = protocols }))
              es)
    unfolding new_server
    steps-IsServed info protocols es =
        steps-IsServed_from es (served (record (new_server info) { custom_protocols = protocols }))
          (λ o. omega arith)
