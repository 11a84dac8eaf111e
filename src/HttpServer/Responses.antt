-- ===== src/HttpServer/Responses.antt =====
-- The responses of network/HttpServer/HttpServer.impl: `handleResponse`, the queues and the cleanup.
use hiaux.Base.{
  ℕ, zero, suc, ◌+◌, List, [], ◌∷◌, ◌++◌, Bool, true, false, not, ◌||◌, ltb, sum_of, Bytes, length,
  take, ◌==◌, get_elem?, if◌then◌else◌, Option, none, some,
}
use hiaux.Http.{Response, Connection, Sent, not_dead}
use hiaux.Http.Output.{add_response, add_custom_response, perform_send}
use hiaux.HttpServer.{
  Object, HttpServer, find_sock, Served, served, threw, undefined, out_of_fuel, HandlerEnd,
  returned, handler_throws, sends_http, Round, set_conn, kill_connection, send_customs,
}
use hiaux.HttpServer.Loop.{handle_waiting_requests}

-- `n` requests, each of which becomes a response at an upgrade or `limit` responses of its handler.
unfoldable pub at_most : ℕ → ℕ → ℕ
at_most limit zero = 0
at_most limit (suc n) = suc limit + at_most limit n

module _ {Http Custom : Type 0} where
  -- Behind `performSend` of `handleResponse`; an entry is erased that may not be there.
  unfoldable pub erase_found : HttpServer Http Custom → ℕ → Option ℕ → Served Http Custom
  erase_found s sock none = undefined
  erase_found s sock (some p) = served (kill_connection s sock)

  unfoldable pub responded :
      HttpServer Http Custom
      → ℕ
      → Object Http Custom
      → ℕ
      → Connection Http Custom × Bool
      → Served Http Custom
  responded s o x now (c, true) = served (handle_waiting_requests (set_conn s o x c) o x c)
  responded s o x now (c, false) =
      if not_dead c now
      then served (handle_waiting_requests (set_conn s o x c) o x c)
      else erase_found (set_conn s o x c) x.sock (find_sock x.sock s.reading_connections)

  -- `handleResponse`, on a connection that the response has been added to.
  unfoldable pub handle_response :
      HttpServer Http Custom
      → ℕ
      → Object Http Custom
      → Connection Http Custom
      → Sent
      → ℕ
      → Served Http Custom
  handle_response s o x c r now =
      responded (record s { answered = s.answered ++ o ∷ [] }) o x now
        (perform_send (record c { waiting_last_handling = false }) r now)

  unfoldable pub respond :
      HttpServer Http Custom
      → ℕ
      → Response
      → Sent
      → ℕ
      → Option (Object Http Custom)
      → Served Http Custom
  respond s o resp r now none = served s
  respond s o resp r now (some x) = handle_response s o x (add_response x.conn resp now) r now

  unfoldable pub respond_custom :
      HttpServer Http Custom
      → ℕ
      → Bytes
      → Sent
      → ℕ
      → Option (Object Http Custom)
      → Served Http Custom
  respond_custom s o resp r now none = served s
  respond_custom s o resp r now (some x) =
      handle_response s o x (add_custom_response x.conn resp) r now

  unfoldable pub handler_end : HttpServer Http Custom → HandlerEnd → Served Http Custom
  handler_end s returned = served s
  handler_end s handler_throws = threw s
  handler_end s sends_http = undefined

  -- A handler was called if more calls are logged than there were; it sends `limit` responses at most.
  unfoldable pub handler_did : ℕ → ℕ → Round → Served Http Custom → Served Http Custom
  handler_did limit calls r (served s) =
      if calls == length s.handed
      then served s
      else handler_end (send_customs s (take limit r.sends_custom)) r.end
  handler_did limit calls r (threw s) = threw s
  handler_did limit calls r undefined = undefined
  handler_did limit calls r out_of_fuel = out_of_fuel

  -- A response whose handling threw is not popped.
  unfoldable pub keep_response :
      ℕ × Response → List (ℕ × Response) → Served Http Custom → Served Http Custom
  keep_response x q (served s) = served s
  keep_response x q (threw s) = threw (record s { resp_queue = x ∷ q })
  keep_response x q undefined = undefined
  keep_response x q out_of_fuel = out_of_fuel

  unfoldable pub keep_custom : ℕ × Bytes → Served Http Custom → Served Http Custom
  keep_custom x (served s) = served s
  keep_custom x (threw s) = threw (record s { custom_resp_queue = x ∷ s.custom_resp_queue })
  keep_custom x undefined = undefined
  keep_custom x out_of_fuel = out_of_fuel

  -- The loop over `m_resp_queue`, to which no call that it makes pushes; `r` has the rounds by the
  -- number of responses behind.
  unfoldable pub drain_responses :
      (ℕ → Round) → ℕ → ℕ → List (ℕ × Response) → Served Http Custom → Served Http Custom
  drain_responses r limit now [] t = t
  drain_responses r limit now ((o, resp) ∷ q) (served s) = drain_responses r limit now q (
      keep_response (o, resp) q
        (handler_did limit (length s.handed) (r (length q)) (
          respond (record s { resp_queue = q }) o resp (r (length q)).sent now
            (get_elem? s.objects o))))
  drain_responses r limit now ((o, resp) ∷ q) (threw s) = threw s
  drain_responses r limit now ((o, resp) ∷ q) undefined = undefined
  drain_responses r limit now ((o, resp) ∷ q) out_of_fuel = out_of_fuel

  -- The loop over `m_custom_resp_queue`, to which an upgrade and a handler push.
  unfoldable pub drain_custom_next :
      (Served Http Custom → Served Http Custom)
      → HttpServer Http Custom
      → Round
      → ℕ
      → ℕ
      → List (ℕ × Bytes)
      → Served Http Custom
  drain_custom_next next s r limit now [] = served s
  drain_custom_next next s r limit now ((o, resp) ∷ q) = next (
      keep_custom (o, resp)
        (handler_did limit (length s.handed) r (
          respond_custom (record s { custom_resp_queue = q }) o resp r.sent now
            (get_elem? s.objects o))))

  unfoldable pub drain_custom_responses :
      (ℕ → Round) → ℕ → ℕ → ℕ → Served Http Custom → Served Http Custom
  drain_custom_responses r limit now zero t = out_of_fuel
  drain_custom_responses r limit now (suc fuel) (served s) =
      drain_custom_next (drain_custom_responses r limit now fuel) s (r fuel) limit now
        s.custom_resp_queue
  drain_custom_responses r limit now (suc fuel) (threw s) = threw s
  drain_custom_responses r limit now (suc fuel) undefined = undefined
  drain_custom_responses r limit now (suc fuel) out_of_fuel = out_of_fuel

  unfoldable pub is_dead : List (Object Http Custom) → ℕ → ℕ → Bool
  is_dead objects now o = dead_object (get_elem? objects o)
    where
      dead_object : Option (Object Http Custom) → Bool
      dead_object none = false
      dead_object (some x) = not (not_dead x.conn now)

  unfoldable pub any_dead : List (Object Http Custom) → ℕ → List (ℕ × ℕ) → Bool
  any_dead objects now [] = false
  any_dead objects now ((sock, o) ∷ t) = is_dead objects now o || any_dead objects now t

  -- `last_cleanup` stays 0. The loop goes on from the iterator of an erased element.
  unfoldable pub clean_up_dead_connections : HttpServer Http Custom → ℕ → Served Http Custom
  clean_up_dead_connections s now =
      if ltb now 5
      then served s
      else (if any_dead s.objects now s.reading_connections then undefined else served s)

  -- An exception skips the cleanup.
  unfoldable pub then_clean_up : ℕ → Served Http Custom → Served Http Custom
  then_clean_up now (served s) = clean_up_dead_connections s now
  then_clean_up now (threw s) = served s
  then_clean_up now undefined = undefined
  then_clean_up now out_of_fuel = out_of_fuel

  unfoldable pub fuel_of : ℕ → Served Http Custom → ℕ
  fuel_of limit (served s) = suc (
      length s.custom_resp_queue
      + sum_of
          (λ x.
            at_most limit (length x.conn.http_requests)
            + at_most limit (length x.conn.custom_requests))
          s.objects)
  fuel_of limit (threw s) = 1
  fuel_of limit undefined = 1
  fuel_of limit out_of_fuel = 1

  -- The two loops of `handleEvents` and the cleanup. A handler called in them sends `limit` responses of
  -- custom protocols at most.
  unfoldable pub handle_queues : HttpServer Http Custom → (ℕ → Round) → ℕ → ℕ → Served Http Custom
  handle_queues s r limit now =
      let t = drain_responses r limit now s.resp_queue (served s) in
      then_clean_up now (drain_custom_responses r limit now (fuel_of limit t) t)
