-- ===== src/HttpServer/Rounds.antt =====
-- The pace of the connections, over the rounds of `handleEvents`.
use hiaux.Base.{
  ℕ, zero, suc, ◌≡◌, refl, List, [], ◌∷◌, Bytes, length, take, ◌==◌, ltb, get_elem?, Option, none,
  some, if_both,
}
use hiaux.Http.{Response}
use hiaux.Http.Output.{add_response, add_custom_response}
use hiaux.HttpServer.{
  Object, HttpServer, Served, served, threw, undefined, out_of_fuel, HandlerEnd, returned,
  handler_throws, sends_http, Round, send_customs,
}
use hiaux.HttpServer.Responses.{
  respond, respond_custom, handler_end, handler_did, keep_response, keep_custom, drain_responses,
  drain_custom_next, drain_custom_responses, any_dead, clean_up_dead_connections, then_clean_up,
  handle_queues,
}
use hiaux.HttpServer.Handling.{Same-IsPaced, send_customs-Same, IsPaced}
use hiaux.HttpServer.Pacing.{IsServed, handle_response-IsServed}

module _ {Http Custom : Type 0} where
  handler_did-IsServed :
      (limit calls : ℕ) (r : Round) (t : Served Http Custom)
      → IsServed t
      → IsServed (handler_did limit calls r t)
  unfolding handler_did handler_end
  handler_did-IsServed limit calls r (served s) h =
      if_both IsServed (calls == length s.handed) (served s) _ (λ e. h) (λ e. go r.end)
    where
      sent : IsPaced (send_customs s (take limit r.sends_custom))
      sent =
          Same-IsPaced s (send_customs s (take limit r.sends_custom))
            (send_customs-Same (take limit r.sends_custom) s) h

      go : (e : HandlerEnd) → IsServed (handler_end (send_customs s (take limit r.sends_custom)) e)
      go returned = sent
      go handler_throws = sent
      go sends_http = tt
  handler_did-IsServed limit calls r (threw s) h = h
  handler_did-IsServed limit calls r undefined h = tt
  handler_did-IsServed limit calls r out_of_fuel h = tt

  keep_response-IsServed :
      (x : ℕ × Response) (q : List (ℕ × Response)) (t : Served Http Custom)
      → IsServed t
      → IsServed (keep_response x q t)
  unfolding keep_response
  keep_response-IsServed x q (served s) h = h
  keep_response-IsServed x q (threw s) h = h
  keep_response-IsServed x q undefined h = tt
  keep_response-IsServed x q out_of_fuel h = tt

  keep_custom-IsServed :
      (x : ℕ × Bytes) (t : Served Http Custom) → IsServed t → IsServed (keep_custom x t)
  unfolding keep_custom
  keep_custom-IsServed x (served s) h = h
  keep_custom-IsServed x (threw s) h = h
  keep_custom-IsServed x undefined h = tt
  keep_custom-IsServed x out_of_fuel h = tt

  pub drain_responses-IsServed :
      (r : ℕ → Round) (limit now : ℕ) (q : List (ℕ × Response)) (t : Served Http Custom)
      → IsServed t
      → IsServed (drain_responses r limit now q t)
  unfolding drain_responses respond
  drain_responses-IsServed r limit now [] t h = h
  drain_responses-IsServed r limit now ((o, resp) ∷ q) (served s) h =
      drain_responses-IsServed r limit now q _ (
        keep_response-IsServed (o, resp) q _
          (handler_did-IsServed limit (length s.handed) (r (length q)) _
            (go (get_elem? s.objects o) refl)))
    where
      s2 : HttpServer Http Custom
      s2 = record s { resp_queue = q }

      go :
          (m : Option (Object Http Custom))
          → get_elem? s.objects o ≡ m
          → IsServed (respond s2 o resp (r (length q)).sent now m)
      go none e = h
      go (some x) e =
          handle_response-IsServed s2 o x (add_response x.conn resp now) (r (length q)).sent now h e
  drain_responses-IsServed r limit now ((o, resp) ∷ q) (threw s) h = h
  drain_responses-IsServed r limit now ((o, resp) ∷ q) undefined h = tt
  drain_responses-IsServed r limit now ((o, resp) ∷ q) out_of_fuel h = tt

  pub drain_custom-IsServed :
      (r : ℕ → Round) (limit now fuel : ℕ) (t : Served Http Custom)
      → IsServed t
      → IsServed (drain_custom_responses r limit now fuel t)
  unfolding drain_custom_responses drain_custom_next respond_custom
  drain_custom-IsServed r limit now zero t h = tt
  drain_custom-IsServed r limit now (suc fuel) (served s) h =
      go (drain_custom-IsServed r limit now fuel) s.custom_resp_queue
    where
      found :
          (o : ℕ) (resp : Bytes) (q : List (ℕ × Bytes)) (m : Option (Object Http Custom))
          → get_elem? s.objects o ≡ m
          → IsServed
              (respond_custom (record s { custom_resp_queue = q }) o resp (r fuel).sent now m)
      found o resp q none e = h
      found o resp q (some x) e =
          handle_response-IsServed (record s { custom_resp_queue = q }) o x
            (add_custom_response x.conn resp) (r fuel).sent now h e

      go :
          ((t : Served Http Custom)
            → IsServed t
            → IsServed (drain_custom_responses r limit now fuel t))
          → (q : List (ℕ × Bytes))
          → IsServed
              (drain_custom_next (drain_custom_responses r limit now fuel) s (r fuel) limit now q)
      go next [] = h
      go next ((o, resp) ∷ q) = next _ (
          keep_custom-IsServed (o, resp) _
            (handler_did-IsServed limit (length s.handed) (r fuel) _
              (found o resp q (get_elem? s.objects o) refl)))
  drain_custom-IsServed r limit now (suc fuel) (threw s) h = h
  drain_custom-IsServed r limit now (suc fuel) undefined h = tt
  drain_custom-IsServed r limit now (suc fuel) out_of_fuel h = tt

  pub handle_queues-IsServed :
      (s : HttpServer Http Custom) (r : ℕ → Round) (limit now : ℕ)
      → IsPaced s
      → IsServed (handle_queues s r limit now)
  unfolding handle_queues then_clean_up clean_up_dead_connections
  handle_queues-IsServed s r limit now i = go _ (
      drain_custom-IsServed r limit now _ _
        (drain_responses-IsServed r limit now s.resp_queue (served s) i))
    where
      go : (t : Served Http Custom) → IsServed t → IsServed (then_clean_up now t)
      go (served u) h =
          if_both IsServed (ltb now 5) (served u) _ (λ a. h)
            (λ a.
              if_both IsServed (any_dead u.objects now u.reading_connections) undefined (served u)
                (λ b. tt) (λ b. h))
      go (threw u) h = h
      go undefined h = tt
      go out_of_fuel h = tt
