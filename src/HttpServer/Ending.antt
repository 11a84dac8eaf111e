-- ===== src/HttpServer/Ending.antt =====
-- The rounds over the queues of responses.
use hiaux.Base.{
  ℕ, zero, suc, ◌≡◌, refl, ap, List, [], ◌∷◌, Bytes, length, get_elem?, Option, none, some, arith,
}
use hiaux.Http.{Response}
use hiaux.Http.Output.{add_response, add_custom_response}
use hiaux.HttpServer.{Object, HttpServer, Served, served, threw, undefined, out_of_fuel, Round}
use hiaux.HttpServer.Responses.{
  respond_custom, keep_response, drain_custom_next, drain_custom_responses, drain_responses,
  respond,
}
use hiaux.HttpServer.Fuel.{work, Works-refl}
use hiaux.HttpServer.Spending.{
  HasEnded, Handled, Leaves, handle_response-Handled, handler_did-Leaves, keep_custom-Leaves,
  Leaves-mono,
}

module _ {Http Custom : Type 0} where
  pub drain_custom-HasEnded :
      (r : ℕ → Round) (limit now fuel : ℕ) (t : Served Http Custom)
      → Leaves limit fuel t
      → HasEnded (drain_custom_responses r limit now (suc fuel) t)
  unfolding drain_custom_responses drain_custom_next respond_custom add_custom_response
  drain_custom-HasEnded r limit now fuel undefined h = tt
  drain_custom-HasEnded r limit now fuel (threw s) h = tt
  drain_custom-HasEnded r limit now fuel out_of_fuel h = h
  drain_custom-HasEnded r limit now zero (served s) h = go s.custom_resp_queue refl
    where
      go :
          (q : List (ℕ × Bytes))
          → s.custom_resp_queue ≡ q
          → HasEnded
              (drain_custom_next (drain_custom_responses r limit now zero) s (r zero) limit now q)
      go [] e = tt
      go (x ∷ q) e = absurd (omega (arith, h, ap length e))
  drain_custom-HasEnded r limit now (suc fuel) (served s) h =
      go (λ t k. drain_custom-HasEnded r limit now fuel t k) s.custom_resp_queue refl
    where
      found :
          (o : ℕ) (resp : Bytes) (q : List (ℕ × Bytes)) (m : Option (Object Http Custom))
          → get_elem? s.objects o ≡ m
          → Handled limit
              (record s { custom_resp_queue = q })
              (respond_custom (record s { custom_resp_queue = q }) o resp (r (suc fuel)).sent now m)
      found o resp q none e = Works-refl limit (record s { custom_resp_queue = q })
      found o resp q (some x) e =
          handle_response-Handled limit (record s { custom_resp_queue = q }) o x
            (add_custom_response x.conn resp) (r (suc fuel)).sent now e (refl, refl)

      go :
          ((t : Served Http Custom)
            → Leaves limit fuel t
            → HasEnded (drain_custom_responses r limit now (suc fuel) t))
          → (q : List (ℕ × Bytes)) → s.custom_resp_queue ≡ q
          → HasEnded (
              drain_custom_next
                (drain_custom_responses r limit now (suc fuel))
                s
                (r (suc fuel))
                limit
                now
                q)
      go next [] e = tt
      go next ((o, resp) ∷ q) e = next _ (
          keep_custom-Leaves limit fuel (o, resp) _
            (Leaves-mono limit (work limit (record s { custom_resp_queue = q })) fuel _
              (omega (arith, h, ap length e))
              (handler_did-Leaves limit (record s { custom_resp_queue = q }) (r (suc fuel)) _
                (found o resp q (get_elem? s.objects o) refl))))

  Leaves-HasEnded : (limit n : ℕ) (t : Served Http Custom) → Leaves limit n t → HasEnded t
  Leaves-HasEnded limit n (served u) l = tt
  Leaves-HasEnded limit n (threw u) l = tt
  Leaves-HasEnded limit n undefined l = tt
  Leaves-HasEnded limit n out_of_fuel l = l

  keep_response-HasEnded :
      (x : ℕ × Response) (q : List (ℕ × Response)) (t : Served Http Custom)
      → HasEnded t
      → HasEnded (keep_response x q t)
  unfolding keep_response
  keep_response-HasEnded x q (served s) h = tt
  keep_response-HasEnded x q (threw s) h = tt
  keep_response-HasEnded x q undefined h = tt
  keep_response-HasEnded x q out_of_fuel h = h

  pub drain_responses-HasEnded :
      (r : ℕ → Round) (limit now : ℕ) (q : List (ℕ × Response)) (t : Served Http Custom)
      → HasEnded t
      → HasEnded (drain_responses r limit now q t)
  unfolding drain_responses respond add_response
  drain_responses-HasEnded r limit now [] t h = h
  drain_responses-HasEnded r limit now ((o, resp) ∷ q) undefined h = tt
  drain_responses-HasEnded r limit now ((o, resp) ∷ q) (threw s) h = tt
  drain_responses-HasEnded r limit now ((o, resp) ∷ q) out_of_fuel h = h
  drain_responses-HasEnded r limit now ((o, resp) ∷ q) (served s) h =
      drain_responses-HasEnded r limit now q _ (
        keep_response-HasEnded (o, resp) q _
          (Leaves-HasEnded limit (work limit (record s { resp_queue = q })) _ (
            handler_did-Leaves limit (record s { resp_queue = q }) (r (length q)) _
              (go (get_elem? s.objects o) refl))))
    where
      go :
          (m : Option (Object Http Custom))
          → get_elem? s.objects o ≡ m
          → Handled limit
              (record s { resp_queue = q })
              (respond (record s { resp_queue = q }) o resp (r (length q)).sent now m)
      go none e = Works-refl limit (record s { resp_queue = q })
      go (some x) e =
          handle_response-Handled limit (record s { resp_queue = q }) o x
            (add_response x.conn resp now) (r (length q)).sent now e (refl, refl)
