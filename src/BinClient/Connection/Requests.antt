-- ===== src/BinClient/Connection/Requests.antt =====
-- What the calls of a connection do to the requests that wait for their answers.
use mathlib.Core.Path.{subst}
use hiaux.Base.{
  ℕ, zero, suc, ◌+◌, ◌^◌, ◌-◌, ◌≡◌, refl, ap, List, [], ◌∷◌, ◌++◌, true, false, Bytes, length, drop,
  ltb, ◌==◌, arith, if_both, sum_of, sum_of-append, map,
}
use hiaux.BinClient.Parser.{Outcome, returns, throws, execute, get_response, has_response}
use hiaux.BinClient.Connection.{
  Request, Call, finished, Connection, Sent, wrote, nothing, minus_one, SendOutcome, sent_on,
  send_lost, send_out_of_range, after_send, send_result, perform_send, check_keep_alive,
  keepalive_due, close_connection, Nread, ReadOutcome, read_bytes, read_lost, read_out_of_fuel,
  next_recv, read_loop, Receipt, received, recv_lost, threw, unsolicited, out_of_fuel, with_parser,
  answer, take_response, answer_loop, after_execute, on_bytes, on_read, perform_recv,
}

-- The connection after a send, however it ended.
abbrev pub sent_of : SendOutcome → Connection
sent_of (sent_on c) = c
sent_of (send_lost c) = c
sent_of (send_out_of_range c) = c

abbrev IsKept : Connection → SendOutcome → Type 0
IsKept c o = (sent_of o).sent_requests ≡ c.sent_requests

after_send-IsKept : (c : Connection) (n : ℕ) → IsKept c (after_send c n)
unfolding after_send
after_send-IsKept c n =
    if_both (IsKept c) (length c.send_buffer == n) (sent_on (record c { send_buffer = [] })) _
      (λ e. refl)
      (λ e.
        if_both (IsKept c) (ltb (length c.send_buffer) n) (send_out_of_range c)
          (sent_on (record c { send_buffer = drop n c.send_buffer })) (λ d. refl) (λ d. refl))

pub perform_send-requests :
    (c : Connection) (r : Sent) → (sent_of (perform_send c r)).sent_requests ≡ c.sent_requests
unfolding perform_send send_result
perform_send-requests c r =
    if_both (IsKept c) (length c.send_buffer == 0) (sent_on c) _ (λ e. refl) (λ e. go r)
  where
    go : (r : Sent) → IsKept c (send_result c r)
    go (wrote n) = after_send-IsKept c n
    go (nothing again) =
        if_both (IsKept c) again (after_send c 0) (send_lost c) (λ e. after_send-IsKept c 0)
          (λ e. refl)
    go (minus_one again) =
        if_both (IsKept c) again (after_send c (2 ^ 64 - 1)) (send_lost c)
          (λ e. after_send-IsKept c (2 ^ 64 - 1)) (λ e. refl)

pub check_keep_alive-requests :
    (c : Connection) (now : ℕ) (r : Sent)
    → (sent_of (check_keep_alive c now r)).sent_requests ≡ c.sent_requests
unfolding check_keep_alive
check_keep_alive-requests c now r =
    if_both (IsKept c) (keepalive_due c now) _ (sent_on c) (λ e. perform_send-requests _ r)
      (λ e. refl)

module _ (w : ℕ → ℕ) where
  abbrev pub call_weight : Call → ℕ
  call_weight (finished k ok resp) = w k

  abbrev pub request_weight : Request → ℕ
  request_weight r = w r.callback

  -- Of the requests that wait and the callbacks that have been called.
  abbrev pub weight : Connection → List Call → ℕ
  weight c calls = sum_of request_weight c.sent_requests + sum_of call_weight calls

  -- A receipt with a connection has kept the weight.
  abbrev pub HasWeight : ℕ → Receipt → Type 0
  HasWeight n (received c calls) = weight c calls ≡ n
  HasWeight n (recv_lost c calls) = weight c calls ≡ n
  HasWeight n (threw e c calls) = weight c calls ≡ n
  HasWeight n (unsolicited c calls) = Unit
  HasWeight n out_of_fuel = Unit

  pub close_connection-weight :
      (c : Connection)
      → sum_of call_weight (close_connection c) ≡ sum_of request_weight c.sent_requests
  unfolding close_connection
  close_connection-weight c = go c.sent_requests
    where
      go :
          (rs : List Request)
          → sum_of call_weight (map (λ r. finished r.callback false []) rs)
            ≡ sum_of request_weight rs
      go [] = refl
      go (r ∷ rs) = ap (◌+◌ (w r.callback)) (go rs)

  module _ (junk : Bytes → ℕ) where
    answer-HasWeight :
        (fuel : ℕ) (c : Connection) (calls : List Call) (resp : Bytes) (rs : List Request)
        → ((c : Connection) (calls : List Call)
            → HasWeight (weight c calls) (answer_loop junk fuel c calls))
        → c.sent_requests ≡ rs
        → HasWeight (weight c calls) (answer junk (answer_loop junk fuel) c calls resp rs)
    unfolding answer
    answer-HasWeight fuel c calls resp [] h e = tt
    answer-HasWeight fuel c calls resp (r ∷ rs) h e =
        let done = finished r.callback true resp in
        subst
          (λ n.
            HasWeight n
              (answer_loop junk fuel (record c { sent_requests = rs }) (calls ++ done ∷ [])))
          (omega (arith, ap (sum_of request_weight) e, sum_of-append call_weight calls (done ∷ [])))
          (h (record c { sent_requests = rs }) (calls ++ done ∷ []))

    take_response-HasWeight :
        (fuel : ℕ) (c : Connection) (calls : List Call) (resp : Bytes) (o : Outcome)
        → ((c : Connection) (calls : List Call)
            → HasWeight (weight c calls) (answer_loop junk fuel c calls))
        → HasWeight (weight c calls) (take_response junk (answer_loop junk fuel) c calls resp o)
    unfolding take_response
    take_response-HasWeight fuel c calls resp (throws called e p) h = refl
    take_response-HasWeight fuel c calls resp (returns called p) h =
        answer-HasWeight fuel (with_parser called p c) calls resp c.sent_requests h refl

    answer_loop-HasWeight :
        (fuel : ℕ) (c : Connection) (calls : List Call)
        → HasWeight (weight c calls) (answer_loop junk fuel c calls)
    unfolding answer_loop take_response
    answer_loop-HasWeight zero c calls = tt
    answer_loop-HasWeight (suc fuel) c calls =
        let next =
          take_response junk (answer_loop junk fuel) c calls (get_response junk c.parser).0
            (get_response junk c.parser).1 in
        elim (has_response c.parser)
          as (λ b. HasWeight (weight c calls) (elim b [ false ↦ received c calls | true ↦ next ])) [
            | false ↦ refl
            | true ↦
                take_response-HasWeight fuel c calls (get_response junk c.parser).0
                  (get_response junk c.parser).1 (answer_loop-HasWeight fuel)
          ]

    on_bytes-HasWeight :
        (c : Connection) (calls : List Call) (s : Bytes)
        → HasWeight (weight c calls) (on_bytes junk c calls s)
    unfolding on_bytes after_execute
    on_bytes-HasWeight c calls [] = answer_loop-HasWeight _ c calls
    on_bytes-HasWeight c calls (b ∷ s) = go _ (execute junk c.parser (b ∷ s))
      where
        go :
            (fuel : ℕ) (o : Outcome)
            → HasWeight (weight c calls) (after_execute junk fuel c calls o)
        go fuel (throws called e p) = refl
        go fuel (returns called p) = answer_loop-HasWeight fuel (with_parser called p c) calls

    -- A callback's request is answered once or waits still, however the call ended.
    pub perform_recv-HasWeight :
        (fuel : ℕ) (c : Connection) (calls : List Call) (ns : List Nread)
        → HasWeight (weight c calls) (perform_recv junk fuel c calls ns)
    unfolding perform_recv on_read
    perform_recv-HasWeight fuel c calls ns =
        go (read_loop fuel (next_recv ns).0 (next_recv ns).1 [])
      where
        go : (o : ReadOutcome) → HasWeight (weight c calls) (on_read junk c calls o)
        go (read_bytes s) = on_bytes-HasWeight c calls s
        go read_lost = refl
        go read_out_of_fuel = tt
