-- ===== src/BinClient/Client/Answered.antt =====
-- The handlers of the pool, and the places of its requests.
use mathlib.Core.Path.{subst}
use hiaux.Base.{
  ℕ, ◌+◌, ◌≡◌, refl, ap, List, [], ◌∷◌, Bool, true, false, Bytes, ◌==◌, ltb, length, Option, none,
  some, arith, if_both, sum_of, sum_of-append,
}
use hiaux.BinClient.Connection.{
  Request, Connection, Sent, SendOutcome, sent_on, send_lost, send_out_of_range, perform_send,
  add_request, check_keep_alive, Nread, perform_recv,
}
use hiaux.BinClient.Connection.Requests.{
  sent_of, check_keep_alive-requests, request_weight, perform_recv-HasWeight,
}
use hiaux.BinClient.Client.{
  find, put_free, BinClientA, Dial, Handled, handled, undefined, endless, establish_new_connection,
  send_handled,
}
use hiaux.BinClient.Client.Conserved.{
  sent_weight, slot_weight, total, HasTotal, set-weight, perform_send-weight, establish-total,
  on_lost-total, send_handled-total, recv_handled-HasTotal,
}
use hiaux.BinClient.Client.Handlers.{
  is_active, read_found, on_read, write_idle, write_found, on_write, error_found, on_error,
  put_sent, put_found, put_loop, put_first, put_requests_to_free_connections, keep_alive_next,
  keep_alive_loop, check_all_keep_alive, Io, reads, writes, fails, io, then_io, Turn, after_put,
  handle_connected, handle_events,
}

module _ (w : ℕ → ℕ) (junk : Bytes → ℕ) where
  add_request-weight :
      (c : Connection) (req : Request)
      → sent_weight w (add_request c req) ≡ sent_weight w c + w req.callback
  unfolding add_request
  add_request-weight c req =
      omega (arith, sum_of-append (request_weight w) c.sent_requests (req ∷ []))

  on_read-HasTotal :
      (b : BinClientA) (sock fuel : ℕ) (ns : List Nread) (d : Dial)
      → HasTotal w (total w b) (on_read junk b sock fuel ns d)
  unfolding on_read read_found
  on_read-HasTotal b sock fuel ns d = go (find sock b.connections) refl
    where
      go :
          (o : Option Connection)
          → find sock b.connections ≡ o
          → HasTotal w (total w b) (read_found junk b sock fuel ns d o)
      go none h = refl
      go (some c) h =
          recv_handled-HasTotal w b sock c d (perform_recv junk fuel c b.calls ns) h
            (perform_recv-HasWeight w junk fuel c b.calls ns)

  -- A send on a found connection that first gets the request `req` of the queue.
  send_kept-total :
      (b : BinClientA) (sock : ℕ) (c : Connection) (r : Sent) (d : Dial)
      → find sock b.connections ≡ some c
      → total w (send_handled b sock d (perform_send c r)) ≡ total w b
  send_kept-total b sock c r d h =
      omega (arith, send_handled-total w b sock c d (perform_send c r) h, perform_send-weight w c r)

  send_added-total :
      (b : BinClientA) (sock : ℕ) (c : Connection) (r : Sent) (d : Dial) (req : Request)
      → find sock b.connections ≡ some c
      → total w (send_handled b sock d (perform_send (add_request c req) r))
        ≡ total w b + w req.callback
  send_added-total b sock c r d req h = omega (
    arith,
    send_handled-total w b sock c d (perform_send (add_request c req) r) h,
    perform_send-weight w (add_request c req) r,
    add_request-weight c req,
  )

  write_idle-total :
      (b : BinClientA) (sock : ℕ) (c : Connection) (r : Sent) (d : Dial) (reqs : List Request)
      → find sock b.connections ≡ some c
      → b.new_requests ≡ reqs
      → total w (write_idle b sock c r d reqs) ≡ total w b
  unfolding write_idle
  write_idle-total b sock c r d [] h e = refl
  write_idle-total b sock c r d (req ∷ reqs) h e = omega (
    arith,
    ap (sum_of (request_weight w)) e,
    send_added-total (record b { new_requests = reqs }) sock c r d req h,
  )

  on_write-total :
      (b : BinClientA) (sock : ℕ) (r : Sent) (d : Dial) → total w (on_write b sock r d) ≡ total w b
  unfolding on_write write_found
  on_write-total b sock r d = go (find sock b.connections) refl
    where
      go :
          (o : Option Connection)
          → find sock b.connections ≡ o
          → total w (write_found b sock r d o) ≡ total w b
      go none h = refl
      go (some c) h =
          if_both (λ x. total w x ≡ total w b) (length c.send_buffer == 0) _ _
            (λ e.
              if_both (λ x. total w x ≡ total w b) (is_active c.state) _ _
                (λ a. write_idle-total b sock c r d b.new_requests h refl)
                (λ a.
                  send_kept-total (record b { free_connections = put_free sock b.free_connections })
                    sock c r d h))
            (λ e. send_kept-total b sock c r d h)

  on_error-total : (b : BinClientA) (sock : ℕ) (d : Dial) → total w (on_error b sock d) ≡ total w b
  unfolding on_error error_found
  on_error-total b sock d = go (find sock b.connections) refl
    where
      go :
          (o : Option Connection)
          → find sock b.connections ≡ o
          → total w (error_found b sock d o) ≡ total w b
      go none h = refl
      go (some c) h = omega (arith, on_lost-total w b sock c c d h)

  put_sent-HasTotal :
      (b : BinClientA) (n sock : ℕ) (c : Connection) (o : SendOutcome)
      → find sock b.connections ≡ some c
      → total w b + sent_weight w (sent_of o) ≡ n + sent_weight w c
      → HasTotal w n (put_sent b sock o)
  unfolding put_sent
  put_sent-HasTotal b n sock c (sent_on e) h k =
      omega (arith, k, set-weight w sock c e b.connections h)
  put_sent-HasTotal b n sock c (send_lost e) h k = tt
  put_sent-HasTotal b n sock c (send_out_of_range e) h k =
      omega (arith, k, set-weight w sock c e b.connections h)

  put_loop-HasTotal :
      (b : BinClientA) (req : Request) (reqs : List Request) (r : Sent) (socks : List ℕ)
      → b.new_requests ≡ req ∷ reqs
      → HasTotal w (total w b) (put_loop b req reqs r socks)
  unfolding put_loop put_found
  put_loop-HasTotal b req reqs r [] e = refl
  put_loop-HasTotal b req reqs r (sock ∷ socks) e =
      go (put_loop b req reqs r socks) (put_loop-HasTotal b req reqs r socks e)
        (find sock b.connections) refl
    where
      go :
          (next : Handled)
          → HasTotal w (total w b) next
          → (o : Option Connection) → find sock b.connections ≡ o
          → HasTotal w (total w b) (put_found b req reqs r sock next o)
      go next k none h = k
      go next k (some c) h =
          if_both (HasTotal w (total w b)) (is_active c.state) _ next
            (λ a.
              put_sent-HasTotal (record b { new_requests = reqs }) (total w b) sock c
                (perform_send (add_request c req) r) h
                (omega (
                  arith,
                  ap (sum_of (request_weight w)) e,
                  perform_send-weight w (add_request c req) r,
                  add_request-weight c req,
                )))
            (λ a. k)

  put_requests-HasTotal :
      (b : BinClientA) (r : Sent) → HasTotal w (total w b) (put_requests_to_free_connections b r)
  unfolding put_requests_to_free_connections put_first
  put_requests-HasTotal b r = go b.new_requests refl
    where
      go :
          (reqs : List Request)
          → b.new_requests ≡ reqs
          → HasTotal w (total w b) (put_first b r reqs)
      go [] e = refl
      go (req ∷ reqs) e = put_loop-HasTotal b req reqs r b.free_connections e

  keep_alive_loop-weight :
      (now : ℕ) (r : ℕ → Sent) (cs : List (ℕ × Connection))
      → sum_of (slot_weight w) (keep_alive_loop now r cs).0 ≡ sum_of (slot_weight w) cs
  unfolding keep_alive_loop keep_alive_next
  keep_alive_loop-weight now r [] = refl
  keep_alive_loop-weight now r ((sock, c) ∷ cs) =
      go (check_keep_alive c now (r sock))
        (ap (sum_of (request_weight w)) (check_keep_alive-requests c now (r sock)))
        (keep_alive_loop now r cs) (keep_alive_loop-weight now r cs)
    where
      go :
          (o : SendOutcome)
          → sent_weight w (sent_of o) ≡ sent_weight w c
          → (rest : List (ℕ × Connection) × Bool)
          → sum_of (slot_weight w) rest.0 ≡ sum_of (slot_weight w) cs
          → sum_of (slot_weight w) (keep_alive_next sock o cs rest).0
            ≡ sent_weight w c + sum_of (slot_weight w) cs
      go (sent_on e) h rest k = omega (arith, h, k)
      go (send_lost e) h rest k = omega (arith, h)
      go (send_out_of_range e) h rest k = omega (arith, h)

  io-HasTotal : (b : BinClientA) (e : Io) → HasTotal w (total w b) (io junk b e)
  unfolding io
  io-HasTotal b (reads sock fuel ns d) = on_read-HasTotal b sock fuel ns d
  io-HasTotal b (writes sock r d) = on_write-total b sock r d
  io-HasTotal b (fails sock d) = on_error-total b sock d

  then_io-HasTotal :
      (es : List Io) (h : Handled) (n : ℕ) → HasTotal w n h → HasTotal w n (then_io junk h es)
  unfolding then_io
  then_io-HasTotal [] h n k = k
  then_io-HasTotal (e ∷ es) (handled b) n k =
      then_io-HasTotal es (io junk b e) n
        (subst (λ m. HasTotal w m (io junk b e)) k (io-HasTotal b e))
  then_io-HasTotal (e ∷ es) undefined n k = tt
  then_io-HasTotal (e ∷ es) endless n k = tt

  after_put-HasTotal :
      (t : Turn) (h : Handled) (n : ℕ) → HasTotal w n h → HasTotal w n (after_put junk t h)
  unfolding after_put check_all_keep_alive
  after_put-HasTotal t undefined n k = tt
  after_put-HasTotal t endless n k = tt
  after_put-HasTotal t (handled b) n k =
      let kept = keep_alive_loop t.now t.keep b.connections in
      let c : BinClientA = record b { connections = kept.0 } in
      let same : total w c ≡ n =
        omega (arith, k, keep_alive_loop-weight t.now t.keep b.connections) in
      if_both (HasTotal w n) kept.1 (handled c) _ (λ e. same)
        (λ e. then_io-HasTotal t.events (handled c) n same)

  -- `handleEvents` keeps the requests, whatever the calls of the system return, wherever it does not end in
  -- undefined behaviour or in an endless loop.
  pub handle_events-HasTotal :
      (b : BinClientA) (t : Turn) → HasTotal w (total w b) (handle_events junk b t)
  unfolding handle_events handle_connected
  handle_events-HasTotal b t =
      if_both (λ x. HasTotal w (total w b) (handle_connected junk t x))
        (ltb (length b.connections) b.max_connections) (establish_new_connection b t.dial)
        (b, false) (λ e. go (establish_new_connection b t.dial) (establish-total w b t.dial))
        (λ e. go (b, false) refl)
    where
      go :
          (x : BinClientA × Bool)
          → total w x.0 ≡ total w b
          → HasTotal w (total w b) (handle_connected junk t x)
      go (c, true) k = k
      go (c, false) k =
          after_put-HasTotal t (put_requests_to_free_connections c t.put) (total w b) (
            subst (λ m. HasTotal w m (put_requests_to_free_connections c t.put)) k
              (put_requests-HasTotal c t.put))
