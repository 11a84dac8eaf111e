-- ===== src/BinClient/Client/Conserved.antt =====
-- The requests of the pool: weights of the callbacks, summed over the places where a request can be
-- and the callbacks called.
use hiaux.Base.{
  ℕ, ◌+◌, ◌≡◌, refl, ap, List, [], ◌∷◌, Option, none, some, arith, sum_of, sum_of-append,
}
use hiaux.BinClient.Connection.{
  Connection, Sent, SendOutcome, sent_on, send_lost, send_out_of_range, perform_send,
  new_connection, close_connection, Receipt, received, recv_lost, threw, unsolicited, out_of_fuel,
}
use hiaux.BinClient.Connection.Requests.{
  sent_of, perform_send-requests, call_weight, request_weight, weight, HasWeight,
  close_connection-weight,
}
use hiaux.BinClient.Client.{
  find, set, erase, insert, BinClientA, Dial, Handled, handled, undefined, endless, establish_made,
  establish_on, establish_new_connection, remove_connection, on_lost_connection, send_handled,
  recv_handled,
}

module _ (w : ℕ → ℕ) where
  abbrev pub sent_weight : Connection → ℕ
  sent_weight c = sum_of (request_weight w) c.sent_requests

  abbrev pub slot_weight : ℕ × Connection → ℕ
  slot_weight (sock, c) = sent_weight c

  -- Over the requests that wait for a connection, those that wait for an answer, and the callbacks called.
  abbrev pub total : BinClientA → ℕ
  total b =
      sum_of (request_weight w) b.new_requests
      + sum_of slot_weight b.connections
      + sum_of (call_weight w) b.calls

  pub set-weight :
      (sock : ℕ) (c d : Connection) (cs : List (ℕ × Connection))
      → find sock cs ≡ some c
      → sum_of slot_weight (set sock d cs) + sent_weight c ≡ sum_of slot_weight cs + sent_weight d
  unfolding find set
  set-weight sock c d [] h = ground arith
  set-weight sock c d ((s, e) ∷ cs) h = ground (arith, set-weight sock c d cs)

  erase-weight :
      (sock : ℕ) (c : Connection) (cs : List (ℕ × Connection))
      → find sock cs ≡ some c
      → sum_of slot_weight (erase sock cs) + sent_weight c ≡ sum_of slot_weight cs
  unfolding find erase
  erase-weight sock c [] h = ground arith
  erase-weight sock c ((s, e) ∷ cs) h = ground (arith, erase-weight sock c cs)

  insert-weight :
      (sock : ℕ) (d : Connection) (cs : List (ℕ × Connection))
      → sent_weight d ≡ 0
      → sum_of slot_weight (insert sock d cs) ≡ sum_of slot_weight cs
  unfolding insert
  insert-weight sock d [] h = omega (arith, h)
  insert-weight sock d ((s, e) ∷ cs) h = ground (arith, insert-weight sock d cs)

  -- What a send has left of a connection weighs what it weighed.
  pub perform_send-weight :
      (c : Connection) (r : Sent) → sent_weight (sent_of (perform_send c r)) ≡ sent_weight c
  perform_send-weight c r = ap (sum_of (request_weight w)) (perform_send-requests c r)

  establish_made-total :
      (b : BinClientA) (sock : ℕ) (o : SendOutcome)
      → sent_weight (sent_of o) ≡ 0
      → total (establish_made b sock o).0 ≡ total b
  unfolding establish_made
  establish_made-total b sock (sent_on c) h = omega (arith, insert-weight sock c b.connections h)
  establish_made-total b sock (send_lost c) h = refl
  establish_made-total b sock (send_out_of_range c) h = refl

  pub establish-total :
      (b : BinClientA) (d : Dial) → total (establish_new_connection b d).0 ≡ total b
  unfolding establish_new_connection establish_on new_connection
  establish-total b d = go d.socket
    where
      go : (o : Option ℕ) → total (establish_on b d o).0 ≡ total b
      go none = refl
      go (some sock) =
          establish_made-total b sock _
            (perform_send-weight (new_connection sock d.now d.size) d.sent)

  -- A lost connection's requests are answered with a failure.
  pub on_lost-total :
      (b : BinClientA) (sock : ℕ) (c e : Connection) (d : Dial)
      → find sock b.connections ≡ some c
      → total (on_lost_connection b sock e d) + sent_weight c ≡ total b + sent_weight e
  unfolding on_lost_connection remove_connection
  on_lost-total b sock c e d h = omega (
    arith,
    establish-total (remove_connection b sock) d,
    erase-weight sock c b.connections h,
    close_connection-weight w e,
    sum_of-append (call_weight w) (establish_new_connection (remove_connection b sock) d).0.calls
        (close_connection e),
  )

  pub send_handled-total :
      (b : BinClientA) (sock : ℕ) (c : Connection) (d : Dial) (o : SendOutcome)
      → find sock b.connections ≡ some c
      → total (send_handled b sock d o) + sent_weight c ≡ total b + sent_weight (sent_of o)
  unfolding send_handled
  send_handled-total b sock c d (sent_on e) h = omega (arith, set-weight sock c e b.connections h)
  send_handled-total b sock c d (send_lost e) h = on_lost-total b sock c e d h
  send_handled-total b sock c d (send_out_of_range e) h =
      omega (arith, set-weight sock c e b.connections h)

  abbrev pub HasTotal : ℕ → Handled → Type 0
  HasTotal n (handled b) = total b ≡ n
  HasTotal n undefined = Unit
  HasTotal n endless = Unit

  pub recv_handled-HasTotal :
      (b : BinClientA) (sock : ℕ) (c : Connection) (d : Dial) (r : Receipt)
      → find sock b.connections ≡ some c
      → HasWeight w (weight w c b.calls) r
      → HasTotal (total b) (recv_handled b sock d r)
  unfolding recv_handled
  recv_handled-HasTotal b sock c d (received e calls) h k =
      omega (arith, k, set-weight sock c e b.connections h)
  recv_handled-HasTotal b sock c d (recv_lost e calls) h k =
      omega (arith, k, on_lost-total (record b { calls = calls }) sock c e d h)
  recv_handled-HasTotal b sock c d (threw x e calls) h k =
      omega (arith, k, on_lost-total (record b { calls = calls }) sock c e d h)
  recv_handled-HasTotal b sock c d (unsolicited e calls) h k = tt
  recv_handled-HasTotal b sock c d out_of_fuel h k = tt
