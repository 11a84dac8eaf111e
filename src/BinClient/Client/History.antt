-- ===== src/BinClient/Client/History.antt =====
-- The life of the pool: it is constructed, asked for calls, and handles events, in any order.
use mathlib.Core.Path.{subst}
use hiaux.Base.{
  ℕ, zero, suc, ◌+◌, ◌≡◌, refl, ◌∙◌, List, [], ◌∷◌, Bool, true, false, Bytes, ◌==◌, Option, none,
  some, arith, if◌then◌else◌, sum_of, sum_of-append,
}
use hiaux.BinClient.Connection.{Request}
use hiaux.BinClient.Connection.Requests.{request_weight}
use hiaux.BinClient.Client.{
  BinClientA, Dial, Handled, handled, undefined, endless, establish_new_connection,
}
use hiaux.BinClient.Client.Conserved.{total, HasTotal, establish-total}
use hiaux.BinClient.Client.Handlers.{
  call, Turn, handle_events, new_client, reinit_connections, connections_count, checked_client,
  bin_client_a,
}
use hiaux.BinClient.Client.Answered.{handle_events-HasTotal}

pub data Act : Type 0 where
  asks : Request → Act
  handles : Turn → Act

abbrev pub asked : List Act → List Request
asked [] = []
asked (asks req ∷ acts) = req ∷ asked acts
asked (handles t ∷ acts) = asked acts

unfoldable pub live : (Bytes → ℕ) → Handled → List Act → Handled
live junk h [] = h
live junk (handled b) (asks req ∷ acts) = live junk (handled (call b req)) acts
live junk (handled b) (handles t ∷ acts) = live junk (handle_events junk b t) acts
live junk undefined (a ∷ acts) = undefined
live junk endless (a ∷ acts) = endless

module _ (w : ℕ → ℕ) where
  reinit-total :
      (n : ℕ) (dials : ℕ → Dial) (b c : BinClientA)
      → reinit_connections n dials b ≡ some c
      → total w c ≡ total w b
  unfolding reinit_connections
  reinit-total zero dials b c h = ground arith
  reinit-total (suc n) dials b c h =
      go (establish_new_connection b (dials n)).1
        (reinit_connections n dials (establish_new_connection b (dials n)).0) h
        (λ e. reinit-total n dials (establish_new_connection b (dials n)).0 c e)
      ∙ establish-total w b (dials n)
    where
      go :
          (threw : Bool) (rest : Option BinClientA)
          → (if threw then none else rest) ≡ some c
          → (rest ≡ some c → total w c ≡ total w (establish_new_connection b (dials n)).0)
          → total w c ≡ total w (establish_new_connection b (dials n)).0
      go true rest h k = ground arith
      go false rest h k = k h

  total_of : Option BinClientA → ℕ
  total_of none = 0
  total_of (some b) = total w b

  bin_client_a-total :
      (n : ℕ) (dials : ℕ → Dial) (b : BinClientA) → bin_client_a n dials ≡ some b → total w b ≡ 0
  unfolding total_of bin_client_a checked_client new_client
  bin_client_a-total n dials b h = go (reinit_connections n dials (new_client n)) refl h
    where
      if_some :
          (c : BinClientA)
          → reinit_connections n dials (new_client n) ≡ some c
          → (none_left : Bool) → (if none_left then none else some c) ≡ some b
          → total w b ≡ 0
      if_some c e true h = ground arith
      if_some c e false h = subst (λ o. total_of o ≡ 0) h (reinit-total n dials (new_client n) c e)

      go :
          (o : Option BinClientA)
          → reinit_connections n dials (new_client n) ≡ o
          → checked_client o ≡ some b
          → total w b ≡ 0
      go none e h = ground arith
      go (some c) e h = if_some c e (connections_count c == 0) h

  live-HasTotal :
      (junk : Bytes → ℕ) (acts : List Act) (h : Handled) (n : ℕ)
      → HasTotal w n h
      → HasTotal w (n + sum_of (request_weight w) (asked acts)) (live junk h acts)
  unfolding live call
  live-HasTotal junk [] h n k = subst (λ m. HasTotal w m h) (omega arith) k
  live-HasTotal junk (a ∷ acts) undefined n k = tt
  live-HasTotal junk (a ∷ acts) endless n k = tt
  live-HasTotal junk (asks req ∷ acts) (handled b) n k =
      subst (λ m. HasTotal w m (live junk (handled (call b req)) acts)) (omega arith)
        (live-HasTotal junk acts (handled (call b req)) (n + w req.callback)
          (omega (arith, k, sum_of-append (request_weight w) b.new_requests (req ∷ []))))
  live-HasTotal junk (handles t ∷ acts) (handled b) n k =
      live-HasTotal junk acts (handle_events junk b t) n
        (subst (λ m. HasTotal w m (handle_events junk b t)) k (handle_events-HasTotal w junk b t))

  -- After a pool of connections was constructed, calls were asked for and events were handled, in any
  -- order and with any results of the calls of the system: unless the history ended in undefined
  -- behaviour or in the endless loop of a `performRecv`, each weight of the callbacks sums to the same over the
  -- calls asked for as over the requests that wait for a connection, the requests that connections wait to see
  -- answered, and the callbacks called. So every callback is called at most once, and only for a request.
  pub live-answered :
      (junk : Bytes → ℕ) (max_connections : ℕ) (dials : ℕ → Dial) (b : BinClientA)
      → bin_client_a max_connections dials ≡ some b
      → (acts : List Act)
      → HasTotal w (sum_of (request_weight w) (asked acts)) (live junk (handled b) acts)
  live-answered junk max_connections dials b h acts =
      subst (λ m. HasTotal w m (live junk (handled b) acts)) (omega arith)
        (live-HasTotal junk acts (handled b) 0 (bin_client_a-total max_connections dials b h))
