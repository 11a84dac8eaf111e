-- ===== src/HttpServer/Pacing.antt =====
-- The pace of the connections, at one event of the server.
use hiaux.Base.{
  ℕ, ◌≤◌, ◌≡◌, refl, ap, List, [], ◌∷◌, ◌++◌, Bool, true, false, Bytes, get_elem?, ==_refl, Option,
  none, some, arith, if_both, sum_of-append,
}
use hiaux.Http.{Connection, Callback, Sent, not_dead}
use hiaux.Http.Output.{perform_send}
use hiaux.HttpServer.{
  Object, HttpServer, find_sock, Served, served, threw, undefined, out_of_fuel, Fate, fine,
  parser_threw, send_customs, send_https, handler_threw, set_conn, kill_connection,
}
use hiaux.HttpServer.Waiting.{perform_send-waiting, callbacks-waiting}
use hiaux.HttpServer.Loop.{
  handle_waiting_requests, broken_read, after_recv, after_send, send_object, send_sock, on_write,
}
use hiaux.HttpServer.Responses.{erase_found, responded, handle_response}
use hiaux.HttpServer.Handling.{
  Same-IsPaced, send_customs-Same, send_https-Same, flag, is_at, wait_of, IsPaced, update-IsPaced,
  set_conn-IsPaced, set_conn-object, handle_waiting_requests-IsPaced,
}

module _ {Http Custom : Type 0} where
  abbrev pub IsServed : Served Http Custom → Type 0
  IsServed (served s) = IsPaced s
  IsServed (threw s) = IsPaced s
  IsServed undefined = Unit
  IsServed out_of_fuel = Unit

  -- What is set and then looked at for the next request.
  pub next-IsPaced :
      (s : HttpServer Http Custom) (o : ℕ) (x : Object Http Custom) (c : Connection Http Custom)
      → IsPaced s
      → get_elem? s.objects o ≡ some x
      → c.waiting_last_handling ≡ x.conn.waiting_last_handling
      → IsPaced (handle_waiting_requests (set_conn s o x c) o x c)
  next-IsPaced s o x c i e k =
      handle_waiting_requests-IsPaced (set_conn s o x c) o x (record x { conn = c }) c
        (set_conn-IsPaced s o x c i e k) (set_conn-object s o x c e) refl

  pub kill-IsPaced :
      (s : HttpServer Http Custom) (sock : ℕ) → IsPaced s → IsPaced (kill_connection s sock)
  unfolding kill_connection
  kill-IsPaced s sock i = i

  pub broken_read-waiting :
      (unescape : Bytes → Bytes) (c : Connection Http Custom) (now : ℕ) (parser : Http)
      (ks : List Callback) (p : Option Custom) (qs : List Bytes)
      → (broken_read unescape c now parser ks p qs).waiting_last_handling ≡ c.waiting_last_handling
  unfolding broken_read
  broken_read-waiting unescape c now parser ks p qs =
      if_both (λ (d : Connection Http Custom). d.waiting_last_handling ≡ c.waiting_last_handling)
        c.custom_protocol _ _ (λ e. refl)
        (λ e. callbacks-waiting unescape ks (record c { last_activity_ts = now; parser = parser }))

  pub after_recv-IsPaced :
      (unescape : Bytes → Bytes) (s : HttpServer Http Custom) (sock o : ℕ) (x : Object Http Custom)
      (c : Connection Http Custom) (now : ℕ) (fate : Fate Http Custom)
      → IsPaced s
      → get_elem? s.objects o ≡ some x
      → c.waiting_last_handling ≡ x.conn.waiting_last_handling
      → IsPaced (after_recv unescape s sock o x c now fate)
  unfolding after_recv kill_connection
  after_recv-IsPaced unescape s sock o x c now (parser_threw parser ks p qs) i e k =
      set_conn-IsPaced s o x (broken_read unescape x.conn now parser ks p qs) i e
        (broken_read-waiting unescape x.conn now parser ks p qs)
  after_recv-IsPaced unescape s sock o x c now fine i e k =
      if_both IsPaced (not_dead c now) _ _ (λ a. next-IsPaced s o x c i e k)
        (λ a. set_conn-IsPaced s o x c i e k)
  after_recv-IsPaced unescape s sock o x c now (handler_threw resps customs) i e k =
      let t = handle_waiting_requests (set_conn s o x c) o x c in
      if_both IsPaced (not_dead c now)
        (kill_connection (send_customs (send_https t resps) customs) sock) _
        (λ a.
          Same-IsPaced (send_https t resps) (send_customs (send_https t resps) customs)
            (send_customs-Same customs (send_https t resps))
            (Same-IsPaced t (send_https t resps) (send_https-Same resps t)
              (next-IsPaced s o x c i e k)))
        (λ a. set_conn-IsPaced s o x c i e k)

  pub on_write-IsPaced :
      (s : HttpServer Http Custom) (sock : ℕ) (r : Sent) (now : ℕ)
      → IsPaced s
      → IsPaced (on_write s sock r now)
  unfolding on_write send_sock send_object after_send kill_connection
  on_write-IsPaced s sock r now i = go (find_sock sock s.reading_connections)
    where
      go_after :
          (o : ℕ) (x : Object Http Custom)
          → get_elem? s.objects o ≡ some x
          → (r : Connection Http Custom × Bool)
          → r.0.waiting_last_handling ≡ x.conn.waiting_last_handling
          → IsPaced (after_send s sock o x now r)
      go_after o x e (c, true) k = set_conn-IsPaced s o x c i e k
      go_after o x e (c, false) k =
          if_both IsPaced (not_dead c now) (set_conn s o x c)
            (kill_connection (set_conn s o x c) sock) (λ a. set_conn-IsPaced s o x c i e k)
            (λ a. set_conn-IsPaced s o x c i e k)

      go_object :
          (o : ℕ) (m : Option (Object Http Custom))
          → get_elem? s.objects o ≡ m
          → IsPaced (send_object s sock o r now m)
      go_object o none e = i
      go_object o (some x) e =
          go_after o x e (perform_send x.conn r now) (perform_send-waiting x.conn r now)

      go : (m : Option ℕ) → IsPaced (send_sock s sock r now m)
      go none = i
      go (some o) = go_object o (get_elem? s.objects o) refl

  -- The response is counted, and the flag reset.
  pub answered-IsPaced :
      (s : HttpServer Http Custom) (o : ℕ) (x : Object Http Custom) (c : Connection Http Custom)
      → IsPaced s
      → get_elem? s.objects o ≡ some x
      → c.waiting_last_handling ≡ false
      → IsPaced (set_conn (record s { answered = s.answered ++ o ∷ [] }) o x c)
  unfolding set_conn
  answered-IsPaced s o x c i e k =
      update-IsPaced s (set_conn (record s { answered = s.answered ++ o ∷ [] }) o x c) o x
        (record x { conn = c }) i e refl (λ p d. omega arith)
        (λ p. omega (arith, sum_of-append (is_at p) s.answered (o ∷ [])))
        (omega (
          arith,
          i o,
          ap wait_of e,
          ap flag k,
          one x.conn.waiting_last_handling,
          ap flag (==_refl o),
          sum_of-append (is_at o) s.answered (o ∷ []),
        ))
    where
      one : (b : Bool) → flag b ≤ 1
      one true = omega arith
      one false = omega arith

  pub handle_response-IsServed :
      (s : HttpServer Http Custom) (o : ℕ) (x : Object Http Custom) (c : Connection Http Custom)
      (r : Sent) (now : ℕ)
      → IsPaced s
      → get_elem? s.objects o ≡ some x
      → IsServed (handle_response s o x c r now)
  unfolding handle_response responded erase_found kill_connection
  handle_response-IsServed s o x c r now i e =
      go (perform_send (record c { waiting_last_handling = false }) r now)
        (perform_send-waiting (record c { waiting_last_handling = false }) r now)
    where
      t : HttpServer Http Custom
      t = record s { answered = s.answered ++ o ∷ [] }

      next :
          (d : Connection Http Custom)
          → d.waiting_last_handling ≡ false
          → IsPaced (handle_waiting_requests (set_conn t o x d) o x d)
      next d k =
          handle_waiting_requests-IsPaced (set_conn t o x d) o x (record x { conn = d }) d
            (answered-IsPaced s o x d i e k) (set_conn-object t o x d e) refl

      erased :
          (d : Connection Http Custom)
          → d.waiting_last_handling ≡ false
          → (m : Option ℕ) → IsServed (erase_found (set_conn t o x d) x.sock m)
      erased d k none = tt
      erased d k (some p) = answered-IsPaced s o x d i e k

      go :
          (r : Connection Http Custom × Bool)
          → r.0.waiting_last_handling ≡ false
          → IsServed (responded t o x now r)
      go (d, true) k = next d k
      go (d, false) k =
          if_both IsServed (not_dead d now)
            (served (handle_waiting_requests (set_conn t o x d) o x d)) _ (λ a. next d k)
            (λ a. erased d k (find_sock x.sock t.reading_connections))
