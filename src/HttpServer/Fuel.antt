-- ===== src/HttpServer/Fuel.antt =====
-- The fuel of the loop over the responses of the custom protocols: an upgrade that pushes a response
-- takes a request.
use hiaux.Base.{
  ℕ, ◌+◌, ◌≤◌, ◌≡◌, refl, ap, List, [], ◌∷◌, Bool, true, false, not, Bytes, length, ltb, get_elem?,
  ◌==◌, ◌&&◌, ==_iff, if◌then◌else◌, sym, ◌∙◌, suc, ◌++◌, Option, none, some, arith, if_both,
  sum_of, length-append, codes,
}
use hiaux.Base.Dict.{lookup}
use hiaux.Threads.Pool.Conserved.{sum_of-set_elem}
use hiaux.Http.{Request, Connection, Sent, wrote, nothing}
use hiaux.Http.Input.{check_upgrade, upgrade_header, upgrade_to}
use hiaux.Http.Output.{send_result, next_response, perform_send}
use hiaux.HttpServer.{
  http, CustomProtocolInfo, Object, HttpServer, find_sock, set_conn, get_custom_parser,
  send_custom_found, on_send_custom_response, send_handshakes, send_customs,
}
use hiaux.HttpServer.Loop.{
  hand, run_found, run_custom_handler, upgraded, take_custom, take_http, handle_waiting_requests,
}
use hiaux.HttpServer.Responses.{at_most}
use hiaux.HttpServer.Handling.{flag, send_handshakes-Same}

module _ {Http Custom : Type 0} where
  abbrev pub Keeps : Connection Http Custom → Connection Http Custom → Type 0
  Keeps c d = (d.http_requests ≡ c.http_requests) × (d.custom_requests ≡ c.custom_requests)

  pub send_result-Keeps :
      (c : Connection Http Custom) (r : Sent) (now : ℕ) → Keeps c (send_result c r now).0
  unfolding send_result
  send_result-Keeps c (nothing again) now = (refl, refl)
  send_result-Keeps c (wrote n) now =
      if_both (λ (x : Connection Http Custom × Bool). Keeps c x.0) (ltb n (length c.send_buffer)) _
        _ (λ e. (refl, refl)) (λ e. (refl, refl))

  pub perform_send-requests :
      (c : Connection Http Custom) (r : Sent) (now : ℕ) → Keeps c (perform_send c r now).0
  unfolding perform_send next_response
  perform_send-requests c r now =
      if_both (λ (x : Connection Http Custom × Bool). Keeps c x.0) (length c.send_buffer == 0) _
        (send_result c r now)
        (λ e.
          if_both (λ (x : Connection Http Custom × Bool). Keeps c x.0)
            (c.ever_sent && not c.keepalive) (record c { alive = false }, false) _
            (λ d. (refl, refl)) (λ d. go c.resps))
        (λ e. send_result-Keeps c r now)
    where
      go : (resps : List Bytes) → Keeps c (next_response c resps r now).0
      go [] = (refl, refl)
      go (resp ∷ resps) = send_result-Keeps (record c { send_buffer = resp; resps = resps }) r now

  -- The responses that the waiting requests of an object may become.
  abbrev pub pending : ℕ → Object Http Custom → ℕ
  pending limit x =
      at_most limit (length x.conn.http_requests) + at_most limit (length x.conn.custom_requests)

  abbrev pub pending_of : ℕ → Connection Http Custom → ℕ
  pending_of limit c =
      at_most limit (length c.http_requests) + at_most limit (length c.custom_requests)

  -- The responses of custom protocols, and those that the requests may become.
  abbrev pub work : ℕ → HttpServer Http Custom → ℕ
  work limit s = length s.custom_resp_queue + sum_of (pending limit) s.objects

  -- What a handler may send, if one was called.
  abbrev pub allowed : ℕ → HttpServer Http Custom → HttpServer Http Custom → ℕ
  allowed limit s t = if length s.handed == length t.handed then 0 else limit

  pub set_conn-work :
      (limit : ℕ) (s : HttpServer Http Custom) (o : ℕ) (x y : Object Http Custom)
      (c : Connection Http Custom)
      → get_elem? s.objects o ≡ some y
      → work limit (set_conn s o x c) + pending limit y ≡ work limit s + pending_of limit c
  unfolding set_conn
  set_conn-work limit s o x y c e =
      omega (arith, sum_of-set_elem (pending limit) s.objects o y (record x { conn = c }) e)

  pub on_send_custom_response-work :
      (limit : ℕ) (s : HttpServer Http Custom) (sock : ℕ) (h : Bytes)
      → work limit (on_send_custom_response s sock h) ≤ work limit s + 1
  unfolding on_send_custom_response send_custom_found
  on_send_custom_response-work limit s sock h = go (find_sock sock s.reading_connections)
    where
      go : (m : Option ℕ) → work limit (send_custom_found s h m) ≤ work limit s + 1
      go none = omega arith
      go (some o) = omega (arith, length-append s.custom_resp_queue ((o, h) ∷ []))

  pub send_handshakes-work :
      (limit : ℕ) (hs : List Bytes) (s : HttpServer Http Custom) (sock : ℕ)
      → work limit (send_handshakes s sock hs) ≤ work limit s + length hs
  unfolding send_handshakes
  send_handshakes-work limit [] s sock = omega arith
  send_handshakes-work limit (h ∷ hs) s sock = omega (
    arith,
    send_handshakes-work limit hs (on_send_custom_response s sock h) sock,
    on_send_custom_response-work limit s sock h,
  )

  pub send_customs-work :
      (limit : ℕ) (rs : List (ℕ × Bytes)) (s : HttpServer Http Custom)
      → work limit (send_customs s rs) ≤ work limit s + length rs
  unfolding send_customs
  send_customs-work limit [] s = omega arith
  send_customs-work limit ((sock, resp) ∷ rs) s = omega (
    arith,
    send_customs-work limit rs (on_send_custom_response s sock resp),
    on_send_custom_response-work limit s sock resp,
  )

  pub run_custom_handler-work :
      (limit : ℕ) (s : HttpServer Http Custom) (o : ℕ) (protocol q : Bytes)
      → work limit (run_custom_handler s o protocol q) ≡ work limit s
  unfolding run_custom_handler run_found hand
  run_custom_handler-work limit s o protocol q = go (lookup protocol s.custom_protocols)
    where
      go :
          (m : Option (CustomProtocolInfo Custom))
          → work limit (run_found s o protocol q m) ≡ work limit s
      go none = refl
      go (some info) = refl

  allowed-le : (limit : ℕ) (s t : HttpServer Http Custom) → allowed limit s t ≤ limit
  allowed-le limit s t =
      if_both (λ n. n ≤ limit) (length s.handed == length t.handed) 0 limit (λ e. omega arith)
        (λ e. omega arith)

  pub allowed-same :
      (limit : ℕ) (s t : HttpServer Http Custom) → t.handed ≡ s.handed → allowed limit s t ≡ 0
  allowed-same limit s t e =
      if_both (λ n. n ≡ 0) (length s.handed == length t.handed) 0 limit (λ k. refl)
        (λ k.
          absurd
            (ground (arith, (==_iff (length s.handed) (length t.handed)).1 (ap length (sym e)))))

  -- The work left, with what a handler may send that was called.
  abbrev pub Works : ℕ → HttpServer Http Custom → HttpServer Http Custom → Type 0
  Works limit s t = work limit t + allowed limit s t ≤ work limit s

  pub Works-refl : (limit : ℕ) (s : HttpServer Http Custom) → Works limit s s
  Works-refl limit s = omega (arith, allowed-same limit s s refl)

  pub take_custom-work :
      (limit : ℕ) (s : HttpServer Http Custom) (o : ℕ) (x y : Object Http Custom)
      (c : Connection Http Custom) (qs : List Bytes)
      → get_elem? s.objects o ≡ some y
      → Keeps y.conn c
      → c.custom_requests ≡ qs
      → Works limit s (take_custom s o x c qs)
  unfolding take_custom at_most
  take_custom-work limit s o x y c [] e k f = Works-refl limit s
  take_custom-work limit s o x y c (q ∷ qs) e k f =
      let d : Connection Http Custom = record c {
        waiting_last_handling = true;
        custom_requests = qs;
      } in
      omega (
        arith,
        ap (λ r. at_most limit (length r)) k.0,
        ap (λ r. at_most limit (length r)) (sym k.1 ∙ f),
        run_custom_handler-work limit (set_conn s o x d) o c.custom_protocol_id q,
        set_conn-work limit s o x y d e,
        allowed-le limit s (run_custom_handler (set_conn s o x d) o c.custom_protocol_id q),
      )

  -- An upgrade sends one handshake at most.
  abbrev pub IsShort :
      Connection Http Custom → Connection Http Custom × (List Bytes × Bool) → Type 0
  IsShort c r = Keeps c r.0 × (length r.1.0 ≤ flag r.1.1)

  pub check_upgrade-IsShort :
      (make : Bytes → Request → Option Custom × Bytes) (c : Connection Http Custom) (q : Request)
      → IsShort c (check_upgrade make c q)
  unfolding check_upgrade upgrade_header upgrade_to
  check_upgrade-IsShort make c q = go (lookup (codes "Upgrade") q.headers)
    where
      go_to : (protocol : Bytes) (m : Option Custom × Bytes) → IsShort c (upgrade_to c protocol m)
      go_to protocol (none, handshake) = ((refl, refl), omega arith)
      go_to protocol (some p, handshake) = ((refl, refl), omega arith)

      go : (m : Option Bytes) → IsShort c (upgrade_header make c q m)
      go none = ((refl, refl), omega arith)
      go (some protocol) = go_to protocol (make protocol q)

  send_handshakes-handed :
      (hs : List Bytes) (s : HttpServer Http Custom) (sock : ℕ)
      → (send_handshakes s sock hs).handed ≡ s.handed
  send_handshakes-handed hs s sock = (send_handshakes-Same hs s sock).1

  pub upgraded-work :
      (limit : ℕ) (s : HttpServer Http Custom) (o : ℕ) (x : Object Http Custom) (q : Request)
      (r : Connection Http Custom × (List Bytes × Bool))
      → length r.1.0 ≤ flag r.1.1
      → work limit (upgraded s o x q r) + allowed limit s (upgraded s o x q r)
        ≤ work limit (set_conn s o x r.0) + suc limit
  unfolding upgraded hand set_conn
  upgraded-work limit s o x q (c, (hs, true)) h =
      let t : HttpServer Http Custom = send_handshakes (set_conn s o x c) x.sock hs in
      omega (
        arith,
        send_handshakes-work limit hs (set_conn s o x c) x.sock,
        allowed-same limit s t (send_handshakes-handed hs (set_conn s o x c) x.sock),
      )
  upgraded-work limit s o x q (c, (hs, false)) h =
      let t : HttpServer Http Custom = send_handshakes (set_conn s o x c) x.sock hs in
      omega (
        arith,
        send_handshakes-work limit hs (set_conn s o x c) x.sock,
        allowed-le limit s (record t { handed = t.handed ++ http o q ∷ [] }),
      )

  pub handle_waiting_requests-work :
      (limit : ℕ) (s : HttpServer Http Custom) (o : ℕ) (x y : Object Http Custom)
      (c : Connection Http Custom)
      → get_elem? s.objects o ≡ some y
      → Keeps y.conn c
      → Works limit s (handle_waiting_requests s o x c)
  unfolding handle_waiting_requests take_http at_most
  handle_waiting_requests-work limit s o x y c e k =
      if_both (Works limit s) c.waiting_last_handling s _ (λ a. Works-refl limit s)
        (λ a.
          if_both (Works limit s) c.custom_protocol _ _
            (λ b. take_custom-work limit s o x y c c.custom_requests e k refl)
            (λ b. go c.http_requests k.0))
    where
      go : (qs : List Request) → qs ≡ y.conn.http_requests → Works limit s (take_http s o x c qs)
      go [] d = take_custom-work limit s o x y c c.custom_requests e k refl
      go (q ∷ qs) d =
          let c2 : Connection Http Custom = record c {
            waiting_last_handling = true;
            http_requests = qs;
          } in
          let r = check_upgrade (get_custom_parser s) c2 q in
          let short = check_upgrade-IsShort (get_custom_parser s) c2 q in
          omega (
            arith,
            ap (λ r. at_most limit (length r)) d,
            ap (λ r. at_most limit (length r)) k.1,
            upgraded-work limit s o x q r short.1,
            set_conn-work limit s o x y r.0 e,
            ap (λ r. at_most limit (length r)) short.0.0,
            ap (λ r. at_most limit (length r)) short.0.1,
          )
