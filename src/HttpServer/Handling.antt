-- ===== src/HttpServer/Handling.antt =====
-- The calls of handlers for a connection against its responses.
use mathlib.Core.Path.{subst}
use hiaux.Base.{
  ℕ, zero, suc, ◌+◌, ◌≤◌, ◌≡◌, refl, sym, ◌∙◌, ap, ◌⊎◌, List, [], ◌∷◌, Bool, true, false, not,
  Bytes, get_elem?, ◌==◌, ==_refl, ==_iff, Option, none, some, arith, if_both, Bool-cases, inl, inr,
  sum_of, sum_of-append,
}
use hiaux.Base.Dict.{lookup}
use hiaux.Threads.Pool.{set_elem}
use hiaux.Http.{Request, Response, Connection}
use hiaux.HttpServer.{
  CustomProtocolInfo, Hand, http, custom, Object, HttpServer, find_sock, set_conn,
  get_custom_parser, send_custom_found, on_send_custom_response, send_handshakes, send_customs,
  send_https, on_send_response, send_found, send_response,
}
use hiaux.HttpServer.Waiting.{check_upgrade-IsUp}
use hiaux.HttpServer.Loop.{
  hand, run_found, run_custom_handler, upgraded, take_custom, take_http, handle_waiting_requests,
}

abbrev pub flag : Bool → ℕ
flag true = 1
flag false = 0

abbrev pub is_at : ℕ → ℕ → ℕ
is_at o p = flag (o == p)

abbrev pub is_hand_of : ℕ → Hand → ℕ
is_hand_of o (http p q) = is_at o p
is_hand_of o (custom p protocol q) = is_at o p

get_elem?-set_same :
    {A : Type 0} (xs : List A) (o : ℕ) (x y : A)
    → get_elem? xs o ≡ some x
    → get_elem? (set_elem xs o y) o ≡ some y
get_elem?-set_same [] o x y h = ground arith
get_elem?-set_same (z ∷ xs) zero x y h = refl
get_elem?-set_same (z ∷ xs) (suc o) x y h = get_elem?-set_same xs o x y h

get_elem?-set_other :
    {A : Type 0} (xs : List A) (o p : ℕ) (y : A)
    → p == o ≡ false
    → get_elem? (set_elem xs o y) p ≡ get_elem? xs p
get_elem?-set_other [] o p y h = refl
get_elem?-set_other (z ∷ xs) zero zero y h = ground arith
get_elem?-set_other (z ∷ xs) zero (suc p) y h = refl
get_elem?-set_other (z ∷ xs) (suc o) zero y h = refl
get_elem?-set_other (z ∷ xs) (suc o) (suc p) y h =
    get_elem?-set_other xs o p y (differ (Bool-cases (p == o)))
  where
    differ : ((p == o ≡ true) ⊎ (p == o ≡ false)) → p == o ≡ false
    differ (inr e) = e
    differ (inl e) = ground (arith, (==_iff p o).0 e)

module _ {Http Custom : Type 0} where
  abbrev pub wait_of : Option (Object Http Custom) → ℕ
  wait_of none = 0
  wait_of (some x) = flag x.conn.waiting_last_handling

  -- How often a handler was called for the connection `o`, and how often `handleResponse`.
  abbrev pub hands : ℕ → HttpServer Http Custom → ℕ
  hands o s = sum_of (is_hand_of o) s.handed

  abbrev pub answers_of : ℕ → HttpServer Http Custom → ℕ
  answers_of o s = sum_of (is_at o) s.answered

  -- One call more than responses at most, and none while the connection does not wait for one.
  abbrev pub IsPaced : HttpServer Http Custom → Type 0
  IsPaced s = (o : ℕ) → hands o s ≤ answers_of o s + wait_of (get_elem? s.objects o)

  pub update-IsPaced :
      (s t : HttpServer Http Custom) (o : ℕ) (x y : Object Http Custom)
      → IsPaced s
      → get_elem? s.objects o ≡ some x
      → t.objects ≡ set_elem s.objects o y
      → ((p : ℕ) → p == o ≡ false → hands p t ≤ hands p s)
      → ((p : ℕ) → answers_of p s ≤ answers_of p t)
      → hands o t ≤ answers_of o t + flag y.conn.waiting_last_handling
      → IsPaced t
  update-IsPaced s t o x y h e d hd an l p = elim (Bool-cases (p == o)) [
    | inl k ↦
        subst (λ q. hands q t ≤ answers_of q t + wait_of (get_elem? t.objects q))
          (sym ((==_iff p o).0 k))
          (omega (
            arith,
            l,
            ap wait_of (ap (λ xs. get_elem? xs o) d ∙ get_elem?-set_same s.objects o x y e),
          ))
    | inr k ↦ omega (
      arith,
      h p,
      hd p k,
      an p,
      ap wait_of (ap (λ xs. get_elem? xs p) d ∙ get_elem?-set_other s.objects o p y k),
    )
  ]

  -- The flag stays, and no call is made.
  pub set_conn-IsPaced :
      (s : HttpServer Http Custom) (o : ℕ) (x : Object Http Custom) (c : Connection Http Custom)
      → IsPaced s
      → get_elem? s.objects o ≡ some x
      → c.waiting_last_handling ≡ x.conn.waiting_last_handling
      → IsPaced (set_conn s o x c)
  unfolding set_conn
  set_conn-IsPaced s o x c h e k =
      update-IsPaced s (set_conn s o x c) o x (record x { conn = c }) h e refl (λ p d. omega arith)
        (λ p. omega arith) (omega (arith, h o, ap wait_of e, ap flag k))

  -- The object after it was set.
  pub set_conn-object :
      (s : HttpServer Http Custom) (o : ℕ) (x : Object Http Custom) (c : Connection Http Custom)
      → get_elem? s.objects o ≡ some x
      → get_elem? (set_conn s o x c).objects o ≡ some (record x { conn = c })
  unfolding set_conn
  set_conn-object s o x c e = get_elem?-set_same s.objects o x (record x { conn = c }) e

  -- What a call of a handler adds.
  hands-hand :
      (p : ℕ) (s : HttpServer Http Custom) (h : Hand)
      → hands p (hand s h) ≡ hands p s + is_hand_of p h
  unfolding hand
  hands-hand p s h = omega (arith, sum_of-append (is_hand_of p) s.handed (h ∷ []))

  -- One request of an object without the flag is handed on, and the flag set.
  hand-IsPaced :
      (s t : HttpServer Http Custom) (o : ℕ) (x y : Object Http Custom) (h : Hand)
      → IsPaced s
      → get_elem? s.objects o ≡ some x
      → x.conn.waiting_last_handling ≡ false
      → y.conn.waiting_last_handling ≡ true
      → t.objects ≡ set_elem s.objects o y
      → t.handed ≡ s.handed
      → t.answered ≡ s.answered
      → ((p : ℕ) → is_hand_of p h ≡ is_at p o)
      → IsPaced (hand t h)
  unfolding hand
  hand-IsPaced s t o x y h i e a b d k l m =
      update-IsPaced s (hand t h) o x y i e d
        (λ p c. omega (arith, hands-hand p t h, ap (sum_of (is_hand_of p)) k, m p, ap flag c))
        (λ p. omega (arith, ap (sum_of (is_at p)) l))
        (omega (
          arith,
          i o,
          ap wait_of e,
          ap flag a,
          ap flag b,
          hands-hand o t h,
          ap (sum_of (is_hand_of o)) k,
          ap (sum_of (is_at o)) l,
          m o,
          ap flag (==_refl o),
        ))

  take_custom-IsPaced :
      (s : HttpServer Http Custom) (o : ℕ) (x y : Object Http Custom) (c : Connection Http Custom)
      (qs : List Bytes)
      → IsPaced s
      → get_elem? s.objects o ≡ some y
      → y.conn.waiting_last_handling ≡ false
      → IsPaced (take_custom s o x c qs)
  unfolding take_custom run_custom_handler run_found set_conn
  take_custom-IsPaced s o x y c [] i e a = i
  take_custom-IsPaced s o x y c (q ∷ qs) i e a = go (lookup c.custom_protocol_id s.custom_protocols)
    where
      d : Connection Http Custom
      d = record c { waiting_last_handling = true; custom_requests = qs }

      go :
          (m : Option (CustomProtocolInfo Custom))
          → IsPaced (run_found (set_conn s o x d) o c.custom_protocol_id q m)
      go none =
          update-IsPaced s (set_conn s o x d) o y (record x { conn = d }) i e refl
            (λ p k. omega arith) (λ p. omega arith) (omega (arith, i o, ap wait_of e, ap flag a))
      go (some info) =
          hand-IsPaced s (set_conn s o x d) o y (record x { conn = d })
            (custom o c.custom_protocol_id q) i e a refl refl refl refl (λ p. refl)

  -- What the pushes to the queues leave alone.
  abbrev pub Same : HttpServer Http Custom → HttpServer Http Custom → Type 0
  Same s t = (t.objects ≡ s.objects) × (t.handed ≡ s.handed) × (t.answered ≡ s.answered)

  pub Same-IsPaced : (s t : HttpServer Http Custom) → Same s t → IsPaced s → IsPaced t
  Same-IsPaced s t (e, d, c) h p = omega (
    arith,
    h p,
    ap (λ xs. wait_of (get_elem? xs p)) e,
    ap (sum_of (is_hand_of p)) d,
    ap (sum_of (is_at p)) c,
  )

  pub on_send_custom_response-Same :
      (s : HttpServer Http Custom) (sock : ℕ) (resp : Bytes)
      → Same s (on_send_custom_response s sock resp)
  unfolding on_send_custom_response send_custom_found
  on_send_custom_response-Same s sock resp = go (find_sock sock s.reading_connections)
    where
      go : (m : Option ℕ) → Same s (send_custom_found s resp m)
      go none = (refl, refl, refl)
      go (some o) = (refl, refl, refl)

  pub send_handshakes-Same :
      (hs : List Bytes) (s : HttpServer Http Custom) (sock : ℕ) → Same s (send_handshakes s sock hs)
  unfolding send_handshakes
  send_handshakes-Same [] s sock = (refl, refl, refl)
  send_handshakes-Same (h ∷ hs) s sock =
      let t = on_send_custom_response s sock h in
      let a = on_send_custom_response-Same s sock h in
      let b = send_handshakes-Same hs t sock in (b.0 ∙ a.0, b.1 ∙ a.1, b.2 ∙ a.2)

  pub send_customs-Same :
      (rs : List (ℕ × Bytes)) (s : HttpServer Http Custom) → Same s (send_customs s rs)
  unfolding send_customs
  send_customs-Same [] s = (refl, refl, refl)
  send_customs-Same ((sock, resp) ∷ rs) s =
      let a = on_send_custom_response-Same s sock resp in
      let b = send_customs-Same rs (on_send_custom_response s sock resp) in
      (b.0 ∙ a.0, b.1 ∙ a.1, b.2 ∙ a.2)

  pub on_send_response-Same :
      (s : HttpServer Http Custom) (sock : ℕ) (resp : Response)
      → Same s (on_send_response s sock resp)
  unfolding on_send_response send_found send_response
  on_send_response-Same s sock resp = go (find_sock sock s.reading_connections)
    where
      go : (m : Option ℕ) → Same s (send_found s resp m)
      go none = (refl, refl, refl)
      go (some o) = (refl, refl, refl)

  pub send_https-Same :
      (rs : List (ℕ × Response)) (s : HttpServer Http Custom) → Same s (send_https s rs)
  unfolding send_https
  send_https-Same [] s = (refl, refl, refl)
  send_https-Same ((sock, resp) ∷ rs) s =
      let a = on_send_response-Same s sock resp in
      let b = send_https-Same rs (on_send_response s sock resp) in (b.0 ∙ a.0, b.1 ∙ a.1, b.2 ∙ a.2)

  upgraded-IsPaced :
      (s : HttpServer Http Custom) (o : ℕ) (x y : Object Http Custom) (q : Request)
      (r : Connection Http Custom × (List Bytes × Bool))
      → IsPaced s
      → get_elem? s.objects o ≡ some y
      → y.conn.waiting_last_handling ≡ false
      → r.0.waiting_last_handling ≡ not r.1.1
      → IsPaced (upgraded s o x q r)
  unfolding upgraded set_conn
  upgraded-IsPaced s o x y q (c, (hs, true)) i e a u =
      Same-IsPaced (set_conn s o x c) (send_handshakes (set_conn s o x c) x.sock hs)
        (send_handshakes-Same hs (set_conn s o x c) x.sock)
        (update-IsPaced s (set_conn s o x c) o y (record x { conn = c }) i e refl
          (λ p k. omega arith) (λ p. omega arith) (omega (arith, i o, ap wait_of e, ap flag a)))
  upgraded-IsPaced s o x y q (c, (hs, false)) i e a u =
      let same = send_handshakes-Same hs (set_conn s o x c) x.sock in
      hand-IsPaced s (send_handshakes (set_conn s o x c) x.sock hs) o y (record x { conn = c })
        (http o q) i e a u same.0 same.1 same.2 (λ p. refl)

  pub handle_waiting_requests-IsPaced :
      (s : HttpServer Http Custom) (o : ℕ) (x y : Object Http Custom) (c : Connection Http Custom)
      → IsPaced s
      → get_elem? s.objects o ≡ some y
      → y.conn.waiting_last_handling ≡ c.waiting_last_handling
      → IsPaced (handle_waiting_requests s o x c)
  unfolding handle_waiting_requests take_http
  handle_waiting_requests-IsPaced s o x y c i e k =
      if_both IsPaced c.waiting_last_handling s _ (λ a. i)
        (λ a.
          if_both IsPaced c.custom_protocol _ _
            (λ b. take_custom-IsPaced s o x y c c.custom_requests i e (k ∙ a))
            (λ b. go (k ∙ a) c.http_requests))
    where
      go :
          y.conn.waiting_last_handling ≡ false
          → (qs : List Request) → IsPaced (take_http s o x c qs)
      go a [] = take_custom-IsPaced s o x y c c.custom_requests i e a
      go a (q ∷ qs) = upgraded-IsPaced s o x y q _ i e a (
          check_upgrade-IsUp (get_custom_parser s)
            (record c { waiting_last_handling = true; http_requests = qs }) q refl)
