-- ===== src/HttpServer/Spending.antt =====
-- The work that is left behind a round of `handleEvents`.
use mathlib.Core.Path.{subst}
use hiaux.Base.{
  ℕ, zero, suc, ◌≤◌, ◌≡◌, refl, ◌+◌, ◌==◌, take, if◌then◌else◌, ◌∙◌, ap, List, [], ◌∷◌, ◌++◌, Bool,
  true, false, Bytes, length, get_elem?, Option, none, some, arith, if_both, Bool-cases, inl, inr,
}
use hiaux.Http.{Connection, Sent, not_dead}
use hiaux.Http.Output.{perform_send}
use hiaux.HttpServer.{
  Object, HttpServer, find_sock, Served, served, threw, undefined, out_of_fuel, HandlerEnd,
  returned, handler_throws, sends_http, Round, send_customs, set_conn, kill_connection,
}
use hiaux.HttpServer.Handling.{set_conn-object}
use hiaux.HttpServer.Loop.{handle_waiting_requests}
use hiaux.HttpServer.Responses.{
  erase_found, responded, handle_response, handler_end, handler_did, keep_custom, at_most,
}
use hiaux.HttpServer.Fuel.{
  Keeps, perform_send-requests, work, Works, allowed-same, set_conn-work, send_customs-work,
  handle_waiting_requests-work,
}

length-take_le : {A : Type 0} (n : ℕ) (xs : List A) → length (take n xs) ≤ n
length-take_le n [] = ground arith
length-take_le zero (x ∷ xs) = omega arith
length-take_le (suc n) (x ∷ xs) = omega (arith, length-take_le n xs)

module _ {Http Custom : Type 0} where
  abbrev pub HasEnded : Served Http Custom → Type 0
  HasEnded (served s) = Unit
  HasEnded (threw s) = Unit
  HasEnded undefined = Unit
  HasEnded out_of_fuel = ⊥

  -- The work left behind the handling of one response.
  abbrev pub Handled : ℕ → HttpServer Http Custom → Served Http Custom → Type 0
  Handled limit s (served t) = Works limit s t
  Handled limit s (threw t) = Unit
  Handled limit s undefined = Unit
  Handled limit s out_of_fuel = ⊥

  -- At most this work is left, and the fuel was enough.
  abbrev pub Leaves : ℕ → ℕ → Served Http Custom → Type 0
  Leaves limit n (served s) = work limit s ≤ n
  Leaves limit n (threw s) = Unit
  Leaves limit n undefined = Unit
  Leaves limit n out_of_fuel = ⊥

  pub handle_response-Handled :
      (limit : ℕ) (s : HttpServer Http Custom) (o : ℕ) (x : Object Http Custom)
      (c : Connection Http Custom) (r : Sent) (now : ℕ)
      → get_elem? s.objects o ≡ some x
      → Keeps x.conn c
      → Handled limit s (handle_response s o x c r now)
  unfolding handle_response responded erase_found kill_connection set_conn
  handle_response-Handled limit s o x c r now e k =
      let sent = perform_send-requests (record c { waiting_last_handling = false }) r now in
      go (perform_send (record c { waiting_last_handling = false }) r now)
        (sent.0 ∙ k.0, sent.1 ∙ k.1)
    where
      t : HttpServer Http Custom
      t = record s { answered = s.answered ++ o ∷ [] }

      set :
          (d : Connection Http Custom)
          → Keeps x.conn d
          → work limit (set_conn t o x d) ≤ work limit s
      set d k = omega (
        arith,
        ap (λ q. at_most limit (length q)) k.0,
        ap (λ q. at_most limit (length q)) k.1,
        set_conn-work limit t o x x d e,
      )

      next :
          (d : Connection Http Custom)
          → Keeps x.conn d
          → Works limit s (handle_waiting_requests (set_conn t o x d) o x d)
      next d k = omega (
        arith,
        set d k,
        handle_waiting_requests-work limit (set_conn t o x d) o x (record x { conn = d }) d
            (set_conn-object t o x d e) (refl, refl),
      )

      erased :
          (d : Connection Http Custom)
          → Keeps x.conn d
          → (m : Option ℕ) → Handled limit s (erase_found (set_conn t o x d) x.sock m)
      erased d k none = tt
      erased d k (some p) = omega (arith, set d k, allowed-same limit s (set_conn t o x d) refl)

      go :
          (r : Connection Http Custom × Bool)
          → Keeps x.conn r.0
          → Handled limit s (responded t o x now r)
      go (d, true) k = next d k
      go (d, false) k =
          if_both (Handled limit s) (not_dead d now)
            (served (handle_waiting_requests (set_conn t o x d) o x d)) _ (λ a. next d k)
            (λ a. erased d k (find_sock x.sock t.reading_connections))

  -- A handler adds no more than it is allowed.
  pub handler_did-Leaves :
      (limit : ℕ) (s : HttpServer Http Custom) (r : Round) (t : Served Http Custom)
      → Handled limit s t
      → Leaves limit (work limit s) (handler_did limit (length s.handed) r t)
  unfolding handler_did handler_end
  handler_did-Leaves limit s r (served t) h =
      elim (Bool-cases (length s.handed == length t.handed)) [
        | inl e ↦ rw e (omega arith)
        | inr e ↦ rw e (go (full e) r.end)
      ]
    where
      full : length s.handed == length t.handed ≡ false → work limit t + limit ≤ work limit s
      full e = subst (λ b. work limit t + (if b then 0 else limit) ≤ work limit s) e h

      go :
          work limit t + limit ≤ work limit s
          → (e : HandlerEnd)
          → Leaves limit (work limit s) (handler_end (send_customs t (take limit r.sends_custom)) e)
      go l returned = omega (
        arith,
        send_customs-work limit (take limit r.sends_custom) t,
        length-take_le limit r.sends_custom,
      )
      go l handler_throws = tt
      go l sends_http = tt
  handler_did-Leaves limit s r (threw t) h = tt
  handler_did-Leaves limit s r undefined h = tt
  handler_did-Leaves limit s r out_of_fuel h = h

  pub keep_custom-Leaves :
      (limit n : ℕ) (x : ℕ × Bytes) (t : Served Http Custom)
      → Leaves limit n t
      → Leaves limit n (keep_custom x t)
  unfolding keep_custom
  keep_custom-Leaves limit n x (served s) h = h
  keep_custom-Leaves limit n x (threw s) h = tt
  keep_custom-Leaves limit n x undefined h = tt
  keep_custom-Leaves limit n x out_of_fuel h = h

  pub Leaves-mono :
      (limit m n : ℕ) (t : Served Http Custom) → m ≤ n → Leaves limit m t → Leaves limit n t
  Leaves-mono limit m n (served u) k l = omega (arith, l, k)
  Leaves-mono limit m n (threw u) k l = tt
  Leaves-mono limit m n undefined k l = tt
  Leaves-mono limit m n out_of_fuel k l = l
