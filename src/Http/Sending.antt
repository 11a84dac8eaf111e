-- ===== src/Http/Sending.antt =====
-- `performSend` of network/HttpServer/Connection.impl: what goes over the wire.
use hiaux.Base.{
  ℕ, zero, suc, ◌≤◌, ◌≡◌, inl, inr, refl, ap, sym, ◌∙◌, List, [], ◌∷◌, ◌++◌, true, false, not, ◌&&◌,
  Bytes, length, take, drop, concat, ltb, lt→ltb, le→ltb, ◌==◌, if◌then◌else◌, arith, Bool-cases,
  append-nil, append_assoc, take-append-drop,
}
use mathlib.Core.Path.{subst}
use native.Mathlib.Decide.{dec_lt}
use hiaux.Http.{Connection, Response, Sent, wrote, nothing}
use hiaux.Http.Output.{
  render_response, add_response, add_custom_response, send_result, next_response, perform_send,
}

-- What `::send` took of the bytes that it was given.
abbrev pub taken : Bytes → Sent → Bytes
taken s (wrote n) = take n s
taken s (nothing again) = []

abbrev pub IsTaken : Bytes → Sent → Type 0
IsTaken s (wrote n) = n ≤ length s
IsTaken s (nothing again) = Unit {0}

take-covers : (n : ℕ) (s : Bytes) → length s ≤ n → take n s ≡ s
take-covers n [] h = refl
take-covers zero (x ∷ s) h = absurd (omega arith)
take-covers (suc n) (x ∷ s) h = ap (◌∷◌ x) (take-covers n s (omega arith))

taken_none : (r : Sent) → taken [] r ≡ []
taken_none (wrote n) = refl
taken_none (nothing again) = refl

concat-snoc : (rs : List Bytes) (r : Bytes) → concat (rs ++ r ∷ []) ≡ concat rs ++ r
concat-snoc [] r = append-nil r
concat-snoc (q ∷ rs) r = rw (concat-snoc rs r) (sym (append_assoc q (concat rs) r))

-- What the server does with the responses of a connection.
pub data Event : Type 0 where
  responds : Response → ℕ → Event
  responds_custom : Bytes → Event
  sends : Sent → ℕ → Event

-- The connection, what went over the wire and what was to be sent.
pub record Line (Http Custom : Type 0) : Type 0 where
  pub conn : Connection Http Custom
  pub wire : Bytes
  pub added : Bytes

module _ {Http Custom : Type 0} where
  -- The bytes that `::send` is given, if it is called.
  abbrev pub to_send : Connection Http Custom → Bytes
  to_send c = elim c.send_buffer [
    | b ∷ s ↦ b ∷ s
    | [] ↦ if c.ever_sent && not c.keepalive then [] else (elim c.resps [ [] ↦ [] | r ∷ rs ↦ r ])
  ]

  -- All that waits.
  abbrev pub waiting : Connection Http Custom → Bytes
  waiting c = c.send_buffer ++ concat c.resps

  send_result-waiting :
      (c : Connection Http Custom) (r : Sent) (now : ℕ)
      → IsTaken c.send_buffer r
      → taken c.send_buffer r ++ waiting (send_result c r now).0 ≡ waiting c
  unfolding send_result
  send_result-waiting c (nothing again) now h = refl
  send_result-waiting c (wrote n) now h = elim (dec_lt n (length c.send_buffer)) [
    | yes e ↦ rw (lt→ltb n (length c.send_buffer) e) (
        sym (append_assoc (take n c.send_buffer) (drop n c.send_buffer) (concat c.resps))
        ∙ ap (λ t. t ++ concat c.resps) (take-append-drop n c.send_buffer))
    | no e ↦
        rw (le→ltb n (length c.send_buffer) (omega arith))
          (ap (λ t. t ++ concat c.resps) (take-covers n c.send_buffer (omega arith)))
  ]

  -- The connection with what waits.
  abbrev with_waiting : Connection Http Custom → Bytes → List Bytes → Connection Http Custom
  with_waiting c s rs = record c { send_buffer = s; resps = rs }

  perform_send-waiting_of :
      (c : Connection Http Custom) (s : Bytes) (rs : List Bytes) (r : Sent) (now : ℕ)
      → IsTaken (to_send (with_waiting c s rs)) r
      → taken (to_send (with_waiting c s rs)) r
          ++ waiting (perform_send (with_waiting c s rs) r now).0
        ≡ waiting (with_waiting c s rs)
  unfolding perform_send next_response
  perform_send-waiting_of c (b ∷ s) rs r now h =
      let full : length (b ∷ s) == 0 ≡ false = ground arith in
      rw full (send_result-waiting (with_waiting c (b ∷ s) rs) r now h)
  perform_send-waiting_of c [] rs r now h = elim (Bool-cases (c.ever_sent && not c.keepalive)) [
    | inl e ↦ rw (e, taken_none r) refl
    | inr e ↦ rw e (
        fresh rs
          (subst (λ b. IsTaken (if b then [] else (elim rs [ [] ↦ [] | x ∷ xs ↦ x ])) r) e h))
  ]
    where
      fresh :
          (rs : List Bytes)
          → IsTaken (elim rs [ [] ↦ [] | x ∷ xs ↦ x ]) r
          → taken (elim rs [ [] ↦ [] | x ∷ xs ↦ x ]) r
              ++ waiting (next_response (with_waiting c [] rs) rs r now).0
            ≡ concat rs
      fresh [] h = rw (taken_none r) refl
      fresh (x ∷ xs) h = send_result-waiting (with_waiting c x xs) r now h

  -- One call of `performSend`: what the socket takes is the front of what waits.
  perform_send-waiting :
      (c : Connection Http Custom) (r : Sent) (now : ℕ)
      → IsTaken (to_send c) r
      → taken (to_send c) r ++ waiting (perform_send c r now).0 ≡ waiting c
  perform_send-waiting c r now h = perform_send-waiting_of c c.send_buffer c.resps r now h

  abbrev pub play : Line Http Custom → Event → Line Http Custom
  play l (responds q now) = record l {
    conn = add_response l.conn q now;
    added = l.added ++ render_response l.conn q now;
  }
  play l (responds_custom q) = record l {
    conn = add_custom_response l.conn q;
    added = l.added ++ q;
  }
  play l (sends r now) = record l {
    conn = (perform_send l.conn r now).0;
    wire = l.wire ++ taken (to_send l.conn) r;
  }

  abbrev pub play_all : Line Http Custom → List Event → Line Http Custom
  play_all l [] = l
  play_all l (e ∷ es) = play_all (play l e) es

  -- `::send` takes no more than it is given.
  abbrev pub IsPlayed : Line Http Custom → Event → Type 0
  IsPlayed l (responds q now) = Unit {0}
  IsPlayed l (responds_custom q) = Unit {0}
  IsPlayed l (sends r now) = IsTaken (to_send l.conn) r

  abbrev pub ArePlayed : Line Http Custom → List Event → Type 0
  ArePlayed l [] = Unit {0}
  ArePlayed l (e ∷ es) = IsPlayed l e × ArePlayed (play l e) es

  -- Nothing is lost, doubled or reordered.
  abbrev IsWhole : Line Http Custom → Type 0
  IsWhole l = l.wire ++ waiting l.conn ≡ l.added

  push-IsWhole :
      (l : Line Http Custom) (x : Bytes)
      → IsWhole l
      → l.wire ++ (l.conn.send_buffer ++ concat (l.conn.resps ++ x ∷ [])) ≡ l.added ++ x
  push-IsWhole l x h = rw (concat-snoc l.conn.resps x, sym h) (simp append_assoc)

  play-IsWhole : (l : Line Http Custom) (e : Event) → IsPlayed l e → IsWhole l → IsWhole (play l e)
  unfolding add_response add_custom_response
  play-IsWhole l (responds q now) p h = push-IsWhole l (render_response l.conn q now) h
  play-IsWhole l (responds_custom q) p h = push-IsWhole l q h
  play-IsWhole l (sends r now) p h =
      append_assoc l.wire (taken (to_send l.conn) r) (waiting (perform_send l.conn r now).0)
      ∙ ap (λ t. l.wire ++ t) (perform_send-waiting l.conn r now p)
      ∙ h

  -- Whatever the socket takes at each call of `performSend`, the bytes on the wire are the front of
  -- the rendered and custom responses in the order in which they were added; the rest waits in the
  -- buffer and the queue.
  pub play_all-IsWhole :
      (es : List Event) (l : Line Http Custom)
      → ArePlayed l es
      → l.wire ++ waiting l.conn ≡ l.added
      → (play_all l es).wire ++ waiting (play_all l es).conn ≡ (play_all l es).added
  play_all-IsWhole [] l p h = h
  play_all-IsWhole (e ∷ es) l (p, ps) h = play_all-IsWhole es (play l e) ps (play-IsWhole l e p h)

  sent_whole :
      (c : Connection Http Custom) (b : ℕ) (s : Bytes) (now : ℕ)
      → c.send_buffer ≡ b ∷ s
      → perform_send c (wrote (suc (length s))) now
        ≡ (record c { ever_sent = true; last_activity_ts = now; send_buffer = [] }, true)
  unfolding perform_send send_result
  sent_whole c b s now e =
      let size : length c.send_buffer ≡ suc (length s) = ap length e in
      let full : length c.send_buffer == 0 ≡ false = ground arith in
      let over : ltb (suc (length s)) (length c.send_buffer) ≡ false = ground arith in
      rw (full, over) refl

  ended :
      (c : Connection Http Custom) (r : Sent) (now : ℕ)
      → c.send_buffer ≡ []
      → c.ever_sent && not c.keepalive ≡ true
      → perform_send c r now ≡ (record c { alive = false }, false)
  unfolding perform_send
  ended c r now e k =
      let empty : length c.send_buffer == 0 ≡ true = ap (λ t. length t == 0) e in rw (empty, k) refl

  -- If the connection is not to be kept alive, then behind the call of `performSend` that has sent
  -- the last byte of the buffer, the next one ends the connection and sends nothing, whatever
  -- responses are still in the queue.
  pub perform_send-last :
      (c : Connection Http Custom) (b : ℕ) (s : Bytes) (r : Sent) (now later : ℕ)
      → c.send_buffer ≡ b ∷ s
      → c.keepalive ≡ false
      → ((perform_send (perform_send c (wrote (suc (length s))) now).0 r later).0.alive ≡ false)
        × ((perform_send (perform_send c (wrote (suc (length s))) now).0 r later).0.resps ≡ c.resps)
        × ((perform_send (perform_send c (wrote (suc (length s))) now).0 r later).1 ≡ false)
  perform_send-last c b s r now later e k =
      rw
        (
          sent_whole c b s now e,
          ended (record c { ever_sent = true; last_activity_ts = now; send_buffer = [] }) r later
              refl (ap not k),
        )
        (refl, refl, refl)
