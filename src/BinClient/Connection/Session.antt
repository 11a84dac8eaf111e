-- ===== src/BinClient/Connection/Session.antt =====
-- The life of a connection: requests are sent and bytes arrive, in any order.
use hiaux.Base.{
  ℕ, ◌≤◌, ◌≡◌, refl, ap, sym, ◌∙◌, List, [], ◌∷◌, ◌++◌, false, Bytes, length, drop, arith,
  length-append, map, append_assoc, All, take-zero, drop-zero, append-nil,
}
use mathlib.Core.Path.{subst}
use hiaux.Framing.{greeting, size_line, Reader, reads}
use hiaux.Framing.Reads.{at, reads-nil, reads-append, reads-failed}
use hiaux.Framing.Encoding.{encode, message, reads-encode, Sendable-map, messages-map}
use hiaux.Framing.Greeting.{reads_whole_greeting}
use hiaux.BinClient.Parser.{message_size_limit, hiapi_handshake, new_response_parser}
use hiaux.BinClient.Parser.Sized.{client, mode_of, IsWaiting}
use hiaux.BinClient.Connection.{
  Request, Call, finished, Connection, Receipt, received, recv_lost, threw, unsolicited,
  out_of_fuel, on_bytes, add_request, close_connection, new_connection,
}
use hiaux.BinClient.Connection.Answers.{answers, answers-append, callee, callee-answers}
use hiaux.BinClient.Connection.Responses.{Matched, Agrees, on_bytes-Agrees}

pub data Event : Type 0 where
  sends : Request → Event
  arrives : Bytes → Event

abbrev pub stream : List Event → Bytes
stream [] = []
stream (sends x ∷ es) = stream es
stream (arrives s ∷ es) = s ++ stream es

reads-handshake :
    (junk : Bytes → ℕ) (s : Bytes)
    → reads (client junk) (at (greeting []) []) (hiapi_handshake ++ s)
      ≡ reads (client junk) (at (size_line []) []) s
reads-handshake junk s =
    reads_whole_greeting (client junk) 14 [] [] (hiapi_handshake ++ s) refl (omega arith)
    ∙ rw (take-zero s, drop-zero s) refl

module _ (junk : Bytes → ℕ) where
  -- A connection that was lost or threw takes part in nothing more.
  unfoldable pub run : Receipt → List Event → Receipt
  run (received c calls) [] = received c calls
  run (received c calls) (sends x ∷ es) = run (received (add_request c x) calls) es
  run (received c calls) (arrives s ∷ es) = run (on_bytes junk c calls s) es
  run (recv_lost c calls) es = recv_lost c calls
  run (threw e c calls) es = threw e c calls
  run (unsolicited c calls) es = unsolicited c calls
  run out_of_fuel es = out_of_fuel

  -- The requests that were sent while the connection was alive.
  unfoldable pub accepted : Receipt → List Event → List Request
  accepted (received c calls) [] = []
  accepted (received c calls) (sends x ∷ es) = x ∷ accepted (received (add_request c x) calls) es
  accepted (received c calls) (arrives s ∷ es) = accepted (on_bytes junk c calls s) es
  accepted (recv_lost c calls) es = []
  accepted (threw e c calls) es = []
  accepted (unsolicited c calls) es = []
  accepted out_of_fuel es = []

  -- At no time has the server sent more messages than it was asked for.
  abbrev pub IsAsked : List Request → Reader → List Event → Type 0
  IsAsked reqs r [] = Unit {0}
  IsAsked reqs r (sends x ∷ es) = IsAsked (reqs ++ x ∷ []) r es
  IsAsked reqs r (arrives s ∷ es) =
      (length (reads (client junk) r s).out ≤ length reqs)
      × IsAsked reqs (reads (client junk) r s) es

  Matched-sends :
      (reqs : List Request) (out : List Bytes) (c : Connection) (calls : List Call) (x : Request)
      → Matched reqs out c calls
      → Matched (reqs ++ x ∷ []) out (add_request c x) calls
  unfolding add_request
  Matched-sends reqs out c calls x (ks, queue, fits) =
      let (ks', queue') = answers-append reqs x out fits in
      (
        ks ∙ sym ks',
        ap (λ q. q ++ x ∷ []) queue ∙ sym queue',
        omega (arith, length-append reqs (x ∷ [])),
      )

  -- As `Agrees`, of a connection whose server answers no more than it was asked.
  abbrev pub Settled : List Request → Reader → Receipt → Type 0
  Settled reqs r (received c calls) = Agrees reqs r (received c calls)
  Settled reqs r (recv_lost c calls) = ⊥
  Settled reqs r (threw e c calls) = Agrees reqs r (threw e c calls)
  Settled reqs r (unsolicited c calls) = ⊥
  Settled reqs r out_of_fuel = ⊥

  run-Settled :
      (reqs : List Request) (r : Reader) (rc : Receipt) (es : List Event)
      → length r.out ≤ length reqs
      → IsAsked reqs r es
      → Agrees reqs r rc
      → Settled (reqs ++ accepted rc es) (reads (client junk) r (stream es)) (run rc es)
  unfolding run accepted
  run-Settled reqs r (received c calls) [] l h a = rw (append-nil, reads-nil (client junk) r) a
  run-Settled reqs r (received c calls) (sends x ∷ es) l h (w, m, e) =
      rw (← append_assoc reqs (x ∷ []) (accepted (received (add_request c x) calls) es)) (
        run-Settled (reqs ++ x ∷ []) r (received (add_request c x) calls) es
          (omega (arith, length-append reqs (x ∷ []))) h
          (waiting w, Matched-sends reqs r.out c calls x m, mode e))
    where
      waiting : IsWaiting c.parser → IsWaiting (add_request c x).parser
      waiting = unfold add_request in λ w'. w'

      mode : mode_of c.parser ≡ r.mode → mode_of (add_request c x).parser ≡ r.mode
      mode = unfold add_request in λ e'. e'
  run-Settled reqs r (received c calls) (arrives s ∷ es) l h (w, m, e) =
      rw (reads-append (client junk) r s (stream es)) (
        run-Settled reqs (reads (client junk) r s) (on_bytes junk c calls s) es h.0 h.1 (
          subst (λ k. Agrees reqs (reads (client junk) (at k r.out) s) (on_bytes junk c calls s)) e
            (on_bytes-Agrees junk reqs r.out c calls s w m)))
  run-Settled reqs r (threw ex c calls) es l h (f, m) = rw append-nil (
      subst (λ k. Agrees reqs (reads (client junk) (at k r.out) (stream es)) (threw ex c calls))
        (sym f) (rw (reads-failed (client junk) r.out (stream es)) (refl, m)))
  run-Settled reqs r (recv_lost c calls) es l h a = elim a [ ]
  run-Settled reqs r (unsolicited c calls) es l h (a, k) = absurd (omega arith)
  run-Settled reqs r out_of_fuel es l h a = elim a [ ]

  -- The callbacks called in the life of a connection, its destructor included.
  abbrev pub called : Receipt → List ℕ
  called (received c calls) = map callee (calls ++ close_connection c)
  called (recv_lost c calls) = map callee (calls ++ close_connection c)
  called (threw e c calls) = map callee (calls ++ close_connection c)
  called (unsolicited c calls) = map callee (calls ++ close_connection c)
  called out_of_fuel = []

  Matched-called :
      (reqs : List Request) (out : List Bytes) (c : Connection) (calls : List Call)
      → Matched reqs out c calls
      → map callee (calls ++ close_connection c) ≡ map (λ r. r.callback) reqs
  unfolding close_connection
  Matched-called reqs out c calls (ks, queue, fits) =
      ap (λ q. map callee (q.0 ++ map (λ r. finished r.callback false []) q.1)) pair
      ∙ callee-answers reqs out
    where
      pair :
          ◌≡◌ {A = List Call × List Request}
            (calls, c.sent_requests)
            (answers reqs out, drop (length out) reqs)
      pair = λ i. (ks i, queue i)

  Settled-called :
      (reqs : List Request) (r : Reader) (rc : Receipt)
      → Settled reqs r rc
      → called rc ≡ map (λ x. x.callback) reqs
  Settled-called reqs r (received c calls) (w, m, e) = Matched-called reqs r.out c calls m
  Settled-called reqs r (recv_lost c calls) a = elim a [ ]
  Settled-called reqs r (threw e c calls) (f, (out, m, k)) = Matched-called reqs out c calls m
  Settled-called reqs r (unsolicited c calls) a = elim a [ ]
  Settled-called reqs r out_of_fuel a = elim a [ ]

  module _ (sock now size : ℕ) where
    abbrev fresh : Receipt
    fresh = received (new_connection sock now size) []

    abbrev unread : Reader
    unread = at (greeting []) []

    fresh-Agrees : Agrees [] unread fresh
    unfolding new_connection new_response_parser
    fresh-Agrees =
        (record { no_response = refl; waits = omega arith }, (refl, refl, omega arith), refl)

    fresh-Settled :
        (es : List Event)
        → IsAsked [] unread es
        → Settled (accepted fresh es) (reads (client junk) unread (stream es)) (run fresh es)
    fresh-Settled es h = run-Settled [] unread fresh es (omega arith) h fresh-Agrees

    -- Whatever the server sends, as long as it is not more messages than it was asked for: the
    -- callback of each request sent on the connection is called exactly once, in the order of
    -- sending, by an answer or at the latest by the destructor.
    pub run_once :
        (es : List Event)
        → IsAsked [] unread es
        → called (run fresh es) ≡ map (λ x. x.callback) (accepted fresh es)
    run_once es h = Settled-called (accepted fresh es) _ (run fresh es) (fresh-Settled es h)

    -- The handshake and then messages within the limit, in pieces of any size and between
    -- requests in any order: message number i answers request number i, no message is lost, and
    -- the requests not yet answered are queued.
    pub run-answers :
        (es : List Event) (ms : List Bytes)
        → IsAsked [] unread es
        → All (λ m. length m ≤ message_size_limit) ms
        → stream es ≡ hiapi_handshake ++ encode (map message ms)
        → (c : Connection) × (run fresh es ≡ received c (answers (accepted fresh es) ms))
          × (c.sent_requests ≡ drop (length ms) (accepted fresh es))
    run-answers es ms h fit e =
        settled (run fresh es)
          (subst (λ r. Settled (accepted fresh es) r (run fresh es)) whole (fresh-Settled es h))
      where
        whole : reads (client junk) unread (stream es) ≡ at (size_line []) ms
        whole =
            rw (e, reads-handshake junk (encode (map message ms)))
              (reads-encode (client junk) (omega arith) (map message ms) []
                  (Sendable-map (client junk) ms fit)
                ∙ ap (at (size_line [])) (messages-map ms))

        settled :
            (rc : Receipt)
            → Settled (accepted fresh es) (at (size_line []) ms) rc
            → (c : Connection) × (rc ≡ received c (answers (accepted fresh es) ms))
              × (c.sent_requests ≡ drop (length ms) (accepted fresh es))
        settled (received c calls) (w, (ks, queue, fits), e') = (c, ap (received c) ks, queue)
        settled (threw ex c calls) (f, m) = cc
        settled (recv_lost c calls) a = elim a [ ]
        settled (unsolicited c calls) a = elim a [ ]
        settled out_of_fuel a = elim a [ ]
