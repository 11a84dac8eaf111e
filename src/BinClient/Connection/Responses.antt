-- ===== src/BinClient/Connection/Responses.antt =====
-- What a read makes of the server's stream: each response answers the oldest request.
use hiaux.Base.{
  ℕ, zero, suc, ◌≤◌, ◌<◌, ◌≡◌, refl, ap, sym, ◌∙◌, List, [], ◌∷◌, ◌++◌, Bool, true, false, Bytes,
  length, drop, arith, length-append, append-nil, append_assoc, ◌⊎◌, inl, inr,
}
use mathlib.Core.Path.{subst}
use hiaux.Framing.{size_line, body, greeting, failed, Reader, reads}
use hiaux.Framing.Reads.{
  at, reads-nil, reads-append, reads-size_line, reads_body, reads-out, Starts, reads-Starts,
}
use hiaux.Framing.Greeting.{reads_greeting}
use hiaux.BinClient.Parser.{
  ResponseParser, Exception, Outcome, returns, throws, parse, execute, get_response, has_response,
  reading_handshake, reading_size, reading_message,
}
use hiaux.BinClient.Parser
use hiaux.BinClient.Parser.Sized.{
  client, start, mode_of, IsReady, Waits, IsWaiting, Parsed, StartsFrame-client,
}
use hiaux.BinClient.Parser.Parsed.{parse-Parsed}
use hiaux.BinClient.Connection.{
  Request, Call, finished, Connection, Receipt, received, recv_lost, threw, unsolicited,
  out_of_fuel, with_parser, answer, take_response, answer_loop, after_execute, on_bytes,
}
use hiaux.BinClient.Connection.Answers.{answers, answers-next, answers_all, answers-more}

-- The queue and the calls, when the messages `out` have been answered.
abbrev pub Matched : List Request → List Bytes → Connection → List Call → Type 0
Matched reqs out c calls =
    (calls ≡ answers reqs out)
    × (c.sent_requests ≡ drop (length out) reqs)
    × (length out ≤ length reqs)

-- The messages before an error, or all of them but the last.
abbrev pub AllButLast : List Bytes → List Bytes → Type 0
AllButLast all out = (all ≡ out) ⊎ ((m : Bytes) × (all ≡ out ++ m ∷ []))

-- The calls made are the answers to the oldest requests by the messages read, in order; the other
-- requests are still queued, and the parser stands where the reader does. A throw means that the
-- stream is in error; the calls before it answer by the messages before the error, or by all of them
-- but the last. `unsolicited` means that all requests are answered and a message is left.
abbrev pub Agrees : List Request → Reader → Receipt → Type 0
Agrees reqs r (received c calls) =
    IsWaiting c.parser × Matched reqs r.out c calls × (mode_of c.parser ≡ r.mode)
Agrees reqs r (recv_lost c calls) = ⊥
Agrees reqs r (threw e c calls) =
    (r.mode ≡ failed) × ((out : List Bytes) × Matched reqs out c calls × AllButLast r.out out)
Agrees reqs r (unsolicited c calls) = (length reqs < length r.out) × (calls ≡ answers reqs r.out)
Agrees reqs r out_of_fuel = ⊥

IsReady-size : (st : Parser.State) (n : ℕ) → st ≡ reading_size → IsReady st n
IsReady-size st n e = rw e tt

start_waiting : (st : Parser.State) (n : ℕ) (t : Bytes) → Waits st n t → IsReady st n
start_waiting reading_handshake n t w = tt
start_waiting reading_size n t w = tt
start_waiting reading_message n t w = omega arith

reads_token :
    (junk : Bytes → ℕ) (out : List Bytes) (p : ResponseParser)
    → IsWaiting p
    → reads (client junk) (at (start p.state p.size) out) p.cur_token ≡ at (mode_of p) out
reads_token junk out p w = go p.state p.size p.cur_token w.waits
  where
    go :
        (st : Parser.State) (n : ℕ) (t : Bytes)
        → Waits st n t
        → reads (client junk) (at (start st n) out) t
          ≡ at
              (elim st [
                | reading_handshake ↦ greeting t
                | reading_size ↦ size_line t
                | reading_message ↦ body n t
              ])
              out
    go reading_handshake n t w = reads_greeting (client junk) [] out t (omega arith)
    go reading_size n t w = reads-size_line (client junk) out t (StartsFrame-client junk t) w
    go reading_message n t w = reads_body (client junk) n [] out t (omega arith)

module _ (junk : Bytes → ℕ) (reqs : List Request) where
  -- A message past the last request is in the stream for good.
  over-Starts :
      (out : List Bytes) (r : Reader) (n : ℕ) (called : Bool) (p : ResponseParser)
      → Parsed junk out r n (returns called p)
      → Starts out r.out
  over-Starts out r n called p (inl (w, e)) = ([], ap (λ x. x.out) e ∙ sym (append-nil out))
  over-Starts out r n called p (inr (m, got, resp, st, lt, e)) =
      let more = reads-Starts (client junk) (at (size_line []) (out ++ m ∷ [])) p.cur_token in
      (m ∷ more.0, ap (λ x. x.out) e ∙ more.1 ∙ append_assoc out (m ∷ []) more.0)

  over-out :
      (out : List Bytes) (r : Reader) (n : ℕ) (called : Bool) (p : ResponseParser)
      → Parsed junk out r n (returns called p)
      → length out ≤ length r.out
  over-out out r n called p (inl (w, e)) = rw e (omega arith)
  over-out out r n called p (inr (m, got, resp, st, lt, e)) = rw e (
      omega (
        arith,
        reads-out (client junk) (at (size_line []) (out ++ m ∷ [])) p.cur_token,
        length-append out (m ∷ []),
      ))

  take_response-Agrees :
      (rest : Connection → List Call → Receipt) (n : ℕ) (out : List Bytes) (msg : Bytes)
      (r : Reader) (c : Connection) (calls : List Call) (o : Outcome)
      → ((called : Bool) (c' : Connection) (calls' : List Call)
          → Parsed junk (out ++ msg ∷ []) r n (returns called c'.parser)
          → Matched reqs (out ++ msg ∷ []) c' calls'
          → Agrees reqs r (rest c' calls'))
      → Parsed junk (out ++ msg ∷ []) r n o
      → Matched reqs out c calls
      → Agrees reqs r (take_response junk rest c calls msg o)
  unfolding take_response
  take_response-Agrees rest n out msg r c calls (throws called e p) ih d m =
      (ap (λ x. x.mode) d, (out, m, inr (msg, ap (λ x. x.out) d)))
  take_response-Agrees rest n out msg r c calls (returns called p) ih d (ks, queue, fits) =
      go c.sent_requests queue
    where
      go :
          (q : List Request)
          → q ≡ drop (length out) reqs
          → Agrees reqs r (answer junk rest (with_parser called p c) calls msg q)
      go [] e =
          let more = over-Starts (out ++ msg ∷ []) r n called p d in
          (
            omega (
              arith,
              answers_all reqs out (sym e),
              over-out (out ++ msg ∷ []) r n called p d,
              length-append out (msg ∷ []),
            ),
            ks
                ∙ sym (answers-more reqs out (msg ∷ more.0) (sym e))
                ∙ ap (answers reqs) (sym (append_assoc out (msg ∷ []) more.0))
                ∙ ap (answers reqs) (sym more.1),
          )
      go (x ∷ q) e =
          let (ks', queue', fits') = answers-next reqs out x q msg (sym e) in
          ih called (record (with_parser called p c) { sent_requests = q })
            (calls ++ finished x.callback true msg ∷ []) d
            (ap (λ k. k ++ finished x.callback true msg ∷ []) ks ∙ sym ks', sym queue', fits')

  answer_loop_stops :
      (fuel : ℕ) (c : Connection) (calls : List Call)
      → c.parser.got_response ≡ false
      → answer_loop junk (suc fuel) c calls ≡ received c calls
  unfolding answer_loop
  answer_loop_stops fuel c calls e = ground arith

  answer_loop_takes :
      (fuel : ℕ) (c : Connection) (calls : List Call) (msg : Bytes)
      → c.parser.got_response ≡ true
      → c.parser.cur_response ≡ msg
      → answer_loop junk (suc fuel) c calls
        ≡ take_response junk
            (answer_loop junk fuel)
            c
            calls
            msg
            (parse junk (record (c.parser) { got_response = false }))
  unfolding answer_loop get_response
  answer_loop_takes fuel c calls msg e f = ground arith

  rest_Parsed :
      (out : List Bytes) (p : ResponseParser)
      → p.state ≡ reading_size
      → Parsed junk out
          (reads (client junk) (at (size_line []) out) p.cur_token)
          (length p.cur_token)
          (parse junk (record p { got_response = false }))
  rest_Parsed out p e =
      subst
        (λ m.
          Parsed junk out (reads (client junk) (at m out) p.cur_token) (length p.cur_token)
            (parse junk (record p { got_response = false })))
        (ap (λ s. start s p.size) e)
        (parse-Parsed junk out (record p { got_response = false }) refl
          (IsReady-size p.state p.size e))

  answer_loop-Agrees :
      (fuel n : ℕ) (out : List Bytes) (r : Reader) (called : Bool) (c : Connection)
      (calls : List Call)
      → n < fuel
      → Parsed junk out r n (returns called c.parser)
      → Matched reqs out c calls
      → Agrees reqs r (answer_loop junk fuel c calls)
  answer_loop-Agrees zero n out r called c calls h d m = absurd (omega arith)
  answer_loop-Agrees (suc fuel) n out r called c calls h (inl (w, at_r)) (ks, queue, fits) =
      rw (answer_loop_stops fuel c calls w.no_response, at_r) (w, (ks, queue, fits), refl)
  answer_loop-Agrees (suc fuel) n out r called c calls h (inr (msg, got, resp, st, lt, q)) m =
      rw (answer_loop_takes fuel c calls msg got resp, q)
        (take_response-Agrees (answer_loop junk fuel) (length c.parser.cur_token) out msg _ c calls
          _
          (λ called' c' calls' d'.
            answer_loop-Agrees fuel (length c.parser.cur_token) (out ++ msg ∷ []) _ called' c'
              calls' (omega arith) d')
          (rest_Parsed (out ++ msg ∷ []) c.parser st) m)

  after_execute-Agrees :
      (fuel n : ℕ) (out : List Bytes) (r : Reader) (c : Connection) (calls : List Call)
      (o : Outcome)
      → n < fuel
      → Parsed junk out r n o
      → Matched reqs out c calls
      → Agrees reqs r (after_execute junk fuel c calls o)
  unfolding after_execute
  after_execute-Agrees fuel n out r c calls (throws called e p) h d m =
      (ap (λ x. x.mode) d, (out, m, inl (ap (λ x. x.out) d)))
  after_execute-Agrees fuel n out r c calls (returns called p) h d m =
      answer_loop-Agrees fuel n out r called (with_parser called p c) calls h d m

  -- One read of a connection that waits for bytes, whose calls answer the messages read so far. When it
  -- returns, the messages of the stream have answered the oldest requests, the other requests are
  -- queued, and the parser stands where the stream stops. When it throws, the stream is in error, and
  -- the messages before the error, or all of them but the last, have answered the oldest requests.
  -- When a message is left without a request, all requests have been answered by the first messages.
  -- The value that `string_to_uint64` leaves for a size line without a number is assumed to depend on
  -- the line alone.
  pub on_bytes-Agrees :
      (out : List Bytes) (c : Connection) (calls : List Call) (s : Bytes)
      → IsWaiting c.parser
      → Matched reqs out c calls
      → Agrees reqs (reads (client junk) (at (mode_of c.parser) out) s) (on_bytes junk c calls s)
  unfolding on_bytes execute
  on_bytes-Agrees out c calls [] w m =
      rw (answer_loop_stops (suc (length c.parser.cur_token)) c calls w.no_response, reads-nil)
        (w, m, refl)
  on_bytes-Agrees out c calls (b ∷ s) w m =
      rw
        (
          ← reads_token junk out c.parser w,
          ← reads-append (client junk) (at (start c.parser.state c.parser.size) out)
              c.parser.cur_token (b ∷ s),
        )
        (after_execute-Agrees (suc (suc (length (c.parser.cur_token ++ b ∷ s))))
          (length (c.parser.cur_token ++ b ∷ s)) out _ c calls _ (omega arith)
          (parse-Parsed junk out (record (c.parser) { cur_token = c.parser.cur_token ++ b ∷ s })
            w.no_response (start_waiting c.parser.state c.parser.size c.parser.cur_token w.waits))
          m)
