-- ===== src/Delivery.antt =====
-- From `hiapi::client::Connection` to `hiapi::server::Parser`: the two ends of the binary API.
mod Tests
use hiaux.Base.{
  ℕ, ◌≤◌, ◌≡◌, refl, ap, sym, ◌∙◌, List, [], ◌∷◌, ◌++◌, Bool, true, false, Option, some, Bytes,
  length, arith, append_assoc, append-nil, All, All-append, map, concat,
}
use mathlib.Core.Path.{subst}
use mathlib.Core.List.{append_cancel_left}
use hiaux.Framing.{size_line}
use hiaux.Framing.Encoding.{Item, keep, message, encode, messages, Sendable}
use hiaux.BinClient.Connection.{Request, Sent, hello, keepalive_due}
use hiaux.BinClient.Connection.Sending.{
  Sender, Event, adds, performs, keeps_alive, play, play_all, keepalive, ArePlayed, new_sender,
  play_all_framed,
}
use hiaux.BinServer.{received, recv, new_parser, binrequest_max_size}
use hiaux.BinServer.Parsed.{server}
use hiaux.BinServer.Stream.{recv_all}
use hiaux.BinServer.Delivery.{Reached, recv_all-encode}

-- The data of the requests that were asked for.
abbrev pub asked : List Event → List Bytes
asked [] = []
asked (adds q ∷ es) = q.data_ ∷ asked es
asked (performs r ∷ es) = asked es
asked (keeps_alive now r ∷ es) = asked es

messages-append : (is js : List Item) → messages (is ++ js) ≡ messages is ++ messages js
messages-append [] js = refl
messages-append (keep ∷ is) js = messages-append is js
messages-append (message m ∷ is) js = ap (◌∷◌ m) (messages-append is js)

module _ (junk : Bytes → ℕ) where
  -- What is to be sent: the requests asked for, each within the limit.
  abbrev IsAsking : List Bytes → Sender → Type 0
  IsAsking ms x = (messages x.items ≡ ms) × All (Sendable (server junk)) x.items

  IsAsking-add :
      (ms : List Bytes) (is : List Item) (i : Item)
      → messages is ≡ ms
      → All (Sendable (server junk)) is
      → Sendable (server junk) i
      → (messages (is ++ i ∷ []) ≡ ms ++ messages (i ∷ []))
        × All (Sendable (server junk)) (is ++ i ∷ [])
  IsAsking-add ms is i e h k = (
    messages-append is (i ∷ []) ∙ ap (λ t. t ++ messages (i ∷ [])) e,
    All-append (Sendable (server junk)) is (i ∷ []) h (k, tt),
  )

  keepalive-IsAsking :
      (ms : List Bytes) (x : Sender) (now : ℕ) (r : Sent) (due : Bool)
      → IsAsking ms x
      → IsAsking ms (keepalive x now r due)
  unfolding keepalive
  keepalive-IsAsking ms x now r false a = a
  keepalive-IsAsking ms x now r true (e, h) =
      let (e', h') = IsAsking-add ms x.items keep e h refl in (e' ∙ append-nil ms, h')

  play_all-IsAsking :
      (es : List Event) (ms : List Bytes) (x : Sender)
      → All (λ m. length m ≤ binrequest_max_size) (asked es)
      → IsAsking ms x
      → IsAsking (ms ++ asked es) (play_all x es)
  unfolding play_all play
  play_all-IsAsking [] ms x h a = rw append-nil a
  play_all-IsAsking (adds q ∷ es) ms x h (e, s) = rw (← append_assoc ms (q.data_ ∷ []) (asked es)) (
      play_all-IsAsking es (ms ++ q.data_ ∷ []) (play x (adds q)) h.1
        (IsAsking-add ms x.items (message q.data_) e s h.0))
  play_all-IsAsking (performs r ∷ es) ms x h a = play_all-IsAsking es ms (play x (performs r)) h a
  play_all-IsAsking (keeps_alive now r ∷ es) ms x h a =
      play_all-IsAsking es ms (play x (keeps_alive now r)) h
        (keepalive-IsAsking ms x now r (keepalive_due x.conn now) a)

  -- From end to end: let a client queue requests within the server's limit, send in pieces and
  -- keep alive in any order until its buffer is empty. Behind the upgrade request the server,
  -- whatever pieces it reads, queues exactly the requests asked for, in order.
  pub delivered :
      (sock now size m : ℕ) (es : List Event) (ss : List Bytes)
      → ArePlayed (new_sender sock now size) es
      → All (λ q. length q ≤ binrequest_max_size) (asked es)
      → (play_all (new_sender sock now size) es).conn.send_buffer ≡ []
      → hello ++ concat ss ≡ (play_all (new_sender sock now size) es).wire
      → Reached (map some (asked es)) (size_line []) (recv_all junk (received [] (new_parser m)) ss)
  delivered sock now size m es ss played fit empty cut =
      let x = play_all (new_sender sock now size) es in
      let (ms, sendable) =
        play_all-IsAsking es [] (new_sender sock now size) fit (unfold new_sender in (refl, tt)) in
      let framed : x.wire ++ [] ≡ hello ++ encode x.items =
        ap (◌++◌ x.wire) (sym empty) ∙ play_all_framed sock now size es played in
      let bytes : concat ss ≡ encode x.items =
        append_cancel_left hello _ _ (cut ∙ sym (append-nil x.wire) ∙ framed) in
      subst
        (λ q. Reached (map some q) (size_line []) (recv_all junk (received [] (new_parser m)) ss))
        ms (recv_all-encode junk m x.items ss sendable bytes)
