-- ===== src/BinClient/Connection/Sending.antt =====
-- What the client puts on the wire: requests are queued, keepalives are due, and the socket takes
-- what it takes.
use hiaux.Base.{
  ℕ, ◌+◌, ◌-◌, ◌^◌, ◌≤◌, ◌<◌, ◌≡◌, refl, ap, sym, ◌∙◌, List, [], ◌∷◌, ◌++◌, Bool, true, false,
  Bytes, length, take, arith, append_assoc, append-nil, take-append-drop, take-length, take-zero,
  ◌≢◌, ◌&&◌, ◌%◌, ◌==◌, ltb, codes,
}
use hiaux.Framing.Encoding.{Item, keep, message, encode, encode_item, encode_message, encode-append}
use hiaux.BinClient.Connection.{
  Request, Connection, Sent, wrote, nothing, minus_one, SendOutcome, sent_on, send_lost,
  send_out_of_range, hello, perform_send, after_send, send_result, add_request, keepalive_due,
  check_keep_alive, new_connection,
}

-- The connection behind a send, exception or not.
abbrev pub after : SendOutcome → Connection
after (sent_on c) = c
after (send_lost c) = c
after (send_out_of_range c) = c

-- What the socket takes of a buffer: nothing is sent where the buffer is empty.
abbrev pub taken : Bytes → Sent → Bytes
taken [] r = []
taken (b ∷ s) (wrote n) = take n (b ∷ s)
taken (b ∷ s) (nothing again) = []
taken (b ∷ s) (minus_one again) = []

-- `::send` returns no more than it was given, and buffers are smaller than the largest `size_t`.
abbrev pub IsTaken : Bytes → Sent → Type 0
IsTaken s (wrote n) = n ≤ length s
IsTaken s (nothing again) = Unit {0}
IsTaken s (minus_one again) = length s < 2 ^ 64 - 1

after_send-buffer :
    (c : Connection) (n : ℕ)
    → n ≤ length c.send_buffer
    → take n c.send_buffer ++ (after (after_send c n)).send_buffer ≡ c.send_buffer
unfolding after_send
after_send-buffer c n h =
    ground
      (arith, take-length c.send_buffer, take-append-drop n c.send_buffer, append-nil c.send_buffer)

after_send_zero : (c : Connection) → (after (after_send c 0)).send_buffer ≡ c.send_buffer
after_send_zero c =
    ap (λ t. t ++ (after (after_send c 0)).send_buffer) (sym (take-zero c.send_buffer))
    ∙ after_send-buffer c 0 (omega arith)

after_send_over :
    (c : Connection) (n : ℕ) → length c.send_buffer < n → after_send c n ≡ send_out_of_range c
unfolding after_send
after_send_over c n h = ground arith

send_result-buffer :
    (c : Connection) (b : ℕ) (s : Bytes) (r : Sent)
    → c.send_buffer ≡ b ∷ s
    → IsTaken (b ∷ s) r
    → taken (b ∷ s) r ++ (after (send_result c r)).send_buffer ≡ b ∷ s
unfolding send_result
send_result-buffer c b s (wrote n) e h =
    ap (λ t. take n t ++ (after (after_send c n)).send_buffer) (sym e)
    ∙ after_send-buffer c n (rw e h)
    ∙ e
send_result-buffer c b s (nothing true) e h = after_send_zero c ∙ e
send_result-buffer c b s (nothing false) e h = e
send_result-buffer c b s (minus_one true) e h =
    ap (λ o. (after o).send_buffer) (after_send_over c (2 ^ 64 - 1) (rw e h)) ∙ e
send_result-buffer c b s (minus_one false) e h = e

perform_send_empty : (c : Connection) (r : Sent) → c.send_buffer ≡ [] → perform_send c r ≡ sent_on c
unfolding perform_send
perform_send_empty c r e = ground arith

perform_send_result :
    (c : Connection) (r : Sent) (b : ℕ) (s : Bytes)
    → c.send_buffer ≡ b ∷ s
    → perform_send c r ≡ send_result c r
unfolding perform_send
perform_send_result c r b s e = ground arith

perform_send-taken :
    (c : Connection) (r : Sent) (s : Bytes)
    → c.send_buffer ≡ s
    → IsTaken s r
    → taken s r ++ (after (perform_send c r)).send_buffer ≡ s
perform_send-taken c r [] e h = ap (λ o. (after o).send_buffer) (perform_send_empty c r e) ∙ e
perform_send-taken c r (b ∷ s) e h =
    ap (λ o. taken (b ∷ s) r ++ (after o).send_buffer) (perform_send_result c r b s e)
    ∙ send_result-buffer c b s r e h

-- Where the socket is not ready, `send` returns -1, and the cast of that to a size makes `substr`
-- throw `std::out_of_range`: a full socket is an exception, though nothing is lost by it.
pub perform_send_would_block :
    (c : Connection)
    → c.send_buffer ≢ []
    → length c.send_buffer < 2 ^ 64 - 1
    → perform_send c (minus_one true) ≡ send_out_of_range c
perform_send_would_block c h l = go c.send_buffer refl
  where
    go : (s : Bytes) → c.send_buffer ≡ s → perform_send c (minus_one true) ≡ send_out_of_range c
    go [] e = absurd (h e)
    go (b ∷ s) e =
        perform_send_result c (minus_one true) b s e
        ∙ unfold send_result in after_send_over c (2 ^ 64 - 1) l

-- A connection with what its socket took and what it was asked to send.
pub record Sender : Type 0 where
  pub conn : Connection
  pub wire : Bytes
  pub items : List Item

pub data Event : Type 0 where
  adds : Request → Event
  performs : Sent → Event
  keeps_alive : ℕ → Sent → Event

unfoldable pub keepalive : Sender → ℕ → Sent → Bool → Sender
keepalive x now r false = x
keepalive x now r true = record {
  conn = after (check_keep_alive x.conn now r);
  wire = x.wire ++ taken (codes "k") r;
  items = x.items ++ keep ∷ [];
}

unfoldable pub play : Sender → Event → Sender
unfolding keepalive
play x (adds q) = record x { conn = add_request x.conn q; items = x.items ++ message q.data_ ∷ [] }
play x (performs r) = record x {
  conn = after (perform_send x.conn r);
  wire = x.wire ++ taken x.conn.send_buffer r;
}
play x (keeps_alive now r) = keepalive x now r (keepalive_due x.conn now)

-- What the socket is handed at an event.
abbrev pub IsPlayed : Sender → Event → Type 0
IsPlayed x (adds q) = Unit {0}
IsPlayed x (performs r) = IsTaken x.conn.send_buffer r
IsPlayed x (keeps_alive now r) = IsTaken (codes "k") r

unfoldable pub play_all : Sender → List Event → Sender
play_all x [] = x
play_all x (e ∷ es) = play_all (play x e) es

abbrev pub ArePlayed : Sender → List Event → Type 0
ArePlayed x [] = Unit {0}
ArePlayed x (e ∷ es) = IsPlayed x e × ArePlayed (play x e) es

-- The stream so far: the upgrade request, and then whole frames and keepalives between them.
abbrev pub IsFramed : Sender → Type 0
IsFramed x = x.wire ++ x.conn.send_buffer ≡ hello ++ encode x.items

encode-single : (i : Item) → encode (i ∷ []) ≡ encode_item i
unfolding encode
encode-single i = append-nil (encode_item i)

frame_added :
    (w b : Bytes) (is : List Item) (i : Item)
    → w ++ b ≡ hello ++ encode is
    → w ++ (b ++ encode_item i) ≡ hello ++ encode (is ++ i ∷ [])
frame_added w b is i f =
    sym (append_assoc w b (encode_item i))
    ∙ ap (λ t. t ++ encode_item i) f
    ∙ append_assoc hello (encode is) (encode_item i)
    ∙ ap (◌++◌ hello)
        (ap (◌++◌ (encode is)) (sym (encode-single i)) ∙ sym (encode-append is (i ∷ [])))

due-empty : (c : Connection) (now : ℕ) → keepalive_due c now ≡ true → c.send_buffer ≡ []
due-empty c now e = go c.send_buffer e
  where
    go :
        (s : Bytes)
        → (length s == 0 && ltb c.keepalive_period ((now + 2 ^ 64 - c.last_activity_ts) % 2 ^ 64))
          ≡ true
        → s ≡ []
    go [] h = refl
    go (b ∷ s) h = ground arith

check_keep_alive-buffer :
    (c : Connection) (now : ℕ) (r : Sent)
    → keepalive_due c now ≡ true
    → IsTaken (codes "k") r
    → taken (codes "k") r ++ (after (check_keep_alive c now r)).send_buffer ≡ codes "k"
unfolding check_keep_alive
check_keep_alive-buffer c now r e h = rw e (
    perform_send-taken
      (record c { last_activity_ts = now; send_buffer = c.send_buffer ++ codes "k" }) r (codes "k")
      (ap (λ t. t ++ codes "k") (due-empty c now e)) h)

keepalive-IsFramed :
    (x : Sender) (now : ℕ) (r : Sent) (due : Bool)
    → keepalive_due x.conn now ≡ due
    → IsTaken (codes "k") r
    → IsFramed x
    → IsFramed (keepalive x now r due)
unfolding keepalive encode_item
keepalive-IsFramed x now r false e h f = f
keepalive-IsFramed x now r true e h f =
    append_assoc x.wire (taken (codes "k") r) _
    ∙ ap (◌++◌ x.wire) (check_keep_alive-buffer x.conn now r e h)
    ∙ frame_added x.wire [] x.items keep (ap (◌++◌ x.wire) (sym (due-empty x.conn now e)) ∙ f)

play-IsFramed : (x : Sender) (e : Event) → IsPlayed x e → IsFramed x → IsFramed (play x e)
unfolding play add_request encode_item encode_message
play-IsFramed x (adds q) h f = frame_added x.wire x.conn.send_buffer x.items (message q.data_) f
play-IsFramed x (performs r) h f =
    append_assoc x.wire (taken x.conn.send_buffer r) _
    ∙ ap (◌++◌ x.wire) (perform_send-taken x.conn r x.conn.send_buffer refl h)
    ∙ f
play-IsFramed x (keeps_alive now r) h f =
    keepalive-IsFramed x now r (keepalive_due x.conn now) refl h f

play_all-IsFramed :
    (x : Sender) (es : List Event) → ArePlayed x es → IsFramed x → IsFramed (play_all x es)
unfolding play_all
play_all-IsFramed x [] h f = f
play_all-IsFramed x (e ∷ es) h f = play_all-IsFramed (play x e) es h.1 (play-IsFramed x e h.0 f)

unfoldable pub new_sender : ℕ → ℕ → ℕ → Sender
unfolding new_connection
new_sender sock now size = record { conn = new_connection sock now size; wire = []; items = [] }

-- Whatever the application asks, however the clock runs and whatever part of each buffer the
-- socket takes, also where a send throws: the bytes on the wire and those still in the buffer are
-- the upgrade request and then, in the order of the calls, whole frames and keepalives; a
-- keepalive never stands inside a frame.
pub play_all_framed :
    (sock now size : ℕ) (es : List Event)
    → ArePlayed (new_sender sock now size) es
    → let x = play_all (new_sender sock now size) es in
      x.wire ++ x.conn.send_buffer ≡ hello ++ encode x.items
unfolding new_sender encode
play_all_framed sock now size es h =
    play_all-IsFramed (new_sender sock now size) es h (sym (append-nil hello))
