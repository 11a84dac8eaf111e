-- ===== src/BinServer/Delivery.antt =====
-- What the server makes of a client's stream, however the network cuts it.
use hiaux.Base.{
  ℕ, ◌≡◌, ◌≢◌, ◌≤◌, refl, List, [], Option, some, Bytes, arith, ◌∙◌, ap, sym, map, concat, All,
}
use hiaux.Framing.{Mode, size_line, failed, Reader, reads}
use hiaux.Framing.Reads.{at}
use hiaux.Framing.Encoding.{Item, encode, messages, Sendable, reads-encode}
use hiaux.BinServer.{
  Parser, Receipt, received, broken, out_of_fuel, new_parser, binrequest_max_size,
}
use hiaux.Text.Decimal.{u64_max}
use mathlib.Core.Path.{subst}
use hiaux.BinServer.Parsed.{server, mode_of, IsWaiting}
use hiaux.BinServer.Stream.{Agrees, recv_all, recv_all-Agrees}

new_parser-IsWaiting : (n : ℕ) → IsWaiting (new_parser n)
unfolding new_parser
new_parser-IsWaiting n = record { no_request = refl; waits = (tt, tt) }

-- How far a receipt got: the requests queued, and the place in the stream.
abbrev pub Reached : List (Option Bytes) → Mode → Receipt → Type 0
Reached q m (received q' p) = IsWaiting p × (q' ≡ q) × (mode_of p ≡ m)
Reached q m (broken q' p) = ⊥
Reached q m out_of_fuel = ⊥

Agrees-Reached :
    (rc : Receipt) (r : Reader) → r.mode ≢ failed → Agrees rc r → Reached (map some r.out) r.mode rc
Agrees-Reached (received q p) r h a = a
Agrees-Reached (broken q p) r h a = absurd (h a.0)
Agrees-Reached out_of_fuel r h a = a

size_line-ne-failed : {l : Bytes} → size_line l ≢ failed
size_line-ne-failed e = cc

mode_of-ne-failed : (p : Parser) → mode_of p ≢ failed
mode_of-ne-failed p e = ground arith

limit-le-u64_max : binrequest_max_size ≤ u64_max
limit-le-u64_max = omega arith

module _ (junk : Bytes → ℕ) (size : ℕ) where
  fresh_reads :
      (ss : List Bytes)
      → Agrees
          (recv_all junk (received [] (new_parser size)) ss)
          (reads (server junk) (at (size_line []) []) (concat ss))
  fresh_reads ss =
      recv_all-Agrees junk (received [] (new_parser size)) (at (size_line []) []) ss
        (new_parser-IsWaiting size, refl, unfold new_parser in refl)

  whole :
      (is : List Item) (ss : List Bytes)
      → All (Sendable (server junk)) is
      → concat ss ≡ encode is
      → reads (server junk) (at (size_line []) []) (concat ss) ≡ at (size_line []) (messages is)
  whole is ss h e = rw e (reads-encode (server junk) limit-le-u64_max is [] h)

  -- A stream of keepalives and of requests within the size limit, cut into reads in any way, is
  -- received whole: the requests are queued in order, none is lost, and the parser waits for the
  -- next frame with an empty token.
  pub recv_all-encode :
      (is : List Item) (ss : List Bytes)
      → All (Sendable (server junk)) is
      → concat ss ≡ encode is
      → Reached
          (map some (messages is))
          (size_line [])
          (recv_all junk (received [] (new_parser size)) ss)
  recv_all-encode is ss h e =
      subst
        (λ r. Reached (map some r.out) r.mode (recv_all junk (received [] (new_parser size)) ss))
        (whole is ss h e)
        (Agrees-Reached (recv_all junk (received [] (new_parser size)) ss) _
          (λ f. size_line-ne-failed (ap (λ r. r.mode) (sym (whole is ss h e)) ∙ f))
          (fresh_reads ss))
