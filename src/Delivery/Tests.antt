-- ===== src/Delivery/Tests.antt =====
-- The delivery of a request and a keepalive, in pieces.
use hiaux.Base.{ℕ, refl, [], ◌∷◌, List, Bytes, codes, some, true, arith}
use hiaux.Framing.{size_line}
use hiaux.Text.Decimal.{print_u64}
use hiaux.BinClient.Connection.{wrote, minus_one, perform_send, add_request, check_keep_alive}
use hiaux.BinClient.Connection.Sending.{
  Event, adds, performs, keeps_alive, play_all, play, new_sender, ArePlayed,
}
use hiaux.BinServer.{received, new_parser}
use hiaux.BinServer.Stream.{recv_all}
use hiaux.BinServer.Delivery.{Reached}
use hiaux.Delivery.{delivered}

abbrev zero_junk : Bytes → ℕ
zero_junk line = 0

abbrev events : List Event
events =
    performs (wrote 71)
    ∷ keeps_alive 6 (minus_one true)
    ∷ adds (record { callback = 1; data_ = codes "ab" })
    ∷ performs (wrote 2)
    ∷ performs (wrote 3)
    ∷ []

events-ArePlayed : ArePlayed (new_sender 3 0 0) events
unfolding new_sender play perform_send add_request check_keep_alive print_u64
events-ArePlayed = (omega arith, (omega arith, (tt, (omega arith, (omega arith, tt)))))

delivered_example : Reached (some (codes "ab") ∷ []) (size_line []) (
    recv_all zero_junk
      (received [] (new_parser 0))
      (codes "k2" ∷ (10 ∷ codes "a") ∷ codes "b" ∷ []))
unfolding play_all new_sender play perform_send add_request check_keep_alive print_u64
delivered_example =
    delivered zero_junk 3 0 0 0 events (codes "k2" ∷ (10 ∷ codes "a") ∷ codes "b" ∷ [])
      events-ArePlayed (omega arith, tt) refl refl
