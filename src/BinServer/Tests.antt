-- ===== src/BinServer/Tests.antt =====
-- Runs of the server's parser, and its theorems at concrete streams.
use hiaux.Base.{ℕ, ◌≡◌, refl, [], ◌∷◌, List, Bytes, some, codes, arith, ◌++◌}
use hiaux.Framing.{size_line}
use hiaux.Framing.Encoding.{Item, keep, message, encode, encode_item, encode_message}
use hiaux.Text.Decimal.{print_u64}
use hiaux.BinServer.{Parser, received, new_parser, reading_message}
use hiaux.BinServer.Stream.{recv_all}
use hiaux.BinServer.Delivery.{Reached, recv_all-encode}

abbrev zero_junk : Bytes → ℕ
zero_junk line = 0

-- A message of five bytes of which two are there.
abbrev half_read : Parser
half_read = record (new_parser 0) { state = reading_message; size = 5; cur_token = codes "ab" }

abbrev stream : List Item
stream = keep ∷ message (codes "hello") ∷ message [] ∷ keep ∷ keep ∷ []

abbrev cuts : List Bytes
cuts = codes "k5" ∷ [] ∷ (10 ∷ codes "hel") ∷ (codes "lo0" ++ 10 ∷ codes "kk") ∷ []

encode-stream : encode stream ≡ codes "k5" ++ 10 ∷ codes "hello0" ++ 10 ∷ codes "kk"
unfolding encode encode_item encode_message print_u64
encode-stream = refl

recv_all-encode_example :
    Reached
      (some (codes "hello") ∷ some [] ∷ [])
      (size_line [])
      (recv_all zero_junk (received [] (new_parser 7)) cuts)
unfolding encode encode_item encode_message print_u64
recv_all-encode_example =
    recv_all-encode zero_junk 7 stream cuts (refl, (omega arith, (omega arith, (refl, (refl, tt)))))
      refl
