-- ===== src/BinClient/Client/Tests.antt =====
-- A pool of one connection, which is lost.
use hiaux.Base.{ℕ, List, [], ◌∷◌, length, ◌≡◌, refl, some, sum_of}
use hiaux.BinClient.Connection.{hello, wrote, new_connection, perform_send}
use hiaux.BinClient.Connection.Requests.{request_weight}
use hiaux.BinClient.Client.{
  BinClientA, Dial, handled, insert, establish_new_connection, establish_on, establish_made,
}
use hiaux.BinClient.Client.Conserved.{HasTotal}
use hiaux.BinClient.Client.Handlers.{
  Turn, fails, writes, new_client, bin_client_a, reinit_connections, checked_client,
  connections_count,
}
use hiaux.BinClient.Client.History.{Act, asks, handles, asked, live, live-answered}

abbrev dials : ℕ → Dial
dials n = record { socket = some 5; now = 1000; size = 0; sent = wrote (length hello) }

abbrev pool : BinClientA
pool = record {
  connections = (5, record (new_connection 5 1000 0) { send_buffer = [] }) ∷ [];
  free_connections = [];
  new_requests = [];
  max_connections = 1;
  calls = [];
}

constructed : bin_client_a 1 dials ≡ some pool
unfolding bin_client_a checked_client reinit_connections establish_new_connection establish_on
    establish_made perform_send new_connection new_client insert connections_count
constructed = refl

abbrev one_turn : Turn
one_turn = record {
  dial = dials 0;
  put = wrote 0;
  now = 1001;
  keep = λ sock. wrote 1;
  events = writes 5 (wrote 3) (dials 1) ∷ fails 5 (dials 2) ∷ [];
}

abbrev acts : List Act
acts = asks (record { callback = 3; data_ = 65 ∷ [] }) ∷ handles one_turn ∷ []

live-answered_example :
    HasTotal
      (λ k. k)
      (sum_of (request_weight (λ k. k)) (asked acts))
      (live length (handled pool) acts)
live-answered_example = live-answered (λ k. k) length 1 dials pool constructed acts
