-- ===== src/BinClient/Tests.antt =====
-- Runs of the client's connection, and its theorems at concrete traces.
use hiaux.Base.{ℕ, ◌≡◌, refl, [], ◌∷◌, List, Bytes, codes, arith, map, ◌++◌, true, false, drop}
use hiaux.Framing.{
  read_mode, read_greeting, read_size, read_line, read_body, end_line, start_body, body, greeting,
  reads,
}
use hiaux.Framing.Reads.{at}
use hiaux.Framing.Encoding.{encode, encode_item, encode_message, message, keep}
use hiaux.Text.Decimal.{print_u64, scan_u64}
use hiaux.Strings.Numbers.{string_to_uint64}
use hiaux.BinClient.Parser.{reading_message}
use hiaux.BinClient.Parser.Sized.{client}
use hiaux.BinClient.Connection.{
  Request, Connection, wrote, minus_one, send_out_of_range, hello, perform_send, new_connection,
  closed, chunk, active, add_request, read_loop, interrupted, read_out_of_fuel, perform_recv,
  recv_lost, received, on_bytes, check_keep_alive,
}
use hiaux.BinClient.Connection.Responses.{Agrees, on_bytes-Agrees}
use hiaux.BinClient.Connection.Reading.{perform_recv_closed, read_loop_interrupted}
use hiaux.BinClient.Connection.Sending.{
  Event, adds, performs, keeps_alive, perform_send_would_block, play_all_framed, play_all, play,
  new_sender, ArePlayed,
}
use hiaux.BinClient.Connection.Session
use hiaux.BinClient.Connection.Answers.{answers}
use hiaux.BinClient.Connection.Session.{
  run, sends, arrives, run_once, run-answers, called, accepted,
}

abbrev zero_junk : Bytes → ℕ
zero_junk line = 0

abbrev first : Request
first = record { callback = 1; data_ = codes "ab" }

abbrev second : Request
second = record { callback = 2; data_ = [] }

abbrev events : List Session.Event
events =
    sends first
    ∷ arrives (codes "hiapi_conn")
    ∷ sends second
    ∷ arrives (codes "ected2" ++ 10 ∷ codes "x")
    ∷ arrives (codes "y")
    ∷ []

events-IsAsked : Session.IsAsked zero_junk [] (at (greeting []) []) events
unfolding reads read_mode read_greeting read_size read_line read_body end_line start_body
    string_to_uint64 scan_u64
events-IsAsked = (omega arith, (omega arith, (omega arith, tt)))

run_once_example :
    called zero_junk (run zero_junk (received (new_connection 3 0 0) []) events)
    ≡ map (λ x. x.callback) (accepted zero_junk (received (new_connection 3 0 0) []) events)
run_once_example = run_once zero_junk 3 0 0 events events-IsAsked

run-answers_example :
    (c : Connection) × (run zero_junk (received (new_connection 3 0 0) []) events
      ≡ received c (
          answers
            (accepted zero_junk (received (new_connection 3 0 0) []) events)
            (codes "xy" ∷ [])))
    × (c.sent_requests ≡ drop 1 (accepted zero_junk (received (new_connection 3 0 0) []) events))
unfolding encode encode_item encode_message print_u64
run-answers_example =
    run-answers zero_junk 3 0 0 events (codes "xy" ∷ []) events-IsAsked (omega arith, tt) refl

-- A connection behind its handshake, with one request sent and half of its answer read.
abbrev halfway : Connection
halfway = record {
  parser = record {
    state = reading_message;
    cur_token = codes "x";
    size = 2;
    cur_response = [];
    got_response = false;
  };
  last_activity_ts = 0;
  keepalive_period = 5;
  sent_requests = first ∷ [];
  sock = 3;
  send_buffer = codes "k";
  state = active;
}

on_bytes-Agrees_example :
    Agrees
      (first ∷ [])
      (reads (client zero_junk) (at (body 2 (codes "x")) []) (codes "yz"))
      (on_bytes zero_junk halfway [] (codes "yz"))
on_bytes-Agrees_example =
    on_bytes-Agrees zero_junk (first ∷ []) [] halfway [] (codes "yz")
      (record { no_response = refl; waits = omega arith }) (refl, refl, omega arith)

perform_recv_closed_run :
    perform_recv zero_junk 9 halfway [] (chunk (codes "yz") ∷ closed ∷ []) ≡ recv_lost halfway []
perform_recv_closed_run = perform_recv_closed zero_junk (codes "yz" ∷ []) 9 halfway [] (omega arith)

read_loop_interrupted_run : read_loop 9 interrupted [] (codes "a") ≡ read_out_of_fuel
read_loop_interrupted_run = read_loop_interrupted 9 [] (codes "a")

perform_send_would_block_run : perform_send halfway (minus_one true) ≡ send_out_of_range halfway
perform_send_would_block_run = perform_send_would_block halfway (λ e. cc) (omega arith)

abbrev sending : List Event
sending =
    performs (wrote 20)
    ∷ adds first
    ∷ performs (minus_one true)
    ∷ performs (wrote 55)
    ∷ keeps_alive 6 (wrote 1)
    ∷ []

sending-ArePlayed : ArePlayed (new_sender 3 0 0) sending
unfolding new_sender play perform_send add_request check_keep_alive print_u64
sending-ArePlayed = (omega arith, (tt, (omega arith, (omega arith, (omega arith, tt)))))

play_all_framed_example :
    (play_all (new_sender 3 0 0) sending).wire
      ++ (play_all (new_sender 3 0 0) sending).conn.send_buffer
    ≡ hello ++ encode (play_all (new_sender 3 0 0) sending).items
play_all_framed_example = play_all_framed 3 0 0 sending sending-ArePlayed

sending_ends : (play_all (new_sender 3 0 0) sending).items ≡ message (codes "ab") ∷ keep ∷ []
unfolding play_all new_sender play perform_send add_request check_keep_alive print_u64
sending_ends = refl
