-- ===== src/BinClient/Client/Handlers.antt =====
-- The calls of network/HttpApi/BinClient/BinClientA.cpp, its handlers of socket events, `handleEvents`
-- and the constructor.
use hiaux.Base.{
  ℕ, zero, suc, List, [], ◌∷◌, ◌++◌, Bool, true, false, Bytes, length, ltb, ◌==◌, if◌then◌else◌,
  Option, none, some,
}
use hiaux.BinClient.Connection.{
  Request, State, handshaking, active, terminating, Connection, Sent, SendOutcome, sent_on,
  send_lost, send_out_of_range, perform_send, add_request, check_keep_alive, Nread, perform_recv,
}
use hiaux.BinClient.Client.{
  find, set, put_free, erase_free, BinClientA, Dial, Handled, establish_new_connection,
  on_lost_connection, send_handled, recv_handled, handled, undefined, endless,
}

unfoldable pub is_active : State → Bool
is_active handshaking = false
is_active active = true
is_active terminating = false

unfoldable pub read_found :
    (Bytes → ℕ) → BinClientA → ℕ → ℕ → List Nread → Dial → Option Connection → Handled
read_found junk b sock fuel ns d none = handled b
read_found junk b sock fuel ns d (some c) =
    recv_handled b sock d (perform_recv junk fuel c b.calls ns)

-- `onRead`, with the fuel and the trace of `Connection::performRecv`.
unfoldable pub on_read : (Bytes → ℕ) → BinClientA → ℕ → ℕ → List Nread → Dial → Handled
on_read junk b sock fuel ns d = read_found junk b sock fuel ns d (find sock b.connections)

unfoldable pub write_idle : BinClientA → ℕ → Connection → Sent → Dial → List Request → BinClientA
write_idle b sock c r d [] = record b { free_connections = put_free sock b.free_connections }
write_idle b sock c r d (req ∷ reqs) =
    send_handled (record b { new_requests = reqs }) sock d (perform_send (add_request c req) r)

unfoldable pub write_found : BinClientA → ℕ → Sent → Dial → Option Connection → BinClientA
write_found b sock r d none = b
write_found b sock r d (some c) =
    if length c.send_buffer == 0
    then (if is_active c.state
        then write_idle b sock c r d b.new_requests
        else send_handled (record b { free_connections = put_free sock b.free_connections }) sock d
            (perform_send c r))
    else send_handled b sock d (perform_send c r)

unfoldable pub on_write : BinClientA → ℕ → Sent → Dial → BinClientA
on_write b sock r d = write_found b sock r d (find sock b.connections)

unfoldable pub error_found : BinClientA → ℕ → Dial → Option Connection → BinClientA
error_found b sock d none = b
error_found b sock d (some c) = on_lost_connection b sock c d

unfoldable pub on_error : BinClientA → ℕ → Dial → BinClientA
on_error b sock d = error_found b sock d (find sock b.connections)

-- `call`, with the serialized request; `callSigned` does nothing.
unfoldable pub call : BinClientA → Request → BinClientA
call b req = record b { new_requests = b.new_requests ++ req ∷ [] }

-- `erase(it)` after `performSend` has erased the free connection.
unfoldable pub put_sent : BinClientA → ℕ → SendOutcome → Handled
put_sent b sock (sent_on c) = handled (record b {
  connections = set sock c b.connections;
  free_connections = erase_free sock b.free_connections;
})
put_sent b sock (send_lost c) = undefined
put_sent b sock (send_out_of_range c) = handled (record b {
  connections = set sock c b.connections;
  free_connections = erase_free sock b.free_connections;
})

-- A free connection, and what the loop does behind it; the first active one gets the request.
unfoldable pub put_found :
    BinClientA → Request → List Request → Sent → ℕ → Handled → Option Connection → Handled
put_found b req reqs r sock next none = next
put_found b req reqs r sock next (some c) =
    if is_active c.state
    then put_sent (record b { new_requests = reqs }) sock (perform_send (add_request c req) r)
    else next

-- The loop over the free connections, with the first request and those behind it.
unfoldable pub put_loop : BinClientA → Request → List Request → Sent → List ℕ → Handled
put_loop b req reqs r [] = handled b
put_loop b req reqs r (sock ∷ socks) =
    put_found b req reqs r sock (put_loop b req reqs r socks) (find sock b.connections)

unfoldable pub put_first : BinClientA → Sent → List Request → Handled
put_first b r [] = handled b
put_first b r (req ∷ reqs) = put_loop b req reqs r b.free_connections

unfoldable pub put_requests_to_free_connections : BinClientA → Sent → Handled
put_requests_to_free_connections b r = put_first b r b.new_requests

-- What `checkKeepAlive` leaves of the connections, and whether `LostConnectionEx` or `out_of_range` left
-- the loop; each connection has its result of `::send`.
unfoldable pub keep_alive_next :
    ℕ
    → SendOutcome
    → List (ℕ × Connection)
    → List (ℕ × Connection) × Bool
    → List (ℕ × Connection) × Bool
keep_alive_next sock (sent_on c) cs rest = ((sock, c) ∷ rest.0, rest.1)
keep_alive_next sock (send_lost c) cs rest = ((sock, c) ∷ cs, true)
keep_alive_next sock (send_out_of_range c) cs rest = ((sock, c) ∷ cs, true)

unfoldable pub keep_alive_loop :
    ℕ → (ℕ → Sent) → List (ℕ × Connection) → List (ℕ × Connection) × Bool
keep_alive_loop now r [] = ([], false)
keep_alive_loop now r ((sock, c) ∷ cs) =
    keep_alive_next sock (check_keep_alive c now (r sock)) cs (keep_alive_loop now r cs)

unfoldable pub check_all_keep_alive : BinClientA → ℕ → (ℕ → Sent) → BinClientA × Bool
check_all_keep_alive b now r =
    let kept = keep_alive_loop now r b.connections in (record b { connections = kept.0 }, kept.1)

-- What the event watcher calls.
pub data Io : Type 0 where
  reads : ℕ → ℕ → List Nread → Dial → Io
  writes : ℕ → Sent → Dial → Io
  fails : ℕ → Dial → Io

unfoldable pub io : (Bytes → ℕ) → BinClientA → Io → Handled
io junk b (reads sock fuel ns d) = on_read junk b sock fuel ns d
io junk b (writes sock r d) = handled (on_write b sock r d)
io junk b (fails sock d) = handled (on_error b sock d)

unfoldable pub then_io : (Bytes → ℕ) → Handled → List Io → Handled
then_io junk h [] = h
then_io junk (handled b) (e ∷ es) = then_io junk (io junk b e) es
then_io junk undefined (e ∷ es) = undefined
then_io junk endless (e ∷ es) = endless

-- One `handleEvents`: the results of its calls and the events of the watcher.
pub record Turn : Type 0 where
  pub dial : Dial
  pub put : Sent
  pub now : ℕ
  pub keep : ℕ → Sent
  pub events : List Io

-- What an exception leaves out is left out.
unfoldable pub after_put : (Bytes → ℕ) → Turn → Handled → Handled
after_put junk t undefined = undefined
after_put junk t endless = endless
after_put junk t (handled b) =
    let kept = check_all_keep_alive b t.now t.keep in
    if kept.1 then handled kept.0 else then_io junk (handled kept.0) t.events

unfoldable pub handle_connected : (Bytes → ℕ) → Turn → BinClientA × Bool → Handled
handle_connected junk t (b, true) = handled b
handle_connected junk t (b, false) = after_put junk t (put_requests_to_free_connections b t.put)

unfoldable pub handle_events : (Bytes → ℕ) → BinClientA → Turn → Handled
handle_events junk b t = handle_connected junk t (
    if ltb (length b.connections) b.max_connections
    then establish_new_connection b t.dial
    else (b, false))

unfoldable pub new_client : ℕ → BinClientA
new_client max_connections = record {
  connections = [];
  free_connections = [];
  new_requests = [];
  max_connections = max_connections;
  calls = [];
}

-- `reinitConnections`, which an exception of `Connection` leaves.
unfoldable pub reinit_connections : ℕ → (ℕ → Dial) → BinClientA → Option BinClientA
reinit_connections zero dials b = some b
reinit_connections (suc n) dials b =
    let made = establish_new_connection b (dials n) in
    let rest = reinit_connections n dials made.0 in if made.1 then none else rest

unfoldable pub connections_count : BinClientA → ℕ
connections_count b = length b.connections

unfoldable pub checked_client : Option BinClientA → Option BinClientA
checked_client none = none
checked_client (some b) = if connections_count b == 0 then none else some b

-- The constructor, `none` if it throws; the dials are counted down.
unfoldable pub bin_client_a : ℕ → (ℕ → Dial) → Option BinClientA
bin_client_a max_connections dials =
    checked_client (reinit_connections max_connections dials (new_client max_connections))
