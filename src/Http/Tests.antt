-- ===== src/Http/Tests.antt =====
-- The theorems on the server's connection at concrete calls.
use hiaux.Base.{ℕ, ◌≡◌, refl, List, [], ◌∷◌, ◌++◌, true, false, none, Bytes, codes, arith}
use hiaux.Http.{
  ResponseInfo, Connection, Callback, on_url, on_body, on_message_complete, would_block, wrote,
  nothing, new_connection,
}
use hiaux.Http.Output.{perform_send, add_custom_response, send_result, next_response}
use hiaux.Http.Input.{callbacks, perform_recv}
use hiaux.Http.Sending.{
  Event, responds_custom, sends, Line, ArePlayed, play_all-IsWhole, perform_send-last,
}
use hiaux.Http.Receiving.{last_body, callbacks-body, begun, perform_recv-requests}

abbrev same : Bytes → Bytes
same s = s

abbrev server : ResponseInfo
server = record { content_type = codes "text/html"; server_name = codes "s" }

abbrev fresh : Connection ℕ ℕ
fresh = record {
  custom_protocol = false;
  waiting_last_handling = false;
  custom_protocol_id = [];
  http_requests = [];
  custom_requests = [];
  create_ts = 100;
  last_activity_ts = 100;
  alive = true;
  ever_sent = false;
  keepalive = true;
  request_finished = false;
  res_headers = [];
  cur_http_request = record {
    url = [];
    path = [];
    headers = [];
    values_get = [];
    cookies = [];
    body = [];
  };
  resp_info = server;
  resps = [];
  send_buffer = [];
  cur_header_field = [];
  parser = 0;
  custom_parser = none;
}

fresh-new : new_connection 0 server 100 ≡ fresh
unfolding new_connection
fresh-new = refl

abbrev start : Line ℕ ℕ
start = record { conn = fresh; wire = []; added = [] }

abbrev events : List Event
events =
    responds_custom (codes "abc")
    ∷ sends (wrote 2) 101
    ∷ responds_custom (codes "de")
    ∷ sends (nothing true) 101
    ∷ sends (wrote 1) 102
    ∷ sends (wrote 2) 102
    ∷ []

events-ArePlayed : ArePlayed start events
unfolding add_custom_response perform_send send_result next_response
events-ArePlayed = (tt, (omega arith, (tt, (tt, (omega arith, (omega arith, tt))))))

play_all-IsWhole_example : codes "abcde" ++ [] ≡ codes "abcde"
unfolding add_custom_response perform_send send_result next_response
play_all-IsWhole_example = play_all-IsWhole events start events-ArePlayed refl

perform_send-last_example :
    ((perform_send
        (perform_send
          (record fresh { send_buffer = codes "x"; keepalive = false; resps = codes "y" ∷ [] })
          (wrote 1)
          101).0
        (wrote 1)
        101).0.alive
      ≡ false)
    × ((perform_send
          (perform_send
            (record fresh { send_buffer = codes "x"; keepalive = false; resps = codes "y" ∷ [] })
            (wrote 1)
            101).0
          (wrote 1)
          101).0.resps
        ≡ codes "y" ∷ [])
    × ((perform_send
          (perform_send
            (record fresh { send_buffer = codes "x"; keepalive = false; resps = codes "y" ∷ [] })
            (wrote 1)
            101).0
          (wrote 1)
          101).1
        ≡ false)
perform_send-last_example =
    perform_send-last
      (record fresh { send_buffer = codes "x"; keepalive = false; resps = codes "y" ∷ [] }) b'x' []
      (wrote 1) 101 101 refl refl

callbacks-body_example :
    (callbacks same fresh
      (on_body (codes "first") ∷ on_body (codes "second") ∷ [])).cur_http_request.body
    ≡ last_body (on_body (codes "first") ∷ on_body (codes "second") ∷ []) []
callbacks-body_example =
    callbacks-body same (on_body (codes "first") ∷ on_body (codes "second") ∷ []) fresh

-- A parser that reports two whole requests.
abbrev two_requests : ℕ → Bytes → ℕ × List Callback
two_requests state s = (
  state,
  on_url (codes "/a HTTP")
      ∷ on_message_complete
      ∷ on_url (codes "/b HTTP")
      ∷ on_message_complete
      ∷ [],
)

abbrev no_custom : ℕ → Bytes → ℕ × List Bytes
no_custom state s = (state, [])

perform_recv-requests_example :
    let d = perform_recv same two_requests no_custom fresh (codes "GET" ∷ []) would_block 101 in
    (d.http_requests
      ≡ (callbacks same
          (begun same two_requests no_custom fresh (codes "GET") 101)
          (two_requests 0 (codes "GET")).1).cur_http_request
        ∷ [])
    × (d.request_finished ≡ false)
perform_recv-requests_example =
    perform_recv-requests same two_requests no_custom fresh (codes "GET" ∷ []) 101 refl refl
