-- ===== src/HttpServer/Tests.antt =====
-- A server with one connection and two requests.
use hiaux.Base.{ℕ, List, [], ◌∷◌, Bytes, codes}
use hiaux.Http.{ResponseInfo, Callback, on_url, on_message_complete, would_block, wrote}
use hiaux.HttpServer.Events.{Event, accepts, reads, answers, queues, steps}
use hiaux.HttpServer.{served, HttpServer, fine, Round, returned, new_server, perform_accept}
use hiaux.HttpServer.Pacing.{IsServed}
use hiaux.HttpServer.Steps.{steps-IsServed}

-- Each read is a request of its URL; a custom parser takes each read as a request.
abbrev identity : Bytes → Bytes
identity s = s

abbrev http_execute : ℕ → Bytes → ℕ × List Callback
http_execute p s = (p, on_url s ∷ on_message_complete ∷ [])

abbrev custom_execute : ℕ → Bytes → ℕ × List Bytes
custom_execute p s = (p, s ∷ [])

abbrev info : ResponseInfo
info = record { content_type = codes "text/html"; server_name = codes "hiaux" }

-- A handler that sends a response of a custom protocol.
abbrev quiet : Round
quiet = record { sent = wrote 1000; sends_custom = (7, codes "b") ∷ []; end = returned }

abbrev events : List (Event ℕ ℕ)
events =
    accepts 0 3 (7 ∷ [])
    ∷ reads 7 (codes "/a " ∷ []) would_block 3 fine
    ∷ reads 7 (codes "/b " ∷ []) would_block 4 fine
    ∷ answers 0 (record { code = 200; body = []; headers = [] })
    ∷ queues (λ n. quiet) 3 4
    ∷ []

steps-IsServed_example : IsServed (
    steps identity http_execute custom_execute
      (served (record (new_server info) { custom_protocols = [] }))
      events)
steps-IsServed_example = steps-IsServed identity http_execute custom_execute info [] events

abbrev connected : HttpServer ℕ ℕ
connected = perform_accept (new_server info) 0 3 (7 ∷ [])
