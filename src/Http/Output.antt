-- ===== src/Http/Output.antt =====
-- The responses of network/HttpServer/Connection.impl: headers, `renderResponse`, `performSend`.
use hiaux.Base.{
  ℕ, List, [], ◌∷◌, ◌++◌, Bool, true, false, not, ◌&&◌, Bytes, codes, length, drop, ltb, ◌==◌,
  if◌then◌else◌,
}
use hiaux.Text.Decimal.{print_u64}
use hiaux.Http.{Response, Connection, Sent, wrote, nothing}

unfoldable pub cookie_header : Bytes → Bytes → Bytes
cookie_header name value =
    codes "Set-Cookie: "
    ++ (name ++ (codes "=" ++ (value ++ codes "; expires=Sat, 31 Dec 2039 23:59:59 GMT")))

abbrev pub crlf : Bytes
crlf = b'\r' ∷ b'\n' ∷ []

unfoldable pub lines : List Bytes → Bytes
lines [] = []
lines (h ∷ hs) = h ++ (crlf ++ lines hs)

module _ {Http Custom : Type 0} where
  unfoldable pub add_header : Connection Http Custom → Bytes → Connection Http Custom
  add_header c header = record c { res_headers = c.res_headers ++ header ∷ [] }

  unfoldable pub set_cookie : Connection Http Custom → Bytes → Bytes → Connection Http Custom
  set_cookie c name value = record c {
    res_headers = c.res_headers ++ cookie_header name value ∷ [];
  }

  -- The time and the body's size are smaller than 2^31, and the code is not negative.
  unfoldable pub render_response : Connection Http Custom → Response → ℕ → Bytes
  render_response c r now =
      lines (
        (codes "HTTP/1.1 " ++ print_u64 r.code)
        ∷ (codes "Content-Type: " ++ c.resp_info.content_type)
        ∷ (codes "Date: " ++ print_u64 now)
        ∷ (codes "Server: " ++ c.resp_info.server_name)
        ∷ (if c.keepalive then codes "Connection: Keep-Alive" else codes "Connection: close")
        ∷ codes "Transfer-Encoding: none"
        ∷ r.headers)
      ++ (lines c.res_headers
          ++ (lines ((codes "Content-Length: " ++ print_u64 (length r.body)) ∷ [] ∷ []) ++ r.body))

  unfoldable pub add_response : Connection Http Custom → Response → ℕ → Connection Http Custom
  add_response c r now = record c { resps = c.resps ++ render_response c r now ∷ [] }

  unfoldable pub add_custom_response : Connection Http Custom → Bytes → Connection Http Custom
  add_custom_response c r = record c { resps = c.resps ++ r ∷ [] }

  -- Behind `::send`, with the result of `performSend`.
  unfoldable pub send_result : Connection Http Custom → Sent → ℕ → Connection Http Custom × Bool
  send_result c (nothing again) now =
      (record c { ever_sent = true; alive = c.alive && again }, false)
  send_result c (wrote n) now =
      if ltb n (length c.send_buffer)
      then (
        record c { ever_sent = true; last_activity_ts = now; send_buffer = drop n c.send_buffer },
        false,
      )
      else (record c { ever_sent = true; last_activity_ts = now; send_buffer = [] }, true)

  -- The first response that waits becomes the buffer.
  unfoldable pub next_response :
      Connection Http Custom → List Bytes → Sent → ℕ → Connection Http Custom × Bool
  next_response c [] r now = (c, false)
  next_response c (resp ∷ resps) r now =
      send_result (record c { send_buffer = resp; resps = resps }) r now

  unfoldable pub perform_send : Connection Http Custom → Sent → ℕ → Connection Http Custom × Bool
  perform_send c r now =
      if length c.send_buffer == 0
      then (if c.ever_sent && not c.keepalive
          then (record c { alive = false }, false)
          else next_response c c.resps r now)
      else send_result c r now
