-- ===== src/Http/Input.antt =====
-- What a connection of network/HttpServer reads: the callbacks of ConnectionParsing.impl, and
-- `performRecv` and `checkUpgrade` of Connection.impl.
use hiaux.Base.{
  ℕ, List, [], ◌∷◌, ◌++◌, Bool, true, false, ◌&&◌, ◌||◌, Option, none, some, Bytes, codes, concat,
  bytes_eq, if◌then◌else◌,
}
use hiaux.Base.Dict.{lookup, insert}
use hiaux.Text.Find.{find}
use hiaux.Strings.FileNames.{path_before, get_url_path}
use hiaux.Strings.Escape.{c_string}
use hiaux.Strings.Query.{unescape_url, parse_get}
use hiaux.Strings.Cookies.{parse_cookies}
use hiaux.Http.{
  Request, new_request, Connection, Callback, on_message_begin, on_status, on_url, on_headers_field,
  on_headers_value, on_headers_complete, on_body, on_message_complete, End, would_block, failed,
  closed,
}

-- `unescape` is libcurl's.
unfoldable pub url_request : (Bytes → Bytes) → Request → Bytes → Request
url_request unescape q url = record q {
  url = url;
  path = get_url_path url;
  values_get = parse_get (unescape_url unescape) url q.values_get;
}

unfoldable pub value_request : Request → Bytes → Bytes → Request
value_request q field val = record q {
  headers = insert field val q.headers;
  cookies = if bytes_eq field (codes "Cookie") then parse_cookies val q.cookies else q.cookies;
}

module _ {Http Custom : Type 0} where
  unfoldable pub push_finished : Connection Http Custom → Connection Http Custom
  push_finished c =
      if c.request_finished
      then record c {
        http_requests = c.http_requests ++ c.cur_http_request ∷ [];
        cur_http_request = new_request;
        request_finished = false;
      }
      else c

  -- The callbacks of ConnectionParsing.impl; `unescape` is libcurl's.
  module _ (unescape : Bytes → Bytes) where
    unfoldable pub callback : Connection Http Custom → Callback → Connection Http Custom
    callback c on_message_begin = c
    callback c on_status = c
    callback c (on_url at) = record c {
      cur_http_request =
          url_request unescape c.cur_http_request
            (path_before (c_string at) (find b' ' (c_string at)));
    }
    callback c (on_headers_field at) = record c { cur_header_field = c_string at }
    callback c (on_headers_value at) = record c {
      cur_http_request = value_request c.cur_http_request c.cur_header_field (c_string at);
      keepalive =
          bytes_eq c.cur_header_field (codes "Connection")
            && bytes_eq (c_string at) (codes "keep-alive")
          || c.keepalive;
    }
    callback c (on_headers_complete should) = record c { keepalive = should }
    callback c (on_body at) = record c {
      cur_http_request = record c.cur_http_request { body = c_string at };
    }
    callback c on_message_complete = record c { request_finished = true }

    unfoldable pub callbacks : Connection Http Custom → List Callback → Connection Http Custom
    callbacks c [] = c
    callbacks c (k ∷ ks) = callbacks (callback c k) ks

    unfoldable pub run_http : Connection Http Custom → Http × List Callback → Connection Http Custom
    run_http c (parser, ks) = callbacks (record c { parser = parser }) ks

    -- `http_execute` is the HTTP parser; `custom_execute` a custom parser: `execute`, then its
    -- requests until `hasRequest` is false.
    module _ (http_execute : Http → Bytes → Http × List Callback)
        (custom_execute : Custom → Bytes → Custom × List Bytes) where
      unfoldable pub run_custom :
          Connection Http Custom → Option Custom → Bytes → Connection Http Custom
      run_custom c none readbf = c
      run_custom c (some p) readbf =
          let (p', requests) = custom_execute p readbf in
          record c { custom_parser = some p'; custom_requests = c.custom_requests ++ requests }

      unfoldable pub after_read : Connection Http Custom → Bytes → ℕ → Connection Http Custom
      after_read c readbf now =
          if c.custom_protocol
          then run_custom (record c { last_activity_ts = now }) c.custom_parser readbf
          else push_finished
              (run_http (record c { last_activity_ts = now }) (http_execute c.parser readbf))

      -- Without any byte read, only what has been finished is pushed.
      unfoldable pub after_loop : Connection Http Custom → Bytes → ℕ → Connection Http Custom
      after_loop c [] now = if c.custom_protocol then c else push_finished c
      after_loop c (b ∷ readbf) now = after_read c (b ∷ readbf) now

      -- What the calls of `::recv` returned: parts, and the end.
      unfoldable pub perform_recv :
          Connection Http Custom → List Bytes → End → ℕ → Connection Http Custom
      perform_recv c parts failed now = record c { alive = false }
      perform_recv c parts closed now = record c { alive = false }
      perform_recv c parts would_block now = after_loop c (concat parts) now

  -- `make` is `m_getCustomParser`: a parser and a handshake. The result has what
  -- `sendCustomResponse` is called with.
  unfoldable pub upgrade_to :
      Connection Http Custom
      → Bytes
      → Option Custom × Bytes
      → Connection Http Custom × (List Bytes × Bool)
  upgrade_to c protocol (none, handshake) = (record c { custom_parser = none }, ([], false))
  upgrade_to c protocol (some p, handshake) = (
    record c {
      custom_parser = some p;
      custom_protocol = true;
      custom_protocol_id = protocol;
      waiting_last_handling = false;
    },
    (handshake ∷ [], true),
  )

  unfoldable pub upgrade_header :
      (Bytes → Request → Option Custom × Bytes)
      → Connection Http Custom
      → Request
      → Option Bytes
      → Connection Http Custom × (List Bytes × Bool)
  upgrade_header make c q none = (c, ([], false))
  upgrade_header make c q (some protocol) = upgrade_to c protocol (make protocol q)

  unfoldable pub check_upgrade :
      (Bytes → Request → Option Custom × Bytes)
      → Connection Http Custom
      → Request
      → Connection Http Custom × (List Bytes × Bool)
  check_upgrade make c q = upgrade_header make c q (lookup (codes "Upgrade") q.headers)
