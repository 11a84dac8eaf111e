-- ===== src/Http.antt =====
-- network/HttpServer/Connection.h, Connection.impl and ConnectionParsing.impl: one connection of
-- `hiaux::HttpServer`, from the socket to its requests and from its responses to the socket.
pub mod Output
pub mod Input
pub mod Sending
pub mod Receiving
mod Tests
use hiaux.Base.{
  ℕ, ◌+◌, ◌-◌, ◌%◌, ◌^◌, ◌≡◌, List, [], ◌∷◌, ◌++◌, Bool, true, false, not, ◌&&◌, ◌||◌, Option, none,
  some, Bytes, codes, length, drop, concat, bytes_eq, ltb, leb, ◌==◌, if◌then◌else◌,
}
use hiaux.Base.Dict.{Dict, lookup, insert}
use hiaux.Text.Find.{find}
use hiaux.Text.Decimal.{print_u64}
use hiaux.Strings.FileNames.{path_before, get_url_path}
use hiaux.Strings.Escape.{c_string}
use hiaux.Strings.Query.{parse_get}
use hiaux.Strings.Cookies.{parse_cookies}

pub record Request : Type 0 where
  pub url : Bytes
  pub path : Bytes
  pub headers : Dict Bytes
  pub values_get : Dict Bytes
  pub cookies : Dict Bytes
  pub body : Bytes

abbrev pub new_request : Request
new_request = record { url = []; path = []; headers = []; values_get = []; cookies = []; body = [] }

pub record Response : Type 0 where
  pub code : ℕ
  pub body : Bytes
  pub headers : List Bytes

pub record ResponseInfo : Type 0 where
  pub content_type : Bytes
  pub server_name : Bytes

-- The states of the HTTP parser and of a custom parser are types of their own.
pub record Connection (Http Custom : Type 0) : Type 0 where
  pub custom_protocol : Bool
  pub waiting_last_handling : Bool
  pub custom_protocol_id : Bytes
  pub http_requests : List Request
  pub custom_requests : List Bytes
  pub create_ts : ℕ
  pub last_activity_ts : ℕ
  pub alive : Bool
  pub ever_sent : Bool
  pub keepalive : Bool
  pub request_finished : Bool
  pub res_headers : List Bytes
  pub cur_http_request : Request
  pub resp_info : ResponseInfo
  pub resps : List Bytes
  pub send_buffer : Bytes
  pub cur_header_field : Bytes
  pub parser : Http
  pub custom_parser : Option Custom

-- What the HTTP parser reports. `on_url` has the text from the URL to the end of the buffer, and
-- `on_headers_complete` the result of `http_should_keep_alive`.
pub data Callback : Type 0 where
  on_message_begin on_status : Callback
  on_url : Bytes → Callback
  on_headers_field : Bytes → Callback
  on_headers_value : Bytes → Callback
  on_headers_complete : Bool → Callback
  on_body : Bytes → Callback
  on_message_complete : Callback

-- How `::recv` ends the loop: `EWOULDBLOCK` or `EAGAIN`, another error, or 0.
pub data End : Type 0 where
  would_block failed closed : End

-- What `::send` returned: a positive count, or no more than 0 and whether `errno` is `EAGAIN` or
-- `EWOULDBLOCK`.
pub data Sent : Type 0 where
  wrote : ℕ → Sent
  nothing : Bool → Sent

module _ {Http Custom : Type 0} where
  unfoldable pub new_connection : Http → ResponseInfo → ℕ → Connection Http Custom
  new_connection parser resp_info now = record {
    custom_protocol = false;
    waiting_last_handling = false;
    custom_protocol_id = [];
    http_requests = [];
    custom_requests = [];
    create_ts = now;
    last_activity_ts = now;
    alive = true;
    ever_sent = false;
    keepalive = true;
    request_finished = false;
    res_headers = [];
    cur_http_request = new_request;
    resp_info = resp_info;
    resps = [];
    send_buffer = [];
    cur_header_field = [];
    parser = parser;
    custom_parser = none;
  }

  -- Differences of `uint64_t`.
  unfoldable pub not_dead : Connection Http Custom → ℕ → Bool
  not_dead c now =
      c.alive
      && (leb ((now + 2 ^ 64 - c.create_ts) % 2 ^ 64) 2
          || c.custom_protocol && ltb ((now + 2 ^ 64 - c.last_activity_ts) % 2 ^ 64) 60)
