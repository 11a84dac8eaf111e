-- ===== src/Http/Receiving.antt =====
-- `performRecv` and `notDead` of network/HttpServer: what becomes of the bytes that come in.
use hiaux.Base.{
  ℕ, ◌≡◌, refl, ◌∙◌, List, [], ◌∷◌, ◌++◌, Bool, true, false, ◌||◌, Bytes, concat, arith, append-nil,
  if_both, sym, ap,
}
use mathlib.Core.Path.{subst}
use hiaux.Strings.Escape.{c_string}
use hiaux.Http.{
  Request, Connection, Callback, on_message_begin, on_status, on_url, on_headers_field,
  on_headers_value, on_headers_complete, on_body, on_message_complete, would_block,
}
use hiaux.Http.Input.{
  url_request, value_request, callback, callbacks, run_http, push_finished, after_read, after_loop,
  perform_recv,
}

-- The last part of a body that is reported, or else the body that there was.
abbrev pub last_body : List Callback → Bytes → Bytes
last_body [] body = body
last_body (on_body at ∷ ks) body = last_body ks (c_string at)
last_body (on_message_begin ∷ ks) body = last_body ks body
last_body (on_status ∷ ks) body = last_body ks body
last_body (on_url at ∷ ks) body = last_body ks body
last_body (on_headers_field at ∷ ks) body = last_body ks body
last_body (on_headers_value at ∷ ks) body = last_body ks body
last_body (on_headers_complete should ∷ ks) body = last_body ks body
last_body (on_message_complete ∷ ks) body = last_body ks body

-- Whether the end of a message is reported.
abbrev pub has_complete : List Callback → Bool
has_complete [] = false
has_complete (on_message_complete ∷ ks) = true
has_complete (on_body at ∷ ks) = has_complete ks
has_complete (on_message_begin ∷ ks) = has_complete ks
has_complete (on_status ∷ ks) = has_complete ks
has_complete (on_url at ∷ ks) = has_complete ks
has_complete (on_headers_field at ∷ ks) = has_complete ks
has_complete (on_headers_value at ∷ ks) = has_complete ks
has_complete (on_headers_complete should ∷ ks) = has_complete ks

module _ {Http Custom : Type 0} where
  module _ (unescape : Bytes → Bytes) where
    -- Of a body that the parser reports in several parts, the request keeps the last, up to its
    -- first NUL.
    pub callbacks-body :
        (ks : List Callback) (c : Connection Http Custom)
        → (callbacks unescape c ks).cur_http_request.body ≡ last_body ks c.cur_http_request.body
    unfolding callbacks callback url_request value_request
    callbacks-body [] c = refl
    callbacks-body (on_body at ∷ ks) c = callbacks-body ks (callback unescape c (on_body at))
    callbacks-body (on_message_begin ∷ ks) c =
        callbacks-body ks (callback unescape c on_message_begin)
    callbacks-body (on_status ∷ ks) c = callbacks-body ks (callback unescape c on_status)
    callbacks-body (on_url at ∷ ks) c = callbacks-body ks (callback unescape c (on_url at))
    callbacks-body (on_headers_field at ∷ ks) c =
        callbacks-body ks (callback unescape c (on_headers_field at))
    callbacks-body (on_headers_value at ∷ ks) c =
        callbacks-body ks (callback unescape c (on_headers_value at))
    callbacks-body (on_headers_complete s ∷ ks) c =
        callbacks-body ks (callback unescape c (on_headers_complete s))
    callbacks-body (on_message_complete ∷ ks) c =
        callbacks-body ks (callback unescape c on_message_complete)

    callback-http_requests :
        (k : Callback) (c : Connection Http Custom)
        → (callback unescape c k).http_requests ≡ c.http_requests
    unfolding callback
    callback-http_requests on_message_begin c = refl
    callback-http_requests on_status c = refl
    callback-http_requests (on_url at) c = refl
    callback-http_requests (on_headers_field at) c = refl
    callback-http_requests (on_headers_value at) c = refl
    callback-http_requests (on_headers_complete s) c = refl
    callback-http_requests (on_body at) c = refl
    callback-http_requests on_message_complete c = refl

    callbacks-http_requests :
        (ks : List Callback) (c : Connection Http Custom)
        → (callbacks unescape c ks).http_requests ≡ c.http_requests
    unfolding callbacks
    callbacks-http_requests [] c = refl
    callbacks-http_requests (k ∷ ks) c =
        callbacks-http_requests ks (callback unescape c k) ∙ callback-http_requests k c

    run_http-http_requests :
        (c : Connection Http Custom) (r : Http × List Callback)
        → (run_http unescape c r).http_requests ≡ c.http_requests
    unfolding run_http
    run_http-http_requests c (parser, ks) =
        callbacks-http_requests ks (record c { parser = parser })

    callbacks-request_finished :
        (ks : List Callback) (c : Connection Http Custom)
        → (callbacks unescape c ks).request_finished ≡ c.request_finished || has_complete ks
    unfolding callbacks callback
    callbacks-request_finished [] c = ground arith
    callbacks-request_finished (on_message_complete ∷ ks) c =
        callbacks-request_finished ks (callback unescape c on_message_complete) ∙ ground arith
    callbacks-request_finished (on_body at ∷ ks) c =
        callbacks-request_finished ks (callback unescape c (on_body at))
    callbacks-request_finished (on_message_begin ∷ ks) c =
        callbacks-request_finished ks (callback unescape c on_message_begin)
    callbacks-request_finished (on_status ∷ ks) c =
        callbacks-request_finished ks (callback unescape c on_status)
    callbacks-request_finished (on_url at ∷ ks) c =
        callbacks-request_finished ks (callback unescape c (on_url at))
    callbacks-request_finished (on_headers_field at ∷ ks) c =
        callbacks-request_finished ks (callback unescape c (on_headers_field at))
    callbacks-request_finished (on_headers_value at ∷ ks) c =
        callbacks-request_finished ks (callback unescape c (on_headers_value at))
    callbacks-request_finished (on_headers_complete s ∷ ks) c =
        callbacks-request_finished ks (callback unescape c (on_headers_complete s))

  -- The request that a read has finished, if it has.
  abbrev pub finished_request : Bool → Connection Http Custom → List Request
  finished_request true c = c.cur_http_request ∷ []
  finished_request false c = []

  -- The queue, and that the flag is down again.
  abbrev pub IsQueued : List Request → Connection Http Custom → Type 0
  IsQueued qs d = (d.http_requests ≡ qs) × (d.request_finished ≡ false)

  push_finished-IsQueued :
      (b : Bool) (c : Connection Http Custom)
      → c.request_finished ≡ b
      → IsQueued (c.http_requests ++ finished_request b c) (push_finished c)
  unfolding push_finished
  push_finished-IsQueued true c e =
      if_both (IsQueued (c.http_requests ++ c.cur_http_request ∷ [])) c.request_finished _ c
        (λ t. (refl, refl)) (λ f. absurd (ground arith))
  push_finished-IsQueued false c e =
      if_both (IsQueued (c.http_requests ++ [])) c.request_finished _ c (λ t. absurd (ground arith))
        (λ f. (sym (append-nil c.http_requests), e))

  module _ (unescape : Bytes → Bytes) (http_execute : Http → Bytes → Http × List Callback)
      (custom_execute : Custom → Bytes → Custom × List Bytes) where
    -- What the parser reports of the bytes read; without a byte it is not run.
    abbrev pub reported : Connection Http Custom → Bytes → List Callback
    reported c [] = []
    reported c (b ∷ s) = (http_execute c.parser (b ∷ s)).1

    -- The connection when the callbacks begin.
    abbrev pub begun : Connection Http Custom → Bytes → ℕ → Connection Http Custom
    begun c [] now = c
    begun c (b ∷ s) now = record c {
      last_activity_ts = now;
      parser = (http_execute c.parser (b ∷ s)).0;
    }

    after_loop-IsQueued :
        (c : Connection Http Custom) (readbf : Bytes) (now : ℕ)
        → c.custom_protocol ≡ false
        → c.request_finished ≡ false
        → IsQueued
            (c.http_requests
              ++ finished_request
                  (has_complete (reported c readbf))
                  (callbacks unescape (begun c readbf now) (reported c readbf)))
            (after_loop unescape http_execute custom_execute c readbf now)
    unfolding after_loop after_read callbacks run_http
    after_loop-IsQueued c [] now e f =
        if_both (IsQueued (c.http_requests ++ [])) c.custom_protocol c (push_finished c)
          (λ t. absurd (ground arith)) (λ t. push_finished-IsQueued false c f)
    after_loop-IsQueued c (b ∷ s) now e f =
        let ks = reported c (b ∷ s) in
        let d = begun c (b ∷ s) now in
        if_both
          (IsQueued
            (c.http_requests ++ finished_request (has_complete ks) (callbacks unescape d ks)))
          c.custom_protocol _ (push_finished (callbacks unescape d ks)) (λ t. absurd (ground arith))
          (λ t.
            subst
              (λ qs.
                IsQueued (qs ++ finished_request (has_complete ks) (callbacks unescape d ks))
                  (push_finished (callbacks unescape d ks)))
              (callbacks-http_requests unescape ks d)
              (push_finished-IsQueued (has_complete ks) (callbacks unescape d ks)
                (callbacks-request_finished unescape ks d ∙ ap (λ x. x || has_complete ks) f)))

    -- A connection that is not upgraded reads bytes until none is ready, and has no finished request
    -- beforehand. If the parser reports the end of a message, or of several, exactly one request is
    -- put behind the queue: the one that all the callbacks of this read have made together. If it
    -- reports none, the queue stays. Afterwards the connection again has no finished request.
    pub perform_recv-requests :
        (c : Connection Http Custom) (parts : List Bytes) (now : ℕ)
        → c.custom_protocol ≡ false
        → c.request_finished ≡ false
        → let d = perform_recv unescape http_execute custom_execute c parts would_block now in
          let ks = reported c (concat parts) in
          (d.http_requests
            ≡ c.http_requests
              ++ finished_request
                  (has_complete ks)
                  (callbacks unescape (begun c (concat parts) now) ks))
          × (d.request_finished ≡ false)
    unfolding perform_recv
    perform_recv-requests c parts now e f = after_loop-IsQueued c (concat parts) now e f
