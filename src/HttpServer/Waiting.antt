-- ===== src/HttpServer/Waiting.antt =====
-- The response that a connection waits for before its next request is handled.
use hiaux.Base.{
  ℕ, ◌≡◌, refl, ◌∙◌, List, [], ◌∷◌, Bool, true, false, not, Bytes, length, ◌==◌, Option, none, some,
  if_both, ltb, concat, codes, ◌&&◌,
}
use hiaux.Base.Dict.{lookup}
use hiaux.Http.{
  Request, Connection, Callback, on_message_begin, on_status, on_url, on_headers_field,
  on_headers_value, on_headers_complete, on_body, on_message_complete, End, would_block, failed,
  closed, Sent, wrote, nothing,
}
use hiaux.Http.Input.{
  push_finished, callback, callbacks, run_http, run_custom, after_read, after_loop, perform_recv,
  check_upgrade, upgrade_header, upgrade_to,
}
use hiaux.Http.Output.{send_result, next_response, perform_send}

-- The flag is left alone by what a connection receives and sends.
module _ {Http Custom : Type 0} where
  abbrev Keeps : Connection Http Custom → Connection Http Custom → Type 0
  Keeps c d = d.waiting_last_handling ≡ c.waiting_last_handling

  push_finished-Keeps : (c : Connection Http Custom) → Keeps c (push_finished c)
  unfolding push_finished
  push_finished-Keeps c = if_both (Keeps c) c.request_finished _ c (λ e. refl) (λ e. refl)

  module _ (unescape : Bytes → Bytes) where
    callback-Keeps : (c : Connection Http Custom) (k : Callback) → Keeps c (callback unescape c k)
    unfolding callback
    callback-Keeps c on_message_begin = refl
    callback-Keeps c on_status = refl
    callback-Keeps c (on_url at) = refl
    callback-Keeps c (on_headers_field at) = refl
    callback-Keeps c (on_headers_value at) = refl
    callback-Keeps c (on_headers_complete should) = refl
    callback-Keeps c (on_body at) = refl
    callback-Keeps c on_message_complete = refl

    pub callbacks-waiting :
        (ks : List Callback) (c : Connection Http Custom)
        → (callbacks unescape c ks).waiting_last_handling ≡ c.waiting_last_handling
    unfolding callbacks
    callbacks-waiting [] c = refl
    callbacks-waiting (k ∷ ks) c = callbacks-waiting ks (callback unescape c k) ∙ callback-Keeps c k

    module _ (http_execute : Http → Bytes → Http × List Callback)
        (custom_execute : Custom → Bytes → Custom × List Bytes) where
      run_custom-Keeps :
          (c : Connection Http Custom) (p : Option Custom) (readbf : Bytes)
          → Keeps c (run_custom unescape http_execute custom_execute c p readbf)
      unfolding run_custom
      run_custom-Keeps c none readbf = refl
      run_custom-Keeps c (some p) readbf = refl

      after_read-Keeps :
          (c : Connection Http Custom) (readbf : Bytes) (now : ℕ)
          → Keeps c (after_read unescape http_execute custom_execute c readbf now)
      unfolding after_read run_http
      after_read-Keeps c readbf now =
          if_both (Keeps c) c.custom_protocol _ _
            (λ e. run_custom-Keeps (record c { last_activity_ts = now }) c.custom_parser readbf)
            (λ e.
              push_finished-Keeps _
              ∙ callbacks-waiting (http_execute c.parser readbf).1
                  (record c { last_activity_ts = now; parser = (http_execute c.parser readbf).0 }))

      pub perform_recv-waiting :
          (c : Connection Http Custom) (parts : List Bytes) (end : End) (now : ℕ)
          → (perform_recv unescape http_execute custom_execute c parts end
              now).waiting_last_handling
            ≡ c.waiting_last_handling
      unfolding perform_recv after_loop
      perform_recv-waiting c parts failed now = refl
      perform_recv-waiting c parts closed now = refl
      perform_recv-waiting c parts would_block now = go (concat parts)
        where
          go : (s : Bytes) → Keeps c (after_loop unescape http_execute custom_execute c s now)
          go [] =
              if_both (Keeps c) c.custom_protocol c (push_finished c) (λ e. refl)
                (λ e. push_finished-Keeps c)
          go (b ∷ s) = after_read-Keeps c (b ∷ s) now

  send_result-Keeps :
      (c : Connection Http Custom) (r : Sent) (now : ℕ) → Keeps c (send_result c r now).0
  unfolding send_result
  send_result-Keeps c (nothing again) now = refl
  send_result-Keeps c (wrote n) now =
      if_both (λ (x : Connection Http Custom × Bool). Keeps c x.0) (ltb n (length c.send_buffer)) _
        _ (λ e. refl) (λ e. refl)

  pub perform_send-waiting :
      (c : Connection Http Custom) (r : Sent) (now : ℕ)
      → (perform_send c r now).0.waiting_last_handling ≡ c.waiting_last_handling
  unfolding perform_send next_response
  perform_send-waiting c r now =
      if_both (λ (x : Connection Http Custom × Bool). Keeps c x.0) (length c.send_buffer == 0) _
        (send_result c r now)
        (λ e.
          if_both (λ (x : Connection Http Custom × Bool). Keeps c x.0)
            (c.ever_sent && not c.keepalive) (record c { alive = false }, false) _ (λ d. refl)
            (λ d. go c.resps))
        (λ e. send_result-Keeps c r now)
    where
      go : (resps : List Bytes) → Keeps c (next_response c resps r now).0
      go [] = refl
      go (resp ∷ resps) = send_result-Keeps (record c { send_buffer = resp; resps = resps }) r now

  -- After an upgrade the flag is down.
  abbrev IsUp : Connection Http Custom × (List Bytes × Bool) → Type 0
  IsUp (c, (hs, up)) = c.waiting_last_handling ≡ not up

  pub check_upgrade-IsUp :
      (make : Bytes → Request → Option Custom × Bytes) (c : Connection Http Custom) (q : Request)
      → c.waiting_last_handling ≡ true
      → IsUp (check_upgrade make c q)
  unfolding check_upgrade upgrade_header upgrade_to
  check_upgrade-IsUp make c q h = go (lookup (codes "Upgrade") q.headers)
    where
      go_to : (protocol : Bytes) (m : Option Custom × Bytes) → IsUp (upgrade_to c protocol m)
      go_to protocol (none, handshake) = h
      go_to protocol (some p, handshake) = refl

      go : (o : Option Bytes) → IsUp (upgrade_header make c q o)
      go none = h
      go (some protocol) = go_to protocol (make protocol q)
