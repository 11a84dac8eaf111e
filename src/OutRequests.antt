-- ===== src/OutRequests.antt =====
-- network/HttpOutReqDisp.h and HttpOutReqDisp.cpp: the dispatcher of outgoing requests over the client of
-- network/HttpClientAsync.cpp. The tasks given to `m_launcher` run in any order. A requester is a number
-- and is added once, of fewer than 2^31; what its virtual functions do besides being called is later events. The loop of
-- `kickTask` is the events `receives` and `kicks`.
pub mod Delivered
mod Tests
use hiaux.Base.{
  ℕ, zero, suc, ◌+◌, List, [], ◌∷◌, ◌++◌, Bool, true, false, Bytes, get_elem?, ◌==◌, if◌then◌else◌,
  Option, none, some,
}
use hiaux.HttpAsync.{
  JobInfo, HttpClientAsync, Message, async_call, async_call_post, receive, perform_transfers,
}

pub record OutRequestInfo : Type 0 where
  pub reqid : ℕ
  pub requester_callid : ℕ

pub data OutTask : Type 0 where
  call_task : OutRequestInfo → Bytes → OutTask
  call_post_task : OutRequestInfo → Bytes → Bytes → OutTask
  call_done_task : JobInfo OutRequestInfo → OutTask
  add_requester_task : ℕ → OutTask
  requester_finished_task : ℕ → OutTask

-- The calls of a requester's functions, and the answers that came too late.
pub data Told : Type 0 where
  started : ℕ → Told
  call_done : ℕ → OutRequestInfo → Bool → Bytes → Told
  no_requester : OutRequestInfo → Told

pub record HttpOutRequestDisp : Type 0 where
  pub req_id : ℕ
  pub requesters : List (ℕ × ℕ)
  pub http_client : HttpClientAsync OutRequestInfo
  pub tasks : List OutTask
  pub told : List Told

unfoldable pub new_dispatcher : HttpOutRequestDisp
new_dispatcher = record {
  req_id = 0;
  requesters = [];
  http_client = record { e_curls = []; transfers = []; launched = [] };
  tasks = [];
  told = [];
}

abbrev pub remove_at {ℓ} : {A : Type ℓ} → List A → ℕ → List A
remove_at [] i = []
remove_at (x ∷ xs) zero = xs
remove_at (x ∷ xs) (suc i) = x ∷ remove_at xs i

unfoldable pub find_requester : ℕ → List (ℕ × ℕ) → Option ℕ
find_requester id [] = none
find_requester id ((k, r) ∷ t) = if k == id then some r else find_requester id t

unfoldable pub erase_requester : ℕ → List (ℕ × ℕ) → List (ℕ × ℕ)
erase_requester id [] = []
erase_requester id ((k, r) ∷ t) = if k == id then t else (k, r) ∷ erase_requester id t

unfoldable pub insert_requester : ℕ → ℕ → List (ℕ × ℕ) → List (ℕ × ℕ)
insert_requester id r [] = (id, r) ∷ []
insert_requester id r ((k, q) ∷ t) =
    if k == id then (k, q) ∷ t else (k, q) ∷ insert_requester id r t

unfoldable pub launch : HttpOutRequestDisp → OutTask → HttpOutRequestDisp
launch d t = record d { tasks = d.tasks ++ t ∷ [] }

-- `onCall`, which `Requester::call` calls with the requester's id.
unfoldable pub on_call : HttpOutRequestDisp → OutRequestInfo → Bytes → HttpOutRequestDisp
on_call d q url = launch d (call_task q url)

unfoldable pub on_call_post :
    HttpOutRequestDisp → OutRequestInfo → Bytes → Bytes → HttpOutRequestDisp
on_call_post d q url postdata = launch d (call_post_task q url postdata)

unfoldable pub on_call_done : HttpOutRequestDisp → JobInfo OutRequestInfo → HttpOutRequestDisp
on_call_done d j = launch d (call_done_task j)

unfoldable pub add_requester : HttpOutRequestDisp → ℕ → HttpOutRequestDisp
add_requester d r = launch d (add_requester_task r)

unfoldable pub on_requester_finished : HttpOutRequestDisp → ℕ → HttpOutRequestDisp
on_requester_finished d id = launch d (requester_finished_task id)

unfoldable pub tell : HttpOutRequestDisp → Told → HttpOutRequestDisp
tell d t = record d { told = d.told ++ t ∷ [] }

-- `finished` is what the requester says after the call.
unfoldable pub call_done_found :
    HttpOutRequestDisp → JobInfo OutRequestInfo → Bool → Option ℕ → HttpOutRequestDisp
call_done_found d j finished none = tell d (no_requester j.userdata)
call_done_found d j finished (some r) =
    let t = tell d (call_done r j.userdata j.success j.resp) in
    if finished then on_requester_finished t j.userdata.reqid else t

-- The bodies of the tasks; `h` is the handle that libcurl gives.
unfoldable pub on_call_task : HttpOutRequestDisp → ℕ → OutRequestInfo → Bytes → HttpOutRequestDisp
on_call_task d h q url = record d { http_client = async_call d.http_client h q url }

unfoldable pub on_call_post_task :
    HttpOutRequestDisp → ℕ → OutRequestInfo → Bytes → Bytes → HttpOutRequestDisp
on_call_post_task d h q url postdata = record d {
  http_client = async_call_post d.http_client h q url postdata;
}

unfoldable pub on_call_done_task :
    HttpOutRequestDisp → Bool → JobInfo OutRequestInfo → HttpOutRequestDisp
on_call_done_task d finished j =
    call_done_found d j finished (find_requester j.userdata.reqid d.requesters)

-- `addRequesterTask`
unfoldable pub enter_requester : HttpOutRequestDisp → ℕ → HttpOutRequestDisp
enter_requester d r =
    tell
      (record d {
        req_id = suc d.req_id;
        requesters = insert_requester (suc d.req_id) r d.requesters;
      })
      (started r)

-- `onRequesterFinishedTask`
unfoldable pub leave_requester : HttpOutRequestDisp → ℕ → HttpOutRequestDisp
leave_requester d id = record d { requesters = erase_requester id d.requesters }

unfoldable pub run_out_task : HttpOutRequestDisp → ℕ → Bool → OutTask → HttpOutRequestDisp
run_out_task d h finished (call_task q url) = on_call_task d h q url
run_out_task d h finished (call_post_task q url postdata) = on_call_post_task d h q url postdata
run_out_task d h finished (call_done_task j) = on_call_done_task d finished j
run_out_task d h finished (add_requester_task r) = enter_requester d r
run_out_task d h finished (requester_finished_task id) = leave_requester d id

unfoldable pub run_taken : HttpOutRequestDisp → ℕ → ℕ → Bool → Option OutTask → HttpOutRequestDisp
run_taken d i h finished none = d
run_taken d i h finished (some t) =
    run_out_task (record d { tasks = remove_at d.tasks i }) h finished t

-- `callHandler`, which calls `onCallDone`.
unfoldable pub handle_taken :
    HttpOutRequestDisp → ℕ → Option (JobInfo OutRequestInfo) → HttpOutRequestDisp
handle_taken d i none = d
handle_taken d i (some j) =
    on_call_done
      (record d {
        http_client = record d.http_client { launched = remove_at d.http_client.launched i };
      })
      j

pub data OutEvent : Type 0 where
  calls : OutRequestInfo → Bytes → OutEvent
  posts : OutRequestInfo → Bytes → Bytes → OutEvent
  adds : ℕ → OutEvent
  runs : ℕ → ℕ → Bool → OutEvent
  handles : ℕ → OutEvent
  receives : ℕ → Bytes → OutEvent
  kicks : List Message → OutEvent

unfoldable pub out_step : HttpOutRequestDisp → OutEvent → HttpOutRequestDisp
out_step d (calls q url) = on_call d q url
out_step d (posts q url postdata) = on_call_post d q url postdata
out_step d (adds r) = add_requester d r
out_step d (runs i h finished) = run_taken d i h finished (get_elem? d.tasks i)
out_step d (handles i) = handle_taken d i (get_elem? d.http_client.launched i)
out_step d (receives h s) = record d { http_client = receive d.http_client h s }
out_step d (kicks ms) = record d { http_client = perform_transfers d.http_client ms }

unfoldable pub out_steps : HttpOutRequestDisp → List OutEvent → HttpOutRequestDisp
out_steps d [] = d
out_steps d (e ∷ es) = out_steps (out_step d e) es
