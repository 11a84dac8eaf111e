-- ===== src/OutRequests/Delivered.antt =====
-- The answers of the dispatcher against the calls that were made.
use hiaux.Base.{
  ℕ, zero, suc, ◌+◌, ◌≤◌, ◌≡◌, refl, List, [], ◌∷◌, ◌++◌, Bool, Bytes, get_elem?, Option, none,
  some, arith, if_both, sum_of, sum_of-append,
}
use hiaux.HttpAsync.{
  JobInfo, HttpClientAsync, Message, find_job, set_job, erase_job, insert_job, new_job, async_call,
  async_call_post, receive_found, receive, done_found, perform_transfers,
}
use hiaux.OutRequests.{
  OutRequestInfo, OutTask, call_task, call_post_task, call_done_task, add_requester_task,
  requester_finished_task, Told, started, call_done, no_requester, HttpOutRequestDisp,
  new_dispatcher, remove_at, find_requester, launch, on_call, on_call_post, on_call_done,
  insert_requester, add_requester, on_requester_finished, tell, call_done_found, on_call_task,
  on_call_post_task, on_call_done_task, enter_requester, leave_requester, run_out_task, run_taken,
  handle_taken, OutEvent, calls, posts, adds, runs, handles, receives, kicks, out_step, out_steps,
}

sum_of-remove_at :
    {A : Type 0} (f : A → ℕ) (xs : List A) (i : ℕ) (x : A)
    → get_elem? xs i ≡ some x
    → sum_of f (remove_at xs i) + f x ≡ sum_of f xs
sum_of-remove_at f [] i x h = ground arith
sum_of-remove_at f (y ∷ xs) zero x h = ground arith
sum_of-remove_at f (y ∷ xs) (suc i) x h = omega (arith, sum_of-remove_at f xs i x h)

-- The calls that requesters have asked for.
abbrev pub asked : List OutEvent → List OutRequestInfo
asked [] = []
asked (calls q url ∷ es) = q ∷ asked es
asked (posts q url postdata ∷ es) = q ∷ asked es
asked (e ∷ es) = asked es

module _ (w : OutRequestInfo → ℕ) where
  abbrev pub job_weight : JobInfo OutRequestInfo → ℕ
  job_weight j = w j.userdata

  abbrev pub slot_weight : ℕ × JobInfo OutRequestInfo → ℕ
  slot_weight (h, j) = job_weight j

  abbrev pub task_weight : OutTask → ℕ
  task_weight (call_task q url) = w q
  task_weight (call_post_task q url postdata) = w q
  task_weight (call_done_task j) = job_weight j
  task_weight (add_requester_task r) = 0
  task_weight (requester_finished_task id) = 0

  abbrev pub told_weight : Told → ℕ
  told_weight (started r) = 0
  told_weight (call_done r q success resp) = w q
  told_weight (no_requester q) = w q

  abbrev pub client_total : HttpClientAsync OutRequestInfo → ℕ
  client_total c = sum_of slot_weight c.e_curls + sum_of job_weight c.launched

  abbrev pub out_total : HttpOutRequestDisp → ℕ
  out_total d = sum_of task_weight d.tasks + client_total d.http_client + sum_of told_weight d.told

  insert_job-weight :
      (h : ℕ) (i : JobInfo OutRequestInfo) (t : List (ℕ × JobInfo OutRequestInfo))
      → sum_of slot_weight (insert_job h i t) ≤ sum_of slot_weight t + job_weight i
  unfolding insert_job
  insert_job-weight h i [] = omega arith
  insert_job-weight h i ((k, j) ∷ t) = ground (arith, insert_job-weight h i t)

  set_job-weight :
      (h : ℕ) (j i : JobInfo OutRequestInfo) (t : List (ℕ × JobInfo OutRequestInfo))
      → find_job h t ≡ some j
      → sum_of slot_weight (set_job h i t) + job_weight j ≡ sum_of slot_weight t + job_weight i
  unfolding find_job set_job
  set_job-weight h j i [] e = ground arith
  set_job-weight h j i ((k, l) ∷ t) e = ground (arith, set_job-weight h j i t)

  erase_job-weight :
      (h : ℕ) (j : JobInfo OutRequestInfo) (t : List (ℕ × JobInfo OutRequestInfo))
      → find_job h t ≡ some j
      → sum_of slot_weight (erase_job h t) + job_weight j ≡ sum_of slot_weight t
  unfolding find_job erase_job
  erase_job-weight h j [] e = ground arith
  erase_job-weight h j ((k, l) ∷ t) e = ground (arith, erase_job-weight h j t)

  receive-total :
      (c : HttpClientAsync OutRequestInfo) (h : ℕ) (s : Bytes)
      → client_total (receive c h s) ≡ client_total c
  unfolding receive receive_found
  receive-total c h s = go (find_job h c.e_curls) refl
    where
      go :
          (o : Option (JobInfo OutRequestInfo))
          → find_job h c.e_curls ≡ o
          → client_total (receive_found c h s o) ≡ client_total c
      go none e = refl
      go (some j) e =
          omega (arith, set_job-weight h j (record j { resp = j.resp ++ s }) c.e_curls e)

  done_found-total :
      (c : HttpClientAsync OutRequestInfo) (h : ℕ) (ok : Bool) (o : Option (JobInfo OutRequestInfo))
      → find_job h c.e_curls ≡ o
      → client_total (done_found c h ok o) ≡ client_total c
  unfolding done_found
  done_found-total c h ok none e = refl
  done_found-total c h ok (some j) e = omega (
    arith,
    erase_job-weight h j c.e_curls e,
    sum_of-append job_weight c.launched (record j { success = ok } ∷ []),
  )

  perform_transfers-total :
      (ms : List Message) (c : HttpClientAsync OutRequestInfo)
      → client_total (perform_transfers c ms) ≡ client_total c
  unfolding perform_transfers
  perform_transfers-total [] c = refl
  perform_transfers-total (m ∷ ms) c =
      if_both (λ d. client_total (perform_transfers d ms) ≡ client_total c) m.is_done _ c
        (λ e. omega (
          arith,
          perform_transfers-total ms
              (done_found c m.easy_handle m.is_ok (find_job m.easy_handle c.e_curls)),
          done_found-total c m.easy_handle m.is_ok (find_job m.easy_handle c.e_curls) refl,
        ))
        (λ e. perform_transfers-total ms c)

  launch-total :
      (d : HttpOutRequestDisp) (t : OutTask) → out_total (launch d t) ≡ out_total d + task_weight t
  unfolding launch
  launch-total d t = omega (arith, sum_of-append task_weight d.tasks (t ∷ []))

  tell-total :
      (d : HttpOutRequestDisp) (t : Told) → out_total (tell d t) ≡ out_total d + told_weight t
  unfolding tell
  tell-total d t = omega (arith, sum_of-append told_weight d.told (t ∷ []))

  call_done_found-total :
      (d : HttpOutRequestDisp) (j : JobInfo OutRequestInfo) (finished : Bool) (o : Option ℕ)
      → out_total (call_done_found d j finished o) ≡ out_total d + job_weight j
  unfolding call_done_found on_requester_finished
  call_done_found-total d j finished none = tell-total d (no_requester j.userdata)
  call_done_found-total d j finished (some r) =
      let t : HttpOutRequestDisp = tell d (call_done r j.userdata j.success j.resp) in
      if_both (λ x. out_total x ≡ out_total d + job_weight j) finished
        (launch t (requester_finished_task j.userdata.reqid)) t
        (λ e. omega (
          arith,
          launch-total t (requester_finished_task j.userdata.reqid),
          tell-total d (call_done r j.userdata j.success j.resp),
        ))
        (λ e. tell-total d (call_done r j.userdata j.success j.resp))

  run_out_task-total :
      (d : HttpOutRequestDisp) (h : ℕ) (finished : Bool) (t : OutTask)
      → out_total (run_out_task d h finished t) ≤ out_total d + task_weight t
  unfolding run_out_task on_call_task on_call_post_task on_call_done_task enter_requester
      leave_requester async_call async_call_post new_job
  run_out_task-total d h finished (call_task q url) =
      omega (arith, insert_job-weight h (new_job q []) d.http_client.e_curls)
  run_out_task-total d h finished (call_post_task q url postdata) =
      omega (arith, insert_job-weight h (new_job q postdata) d.http_client.e_curls)
  run_out_task-total d h finished (call_done_task j) =
      omega
        (arith, call_done_found-total d j finished (find_requester j.userdata.reqid d.requesters))
  run_out_task-total d h finished (add_requester_task r) = omega (
    arith,
    tell-total
        (record d {
          req_id = suc d.req_id;
          requesters = insert_requester (suc d.req_id) r d.requesters;
        })
        (started r),
  )
  run_out_task-total d h finished (requester_finished_task id) = omega arith

  run_taken-total :
      (d : HttpOutRequestDisp) (i h : ℕ) (finished : Bool) (o : Option OutTask)
      → get_elem? d.tasks i ≡ o
      → out_total (run_taken d i h finished o) ≤ out_total d
  unfolding run_taken
  run_taken-total d i h finished none e = omega arith
  run_taken-total d i h finished (some t) e = omega (
    arith,
    run_out_task-total (record d { tasks = remove_at d.tasks i }) h finished t,
    sum_of-remove_at task_weight d.tasks i t e,
  )

  handle_taken-total :
      (d : HttpOutRequestDisp) (i : ℕ) (o : Option (JobInfo OutRequestInfo))
      → get_elem? d.http_client.launched i ≡ o
      → out_total (handle_taken d i o) ≡ out_total d
  unfolding handle_taken on_call_done
  handle_taken-total d i none e = refl
  handle_taken-total d i (some j) e =
      let c : HttpOutRequestDisp = record d {
        http_client = record d.http_client { launched = remove_at d.http_client.launched i };
      } in
      omega (
        arith,
        launch-total c (call_done_task j),
        sum_of-remove_at job_weight d.http_client.launched i j e,
      )

  pub out_steps-total_from :
      (es : List OutEvent) (d : HttpOutRequestDisp)
      → out_total (out_steps d es) ≤ out_total d + sum_of w (asked es)
  unfolding out_steps out_step on_call on_call_post add_requester
  out_steps-total_from [] d = omega arith
  out_steps-total_from (calls q url ∷ es) d = omega (
    arith,
    out_steps-total_from es (launch d (call_task q url)),
    launch-total d (call_task q url),
  )
  out_steps-total_from (posts q url postdata ∷ es) d = omega (
    arith,
    out_steps-total_from es (launch d (call_post_task q url postdata)),
    launch-total d (call_post_task q url postdata),
  )
  out_steps-total_from (adds r ∷ es) d = omega (
    arith,
    out_steps-total_from es (launch d (add_requester_task r)),
    launch-total d (add_requester_task r),
  )
  out_steps-total_from (runs i h finished ∷ es) d = omega (
    arith,
    out_steps-total_from es (run_taken d i h finished (get_elem? d.tasks i)),
    run_taken-total d i h finished (get_elem? d.tasks i) refl,
  )
  out_steps-total_from (handles i ∷ es) d = omega (
    arith,
    out_steps-total_from es (handle_taken d i (get_elem? d.http_client.launched i)),
    handle_taken-total d i (get_elem? d.http_client.launched i) refl,
  )
  out_steps-total_from (receives h s ∷ es) d = omega (
    arith,
    out_steps-total_from es (record d { http_client = receive d.http_client h s }),
    receive-total d.http_client h s,
  )
  out_steps-total_from (kicks ms ∷ es) d = omega (
    arith,
    out_steps-total_from es (record d { http_client = perform_transfers d.http_client ms }),
    perform_transfers-total ms d.http_client,
  )

  -- On a new dispatcher, requesters are added, calls are asked for, the launched tasks run in any order, and
  -- libcurl delivers bytes and messages, in any order: each weight of the calls, summed over the answers given
  -- to requesters and those that found no requester, is at most its sum over the calls asked for. So a
  -- call is answered at most once, and every answer belongs to a call.
  pub out_steps_answers :
      (es : List OutEvent)
      → sum_of told_weight (out_steps new_dispatcher es).told ≤ sum_of w (asked es)
  unfolding new_dispatcher
  out_steps_answers es = omega (arith, out_steps-total_from es new_dispatcher)
