-- ===== src/OutRequests/Tests.antt =====
-- The dispatcher of outgoing requests on one requester and one answered call.
use hiaux.Base.{ℕ, ◌≤◌, List, [], ◌∷◌, true, false, sum_of}
use hiaux.HttpAsync.{Message}
use hiaux.OutRequests.{
  OutRequestInfo, new_dispatcher, OutEvent, calls, adds, runs, handles, receives, kicks, out_steps,
}
use hiaux.OutRequests.Delivered.{asked, told_weight, out_steps_answers}

abbrev info : OutRequestInfo
info = record { reqid = 1; requester_callid = 7 }

abbrev done : Message
done = record { easy_handle = 9; is_done = true; is_ok = true }

abbrev callid : OutRequestInfo → ℕ
callid q = q.requester_callid

abbrev events : List OutEvent
events =
    adds 4
    ∷ runs 0 0 false
    ∷ calls info (47 ∷ [])
    ∷ runs 0 9 false
    ∷ receives 9 (65 ∷ [])
    ∷ kicks (done ∷ [])
    ∷ handles 0
    ∷ runs 0 0 true
    ∷ []

out_steps_answers_example :
    sum_of (told_weight callid) (out_steps new_dispatcher events).told
    ≤ sum_of callid (asked events)
out_steps_answers_example = out_steps_answers callid events
