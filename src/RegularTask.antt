-- ===== src/RegularTask.antt =====
-- tools/RegularTask.h and RegularTask.cpp: a task that is launched when a period is over. A check is one
-- step, at the time that `time` gives; the ticket of `tryLock` is not looked at. A launch of `m_task`
-- is logged with its time.
pub mod Pacing
mod Tests
use hiaux.Base.{ℕ, ◌+◌, ◌-◌, ◌%◌, ◌^◌, List, [], ◌∷◌, ◌++◌, ltb, if◌then◌else◌}

pub record RegularTask : Type 0 where
  pub last_launch_ts : ℕ
  pub period : ℕ
  pub launches : List ℕ

unfoldable pub regular_task : ℕ → RegularTask
regular_task period = record { last_launch_ts = 0; period = period; launches = [] }

-- `now - m_last_launch_ts` of two numbers below 2 ^ 64
unfoldable pub since_launch : ℕ → ℕ → ℕ
since_launch now last = (now + 2 ^ 64 - last) % 2 ^ 64

unfoldable pub check_run : RegularTask → ℕ → RegularTask
check_run t now =
    if ltb t.period (since_launch now t.last_launch_ts)
    then record t { last_launch_ts = now; launches = t.launches ++ now ∷ [] }
    else t

unfoldable pub check_runs : RegularTask → List ℕ → RegularTask
check_runs t [] = t
check_runs t (now ∷ rest) = check_runs (check_run t now) rest
