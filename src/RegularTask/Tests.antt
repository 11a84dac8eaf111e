-- ===== src/RegularTask/Tests.antt =====
-- A regular task with a period of 10, checked four times.
use hiaux.Base.{ℕ, ◌+◌, ◌≤◌, List, [], ◌∷◌, ◌++◌, arith}
use hiaux.RegularTask.{regular_task, check_runs}
use hiaux.RegularTask.Pacing.{IsPaced, latest, check_runs-IsPaced}

abbrev times : List ℕ
times = 100 ∷ 105 ∷ 111 ∷ []

check_runs-IsPaced_example :
    IsPaced 10 0 (check_runs (regular_task 10) (times ++ 120 ∷ [])).launches
    × (120 ≤ latest 0 (check_runs (regular_task 10) (times ++ 120 ∷ [])).launches + 10)
check_runs-IsPaced_example = check_runs-IsPaced 10 120 times (
  omega arith,
  (
    omega arith,
    (omega arith, (omega arith, (omega arith, (omega arith, (omega arith, (omega arith, tt)))))),
  ),
)
