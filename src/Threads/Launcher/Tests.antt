-- ===== src/Threads/Launcher/Tests.antt =====
-- Runs of the task launcher.
use hiaux.Base.{ℕ, List, [], ◌∷◌, ◌≡◌, refl, arith}
use hiaux.Threads.Launcher.{
  relaunch, no_relaunch, Event, add, run, no_more, resize, play, play_all, task_launcher, add_task,
  check_launch, launch_queued, launch, count_running, increment, run_task, run_found, after_task,
  end_task, check_finished, set_no_more_tasks,
}
use hiaux.Threads.Launcher.Invariant.{IsSound}
use hiaux.Threads.Launcher.Resizing.{play_all-IsSound}
use hiaux.Threads.Launcher.Drain.{run_front, add_all, run_front_complete}
use hiaux.Threads.Launcher.Ending.{IsOver}

-- Two at once of three tasks; the second is launched again.
abbrev three : List (Event ℕ)
three =
    add 10
    ∷ add 11
    ∷ add 12
    ∷ run 1 relaunch
    ∷ no_more
    ∷ run 0 no_relaunch
    ∷ run 0 no_relaunch
    ∷ run 0 no_relaunch
    ∷ []

three_calls : (play_all (task_launcher 2) three).finished_calls ≡ 1
unfolding play_all play run_task run_found set_no_more_tasks add_task check_launch launch_queued
    task_launcher count_running launch increment end_task check_finished after_task
three_calls = refl

-- Three at once, then one, with a task added behind the change.
abbrev resized : List (Event ℕ)
resized = add 10 ∷ add 11 ∷ add 12 ∷ resize 1 ∷ run 0 no_relaunch ∷ add 13 ∷ []

play_all-IsSound_example : IsSound 3 (play_all (task_launcher 2) resized)
play_all-IsSound_example =
    play_all-IsSound 3 2 resized (omega arith) (omega arith) (omega arith, tt)

-- `setNoMoreTasks` after the last task has ended does not call `onFinished`.
abbrev late : List (Event ℕ)
late = add 10 ∷ run 0 no_relaunch ∷ no_more ∷ []

late_calls : (play_all (task_launcher 2) late).finished_calls ≡ 0
unfolding play_all play run_task run_found set_no_more_tasks add_task check_launch launch_queued
    task_launcher count_running launch increment end_task check_finished after_task
late_calls = refl

run_front_complete_example :
    ((run_front {T = ℕ} 3 (set_no_more_tasks (add_all (task_launcher 2) (10 ∷ 11 ∷ 12 ∷ [])))).1
      ≡ 10 ∷ 11 ∷ 12 ∷ [])
    × IsOver
        (run_front {T = ℕ} 3 (set_no_more_tasks (add_all (task_launcher 2) (10 ∷ 11 ∷ 12 ∷ [])))).0
run_front_complete_example = run_front_complete 2 10 (11 ∷ 12 ∷ []) (omega arith) (omega arith)
