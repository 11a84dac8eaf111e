-- ===== src/Threads/Launcher.antt =====
-- threads/tasklauncher.h and threads/tasklauncher.cpp. A call is one step: no other call runs between
-- its reads of the counters. A task is any value, and what it returns is an argument. `m_pool` is the
-- list of the tasks given to it whose `Task` has not run, and `m_onFinished` a count of its calls.
pub mod Counters
pub mod Invariant
pub mod Resizing
pub mod Ending
pub mod Drain
mod Tests
use hiaux.Base.{
  ℕ, suc, ◌+◌, ◌-◌, ◌%◌, ◌^◌, List, [], ◌∷◌, ◌++◌, Bool, true, false, not, ◌&&◌, length, take, drop,
  get_elem?, ltb, ◌==◌, if◌then◌else◌, Option, none, some,
}

pub data TaskRet : Type 0 where
  relaunch no_relaunch : TaskRet

-- `std::queue::empty`
abbrev pub is_empty {ℓ} : {A : Type ℓ} → List A → Bool
is_empty [] = true
is_empty (x ∷ xs) = false

-- `tasks_launched++` of an atomic `size_t`
unfoldable pub increment : ℕ → ℕ
increment n = (n + 1) % 2 ^ 64

module _ (T : Type 0) where
  pub record TaskLauncher : Type 0 where
    pub pool : List T
    pub task_q : List T
    pub tasks_launched : ℕ
    pub tasks_finished : ℕ
    pub all_tasks_launched : Bool
    pub all_tasks_finished : Bool
    pub max_parallel : ℕ
    pub no_more_tasks : Bool
    pub finish_locked : Bool
    pub finished_calls : ℕ

  -- A call from outside, or the run of the pool's task at a place.
  pub data Event : Type 0 where
    add : T → Event
    run : ℕ → TaskRet → Event
    no_more : Event
    resize : ℕ → Event

module _ {T : Type 0} where
  unfoldable pub task_launcher : ℕ → TaskLauncher T
  task_launcher max_parallel = record {
    pool = [];
    task_q = [];
    tasks_launched = 0;
    tasks_finished = 0;
    all_tasks_launched = false;
    all_tasks_finished = false;
    max_parallel = max_parallel;
    no_more_tasks = false;
    finish_locked = false;
    finished_calls = 0;
  }

  unfoldable pub count_running : TaskLauncher T → ℕ
  count_running l = (l.tasks_launched + 2 ^ 64 - l.tasks_finished) % 2 ^ 64

  unfoldable pub launch : TaskLauncher T → T → TaskLauncher T
  launch l task = record l {
    tasks_launched = increment l.tasks_launched;
    pool = l.pool ++ task ∷ [];
  }

  -- The rounds of the loop, on what the queue holds.
  unfoldable pub launch_queued : List T → TaskLauncher T → TaskLauncher T
  launch_queued [] l = record l { task_q = [] }
  launch_queued (f ∷ q) l =
      if ltb (count_running l) l.max_parallel
      then launch_queued q (launch l f)
      else record l { task_q = f ∷ q }

  unfoldable pub check_launch : TaskLauncher T → TaskLauncher T
  check_launch l = launch_queued l.task_q l

  unfoldable pub add_task : TaskLauncher T → T → TaskLauncher T
  add_task l task = check_launch (record l { task_q = l.task_q ++ task ∷ [] })

  -- Where all tasks have finished before, the lock stays taken.
  unfoldable pub check_finished : TaskLauncher T → TaskLauncher T
  check_finished l =
      if (l.tasks_launched == l.tasks_finished) && (l.no_more_tasks && is_empty l.task_q)
      then (if l.finish_locked
          then l
          else (if l.all_tasks_finished
              then record l { finish_locked = true }
              else record l { all_tasks_finished = true; finished_calls = suc l.finished_calls }))
      else l

  unfoldable pub after_task : TaskLauncher T → T → TaskRet → TaskLauncher T
  after_task l task relaunch = add_task l task
  after_task l task no_relaunch = l

  -- The end of `Task` for the pool's task number `i`.
  unfoldable pub end_task : TaskLauncher T → ℕ → TaskLauncher T
  end_task l i = check_finished (
      check_launch (record l {
        pool = take i l.pool ++ drop (suc i) l.pool;
        tasks_finished = increment l.tasks_finished;
      }))

  unfoldable pub run_found : TaskLauncher T → ℕ → TaskRet → Option T → TaskLauncher T
  run_found l i ret none = l
  run_found l i ret (some task) = end_task (after_task l task ret) i

  -- `Task` for the pool's task number `i`, which returns `ret`.
  unfoldable pub run_task : TaskLauncher T → ℕ → TaskRet → TaskLauncher T
  run_task l i ret = run_found l i ret (get_elem? l.pool i)

  unfoldable pub set_max_parallel : TaskLauncher T → ℕ → TaskLauncher T
  set_max_parallel l max_parallel = record l { max_parallel = max_parallel }

  unfoldable pub set_no_more_tasks : TaskLauncher T → TaskLauncher T
  set_no_more_tasks l = record l { no_more_tasks = true }

  unfoldable pub play : TaskLauncher T → Event T → TaskLauncher T
  play l (add task) = add_task l task
  play l (run i ret) = run_task l i ret
  play l no_more = set_no_more_tasks l
  play l (resize m) = set_max_parallel l m

  unfoldable pub play_all : TaskLauncher T → List (Event T) → TaskLauncher T
  play_all l [] = l
  play_all l (e ∷ es) = play_all (play l e) es
