-- ===== src/Threads/Pool/Tests.antt =====
-- Schedules of the thread pool.
use hiaux.Base.{ℕ, List, [], ◌∷◌, ◌≡◌, refl}
use hiaux.Threads.Pool.{
  user, add, Pool, Event, thread, caller, wake, start_pool, steps, step, move_found, call_found,
  wake_found, new_threads, move, new_thread, set_thread, go_on, pop_local, pop_global, call,
  add_task, set_caller, test_wait, kick,
}
use hiaux.Threads.Pool.Conserved.{total, steps-total}

-- One thread, and a caller of `addTask`.
abbrev one_task : Pool ℕ
one_task = start_pool 1 (add (user 7) ∷ [])

-- The thread finds the global queue empty; the caller finds no thread waiting; the thread waits.
abbrev missed : List Event
missed =
    thread 0
    ∷ thread 0
    ∷ thread 0
    ∷ thread 0
    ∷ thread 0
    ∷ caller 0
    ∷ caller 0
    ∷ thread 0
    ∷ thread 0
    ∷ thread 0
    ∷ thread 0
    ∷ []

steps-total_example : total (λ n. n) (steps one_task missed) ≡ total (λ n. n) one_task
steps-total_example = steps-total (λ n. n) missed one_task

-- The task stays in the global queue while the only thread is blocked: no step but a wake-up without
-- a signal changes the pool, and after one the thread is blocked again.
missed_stuck :
    steps (steps one_task missed) (thread 0 ∷ caller 0 ∷ thread 0 ∷ []) ≡ steps one_task missed
unfolding start_pool steps step move_found call_found wake_found new_threads move new_thread
    set_thread go_on pop_local pop_global call add_task set_caller test_wait kick
missed_stuck = refl

missed_woken :
    steps (steps one_task missed) (wake 0 ∷ thread 0 ∷ thread 0 ∷ []) ≡ steps one_task missed
unfolding start_pool steps step move_found call_found wake_found new_threads move new_thread
    set_thread go_on pop_local pop_global call add_task set_caller test_wait kick
missed_woken = refl

missed_queue : (steps one_task missed).task_queue ≡ user 7 ∷ []
unfolding start_pool steps step move_found call_found wake_found new_threads move new_thread
    set_thread go_on pop_local pop_global call add_task set_caller test_wait kick
missed_queue = refl
