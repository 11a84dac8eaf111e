-- ===== src/Threads/Pool.antt =====
-- threads/threadpool.h and threads/threadpool.cpp. The pool's threads and the callers of `addTask` and
-- `kill` are interleaved in any order: what one of them does between two releases of a lock is one
-- step. A thread is named by its place. The thread's condition variable is the waiter `hCondWaiter` of
-- threads/locks.cpp.
pub mod Conserved
mod Tests
use hiaux.Base.{
  ℕ, zero, suc, ◌+◌, ◌-◌, List, [], ◌∷◌, ◌++◌, Bool, true, false, length, get_elem?, ltb,
  if◌then◌else◌, Option, none, some,
}

-- The element at a place is replaced.
abbrev pub set_elem {ℓ} : {A : Type ℓ} → List A → ℕ → A → List A
set_elem [] i y = []
set_elem (x ∷ xs) zero y = y ∷ xs
set_elem (x ∷ xs) (suc i) y = x ∷ set_elem xs i y

module _ (T : Type 0) where
  -- A user's task, or the one that `hThreadPool::kill` makes of `hThread::kill`.
  pub data Task : Type 0 where
    user : T → Task
    stop : Task

  -- Where `hThread::run` stands.
  pub data Pc : Type 0 where
    created : Pc  -- before `fetch_add`
    head : Pc  -- `while (m_running)`
    local_queue : Pc  -- before the test of the local queue
    local_task : Task → Pc
    local_done : Pc  -- the first test of `m_running`
    global_queue : Pc
    global_task : Task → Pc
    global_done : Pc  -- the second test of `m_running`
    enlist : Pc  -- before the push to `waiting_threads`
    wait : Pc  -- `hCondWaiter::wait`, before the test
    tested : Pc  -- the test failed, the lock is held
    blocked : Pc  -- in `pthread_cond_wait`
    stopped : Pc

  pub record Thread : Type 0 where
    pub pc : Pc
    pub local_task_queue : List Task
    pub m_running : Bool

  -- Where a caller of the pool stands.
  pub data Caller : Type 0 where
    add : Task → Caller  -- `addTask`
    give : ℕ → Task → Caller  -- it has taken a waiting thread
    queue : Task → Caller  -- it has found none
    kill_from : ℕ → Caller  -- `kill`, in its first loop
    kill_waiting : Caller  -- its second loop
    kill_push : ℕ → Caller
    kill_kick : ℕ → Caller
    returned : Caller

  pub record Pool : Type 0 where
    pub threads : List Thread
    pub task_queue : List Task
    pub waiting_threads : List ℕ
    pub nrunning_threads : ℕ
    pub callers : List Caller
    pub ran : List T

-- One step of a thread, one of a caller, or the wake-up of a blocked thread without a signal.
pub data Event : Type 0 where
  thread : ℕ → Event
  caller : ℕ → Event
  wake : ℕ → Event

module _ {T : Type 0} where
  unfoldable pub new_thread : Thread T
  new_thread = record { pc = created; local_task_queue = []; m_running = true }

  unfoldable pub new_threads : ℕ → List (Thread T)
  new_threads zero = []
  new_threads (suc n) = new_thread ∷ new_threads n

  -- The pool after `run`, with what its callers are about to do.
  unfoldable pub start_pool : ℕ → List (Caller T) → Pool T
  start_pool nthreads callers = record {
    threads = new_threads nthreads;
    task_queue = [];
    waiting_threads = [];
    nrunning_threads = 0;
    callers = callers;
    ran = [];
  }

  unfoldable pub set_thread : Pool T → ℕ → Thread T → Pool T
  set_thread p i t = record p { threads = set_elem p.threads i t }

  unfoldable pub leave : Pool T → ℕ → Thread T → Pool T
  leave p i t =
      set_thread (record p { nrunning_threads = p.nrunning_threads - 1 }) i
        (record t { pc = stopped })

  unfoldable pub go_on : Pool T → ℕ → Thread T → Pc T → Pool T
  go_on p i t next = if t.m_running then set_thread p i (record t { pc = next }) else leave p i t

  -- `(*f)()`
  unfoldable pub run_task : Pool T → ℕ → Thread T → Task T → Pc T → Pool T
  run_task p i t (user x) next =
      set_thread (record p { ran = p.ran ++ x ∷ [] }) i (record t { pc = next })
  run_task p i t stop next = set_thread p i (record t { pc = next; m_running = false })

  unfoldable pub pop_local : Pool T → ℕ → Thread T → List (Task T) → Pool T
  pop_local p i t [] = set_thread p i (record t { pc = local_done })
  pop_local p i t (f ∷ q) = set_thread p i (record t { pc = local_task f; local_task_queue = q })

  unfoldable pub pop_global : Pool T → ℕ → Thread T → List (Task T) → Pool T
  pop_global p i t [] = set_thread p i (record t { pc = global_done })
  pop_global p i t (f ∷ q) =
      set_thread (record p { task_queue = q }) i (record t { pc = global_task f })

  -- The test of `hCondWaiter::wait`, which is `queueNotEmpty`.
  unfoldable pub test_wait : Pool T → ℕ → Thread T → List (Task T) → Pool T
  test_wait p i t [] = set_thread p i (record t { pc = tested })
  test_wait p i t (f ∷ q) = set_thread p i (record t { pc = head })

  unfoldable pub move : Pool T → ℕ → Thread T → Pc T → Pool T
  move p i t created =
      set_thread (record p { nrunning_threads = suc p.nrunning_threads }) i (record t { pc = head })
  move p i t head = go_on p i t local_queue
  move p i t local_queue = pop_local p i t t.local_task_queue
  move p i t (local_task f) = run_task p i t f local_queue
  move p i t local_done = go_on p i t global_queue
  move p i t global_queue = pop_global p i t p.task_queue
  move p i t (global_task f) = run_task p i t f global_queue
  move p i t global_done = go_on p i t enlist
  move p i t enlist =
      set_thread (record p { waiting_threads = p.waiting_threads ++ i ∷ [] }) i
        (record t { pc = wait })
  move p i t wait = test_wait p i t t.local_task_queue
  move p i t tested = set_thread p i (record t { pc = blocked })
  move p i t blocked = p
  move p i t stopped = p

  unfoldable pub set_caller : Pool T → ℕ → Caller T → Pool T
  set_caller p j c = record p { callers = set_elem p.callers j c }

  -- `kick`, which wakes a thread only if it is blocked
  unfoldable pub kick : Pc T → Pc T
  kick blocked = wait
  kick pc = pc

  unfoldable pub is_tested : Pc T → Bool
  is_tested tested = true
  is_tested pc = false

  -- The locked part of `addTask`, which waits while the thread holds the lock.
  unfoldable pub give_task : Pool T → ℕ → ℕ → Task T → Option (Thread T) → Pool T
  give_task p j i f none = p
  give_task p j i f (some t) =
      if is_tested t.pc
      then p
      else set_caller
          (set_thread p i
            (record t { pc = kick t.pc; local_task_queue = t.local_task_queue ++ f ∷ [] }))
          j returned

  unfoldable pub add_task : Pool T → ℕ → Task T → List ℕ → Pool T
  add_task p j f [] = set_caller p j (queue f)
  add_task p j f (i ∷ ws) = set_caller (record p { waiting_threads = ws }) j (give i f)

  unfoldable pub kill_flag : Pool T → ℕ → ℕ → Option (Thread T) → Pool T
  kill_flag p j i none = set_caller p j kill_waiting
  kill_flag p j i (some t) =
      set_caller (set_thread p i (record t { m_running = false })) j (kill_from (suc i))

  unfoldable pub kill_next : Pool T → ℕ → List ℕ → Pool T
  kill_next p j [] = set_caller p j returned
  kill_next p j (i ∷ ws) = set_caller (record p { waiting_threads = ws }) j (kill_push i)

  -- Without the thread's lock.
  unfoldable pub push_stop : Pool T → ℕ → ℕ → Option (Thread T) → Pool T
  push_stop p j i none = p
  push_stop p j i (some t) =
      set_caller (set_thread p i (record t { local_task_queue = t.local_task_queue ++ stop ∷ [] }))
        j (kill_kick i)

  unfoldable pub kick_thread : Pool T → ℕ → ℕ → Option (Thread T) → Pool T
  kick_thread p j i none = p
  kick_thread p j i (some t) =
      set_caller (set_thread p i (record t { pc = kick t.pc })) j kill_waiting

  unfoldable pub call : Pool T → ℕ → Caller T → Pool T
  call p j (add f) = add_task p j f p.waiting_threads
  call p j (give i f) = give_task p j i f (get_elem? p.threads i)
  call p j (queue f) = set_caller (record p { task_queue = p.task_queue ++ f ∷ [] }) j returned
  call p j (kill_from i) = kill_flag p j i (get_elem? p.threads i)
  call p j kill_waiting = kill_next p j p.waiting_threads
  call p j (kill_push i) = push_stop p j i (get_elem? p.threads i)
  call p j (kill_kick i) = kick_thread p j i (get_elem? p.threads i)
  call p j returned = p

  unfoldable pub move_found : Pool T → ℕ → Option (Thread T) → Pool T
  move_found p i none = p
  move_found p i (some t) = move p i t t.pc

  unfoldable pub wake_found : Pool T → ℕ → Option (Thread T) → Pool T
  wake_found p i none = p
  wake_found p i (some t) = set_thread p i (record t { pc = kick t.pc })

  unfoldable pub call_found : Pool T → ℕ → Option (Caller T) → Pool T
  call_found p j none = p
  call_found p j (some c) = call p j c

  unfoldable pub step : Pool T → Event → Pool T
  step p (thread i) = move_found p i (get_elem? p.threads i)
  step p (caller j) = call_found p j (get_elem? p.callers j)
  step p (wake i) = wake_found p i (get_elem? p.threads i)

  unfoldable pub steps : Pool T → List Event → Pool T
  steps p [] = p
  steps p (e ∷ es) = steps (step p e) es
