-- ===== src/Threads/Pool/Conserved.antt =====
-- The tasks of the thread pool: weights of them, summed over the places where a task can be.
use hiaux.Base.{
  ℕ, zero, suc, ◌+◌, ◌-◌, ◌≡◌, refl, ◌∙◌, ap, List, [], ◌∷◌, ◌++◌, false, get_elem?, inl, inr,
  Option, none, some, arith, if_both, Option-cases, sum_of, sum_of-append,
}
use hiaux.Threads.Pool.{
  set_elem, Task, user, stop, Pc, created, head, local_queue, local_task, local_done, global_queue,
  global_task, global_done, enlist, wait, tested, blocked, stopped, Thread, Caller, add, give,
  queue, kill_from, kill_waiting, kill_push, kill_kick, returned, Pool, Event, thread, caller, wake,
  set_thread, leave, go_on, run_task, pop_local, pop_global, test_wait, move, set_caller, kick,
  is_tested, give_task, add_task, kill_flag, kill_next, push_stop, kick_thread, call, move_found,
  wake_found, call_found, step, steps,
}

module _ {A : Type 0} (f : A → ℕ) where
  pub sum_of-set_elem :
      (xs : List A) (i : ℕ) (x y : A)
      → get_elem? xs i ≡ some x
      → sum_of f (set_elem xs i y) + f x ≡ sum_of f xs + f y
  sum_of-set_elem [] i x y h = ground arith
  sum_of-set_elem (z ∷ xs) zero x y h = ground arith
  sum_of-set_elem (z ∷ xs) (suc i) x y h = omega (arith, sum_of-set_elem xs i x y h)

module _ {T : Type 0} (w : T → ℕ) where
  abbrev pub task_weight : Task T → ℕ
  task_weight (user x) = w x
  task_weight stop = 0

  abbrev pub pc_weight : Pc T → ℕ
  pc_weight (local_task f) = task_weight f
  pc_weight (global_task f) = task_weight f
  pc_weight pc = 0

  abbrev pub thread_weight : Thread T → ℕ
  thread_weight t = pc_weight t.pc + sum_of task_weight t.local_task_queue

  abbrev pub caller_weight : Caller T → ℕ
  caller_weight (add f) = task_weight f
  caller_weight (give i f) = task_weight f
  caller_weight (queue f) = task_weight f
  caller_weight c = 0

  -- Over callers, the global queue, the threads' local queues and current tasks, and what has run.
  unfoldable pub total : Pool T → ℕ
  total p =
      sum_of caller_weight p.callers
      + sum_of task_weight p.task_queue
      + sum_of thread_weight p.threads
      + sum_of w p.ran

  set_thread-total :
      (p : Pool T) (i : ℕ) (t u : Thread T)
      → get_elem? p.threads i ≡ some t
      → total (set_thread p i u) + thread_weight t ≡ total p + thread_weight u
  unfolding total set_thread
  set_thread-total p i t u h = omega (arith, sum_of-set_elem thread_weight p.threads i t u h)

  set_caller-total :
      (p : Pool T) (j : ℕ) (c d : Caller T)
      → get_elem? p.callers j ≡ some c
      → total (set_caller p j d) + caller_weight c ≡ total p + caller_weight d
  unfolding total set_caller
  set_caller-total p j c d h = omega (arith, sum_of-set_elem caller_weight p.callers j c d h)

  kick-weight : (pc : Pc T) → pc_weight (kick pc) ≡ pc_weight pc
  unfolding kick
  kick-weight created = refl
  kick-weight head = refl
  kick-weight local_queue = refl
  kick-weight (local_task f) = refl
  kick-weight local_done = refl
  kick-weight global_queue = refl
  kick-weight (global_task f) = refl
  kick-weight global_done = refl
  kick-weight enlist = refl
  kick-weight wait = refl
  kick-weight tested = refl
  kick-weight blocked = refl
  kick-weight stopped = refl

  module _ (p : Pool T) (i : ℕ) (t : Thread T) (h : get_elem? p.threads i ≡ some t) where
    go_on-total :
        (next : Pc T) → pc_weight t.pc ≡ 0 → pc_weight next ≡ 0 → total (go_on p i t next) ≡ total p
    unfolding go_on leave total
    go_on-total next a b =
        if_both (λ q. total q ≡ total p) t.m_running _ _
          (λ e. omega (arith, a, b, set_thread-total p i t (record t { pc = next }) h))
          (λ e. omega (
            arith,
            a,
            set_thread-total (record p { nrunning_threads = p.nrunning_threads - 1 }) i t
                (record t { pc = stopped }) h,
          ))

    run_task-total :
        (f : Task T) (next : Pc T)
        → pc_weight t.pc ≡ task_weight f
        → pc_weight next ≡ 0
        → total (run_task p i t f next) ≡ total p
    unfolding run_task total
    run_task-total (user x) next a b = omega (
      arith,
      a,
      b,
      sum_of-append w p.ran (x ∷ []),
      set_thread-total (record p { ran = p.ran ++ x ∷ [] }) i t (record t { pc = next }) h,
    )
    run_task-total stop next a b =
        omega (arith, a, b, set_thread-total p i t (record t { pc = next; m_running = false }) h)

    pop_local-total :
        (q : List (Task T))
        → pc_weight t.pc ≡ 0
        → t.local_task_queue ≡ q
        → total (pop_local p i t q) ≡ total p
    unfolding pop_local
    pop_local-total [] a e =
        omega (arith, a, set_thread-total p i t (record t { pc = local_done }) h)
    pop_local-total (f ∷ q) a e = omega (
      arith,
      a,
      ap (sum_of task_weight) e,
      set_thread-total p i t (record t { pc = local_task f; local_task_queue = q }) h,
    )

    pop_global-total :
        (q : List (Task T))
        → pc_weight t.pc ≡ 0
        → p.task_queue ≡ q
        → total (pop_global p i t q) ≡ total p
    unfolding pop_global total
    pop_global-total [] a e =
        omega (arith, a, set_thread-total p i t (record t { pc = global_done }) h)
    pop_global-total (f ∷ q) a e = omega (
      arith,
      a,
      ap (sum_of task_weight) e,
      set_thread-total (record p { task_queue = q }) i t (record t { pc = global_task f }) h,
    )

    test_wait-total : (q : List (Task T)) → pc_weight t.pc ≡ 0 → total (test_wait p i t q) ≡ total p
    unfolding test_wait
    test_wait-total [] a = omega (arith, a, set_thread-total p i t (record t { pc = tested }) h)
    test_wait-total (f ∷ q) a = omega (arith, a, set_thread-total p i t (record t { pc = head }) h)

    move-total : (pc : Pc T) → t.pc ≡ pc → total (move p i t pc) ≡ total p
    unfolding move total
    move-total created e = omega (
      arith,
      ap pc_weight e,
      set_thread-total (record p { nrunning_threads = suc p.nrunning_threads }) i t
          (record t { pc = head }) h,
    )
    move-total head e = go_on-total local_queue (ap pc_weight e) refl
    move-total local_queue e = pop_local-total t.local_task_queue (ap pc_weight e) refl
    move-total (local_task f) e = run_task-total f local_queue (ap pc_weight e) refl
    move-total local_done e = go_on-total global_queue (ap pc_weight e) refl
    move-total global_queue e = pop_global-total p.task_queue (ap pc_weight e) refl
    move-total (global_task f) e = run_task-total f global_queue (ap pc_weight e) refl
    move-total global_done e = go_on-total enlist (ap pc_weight e) refl
    move-total enlist e = omega (
      arith,
      ap pc_weight e,
      set_thread-total (record p { waiting_threads = p.waiting_threads ++ i ∷ [] }) i t
          (record t { pc = wait }) h,
    )
    move-total wait e = test_wait-total t.local_task_queue (ap pc_weight e)
    move-total tested e =
        omega (arith, ap pc_weight e, set_thread-total p i t (record t { pc = blocked }) h)
    move-total blocked e = refl
    move-total stopped e = refl

  module _ (p : Pool T) (j : ℕ) (c : Caller T) (k : get_elem? p.callers j ≡ some c) where
    give_task-total :
        (i : ℕ) (f : Task T) (o : Option (Thread T))
        → get_elem? p.threads i ≡ o
        → c ≡ give i f
        → total (give_task p j i f o) ≡ total p
    unfolding give_task set_thread
    give_task-total i f none h e = refl
    give_task-total i f (some t) h e =
        let u : Thread T = record t {
          pc = kick t.pc;
          local_task_queue = t.local_task_queue ++ f ∷ [];
        } in
        if_both (λ q. total q ≡ total p) (is_tested t.pc) p _ (λ d. refl)
          (λ d. omega (
            arith,
            ap caller_weight e,
            kick-weight t.pc,
            sum_of-append task_weight t.local_task_queue (f ∷ []),
            set_thread-total p i t u h,
            set_caller-total (set_thread p i u) j c returned k,
          ))

    add_task-total : (f : Task T) (ws : List ℕ) → c ≡ add f → total (add_task p j f ws) ≡ total p
    unfolding add_task total
    add_task-total f [] e = omega (arith, ap caller_weight e, set_caller-total p j c (queue f) k)
    add_task-total f (i ∷ ws) e = omega (
      arith,
      ap caller_weight e,
      set_caller-total (record p { waiting_threads = ws }) j c (give i f) k,
    )

    kill_flag-total :
        (i : ℕ) (o : Option (Thread T))
        → get_elem? p.threads i ≡ o
        → c ≡ kill_from i
        → total (kill_flag p j i o) ≡ total p
    unfolding kill_flag set_thread
    kill_flag-total i none h e =
        omega (arith, ap caller_weight e, set_caller-total p j c kill_waiting k)
    kill_flag-total i (some t) h e = omega (
      arith,
      ap caller_weight e,
      set_thread-total p i t (record t { m_running = false }) h,
      set_caller-total (set_thread p i (record t { m_running = false })) j c (kill_from (suc i)) k,
    )

    kill_next-total : (ws : List ℕ) → c ≡ kill_waiting → total (kill_next p j ws) ≡ total p
    unfolding kill_next total
    kill_next-total [] e = omega (arith, ap caller_weight e, set_caller-total p j c returned k)
    kill_next-total (i ∷ ws) e = omega (
      arith,
      ap caller_weight e,
      set_caller-total (record p { waiting_threads = ws }) j c (kill_push i) k,
    )

    push_stop-total :
        (i : ℕ) (o : Option (Thread T))
        → get_elem? p.threads i ≡ o
        → c ≡ kill_push i
        → total (push_stop p j i o) ≡ total p
    unfolding push_stop set_thread
    push_stop-total i none h e = refl
    push_stop-total i (some t) h e =
        let u : Thread T = record t { local_task_queue = t.local_task_queue ++ stop ∷ [] } in
        omega (
          arith,
          ap caller_weight e,
          sum_of-append task_weight t.local_task_queue (stop ∷ []),
          set_thread-total p i t u h,
          set_caller-total (set_thread p i u) j c (kill_kick i) k,
        )

    kick_thread-total :
        (i : ℕ) (o : Option (Thread T))
        → get_elem? p.threads i ≡ o
        → c ≡ kill_kick i
        → total (kick_thread p j i o) ≡ total p
    unfolding kick_thread set_thread
    kick_thread-total i none h e = refl
    kick_thread-total i (some t) h e = omega (
      arith,
      ap caller_weight e,
      kick-weight t.pc,
      set_thread-total p i t (record t { pc = kick t.pc }) h,
      set_caller-total (set_thread p i (record t { pc = kick t.pc })) j c kill_waiting k,
    )

    call-total : (d : Caller T) → c ≡ d → total (call p j d) ≡ total p
    unfolding call total
    call-total (add f) e = add_task-total f p.waiting_threads e
    call-total (give i f) e = give_task-total i f (get_elem? p.threads i) refl e
    call-total (queue f) e = omega (
      arith,
      ap caller_weight e,
      sum_of-append task_weight p.task_queue (f ∷ []),
      set_caller-total (record p { task_queue = p.task_queue ++ f ∷ [] }) j c returned k,
    )
    call-total (kill_from i) e = kill_flag-total i (get_elem? p.threads i) refl e
    call-total kill_waiting e = kill_next-total p.waiting_threads e
    call-total (kill_push i) e = push_stop-total i (get_elem? p.threads i) refl e
    call-total (kill_kick i) e = kick_thread-total i (get_elem? p.threads i) refl e
    call-total returned e = refl

  step-total : (p : Pool T) (e : Event) → total (step p e) ≡ total p
  unfolding step move_found call_found wake_found
  step-total p (thread i) = elim (Option-cases (get_elem? p.threads i)) [
    | inl h ↦ rw h refl
    | inr (t, h) ↦ rw h (move-total p i t h t.pc refl)
  ]
  step-total p (caller j) = elim (Option-cases (get_elem? p.callers j)) [
    | inl h ↦ rw h refl
    | inr (c, h) ↦ rw h (call-total p j c h c refl)
  ]
  step-total p (wake i) = elim (Option-cases (get_elem? p.threads i)) [
    | inl h ↦ rw h refl
    | inr (t, h) ↦
        rw h
          (omega (arith, kick-weight t.pc, set_thread-total p i t (record t { pc = kick t.pc }) h))
  ]

  -- Whatever the order in which threads, callers of `addTask` and of `kill` take their steps, each
  -- weight of the tasks, summed over the callers that still hold one, the global queue, the local
  -- queues, the tasks being run and those that have been run, stays the same: no task is lost from these
  -- places or run twice.
  pub steps-total : (es : List Event) (p : Pool T) → total (steps p es) ≡ total p
  unfolding steps
  steps-total [] p = refl
  steps-total (e ∷ es) p = steps-total es (step p e) ∙ step-total p e
