-- ===== src/Threads/Launcher/Invariant.antt =====
-- What holds between the calls of a task launcher.
use mathlib.Core.Path.{subst}
use hiaux.Base.{
  ℕ, suc, ◌^◌, ◌≤◌, ◌<◌, ◌≡◌, refl, sym, ◌∙◌, ap, ◌⊎◌, inl, inr, List, [], ◌∷◌, ◌++◌, Bool, true,
  false, length, get_elem?, ltb, ◌==◌, ◌&&◌, ltb→lt, ltb→le, some, arith, Bool-cases, if_both,
  Option-cases, append-nil, append_assoc,
}
use hiaux.Threads.Launcher.{
  TaskRet, relaunch, no_relaunch, TaskLauncher, is_empty, increment, task_launcher, count_running,
  launch, launch_queued, check_launch, add_task, check_finished, after_task, end_task, run_found,
  run_task,
}
use hiaux.Threads.Launcher.Counters.{
  IsCounted, running-IsCounted, launched-IsCounted, finished-IsCounted, calls_of, length-snoc,
  length-without, get_elem?-append,
}

module _ {T : Type 0} where
  -- The loop moves a front part of the queue behind the pool's tasks.
  abbrev pub IsMoved : List T → List T → List T → List T → Type 0
  IsMoved pool q pool2 q2 = (zs : List T) × (pool2 ≡ pool ++ zs) × (q ≡ zs ++ q2)

  pub launch_queued-IsMoved :
      (q : List T) (l : TaskLauncher T)
      → IsMoved l.pool q (launch_queued q l).pool (launch_queued q l).task_q
  unfolding launch_queued launch
  launch_queued-IsMoved [] l = ([], sym (append-nil l.pool), refl)
  launch_queued-IsMoved (f ∷ q) l = elim (Bool-cases (ltb (count_running l) l.max_parallel)) [
    | inr e ↦ rw e ([], sym (append-nil l.pool), refl)
    | inl e ↦
        let m = launch_queued-IsMoved q (launch l f) in
        rw e (f ∷ m.0, m.1 ∙ append_assoc l.pool (f ∷ []) m.0, ap (◌∷◌ f) m.2)
  ]

  pub add_task-IsMoved :
      (l : TaskLauncher T) (f : T)
      → IsMoved l.pool (l.task_q ++ f ∷ []) (add_task l f).pool (add_task l f).task_q
  unfolding add_task check_launch
  add_task-IsMoved l f = launch_queued-IsMoved (l.task_q ++ f ∷ []) _

  -- What the test of `check_finished` reads.
  abbrev pub all_done : TaskLauncher T → Bool
  all_done l = (l.tasks_launched == l.tasks_finished) && (l.no_more_tasks && is_empty l.task_q)

-- `peak` is the largest number of parallel tasks that the launcher was ever given.
module _ {T : Type 0} (peak : ℕ) where
  -- What holds inside a call too.
  pub record IsBounded (l : TaskLauncher T) : Type 0 where
    pub counted : IsCounted l.tasks_launched l.tasks_finished (length l.pool)
    pub small : peak < 2 ^ 64
    pub low : l.max_parallel ≤ peak
    pub bounded : length l.pool ≤ peak
    pub once : l.finished_calls ≡ calls_of l.all_tasks_finished

  -- No queued task waits beside an idle slot.
  abbrev pub IsBusy : TaskLauncher T → Type 0
  IsBusy l = (l.task_q ≡ []) ⊎ (l.max_parallel ≤ length l.pool)

  abbrev pub IsSound : TaskLauncher T → Type 0
  IsSound l = IsBounded l × IsBusy l

  pub count_running-IsBounded : (l : TaskLauncher T) → IsBounded l → count_running l ≡ length l.pool
  unfolding count_running
  count_running-IsBounded l h =
      running-IsCounted l.tasks_launched l.tasks_finished (length l.pool) h.counted

  launch-IsBounded :
      (l : TaskLauncher T) (f : T)
      → IsBounded l
      → length l.pool < l.max_parallel
      → IsBounded (launch l f)
  unfolding launch
  launch-IsBounded l f h k = record {
    counted =
        subst (IsCounted (increment l.tasks_launched) l.tasks_finished) (sym (length-snoc l.pool f))
          (launched-IsCounted l.tasks_launched l.tasks_finished (length l.pool) peak h.counted
            (omega (arith, k, h.low)) h.small);
    small = h.small;
    low = h.low;
    bounded = omega (arith, length-snoc l.pool f);
    once = h.once;
  }

  pub launch_queued-IsSound :
      (q : List T) (l : TaskLauncher T) → IsBounded l → IsSound (launch_queued q l)
  unfolding launch_queued launch
  launch_queued-IsSound [] l h = (
    record {
      counted = h.counted;
      small = h.small;
      low = h.low;
      bounded = h.bounded;
      once = h.once;
    },
    inl refl,
  )
  launch_queued-IsSound (f ∷ q) l h = elim (Bool-cases (ltb (count_running l) l.max_parallel)) [
    | inl e ↦ rw e (
        launch_queued-IsSound q (launch l f) (
          launch-IsBounded l f h
            (subst (λ n. n < l.max_parallel) (count_running-IsBounded l h) (ltb→lt _ _ e))))
    | inr e ↦ rw e (
      record {
        counted = h.counted;
        small = h.small;
        low = h.low;
        bounded = h.bounded;
        once = h.once;
      },
      inr (subst (λ n. l.max_parallel ≤ n) (count_running-IsBounded l h) (ltb→le _ _ e)),
    )
  ]

  pub add_task-IsSound : (l : TaskLauncher T) (f : T) → IsBounded l → IsSound (add_task l f)
  unfolding add_task check_launch
  add_task-IsSound l f h = launch_queued-IsSound (l.task_q ++ f ∷ []) _ (record {
    counted = h.counted;
    small = h.small;
    low = h.low;
    bounded = h.bounded;
    once = h.once;
  })

  finished_call-IsBounded :
      (l : TaskLauncher T)
      → IsBounded l
      → l.all_tasks_finished ≡ false
      → IsBounded (record l { all_tasks_finished = true; finished_calls = suc l.finished_calls })
  finished_call-IsBounded l h e = record {
    counted = h.counted;
    small = h.small;
    low = h.low;
    bounded = h.bounded;
    once = ap suc (h.once ∙ ap calls_of e);
  }

  check_finished-IsSound : (l : TaskLauncher T) → IsSound l → IsSound (check_finished l)
  unfolding check_finished
  check_finished-IsSound l h =
      if_both IsSound (all_done l) _ l
        (λ e.
          if_both IsSound l.finish_locked l _ (λ d. h)
            (λ d.
              if_both IsSound l.all_tasks_finished _ _
                (λ c. (
                  record {
                    counted = h.0.counted;
                    small = h.0.small;
                    low = h.0.low;
                    bounded = h.0.bounded;
                    once = h.0.once;
                  },
                  h.1,
                ))
                (λ c. (finished_call-IsBounded l h.0 c, h.1))))
        (λ e. h)

  end_task-IsSound :
      (l : TaskLauncher T) (i : ℕ) (f : T)
      → get_elem? l.pool i ≡ some f
      → IsBounded l
      → IsSound (end_task l i)
  unfolding end_task check_launch
  end_task-IsSound l i f e h = check_finished-IsSound _ (
      launch_queued-IsSound l.task_q _ (record {
        counted = finished-IsCounted l.tasks_launched l.tasks_finished _ (
            subst (IsCounted l.tasks_launched l.tasks_finished) (sym (length-without l.pool i f e))
              h.counted);
        small = h.small;
        low = h.low;
        bounded = omega (arith, length-without l.pool i f e, h.bounded);
        once = h.once;
      }))

  pub run_found-IsSound :
      (l : TaskLauncher T) (i : ℕ) (f : T) (ret : TaskRet)
      → get_elem? l.pool i ≡ some f
      → IsBounded l
      → IsSound (run_found l i ret (some f))
  unfolding run_found after_task
  run_found-IsSound l i f no_relaunch e h = end_task-IsSound l i f e h
  run_found-IsSound l i f relaunch e h =
      end_task-IsSound (add_task l f) i f
        (subst (λ p. get_elem? p i ≡ some f) (sym (add_task-IsMoved l f).1)
          (get_elem?-append l.pool (add_task-IsMoved l f).0 i f e))
        (add_task-IsSound l f h).0

  pub run_task-IsSound :
      (l : TaskLauncher T) (i : ℕ) (ret : TaskRet) → IsSound l → IsSound (run_task l i ret)
  unfolding run_task run_found
  run_task-IsSound l i ret h = elim (Option-cases (get_elem? l.pool i)) [
    | inl e ↦ rw e h
    | inr (f, e) ↦ rw e (run_found-IsSound l i f ret e h.0)
  ]

  pub task_launcher-IsSound : (m : ℕ) → m ≤ peak → peak < 2 ^ 64 → IsSound (task_launcher {T = T} m)
  unfolding task_launcher
  task_launcher-IsSound m l h = (
    record {
      counted = (omega arith, omega arith, omega arith, inl refl);
      small = h;
      low = l;
      bounded = omega arith;
      once = refl;
    },
    inl refl,
  )
