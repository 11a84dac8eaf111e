-- ===== src/Threads/Launcher/Ending.antt =====
-- The run of one task of a launcher that gets no more tasks.
use mathlib.Core.Path.{subst}
use hiaux.Base.{
  ℕ, suc, ◌<◌, ◌≡◌, refl, sym, ◌∙◌, ap, inl, inr, List, [], ◌∷◌, ◌++◌, Bool, true, false, ◌&&◌,
  length, ltb, ◌==◌, ==_refl, ==_iff, arith, Bool-cases, if_both, append_assoc, drop-zero,
}
use hiaux.Threads.Launcher.{
  no_relaunch, TaskLauncher, launch, launch_queued, check_launch, check_finished, end_task,
  run_found, after_task, run_task, count_running, increment, is_empty,
}
use hiaux.Threads.Launcher.Counters.{IsCounted, finished-IsCounted, equal-IsCounted, zero-IsCounted}
use hiaux.Threads.Launcher.Invariant.{
  IsSound, IsMoved, all_done, launch_queued-IsSound, launch_queued-IsMoved,
}

module _ {T : Type 0} where
  -- No task is missing and none has been reported.
  pub record IsOpen (l : TaskLauncher T) : Type 0 where
    pub closed : l.no_more_tasks ≡ true
    pub unfinished : l.all_tasks_finished ≡ false
    pub unlocked : l.finish_locked ≡ false
    pub silent : l.finished_calls ≡ 0
    pub slots : 0 < l.max_parallel

  pub launch_queued-IsOpen :
      (q : List T) (l : TaskLauncher T) → IsOpen l → IsOpen (launch_queued q l)
  unfolding launch_queued launch
  launch_queued-IsOpen [] l h = record {
    closed = h.closed;
    unfinished = h.unfinished;
    unlocked = h.unlocked;
    silent = h.silent;
    slots = h.slots;
  }
  launch_queued-IsOpen (f ∷ q) l h =
      let g : IsOpen (launch l f) = record {
        closed = h.closed;
        unfinished = h.unfinished;
        unlocked = h.unlocked;
        silent = h.silent;
        slots = h.slots;
      } in
      if_both IsOpen (ltb (count_running l) l.max_parallel) _ (record l { task_q = f ∷ q })
        (λ e. launch_queued-IsOpen q (launch l f) g)
        (λ e. record {
          closed = h.closed;
          unfinished = h.unfinished;
          unlocked = h.unlocked;
          silent = h.silent;
          slots = h.slots;
        })

  -- What `Task` leaves before `checkFinished`, the pool's other tasks being `p`.
  unfoldable pub ended : TaskLauncher T → List T → TaskLauncher T
  ended l p =
      launch_queued l.task_q (record l { pool = p; tasks_finished = increment l.tasks_finished })

  pub run_task-ended :
      (l : TaskLauncher T) (f : T) (p : List T)
      → l.pool ≡ f ∷ p
      → run_task l 0 no_relaunch ≡ check_finished (ended l p)
  unfolding run_task run_found after_task end_task check_launch ended
  run_task-ended l f p e = rw (e, drop-zero p) refl

  pub ended-IsMoved :
      (l : TaskLauncher T) (p : List T) → (ended l p).pool ++ (ended l p).task_q ≡ p ++ l.task_q
  unfolding ended
  ended-IsMoved l p = go _ _ _ _ (launch_queued-IsMoved l.task_q _)
    where
      go : (p q p2 q2 : List T) → IsMoved p q p2 q2 → p2 ++ q2 ≡ p ++ q
      go p q p2 q2 (zs, e, d) = rw (e, d) (append_assoc p zs q2)

  pub ended-IsSound :
      {peak : ℕ} (l : TaskLauncher T) (f : T) (p : List T)
      → l.pool ≡ f ∷ p
      → IsSound peak l
      → IsSound peak (ended l p)
  unfolding ended
  ended-IsSound l f p e h = launch_queued-IsSound _ l.task_q _ (record {
    counted =
        finished-IsCounted l.tasks_launched l.tasks_finished (length p)
          (subst (IsCounted l.tasks_launched l.tasks_finished) (ap length e) h.0.counted);
    small = h.0.small;
    low = h.0.low;
    bounded = omega (arith, ap length e, h.0.bounded);
    once = h.0.once;
  })

  pub all_done-more :
      {peak : ℕ} (l : TaskLauncher T) (f : T) (p : List T)
      → IsSound peak l
      → l.pool ≡ f ∷ p
      → all_done l ≡ false
  all_done-more l f p h e = elim (Bool-cases (l.tasks_launched == l.tasks_finished)) [
    | inr d ↦ rw d refl
    | inl d ↦
        let z =
          equal-IsCounted l.tasks_launched l.tasks_finished (length l.pool) h.0.counted
            ((==_iff _ _).0 d) in
        absurd (omega (arith, z, ap length e))
  ]

  pub all_done-nothing :
      {peak : ℕ} (l : TaskLauncher T)
      → IsSound peak l
      → IsOpen l
      → l.pool ≡ []
      → l.task_q ≡ []
      → all_done l ≡ true
  all_done-nothing l h o e d =
      go _ _ _
        (subst (λ n. (l.tasks_launched == n) ≡ true)
          (zero-IsCounted l.tasks_launched l.tasks_finished
            (subst (IsCounted l.tasks_launched l.tasks_finished) (ap length e) h.0.counted))
          (==_refl l.tasks_launched))
        o.closed (ap is_empty d)
    where
      go : (a b c : Bool) → a ≡ true → b ≡ true → c ≡ true → (a && (b && c)) ≡ true
      go a b c e d f = rw (e, d, f) refl

  -- All that was left has run.
  pub record IsOver (l : TaskLauncher T) : Type 0 where
    pub idle : l.pool ≡ []
    pub served : l.task_q ≡ []
    pub reported : l.finished_calls ≡ 1

  -- With a slot, a task that is left is in the pool.
  pub pool-IsSound :
      {peak : ℕ} (l : TaskLauncher T)
      → IsSound peak l
      → 0 < l.max_parallel
      → l.pool ≡ []
      → l.task_q ≡ []
  pool-IsSound l h k e = elim h.1 [ inl d ↦ d | inr d ↦ absurd (omega (arith, k, d, ap length e)) ]

  pub check_finished-more : (l : TaskLauncher T) → all_done l ≡ false → check_finished l ≡ l
  unfolding check_finished
  check_finished-more l e = rw e refl

  pub check_finished-IsOver :
      {peak : ℕ} (l : TaskLauncher T)
      → IsSound peak l
      → IsOpen l
      → l.pool ≡ []
      → l.task_q ≡ []
      → IsOver (check_finished l)
  unfolding check_finished
  check_finished-IsOver l h o e d =
      rw (all_done-nothing l h o e d, o.unlocked, o.unfinished)
        (record { idle = e; served = d; reported = ap suc o.silent })

  pub ended-IsOpen : (l : TaskLauncher T) (p : List T) → IsOpen l → IsOpen (ended l p)
  unfolding ended
  ended-IsOpen l p h = launch_queued-IsOpen l.task_q _ (record {
    closed = h.closed;
    unfinished = h.unfinished;
    unlocked = h.unlocked;
    silent = h.silent;
    slots = h.slots;
  })

  -- The first task's run, when it is the last task.
  pub run_task-last :
      {peak : ℕ} (l : TaskLauncher T) (f : T)
      → IsSound peak l
      → IsOpen l
      → l.pool ≡ f ∷ []
      → l.task_q ≡ []
      → IsOver (run_task l 0 no_relaunch)
  run_task-last l f h o e d = subst IsOver (sym (run_task-ended l f [] e)) (
      check_finished-IsOver (ended l []) (ended-IsSound l f [] e h) (ended-IsOpen l [] o)
        (nothing _ _ moved).0 (nothing _ _ moved).1)
    where
      moved : (ended l []).pool ++ (ended l []).task_q ≡ []
      moved = ended-IsMoved l [] ∙ d

      nothing : (xs ys : List T) → xs ++ ys ≡ [] → (xs ≡ []) × (ys ≡ [])
      nothing [] ys e = (refl, e)
      nothing (x ∷ xs) ys e = ground arith

  -- The first task's run, when another one is left.
  pub run_task-more :
      {peak : ℕ} (l : TaskLauncher T) (f : T) (p : List T)
      → IsSound peak l
      → IsOpen l
      → l.pool ≡ f ∷ p
      → 0 < length (p ++ l.task_q)
      → run_task l 0 no_relaunch ≡ ended l p
  run_task-more {peak = peak} l f p h o e k = run_task-ended l f p e ∙ go (ended l p).pool refl
    where
      both : (xs ys : List T) → xs ≡ [] → ys ≡ [] → xs ++ ys ≡ []
      both xs ys d c = rw (d, c) refl

      m-IsSound : IsSound peak (ended l p)
      m-IsSound = ended-IsSound l f p e h

      go : (xs : List T) → (ended l p).pool ≡ xs → check_finished (ended l p) ≡ ended l p
      go (x ∷ xs) d = check_finished-more (ended l p) (all_done-more (ended l p) x xs m-IsSound d)
      go [] d =
          let c = pool-IsSound (ended l p) m-IsSound (ended-IsOpen l p o).slots d in
          absurd (omega (arith, k, ap length (sym (ended-IsMoved l p)), ap length (both _ _ d c)))
