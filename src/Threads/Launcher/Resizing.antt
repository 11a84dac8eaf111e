-- ===== src/Threads/Launcher/Resizing.antt =====
-- What holds between the calls of a task launcher whose number of parallel tasks changes.
use hiaux.Base.{
  ℕ, ◌^◌, ◌≤◌, ◌<◌, inl, inr, List, [], ◌∷◌, Bool, true, false, get_elem?, Option-cases,
}
use hiaux.Threads.Launcher.{
  TaskRet, TaskLauncher, task_launcher, add_task, run_found, run_task, set_no_more_tasks, Event,
  add, run, no_more, resize, set_max_parallel, play, play_all,
}
use hiaux.Threads.Launcher.Invariant.{
  IsBounded, IsSound, add_task-IsSound, run_found-IsSound, run_task-IsSound, task_launcher-IsSound,
}

-- `peak` is the largest number of parallel tasks that the launcher was ever given.
module _ {T : Type 0} (peak : ℕ) where
  -- Between a `setMaxParallel` and the next `addTask` slots may be idle.
  abbrev pub IsSteady : Bool → TaskLauncher T → Type 0
  IsSteady true l = IsSound peak l
  IsSteady false l = IsBounded peak l

  -- Whether there is an `addTask` behind the last `setMaxParallel`, if there is one.
  abbrev pub steady : Bool → List (Event T) → Bool
  steady b [] = b
  steady b (add f ∷ es) = steady true es
  steady b (run i ret ∷ es) = steady b es
  steady b (no_more ∷ es) = steady b es
  steady b (resize m ∷ es) = steady false es

  -- `setMaxParallel` is not called with more than the peak.
  abbrev pub AreBelow : List (Event T) → Type 0
  AreBelow [] = Unit
  AreBelow (resize m ∷ es) = (m ≤ peak) × AreBelow es
  AreBelow (add f ∷ es) = AreBelow es
  AreBelow (run i ret ∷ es) = AreBelow es
  AreBelow (no_more ∷ es) = AreBelow es

  bounds : (b : Bool) (l : TaskLauncher T) → IsSteady b l → IsBounded peak l
  bounds true l h = h.0
  bounds false l h = h

  run_task-IsSteady :
      (b : Bool) (l : TaskLauncher T) (i : ℕ) (ret : TaskRet)
      → IsSteady b l
      → IsSteady b (run_task l i ret)
  unfolding run_task run_found
  run_task-IsSteady true l i ret h = run_task-IsSound peak l i ret h
  run_task-IsSteady false l i ret h = elim (Option-cases (get_elem? l.pool i)) [
    | inl e ↦ rw e h
    | inr (f, e) ↦ rw e (run_found-IsSound peak l i f ret e h).0
  ]

  closed-IsBounded : (l : TaskLauncher T) → IsBounded peak l → IsBounded peak (set_no_more_tasks l)
  unfolding set_no_more_tasks
  closed-IsBounded l h = record {
    counted = h.counted;
    small = h.small;
    low = h.low;
    bounded = h.bounded;
    once = h.once;
  }

  closed-IsSteady :
      (b : Bool) (l : TaskLauncher T) → IsSteady b l → IsSteady b (set_no_more_tasks l)
  closed-IsSteady true l h = (closed-IsBounded l h.0, unfold set_no_more_tasks in h.1)
  closed-IsSteady false l h = closed-IsBounded l h

  resized-IsBounded :
      (l : TaskLauncher T) (m : ℕ)
      → m ≤ peak
      → IsBounded peak l
      → IsBounded peak (set_max_parallel l m)
  unfolding set_max_parallel
  resized-IsBounded l m k h = record {
    counted = h.counted;
    small = h.small;
    low = k;
    bounded = h.bounded;
    once = h.once;
  }

  pub play_all-IsSteady :
      (es : List (Event T)) (b : Bool) (l : TaskLauncher T)
      → AreBelow es
      → IsSteady b l
      → IsSteady (steady b es) (play_all l es)
  unfolding play_all play
  play_all-IsSteady [] b l k h = h
  play_all-IsSteady (add f ∷ es) b l k h =
      play_all-IsSteady es true (add_task l f) k (add_task-IsSound peak l f (bounds b l h))
  play_all-IsSteady (run i ret ∷ es) b l k h =
      play_all-IsSteady es b (run_task l i ret) k (run_task-IsSteady b l i ret h)
  play_all-IsSteady (no_more ∷ es) b l k h =
      play_all-IsSteady es b (set_no_more_tasks l) k (closed-IsSteady b l h)
  play_all-IsSteady (resize m ∷ es) b l k h =
      play_all-IsSteady es false (set_max_parallel l m) k.1
        (resized-IsBounded l m k.0 (bounds b l h))

  -- A launcher is made for at most `peak` tasks in parallel, and `addTask`, `setNoMoreTasks`,
  -- `setMaxParallel` with at most `peak`, and runs of the pool's tasks follow in any order, each done
  -- before the next begins. Then the counters count the pool's tasks modulo 2^64, the pool
  -- has at most `peak` tasks, and `onFinished` was called at most once, exactly when
  -- `all_tasks_finished` is set. If no `setMaxParallel` was called, or an `addTask` came after the last
  -- one, a task is queued only while the pool has as many tasks as may run.
  pub play_all-IsSound :
      (m : ℕ) (es : List (Event T))
      → m ≤ peak
      → peak < 2 ^ 64
      → AreBelow es
      → IsSteady (steady true es) (play_all (task_launcher {T = T} m) es)
  play_all-IsSound m es l h k =
      play_all-IsSteady es true (task_launcher m) k (task_launcher-IsSound peak m l h)
