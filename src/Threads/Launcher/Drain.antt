-- ===== src/Threads/Launcher/Drain.antt =====
-- The end of a task launcher's work.
use mathlib.Core.Path.{subst}
use hiaux.Base.{
  ℕ, zero, suc, ◌<◌, ◌^◌, ◌≡◌, refl, sym, ◌∙◌, ap, inl, inr, List, [], ◌∷◌, ◌++◌, length, ltb,
  arith, Bool-cases, append-nil, append_assoc,
}
use hiaux.Threads.Launcher.{
  no_relaunch, TaskLauncher, task_launcher, launch, launch_queued, check_launch, add_task, run_task,
  count_running, set_no_more_tasks,
}
use hiaux.Threads.Launcher.Invariant.{
  IsSound, IsMoved, add_task-IsMoved, add_task-IsSound, task_launcher-IsSound,
}
use hiaux.Threads.Launcher.Ending.{
  IsOpen, launch_queued-IsOpen, ended, ended-IsMoved, ended-IsSound, IsOver, pool-IsSound,
  ended-IsOpen, run_task-last, run_task-more,
}

module _ {T : Type 0} where
  unfoldable pub front_logged :
      List T → TaskLauncher T → TaskLauncher T × List T → TaskLauncher T × List T
  front_logged [] l r = (l, [])
  front_logged (f ∷ p) l r = (r.0, f ∷ r.1)

  -- The pool's first task runs and is not launched again, `n` times; with the tasks that ran.
  unfoldable pub run_front : ℕ → TaskLauncher T → TaskLauncher T × List T
  run_front zero l = (l, [])
  run_front (suc n) l = front_logged l.pool l (run_front n (run_task l 0 no_relaunch))

  abbrev AllRun : TaskLauncher T → TaskLauncher T × List T → Type 0
  AllRun l r = (r.1 ≡ l.pool ++ l.task_q) × IsOver r.0

  first-IsSound :
      {peak : ℕ} (l : TaskLauncher T)
      → IsSound peak l
      → IsOpen l
      → 0 < length (l.pool ++ l.task_q)
      → (f : T) × (p : List T) × (l.pool ≡ f ∷ p)
  first-IsSound l h o k = go l.pool refl
    where
      go : (xs : List T) → l.pool ≡ xs → (f : T) × (p : List T) × (l.pool ≡ f ∷ p)
      go (f ∷ p) e = (f, p, e)
      go [] e = absurd (
          omega
            (arith, k, ap (λ p. length (p ++ l.task_q)) e, ap length (pool-IsSound l h o.slots e)))

  front_logged-AllRun :
      (l : TaskLauncher T) (r : TaskLauncher T × List T) (f : T) (p : List T)
      → l.pool ≡ f ∷ p
      → r.1 ≡ p ++ l.task_q
      → IsOver r.0
      → AllRun l (front_logged l.pool l r)
  unfolding front_logged
  front_logged-AllRun l r f p e d o =
      subst (λ q. AllRun (record l { pool = q }) (front_logged q l r)) (sym e) (ap (◌∷◌ f) d, o)

  run_front-AllRun :
      {peak : ℕ} (n : ℕ) (l : TaskLauncher T)
      → IsSound peak l
      → IsOpen l
      → length (l.pool ++ l.task_q) ≡ suc n
      → AllRun l (run_front (suc n) l)
  unfolding run_front
  run_front-AllRun zero l h o k =
      let (f, p, e) = first-IsSound l h o (omega (arith, k)) in
      let d = empty (p ++ l.task_q) (omega (arith, k, ap (λ q. length (q ++ l.task_q)) e)) in
      front_logged-AllRun l _ f p e (sym d)
        (run_task-last l f h o (e ∙ ap (◌∷◌ f) (parts p l.task_q d).0) (parts p l.task_q d).1)
    where
      empty : (q : List T) → length q ≡ 0 → q ≡ []
      empty [] d = refl
      empty (x ∷ q) d = ground arith

      parts : (p q : List T) → p ++ q ≡ [] → (p ≡ []) × (q ≡ [])
      parts [] q d = (refl, d)
      parts (x ∷ p) q d = ground arith
  run_front-AllRun (suc n) l h o k =
      let (f, p, e) = first-IsSound l h o (omega (arith, k)) in
      let left : length (p ++ l.task_q) ≡ suc n =
        omega (arith, k, ap (λ q. length (q ++ l.task_q)) e) in
      let moved = ended-IsMoved l p in
      let rest =
        run_front-AllRun n (ended l p) (ended-IsSound l f p e h) (ended-IsOpen l p o)
          (ap length moved ∙ left) in
      let more = run_task-more l f p h o e (omega (arith, left)) in
      front_logged-AllRun l (run_front (suc n) (run_task l 0 no_relaunch)) f p e
        (subst (λ m. (run_front (suc n) m).1 ≡ p ++ l.task_q) (sym more) (rest.0 ∙ moved))
        (subst (λ m. IsOver (run_front (suc n) m).0) (sym more) rest.1)

  unfoldable pub add_all : TaskLauncher T → List T → TaskLauncher T
  add_all l [] = l
  add_all l (f ∷ fs) = add_all (add_task l f) fs

  add_all-IsSound :
      {peak : ℕ} (fs : List T) (l : TaskLauncher T) → IsSound peak l → IsSound peak (add_all l fs)
  unfolding add_all
  add_all-IsSound [] l h = h
  add_all-IsSound (f ∷ fs) l h = add_all-IsSound fs (add_task l f) (add_task-IsSound _ l f h.0)

  -- All that is added is in the pool or in the queue, in the order of the calls.
  add_all-tasks :
      (fs : List T) (l : TaskLauncher T)
      → (add_all l fs).pool ++ (add_all l fs).task_q ≡ (l.pool ++ l.task_q) ++ fs
  unfolding add_all
  add_all-tasks [] l = sym (append-nil (l.pool ++ l.task_q))
  add_all-tasks (f ∷ fs) l =
      add_all-tasks fs (add_task l f)
      ∙ (ap (λ xs. xs ++ fs) (go _ _ _ _ (add_task-IsMoved l f))
          ∙ append_assoc (l.pool ++ l.task_q) (f ∷ []) fs)
    where
      go : (p q p2 q2 : List T) → IsMoved p (q ++ f ∷ []) p2 q2 → p2 ++ q2 ≡ (p ++ q) ++ f ∷ []
      go p q p2 q2 (zs, e, d) =
          ap (λ r. r ++ q2) e
          ∙ (append_assoc p zs q2 ∙ (ap (◌++◌ p) (sym d) ∙ sym (append_assoc p q (f ∷ []))))

  launch_queued-closed :
      (q : List T) (l : TaskLauncher T)
      → set_no_more_tasks (launch_queued q l) ≡ launch_queued q (set_no_more_tasks l)
  unfolding set_no_more_tasks launch_queued launch count_running
  launch_queued-closed [] l = refl
  launch_queued-closed (f ∷ q) l = elim (Bool-cases (ltb (count_running l) l.max_parallel)) [
    | inl e ↦ rw e (launch_queued-closed q (launch l f))
    | inr e ↦ rw e refl
  ]

  add_all-IsOpen :
      (fs : List T) (l : TaskLauncher T)
      → IsOpen (set_no_more_tasks l)
      → IsOpen (set_no_more_tasks (add_all l fs))
  unfolding add_all set_no_more_tasks add_task check_launch
  add_all-IsOpen [] l h = h
  add_all-IsOpen (f ∷ fs) l h = add_all-IsOpen fs (add_task l f) (
      subst IsOpen (sym (launch_queued-closed (l.task_q ++ f ∷ []) _)) (
        launch_queued-IsOpen (l.task_q ++ f ∷ []) _ (record {
          closed = refl;
          unfinished = h.unfinished;
          unlocked = h.unlocked;
          silent = h.silent;
          slots = h.slots;
        })))

  closed-IsSound :
      {peak : ℕ} (l : TaskLauncher T) → IsSound peak l → IsSound peak (set_no_more_tasks l)
  unfolding set_no_more_tasks
  closed-IsSound l h = (
    record {
      counted = h.0.counted;
      small = h.0.small;
      low = h.0.low;
      bounded = h.0.bounded;
      once = h.0.once;
    },
    h.1,
  )

  task_launcher-IsOpen : (m : ℕ) → 0 < m → IsOpen (set_no_more_tasks (task_launcher {T = T} m))
  unfolding task_launcher set_no_more_tasks
  task_launcher-IsOpen m h = record {
    closed = refl;
    unfinished = refl;
    unlocked = refl;
    silent = refl;
    slots = h;
  }

  -- A launcher made for `m` tasks in parallel, `m` positive, is given the tasks `f ∷ fs`, then
  -- `setNoMoreTasks` is called; after as many runs of the pool's first task as there are tasks, none of
  -- which asks for a relaunch, every task has run once, in the order of the calls, the pool and the queue
  -- are empty, and `onFinished` has been called exactly once.
  pub run_front_complete :
      (m : ℕ) (f : T) (fs : List T)
      → 0 < m
      → m < 2 ^ 64
      → ((run_front (length (f ∷ fs)) (set_no_more_tasks (add_all (task_launcher m) (f ∷ fs)))).1
          ≡ f ∷ fs)
        × IsOver
            (run_front (length (f ∷ fs)) (set_no_more_tasks (add_all (task_launcher m) (f ∷ fs)))).0
  unfolding set_no_more_tasks task_launcher
  run_front_complete m f fs h k =
      let l : TaskLauncher T = add_all (task_launcher m) (f ∷ fs) in
      let tasks : l.pool ++ l.task_q ≡ f ∷ fs = add_all-tasks (f ∷ fs) (task_launcher m) in
      let sound =
        add_all-IsSound (f ∷ fs) (task_launcher m) (task_launcher-IsSound m m (omega arith) k) in
      let run =
        run_front-AllRun (length fs) (set_no_more_tasks l) (closed-IsSound l sound)
          (add_all-IsOpen (f ∷ fs) (task_launcher m) (task_launcher-IsOpen m h))
          (ap length tasks) in
      (run.0 ∙ tasks, run.1)
