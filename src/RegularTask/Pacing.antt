-- ===== src/RegularTask/Pacing.antt =====
-- The launches of a regular task under a clock that does not go back.
use hiaux.Base.{
  ℕ, ◌+◌, ◌-◌, ◌^◌, ◌≤◌, ◌<◌, ◌≡◌, refl, List, [], ◌∷◌, ◌++◌, ltb, arith, if_both, ltb→lt, ltb→le,
}
use hiaux.RegularTask.{RegularTask, regular_task, since_launch, check_run, check_runs}

-- Times that do not go back, each a 64-bit number.
abbrev pub IsClock : ℕ → List ℕ → Type 0
IsClock last [] = Unit
IsClock last (now ∷ rest) = (last ≤ now) × ((now < 2 ^ 64) × IsClock now rest)

-- More than a period before each launch.
abbrev pub IsPaced : ℕ → ℕ → List ℕ → Type 0
IsPaced period last [] = Unit
IsPaced period last (l ∷ ls) = (last + period < l) × IsPaced period l ls

abbrev pub latest : ℕ → List ℕ → ℕ
latest last [] = last
latest last (l ∷ ls) = latest l ls

IsPaced-append :
    (p last l : ℕ) (ls : List ℕ)
    → IsPaced p last ls
    → latest last ls + p < l
    → IsPaced p last (ls ++ l ∷ [])
IsPaced-append p last l [] h k = (k, tt)
IsPaced-append p last l (x ∷ ls) (a, h) k = (a, IsPaced-append p x l ls h k)

latest-append : (last l : ℕ) (ls : List ℕ) → latest last (ls ++ l ∷ []) ≡ l
latest-append last l [] = refl
latest-append last l (x ∷ ls) = latest-append x l ls

since_launch_lem : (now last : ℕ) → last ≤ now → now < 2 ^ 64 → since_launch now last ≡ now - last
unfolding since_launch
since_launch_lem now last h k = omega arith

-- What is so at a time: the launches are apart, the latest is the stored one, and it is not later.
abbrev IsOn : ℕ → ℕ → RegularTask → Type 0
IsOn p now t =
    (t.period ≡ p)
    × (IsPaced p 0 t.launches
        × ((latest 0 t.launches ≡ t.last_launch_ts) × (t.last_launch_ts ≤ now)))

check_run-IsOn :
    (p last now : ℕ) (t : RegularTask)
    → IsOn p last t
    → last ≤ now
    → now < 2 ^ 64
    → IsOn p now (check_run t now) × (now ≤ (check_run t now).last_launch_ts + p)
unfolding check_run
check_run-IsOn p last now t (e, (h, (l, b))) k m =
    if_both (λ r. IsOn p now r × (now ≤ r.last_launch_ts + p))
      (ltb t.period (since_launch now t.last_launch_ts))
      (record t { last_launch_ts = now; launches = t.launches ++ now ∷ [] }) t
      (λ y. (
        (
          e,
          (
            IsPaced-append p 0 now t.launches h (
                omega (
                  arith,
                  ltb→lt t.period (since_launch now t.last_launch_ts) y,
                  since_launch_lem now t.last_launch_ts (omega arith) m,
                )),
            (latest-append 0 now t.launches, omega arith),
          ),
        ),
        omega arith,
      ))
      (λ n. (
        (e, (h, (l, omega arith))),
        omega (
          arith,
          ltb→le t.period (since_launch now t.last_launch_ts) n,
          since_launch_lem now t.last_launch_ts (omega arith) m,
        ),
      ))

check_runs-IsOn :
    (p last now : ℕ) (times : List ℕ) (t : RegularTask)
    → IsOn p last t
    → IsClock last (times ++ now ∷ [])
    → IsOn p now (check_runs t (times ++ now ∷ []))
      × (now ≤ (check_runs t (times ++ now ∷ [])).last_launch_ts + p)
unfolding check_runs
check_runs-IsOn p last now [] t h (k, (m, c)) = check_run-IsOn p last now t h k m
check_runs-IsOn p last now (x ∷ times) t h (k, (m, c)) =
    check_runs-IsOn p x now times (check_run t x) (check_run-IsOn p last x t h k m).0 c

-- A regular task with a period is checked at times that do not go back, each below 2 ^ 64, the last
-- of them `now`. Then its first launch is later than a period after 0 and any other later than a
-- period after the one before it; and `now` is no later than a period after the latest launch, or
-- after 0 when there was none.
pub check_runs-IsPaced :
    (period now : ℕ) (times : List ℕ)
    → IsClock 0 (times ++ now ∷ [])
    → IsPaced period 0 (check_runs (regular_task period) (times ++ now ∷ [])).launches
      × (now ≤ latest 0 (check_runs (regular_task period) (times ++ now ∷ [])).launches + period)
unfolding regular_task
check_runs-IsPaced period now times c =
    let ((e, (h, (l, b))), f) =
      check_runs-IsOn period 0 now times (regular_task period) (refl, (tt, (refl, omega arith)))
        c in
    (h, omega arith)
