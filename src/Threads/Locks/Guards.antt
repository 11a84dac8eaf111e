-- ===== src/Threads/Locks/Guards.antt =====
-- Tickets and guards, and whether their lock is held.
use hiaux.Base.{
  ℕ, ◌≡◌, refl, ap, List, [], ◌∷◌, Bool, true, false, ◌&&◌, get_elem?, Option, none, some, arith,
  if_both, sum_of, sum_of-append, Bool-cases, inl, inr,
}
use hiaux.Threads.Pool.Conserved.{sum_of-set_elem}
use hiaux.Threads.Locks.{
  HLockTicket, HAutoLock, LockOp, lock, try_lock, unlock, destroy, new_auto_lock, take_lock,
  mutex_unlock, set_ticket, unlock_ticket, destroy_ticket, lock_op, lock_ops,
}

abbrev pub count : Bool → ℕ
count true = 1
count false = 0

-- A live ticket that has the mutex.
abbrev pub holds : HLockTicket → ℕ
holds t = count (t.alive && t.m_locked)

-- The mutex is locked for exactly one ticket, or free and for none.
abbrev pub IsHeld : HAutoLock → Type 0
IsHeld a = sum_of holds a.tickets ≡ count a.locked

abbrev pub IsDefined : Option HAutoLock → Type 0
IsDefined none = ⊥
IsDefined (some a) = IsHeld a

take_lock-IsHeld : (a : HAutoLock) → IsHeld a → IsHeld (take_lock a)
unfolding take_lock
take_lock-IsHeld a h =
    if_both IsHeld a.locked a _ (λ e. h)
      (λ e. omega (
        arith,
        h,
        ap count e,
        sum_of-append holds a.tickets (record { m_locked = true; alive = true } ∷ []),
      ))

-- A ticket that has the mutex is given up.
give_up-IsDefined :
    (a : HAutoLock) (i : ℕ) (t u : HLockTicket)
    → IsHeld a
    → get_elem? a.tickets i ≡ some t
    → holds t ≡ 1
    → holds u ≡ 0
    → IsDefined (set_ticket i u (mutex_unlock a))
unfolding set_ticket mutex_unlock
give_up-IsDefined a i t u h e k l = elim (Bool-cases a.locked) [
  | inr d ↦ absurd (omega (arith, h, k, ap count d, sum_of-set_elem holds a.tickets i t u e))
  | inl d ↦ rw d (omega (arith, h, k, l, ap count d, sum_of-set_elem holds a.tickets i t u e))
]

unlock_ticket-IsDefined :
    (a : HAutoLock) (i : ℕ) (o : Option HLockTicket)
    → IsHeld a
    → get_elem? a.tickets i ≡ o
    → IsDefined (unlock_ticket a i o)
unfolding unlock_ticket
unlock_ticket-IsDefined a i none h e = h
unlock_ticket-IsDefined a i (some t) h e =
    if_both IsDefined (t.alive && t.m_locked) _ (some a)
      (λ k. give_up-IsDefined a i t (record t { m_locked = false }) h e (ap count k) (idle t.alive))
      (λ k. h)
  where
    idle : (b : Bool) → count (b && false) ≡ 0
    idle true = refl
    idle false = refl

destroy_ticket-IsDefined :
    (a : HAutoLock) (i : ℕ) (o : Option HLockTicket)
    → IsHeld a
    → get_elem? a.tickets i ≡ o
    → IsDefined (destroy_ticket a i o)
unfolding destroy_ticket set_ticket
destroy_ticket-IsDefined a i none h e = h
destroy_ticket-IsDefined a i (some t) h e =
    if_both IsDefined (t.alive && t.m_locked) _ _
      (λ k. give_up-IsDefined a i t (record t { alive = false }) h e (ap count k) refl)
      (λ k.
        omega (
          arith,
          h,
          ap count k,
          sum_of-set_elem holds a.tickets i t (record t { alive = false }) e,
        ))

lock_ops-IsDefined_from :
    (os : List LockOp) (a : Option HAutoLock) → IsDefined a → IsDefined (lock_ops a os)
unfolding lock_ops lock_op
lock_ops-IsDefined_from [] a h = h
lock_ops-IsDefined_from (o ∷ os) none h = h
lock_ops-IsDefined_from (o ∷ os) (some a) h = lock_ops-IsDefined_from os _ (go o)
  where
    go : (o : LockOp) → IsDefined (lock_op a o)
    go lock = take_lock-IsHeld a h
    go try_lock = take_lock-IsHeld a h
    go (unlock i) = unlock_ticket-IsDefined a i (get_elem? a.tickets i) h refl
    go (destroy i) = destroy_ticket-IsDefined a i (get_elem? a.tickets i) h refl

-- Whatever calls of `lock`, `tryLock`, `unlock` and destructors follow on a new `hAutoLock`, one after the
-- other: the mutex is never unlocked while it is free, and it is locked exactly if one live ticket has
-- it, and never two.
pub lock_ops-IsDefined : (os : List LockOp) → IsDefined (lock_ops (some new_auto_lock) os)
unfolding new_auto_lock
lock_ops-IsDefined os = lock_ops-IsDefined_from os (some new_auto_lock) refl
