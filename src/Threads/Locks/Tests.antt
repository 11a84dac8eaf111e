-- ===== src/Threads/Locks/Tests.antt =====
-- Calls of the locks.
use hiaux.Base.{List, [], ◌∷◌, ◌≡◌, refl, none, some}
use hiaux.Threads.Locks.{
  LockOp, lock, try_lock, unlock, destroy, new_auto_lock, lock_ops, RwOp, read, write, read_destroy,
  write_destroy, read_unlock, new_rw_lock, rw_ops, rw_op, rw_read, rw_unlock, readers_unlock,
  unlock_read, destroy_read, set_read,
}
use hiaux.Threads.Locks.Scoped.{AreShared, rw_ops-AreShared}
use hiaux.Threads.Locks.Guards.{IsDefined, lock_ops-IsDefined}

abbrev lock_calls : List LockOp
lock_calls = lock ∷ try_lock ∷ unlock 0 ∷ lock ∷ destroy 0 ∷ destroy 1 ∷ []

lock_ops-IsDefined_example : IsDefined (lock_ops (some new_auto_lock) lock_calls)
lock_ops-IsDefined_example = lock_ops-IsDefined lock_calls

abbrev rw_calls : List RwOp
rw_calls = read ∷ read ∷ read_destroy 0 ∷ read_destroy 1 ∷ write ∷ write_destroy 0 ∷ []

rw_ops-AreShared_example : AreShared (rw_ops (some new_rw_lock) rw_calls)
rw_ops-AreShared_example = rw_ops-AreShared rw_calls (tt, (tt, (tt, (tt, (tt, (tt, tt))))))

-- A read guard that is unlocked and then destroyed unlocks a lock that no one holds.
unlocked_twice : rw_ops (some new_rw_lock) (read ∷ read_unlock 0 ∷ read_destroy 0 ∷ []) ≡ none
unfolding new_rw_lock rw_ops rw_op rw_read rw_unlock readers_unlock unlock_read destroy_read
    set_read
unlocked_twice = refl
