-- ===== src/Threads/Locks.antt =====
-- threads/locks.h and threads/locks.cpp: the mutex with its tickets, and the read-write lock with its
-- guards, each with the lock of pthread that it wraps. A call is one step. A thread that waits for a lock
-- makes its call again. A ticket or a guard is named by the place in which it was made.
pub mod Guards
pub mod Scoped
mod Tests
use hiaux.Base.{
  ℕ, zero, suc, ◌+◌, List, [], ◌∷◌, ◌++◌, Bool, true, false, ◌&&◌, ◌||◌, not, get_elem?, ◌==◌,
  if◌then◌else◌, Option, none, some,
}
use hiaux.Threads.Pool.{set_elem}

pub record HLockTicket : Type 0 where
  pub m_locked : Bool
  pub alive : Bool

-- With the state of its mutex and the tickets made for it.
pub record HAutoLock : Type 0 where
  pub locked : Bool
  pub tickets : List HLockTicket

pub data LockOp : Type 0 where
  lock try_lock : LockOp
  unlock : ℕ → LockOp
  destroy : ℕ → LockOp

unfoldable pub new_auto_lock : HAutoLock
new_auto_lock = record { locked = false; tickets = [] }

-- The ticket of `lock`, which locks the mutex, and that of a successful `tryLock` are alike.
unfoldable pub take_lock : HAutoLock → HAutoLock
take_lock a = if a.locked then a else record {
  locked = true;
  tickets = a.tickets ++ record { m_locked = true; alive = true } ∷ [];
}

-- `pthread_mutex_unlock`, which is undefined for a mutex that is not locked.
unfoldable pub mutex_unlock : HAutoLock → Option HAutoLock
mutex_unlock a = if a.locked then some (record a { locked = false }) else none

unfoldable pub set_ticket : ℕ → HLockTicket → Option HAutoLock → Option HAutoLock
set_ticket i t none = none
set_ticket i t (some a) = some (record a { tickets = set_elem a.tickets i t })

unfoldable pub unlock_ticket : HAutoLock → ℕ → Option HLockTicket → Option HAutoLock
unlock_ticket a i none = some a
unlock_ticket a i (some t) =
    if t.alive && t.m_locked
    then set_ticket i (record t { m_locked = false }) (mutex_unlock a)
    else some a

-- The destructor, which runs once.
unfoldable pub destroy_ticket : HAutoLock → ℕ → Option HLockTicket → Option HAutoLock
destroy_ticket a i none = some a
destroy_ticket a i (some t) =
    if t.alive && t.m_locked
    then set_ticket i (record t { alive = false }) (mutex_unlock a)
    else set_ticket i (record t { alive = false }) (some a)

unfoldable pub lock_op : HAutoLock → LockOp → Option HAutoLock
lock_op a lock = some (take_lock a)
lock_op a try_lock = some (take_lock a)
lock_op a (unlock i) = unlock_ticket a i (get_elem? a.tickets i)
lock_op a (destroy i) = destroy_ticket a i (get_elem? a.tickets i)

unfoldable pub lock_ops : Option HAutoLock → List LockOp → Option HAutoLock
lock_ops a [] = a
lock_ops none (o ∷ os) = none
lock_ops (some a) (o ∷ os) = lock_ops (lock_op a o) os

pub record HRwLockWrite : Type 0 where
  pub m_locked : Bool
  pub alive : Bool

-- With the state of its lock; a read guard has only the question whether it is alive.
pub record HRwLock : Type 0 where
  pub readers : ℕ
  pub writer : Bool
  pub read_guards : List Bool
  pub write_guards : List HRwLockWrite

pub data RwOp : Type 0 where
  read write : RwOp
  read_destroy : ℕ → RwOp
  write_destroy : ℕ → RwOp
  read_unlock : ℕ → RwOp
  write_unlock : ℕ → RwOp

unfoldable pub new_rw_lock : HRwLock
new_rw_lock = record { readers = 0; writer = false; read_guards = []; write_guards = [] }

unfoldable pub rw_read : HRwLock → HRwLock
rw_read l =
    if l.writer
    then l
    else record l { readers = suc l.readers; read_guards = l.read_guards ++ true ∷ [] }

unfoldable pub rw_write : HRwLock → HRwLock
rw_write l = if l.writer || not (l.readers == 0) then l else record l {
  writer = true;
  write_guards = l.write_guards ++ record { m_locked = true; alive = true } ∷ [];
}

unfoldable pub readers_unlock : HRwLock → ℕ → Option HRwLock
readers_unlock l zero = none
readers_unlock l (suc n) = some (record l { readers = n })

-- `pthread_rwlock_unlock`, which is undefined for a lock that no one holds.
unfoldable pub rw_unlock : HRwLock → Option HRwLock
rw_unlock l = if l.writer then some (record l { writer = false }) else readers_unlock l l.readers

unfoldable pub set_read : ℕ → Bool → Option HRwLock → Option HRwLock
set_read i g none = none
set_read i g (some l) = some (record l { read_guards = set_elem l.read_guards i g })

unfoldable pub set_write : ℕ → HRwLockWrite → Option HRwLock → Option HRwLock
set_write i g none = none
set_write i g (some l) = some (record l { write_guards = set_elem l.write_guards i g })

-- The destructor of a read guard unlocks also what `unlock` has unlocked.
unfoldable pub destroy_read : HRwLock → ℕ → Option Bool → Option HRwLock
destroy_read l i none = some l
destroy_read l i (some alive) = if alive then set_read i false (rw_unlock l) else some l

unfoldable pub unlock_read : HRwLock → Option Bool → Option HRwLock
unlock_read l none = some l
unlock_read l (some alive) = if alive then rw_unlock l else some l

unfoldable pub destroy_write : HRwLock → ℕ → Option HRwLockWrite → Option HRwLock
destroy_write l i none = some l
destroy_write l i (some g) =
    if g.alive && g.m_locked
    then set_write i (record g { alive = false }) (rw_unlock l)
    else set_write i (record g { alive = false }) (some l)

unfoldable pub unlock_write : HRwLock → ℕ → Option HRwLockWrite → Option HRwLock
unlock_write l i none = some l
unlock_write l i (some g) =
    if g.alive then set_write i (record g { m_locked = false }) (rw_unlock l) else some l

unfoldable pub rw_op : HRwLock → RwOp → Option HRwLock
rw_op l read = some (rw_read l)
rw_op l write = some (rw_write l)
rw_op l (read_destroy i) = destroy_read l i (get_elem? l.read_guards i)
rw_op l (write_destroy i) = destroy_write l i (get_elem? l.write_guards i)
rw_op l (read_unlock i) = unlock_read l (get_elem? l.read_guards i)
rw_op l (write_unlock i) = unlock_write l i (get_elem? l.write_guards i)

unfoldable pub rw_ops : Option HRwLock → List RwOp → Option HRwLock
rw_ops l [] = l
rw_ops none (o ∷ os) = none
rw_ops (some l) (o ∷ os) = rw_ops (rw_op l o) os
