-- ===== src/Threads/Locks/Scoped.antt =====
-- The read-write lock, with guards that live until their destructors.
use hiaux.Base.{
  ℕ, zero, suc, ◌+◌, ◌⊎◌, ◌≡◌, refl, ap, List, [], ◌∷◌, Bool, true, false, ◌&&◌, ◌||◌, not,
  get_elem?, ◌==◌, ==_iff, if◌then◌else◌, Option, none, some, arith, if_both, sum_of, sum_of-append,
  Bool-cases, inl, inr, All,
}
use hiaux.Threads.Pool.{set_elem}
use hiaux.Threads.Pool.Conserved.{sum_of-set_elem}
use hiaux.Threads.Locks.{
  HRwLockWrite, HRwLock, RwOp, read, write, read_destroy, write_destroy, read_unlock, write_unlock,
  new_rw_lock, rw_read, rw_write, readers_unlock, rw_unlock, set_read, set_write, destroy_read,
  destroy_write, rw_op, rw_ops,
}
use hiaux.Threads.Locks.Guards.{count}

-- A live write guard that has the lock.
abbrev pub writes : HRwLockWrite → ℕ
writes g = count (g.alive && g.m_locked)

-- The lock has as many readers and writers as guards, and never both.
pub record IsShared (l : HRwLock) : Type 0 where
  pub reading : sum_of count l.read_guards ≡ l.readers
  pub writing : sum_of writes l.write_guards ≡ count l.writer
  pub apart : (l.writer ≡ false) ⊎ (l.readers ≡ 0)

abbrev pub AreShared : Option HRwLock → Type 0
AreShared none = ⊥
AreShared (some l) = IsShared l

-- No call of `unlock`.
abbrev pub IsScoped : RwOp → Type 0
IsScoped (read_unlock i) = ⊥
IsScoped (write_unlock i) = ⊥
IsScoped o = Unit

rw_read-IsShared : (l : HRwLock) → IsShared l → IsShared (rw_read l)
unfolding rw_read
rw_read-IsShared l h =
    if_both IsShared l.writer l _ (λ e. h)
      (λ e. record {
        reading = omega (arith, h.reading, sum_of-append count l.read_guards (true ∷ []));
        writing = h.writing;
        apart = inl e;
      })

rw_write-IsShared : (l : HRwLock) → IsShared l → IsShared (rw_write l)
unfolding rw_write
rw_write-IsShared l h =
    if_both IsShared (l.writer || not (l.readers == 0)) l _ (λ e. h)
      (λ e. record {
        reading = h.reading;
        writing = omega (
          arith,
          h.writing,
          ap count (free l.writer (l.readers == 0) e).0,
          sum_of-append writes l.write_guards (record { m_locked = true; alive = true } ∷ []),
        );
        apart = inr ((==_iff l.readers 0).0 (free l.writer (l.readers == 0) e).1);
      })
  where
    free : (a b : Bool) → (a || not b) ≡ false → (a ≡ false) × (b ≡ true)
    free true b e = ground arith
    free false true e = (refl, refl)
    free false false e = ground arith

-- A reader's guard is one of the readers, and then no one writes.
destroy_read-AreShared :
    (l : HRwLock) (i : ℕ) (o : Option Bool)
    → IsShared l
    → get_elem? l.read_guards i ≡ o
    → AreShared (destroy_read l i o)
unfolding destroy_read set_read rw_unlock readers_unlock
destroy_read-AreShared l i none h e = h
destroy_read-AreShared l i (some false) h e = h
destroy_read-AreShared l i (some true) h e = go l.writer refl l.readers refl
  where
    moved : sum_of count (set_elem l.read_guards i false) + 1 ≡ sum_of count l.read_guards + 0
    moved = sum_of-set_elem count l.read_guards i true false e

    exclusive : (l.writer ≡ false) ⊎ (l.readers ≡ 0) → (count l.writer ≡ 0) ⊎ (l.readers ≡ 0)
    exclusive (inl a) = inl (ap count a)
    exclusive (inr a) = inr a

    go :
        (w : Bool)
        → l.writer ≡ w
        → (n : ℕ) → l.readers ≡ n
        → AreShared (
            set_read i false (if w then some (record l { writer = false }) else readers_unlock l n))
    go w d zero c = absurd (omega (arith, moved, h.reading, c))
    go true d (suc n) c = absurd (omega (arith, exclusive h.apart, ap count d, c))
    go false d (suc n) c = record {
      reading = omega (arith, moved, h.reading, c);
      writing = h.writing;
      apart = inl d;
    }

destroy_write-AreShared :
    (l : HRwLock) (i : ℕ) (o : Option HRwLockWrite)
    → IsShared l
    → get_elem? l.write_guards i ≡ o
    → AreShared (destroy_write l i o)
unfolding destroy_write set_write rw_unlock
destroy_write-AreShared l i none h e = h
destroy_write-AreShared l i (some g) h e =
    if_both AreShared (g.alive && g.m_locked) _ _ (λ k. held k (Bool-cases l.writer))
      (λ k. record {
        reading = h.reading;
        writing = omega (arith, h.writing, ap count k, moved);
        apart = h.apart;
      })
  where
    moved :
        sum_of writes (set_elem l.write_guards i (record g { alive = false })) + writes g
        ≡ sum_of writes l.write_guards + 0
    moved = sum_of-set_elem writes l.write_guards i g (record g { alive = false }) e

    held :
        (g.alive && g.m_locked) ≡ true
        → (l.writer ≡ true) ⊎ (l.writer ≡ false)
        → AreShared (
            set_write i
              (record g { alive = false })
              (if l.writer then some (record l { writer = false }) else readers_unlock l l.readers))
    held k (inr d) = absurd (omega (arith, ap count k, ap count d, h.writing, moved))
    held k (inl d) = rw d (record {
      reading = h.reading;
      writing = omega (arith, ap count k, ap count d, h.writing, moved);
      apart = inl refl;
    })

rw_ops-AreShared_from :
    (os : List RwOp) (l : Option HRwLock) → All IsScoped os → AreShared l → AreShared (rw_ops l os)
unfolding rw_ops rw_op
rw_ops-AreShared_from [] l k h = h
rw_ops-AreShared_from (o ∷ os) none k h = h
rw_ops-AreShared_from (o ∷ os) (some l) k h = rw_ops-AreShared_from os _ k.1 (go o k.0)
  where
    go : (o : RwOp) → IsScoped o → AreShared (rw_op l o)
    go read k = rw_read-IsShared l h
    go write k = rw_write-IsShared l h
    go (read_destroy i) k = destroy_read-AreShared l i (get_elem? l.read_guards i) h refl
    go (write_destroy i) k = destroy_write-AreShared l i (get_elem? l.write_guards i) h refl
    go (read_unlock i) k = absurd k
    go (write_unlock i) k = absurd k

-- Guards of a new `hRWLock` are made and destroyed in any order, and `unlock` is not called: the lock is
-- never unlocked while no one holds it, it has as many readers as live read guards and as many
-- writers as live write guards, and never readers beside a writer.
pub rw_ops-AreShared : (os : List RwOp) → All IsScoped os → AreShared (rw_ops (some new_rw_lock) os)
unfolding new_rw_lock
rw_ops-AreShared os k =
    rw_ops-AreShared_from os (some new_rw_lock) k
      (record { reading = refl; writing = refl; apart = inl refl })
