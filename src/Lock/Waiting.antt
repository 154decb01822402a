-- ===== src/Lock/Waiting.antt =====
-- What the waiting tasks of the lock can rely on: a writer is let in, a release that lets a task
-- in wakes it; and the VT mode, which does not wait for its own holder.
use vmwgfx.Prelude.{ℕ, zero, suc, ◌+◌, ◌≤◌, ◌<◌, ◌≡◌, ◌≢◌, refl, true, false, arith, none, some}
use vmwgfx.Lock.{
  pos, Lock, Attempt, locked, waiting, any_but_write, read_unlock, try_read, write_unlock,
  try_write, write_interrupted, write_lock_downgrade, vt_unlock, vt_lock_remove, try_vt,
  vt_interrupted, vt_register, suspend_unlock, try_suspend, set_kill,
}
use vmwgfx.Lock.Exclusion.{System, Step}

-- `n` readers leave.
unfoldable pub readers_leave : ℕ → Lock → Lock
readers_leave zero l = l
readers_leave (suc n) l = readers_leave n (read_unlock l)

-- What the departure of readers leaves behind.
record Left (k m : ℕ) (l l' : Lock) : Type 0 where
  count : l'.rw ≡ pos m
  flags : l'.flags ≡ l.flags
  kill_takers : l'.kill_takers ≡ l.kill_takers
  wakes : l.wakes ≤ l'.wakes
  woken : (m ≡ 0) → (0 < k) → l.wakes < l'.wakes

read_unlock-Left : (m : ℕ) (l : Lock) → l.rw ≡ pos (suc m) → Left 1 m l (read_unlock l)
unfolding read_unlock
read_unlock-Left zero l h = ground arith
read_unlock-Left (suc m) l h = ground arith

readers_leave-Left : (k m : ℕ) (l : Lock) → l.rw ≡ pos (k + m) → Left k m l (readers_leave k l)
unfolding readers_leave
readers_leave-Left zero m l h = ground arith
readers_leave-Left (suc zero) m l h = read_unlock-Left m l (ground arith)
readers_leave-Left (suc (suc k)) m l h =
    let a = read_unlock-Left (suc k + m) l (ground arith) in
    let b = readers_leave-Left (suc k) m (read_unlock l) (a.count) in ground arith

pending_refuses : (l : Lock) → l.flags.write_pending ≡ true → (try_read l).0 ≢ locked
unfolding try_read
pending_refuses l h = ground arith

-- The write attempt of a task that has to wait for `k + m` readers.
record Pending (l w : Lock) : Type 0 where
  count : w.rw ≡ l.rw
  pending : w.flags.write_pending ≡ true
  others : any_but_write w.flags ≡ any_but_write l.flags
  alive : w.kill_takers ≡ false

write_waits :
    (n : ℕ) (l : Lock)
    → l.rw ≡ pos (suc n)
    → l.kill_takers ≡ false
    → ((try_write l).0 ≡ waiting) × Pending l ((try_write l).1)
unfolding try_write
write_waits n l h a = ground arith

write_enters :
    (l : Lock)
    → l.rw ≡ pos 0
    → l.kill_takers ≡ false
    → any_but_write l.flags ≡ false
    → (try_write l).0 ≡ locked
unfolding try_write
write_enters l h a b = ground arith

-- A write attempt against `n + 1` readers waits; while the readers leave, every read attempt is
-- refused; when the last has left, the task has been woken and its attempt takes the lock.
pub writer_enters :
    (n : ℕ) (l : Lock)
    → l.rw ≡ pos (suc n)
    → l.kill_takers ≡ false
    → any_but_write l.flags ≡ false
    → let w = (try_write l).1 in
      ((try_write l).0 ≡ waiting)
      × ((k m : ℕ) → k + m ≡ suc n → (try_read (readers_leave k w)).0 ≢ locked)
      × (w.wakes < (readers_leave (suc n) w).wakes)
      × ((try_write (readers_leave (suc n) w)).0 ≡ locked)
writer_enters n l h a b =
    let (c, p) = write_waits n l h a in
    let w = (try_write l).1 in
    let e = readers_leave-Left (suc n) 0 w (ground arith) in
    (
      c,
      λ k m s.
          let d = readers_leave-Left k m w (ground arith) in
          pending_refuses (readers_leave k w) (ground arith),
      e.woken refl (omega arith),
      write_enters (readers_leave (suc n) w) (e.count) (ground arith) (ground arith),
    )

-- The modes a task may wait for, and its attempt.
pub data Mode : Type 0 where
  to_read to_write to_vt to_suspend : Mode

abbrev pub attempt : Mode → Lock → Attempt
attempt to_read l = (try_read l).0
attempt to_write l = (try_write l).0
attempt to_vt l = (try_vt l).0
attempt to_suspend l = (try_suspend l).0

-- No wake-up is lost: where a step of any task turns an attempt that has to wait into one that
-- takes the lock, that step wakes the waiting tasks.
pub Step-wakes :
    (s u : System) (m : Mode)
    → Step s u
    → attempt m s.lock ≡ waiting
    → attempt m u.lock ≡ locked
    → s.lock.wakes < u.lock.wakes
unfolding read_unlock try_read write_unlock try_write write_interrupted write_lock_downgrade
    vt_unlock try_vt vt_interrupted vt_register suspend_unlock try_suspend set_kill
Step-wakes s u to_read st w l = ground arith
Step-wakes s u to_write st w l = ground arith
Step-wakes s u to_vt st w l = ground arith
Step-wakes s u to_suspend st w l = ground arith

-- On a lock without readers or writer, the VT mode is granted while it is held; after the two
-- grants the first release succeeds and the second meets the `BUG_ON`.
pub vt_granted_twice :
    (l : Lock)
    → l.rw ≡ pos 0
    → let l1 = (try_vt l).1 in
      let l2 = (try_vt l1).1 in
      ((try_vt l).0 ≡ locked)
      × ((try_vt l1).0 ≡ locked)
      × ((l3 : Lock) × (vt_lock_remove l2 ≡ some l3) × (vt_lock_remove l3 ≡ none))
unfolding try_vt vt_unlock vt_lock_remove
vt_granted_twice l h =
    let l2 = (try_vt (try_vt l).1).1 in
    (ground arith, ground arith, ((vt_unlock l2).1, ground arith, ground arith))
