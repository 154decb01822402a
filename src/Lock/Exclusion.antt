-- ===== src/Lock/Exclusion.antt =====
-- Any number of tasks take and release the lock in any order: a writer is alone.
use vmwgfx.Prelude.{
  ℕ, ◌+◌, ◌-◌, ◌<◌, ◌≡◌, ◌≢◌, ◌⊎◌, inl, inr, refl, Bool, true, false, ◌||◌, ltb, arith, ok,
}
use vmwgfx.Lock.{
  pos, negsuc, Lock, locked, init, read_unlock, try_read, write_unlock, try_write,
  write_interrupted, write_lock_downgrade, vt_unlock, try_vt, vt_interrupted, vt_register,
  suspend_unlock, try_suspend, set_kill,
}

-- The lock, and how many tasks hold it in each mode. `vt_twice` and `suspend_twice` record that the
-- mode was granted while a task held it, which the code does not prevent.
pub record System : Type 0 where
  pub lock : Lock
  pub readers : ℕ
  pub writers : ℕ
  pub vts : ℕ
  pub suspends : ℕ
  pub vt_twice : Bool
  pub suspend_twice : Bool

-- The critical sections, and `ttm_lock_set_kill`. A task releases only a mode that it holds. The
-- destructor and a failed registration both release the VT mode by `__ttm_vt_unlock`.
pub data Step (s u : System) : Type 0 where
  read :
      (try_read s.lock).0 ≡ locked
      → u ≡ record s { lock = (try_read s.lock).1; readers = s.readers + 1 }
      → Step s u
  read_wait : (try_read s.lock).0 ≢ locked → u ≡ record s { lock = (try_read s.lock).1 } → Step s u
  read_done :
      0 < s.readers → u ≡ record s { lock = read_unlock s.lock; readers = s.readers - 1 } → Step s u
  write :
      (try_write s.lock).0 ≡ locked
      → u ≡ record s { lock = (try_write s.lock).1; writers = s.writers + 1 }
      → Step s u
  write_wait :
      (try_write s.lock).0 ≢ locked → u ≡ record s { lock = (try_write s.lock).1 } → Step s u
  write_abort : u ≡ record s { lock = write_interrupted s.lock } → Step s u
  write_done :
      0 < s.writers
      → u ≡ record s { lock = write_unlock s.lock; writers = s.writers - 1 }
      → Step s u
  downgrade :
      0 < s.writers
      → u ≡ record s {
        lock = write_lock_downgrade s.lock;
        writers = s.writers - 1;
        readers = s.readers + 1;
      }
      → Step s u
  vt :
      (try_vt s.lock).0 ≡ locked
      → u ≡ record s {
        lock = (try_vt s.lock).1;
        vts = s.vts + 1;
        vt_twice = s.vt_twice || ltb 0 s.vts;
      }
      → Step s u
  vt_wait : (try_vt s.lock).0 ≢ locked → u ≡ record s { lock = (try_vt s.lock).1 } → Step s u
  vt_abort : u ≡ record s { lock = vt_interrupted s.lock } → Step s u
  vt_hold :
      (client : ℕ)
      → 0 < s.vts
      → u ≡ record s { lock = (vt_register client (ok tt) s.lock).1 }
      → Step s u
  vt_done : 0 < s.vts → u ≡ record s { lock = (vt_unlock s.lock).1; vts = s.vts - 1 } → Step s u
  suspend :
      (try_suspend s.lock).0 ≡ locked
      → u ≡ record s {
        lock = (try_suspend s.lock).1;
        suspends = s.suspends + 1;
        suspend_twice = s.suspend_twice || ltb 0 s.suspends;
      }
      → Step s u
  suspend_wait :
      (try_suspend s.lock).0 ≢ locked → u ≡ record s { lock = (try_suspend s.lock).1 } → Step s u
  suspend_done :
      0 < s.suspends
      → u ≡ record s { lock = suspend_unlock s.lock; suspends = s.suspends - 1 }
      → Step s u
  kills : (val : Bool) (signal : ℕ) → u ≡ record s { lock = set_kill val signal s.lock } → Step s u

pub data Reach (s : System) : System → Type 0 where
  here : Reach s s
  next : {t u : System} → Reach s t → Step t u → Reach s u

abbrev pub start : System
start = record {
  lock = init;
  readers = 0;
  writers = 0;
  vts = 0;
  suspends = 0;
  vt_twice = false;
  suspend_twice = false;
}

-- One writer alone, or no writer; and no reader or writer beside a flag, which stands for the task
-- that holds the mode unless the mode was granted twice.
pub record IsExclusive (s : System) : Type 0 where
  pub writer :
      ((s.writers ≡ 0) × (s.lock.rw ≡ pos s.readers))
      ⊎ ((s.writers ≡ 1) × (s.lock.rw ≡ negsuc 0) × (s.readers ≡ 0))
  pub vt_flag : (s.lock.flags.vt ≡ false) ⊎ ((s.readers ≡ 0) × (s.writers ≡ 0))
  pub suspend_flag : (s.lock.flags.suspend ≡ false) ⊎ ((s.readers ≡ 0) × (s.writers ≡ 0))
  pub vt_held : (s.vt_twice ≡ true) ⊎ ((s.vts ≡ 0) ⊎ ((s.vts ≡ 1) × (s.lock.flags.vt ≡ true)))
  pub suspend_held :
      (s.suspend_twice ≡ true)
      ⊎ ((s.suspends ≡ 0) ⊎ ((s.suspends ≡ 1) × (s.lock.flags.suspend ≡ true)))

Step-IsExclusive : (s u : System) → Step s u → IsExclusive s → IsExclusive u
unfolding read_unlock try_read write_unlock try_write write_interrupted write_lock_downgrade
    vt_unlock try_vt vt_interrupted vt_register suspend_unlock try_suspend set_kill
Step-IsExclusive s u (read h e) v = ground arith
Step-IsExclusive s u (read_wait h e) v = ground arith
Step-IsExclusive s u (read_done h e) v = ground arith
Step-IsExclusive s u (write h e) v = ground arith
Step-IsExclusive s u (write_wait h e) v = ground arith
Step-IsExclusive s u (write_abort e) v = ground arith
Step-IsExclusive s u (write_done h e) v = ground arith
Step-IsExclusive s u (downgrade h e) v = ground arith
Step-IsExclusive s u (vt h e) v = ground arith
Step-IsExclusive s u (vt_wait h e) v = ground arith
Step-IsExclusive s u (vt_abort e) v = ground arith
Step-IsExclusive s u (vt_hold c h e) v = ground arith
Step-IsExclusive s u (vt_done h e) v = ground arith
Step-IsExclusive s u (suspend h e) v = ground arith
Step-IsExclusive s u (suspend_wait h e) v = ground arith
Step-IsExclusive s u (suspend_done h e) v = ground arith
Step-IsExclusive s u (kills val signal e) v = ground arith

start-IsExclusive : IsExclusive start
unfolding init
start-IsExclusive = record {
  writer = inl (refl, refl);
  vt_flag = inl refl;
  suspend_flag = inl refl;
  vt_held = inr (inl refl);
  suspend_held = inr (inl refl);
}

-- In every state that tasks reach from a new lock, a writer has no reader and no writer beside it,
-- and where no writer holds the lock `rw` counts the readers; beside the flag of the VT or of the
-- suspend mode there is no reader or writer; and while such a mode has never been granted to a second
-- task beside the first, at most one task holds it and has its flag set.
pub Reach-IsExclusive : (u : System) → Reach start u → IsExclusive u
Reach-IsExclusive _ here = start-IsExclusive
Reach-IsExclusive u (next {t} r s) = Step-IsExclusive t u s (Reach-IsExclusive t r)
