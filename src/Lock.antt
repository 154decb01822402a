-- ===== src/Lock.antt =====
-- The read, write, VT and suspend lock (ttm/ttm_lock.c). Each critical section of the lock's
-- spinlock is a function; a blocking call repeats its attempt whenever it is woken. A task that
-- waits is not part of the state: `wakes` counts the calls of `wake_up_all`.
pub mod Exclusion
pub mod Waiting
mod Tests
use vmwgfx.Prelude.{
  ℕ, zero, suc, ◌+◌, Bool, true, false, not, ◌&&◌, ◌||◌, Option, none, some, if◌then◌else◌, Outcome,
  ok, err, einval,
}

-- The `int` that counts readers; `negsuc n` is -(n + 1), and -1 stands for a writer.
pub data ℤ : Type 0 where
  pos : ℕ → ℤ
  negsuc : ℕ → ℤ

abbrev pub inc : ℤ → ℤ
inc (pos n) = pos (suc n)
inc (negsuc zero) = pos 0
inc (negsuc (suc n)) = negsuc n

abbrev pub dec : ℤ → ℤ
dec (pos zero) = negsuc 0
dec (pos (suc n)) = pos n
dec (negsuc n) = negsuc (suc n)

abbrev pub is_zero : ℤ → Bool
is_zero (pos zero) = true
is_zero (pos (suc n)) = false
is_zero (negsuc n) = false

abbrev pub is_negative : ℤ → Bool
is_negative (pos n) = false
is_negative (negsuc n) = true

-- The bits of `flags`: TTM_WRITE_LOCK_PENDING, TTM_VT_LOCK_PENDING, TTM_SUSPEND_LOCK_PENDING,
-- TTM_VT_LOCK and TTM_SUSPEND_LOCK.
pub record Flags : Type 0 where
  pub write_pending : Bool
  pub vt_pending : Bool
  pub suspend_pending : Bool
  pub vt : Bool
  pub suspend : Bool

-- `struct ttm_lock`
pub record Lock : Type 0 where
  pub rw : ℤ
  pub flags : Flags
  pub kill_takers : Bool
  pub signal : ℕ
  pub vt_holder : Option ℕ
  pub wakes : ℕ

-- What an attempt comes to: the lock is taken, the task has to wait, or it is sent `lock->signal`.
pub data Attempt : Type 0 where
  locked waiting killed : Attempt

-- `flags & ~TTM_WRITE_LOCK_PENDING`, tested for any bit
abbrev pub any_but_write : Flags → Bool
any_but_write f = f.vt_pending || (f.suspend_pending || (f.vt || f.suspend))

abbrev pub any_flag : Flags → Bool
any_flag f = f.write_pending || any_but_write f

-- `wake_up_all`
abbrev pub wake : Lock → Lock
wake l = record l { wakes = l.wakes + 1 }

-- SIGKILL
abbrev sigkill : ℕ
sigkill = 9

-- `__ttm_lock_init`
unfoldable pub init : Lock
init = record {
  rw = pos 0;
  flags = record {
    write_pending = false;
    vt_pending = false;
    suspend_pending = false;
    vt = false;
    suspend = false;
  };
  kill_takers = false;
  signal = sigkill;
  vt_holder = none;
  wakes = 0;
}

-- `ttm_read_unlock`
unfoldable pub read_unlock : Lock → Lock
read_unlock l = let l' = record l { rw = dec l.rw } in if is_zero l'.rw then wake l' else l'

-- `__ttm_read_lock`
unfoldable pub try_read : Lock → Attempt × Lock
try_read l =
    if l.kill_takers
    then (killed, l)
    else if not (is_negative l.rw) && not (any_flag l.flags)
    then (locked, record l { rw = inc l.rw })
    else (waiting, l)

-- `ttm_write_unlock`
unfoldable pub write_unlock : Lock → Lock
write_unlock l = wake (record l { rw = pos 0 })

abbrev pub set_write_pending : Bool → Lock → Lock
set_write_pending b l = record l { flags = record (l.flags) { write_pending = b } }

-- `__ttm_write_lock`
unfoldable pub try_write : Lock → Attempt × Lock
try_write l =
    if l.kill_takers
    then (killed, l)
    else if is_zero l.rw && not (any_but_write l.flags)
    then (locked, set_write_pending false (record l { rw = negsuc 0 }))
    else (waiting, set_write_pending true l)

-- what `ttm_write_lock` does when its wait is interrupted
unfoldable pub write_interrupted : Lock → Lock
write_interrupted l = wake (set_write_pending false l)

-- `ttm_write_lock_downgrade`
unfoldable pub write_lock_downgrade : Lock → Lock
write_lock_downgrade l = wake (record l { rw = pos 1 })

-- `__ttm_vt_unlock`
unfoldable pub vt_unlock : Lock → Outcome (Unit {0}) × Lock
vt_unlock l = (
  if not l.flags.vt then err einval else ok tt,
  wake (record l { flags = record (l.flags) { vt = false } }),
)

-- `ttm_vt_lock_remove`; `none` is its `BUG_ON`
unfoldable pub vt_lock_remove : Lock → Option Lock
unfolding vt_unlock
vt_lock_remove l = let (ret, l') = vt_unlock l in elim ret [ ok _ ↦ some l' | err e ↦ none ]

-- `__ttm_vt_lock`
unfoldable pub try_vt : Lock → Attempt × Lock
try_vt l =
    if is_zero l.rw
    then (locked, record l { flags = record (l.flags) { vt_pending = false; vt = true } })
    else (waiting, record l { flags = record (l.flags) { vt_pending = true } })

-- what `ttm_vt_lock` does when its wait is interrupted
unfoldable pub vt_interrupted : Lock → Lock
vt_interrupted l = wake (record l { flags = record (l.flags) { vt_pending = false } })

-- The end of `ttm_vt_lock`, for a client: `ret` is what `ttm_base_object_init` returns.
unfoldable pub vt_register :
    (client : ℕ) → (ret : Outcome (Unit {0})) → Lock → Outcome (Unit {0}) × Lock
unfolding vt_unlock
vt_register client (ok _) l = (ok tt, record l { vt_holder = some client })
vt_register client (err e) l = (err e, (vt_unlock l).1)

-- `ttm_suspend_unlock`
unfoldable pub suspend_unlock : Lock → Lock
suspend_unlock l = wake (record l { flags = record (l.flags) { suspend = false } })

-- `__ttm_suspend_lock`
unfoldable pub try_suspend : Lock → Attempt × Lock
try_suspend l =
    if is_zero l.rw
    then (locked, record l { flags = record (l.flags) { suspend_pending = false; suspend = true } })
    else (waiting, record l { flags = record (l.flags) { suspend_pending = true } })

-- `ttm_lock_set_kill`
unfoldable pub set_kill : (val : Bool) → (signal : ℕ) → Lock → Lock
set_kill val signal l =
    let l' = record l { kill_takers = val } in if val then record l' { signal = signal } else l'
