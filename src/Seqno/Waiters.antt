-- ===== src/Seqno/Waiters.antt =====
-- The interrupts are unmasked exactly while someone waits for them.
use vmwgfx.Prelude.{◌<◌, ◌≡◌, not, ◌==◌, arith}
use vmwgfx.Seqno.{
  Device, seqno_waiter_add, seqno_waiter_remove, goal_waiter_add, goal_waiter_remove,
}

pub record IsMasked (d : Device) : Type 0 where
  pub fence : d.any_fence ≡ not (d.fence_queue_waiters == 0)
  pub goal : d.fence_goal ≡ not (d.goal_queue_waiters == 0)

-- A waiter comes or goes; only one that came can go.
pub data Step (d e : Device) : Type 0 where
  add_seqno : e ≡ seqno_waiter_add d → Step d e
  remove_seqno : 0 < d.fence_queue_waiters → e ≡ seqno_waiter_remove d → Step d e
  add_goal : e ≡ goal_waiter_add d → Step d e
  remove_goal : 0 < d.goal_queue_waiters → e ≡ goal_waiter_remove d → Step d e

pub data Steps (d : Device) : Device → Type 0 where
  here : Steps d d
  next : {e f : Device} → Steps d e → Step e f → Steps d f

Step-IsMasked : (d e : Device) → Step d e → IsMasked d → IsMasked e
unfolding seqno_waiter_add seqno_waiter_remove goal_waiter_add goal_waiter_remove
Step-IsMasked d e (add_seqno h) v = ground arith
Step-IsMasked d e (remove_seqno h k) v = ground arith
Step-IsMasked d e (add_goal h) v = ground arith
Step-IsMasked d e (remove_goal h k) v = ground arith

-- However waiters come and go, each of the two interrupts is unmasked exactly while its count of
-- waiters is not 0.
pub Steps-IsMasked : (d e : Device) → Steps d e → IsMasked d → IsMasked e
Steps-IsMasked d _ here v = v
Steps-IsMasked d e (next {e = c} ss s) v = Step-IsMasked c e s (Steps-IsMasked d c ss v)
