-- ===== src/Seqno.antt =====
-- Sequence numbers of fences and waiting for them (vmwgfx_irq.c). `vmw_fences_update` of the fence
-- manager is not modelled: its calls are counted. What the device does during a wait is an argument.
pub mod Passed
pub mod Fallback
pub mod Waiters
mod Tests
use vmwgfx.Prelude.{
  ℕ, ◌+◌, ◌-◌, ◌^◌, Bool, true, false, not, ◌&&◌, List, [], ◌∷◌, if◌then◌else◌, ltb, ◌==◌, sub32,
  Outcome, ok, err, ebusy, erestartsys,
}
use vmwgfx.Fifo.{Fifo, ping_host, generic}
use vmwgfx.Fifo.Wait.{Event, event_outcome}
use vmwgfx.Marker.{Timespec, Queue, pull}

-- VMW_FENCE_WRAP
abbrev pub fence_wrap : ℕ
fence_wrap = 2 ^ 24

-- The part of `struct vmw_private` that the waits use; the FENCE register and the capabilities are
-- those of `fifo`. `any_fence` and `fence_goal` are the bits of `irq_mask`.
pub record Device : Type 0 where
  pub fifo : Fifo
  pub last_read_seqno : ℕ
  pub marker_seq : ℕ
  pub queue : Queue
  pub fence_updates : ℕ
  pub fence_queue_waiters : ℕ
  pub goal_queue_waiters : ℕ
  pub any_fence : Bool
  pub fence_goal : Bool

-- `vmw_seqno_waiter_add`, `vmw_seqno_waiter_remove`, and the same for the fence goal
unfoldable pub seqno_waiter_add : Device → Device
seqno_waiter_add d =
    let d' = record d { fence_queue_waiters = d.fence_queue_waiters + 1 } in
    if d.fence_queue_waiters == 0 then record d' { any_fence = true } else d'

unfoldable pub seqno_waiter_remove : Device → Device
seqno_waiter_remove d =
    let d' = record d { fence_queue_waiters = d.fence_queue_waiters - 1 } in
    if d'.fence_queue_waiters == 0 then record d' { any_fence = false } else d'

unfoldable pub goal_waiter_add : Device → Device
goal_waiter_add d =
    let d' = record d { goal_queue_waiters = d.goal_queue_waiters + 1 } in
    if d.goal_queue_waiters == 0 then record d' { fence_goal = true } else d'

unfoldable pub goal_waiter_remove : Device → Device
goal_waiter_remove d =
    let d' = record d { goal_queue_waiters = d.goal_queue_waiters - 1 } in
    if d'.goal_queue_waiters == 0 then record d' { fence_goal = false } else d'

-- One look at the device: the clock, the FENCE register, SVGA_REG_BUSY, `marker_seq` as other tasks
-- have left it, whether the time is up and whether a signal is pending.
pub record Look : Type 0 where
  pub now : Timespec
  pub fence : ℕ
  pub busy : ℕ
  pub marker_seq : ℕ
  pub expired : Bool
  pub signal : Bool

-- How a wait ends: it returns, or it still runs when the looks are used up.
pub data Wait : Type 0 where
  returns : Outcome (Unit {0}) → Device → Wait
  waits : Wait

-- the test of the last sequence number that was read
abbrev pub is_recent : Device → (seqno : ℕ) → Bool
is_recent d seqno = ltb (sub32 d.last_read_seqno seqno) fence_wrap

-- `vmw_fifo_idle`
unfoldable pub fifo_idle : Look → Bool
fifo_idle look = look.busy == 0

module _ (timespec_sub : Timespec → Timespec → Timespec) where
  -- `vmw_update_seqno`, where the FENCE register reads as the look says
  unfoldable pub update_seqno : Look → Device → Device
  update_seqno look d =
      let d' = record d { fifo = record (d.fifo) { fence = look.fence } } in
      if d'.last_read_seqno == look.fence then d' else record d' {
        last_read_seqno = look.fence;
        queue = (pull timespec_sub look.now look.fence d.queue).1;
        fence_updates = d.fence_updates + 1;
      }

  -- `vmw_seqno_passed`
  unfoldable pub seqno_passed : Look → (seqno : ℕ) → Device → Bool × Device
  seqno_passed look seqno d =
      if is_recent d seqno
      then (true, d)
      else (let d' = update_seqno look d in
          if is_recent d' seqno
          then (true, d')
          else if not d'.fifo.cap_fence && fifo_idle look
          then (true, d')
          else (ltb fence_wrap (sub32 d'.marker_seq seqno), d'))

  -- the condition of `vmw_fallback_wait`
  unfoldable pub wait_condition : (for_idle : Bool) → Look → (seqno : ℕ) → Device → Bool × Device
  wait_condition for_idle look seqno d =
      if for_idle then (fifo_idle look, d) else seqno_passed look seqno d

  -- Its loop, a round for each look. `vmw_fifo_send_fence` counts `marker_seq` up during the wait.
  unfoldable pub fallback_loop :
      (for_idle : Bool) → (seqno : ℕ) → (interruptible : Bool) → List Look → Device → Wait
  fallback_loop for_idle seqno interruptible [] d = waits
  fallback_loop for_idle seqno interruptible (look ∷ looks) d =
      let d1 = record d { marker_seq = look.marker_seq } in
      let (met, d') = wait_condition for_idle look seqno d1 in
      let rest = fallback_loop for_idle seqno interruptible looks d' in
      if met
      then returns (ok tt) d'
      else if look.expired
      then returns (ok tt) d'
      else if interruptible && look.signal
      then returns (err erestartsys) d'
      else rest

  -- what follows the loop: the fence register takes the number that was current at the start
  unfoldable pub emulate_fence : (for_idle : Bool) → (signal_seq : ℕ) → Wait → Wait
  emulate_fence for_idle signal_seq waits = waits
  emulate_fence for_idle signal_seq (returns (err e) d) = returns (err e) d
  emulate_fence for_idle signal_seq (returns (ok _) d) =
      if for_idle
      then returns (ok tt) (record d { fifo = record (d.fifo) { fence = signal_seq } })
      else returns (ok tt) d

  -- `vmw_fallback_wait`
  unfoldable pub fallback_wait :
      (for_idle : Bool) → (seqno : ℕ) → (interruptible : Bool) → List Look → Device → Wait
  fallback_wait for_idle seqno interruptible looks d =
      emulate_fence for_idle d.marker_seq (fallback_loop for_idle seqno interruptible looks d)

  -- `vmw_wait_seqno`: the first look is that of the test at its start; `event` is how the wait for
  -- the interrupt ends, with the last look
  unfoldable pub wait_seqno :
      (look last : Look)
      → (looks : List Look) → (event : Event) → (seqno : ℕ) → (interruptible : Bool) → Device
      → Wait
  wait_seqno look last looks event seqno interruptible d =
      if is_recent d seqno
      then returns (ok tt) d
      else (let (passed, d1) = seqno_passed look seqno d in
          if passed
          then returns (ok tt) d1
          else (let d2 = record d1 { fifo = ping_host generic d1.fifo } in
              if not d2.fifo.cap_fence
              then fallback_wait true seqno interruptible looks d2
              else if not d2.fifo.cap_irqmask
              then fallback_wait false seqno interruptible looks d2
              else returns (event_outcome event)
                  (seqno_waiter_remove (seqno_passed last seqno (seqno_waiter_add d2)).1)))
