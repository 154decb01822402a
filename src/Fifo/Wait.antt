-- ===== src/Fifo/Wait.antt =====
-- `vmw_fifo_wait` and `vmw_fifo_wait_noirq`: waiting for the host to make room. What the
-- environment does is an argument: the values that SVGA_FIFO_STOP reads as, the clock and signals.
use vmwgfx.Prelude.{
  ℕ, ◌+◌, ◌-◌, Bool, true, false, not, ◌&&◌, List, [], ◌∷◌, ltb, ◌==◌, if◌then◌else◌, Outcome, ok,
  err, ebusy, erestartsys,
}
use vmwgfx.Fifo.{Fifo, Run, done, running, ping_host, fifofull, is_full}

-- One turn of the polling loop: the STOP register, whether the timeout has passed, and whether a
-- signal is pending after the sleep.
pub record Poll : Type 0 where
  pub stop : ℕ
  pub expired : Bool
  pub signal : Bool

-- `vmw_fifo_wait_noirq`
unfoldable pub wait_noirq :
    Fifo → (bytes : ℕ) → (interruptible : Bool) → List Poll → Run (Outcome (Unit {0}))
wait_noirq f bytes interruptible [] = running
wait_noirq f bytes interruptible (p ∷ ps) =
    let rest = wait_noirq f bytes interruptible ps in
    if not (is_full f p.stop bytes)
    then done (ok tt) f
    else if p.expired
    then done (err ebusy) f
    else if interruptible && p.signal
    then done (err erestartsys) f
    else rest

-- What `wait_event_timeout` or its interruptible form returns: what is left of the timeout, 0, or
-- -ERESTARTSYS.
pub data Event : Type 0 where
  woken timed_out interrupted : Event

-- The environment of one call.
pub record Wake : Type 0 where
  pub stop : ℕ
  pub polls : List Poll
  pub event : Event

-- The interrupt is unmasked for the first waiter, and masked again by the last.
unfoldable pub waiters_enter : Fifo → Fifo
waiters_enter f =
    let n = f.fifo_queue_waiters + 1 in
    if ltb 0 n
    then record f { fifo_queue_waiters = n; irq_fifo_progress = true }
    else record f { fifo_queue_waiters = n }

unfoldable pub waiters_leave : Fifo → Fifo
waiters_leave f =
    let n = f.fifo_queue_waiters - 1 in
    if n == 0
    then record f { fifo_queue_waiters = n; irq_fifo_progress = false }
    else record f { fifo_queue_waiters = n }

unfoldable pub event_outcome : Event → Outcome (Unit {0})
event_outcome woken = ok tt
event_outcome timed_out = err ebusy
event_outcome interrupted = err erestartsys

-- `vmw_fifo_wait`
unfoldable pub fifo_wait :
    Fifo → (bytes : ℕ) → (interruptible : Bool) → Wake → Run (Outcome (Unit {0}))
fifo_wait f bytes interruptible w =
    if not (is_full f w.stop bytes)
    then done (ok tt) f
    else (let f' = ping_host fifofull f in
        if not f'.cap_irqmask
        then wait_noirq f' bytes interruptible w.polls
        else done (event_outcome w.event) (waiters_leave (waiters_enter f')))
