-- ===== src/Marker.antt =====
-- The queue of markers (vmwgfx_marker.c): when each fence was submitted, and from that how far the
-- device lags behind. The clock, `getrawmonotonic`, is an argument of each call that reads it, and
-- the kernel's `timespec_sub` a parameter. Times are not negative.
pub mod Pull
mod Tests
use vmwgfx.Prelude.{
  ℕ, ◌+◌, ◌-◌, ◌^◌, Bool, true, false, List, [], ◌∷◌, ◌++◌, if◌then◌else◌, leb, ltb, sub32, Outcome,
  ok, err, enomem, ebusy,
}

-- `struct timespec`
pub record Timespec : Type 0 where
  pub tv_sec : ℕ
  pub tv_nsec : ℕ

-- `struct vmw_marker`
pub record Marker : Type 0 where
  pub seqno : ℕ
  pub submitted : Timespec

-- `struct vmw_marker_queue`
pub record Queue : Type 0 where
  pub markers : List Marker
  pub lag : Timespec
  pub lag_time : Timespec

abbrev pub no_time : Timespec
no_time = record { tv_sec = 0; tv_nsec = 0 }

abbrev pub nsec_per_sec : ℕ
nsec_per_sec = 1000000000

-- `vmw_marker_queue_init`
unfoldable pub queue_init : (now : Timespec) → Queue
queue_init now = record { markers = []; lag = no_time; lag_time = now }

-- `vmw_marker_push`; `memory` is whether `kmalloc` succeeds
unfoldable pub push :
    (memory : Bool) → (now : Timespec) → (seqno : ℕ) → Queue → Outcome (Unit {0}) × Queue
push false now seqno q = (err enomem, q)
push true now seqno q =
    (ok tt, record q { markers = q.markers ++ (record { seqno = seqno; submitted = now } ∷ []) })

-- `vmw_timespec_add`
unfoldable pub timespec_add : Timespec → Timespec → Timespec
timespec_add t1 t2 =
    let nsec = t1.tv_nsec + t2.tv_nsec in
    if leb nsec_per_sec nsec
    then record { tv_sec = t1.tv_sec + t2.tv_sec + 1; tv_nsec = nsec - nsec_per_sec }
    else record { tv_sec = t1.tv_sec + t2.tv_sec; tv_nsec = nsec }

-- the test of the loop of `vmw_marker_pull`
unfoldable pub is_ahead : (signaled_seqno seqno : ℕ) → Bool
is_ahead signaled_seqno seqno = ltb (2 ^ 30) (sub32 signaled_seqno seqno)

module _ (timespec_sub : Timespec → Timespec → Timespec) where
  -- Its loop: the markers that stay, the lag, and whether a marker was pulled.
  unfoldable pub pull_loop :
      (now : Timespec)
      → (signaled_seqno : ℕ) → (lag : Timespec) → (updated : Bool) → List Marker
      → List Marker × Timespec × Bool
  pull_loop now signaled_seqno lag updated [] = ([], lag, updated)
  pull_loop now signaled_seqno lag updated (m ∷ ms) =
      let passed_over = pull_loop now signaled_seqno lag updated ms in
      let pulled = pull_loop now signaled_seqno (timespec_sub now m.submitted) true ms in
      if is_ahead signaled_seqno m.seqno
      then (m ∷ passed_over.0, passed_over.1, passed_over.2)
      else pulled

  -- `vmw_marker_pull`
  unfoldable pub pull : (now : Timespec) → (signaled_seqno : ℕ) → Queue → Outcome (Unit {0}) × Queue
  pull now signaled_seqno q = elim q.markers [
    | [] ↦ (ok tt, record q { lag = no_time; lag_time = now })
    | m ∷ ms ↦
        let (left, lag, updated) = pull_loop now signaled_seqno q.lag false (m ∷ ms) in
        if updated
        then (ok tt, record q { markers = left; lag = lag; lag_time = now })
        else (err ebusy, record q { markers = left })
  ]

  -- `vmw_fifo_lag`: the lag, and the queue
  unfoldable pub fifo_lag : (now : Timespec) → Queue → Timespec × Queue
  fifo_lag now q =
      let lag = timespec_add q.lag (timespec_sub now q.lag_time) in
      (lag, record q { lag = lag; lag_time = now })
