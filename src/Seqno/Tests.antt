-- ===== src/Seqno/Tests.antt =====
-- Concrete runs of the waits for sequence numbers.
use vmwgfx.Prelude.{
  ℕ, ◌%◌, ◌≡◌, refl, arith, [], ◌∷◌, List, u32_mod, true, false, none, leb, Bool, ◌||◌,
}
use vmwgfx.Fifo.{Fifo, Words}
use vmwgfx.Marker.{Timespec, no_time}
use vmwgfx.Seqno.{
  Device, Look, fifo_idle, seqno_passed, fallback_wait, fallback_loop, emulate_fence,
  wait_condition,
}
use vmwgfx.Seqno.Passed.{seqno_passed-count}
use vmwgfx.Seqno.Fallback.{EndsAt, Ended, fallback_wait-Ended, fallback_wait-passes}

-- a stand-in for the kernel's function
abbrev no_sub : Timespec → Timespec → Timespec
no_sub a b = no_time

abbrev zeros : Words
zeros i = 0

abbrev fifo : (fences : Bool) → Fifo
fifo fences = record {
  min = 16;
  max = 64;
  next_cmd = 16;
  stop = 16;
  busy = 0;
  fence = 0;
  reserved = 0;
  memory = zeros;
  cap_reserve = true;
  cap_fence = fences;
  cap_irqmask = true;
  static_buffer = zeros;
  static_buffer_size = 40;
  dynamic_buffer = none;
  reserved_size = 0;
  using_bounce_buffer = false;
  locked = false;
  fifo_queue_waiters = 0;
  irq_fifo_progress = false;
  syncs = [];
}

abbrev device : (fences : Bool) → (last_read_seqno marker_seq : ℕ) → Device
device fences last_read_seqno marker_seq = record {
  fifo = fifo fences;
  last_read_seqno = last_read_seqno;
  marker_seq = marker_seq;
  queue = record { markers = []; lag = no_time; lag_time = no_time };
  fence_updates = 0;
  fence_queue_waiters = 0;
  goal_queue_waiters = 0;
  any_fence = false;
  fence_goal = false;
}

abbrev look_at : (fence busy : ℕ) → (expired : Bool) → Look
look_at fence busy expired = record {
  now = no_time;
  fence = fence;
  busy = busy;
  marker_seq = 10;
  expired = expired;
  signal = false;
}

-- Fence 2 ^ 32 + 1 is asked about, where 2 ^ 32 + 2 have passed and the driver knows of 2 ^ 32 - 1.
seqno_passed-count_example :
    (seqno_passed no_sub (look_at 2 0 false) (4294967297 % u32_mod) (device true 4294967295 3)).0
    ≡ leb 4294967297 4294967298
seqno_passed-count_example =
    seqno_passed-count no_sub (look_at 2 0 false) (device true 4294967295 3) 4294967297 4294967295
      4294967298 4294967299 refl refl refl refl (omega arith) (omega arith) (omega arith)
      (omega arith) (omega arith) (omega arith) (λ h. ground arith)

abbrev idle_device : Device
idle_device = device true 0 0

-- The device is busy at the first look and idle at the second.
abbrev looks : List Look
looks = look_at 0 1 false ∷ look_at 0 0 false ∷ []

-- fence 10 was emitted during the wait
abbrev after_wait : Device
after_wait = record (device false 0 10) { fifo = record (fifo false) { fence = 9 } }

fallback_wait-passes_example :
    ((last : Look) × EndsAt (λ l. (fifo_idle l || l.expired) ≡ true) false last looks)
    × ((seqno_passed no_sub (look_at 9 1 false) (7 % u32_mod) after_wait).0 ≡ true)
unfolding fallback_wait fallback_loop emulate_fence wait_condition fifo_idle
fallback_wait-passes_example =
    fallback_wait-passes no_sub 7 false looks (device false 0 9) after_wait 7 9 (look_at 9 1 false)
      refl refl (omega arith) (omega arith) refl

fallback_wait-Ended_example :
    Ended true looks (device false 0 9) (fallback_wait no_sub true 7 true looks (device false 0 9))
fallback_wait-Ended_example = fallback_wait-Ended no_sub 7 true looks (device false 0 9)
