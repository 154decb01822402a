-- ===== src/Fifo/Tests.antt =====
-- Concrete runs of the FIFO: the theorems on a ring of 48 bytes.
use vmwgfx.Prelude.{ℕ, ◌≡◌, refl, inl, true, false, [], ◌∷◌, none, some, arith, ◌+◌}
use vmwgfx.Fifo.{Fifo, Words, IsRing, done, running, is_full}
use vmwgfx.Fifo.Wait.{Wake, woken}
use vmwgfx.Fifo.Reserve.{Round, Area, static_area, choose, use_bounce, reserve_loop, reserve}
use vmwgfx.Fifo.Commit.{commit}
use vmwgfx.Fifo.Grant.{Granted, reserve-Granted}
use vmwgfx.Fifo.Submit.{Committed, commit-Committed}
use vmwgfx.Fifo.Progress.{reserve_progress, reserve-spins}

abbrev zeros : Words
zeros i = 0

-- the words 1, 2, 3, … of a command
abbrev words : Words
words i = i + 1

-- The ring from 16 to 64, with a static bounce buffer of 40 bytes.
abbrev ring : (next_cmd stop : ℕ) → Fifo
ring next_cmd stop = record {
  min = 16;
  max = 64;
  next_cmd = next_cmd;
  stop = stop;
  busy = 0;
  fence = 0;
  reserved = 0;
  memory = zeros;
  cap_reserve = false;
  cap_fence = true;
  cap_irqmask = true;
  static_buffer = words;
  static_buffer_size = 40;
  dynamic_buffer = none;
  reserved_size = 0;
  using_bounce_buffer = false;
  locked = false;
  fifo_queue_waiters = 0;
  irq_fifo_progress = false;
  syncs = [];
}

abbrev ring_IsRing : (next stop : ℕ) → IsRing (ring next stop) → IsRing (ring next stop)
ring_IsRing next stop v = v

abbrev wake_at : ℕ → Wake
wake_at stop = record { stop = stop; polls = []; event = woken }

abbrev round_at : ℕ → Round
round_at stop = record { stop = stop; stop_full = stop; wake = wake_at stop; vmalloc = some zeros }

-- 12 bytes wrap round the end, through the bounce buffer.
abbrev wrapping : Fifo
wrapping = record (ring 56 40) { using_bounce_buffer = true; reserved_size = 12; locked = true }

ring_56_40-IsRing : IsRing (ring 56 40)
ring_56_40-IsRing = ground arith

wrapping-IsRing : IsRing wrapping
wrapping-IsRing = ground arith

reserve-Granted_example :
    Granted
      (ring 56 40)
      12
      (round_at 40 ∷ [])
      static_area
      (record (ring 56 40) { locked = true; reserved_size = 12; using_bounce_buffer = true })
unfolding reserve reserve_loop choose is_full use_bounce
reserve-Granted_example =
    reserve-Granted 12 (round_at 40 ∷ []) static_area ring_56_40-IsRing (ground arith) refl

commit-Committed_example : (g : Fifo) × (commit wrapping 12 ≡ done tt g) × Committed wrapping 12 g
commit-Committed_example =
    commit-Committed wrapping 12 wrapping-IsRing refl (omega arith) (omega arith) (inl refl)

abbrev small_in_place : Fifo
small_in_place = record (ring 32 32) { reserved_size = 4; locked = true }

-- The host is behind by 40 bytes, is waited for, and has read all on the second look.
ring_56_16-IsRing : IsRing (ring 56 16)
ring_56_16-IsRing = ground arith

reserve_progress_example :
    (a : Area) × (g : Fifo) × (reserve (ring 56 16) 12 (round_at 16 ∷ round_at 56 ∷ [])
      ≡ done (some a) g)
reserve_progress_example =
    reserve_progress (ring 56 16) 12 (round_at 16 ∷ []) [] (round_at 56) ring_56_16-IsRing refl
      (omega arith) refl refl (ground arith) (ground arith)

-- NEXT_CMD is at 20 and the host at 24: 8 bytes do not fit.
ring_20_24-IsRing : IsRing (ring 20 24)
ring_20_24-IsRing = ground arith

reserve-spins_example : reserve (ring 20 24) 8 (round_at 24 ∷ round_at 24 ∷ []) ≡ running
reserve-spins_example =
    reserve-spins (ring 20 24) 8 24 (round_at 24 ∷ round_at 24 ∷ []) ring_20_24-IsRing (omega arith)
      (omega arith) (omega arith) (omega arith) refl refl (ground arith)

abbrev short_of_memory : Round
short_of_memory = record (round_at 56) { vmalloc = none }
