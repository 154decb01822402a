-- ===== src/Fifo/Room.antt =====
-- `vmw_fifo_reserve` gives out no byte that the host has still to read, and what it gives out fits.
use vmwgfx.Prelude.{ℕ, ◌+◌, ◌≤◌, ◌<◌, ◌%◌, ◌≡◌, ◌≢◌, false, arith, leb}
use vmwgfx.Fifo.{Fifo, IsRing, capacity, pending, is_full}
use vmwgfx.Fifo.Reserve.{Round, Choice, choose}
use vmwgfx.Fifo.Commit.{advance}

-- Where the host may stand when it is looked at again: it reads on towards NEXT_CMD.
abbrev pub ReadsOn : Fifo → (stop stop' : ℕ) → Type 0
ReadsOn f stop stop' = (f.min ≤ stop') × (stop' < f.max) × (pending f stop' ≤ pending f stop)

-- While the host has all of the pending bytes before NEXT_CMD, `vmw_fifo_is_full` says exactly
-- whether `bytes` more would leave no free byte.
pub is_full_iff :
    {f : Fifo} (stop bytes : ℕ)
    → IsRing f
    → f.min ≤ stop
    → stop ≤ f.next_cmd
    → is_full f stop bytes ≡ leb (capacity f) (pending f stop + bytes)
unfolding is_full
is_full_iff stop bytes v lo hi = ground arith

-- While the pending bytes wrap round the end of the ring, `vmw_fifo_is_full` answers no to every
-- request that is smaller than the ring.
pub is_full_wrapped :
    {f : Fifo} (stop bytes : ℕ)
    → IsRing f
    → f.next_cmd < stop
    → stop < f.max
    → bytes < capacity f
    → is_full f stop bytes ≡ false
unfolding is_full
is_full_wrapped stop bytes v lo hi small = ground arith

-- A round that gives room in place or in the bounce buffer leaves at least one byte free.
pub choose_room :
    {f : Fifo} (bytes : ℕ) (r : Round)
    → IsRing f
    → bytes < capacity f
    → f.min ≤ r.stop
    → r.stop < f.max
    → ReadsOn f r.stop r.stop_full
    → choose f bytes r ≢ Choice.wait
    → pending f r.stop_full + bytes < capacity f
unfolding choose is_full
choose_room bytes r v small lo hi on h = ground arith

-- A place in the ring does not run over its end.
pub choose_place :
    {f : Fifo} (bytes : ℕ) (r : Round)
    → IsRing f
    → bytes < capacity f
    → r.stop < f.max
    → choose f bytes r ≡ Choice.place
    → f.next_cmd + bytes ≤ f.max
unfolding choose
choose_place bytes r v small hi h = ground arith

-- NEXT_CMD goes on by `bytes` round the ring, and adds them to what is pending.
pub advance_pending :
    {f : Fifo} (bytes : ℕ)
    → IsRing f
    → bytes % 4 ≡ 0
    → pending f f.stop + bytes < capacity f
    → IsRing (record f { next_cmd = advance f bytes })
      × (pending (record f { next_cmd = advance f bytes }) f.stop ≡ pending f f.stop + bytes)
unfolding advance
advance_pending bytes v al room = ground arith
