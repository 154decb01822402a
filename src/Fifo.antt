-- ===== src/Fifo.antt =====
-- The command FIFO (vmwgfx_fifo.c): the ring in device memory that `vmw_fifo_reserve` hands out
-- room in and `vmw_fifo_commit` submits. The registers of the FIFO memory and the driver's
-- `struct vmw_fifo_state` are one record; offsets are bytes, memory and buffers are words.
pub mod Wait
pub mod Reserve
pub mod Commit
pub mod Room
pub mod Grant
pub mod Submit
pub mod Progress
pub mod Copy
mod Tests
use vmwgfx.Prelude.{
  ℕ, ◌+◌, ◌-◌, ◌≤◌, ◌<◌, ◌%◌, ◌≡◌, Bool, List, [], ◌∷◌, Option, leb, ltb, ◌==◌, if◌then◌else◌,
  add32, sub32,
}

-- Words by their index.
abbrev pub Words : Type 0
Words = ℕ → ℕ

-- What `vmw_fifo_ping_host` tells the host.
pub data Sync : Type 0 where
  generic fifofull : Sync

pub record Fifo : Type 0 where
  -- SVGA_FIFO_MIN, MAX, NEXT_CMD, STOP, BUSY, FENCE and RESERVED
  pub min : ℕ
  pub max : ℕ
  pub next_cmd : ℕ
  pub stop : ℕ
  pub busy : ℕ
  pub fence : ℕ
  pub reserved : ℕ
  -- the FIFO memory, `fifo_mem[i]`
  pub memory : Words
  -- SVGA_FIFO_CAP_RESERVE and SVGA_FIFO_CAP_FENCE of `fifo_state->capabilities`
  pub cap_reserve : Bool
  pub cap_fence : Bool
  -- SVGA_CAP_IRQMASK of `dev_priv->capabilities`
  pub cap_irqmask : Bool
  pub static_buffer : Words
  pub static_buffer_size : ℕ
  pub dynamic_buffer : Option Words
  pub reserved_size : ℕ
  pub using_bounce_buffer : Bool
  -- `fifo_mutex` is held
  pub locked : Bool
  -- `fifo_queue_waiters`, and SVGA_IRQFLAG_FIFO_PROGRESS in `irq_mask`
  pub fifo_queue_waiters : ℕ
  pub irq_fifo_progress : Bool
  -- the values written to SVGA_REG_SYNC, the last first
  pub syncs : List Sync

-- How a call ends: it returns, it hits a `BUG_ON`, or it is still running when what the
-- environment does is used up.
pub data Run (A : Type 0) : Type 0 where
  done : A → Fifo → Run A
  bug : Run A
  running : Run A

-- `vmw_fifo_ping_host`
unfoldable pub ping_host : Sync → Fifo → Fifo
ping_host reason f = if f.busy == 0 then record f { busy = 1; syncs = reason ∷ f.syncs } else f

-- `vmw_fifo_is_full`, at the value of SVGA_FIFO_STOP that it reads
unfoldable pub is_full : Fifo → (stop bytes : ℕ) → Bool
is_full f stop bytes = leb (add32 (sub32 f.max f.next_cmd) (sub32 stop f.min)) bytes

-- The ring as `vmw_fifo_init` lays it out and the two sides keep it: word-aligned offsets, the
-- driver's and the host's positions inside it.
pub record IsRing (f : Fifo) : Type 0 where
  pub small : f.max < 2147483648
  pub min_aligned : f.min % 4 ≡ 0
  pub max_aligned : f.max % 4 ≡ 0
  pub next_aligned : f.next_cmd % 4 ≡ 0
  pub next_ge : f.min ≤ f.next_cmd
  pub next_lt : f.next_cmd < f.max
  pub stop_ge : f.min ≤ f.stop
  pub stop_lt : f.stop < f.max

-- The bytes of the ring, and those that the host has still to read when it stands at `stop`.
abbrev pub capacity : Fifo → ℕ
capacity f = f.max - f.min

abbrev pub pending : Fifo → (stop : ℕ) → ℕ
pending f stop =
    if leb stop f.next_cmd then f.next_cmd - stop else f.next_cmd + (f.max - f.min) - stop
