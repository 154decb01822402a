-- ===== src/Fifo/Submit.antt =====
-- What `vmw_fifo_commit` leaves behind.
use vmwgfx.Prelude.{
  ℕ, ◌+◌, ◌≤◌, ◌<◌, ◌%◌, ◌≡◌, ◌≢◌, refl, ◌∙◌, ◌||◌, Bool-cases, inl, inr, ◌⊎◌, true, false, arith,
  if◌then◌else◌, suc, zero,
}
use vmwgfx.Fifo.{Fifo, Words, done, IsRing, capacity, pending, ping_host, generic}
use vmwgfx.Fifo.Commit.{
  commit, bounce_buffer, submit, publish, advance, res_copy, slow_copy, slow_copy_loop,
  slow_copy_word,
}
use vmwgfx.Fifo.Copy.{ring_of, slow_copy-ring, res_copy-ring}
use vmwgfx.Fifo.Room.{advance_pending}

-- The state after a commit that passes its checks.
abbrev pub committed : Fifo → (bytes : ℕ) → Fifo
committed f bytes =
    record (ping_host generic
      (publish (submit (record f { reserved_size = 0 }) bytes) (advance f bytes))) {
        locked = false;
      }

-- What the copies leave alone.
record Fixed (f g : Fifo) : Type 0 where
  min : g.min ≡ f.min
  max : g.max ≡ f.max
  stop : g.stop ≡ f.stop
  cap_reserve : g.cap_reserve ≡ f.cap_reserve
  using_bounce_buffer : g.using_bounce_buffer ≡ f.using_bounce_buffer
  reserved_size : g.reserved_size ≡ f.reserved_size

slow_copy_loop-Fixed : (n : ℕ) (f : Fifo) (b : Words) (s : ℕ) → Fixed f (slow_copy_loop b s n f)
unfolding slow_copy_loop slow_copy_word
slow_copy_loop-Fixed zero f b s = ground arith
slow_copy_loop-Fixed (suc n) f b s =
    ground (arith, slow_copy_loop-Fixed n (slow_copy_word (b s) f) b (s + 1))

slow_copy-Fixed : (f : Fifo) (bytes : ℕ) → Fixed f (slow_copy f bytes)
unfolding slow_copy
slow_copy-Fixed f bytes = slow_copy_loop-Fixed _ f _ 0

submit-Fixed : (f : Fifo) (bytes : ℕ) → Fixed f (submit f bytes)
unfolding submit res_copy
submit-Fixed f bytes = ground (arith, slow_copy-Fixed f bytes)

submit-memory :
    (f : Fifo) (bytes j : ℕ)
    → IsRing f
    → bytes % 4 ≡ 0
    → bytes < capacity f
    → (submit f bytes).memory j ≡ (if f.using_bounce_buffer then ring_of f bytes j else f.memory j)
unfolding submit
submit-memory f bytes j v al small =
    ground (arith, slow_copy-ring f bytes j, res_copy-ring f bytes j)

-- The requests that `vmw_fifo_commit` publishes: it has a bounce buffer to copy, or the device reads
-- the RESERVED register.
abbrev pub IsPublished : Fifo → Type 0
IsPublished f = (f.using_bounce_buffer ≡ true) ⊎ (f.cap_reserve ≡ true)

pub record Committed (f : Fifo) (bytes : ℕ) (g : Fifo) : Type 0 where
  pub ring : IsRing g
  pub queued : pending g g.stop ≡ pending f f.stop + bytes
  pub memory :
      (j : ℕ) → g.memory j ≡ (if f.using_bounce_buffer then ring_of f bytes j else f.memory j)
  pub reserved_size : g.reserved_size ≡ 0
  pub locked : g.locked ≡ false
  pub busy : g.busy ≢ 0

ping-memory : (f : Fifo) (j : ℕ) → (ping_host generic f).memory j ≡ f.memory j
unfolding ping_host
ping-memory f j = ground arith

publish-memory : (f : Fifo) (next j : ℕ) → (publish f next).memory j ≡ f.memory j
unfolding publish
publish-memory f next j = elim (Bool-cases (f.using_bounce_buffer || f.cap_reserve)) [
  | inl a ↦ rw a (ground arith)
  | inr a ↦ rw a (ground arith)
]

commit-done :
    (f : Fifo) (bytes : ℕ)
    → bytes % 4 ≡ 0
    → bytes ≤ f.reserved_size
    → commit f bytes ≡ done tt (committed f bytes)
unfolding commit
commit-done f bytes al fits = ground arith

committed-ring :
    (f : Fifo) (bytes : ℕ)
    → IsRing f
    → bytes % 4 ≡ 0
    → IsPublished f
    → pending f f.stop + bytes < capacity f
    → IsRing (committed f bytes)
      × (pending (committed f bytes) (committed f bytes).stop ≡ pending f f.stop + bytes)
unfolding publish ping_host
committed-ring f bytes v al p room = ground (
  arith,
  advance_pending {f = f} bytes v al room,
  submit-Fixed (record f { reserved_size = 0 }) bytes,
)

committed-memory :
    (f : Fifo) (bytes j : ℕ)
    → (committed f bytes).memory j ≡ (submit (record f { reserved_size = 0 }) bytes).memory j
committed-memory f bytes j =
    ping-memory (publish (submit (record f { reserved_size = 0 }) bytes) (advance f bytes)) j
    ∙ publish-memory (submit (record f { reserved_size = 0 }) bytes) (advance f bytes) j

-- A commit of whole words that were reserved returns and gives the mutex back, and the host, told
-- to look, has just these bytes more to read: the ring stays well formed, and its words are those
-- of the bounce buffer written from NEXT_CMD on round the ring, or, where the command was written
-- in place, what they were. It supposes room for the bytes, and a bounce buffer or a device that
-- reads RESERVED.
pub commit-Committed :
    (f : Fifo) (bytes : ℕ)
    → IsRing f
    → bytes % 4 ≡ 0
    → bytes ≤ f.reserved_size
    → pending f f.stop + bytes < capacity f
    → IsPublished f
    → (g : Fifo) × (commit f bytes ≡ done tt g) × Committed f bytes g
unfolding publish ping_host bounce_buffer
commit-Committed f bytes v al fits room p = (
  committed f bytes,
  commit-done f bytes al fits,
  record {
    ring = (committed-ring f bytes v al p room).0;
    queued = (committed-ring f bytes v al p room).1;
    memory = λ j.
        committed-memory f bytes j
        ∙ submit-memory (record f { reserved_size = 0 }) bytes j (ground arith) al (omega arith);
    reserved_size = ground (arith, submit-Fixed (record f { reserved_size = 0 }) bytes);
    locked = refl;
    busy = ground arith;
  },
)

-- A command that was written in place to a device that does not read RESERVED is not submitted:
-- the commit returns, and the host has nothing more to read than before.
pub commit-dropped :
    (f : Fifo) (bytes : ℕ)
    → bytes % 4 ≡ 0
    → bytes ≤ f.reserved_size
    → f.using_bounce_buffer ≡ false
    → f.cap_reserve ≡ false
    → (g : Fifo) × (commit f bytes ≡ done tt g)
      × (g.next_cmd ≡ f.next_cmd)
      × (pending g g.stop ≡ pending f f.stop)
unfolding publish ping_host submit
commit-dropped f bytes al fits place plain =
    (committed f bytes, commit-done f bytes al fits, ground arith, ground arith)
