-- ===== src/Fifo/Commit.antt =====
-- `vmw_fifo_commit` and the two ways in which it copies the bounce buffer to the ring.
use vmwgfx.Prelude.{
  ℕ, zero, suc, ◌+◌, ◌/◌, ◌%◌, false, ◌||◌, none, some, leb, ltb, ◌==◌, not, if◌then◌else◌, add32,
  sub32,
}
use vmwgfx.Fifo.{Fifo, Words, Run, done, bug, ping_host, generic}

-- `iowrite32`
unfoldable pub write : Words → (i v : ℕ) → Words
write m i v j = if j == i then v else m j

-- `memcpy_toio` of `n` words: from `buffer[s]` on to `m[d]` on
unfoldable pub copy : Words → (d : ℕ) → (buffer : Words) → (s n : ℕ) → Words
copy m d buffer s zero = m
copy m d buffer s (suc n) = copy (write m d (buffer s)) (d + 1) buffer (s + 1) n

-- the buffer that both copies read
unfoldable pub bounce_buffer : Fifo → Words
bounce_buffer f = elim f.dynamic_buffer [ none ↦ f.static_buffer | some b ↦ b ]

-- `vmw_fifo_res_copy`; its sizes are multiples of 4
unfoldable pub res_copy : Fifo → (bytes : ℕ) → Fifo
res_copy f bytes =
    let room = sub32 f.max f.next_cmd in
    let chunk_size = if ltb bytes room then bytes else room in
    let rest = sub32 bytes chunk_size in
    let first = copy f.memory (f.next_cmd / 4) (bounce_buffer f) 0 (chunk_size / 4) in
    let second = copy first (f.min / 4) (bounce_buffer f) (chunk_size / 4) (rest / 4) in
    record f { reserved = bytes; memory = if not (rest == 0) then second else first }

-- a round of the loop of `vmw_fifo_slow_copy`, which copies a word of 4 bytes
unfoldable pub slow_copy_word : (word : ℕ) → Fifo → Fifo
slow_copy_word word f =
    let next = add32 f.next_cmd 4 in
    record f {
      memory = write f.memory (f.next_cmd / 4) word;
      next_cmd = if next == f.max then f.min else next;
    }

-- the loop: `n` rounds are left, and `buffer[s]` is next
unfoldable pub slow_copy_loop : Words → (s n : ℕ) → Fifo → Fifo
slow_copy_loop buffer s zero f = f
slow_copy_loop buffer s (suc n) f = slow_copy_loop buffer (s + 1) n (slow_copy_word (buffer s) f)

-- `vmw_fifo_slow_copy`
unfoldable pub slow_copy : Fifo → (bytes : ℕ) → Fifo
slow_copy f bytes = slow_copy_loop (bounce_buffer f) 0 (bytes / 4) f

-- the step of NEXT_CMD, from the value read at the start of the call
unfoldable pub advance : Fifo → (bytes : ℕ) → ℕ
advance f bytes =
    let next = add32 f.next_cmd bytes in
    if leb f.max next then sub32 next (sub32 f.max f.min) else next

-- the copy, if a bounce buffer is in use; it gives a dynamic buffer back
unfoldable pub submit : Fifo → (bytes : ℕ) → Fifo
submit f bytes =
    if f.using_bounce_buffer
    then (let g = if f.cap_reserve then res_copy f bytes else slow_copy f bytes in
        record g { dynamic_buffer = none })
    else f

unfoldable pub publish : Fifo → (next : ℕ) → Fifo
publish f next =
    let g = if f.using_bounce_buffer || f.cap_reserve then record f { next_cmd = next } else f in
    if g.cap_reserve then record g { reserved = 0 } else g

-- `vmw_fifo_commit`
unfoldable pub commit : Fifo → (bytes : ℕ) → Run (Unit {0})
commit f bytes =
    if not (bytes % 4 == 0) || ltb f.reserved_size bytes
    then bug
    else (let g = publish (submit (record f { reserved_size = 0 }) bytes) (advance f bytes) in
        done tt (record (ping_host generic g) { locked = false }))
