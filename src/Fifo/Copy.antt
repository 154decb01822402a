-- ===== src/Fifo/Copy.antt =====
-- Both ways of copying the bounce buffer write the command round the ring.
use vmwgfx.Prelude.{
  ℕ, zero, suc, ◌+◌, ◌-◌, ◌/◌, ◌%◌, ◌≤◌, ◌<◌, ◌≡◌, refl, ◌∙◌, ap, ◌&&◌, arith, leb, ltb, ◌==◌,
  if◌then◌else◌, sub32,
}
use vmwgfx.Fifo.{Fifo, Words, IsRing, capacity}
use vmwgfx.Fifo.Commit.{
  write, copy, res_copy, slow_copy, slow_copy_loop, slow_copy_word, bounce_buffer,
}

-- `copy` in closed form.
copy_lem :
    (m : Words) (d : ℕ) (b : Words) (s n j : ℕ)
    → copy m d b s n j ≡ (if leb d j && ltb j (d + n) then b (s + (j - d)) else m j)
unfolding copy
copy_lem m d b s zero j = ground arith
copy_lem m d b s (suc n) j =
    ground (arith, copy_lem (write m d (b s)) (d + 1) b (s + 1) n j, step, near)
  where
    step : write m d (b s) j ≡ (if j == d then b s else m j)
    step = unfold write in refl

    near : (x : ℕ) → x ≡ 0 → b (s + x) ≡ b s
    near x e = ap b (omega arith)

module _ (lo hi : ℕ) where
  -- how far round the ring of the words from `lo` to `hi` the word `j` lies behind `p`
  abbrev pub distance : (p j : ℕ) → ℕ
  distance p j = if leb p j then j - p else (j - lo) + (hi - p)

  -- the ring's words after `n` words, `b s` and those that follow it, are written from `p` on
  abbrev pub ring_write : Words → (p : ℕ) → (b : Words) → (s n : ℕ) → Words
  ring_write m p b s n j =
      if leb lo j && (ltb j hi && ltb (distance p j) n) then b (s + distance p j) else m j

  abbrev wrap : ℕ → ℕ
  wrap p = if p == hi then lo else p

  ring_write-suc :
      (m : Words) (p : ℕ) (b : Words) (s n j : ℕ)
      → lo ≤ p
      → p < hi
      → n < hi - lo
      → ring_write (write m p (b s)) (wrap (p + 1)) b (s + 1) n j ≡ ring_write m p b s (suc n) j
  unfolding write
  ring_write-suc m p b s n j h1 h2 h3 = ground arith

-- The words of the ring, and of the command in the bounce buffer.
abbrev pub ring_of : Fifo → (bytes : ℕ) → Words
ring_of f bytes =
    ring_write (f.min / 4) (f.max / 4) f.memory (f.next_cmd / 4) (bounce_buffer f) 0 (bytes / 4)

slow_copy_loop-ring :
    (n : ℕ) (f : Fifo) (b : Words) (s j : ℕ)
    → IsRing f
    → n < f.max / 4 - f.min / 4
    → (slow_copy_loop b s n f).memory j
      ≡ ring_write (f.min / 4) (f.max / 4) f.memory (f.next_cmd / 4) b s n j
unfolding slow_copy_loop slow_copy_word
slow_copy_loop-ring zero f b s j v room = ground arith
slow_copy_loop-ring (suc n) f b s j v room =
    slow_copy_loop-ring n f' b (s + 1) j v' (omega arith)
    ∙ ap (λ p. ring_write lo hi (write f.memory (f.next_cmd / 4) (b s)) p b (s + 1) n j) next
    ∙ ring_write-suc lo hi f.memory (f.next_cmd / 4) b s n j (omega arith) (omega arith)
        (omega arith)
  where
    lo : ℕ
    lo = f.min / 4

    hi : ℕ
    hi = f.max / 4

    f' : Fifo
    f' = slow_copy_word (b s) f

    v' : IsRing f'
    v' = ground arith

    next : f'.next_cmd / 4 ≡ wrap lo hi (f.next_cmd / 4 + 1)
    next = ground arith

-- `vmw_fifo_slow_copy` writes the words of the bounce buffer round the ring from NEXT_CMD on, and
-- no other word.
pub slow_copy-ring :
    (f : Fifo) (bytes j : ℕ)
    → IsRing f
    → bytes < capacity f
    → (slow_copy f bytes).memory j ≡ ring_of f bytes j
unfolding slow_copy
slow_copy-ring f bytes j v small =
    slow_copy_loop-ring (bytes / 4) f (bounce_buffer f) 0 j v (omega arith)

-- `vmw_fifo_res_copy` does the same by at most two block copies.
pub res_copy-ring :
    (f : Fifo) (bytes j : ℕ)
    → IsRing f
    → bytes % 4 ≡ 0
    → bytes < capacity f
    → (res_copy f bytes).memory j ≡ ring_of f bytes j
unfolding res_copy
res_copy-ring f bytes j v al small = ground (
  arith,
  copy_lem f.memory (f.next_cmd / 4) (bounce_buffer f) 0 (bytes / 4) j,
  copy_lem f.memory (f.next_cmd / 4) (bounce_buffer f) 0 (sub32 f.max f.next_cmd / 4) j,
  copy_lem (copy f.memory (f.next_cmd / 4) (bounce_buffer f) 0 (sub32 f.max f.next_cmd / 4))
      (f.min / 4) (bounce_buffer f) (sub32 f.max f.next_cmd / 4)
      (sub32 bytes (sub32 f.max f.next_cmd) / 4) j,
)
