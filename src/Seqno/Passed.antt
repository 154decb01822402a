-- ===== src/Seqno/Passed.antt =====
-- `vmw_seqno_passed` in spite of the wrap-around of the 32-bit numbers.
use vmwgfx.Prelude.{
  ℕ, ◌+◌, ◌%◌, ◌^◌, ◌≤◌, ◌<◌, ◌≡◌, true, false, if◌then◌else◌, leb, ltb, arith, u32_mod, sub32,
}
use vmwgfx.Marker.{Timespec}
use vmwgfx.Seqno.{Device, Look, fence_wrap, is_recent, update_seqno, seqno_passed}

module _ (timespec_sub : Timespec → Timespec → Timespec) where
  update_seqno-fields :
      (look : Look) (d : Device)
      → ((update_seqno timespec_sub look d).last_read_seqno ≡ look.fence)
        × ((update_seqno timespec_sub look d).marker_seq ≡ d.marker_seq)
        × ((update_seqno timespec_sub look d).fifo.cap_fence ≡ d.fifo.cap_fence)
  unfolding update_seqno
  update_seqno-fields look d = ground arith

  seqno_passed-test :
      (look : Look) (seqno : ℕ) (d : Device)
      → d.fifo.cap_fence ≡ true
      → (seqno_passed timespec_sub look seqno d).0 ≡ (
          if is_recent d seqno
          then true
          else if ltb (sub32 look.fence seqno) fence_wrap
          then true
          else ltb fence_wrap (sub32 d.marker_seq seqno))
  unfolding seqno_passed
  seqno_passed-test look seqno d cap = ground (arith, update_seqno-fields look d)

  -- Let the driver have emitted `emitted` fences, the device have passed `fence` of them, and `read`
  -- of them when the driver last looked. With fences that the device signals, `vmw_seqno_passed` on
  -- the number of the `n`-th fence says just whether the device has passed it, however long ago. It
  -- supposes that less than 2 ^ 24 fences are under way, that the last look is less than 2 ^ 31
  -- fences old, that less than 2 ^ 32 followed the `n`-th, and that, if it is the one 2 ^ 24
  -- before the last one that the device has passed, some fence is under way.
  pub seqno_passed-count :
      (look : Look) (d : Device) (n read fence emitted : ℕ)
      → d.fifo.cap_fence ≡ true
      → d.last_read_seqno ≡ read % u32_mod
      → look.fence ≡ fence % u32_mod
      → d.marker_seq ≡ emitted % u32_mod
      → read ≤ fence
      → fence ≤ emitted
      → n ≤ emitted
      → emitted < fence + fence_wrap
      → emitted < read + 2 ^ 31
      → emitted < n + u32_mod
      → (n + fence_wrap ≡ fence → fence < emitted)
      → (seqno_passed timespec_sub look (n % u32_mod) d).0 ≡ leb n fence
  seqno_passed-count look d n read fence emitted cap hr hf he le1 le2 le3 w1 w2 w3 edge =
      ground (arith, seqno_passed-test look (n % u32_mod) d cap)

  -- The fence that lies just 2 ^ 24 behind is taken for one that has not passed, when the device has
  -- passed all that were emitted and the driver has seen that.
  pub seqno_passed-edge :
      (look : Look) (d : Device) (n : ℕ)
      → d.fifo.cap_fence ≡ true
      → d.last_read_seqno ≡ (n + fence_wrap) % u32_mod
      → look.fence ≡ (n + fence_wrap) % u32_mod
      → d.marker_seq ≡ (n + fence_wrap) % u32_mod
      → (seqno_passed timespec_sub look (n % u32_mod) d).0 ≡ false
  seqno_passed-edge look d n cap hr hf he =
      ground (arith, seqno_passed-test look (n % u32_mod) d cap)
