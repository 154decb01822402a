-- ===== src/Seqno/Fallback.antt =====
-- What waiting for an idle device returns.
use mathlib.Core.Path.{subst}
use vmwgfx.Prelude.{
  ℕ, ◌+◌, ◌≤◌, ◌<◌, ◌≡◌, refl, Bool, true, false, ◌&&◌, ◌||◌, ap, List, [], ◌∷◌, ltb, arith, sub32,
  ok, err, erestartsys, All, inl, inr, ◌⊎◌, u32_mod, ◌%◌,
}
use vmwgfx.Marker.{Timespec}
use vmwgfx.Seqno.{
  Device, Look, Wait, returns, waits, fence_wrap, fifo_idle, wait_condition, fallback_loop,
  fallback_wait, emulate_fence, seqno_passed, update_seqno,
}

-- A look after which the wait goes on: the device is busy, there is time left, and no signal is
-- pending where that matters.
abbrev IsQuiet : (interruptible : Bool) → Look → Type 0
IsQuiet interruptible look =
    (fifo_idle look ≡ false) × (look.expired ≡ false) × (interruptible && look.signal ≡ false)

-- The first look that is not quiet, and how it stops the wait.
abbrev pub EndsAt : (stop : Look → Type 0) → (interruptible : Bool) → Look → List Look → Type 0
EndsAt stop interruptible look [] = ⊥
EndsAt stop interruptible look (l ∷ ls) =
    ((look ≡ l) × stop l) ⊎ (IsQuiet interruptible l × EndsAt stop interruptible look ls)

abbrev IsDone : Look → Type 0
IsDone look = (fifo_idle look || look.expired) ≡ true

abbrev IsInterrupted : Look → Type 0
IsInterrupted look = (fifo_idle look ≡ false) × (look.expired ≡ false) × (look.signal ≡ true)

-- What the loop of a wait for an idle device comes to.
abbrev Looped : (interruptible : Bool) → List Look → Device → Wait → Type 0
Looped interruptible looks d waits = All (IsQuiet interruptible) looks
Looped interruptible looks d (returns (ok _) e) =
    (look : Look) × EndsAt IsDone interruptible look looks
    × (e ≡ record d { marker_seq = look.marker_seq })
Looped interruptible looks d (returns (err n) e) =
    (look : Look) × EndsAt IsInterrupted interruptible look looks
    × (interruptible ≡ true)
    × (n ≡ erestartsys)
    × (e ≡ record d { marker_seq = look.marker_seq })

-- What the wait comes to: the same, and after success the FENCE register has the number that was
-- current at the start.
abbrev pub Ended : (interruptible : Bool) → List Look → Device → Wait → Type 0
Ended interruptible looks d waits = All (IsQuiet interruptible) looks
Ended interruptible looks d (returns (ok _) e) =
    (look : Look) × EndsAt IsDone interruptible look looks
    × (e ≡ record d {
      marker_seq = look.marker_seq;
      fifo = record (d.fifo) { fence = d.marker_seq };
    })
Ended interruptible looks d (returns (err n) e) = Looped interruptible looks d (returns (err n) e)

module _ (timespec_sub : Timespec → Timespec → Timespec) where
  quiet-Looped :
      (interruptible : Bool) (look : Look) (looks : List Look) (d : Device) (w : Wait)
      → IsQuiet interruptible look
      → Looped interruptible looks (record d { marker_seq = look.marker_seq }) w
      → Looped interruptible (look ∷ looks) d w
  quiet-Looped interruptible look looks d waits q h = (q, h)
  quiet-Looped interruptible look looks d (returns (ok _) e) q (l, at_end, same) =
      (l, inr (q, at_end), same)
  quiet-Looped interruptible look looks d (returns (err n) e) q (l, at_end, a, b, same) =
      (l, inr (q, at_end), a, b, same)

  fallback_loop-Looped :
      (seqno : ℕ) (interruptible : Bool) (looks : List Look) (d : Device)
      → Looped interruptible looks d (fallback_loop timespec_sub true seqno interruptible looks d)
  unfolding fallback_loop wait_condition
  fallback_loop-Looped seqno interruptible [] d = tt
  fallback_loop-Looped seqno interruptible (look ∷ looks) d =
      go (fifo_idle look) (look.expired) (interruptible && look.signal) refl refl refl
        (fallback_loop-Looped seqno interruptible looks (record d { marker_seq = look.marker_seq }))
    where
      d1 : Device
      d1 = record d { marker_seq = look.marker_seq }

      result : Wait
      result = fallback_loop timespec_sub true seqno interruptible (look ∷ looks) d

      go :
          (idle late stop : Bool)
          → fifo_idle look ≡ idle
          → look.expired ≡ late
          → (interruptible && look.signal) ≡ stop
          → Looped interruptible looks d1
              (fallback_loop timespec_sub true seqno interruptible looks d1)
          → Looped interruptible (look ∷ looks) d result
      go true late stop a b c ih =
          let q : returns (ok tt) d1 ≡ result = ground arith in
          subst (Looped interruptible (look ∷ looks) d) q (look, inl (refl, ground arith), refl)
      go false true stop a b c ih =
          let q : returns (ok tt) d1 ≡ result = ground arith in
          subst (Looped interruptible (look ∷ looks) d) q (look, inl (refl, ground arith), refl)
      go false false true a b c ih =
          let q : returns (err erestartsys) d1 ≡ result = ground arith in
          subst (Looped interruptible (look ∷ looks) d) q
            (look, inl (refl, (a, b, ground arith)), ground arith, refl, refl)
      go false false false a b c ih =
          let q : fallback_loop timespec_sub true seqno interruptible looks d1 ≡ result =
            ground arith in
          subst (Looped interruptible (look ∷ looks) d) q
            (quiet-Looped interruptible look looks d _ (a, b, c) ih)

  -- How waiting for an idle device goes. It goes on while each look finds the device busy, time left,
  -- and no signal where signals interrupt. The first other look ends it: with 0 where the device is
  -- idle or the time is up, and then the FENCE register takes the value that `marker_seq` had at the
  -- start; else with ERESTARTSYS, and the register is left as it was. Nothing else changes but
  -- `marker_seq`, by other tasks.
  pub fallback_wait-Ended :
      (seqno : ℕ) (interruptible : Bool) (looks : List Look) (d : Device)
      → Ended interruptible looks d (fallback_wait timespec_sub true seqno interruptible looks d)
  unfolding fallback_wait emulate_fence
  fallback_wait-Ended seqno interruptible looks d =
      go (fallback_loop timespec_sub true seqno interruptible looks d)
        (fallback_loop-Looped seqno interruptible looks d)
    where
      go :
          (w : Wait)
          → Looped interruptible looks d w
          → Ended interruptible looks d (emulate_fence timespec_sub true d.marker_seq w)
      go waits h = h
      go (returns (ok _) e) (look, at_end, same) = (
        look,
        at_end,
        ap (λ (c : Device). record c { fifo = record (c.fifo) { fence = d.marker_seq } }) same,
      )
      go (returns (err n) e) h = h

  seqno_passed-fence :
      (look : Look) (seqno : ℕ) (d : Device)
      → ltb (sub32 look.fence seqno) fence_wrap ≡ true
      → (seqno_passed timespec_sub look seqno d).0 ≡ true
  unfolding seqno_passed update_seqno
  seqno_passed-fence look seqno d h = ground arith

  -- Where the device signals no fence, waiting for it to be idle makes up for that: once
  -- `vmw_fallback_wait` has returned 0, it has found the device idle or the time up, and each of the
  -- last 2 ^ 24 fences that had been emitted when the wait began counts as passed, as soon as the
  -- FENCE register is read again.
  pub fallback_wait-passes :
      (seqno : ℕ) (interruptible : Bool) (looks : List Look) (d e : Device) (n emitted : ℕ)
      (look : Look)
      → fallback_wait timespec_sub true seqno interruptible looks d ≡ returns (ok tt) e
      → d.marker_seq ≡ emitted % u32_mod
      → n ≤ emitted
      → emitted < n + fence_wrap
      → look.fence ≡ e.fifo.fence
      → ((last : Look) × EndsAt (λ l. (fifo_idle l || l.expired) ≡ true) interruptible last looks)
        × ((seqno_passed timespec_sub look (n % u32_mod) e).0 ≡ true)
  fallback_wait-passes seqno interruptible looks d e n emitted look h hm le recent hl =
      let (last, at_end, same) : Ended interruptible looks d (returns (ok tt) e) =
        subst (Ended interruptible looks d) h (fallback_wait-Ended seqno interruptible looks d) in
      (
        (last, at_end),
        seqno_passed-fence look (n % u32_mod) e
            (ground (arith, ap (λ (c : Device). c.fifo.fence) same)),
      )

  -- A device that does not become idle in time is reported as success: when the time is up,
  -- `vmw_fallback_wait` returns 0, and the FENCE register takes the number of the last fence.
  pub fallback_wait-expired :
      (seqno : ℕ) (interruptible : Bool) (look : Look) (looks : List Look) (d : Device)
      → fifo_idle look ≡ false
      → look.expired ≡ true
      → fallback_wait timespec_sub true seqno interruptible (look ∷ looks) d
        ≡ returns (ok tt) (record d {
          marker_seq = look.marker_seq;
          fifo = record (d.fifo) { fence = d.marker_seq };
        })
  unfolding fallback_wait emulate_fence fallback_loop wait_condition
  fallback_wait-expired seqno interruptible look looks d busy late = ground arith
