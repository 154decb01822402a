-- ===== src/Marker/Pull.antt =====
-- Markers are pulled in spite of the wrap-around of sequence numbers; the sum of times.
use vmwgfx.Prelude.{
  ℕ, ◌+◌, ◌*◌, ◌%◌, ◌^◌, ◌≤◌, ◌<◌, ◌≡◌, refl, Bool, true, false, List, [], ◌∷◌, if◌then◌else◌, ltb,
  arith, All, u32_mod,
}
use vmwgfx.Marker.{Timespec, Marker, Queue, nsec_per_sec, timespec_add, is_ahead, pull_loop, pull}

-- A time in nanoseconds.
abbrev pub total : Timespec → ℕ
total t = t.tv_sec * nsec_per_sec + t.tv_nsec

-- The sum of two times that are in normal form is in normal form, and is the sum in nanoseconds.
pub timespec_add-total :
    (a b : Timespec)
    → a.tv_nsec < nsec_per_sec
    → b.tv_nsec < nsec_per_sec
    → ((timespec_add a b).tv_nsec < nsec_per_sec) × (total (timespec_add a b) ≡ total a + total b)
unfolding timespec_add
timespec_add-total a b ha hb = ground arith

-- A fence that was really the `count`-th to be emitted, with the time of its submission.
pub record Emitted : Type 0 where
  pub count : ℕ
  pub time : Timespec

abbrev pub marker_of : Emitted → Marker
marker_of e = record { seqno = e.count % u32_mod; submitted = e.time }

abbrev pub markers_of : List Emitted → List Marker
markers_of [] = []
markers_of (e ∷ es) = marker_of e ∷ markers_of es

-- The fences that were emitted after the `signaled`-th.
abbrev pub after : (signaled : ℕ) → List Emitted → List Emitted
after signaled [] = []
after signaled (e ∷ es) = if ltb signaled e.count then e ∷ after signaled es else after signaled es

abbrev pub IsNear : (signaled : ℕ) → Emitted → Type 0
IsNear signaled e = (e.count < signaled + 3 * 2 ^ 30) × (signaled ≤ e.count + 2 ^ 30)

is_ahead-count :
    (signaled : ℕ) (e : Emitted)
    → IsNear signaled e
    → is_ahead (signaled % u32_mod) (e.count % u32_mod) ≡ ltb signaled e.count
unfolding is_ahead
is_ahead-count signaled e near = ground arith

module _ (timespec_sub : Timespec → Timespec → Timespec) where
  pull_loop-after :
      (now : Timespec) (signaled : ℕ) (lag : Timespec) (b : Bool) (es : List Emitted)
      → All (IsNear signaled) es
      → (pull_loop timespec_sub now (signaled % u32_mod) lag b (markers_of es)).0
        ≡ markers_of (after signaled es)
  unfolding pull_loop
  pull_loop-after now signaled lag b [] near = refl
  pull_loop-after now signaled lag b (e ∷ es) near = ground (
    arith,
    is_ahead-count signaled e near.0,
    pull_loop-after now signaled lag b es near.1,
    pull_loop-after now signaled (timespec_sub now e.time) true es near.1,
  )

  -- When the `signaled`-th fence has passed, `vmw_marker_pull` takes just the markers of the fences up
  -- to it off the queue, also where the 32-bit numbers have wrapped round. It supposes that the
  -- fences in the queue are at most 2 ^ 30 behind and less than 3 * 2 ^ 30 ahead.
  pub pull-after :
      (now : Timespec) (signaled : ℕ) (q : Queue) (es : List Emitted)
      → q.markers ≡ markers_of es
      → All (IsNear signaled) es
      → (pull timespec_sub now (signaled % u32_mod) q).1.markers ≡ markers_of (after signaled es)
  unfolding pull
  pull-after now signaled q [] h near = rw (h, pull) (ground arith)
  pull-after now signaled q (e ∷ es) h near =
      rw (h, pull) (ground (arith, pull_loop-after now signaled q.lag false (e ∷ es) near))
