-- ===== src/Overlay.antt =====
-- The video overlay (vmwgfx_overlay.c). VMW_MAX_NUM_STREAMS is 1, so that there is one stream and each loop
-- over streams runs once. A buffer is a number. The overlay's own pins and references are part of
-- its state, and so is the buffer that the device shows. Whether a command is sent, and a buffer
-- moved, is an argument; a call that meets BUG() has no result.
pub mod Shown
pub mod Steps
mod Tests
use vmwgfx.Prelude.{
  ℕ, ◌+◌, ◌-◌, Bool, true, false, not, ◌&&◌, Option, none, some, ◌==◌, if◌then◌else◌, Outcome, ok,
  err, Errno, einval, erestartsys, enomem, ebusy, eagain, eperm,
}

-- `struct vmw_stream`; `saved` is the argument of the last put
pub record Stream : Type 0 where
  pub buf : Option ℕ
  pub claimed : Bool
  pub paused : Bool
  pub saved : ℕ

-- the stream, what the overlay has pinned and references, and what the device shows
pub record Overlay : Type 0 where
  pub stream : Stream
  pub pinned : ℕ → Bool
  pub refs : ℕ → ℕ
  pub shown : Option ℕ

-- the results of the commands and moves that a call may ask for
pub record Luck : Type 0 where
  pub stop : Outcome (Unit {0})
  pub unpin : Outcome (Unit {0})
  pub pin : Outcome (Unit {0})
  pub put : Outcome (Unit {0})
  pub undo : Outcome (Unit {0})

abbrev pub is_restart : Errno → Bool
is_restart erestartsys = true
is_restart enomem = false
is_restart einval = false
is_restart ebusy = false
is_restart eagain = false
is_restart eperm = false

-- An error of a wait that is allowed only when it may be interrupted; `none` is BUG().
abbrev pub allowed : (interruptible : Bool) → Outcome (Unit {0}) → Option (Outcome (Unit {0}))
allowed interruptible (ok _) = some (ok tt)
allowed interruptible (err e) = if interruptible && is_restart e then some (err e) else none

abbrev pub set_pin : (buf : ℕ) → Bool → (ℕ → Bool) → ℕ → Bool
set_pin buf p pinned b = if b == buf then p else pinned b

abbrev pub count_ref : (ℕ → ℕ) → (buf : ℕ) → (ℕ → ℕ) → ℕ → ℕ
count_ref step buf refs b = if b == buf then step (refs b) else refs b

-- the end of `vmw_overlay_stop`
unfoldable pub stopped : (pause : Bool) → (buf : ℕ) → Overlay → Overlay
stopped pause buf o =
    if not pause
    then record o {
      refs = count_ref (λ n. n - 1) buf o.refs;
      stream = record (o.stream) { buf = none; paused = false };
    }
    else record o { stream = record (o.stream) { paused = true } }

-- `vmw_overlay_stop`
unfoldable pub stop :
    (pause interruptible : Bool) → Luck → Overlay → Option (Outcome (Unit {0}) × Overlay)
unfolding stopped
stop pause interruptible l o = elim o.stream.buf [
  | none ↦ some (ok tt, o)
  | some buf ↦
      if o.stream.paused
      then some (ok tt, stopped pause buf o)
      else elim (allowed interruptible l.stop) [
        | none ↦ none
        | some r ↦ elim r [
          | err e ↦ some (err e, o)
          | ok _ ↦
              let off : Overlay = record o { shown = none } in
              elim (allowed interruptible l.unpin) [
                | none ↦ none
                | some r' ↦ elim r' [
                  | err e ↦ some (err e, off)
                  | ok _ ↦ some (
                    ok tt,
                    stopped pause buf (record off { pinned = set_pin buf false off.pinned }),
                  )
                ]
              ]
        ]
      ]
]

abbrev pub holds : (buf : ℕ) → Option ℕ → Bool
holds buf none = false
holds buf (some b) = b == buf

-- `vmw_overlay_update_stream`, where the stream has the buffer and is not paused
unfoldable pub put_again :
    (buf arg : ℕ) → (interruptible : Bool) → Luck → Overlay → Option (Outcome (Unit {0}) × Overlay)
put_again buf arg interruptible l o = elim l.put [
  | ok _ ↦ some (ok tt, record o { shown = some buf; stream = record (o.stream) { saved = arg } })
  | err e ↦ if interruptible then some (err e, o) else none
]

-- `vmw_overlay_update_stream`, from the move of the buffer on
unfoldable pub start : (buf arg : ℕ) → Luck → Overlay → Option (Outcome (Unit {0}) × Overlay)
start buf arg l o = elim l.pin [
  | err e ↦ some (err e, o)
  | ok _ ↦ elim l.put [
    | err e ↦ elim l.undo [ ok _ ↦ some (err e, o) | err e' ↦ none ]
    | ok _ ↦ some (
      ok tt,
      record o {
        pinned = set_pin buf true o.pinned;
        shown = some buf;
        refs = if holds buf o.stream.buf then o.refs else count_ref (λ n. n + 1) buf o.refs;
        stream = record (o.stream) { buf = some buf; saved = arg; paused = false };
      },
    )
  ]
]

-- `vmw_overlay_update_stream`
unfoldable pub update_stream :
    (buf : Option ℕ)
    → (arg : ℕ) → (interruptible : Bool) → Luck
    → Overlay
    → Option (Outcome (Unit {0}) × Overlay)
unfolding stop put_again start
update_stream none arg interruptible l o = some (err einval, o)
update_stream (some buf) arg interruptible l o =
    if not (holds buf o.stream.buf)
    then elim (stop false interruptible l o) [
      | none ↦ none
      | some (r, o') ↦ elim r [ err e ↦ some (err e, o') | ok _ ↦ start buf arg l o' ]
    ]
    else if not o.stream.paused
    then put_again buf arg interruptible l o
    else start buf arg l o

abbrev pub state_of : Option (Outcome (Unit {0}) × Overlay) → Option Overlay
state_of none = none
state_of (some (r, o)) = some o

-- `vmw_overlay_stop_all`, `vmw_overlay_pause_all` and `vmw_overlay_resume_all`
unfoldable pub stop_all : Luck → Overlay → Option Overlay
unfolding stop
stop_all l o = state_of (stop false false l o)

unfoldable pub pause_all : Luck → Overlay → Option Overlay
unfolding stop
pause_all l o = state_of (stop true false l o)

unfoldable pub resume_all : Luck → Overlay → Option Overlay
unfolding update_stream
resume_all l o =
    if o.stream.paused
    then state_of (update_stream o.stream.buf o.stream.saved false l o)
    else some o

-- `vmw_overlay_ioctl`, of a stream that was looked up, on the buffer that its handle names or not; the
-- reference of the lookup is given back
unfoldable pub ioctl :
    (enabled : Bool)
    → (buf : Outcome ℕ) → (arg : ℕ) → Luck
    → Overlay
    → Option (Outcome (Unit {0}) × Overlay)
unfolding stop update_stream
ioctl false buf arg l o = stop false true l o
ioctl true (err e) arg l o = some (err e, o)
ioctl true (ok buf) arg l o = update_stream (some buf) arg true l o

-- `vmw_overlay_claim`; `none` is -ESRCH
unfoldable pub claim : Overlay → Option ℕ × Overlay
claim o =
    if o.stream.claimed
    then (none, o)
    else (some 0, record o { stream = record (o.stream) { claimed = true } })

-- `vmw_overlay_unref`
unfoldable pub unref : Luck → Overlay → Option Overlay
unfolding stop
unref l o = elim (state_of (stop false false l o)) [
  | none ↦ none
  | some o' ↦ some (record o' { stream = record (o'.stream) { claimed = false } })
]

-- `vmw_overlay_init`
unfoldable pub init : (refs : ℕ → ℕ) → Overlay
init refs = record {
  stream = record { buf = none; claimed = false; paused = false; saved = 0 };
  pinned = λ b. false;
  refs = refs;
  shown = none;
}
