-- ===== src/Fifo/Reserve.antt =====
-- `vmw_fifo_reserve`. Its loop runs on a list of rounds, each with what the environment does in it.
use vmwgfx.Prelude.{
  ℕ, Bool, true, false, ◌&&◌, ◌||◌, List, [], ◌∷◌, Option, none, some, leb, ltb, ◌==◌, not,
  if◌then◌else◌, Outcome, ok, err, add32, sub32, ◌/◌,
}
use vmwgfx.Fifo.{Fifo, Words, Run, done, bug, running, is_full}
use vmwgfx.Fifo.Wait.{Wake, fifo_wait}

-- What the caller writes its command to.
pub data Area : Type 0 where
  -- `fifo_mem + i`
  in_place : (i : ℕ) → Area
  static_area : Area
  dynamic_area : Area

-- A round of the loop: SVGA_FIFO_STOP as its first line reads it and as `vmw_fifo_is_full` does
-- after that, the wait, and what `vmalloc` returns.
pub record Round : Type 0 where
  pub stop : ℕ
  pub stop_full : ℕ
  pub wake : Wake
  pub vmalloc : Option Words

pub data Choice : Type 0 where
  place bounce wait : Choice

-- The tests of the loop on the positions.
unfoldable pub choose : Fifo → (bytes : ℕ) → Round → Choice
choose f bytes r =
    let end = add32 f.next_cmd bytes in
    if leb r.stop f.next_cmd
    then (if ltb end f.max || (end == f.max && ltb f.min r.stop)
        then place
        else if is_full f r.stop_full bytes
        then wait
        else bounce)
    else if ltb end r.stop
    then place
    else wait

unfoldable pub use_bounce : Fifo → (bytes : ℕ) → Round → Run (Option Area)
use_bounce f bytes r =
    let f' = record f { using_bounce_buffer = true } in
    if ltb bytes f.static_buffer_size then done (some static_area) f' else elim r.vmalloc [
      | none ↦ done none (record f' { dynamic_buffer = none })
      | some b ↦ done (some dynamic_area) (record f' { dynamic_buffer = some b })
    ]

unfoldable pub use_place : Fifo → (bytes : ℕ) → Round → Run (Option Area)
unfolding use_bounce
use_place f bytes r =
    if f.cap_reserve || leb bytes 4
    then done (some (in_place (f.next_cmd / 4))) (
        if f.cap_reserve
        then record f { using_bounce_buffer = false; reserved = bytes }
        else record f { using_bounce_buffer = false })
    else use_bounce f bytes r

-- the label out_err
unfoldable pub reserve_fail : Fifo → Run (Option Area)
reserve_fail f = done none (record f { reserved_size = 0; locked = false })

unfoldable pub after_wait :
    Run (Outcome (Unit {0})) → (Fifo → Run (Option Area)) → Run (Option Area)
after_wait (done (ok _) f) again = again f
after_wait (done (err _) f) again = reserve_fail f
after_wait bug again = bug
after_wait running again = running

-- The `while (1)` loop. The positions of the driver do not change in it.
unfoldable pub reserve_loop : Fifo → (bytes : ℕ) → List Round → Run (Option Area)
unfolding use_place choose after_wait
reserve_loop f bytes [] = running
reserve_loop f bytes (r ∷ rs) = elim (choose f bytes r) [
  | place ↦ use_place f bytes r
  | bounce ↦ use_bounce f bytes r
  | wait ↦ after_wait (fifo_wait f bytes false r.wake) (λ f'. reserve_loop f' bytes rs)
]

-- whether a pointer is not NULL
abbrev pub is_some : Option Words → Bool
is_some none = false
is_some (some b) = true

-- `vmw_fifo_reserve`
unfoldable pub reserve : Fifo → (bytes : ℕ) → List Round → Run (Option Area)
reserve f bytes rounds =
    let g = record f { locked = true } in
    if leb (sub32 f.max f.min) bytes
    then reserve_fail g
    else if not (f.reserved_size == 0) || is_some f.dynamic_buffer
    then bug
    else reserve_loop (record g { reserved_size = bytes }) bytes rounds
