-- ===== src/Overlay/Tests.antt =====
-- A concrete run of the overlay: buffer 3 is shown, and then paused.
use vmwgfx.Prelude.{ℕ, ◌+◌, refl, true, false, none, some, ok}
use vmwgfx.Overlay.{
  Overlay, Luck, init, ioctl, update_stream, stop, stopped, start, pause_all, set_pin, count_ref,
}
use vmwgfx.Overlay.Shown.{IsOverlay}
use vmwgfx.Overlay.Steps.{Step, here, next, controls, pauses, Steps-IsOverlay}

abbrev lucky : Luck
lucky = record { stop = ok tt; unpin = ok tt; pin = ok tt; put = ok tt; undo = ok tt }

abbrev one_ref : ℕ → ℕ
one_ref b = 1

abbrev showing : Overlay
showing = record (init one_ref) {
  stream = record { buf = some 3; claimed = false; paused = false; saved = 9 };
  pinned = set_pin 3 true (λ b. false);
  refs = count_ref (λ n. n + 1) 3 one_ref;
  shown = some 3;
}

abbrev paused : Overlay
paused = record showing {
  stream = record { buf = some 3; claimed = false; paused = true; saved = 9 };
  pinned = set_pin 3 false showing.pinned;
  shown = none;
}

shows : Step (init one_ref) showing
unfolding init ioctl update_stream stop stopped start
shows = controls true (ok 3) 9 lucky (ok tt) refl

pauses_it : Step showing paused
unfolding init pause_all stop stopped
pauses_it = pauses lucky refl

Steps-IsOverlay_example : IsOverlay one_ref paused
Steps-IsOverlay_example = Steps-IsOverlay one_ref paused (next (next here shows) pauses_it)
