-- ===== src/Fifo/Progress.antt =====
-- When `vmw_fifo_reserve` returns, and when it does not.
use vmwgfx.Prelude.{
  ℕ, ◌+◌, ◌≤◌, ◌<◌, ◌≡◌, ◌≢◌, refl, sym, ◌∙◌, inl, inr, true, false, List, [], ◌∷◌, ◌++◌, Option,
  none, some, arith, All, Bool, Outcome, ok, err,
}
use vmwgfx.Fifo.{Fifo, Run, done, bug, running, IsRing, capacity, pending, is_full, ping_host}
use vmwgfx.Fifo.Wait.{Wake, woken, fifo_wait, event_outcome}
use vmwgfx.Fifo.Reserve.{
  Round, bounce, wait, choose, use_place, use_bounce, Area, reserve_loop, reserve, after_wait,
  is_some,
}
use vmwgfx.Fifo.Grant.{
  Same, Same-refl, Same-trans, fifo_wait-Same, choose-Same, Choice-cases, choose-mark,
}
use vmwgfx.Fifo.Room.{is_full_wrapped}

-- A round in which the host leaves room, and memory is not short.
abbrev pub HasRoom : Fifo → (bytes : ℕ) → Round → Type 0
HasRoom f bytes r =
    (f.min ≤ r.stop)
    × (r.stop < f.max)
    × (r.stop_full ≡ r.stop)
    × (pending f r.stop + bytes < capacity f)
    × (is_some r.vmalloc ≡ true)

-- A round whose wait ends by a wake-up.
abbrev pub IsWoken : Round → Type 0
IsWoken r = (r.wake.event ≡ woken) × (is_some r.vmalloc ≡ true)

-- whether a call has returned an area
abbrev gives : Run (Option Area) → Bool
gives (done none g) = false
gives (done (some a) g) = true
gives bug = false
gives running = false

gives→ : (m : Run (Option Area)) → gives m ≡ true → (a : Area) × (g : Fifo) × (m ≡ done (some a) g)
gives→ (done none g) h = cc
gives→ (done (some a) g) h = (a, g, refl)
gives→ bug h = cc
gives→ running h = cc

use_bounce-gives :
    (f : Fifo) (bytes : ℕ) (r : Round)
    → is_some r.vmalloc ≡ true
    → gives (use_bounce f bytes r) ≡ true
unfolding use_bounce
use_bounce-gives f bytes r h = ground arith

use_place-gives :
    (f : Fifo) (bytes : ℕ) (r : Round)
    → is_some r.vmalloc ≡ true
    → gives (use_place f bytes r) ≡ true
unfolding use_place
use_place-gives f bytes r h = ground (arith, use_bounce-gives f bytes r h)

choose-HasRoom :
    (f : Fifo) (bytes : ℕ) (r : Round) → IsRing f → HasRoom f bytes r → choose f bytes r ≢ wait
unfolding choose is_full
choose-HasRoom f bytes r v h = ground arith

wakes : Run (Outcome (Unit {0})) → Bool
wakes (done (ok _) g) = true
wakes (done (err _) g) = false
wakes bug = false
wakes running = false

wakes→ : (m : Run (Outcome (Unit {0}))) → wakes m ≡ true → (g : Fifo) × (m ≡ done (ok tt) g)
unfolding wakes
wakes→ (done (ok _) g) h = (g, refl)
wakes→ (done (err _) g) h = cc
wakes→ bug h = cc
wakes→ running h = cc

fifo_wait-woken :
    (f : Fifo) (bytes : ℕ) (w : Wake)
    → f.cap_irqmask ≡ true
    → w.event ≡ woken
    → wakes (fifo_wait f bytes false w) ≡ true
unfolding wakes fifo_wait ping_host event_outcome
fifo_wait-woken f bytes w cap e = ground arith

module _ (f : Fifo) (bytes : ℕ) (v : IsRing f) (cap : f.cap_irqmask ≡ true) where
  reserve_loop-gives :
      (pre post : List Round) (r : Round) (g : Fifo)
      → Same f g
      → All IsWoken pre
      → HasRoom f bytes r
      → gives (reserve_loop g bytes (pre ++ (r ∷ post))) ≡ true
  unfolding reserve_loop after_wait
  reserve_loop-gives [] post r g s woke room = elim (Choice-cases (choose g bytes r)) [
    | inl c ↦ rw (c, reserve_loop) (use_place-gives g bytes r room.4)
    | inr (inl c) ↦ rw (c, reserve_loop) (use_bounce-gives g bytes r room.4)
    | inr (inr c) ↦ absurd (choose-HasRoom f bytes r v room (sym (choose-Same bytes r s) ∙ c))
  ]
  reserve_loop-gives (p ∷ pre) post r g s woke room = elim (Choice-cases (choose g bytes p)) [
    | inl c ↦ rw (c, reserve_loop) (use_place-gives g bytes p woke.0.1)
    | inr (inl c) ↦ rw (c, reserve_loop) (use_bounce-gives g bytes p woke.0.1)
    | inr (inr c) ↦
        let (g', waited) =
          wakes→ _ (fifo_wait-woken g bytes p.wake (s.cap_irqmask ∙ cap) woke.0.0) in
        rw (c, reserve_loop, waited)
          (reserve_loop-gives pre post r g'
            (Same-trans s (fifo_wait-Same g bytes false p.wake waited)) woke.1 room)
  ]

reserve-enters :
    (f : Fifo) (bytes : ℕ) (rs : List Round)
    → IsRing f
    → bytes < capacity f
    → f.reserved_size ≡ 0
    → f.dynamic_buffer ≡ none
    → reserve f bytes rs ≡ reserve_loop (record f { locked = true; reserved_size = bytes }) bytes rs
unfolding reserve
reserve-enters f bytes rs v small fresh empty = ground arith

-- With interrupts, `vmw_fifo_reserve` returns an area as soon as the host has left room in some
-- round and every wait before that ended by a wake-up, whatever the host did in between. It
-- supposes a request smaller than the ring, no request under way, and that `vmalloc` succeeds.
pub reserve_progress :
    (f : Fifo) (bytes : ℕ) (pre post : List Round) (r : Round)
    → IsRing f
    → f.cap_irqmask ≡ true
    → bytes < capacity f
    → f.reserved_size ≡ 0
    → f.dynamic_buffer ≡ none
    → All IsWoken pre
    → HasRoom f bytes r
    → (a : Area) × (g : Fifo) × (reserve f bytes (pre ++ (r ∷ post)) ≡ done (some a) g)
reserve_progress f bytes pre post r v cap small fresh empty woke room =
    rw (reserve-enters f bytes (pre ++ (r ∷ post)) v small fresh empty)
      (gives→ _ (reserve_loop-gives g bytes (omega arith) cap pre post r g (Same-refl g) woke room))
  where
    g : Fifo
    g = record f { locked = true; reserved_size = bytes }

fifo_wait-free :
    (f : Fifo) (bytes : ℕ) (w : Wake)
    → is_full f w.stop bytes ≡ false
    → fifo_wait f bytes false w ≡ done (ok tt) f
unfolding fifo_wait
fifo_wait-free f bytes w h = rw h

choose-wrapped :
    (f : Fifo) (bytes : ℕ) (r : Round)
    → IsRing f
    → f.next_cmd < r.stop
    → r.stop < f.max
    → r.stop ≤ f.next_cmd + bytes
    → bytes < capacity f
    → choose f bytes r ≡ wait
unfolding choose
choose-wrapped f bytes r v h1 h2 h3 small = ground arith

module _ (f : Fifo) (bytes stop : ℕ) (v : IsRing f) (h1 : f.next_cmd < stop) (h2 : stop < f.max)
    (h3 : stop ≤ f.next_cmd + bytes) (small : bytes < capacity f) where
  reserve_loop-spins :
      (rs : List Round)
      → All (λ r. (r.stop ≡ stop) × (r.wake.stop ≡ stop)) rs
      → reserve_loop f bytes rs ≡ running
  unfolding reserve_loop after_wait
  reserve_loop-spins [] still = refl
  reserve_loop-spins (r ∷ rs) still =
      let c = choose-wrapped f bytes r v (omega arith) (omega arith) (omega arith) small in
      let full : is_full f r.wake.stop bytes ≡ false =
        is_full_wrapped r.wake.stop bytes v (omega arith) (omega arith) small in
      rw (c, reserve_loop, fifo_wait-free f bytes r.wake full) (reserve_loop-spins rs still.1)

-- When the pending bytes wrap round the end of the ring and the host has stopped, a request that
-- does not fit before the host's position is never answered, not by a timeout either: in each
-- round `vmw_fifo_wait` returns at once, since `vmw_fifo_is_full` answers no.
pub reserve-spins :
    (f : Fifo) (bytes stop : ℕ) (rs : List Round)
    → IsRing f
    → f.next_cmd < stop
    → stop < f.max
    → stop ≤ f.next_cmd + bytes
    → bytes < capacity f
    → f.reserved_size ≡ 0
    → f.dynamic_buffer ≡ none
    → All (λ r. (r.stop ≡ stop) × (r.wake.stop ≡ stop)) rs
    → reserve f bytes rs ≡ running
reserve-spins f bytes stop rs v h1 h2 h3 small fresh empty still =
    rw (reserve-enters f bytes rs v small fresh empty) (
      reserve_loop-spins (record f { locked = true; reserved_size = bytes }) bytes stop
        (ground arith) h1 h2 h3 small rs still)

reserve_loop-vmalloc :
    (f : Fifo) (bytes : ℕ) (r : Round) (rs : List Round)
    → choose f bytes r ≡ bounce
    → f.static_buffer_size ≤ bytes
    → r.vmalloc ≡ none
    → reserve_loop f bytes (r ∷ rs)
      ≡ done none (record f { using_bounce_buffer = true; dynamic_buffer = none })
unfolding reserve_loop use_bounce
reserve_loop-vmalloc f bytes r rs c big short = rw (c, reserve_loop) (ground arith)

-- When `vmalloc` fails, `vmw_fifo_reserve` returns NULL with the mutex still held and the request
-- still on record.
pub reserve-vmalloc :
    (f : Fifo) (bytes : ℕ) (r : Round) (rs : List Round)
    → IsRing f
    → bytes < capacity f
    → f.reserved_size ≡ 0
    → f.dynamic_buffer ≡ none
    → choose f bytes r ≡ bounce
    → f.static_buffer_size ≤ bytes
    → r.vmalloc ≡ none
    → (g : Fifo) × (reserve f bytes (r ∷ rs) ≡ done none g)
      × (g.locked ≡ true)
      × (g.reserved_size ≡ bytes)
reserve-vmalloc f bytes r rs v small fresh empty c big short = (
  record f {
    locked = true;
    reserved_size = bytes;
    using_bounce_buffer = true;
    dynamic_buffer = none;
  },
  rw (reserve-enters f bytes (r ∷ rs) v small fresh empty) (
      reserve_loop-vmalloc (record f { locked = true; reserved_size = bytes }) bytes r rs
        (rw (choose-mark f bytes r) c) big short),
  refl,
  refl,
)
