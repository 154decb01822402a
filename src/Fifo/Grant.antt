-- ===== src/Fifo/Grant.antt =====
-- What a successful `vmw_fifo_reserve` grants, whatever the host does while it waits.
use vmwgfx.Prelude.{
  ℕ, ◌+◌, ◌/◌, ◌≤◌, ◌<◌, ◌≡◌, refl, sym, ◌∙◌, ◌⊎◌, inl, inr, Bool, true, false, List, [], ◌∷◌,
  Option, none, some, arith, Outcome, ok, err, All, Any,
}
use vmwgfx.Fifo.{
  Fifo, Run, done, bug, running, IsRing, capacity, pending, is_full, ping_host, fifofull,
}
use vmwgfx.Fifo.Wait.{Wake, Poll, wait_noirq, fifo_wait, waiters_enter, waiters_leave}
use vmwgfx.Fifo.Reserve.{
  Round, Choice, place, bounce, wait, choose, use_place, use_bounce, Area, in_place, static_area,
  dynamic_area, reserve_loop, reserve, after_wait, reserve_fail, is_some,
}
use vmwgfx.Fifo.Room.{ReadsOn, choose_room, choose_place}

-- What a wait leaves alone.
pub record Same (f g : Fifo) : Type 0 where
  pub min : g.min ≡ f.min
  pub max : g.max ≡ f.max
  pub next_cmd : g.next_cmd ≡ f.next_cmd
  pub cap_reserve : g.cap_reserve ≡ f.cap_reserve
  pub static_buffer_size : g.static_buffer_size ≡ f.static_buffer_size
  pub reserved_size : g.reserved_size ≡ f.reserved_size
  pub dynamic_buffer : g.dynamic_buffer ≡ f.dynamic_buffer
  pub memory : g.memory ≡ f.memory
  pub locked : g.locked ≡ f.locked
  pub cap_irqmask : g.cap_irqmask ≡ f.cap_irqmask

pub Same-refl : (f : Fifo) → Same f f
Same-refl f = record {
  min = refl;
  max = refl;
  next_cmd = refl;
  cap_reserve = refl;
  static_buffer_size = refl;
  reserved_size = refl;
  dynamic_buffer = refl;
  memory = refl;
  locked = refl;
  cap_irqmask = refl;
}

pub Same-trans : {f g h : Fifo} → Same f g → Same g h → Same f h
Same-trans p q = ground arith

wait_noirq-Same :
    (f : Fifo) (bytes : ℕ) (b : Bool) (ps : List Poll) {o : Outcome (Unit {0})} {g : Fifo}
    → wait_noirq f bytes b ps ≡ done o g
    → Same f g
unfolding wait_noirq
wait_noirq-Same f bytes b [] h = cc
wait_noirq-Same f bytes b (p ∷ ps) {o} {g} h =
    ground (arith, wait_noirq-Same f bytes b ps {o = o} {g = g})

pub fifo_wait-Same :
    (f : Fifo) (bytes : ℕ) (b : Bool) (w : Wake) {o : Outcome (Unit {0})} {g : Fifo}
    → fifo_wait f bytes b w ≡ done o g
    → Same f g
unfolding fifo_wait ping_host waiters_enter waiters_leave
fifo_wait-Same f bytes b w {o} {g} h =
    ground (arith, wait_noirq-Same (ping_host fifofull f) bytes b w.polls {o = o} {g = g})

pub choose-Same :
    {f g : Fifo} (bytes : ℕ) (r : Round) → Same f g → choose g bytes r ≡ choose f bytes r
unfolding choose is_full
choose-Same bytes r s = ground arith

-- The host's moves in a round, seen from the ring that the call started with.
abbrev pub IsHost : Fifo → Round → Type 0
IsHost f r = (f.min ≤ r.stop) × (r.stop < f.max) × ReadsOn f r.stop r.stop_full

-- What the area is, by its kind.
abbrev pub IsArea : Fifo → (bytes : ℕ) → Area → Fifo → Type 0
IsArea f bytes (in_place i) g =
    (i ≡ f.next_cmd / 4)
    × (f.next_cmd + bytes ≤ f.max)
    × (g.using_bounce_buffer ≡ false)
    × ((f.cap_reserve ≡ true) ⊎ (bytes ≤ 4))
IsArea f bytes static_area g =
    (g.using_bounce_buffer ≡ true) × (bytes < f.static_buffer_size) × (g.dynamic_buffer ≡ none)
IsArea f bytes dynamic_area g =
    (g.using_bounce_buffer ≡ true)
    × (f.static_buffer_size ≤ bytes)
    × (is_some g.dynamic_buffer ≡ true)

pub record Granted (f : Fifo) (bytes : ℕ) (rounds : List Round) (a : Area) (g : Fifo) : Type 0 where
  pub min : g.min ≡ f.min
  pub max : g.max ≡ f.max
  pub next_cmd : g.next_cmd ≡ f.next_cmd
  pub memory : g.memory ≡ f.memory
  pub reserved_size : g.reserved_size ≡ bytes
  pub locked : g.locked ≡ true
  pub area : IsArea f bytes a g
  pub room : Any (λ r. pending f r.stop_full + bytes < capacity f) rounds

-- The state in the loop: as at its start, but for what waits change.
abbrev InLoop : Fifo → (bytes : ℕ) → Fifo → Type 0
InLoop f bytes g =
    Same (record f { locked = true; reserved_size = bytes }) g × (f.dynamic_buffer ≡ none)

use_bounce-Granted :
    {f g h : Fifo} (bytes : ℕ) (r : Round) (rs : List Round) {a : Area}
    → InLoop f bytes g
    → pending f r.stop_full + bytes < capacity f
    → use_bounce g bytes r ≡ done (some a) h
    → Granted f bytes (r ∷ rs) a h
unfolding use_bounce
use_bounce-Granted {f} {g} bytes r rs {a = in_place i} s room e = ground arith
use_bounce-Granted {f} {g} bytes r rs {a = static_area} s room e = ground arith
use_bounce-Granted {f} {g} bytes r rs {a = dynamic_area} s room e = ground arith

use_place-Granted :
    {f g h : Fifo} (bytes : ℕ) (r : Round) (rs : List Round) {a : Area}
    → InLoop f bytes g
    → f.next_cmd + bytes ≤ f.max
    → pending f r.stop_full + bytes < capacity f
    → use_place g bytes r ≡ done (some a) h
    → Granted f bytes (r ∷ rs) a h
unfolding use_place
use_place-Granted {f} {g} {h} bytes r rs {a = in_place i} s fits room e =
    ground (arith, use_bounce-Granted {f = f} {g = g} {h = h} bytes r rs {a = in_place i})
use_place-Granted {f} {g} {h} bytes r rs {a = static_area} s fits room e =
    ground (arith, use_bounce-Granted {f = f} {g = g} {h = h} bytes r rs {a = static_area})
use_place-Granted {f} {g} {h} bytes r rs {a = dynamic_area} s fits room e =
    ground (arith, use_bounce-Granted {f = f} {g = g} {h = h} bytes r rs {a = dynamic_area})

pub choose-mark :
    (f : Fifo) (bytes : ℕ) (r : Round)
    → choose (record f { locked = true; reserved_size = bytes }) bytes r ≡ choose f bytes r
unfolding choose is_full
choose-mark f bytes r = refl

-- The current state in the place of the one that the call started with.
choose-InLoop :
    (f g : Fifo) (bytes : ℕ) (r : Round) → InLoop f bytes g → choose g bytes r ≡ choose f bytes r
choose-InLoop f g bytes r s =
    choose-Same {f = record f { locked = true; reserved_size = bytes }} bytes r s.0
    ∙ choose-mark f bytes r

InLoop-wait :
    (f : Fifo) {g h : Fifo} (bytes : ℕ) (w : Wake) {o : Outcome (Unit {0})}
    → InLoop f bytes g
    → fifo_wait g bytes false w ≡ done o h
    → InLoop f bytes h
InLoop-wait f {g} bytes w s e = (Same-trans s.0 (fifo_wait-Same g bytes false w e), s.1)

after_wait-some :
    {m : Run (Outcome (Unit {0}))} (k : Fifo → Run (Option Area)) {a : Area} {h : Fifo}
    → after_wait m k ≡ done (some a) h
    → (g : Fifo) × (m ≡ done (ok tt) g) × (k g ≡ done (some a) h)
unfolding after_wait reserve_fail
after_wait-some {m = done (ok _) g} k e = (g, refl, e)
after_wait-some {m = done (err _) g} k e = cc
after_wait-some {m = bug} k e = cc
after_wait-some {m = running} k e = cc

pub Choice-cases : (c : Choice) → (c ≡ place) ⊎ ((c ≡ bounce) ⊎ (c ≡ wait))
Choice-cases place = inl refl
Choice-cases bounce = inr (inl refl)
Choice-cases wait = inr (inr refl)

Granted-later :
    {f h : Fifo} (bytes : ℕ) (r : Round) (rs : List Round) (a : Area)
    → Granted f bytes rs a h
    → Granted f bytes (r ∷ rs) a h
Granted-later bytes r rs a s = record {
  min = s.min;
  max = s.max;
  next_cmd = s.next_cmd;
  memory = s.memory;
  reserved_size = s.reserved_size;
  locked = s.locked;
  area = s.area;
  room = inr s.room;
}

module _ {f : Fifo} (bytes : ℕ) (v : IsRing f) (small : bytes < capacity f) where
  reserve_loop-Granted :
      (rs : List Round) {g h : Fifo} {a : Area}
      → All (IsHost f) rs
      → InLoop f bytes g
      → reserve_loop g bytes rs ≡ done (some a) h
      → Granted f bytes rs a h
  unfolding reserve_loop
  reserve_loop-Granted [] host s e = cc
  reserve_loop-Granted (r ∷ rs) {g} {h} {a} host s e = elim (Choice-cases (choose g bytes r)) [
    | inl c ↦
        let c' : choose f bytes r ≡ place = sym (choose-InLoop f g bytes r s) ∙ c in
        use_place-Granted bytes r rs s (choose_place bytes r v small host.0.1 c')
          (choose_room bytes r v small host.0.0 host.0.1 host.0.2 (rw c' (λ x. cc)))
          (rw (c, reserve_loop) at e)
    | inr (inl c) ↦
        let c' : choose f bytes r ≡ bounce = sym (choose-InLoop f g bytes r s) ∙ c in
        use_bounce-Granted bytes r rs s
          (choose_room bytes r v small host.0.0 host.0.1 host.0.2 (rw c' (λ x. cc)))
          (rw (c, reserve_loop) at e)
    | inr (inr c) ↦
        let (g', waited, rest) =
          after_wait-some (λ f'. reserve_loop f' bytes rs) (rw (c, reserve_loop) at e) in
        Granted-later bytes r rs a
          (reserve_loop-Granted rs host.1 (InLoop-wait f bytes r.wake s waited) rest)
  ]

reserve-start :
    {f h : Fifo} (bytes : ℕ) (rs : List Round) (a : Area)
    → IsRing f
    → reserve f bytes rs ≡ done (some a) h
    → (bytes < capacity f)
      × (f.dynamic_buffer ≡ none)
      × (reserve_loop (record f { locked = true; reserved_size = bytes }) bytes rs
          ≡ done (some a) h)
unfolding reserve reserve_fail
reserve-start bytes rs a v e = ground arith

-- When `vmw_fifo_reserve` returns an area, then in one of its rounds the host had left more than
-- `bytes` bytes free, so that with them the ring is not yet full; a place in the ring starts at
-- NEXT_CMD and ends by MAX; the bounce buffer that is returned is the one that the size asks for;
-- and the call has changed no position and no word of the ring, and holds the mutex. `IsHost` says
-- that the host stays in the ring and reads on towards NEXT_CMD.
pub reserve-Granted :
    {f h : Fifo} (bytes : ℕ) (rs : List Round) (a : Area)
    → IsRing f
    → All (IsHost f) rs
    → reserve f bytes rs ≡ done (some a) h
    → Granted f bytes rs a h
reserve-Granted {f} bytes rs a v host e =
    let (small, empty, loop) = reserve-start bytes rs a v e in
    reserve_loop-Granted bytes v small rs host (Same-refl _, empty) loop
