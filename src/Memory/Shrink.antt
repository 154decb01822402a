-- ===== src/Memory/Shrink.antt =====
-- Allocation under shortage: swapping ends, and retries are bounded.
use vmwgfx.Prelude.{ℕ, ◌<◌, ◌≡◌, Bool, true, false, Option, some, Outcome, ok, err, enomem, ◌⊎◌}
use vmwgfx.Memory.{Global, has_room, add_used, total_used, add_used}

-- The callback fails, or swaps something out.
abbrev pub Frees : (Global → Bool × Global) → Type 0
Frees do_shrink =
    (g : Global)
    → ((do_shrink g).0 ≡ false) ⊎ (total_used (do_shrink g).1.zones < total_used g.zones)

module _ (do_shrink : Global → Bool × Global) (frees : Frees do_shrink) where
  -- What an allocation comes to: it fails, or a reservation of `memory` bytes was made on zones that
  -- had room.
  abbrev pub Reserved :
      (capable : Bool) → (single : Option ℕ) → (memory : ℕ) → Outcome (Unit {0}) × Global → Type 0
  Reserved capable single memory (ok _, h) =
      (g : Global) × (has_room capable single 0 g.zones ≡ true)
      × (h.zones ≡ add_used single memory 0 g.zones)
  Reserved capable single memory (err e, h) = e ≡ enomem

  abbrev Finished :
      (capable : Bool)
      → (single : Option ℕ) → (memory : ℕ) → Option (Outcome (Unit {0}) × Global)
      → Type 0
  Finished capable single memory o =
      (r : Outcome (Unit {0}) × Global) × (o ≡ some r) × Reserved capable single memory r
