-- ===== src/Memory/Tests.antt =====
-- Concrete runs of the memory accounting.
use vmwgfx.Prelude.{ℕ, refl, arith, Bool, true, false, [], ◌∷◌, none}
use vmwgfx.Memory.{
  Zone, Global, reserve, free_zone, has_room, add_used, check_swapping, needs_swapping, sub_used,
  is_counted,
}
use vmwgfx.Memory.Charges.{Charge, Books, IsZones, Step, here, next, reserves, frees, Steps-IsZones}

-- a zone of 1000 bytes
abbrev zone : (used : ℕ) → Zone
zone used = record {
  zone_mem = 1000;
  emer_mem = 750;
  max_mem = 500;
  swap_limit = 375;
  used_mem = used;
}

abbrev global : (used swaps : ℕ) → Global
global used swaps = record {
  zones = zone used ∷ [];
  has_dma32 = false;
  has_shrink = true;
  swaps = swaps;
}

abbrev charge : Charge
charge = record { zone = none; amount = 400 }

abbrev empty_books : Books
empty_books = record { global = global 0 0; charges = [] }

abbrev full_books : Books
full_books = record { global = global 400 1; charges = charge ∷ [] }

abbrev spent_books : Books
spent_books = record { global = global 0 1; charges = [] }

takes_400 : Step 400 empty_books full_books
unfolding reserve has_room add_used check_swapping needs_swapping is_counted
takes_400 = reserves false charge (omega arith) (global 400 1) refl refl

gives_400 : Step 400 full_books spent_books
unfolding free_zone sub_used is_counted
gives_400 = frees [] [] charge refl refl

empty_books-IsZones : IsZones 400 [] 0 (zone 0 ∷ [])
empty_books-IsZones = (
  record {
    max_le = omega arith;
    emer_le = omega arith;
    small = omega arith;
    used = refl;
    fits = omega arith;
  },
  tt,
)

Steps-IsZones_example : IsZones 400 [] 0 (zone 0 ∷ [])
Steps-IsZones_example =
    Steps-IsZones 400 empty_books spent_books (next (next here takes_400) gives_400)
      empty_books-IsZones

-- nothing can be swapped out
abbrev no_shrink : Global → Bool × Global
no_shrink g = (false, g)
