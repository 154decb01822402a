-- ===== src/Mm/Tiles.antt =====
-- Block lists that tile a range, and the addresses that they say are in use.
use vmwgfx.Prelude.{
  ℕ, ◌+◌, ◌≤◌, ◌<◌, ◌≡◌, refl, Bool, true, false, not, ◌&&◌, ◌||◌, List, [], ◌∷◌, some, arith, leb,
  ltb,
}
use vmwgfx.Mm.{Node, find}

-- The blocks lie one behind the other from `s` to `e`.
abbrev pub Tiles : (s : ℕ) → List Node → (e : ℕ) → Type 0
Tiles s [] e = s ≡ e
Tiles s (n ∷ ns) e = (n.start ≡ s) × Tiles (s + n.size) ns e

abbrev pub inside : Node → ℕ → Bool
inside n x = leb n.start x && ltb x (n.start + n.size)

-- An address is in use if a block that is not free holds it.
abbrev pub used : List Node → ℕ → Bool
used [] x = false
used (n ∷ ns) x = (not n.free && inside n x) || used ns x

pub Tiles-le : (ns : List Node) (s e : ℕ) → Tiles s ns e → s ≤ e
Tiles-le [] s e t = omega arith
Tiles-le (n ∷ ns) s e t = omega (arith, Tiles-le ns (s + n.size) e t.1)

-- What lies outside the range is not in use.
pub used-before : (ns : List Node) (s e x : ℕ) → Tiles s ns e → x < s → used ns x ≡ false
used-before [] s e x t h = refl
used-before (n ∷ ns) s e x t h = ground (arith, used-before ns (s + n.size) e x t.1)

pub used-after : (ns : List Node) (s e x : ℕ) → Tiles s ns e → e ≤ x → used ns x ≡ false
used-after [] s e x t h = refl
used-after (n ∷ ns) s e x t h =
    ground (arith, used-after ns (s + n.size) e x t.1, Tiles-le ns (s + n.size) e t.1)

-- The blocks behind the first one use none of its addresses.
pub used-behind :
    (n : Node) (ns : List Node) (s e x : ℕ)
    → Tiles s (n ∷ ns) e
    → inside n x ≡ true
    → used ns x ≡ false
used-behind n ns s e x t h = ground (arith, used-before ns (s + n.size) e x t.1)

-- A block of the list lies in the range.
pub find-bounds :
    (i : ℕ) (ns : List Node) (c : Node) (s e : ℕ)
    → Tiles s ns e
    → find i ns ≡ some c
    → (s ≤ c.start) × (c.start + c.size ≤ e)
unfolding find
find-bounds i [] c s e t h = cc
find-bounds i (n ∷ ns) c s e t h =
    ground (arith, find-bounds i ns c (s + n.size) e t.1, Tiles-le ns (s + n.size) e t.1)

-- No address of a free block of the list is in use.
pub used-free :
    (i : ℕ) (ns : List Node) (c : Node) (s e x : ℕ)
    → Tiles s ns e
    → find i ns ≡ some c
    → c.free ≡ true
    → inside c x ≡ true
    → used ns x ≡ false
unfolding find
used-free i [] c s e x t h f k = cc
used-free i (n ∷ ns) c s e x t h f k = ground (
  arith,
  used-free i ns c (s + n.size) e x t.1,
  used-behind n ns s e x t,
  find-bounds i ns c (s + n.size) e t.1,
)
