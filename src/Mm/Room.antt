-- ===== src/Mm/Room.antt =====
-- What `drm_mm_search_free` returns, in terms of the addresses that a free block has.
use mathlib.Core.Path.{subst}
use vmwgfx.Prelude.{
  ℕ, ◌+◌, ◌≤◌, ◌<◌, ◌≡◌, refl, sym, Bool, true, false, List, [], ◌∷◌, Option, none, some, arith,
  u32_mod, All, Any, inl, inr, ◌⊎◌,
}
use vmwgfx.Mm.{Node, Mm, find}
use vmwgfx.Mm.Tiles.{Tiles, find-bounds}
use vmwgfx.Mm.Get.{align_waste}
use vmwgfx.Mm.Aligned.{IsAligned, align_waste-le, align_waste-IsFirstAligned}
use vmwgfx.Mm.Search.{check_free_hole, free_blocks, search_free, hole_fits, max_size}
use vmwgfx.Mm.Choice.{Searched, IsFirst, search_free-Searched, check_free_hole_iff}

-- The block has `size` bytes behind an aligned address.
abbrev pub HasRoom : (size alignment : ℕ) → Node → Type 0
HasRoom size alignment n =
    (a : ℕ) × (n.start ≤ a) × IsAligned alignment a × (a + size ≤ n.start + n.size)

-- The first block of the list that has room.
abbrev pub FirstRoom : (size alignment : ℕ) → Node → List Node → Type 0
FirstRoom size alignment n [] = ⊥
FirstRoom size alignment n (m ∷ ms) =
    (HasRoom size alignment m × (n ≡ m))
    ⊎ (¬ HasRoom size alignment m × FirstRoom size alignment n ms)

-- The block that a request is to get of the free blocks `ns`.
abbrev pub Chosen : (size alignment : ℕ) → (best_match : Bool) → Option Node → List Node → Type 0
Chosen size alignment best_match none ns = All (λ m. ¬ HasRoom size alignment m) ns
Chosen size alignment true (some n) ns =
    HasRoom size alignment n
    × Any (λ m. n ≡ m) ns
    × All (λ m. (¬ HasRoom size alignment m) ⊎ (n.size ≤ m.size)) ns
Chosen size alignment false (some n) ns = FirstRoom size alignment n ns

module _ (size alignment e : ℕ) (small : alignment < u32_mod)
    (low : e + size + alignment < max_size) where
  Within : Node → Type 0
  Within n = n.start + n.size ≤ e

  fits-HasRoom :
      (n : Node) → Within n → hole_fits size alignment n ≡ true → HasRoom size alignment n
  unfolding Within
  fits-HasRoom n w h =
      let (le, aligned, least) = align_waste-IsFirstAligned n.start alignment small in
      let whole : check_free_hole n.start (n.start + n.size) size alignment ≡ true =
        subst (λ k. check_free_hole n.start k size alignment ≡ true) (omega arith) h in
      (
        n.start + align_waste n.start alignment,
        le,
        aligned,
        (check_free_hole_iff n.start (n.start + n.size) size alignment (omega arith) (omega arith)
              (omega (arith, align_waste-le n.start alignment small))).0
            whole,
      )

  HasRoom-fits :
      (n : Node) → Within n → HasRoom size alignment n → hole_fits size alignment n ≡ true
  unfolding Within
  HasRoom-fits n w (a, above, is_aligned, fits) =
      let (le, aligned, least) = align_waste-IsFirstAligned n.start alignment small in
      let first : n.start + align_waste n.start alignment ≤ a = least a above is_aligned in
      subst (λ k. check_free_hole n.start k size alignment ≡ true) (omega arith)
        ((check_free_hole_iff n.start (n.start + n.size) size alignment (omega arith) (omega arith)
            (omega (arith, align_waste-le n.start alignment small))).1
          (omega (arith, first, fits)))

  unfit-no_room :
      (n : Node) → Within n → hole_fits size alignment n ≡ false → ¬ HasRoom size alignment n
  unfit-no_room n w h room = absurd (ground (arith, h, HasRoom-fits n w room))

  none-Chosen :
      (ns : List Node)
      → All Within ns
      → All (λ m. (hole_fits size alignment m ≡ false) ⊎ (max_size ≤ m.size)) ns
      → All (λ m. ¬ HasRoom size alignment m) ns
  unfolding Within
  none-Chosen [] w h = tt
  none-Chosen (n ∷ ns) (w, ws) (inl unfit, hs) = (unfit-no_room n w unfit, none-Chosen ns ws hs)
  none-Chosen (n ∷ ns) (w, ws) (inr huge, hs) = absurd (omega (arith, w, huge, low))

  first-Chosen :
      (n : Node) (ns : List Node)
      → All Within ns
      → IsFirst (hole_fits size alignment) n ns
      → FirstRoom size alignment n ns
  first-Chosen n [] w h = h
  first-Chosen n (m ∷ ms) (w, ws) (inl (f, same)) = inl (fits-HasRoom m w f, same)
  first-Chosen n (m ∷ ms) (w, ws) (inr (unfit, h)) =
      inr (unfit-no_room m w unfit, first-Chosen n ms ws h)

  below-Chosen :
      (k : ℕ) (ns : List Node)
      → All Within ns
      → All (λ m. (hole_fits size alignment m ≡ false) ⊎ (k ≤ m.size)) ns
      → All (λ m. (¬ HasRoom size alignment m) ⊎ (k ≤ m.size)) ns
  below-Chosen k [] w h = tt
  below-Chosen k (n ∷ ns) (w, ws) (inl unfit, hs) =
      (inl (unfit-no_room n w unfit), below-Chosen k ns ws hs)
  below-Chosen k (n ∷ ns) (w, ws) (inr le, hs) = (inr le, below-Chosen k ns ws hs)

  found-Within : (n : Node) (ns : List Node) → All Within ns → Any (λ m. n ≡ m) ns → Within n
  found-Within n [] w h = absurd h
  found-Within n (m ∷ ms) (w, ws) (inl same) = subst Within (sym same) w
  found-Within n (m ∷ ms) (w, ws) (inr h) = found-Within n ms ws h

  Searched-Chosen :
      (best_match : Bool) (o : Option Node) (ns : List Node)
      → All Within ns
      → Searched (hole_fits size alignment) best_match o ns
      → Chosen size alignment best_match o ns
  Searched-Chosen b none ns w h = none-Chosen ns w h
  Searched-Chosen true (some n) ns w (f, a, below) =
      (fits-HasRoom n (found-Within n ns w a) f, a, below-Chosen n.size ns w below)
  Searched-Chosen false (some n) ns w h = first-Chosen n ns w h

  free_blocks-Within :
      (stack : List ℕ) (s : ℕ) (nodes : List Node)
      → Tiles s nodes e
      → All Within (free_blocks stack nodes)
  unfolding free_blocks Within
  free_blocks-Within [] s nodes t = tt
  free_blocks-Within (i ∷ is) s nodes t = go (find i nodes) refl (free_blocks-Within is s nodes t)
    where
      go :
          (o : Option Node)
          → find i nodes ≡ o
          → All Within (free_blocks is nodes)
          → All Within (free_blocks (i ∷ is) nodes)
      go none q ih = rw (q, free_blocks) ih
      go (some n) q ih = rw (q, free_blocks) ((find-bounds i nodes n s e t q).1, ih)

-- `drm_mm_search_free` returns the topmost block of the free stack that has the bytes of the request
-- behind an address that is a multiple of the alignment (behind any, where the alignment is 0), or,
-- for the best match, one of the smallest of them; and NULL only if no block of the free stack has
-- them. It supposes that the blocks tile the range, that the range ends far enough below 2 ^ 64, and
-- that the alignment is a 32-bit number.
pub search_free-Chosen :
    (mm : Mm) (size alignment s e : ℕ) (best_match : Bool)
    → Tiles s mm.nodes e
    → e + size + alignment < max_size
    → alignment < u32_mod
    → Chosen size alignment best_match
        (search_free mm size alignment best_match)
        (free_blocks mm.free_stack mm.nodes)
search_free-Chosen mm size alignment s e best_match t low small =
    Searched-Chosen size alignment e small low best_match (search_free mm size alignment best_match)
      (free_blocks mm.free_stack mm.nodes)
      (free_blocks-Within size alignment e small low mm.free_stack s mm.nodes t)
      (search_free-Searched mm size alignment best_match)
