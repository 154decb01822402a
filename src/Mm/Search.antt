-- ===== src/Mm/Search.antt =====
-- `check_free_hole`, `drm_mm_search_free` and `drm_mm_search_free_in_range`: which free block a
-- request gets, outside a scan, where their `BUG_ON(mm->scanned_blocks)` is not met. The walk over
-- the free stack is a recursion on the list of its blocks.
use vmwgfx.Prelude.{
  ℕ, ◌-◌, ◌^◌, Bool, not, ◌&&◌, List, [], ◌∷◌, Option, none, some, leb, ltb, if◌then◌else◌, add64,
  sub64,
}
use vmwgfx.Mm.{Node, Mm, find}
use vmwgfx.Mm.Get.{align_waste}

-- `check_free_hole`
unfoldable pub check_free_hole : (start end size alignment : ℕ) → Bool
check_free_hole start end size alignment =
    not (ltb (sub64 end start) size)
    && leb (add64 (add64 start size) (align_waste start alignment)) end

-- the blocks of the free stack, the top first
unfoldable pub free_blocks : List ℕ → List Node → List Node
free_blocks [] nodes = []
free_blocks (i ∷ is) nodes =
    let rest = free_blocks is nodes in elim (find i nodes) [ none ↦ rest | some n ↦ n ∷ rest ]

-- the loop of both searches over the blocks that are left; `fits` is the test of the hole, and
-- `best` and `best_size` are the variables of those names
unfoldable pub search :
    (fits : Node → Bool)
    → (best_match : Bool) → (best : Option Node) → (best_size : ℕ) → List Node
    → Option Node
search fits best_match best best_size [] = best
search fits best_match best best_size (entry ∷ rest) =
    let smaller = ltb entry.size best_size in
    let next =
      search fits best_match (if fits entry && smaller then some entry else best)
        (if fits entry && smaller then entry.size else best_size) rest in
    if fits entry && not best_match then some entry else next

-- ~0UL
abbrev pub max_size : ℕ
max_size = 2 ^ 64 - 1

abbrev pub hole_fits : (size alignment : ℕ) → Node → Bool
hole_fits size alignment n = check_free_hole n.start (add64 n.start n.size) size alignment

-- `drm_mm_search_free`
unfoldable pub search_free : Mm → (size alignment : ℕ) → (best_match : Bool) → Option Node
search_free mm size alignment best_match =
    search (hole_fits size alignment) best_match none max_size (free_blocks mm.free_stack mm.nodes)

abbrev pub range_fits : (size alignment start end : ℕ) → Node → Bool
range_fits size alignment start end n =
    let top = add64 n.start n.size in
    check_free_hole (if ltb n.start start then start else n.start)
      (if ltb end top then end else top) size alignment

-- `drm_mm_search_free_in_range`
unfoldable pub search_free_in_range :
    Mm → (size alignment start end : ℕ) → (best_match : Bool) → Option Node
search_free_in_range mm size alignment start end best_match =
    search (range_fits size alignment start end) best_match none max_size
      (free_blocks mm.free_stack mm.nodes)
