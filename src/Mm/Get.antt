-- ===== src/Mm/Get.antt =====
-- `drm_mm_get_block_generic` and `drm_mm_get_block_range_generic`: a block is cut out of a free one.
use vmwgfx.Prelude.{
  ℕ, ◌%◌, false, List, [], ◌∷◌, Option, none, some, ltb, ◌==◌, if◌then◌else◌, add32, sub32, sub64,
  add64, u32_mod,
}
use vmwgfx.Mm.{Node, Mm, Alloc, unstack, find, split_at_start}
use vmwgfx.Mm.Put.{put_block}

-- What a call hands back: NULL or a block, and the new state. No value at all is a fault.
abbrev pub Got : Type 0
Got = Option (Option ℕ × Mm)

unfoldable pub mark_used : (i : ℕ) → List Node → List Node
mark_used i [] = []
mark_used i (n ∷ ns) = if n.id == i then record n { free = false } ∷ ns else n ∷ mark_used i ns

-- the block itself where it has just this size, and its first part otherwise
unfoldable pub take_block : (i size : ℕ) → Alloc → Mm → Got
take_block i size a mm = elim (find i mm.nodes) [
  | none ↦ none
  | some n ↦ some (
      if n.size == size
      then (
        some i,
        record mm { free_stack = unstack i mm.free_stack; nodes = mark_used i mm.nodes },
      )
      else split_at_start i size a mm)
]

-- the block that was split off goes back
unfoldable pub put_back : (splitoff : ℕ) → Got → Got
put_back splitoff none = none
put_back splitoff (some (block, mm)) = elim (put_block splitoff mm) [
  | none ↦ none
  | some mm' ↦ some (block, mm')
]

-- the part of both functions that follows the computation of `wasted`
unfoldable pub get_after : (i size wasted : ℕ) → (a b : Alloc) → Mm → Got
get_after i size wasted a b mm =
    if wasted == 0
    then take_block i size b mm
    else (let (splitoff, mm') = split_at_start i wasted a mm in
        elim splitoff [ none ↦ some (none, mm') | some s ↦ put_back s (take_block i size b mm') ])

-- what a block must give up at its start to be aligned; `unsigned` has 32 bits
unfoldable pub align_waste : (start alignment : ℕ) → ℕ
align_waste start alignment =
    let tmp = if alignment == 0 then 0 else start % alignment % u32_mod in
    if tmp == 0 then 0 else sub32 alignment tmp

-- `drm_mm_get_block_generic`: `a` and `b` are what `kzalloc` returns for the two splits
unfoldable pub get_block_generic : (i size alignment : ℕ) → (a b : Alloc) → Mm → Got
get_block_generic i size alignment a b mm = elim (find i mm.nodes) [
  | none ↦ none
  | some n ↦ get_after i size (align_waste n.start alignment) a b mm
]

-- the `wasted` of the range version
unfoldable pub range_waste : Node → (alignment start : ℕ) → ℕ
range_waste n alignment start =
    let below = if ltb n.start start then sub64 start n.start % u32_mod else 0 in
    add32 below (align_waste (add64 n.start below) alignment)

-- `drm_mm_get_block_range_generic`
unfoldable pub get_block_range_generic : (i size alignment start end : ℕ) → (a b : Alloc) → Mm → Got
get_block_range_generic i size alignment start end a b mm = elim (find i mm.nodes) [
  | none ↦ none
  | some n ↦ get_after i size (range_waste n alignment start) a b mm
]
