-- ===== src/Mm/Put.antt =====
-- `drm_mm_put_block`: a block is given back, and joined with the free blocks beside it.
use vmwgfx.Prelude.{
  ℕ, ◌+◌, Bool, true, false, List, [], ◌∷◌, Option, none, some, ltb, ◌==◌, if◌then◌else◌, add64,
}
use vmwgfx.Mm.{Node, Mm, unused_target, unstack, find}

-- What happens to the block list: the new list, the free neighbour that is unlinked, and whether
-- `cur` was merged.
pub record Merge : Type 0 where
  pub nodes : List Node
  pub absorbed : Option Node
  pub merged : Bool

-- `cur` has no free block in front of it
unfoldable pub merge_next : Node → List Node → Merge
merge_next cur [] = record {
  nodes = record cur { free = true } ∷ [];
  absorbed = none;
  merged = false;
}
merge_next cur (next ∷ rest) =
    if next.free
    then record {
      nodes = record next { size = add64 next.size cur.size; start = cur.start } ∷ rest;
      absorbed = none;
      merged = true;
    }
    else record {
      nodes = record cur { free = true } ∷ next ∷ rest;
      absorbed = none;
      merged = false;
    }

-- `prev` is the free block in front of `cur`
unfoldable pub merge_prev : Node → Node → List Node → Merge
merge_prev prev cur [] = record {
  nodes = record prev { size = add64 prev.size cur.size } ∷ [];
  absorbed = none;
  merged = true;
}
merge_prev prev cur (next ∷ rest) =
    let size = add64 prev.size cur.size in
    if next.free
    then record {
      nodes = record prev { size = add64 size next.size } ∷ rest;
      absorbed = some next;
      merged = true;
    }
    else record {
      nodes = record prev { size = size } ∷ next ∷ rest;
      absorbed = none;
      merged = true;
    }

unfoldable pub behind : Node → Merge → Merge
behind n m = record m { nodes = n ∷ m.nodes }

unfoldable pub merge_pair : Node → Node → List Node → Merge
merge_pair prev cur rest =
    if prev.free then merge_prev prev cur rest else behind prev (merge_next cur rest)

-- the walk to block `i`, which has `prev` in front of it
unfoldable pub merge_after : (i : ℕ) → (prev : Node) → List Node → Merge
merge_after i prev [] = record { nodes = prev ∷ []; absorbed = none; merged = false }
merge_after i prev (n ∷ ns) =
    let rest = merge_after i n ns in if n.id == i then merge_pair prev n ns else behind prev rest

unfoldable pub merge : (i : ℕ) → List Node → Merge
merge i [] = record { nodes = []; absorbed = none; merged = false }
merge i (n ∷ ns) = if n.id == i then merge_next n ns else merge_after i n ns

-- an unlinked block goes to the cache, or to `kfree`
unfoldable pub retire : Node → Mm → Mm
retire n mm =
    if ltb mm.num_unused unused_target
    then record mm { unused = n ∷ mm.unused; num_unused = mm.num_unused + 1 }
    else mm

-- the free block behind `cur` leaves the free stack
unfoldable pub absorb : Option Node → Mm → Mm
absorb none mm = mm
absorb (some next) mm = retire next (record mm { free_stack = unstack next.id mm.free_stack })

-- the part behind the `BUG_ON`
unfoldable pub release : (i : ℕ) → (cur : Node) → Mm → Mm
release i cur mm =
    let m = merge i mm.nodes in
    let mm' = absorb m.absorbed (record mm { nodes = m.nodes }) in
    if m.merged then retire cur mm' else record mm' { free_stack = i ∷ mm'.free_stack }

-- `drm_mm_put_block`: `none` is its `BUG_ON`, or a pointer to no block of the list
unfoldable pub put_block : (i : ℕ) → Mm → Option Mm
put_block i mm = elim (find i mm.nodes) [
  | none ↦ none
  | some cur ↦ if cur.scanned then none else some (release i cur mm)
]
