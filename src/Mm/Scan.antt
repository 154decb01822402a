-- ===== src/Mm/Scan.antt =====
-- The eviction scan: `drm_mm_init_scan`, `drm_mm_scan_add_block` and `drm_mm_scan_remove_block`. Of the
-- blocks in the list only a scanned one has a flag set, `scanned`; a free neighbour that a scanned
-- block takes in leaves the list, and is kept, without its flag, where the block links to it.
use vmwgfx.Prelude.{
  ℕ, Bool, true, false, not, ◌&&◌, List, [], ◌∷◌, Option, none, some, leb, ◌==◌, if◌then◌else◌,
  add32, sub32, add64, sub64,
}
use vmwgfx.Mm.{Node, Mm, find}
use vmwgfx.Mm.Search.{check_free_hole}

-- `free_stack.prev` and `free_stack.next` of a scanned block
pub record Links : Type 0 where
  pub prev : Option Node
  pub next : Option Node

-- `struct drm_mm` during a scan
pub record Scan : Type 0 where
  pub mm : Mm
  pub scan_alignment : ℕ
  pub scan_size : ℕ
  pub scan_hit_start : ℕ
  pub scan_hit_size : ℕ
  pub scanned_blocks : ℕ
  pub links : ℕ → Links

-- `drm_mm_init_scan`; `links` is what the structures held before
unfoldable pub init_scan : (size alignment : ℕ) → (links : ℕ → Links) → Mm → Scan
init_scan size alignment links mm = record {
  mm = mm;
  scan_alignment = alignment;
  scan_size = size;
  scan_hit_start = 0;
  scan_hit_size = 0;
  scanned_blocks = 0;
  links = links;
}

-- What adding a block does to the list: the new list, the block, and its links.
pub record Added : Type 0 where
  pub nodes : List Node
  pub node : Node
  pub links : Links

-- the block takes in a free block behind it
unfoldable pub take_next : (prev : Option Node) → Node → List Node → Added
take_next prev node [] = record {
  nodes = node ∷ [];
  node = node;
  links = record { prev = prev; next = none };
}
take_next prev node (next ∷ rest) =
    if next.free
    then (let node' = record node { size = add64 node.size next.size } in
        record {
          nodes = node' ∷ rest;
          node = node';
          links = record { prev = prev; next = some next };
        })
    else record {
      nodes = node ∷ next ∷ rest;
      node = node;
      links = record { prev = prev; next = none };
    }

unfoldable pub marked : Node → Node
marked node = record node { scanned = true; free = true }

unfoldable pub in_front : Node → Added → Added
in_front n a = record a { nodes = n ∷ a.nodes }

-- and a free block in front of it
unfoldable pub take_prev : (prev node : Node) → List Node → Added
take_prev prev node rest =
    if prev.free
    then take_next (some prev)
        (record (marked node) { start = prev.start; size = add64 node.size prev.size }) rest
    else in_front prev (take_next none (marked node) rest)

-- the walk to block `i`, which has `prev` in front of it
unfoldable pub add_after : (i : ℕ) → (prev : Node) → List Node → Added
add_after i prev [] = record {
  nodes = prev ∷ [];
  node = prev;
  links = record { prev = none; next = none };
}
add_after i prev (n ∷ ns) =
    let rest = add_after i n ns in if n.id == i then take_prev prev n ns else in_front prev rest

unfoldable pub add_to : (i : ℕ) → List Node → Option Added
add_to i [] = none
add_to i (n ∷ ns) = some (if n.id == i then take_next none (marked n) ns else add_after i n ns)

-- the part of `drm_mm_scan_add_block` that follows: whether a hole is found
unfoldable pub scan_added : (i : ℕ) → Added → Scan → Bool × Scan
scan_added i a s =
    let s' = record s {
      mm = record (s.mm) { nodes = a.nodes };
      scanned_blocks = add32 s.scanned_blocks 1;
      links = λ j. if j == i then a.links else s.links j;
    } in
    if check_free_hole a.node.start (add64 a.node.start a.node.size) s.scan_size s.scan_alignment
    then (true, record s' { scan_hit_start = a.node.start; scan_hit_size = a.node.size })
    else (false, s')

-- `drm_mm_scan_add_block`; `none` is its `BUG_ON`
unfoldable pub scan_add_block : (i : ℕ) → Scan → Option (Bool × Scan)
scan_add_block i s = elim (find i s.mm.nodes) [
  | none ↦ none
  | some cur ↦
      if cur.free
      then none
      else elim (add_to i s.mm.nodes) [ none ↦ none | some a ↦ some (scan_added i a s) ]
]

-- the block without the neighbours that it had taken in
unfoldable pub give_prev : Option Node → Node → Node
give_prev none node = node
give_prev (some prev) node = record node {
  start = add64 prev.start prev.size;
  size = sub64 node.size prev.size;
}

unfoldable pub give_next : Option Node → Node → Node
give_next none node = node
give_next (some next) node = record node { size = sub64 node.size next.size }

unfoldable pub given : Links → Node → Node
given l node = give_next l.next (give_prev l.prev (record node { scanned = false; free = false }))

abbrev pub before : Option Node → List Node → List Node
before none ns = ns
before (some n) ns = n ∷ ns

unfoldable pub restore : (i : ℕ) → Links → List Node → List Node
restore i l [] = []
restore i l (n ∷ ns) =
    if n.id == i then before l.prev (given l n ∷ before l.next ns) else n ∷ restore i l ns

-- `drm_mm_scan_remove_block` behind its `BUG_ON`: whether the block lies in the hole that was found
unfoldable pub scan_removed : (i : ℕ) → (cur : Node) → Scan → Bool × Scan
scan_removed i cur s =
    let l = s.links i in
    let node = given l cur in
    (
      leb s.scan_hit_start node.start
          && leb (add64 node.start node.size) (add64 s.scan_hit_start s.scan_hit_size),
      record s {
        mm = record (s.mm) { nodes = restore i l s.mm.nodes };
        scanned_blocks = sub32 s.scanned_blocks 1;
      },
    )

-- `drm_mm_scan_remove_block`; `none` is its `BUG_ON`
unfoldable pub scan_remove_block : (i : ℕ) → Scan → Option (Bool × Scan)
scan_remove_block i s = elim (find i s.mm.nodes) [
  | none ↦ none
  | some cur ↦ if not cur.scanned then none else some (scan_removed i cur s)
]
