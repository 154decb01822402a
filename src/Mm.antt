-- ===== src/Mm.antt =====
-- The range allocator (drm_mm.c): a list of blocks in address order, the stack of the free ones,
-- and a cache of block structures for when memory is short. A pointer to a block is its identity,
-- a number; `kzalloc` is an argument, the identity of a new block or a failure. Linked lists are
-- lists from their head on, and `unsigned long` has 64 bits.
pub mod Search
pub mod Scan
pub mod Rescan
pub mod Choice
pub mod Request
pub mod Tiles
pub mod Release
pub mod Coalesce
pub mod Cut
pub mod Hole
pub mod Aligned
pub mod Room
pub mod Allocate
pub mod Put
pub mod Get
mod Tests
use vmwgfx.Prelude.{
  ℕ, ◌+◌, ◌-◌, ◌%◌, Bool, true, false, not, ◌||◌, List, [], ◌∷◌, ◌++◌, Option, none, some, leb, ltb,
  ◌==◌, if◌then◌else◌, add32, sub32, add64, sub64, Outcome, ok, err, enomem, u32_mod,
}

-- `struct drm_mm_node`; `scanned` is whether one of its three scan flags is set
pub record Node : Type 0 where
  pub id : ℕ
  pub start : ℕ
  pub size : ℕ
  pub free : Bool
  pub scanned : Bool

-- `struct drm_mm`: `node_list`, `free_stack`, `unused_nodes` (with what is left in them) and
-- `num_unused`
pub record Mm : Type 0 where
  pub nodes : List Node
  pub free_stack : List ℕ
  pub unused : List Node
  pub num_unused : ℕ

-- MM_UNUSED_TARGET
abbrev pub unused_target : ℕ
unused_target = 4

-- What `kzalloc` returns: a block of zeros, or NULL.
abbrev pub Alloc : Type 0
Alloc = Option ℕ

abbrev pub zeroed : ℕ → Node
zeroed i = record { id = i; start = 0; size = 0; free = false; scanned = false }

-- `drm_mm_kmalloc`
unfoldable pub kmalloc : Alloc → Mm → Option Node × Mm
kmalloc (some i) mm = (some (zeroed i), mm)
kmalloc none mm = elim mm.unused [
  | [] ↦ (none, mm)
  | n ∷ rest ↦ (some n, record mm { unused = rest; num_unused = mm.num_unused - 1 })
]

-- `drm_mm_pre_get`: what its calls of `kzalloc` return is a list, and `none` means that it is used
-- up before the loop ends
unfoldable pub pre_get : List Alloc → Mm → Option (Outcome (Unit {0}) × Mm)
pre_get [] mm = if ltb mm.num_unused unused_target then none else some (ok tt, mm)
pre_get (none ∷ allocs) mm =
    if ltb mm.num_unused unused_target
    then some (if ltb mm.num_unused 2 then err enomem else ok tt, mm)
    else some (ok tt, mm)
pre_get (some i ∷ allocs) mm =
    let more =
      pre_get allocs
        (record mm { unused = mm.unused ++ (zeroed i ∷ []); num_unused = mm.num_unused + 1 }) in
    if ltb mm.num_unused unused_target then more else some (ok tt, mm)

-- `drm_mm_create_tail_node`
unfoldable pub create_tail_node : Alloc → (start size : ℕ) → Mm → Outcome (Unit {0}) × Mm
unfolding kmalloc
create_tail_node a start size mm =
    let (child, mm') = kmalloc a mm in
    elim child [
      | none ↦ (err enomem, mm')
      | some c ↦ (
        ok tt,
        record mm' {
          nodes = mm'.nodes ++ (record c { start = start; size = size; free = true } ∷ []);
          free_stack = mm'.free_stack ++ (c.id ∷ []);
        },
      )
    ]

-- `drm_mm_init`
unfoldable pub init : Alloc → (start size : ℕ) → Outcome (Unit {0}) × Mm
unfolding create_tail_node
init a start size =
    create_tail_node a start size
      (record { nodes = []; free_stack = []; unused = []; num_unused = 0 })

-- `drm_mm_clean`: one block at most
unfoldable pub clean : Mm → Bool
clean mm = elim mm.nodes [ [] ↦ true | n ∷ rest ↦ elim rest [ [] ↦ true | m ∷ more ↦ false ] ]

-- `list_del` on the free stack
unfoldable pub unstack : ℕ → List ℕ → List ℕ
unstack i [] = []
unstack i (j ∷ js) = if j == i then js else j ∷ unstack i js

-- the block that a pointer points to
unfoldable pub find : ℕ → List Node → Option Node
find i [] = none
find i (n ∷ ns) = if n.id == i then some n else find i ns

-- the block list after `child`, in front of block `i`, takes the first `size` bytes of that block
unfoldable pub split_nodes : (i : ℕ) → Node → (size : ℕ) → List Node → List Node
split_nodes i child size [] = []
split_nodes i child size (n ∷ ns) =
    if n.id == i
    then record child { start = n.start; size = size }
      ∷ record n { start = add64 n.start size; size = sub64 n.size size }
      ∷ ns
    else n ∷ split_nodes i child size ns

-- `drm_mm_split_at_start`: it gives the child back
unfoldable pub split_at_start : (i size : ℕ) → Alloc → Mm → Option ℕ × Mm
unfolding kmalloc split_nodes
split_at_start i size a mm =
    let (child, mm') = kmalloc a mm in
    elim child [
      | none ↦ (none, mm')
      | some c ↦ (some c.id, record mm' { nodes = split_nodes i c size mm'.nodes })
    ]
