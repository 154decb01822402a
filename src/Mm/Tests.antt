-- ===== src/Mm/Tests.antt =====
-- Concrete runs of the range allocator: the theorems on a range of 100 bytes.
use vmwgfx.Prelude.{
  ◌==◌, ℕ, ◌+◌, ◌≤◌, ◌≡◌, refl, Bool, true, false, not, ◌&&◌, [], ◌∷◌, none, some, arith,
}
use vmwgfx.Mm.{Node, Mm, unstack, find}
use vmwgfx.Mm.Tiles.{Tiles, inside, used}
use vmwgfx.Mm.Put.{
  put_block, release, merge, merge_after, merge_pair, merge_next, merge_prev, behind, retire,
  absorb,
}
use vmwgfx.Mm.Get.{align_waste, get_block_generic}
use vmwgfx.Mm.Search.{check_free_hole, free_blocks, search_free, search}
use vmwgfx.Mm.Scan.{Scan, scan_add_block, scan_remove_block}
use vmwgfx.Mm.Rescan.{scan_add_block-undone}
use vmwgfx.Mm.Release.{put_block_frees}
use vmwgfx.Mm.Coalesce.{Coalesced, put_block-Coalesced}
use vmwgfx.Mm.Hole.{IsHole}
use vmwgfx.Mm.Allocate.{Allocates, get_block_generic_takes}
use vmwgfx.Mm.Aligned.{IsFirstAligned}
use vmwgfx.Mm.Room.{Chosen, search_free-Chosen}
use vmwgfx.Mm.Request.{search-get_block}

abbrev block : (id start size : ℕ) → (free : Bool) → Node
block id start size free = record {
  id = id;
  start = start;
  size = size;
  free = free;
  scanned = false;
}

-- Blocks 1 and 3 are in use, block 2 between them and block 4 behind are free.
abbrev busy : Mm
busy = record {
  nodes = block 1 0 10 false ∷ block 2 10 50 true ∷ block 3 60 30 false ∷ block 4 90 10 true ∷ [];
  free_stack = 4 ∷ 2 ∷ [];
  unused = [];
  num_unused = 0;
}

abbrev hole_of_busy : Node
hole_of_busy = block 2 10 50 true

busy-IsHole : (size : ℕ) → size ≤ 50 → IsHole busy 2 size 0 100 hole_of_busy
unfolding find
busy-IsHole size fits = record {
  tiles = ground arith;
  small = omega arith;
  found = refl;
  free = refl;
  fits = fits;
  idle = refl;
}

put_block_frees_example :
    (mm' : Mm) × (put_block 3 busy ≡ some mm')
    × Tiles 0 mm'.nodes 100
    × ((x : ℕ) → used mm'.nodes x ≡ (used busy.nodes x && not (inside (block 3 60 30 false) x)))
unfolding find
put_block_frees_example =
    put_block_frees 3 busy (block 3 60 30 false) 0 100 (ground arith) (omega arith) refl refl

-- all of block 3 and block 4 goes to block 2
abbrev freed : Mm
freed = record {
  nodes = block 1 0 10 false ∷ block 2 10 90 true ∷ [];
  free_stack = 2 ∷ [];
  unused = block 3 60 30 false ∷ block 4 90 10 true ∷ [];
  num_unused = 2;
}

put_block-Coalesced_example : Coalesced false freed.nodes
unfolding find put_block release merge merge_after merge_pair merge_next merge_prev behind retire
    absorb unstack
put_block-Coalesced_example =
    put_block-Coalesced 3 busy freed (block 3 60 30 false) refl refl refl (ground arith) refl

-- 20 bytes on a multiple of 16: the first 6 bytes of block 2 are wasted.
get_block_generic_takes_example :
    IsFirstAligned 10 16 (10 + align_waste 10 16)
    × Allocates
        (get_block_generic 2 20 16 (some 7) (some 8) busy)
        busy.nodes
        (10 + align_waste 10 16)
        20
        0
        100
unfolding find align_waste
get_block_generic_takes_example =
    get_block_generic_takes busy 2 20 16 7 8 0 100 hole_of_busy
      (busy-IsHole (align_waste 10 16 + 20) (omega arith)) refl refl (ground arith) (omega arith)

search_free-Chosen_example :
    Chosen 8 16 true (search_free busy 8 16 true) (free_blocks busy.free_stack busy.nodes)
search_free-Chosen_example =
    search_free-Chosen busy 8 16 0 100 true (ground arith) (omega arith) (omega arith)

search-get_block_example :
    IsFirstAligned 10 16 (10 + align_waste 10 16)
    × Allocates
        (get_block_generic 2 20 16 (some 7) (some 8) busy)
        busy.nodes
        (10 + align_waste 10 16)
        20
        0
        100
unfolding find search_free search free_blocks check_free_hole align_waste
search-get_block_example =
    search-get_block busy 20 16 7 8 0 100 true hole_of_busy (ground arith) (omega arith)
      ((λ n h. ground arith), ((λ n h. ground arith), tt)) (omega arith) refl refl refl
      (ground arith)

-- The cache holds a structure that was free.
abbrev cached : Mm
cached = record busy { unused = block 9 90 10 true ∷ []; num_unused = 1 }

cached-IsHole : IsHole cached 2 20 0 100 hole_of_busy
unfolding find
cached-IsHole = record {
  tiles = ground arith;
  small = omega arith;
  found = refl;
  free = refl;
  fits = omega arith;
  idle = refl;
}

-- a scan for 40 bytes, with nothing scanned yet
abbrev scan : Scan
scan = record {
  mm = busy;
  scan_alignment = 16;
  scan_size = 40;
  scan_hit_start = 0;
  scan_hit_size = 0;
  scanned_blocks = 0;
  links = λ i. record { prev = none; next = none };
}

scan_add_block-undone_example :
    (hit evict : Bool) × (added removed : Scan) × (scan_add_block 3 scan ≡ some (hit, added))
    × (scan_remove_block 3 added ≡ some (evict, removed))
    × (removed.mm ≡ scan.mm)
    × (removed.scanned_blocks ≡ scan.scanned_blocks)
    × ((j : ℕ) → (j == 3) ≡ false → removed.links j ≡ scan.links j)
unfolding find
scan_add_block-undone_example =
    scan_add_block-undone 3 scan (block 3 60 30 false) 0 100 (ground arith) (omega arith) refl refl
      refl (omega arith)
