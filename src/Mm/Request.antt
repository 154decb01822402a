-- ===== src/Mm/Request.antt =====
-- A search followed by the allocation of what it found, and the cache of block structures.
use mathlib.Core.Path.{subst}
use vmwgfx.Prelude.{
  ℕ, ◌+◌, ◌-◌, ◌≤◌, ◌<◌, ◌≡◌, ◌≢◌, refl, sym, ap, ◌∙◌, Bool, true, false, List, [], ◌∷◌, Option,
  none, some, arith, u32_mod, u64_mod, add64, Any, All, inl, inr, ◌⊎◌,
}
use vmwgfx.Mm.{Node, Mm, find, split_at_start, split_nodes, kmalloc}
use vmwgfx.Mm.Tiles.{Tiles, used, find-bounds}
use vmwgfx.Mm.Get.{align_waste, get_block_generic}
use vmwgfx.Mm.Put.{merge_after, merge_next, merge_prev, merge_pair, behind}
use vmwgfx.Mm.Search.{search_free, free_blocks, hole_fits, check_free_hole}
use vmwgfx.Mm.Choice.{Searched, IsFirst, search_free-Searched, check_free_hole_iff}
use vmwgfx.Mm.Hole.{IsHole}
use vmwgfx.Mm.Allocate.{Allocates, get_block_generic_takes}
use vmwgfx.Mm.Aligned.{IsFirstAligned, align_waste-le}
use vmwgfx.Mm.Cut

IsFirst-found :
    (fits : Node → Bool) (n : Node) (ns : List Node)
    → IsFirst fits n ns
    → (fits n ≡ true) × Any (λ m. n ≡ m) ns
IsFirst-found fits n [] h = absurd h
IsFirst-found fits n (m ∷ ms) (inl (f, e)) = (subst (λ c. fits c ≡ true) (sym e) f, inl e)
IsFirst-found fits n (m ∷ ms) (inr (f, rest)) =
    let (g, a) = IsFirst-found fits n ms rest in (g, inr a)

Searched-found :
    (fits : Node → Bool) (b : Bool) (n : Node) (ns : List Node)
    → Searched fits b (some n) ns
    → (fits n ≡ true) × Any (λ m. n ≡ m) ns
Searched-found fits true n ns h = (h.0, h.1)
Searched-found fits false n ns h = IsFirst-found fits n ns h

find-id : (i : ℕ) (ns : List Node) (n : Node) → find i ns ≡ some n → n.id ≡ i
unfolding find
find-id i [] n h = cc
find-id i (m ∷ ms) n h = ground (arith, find-id i ms n)

-- The blocks that the free stack points to are free, and no scan runs.
abbrev pub AreFree : List ℕ → List Node → Type 0
AreFree stack ns =
    All (λ i. (n : Node) → find i ns ≡ some n → (n.free ≡ true) × (n.scanned ≡ false)) stack

free_blocks-found :
    (stack : List ℕ) (ns : List Node) (n : Node)
    → AreFree stack ns
    → Any (λ m. n ≡ m) (free_blocks stack ns)
    → (find n.id ns ≡ some n) × (n.free ≡ true) × (n.scanned ≡ false)
unfolding free_blocks
free_blocks-found [] ns n f h = absurd h
free_blocks-found (i ∷ is) ns n f h = go (free_blocks-found is ns n f.1) (find i ns) refl
  where
    go :
        (Any (λ m. n ≡ m) (free_blocks is ns)
          → (find n.id ns ≡ some n) × (n.free ≡ true) × (n.scanned ≡ false))
        → (o : Option Node) → find i ns ≡ o
        → (find n.id ns ≡ some n) × (n.free ≡ true) × (n.scanned ≡ false)
    go ih none e = ih (rw (e, free_blocks) at h)
    go ih (some m) e =
        let h' : (n ≡ m) ⊎ Any (λ m. n ≡ m) (free_blocks is ns) = rw (e, free_blocks) at h in
        elim h' [
          | inl same ↦
              let e' : find i ns ≡ some n = e ∙ ap some (sym same) in
              let at_i : n.id ≡ i = find-id i ns n e' in
              let state = f.0 n e' in
              (subst (λ k. find k ns ≡ some n) (sym at_i) e', state.0, state.1)
          | inr later ↦ ih later
        ]

-- A block that `drm_mm_search_free` returns can be cut: `drm_mm_get_block_generic` on it, with the
-- same size and alignment, takes a block of that size at the first address of the free block that is a
-- multiple of the alignment (at its start, where the alignment is 0), and nothing else changes hands.
-- It supposes that the blocks tile the range, that those of the free stack are free and unscanned,
-- that the range ends far enough below 2 ^ 64, that the alignment is a 32-bit number, and new
-- structures.
pub search-get_block :
    (mm : Mm) (size alignment ia ib s e : ℕ) (best_match : Bool) (n : Node)
    → Tiles s mm.nodes e
    → e + size + alignment < u64_mod
    → AreFree mm.free_stack mm.nodes
    → alignment < u32_mod
    → search_free mm size alignment best_match ≡ some n
    → find ia mm.nodes ≡ none
    → find ib mm.nodes ≡ none
    → ib ≢ ia
    → IsFirstAligned n.start alignment (n.start + align_waste n.start alignment)
      × Allocates
          (get_block_generic n.id size alignment (some ia) (some ib) mm)
          mm.nodes
          (n.start + align_waste n.start alignment)
          size
          s
          e
search-get_block mm size alignment ia ib s e best_match n t low free small got fresh_a fresh_b
      apart =
    get_block_generic_takes mm n.id size alignment ia ib s e n
      (record {
        tiles = t;
        small = omega arith;
        found = block.0;
        free = block.1;
        fits = omega (arith, room);
        idle = block.2;
      })
      fresh_a fresh_b apart small
  where
    found :
        (hole_fits size alignment n ≡ true) × Any (λ m. n ≡ m) (free_blocks mm.free_stack mm.nodes)
    found =
        Searched-found (hole_fits size alignment) best_match n (free_blocks mm.free_stack mm.nodes)
          (subst
            (λ o.
              Searched (hole_fits size alignment) best_match o (free_blocks mm.free_stack mm.nodes))
            got (search_free-Searched mm size alignment best_match))

    block : (find n.id mm.nodes ≡ some n) × (n.free ≡ true) × (n.scanned ≡ false)
    block = free_blocks-found mm.free_stack mm.nodes n free found.1

    bounds : (s ≤ n.start) × (n.start + n.size ≤ e)
    bounds = find-bounds n.id mm.nodes n s e t block.0

    no_wrap : add64 n.start n.size ≡ n.start + n.size
    no_wrap = omega (arith, bounds)

    room : n.start + align_waste n.start alignment + size ≤ n.start + n.size
    room =
        (check_free_hole_iff n.start (n.start + n.size) size alignment (omega arith)
            (omega (arith, bounds))
            (omega (arith, bounds, align_waste-le n.start alignment small))).0
          (subst (λ k. check_free_hole n.start k size alignment ≡ true) no_wrap found.0)

kmalloc-cached :
    (mm : Mm) (c : Node) (cache : List Node)
    → mm.unused ≡ c ∷ cache
    → kmalloc none mm ≡ (some c, record mm { unused = cache; num_unused = mm.num_unused - 1 })
unfolding kmalloc
kmalloc-cached mm c cache h = rw (h, kmalloc)

-- A cached structure that was free when it was unlinked keeps its flag. Split off with such a
-- structure, when `kzalloc` fails, the block is handed out without its addresses coming into use.
pub split-stale :
    (mm : Mm) (i size s e : ℕ) (n c : Node) (cache : List Node)
    → IsHole mm i size s e n
    → mm.unused ≡ c ∷ cache
    → c.free ≡ true
    → (mm' : Mm) × (split_at_start i size none mm ≡ (some c.id, mm'))
      × ((x : ℕ) → used mm'.nodes x ≡ used mm.nodes x)
unfolding split_at_start
split-stale mm i size s e n c cache h cached flag = (
  record mm {
    nodes = split_nodes i c size mm.nodes;
    unused = cache;
    num_unused = mm.num_unused - 1;
  },
  split-cached,
  λ x.
      ground
        (arith, Cut.split-used i c size mm.nodes n s e x h.tiles h.small h.found h.free h.fits),
)
  where
    cache_hit :
        kmalloc none mm ≡ (some c, record mm { unused = cache; num_unused = mm.num_unused - 1 })
    cache_hit = kmalloc-cached mm c cache cached

    split-cached : split_at_start i size none mm ≡ (
      some c.id,
      record mm {
        nodes = split_nodes i c size mm.nodes;
        unused = cache;
        num_unused = mm.num_unused - 1;
      },
    )
    split-cached = rw (cache_hit, split_at_start) (rw cache_hit)

-- Where the free block behind the one that is given back goes to the cache, it goes there with its
-- flag set.
merge_after-absorbed :
    (i : ℕ) (ns : List Node) (p c : Node) → (merge_after i p ns).absorbed ≡ some c → c.free ≡ true
unfolding merge_after merge_pair merge_next merge_prev behind
merge_after-absorbed i [] p c h = cc
merge_after-absorbed i (n ∷ []) p c h = ground arith
merge_after-absorbed i (n ∷ m ∷ ns) p c h = ground (arith, merge_after-absorbed i (m ∷ ns) n c)
