-- ===== src/Mm/Hole.antt =====
-- Cutting blocks out of a free one: what the two splits of an allocation do to the block list.
use vmwgfx.Prelude.{
  ℕ, ◌+◌, ◌≤◌, ◌<◌, ◌≡◌, ◌≢◌, refl, ◌∙◌, true, false, ◌||◌, List, none, some, arith, u64_mod, ◌==◌,
  if◌then◌else◌, Bool-cases, inl, inr, add64, sub64,
}
use vmwgfx.Mm.{Node, Mm, find, split_nodes, split_at_start, zeroed, unstack}
use vmwgfx.Mm.Tiles.{Tiles, inside, used, find-bounds}
use vmwgfx.Mm.Get.{mark_used, take_block}
use vmwgfx.Mm.Cut

-- Block `c`, at `start` with `size` bytes, is taken out of `before` and nothing else is.
pub record Taken (before after : List Node) (k start size s e : ℕ) (c : Node) : Type 0 where
  pub found : find k after ≡ some c
  pub busy : c.free ≡ false
  pub scan_idle : c.scanned ≡ false
  pub starts : c.start ≡ start
  pub bytes : c.size ≡ size
  pub tiling : Tiles s after e
  pub in_use : (x : ℕ) → used after x ≡ (used before x || inside c x)

-- A block that may be cut: it is in the list, free, and large enough.
pub record IsHole (mm : Mm) (i size s e : ℕ) (n : Node) : Type 0 where
  pub tiles : Tiles s mm.nodes e
  pub small : e < u64_mod
  pub found : find i mm.nodes ≡ some n
  pub free : n.free ≡ true
  pub fits : size ≤ n.size
  pub idle : n.scanned ≡ false

module _ (mm : Mm) (i size ib s e : ℕ) (n : Node) (h : IsHole mm i size s e n)
    (fresh : find ib mm.nodes ≡ none) where
  -- the state after the block is taken, and the block
  unfoldable pub after_take : Mm
  after_take =
      if n.size == size
      then record mm { free_stack = unstack i mm.free_stack; nodes = mark_used i mm.nodes }
      else record mm { nodes = split_nodes i (zeroed ib) size mm.nodes }

  unfoldable pub taken_id : ℕ
  taken_id = if n.size == size then i else ib

  unfoldable pub taken : Node
  taken =
      if n.size == size
      then record n { free = false }
      else record (zeroed ib) { start = n.start; size = size }

  pub take_block-some : take_block i size (some ib) mm ≡ some (some taken_id, after_take)
  unfolding take_block split_at_start taken_id after_take
  take_block-some =
      rw (h.found, take_block)
        (elim (Bool-cases (n.size == size)) [ inl same ↦ simp same | inr other ↦ simp other ])

  ib-ne : ib ≢ i
  ib-ne = ground arith

  pub take-Taken : Taken mm.nodes after_take.nodes taken_id n.start size s e taken
  unfolding taken_id after_take taken
  take-Taken = elim (Bool-cases (n.size == size)) [
    | inl same ↦ rw same (record {
      found = Cut.mark-find_self i mm.nodes n h.found;
      busy = refl;
      scan_idle = h.idle;
      starts = refl;
      bytes = ground arith;
      tiling = Cut.mark-Tiles i mm.nodes s e h.tiles;
      in_use = λ x. Cut.mark-used i mm.nodes n x h.found h.free;
    })
    | inr other ↦ rw other (record {
      found = Cut.split-find_child i (zeroed ib) size mm.nodes n fresh h.found;
      busy = refl;
      scan_idle = refl;
      starts = refl;
      bytes = refl;
      tiling = Cut.split-Tiles i (zeroed ib) size mm.nodes n s e h.tiles h.small h.found h.fits;
      in_use = λ x.
          Cut.split-used i (zeroed ib) size mm.nodes n s e x h.tiles h.small h.found h.free h.fits;
    })
  ]

  pub take-others : (j : ℕ) → j ≢ i → j ≢ ib → find j after_take.nodes ≡ find j mm.nodes
  unfolding after_take
  take-others j p q = elim (Bool-cases (n.size == size)) [
    | inl same ↦ rw same (Cut.mark-find_other i mm.nodes j p)
    | inr other ↦ rw other (Cut.split-find_other i (zeroed ib) size mm.nodes j p q)
  ]

-- The state after the splitoff of the first `waste` bytes: the rest is still a hole.
module _ (mm : Mm) (i waste size ia s e : ℕ) (n : Node) (h : IsHole mm i (waste + size) s e n)
    (fresh : find ia mm.nodes ≡ none) where
  unfoldable pub cut : Mm
  cut = record mm { nodes = split_nodes i (zeroed ia) waste mm.nodes }

  unfoldable pub splitoff : Node
  splitoff = record (zeroed ia) { start = n.start; size = waste }

  unfoldable pub rest : Node
  rest = record n { start = add64 n.start waste; size = sub64 n.size waste }

  cut-fits : waste ≤ n.size
  cut-fits = omega (arith, h.fits)

  pub rest-starts : rest.start ≡ n.start + waste
  unfolding rest
  rest-starts = omega (arith, find-bounds i mm.nodes n s e h.tiles h.found, h.fits, h.small)

  pub cut-IsHole : IsHole cut i size s e rest
  unfolding cut rest
  cut-IsHole = record {
    tiles = Cut.split-Tiles i (zeroed ia) waste mm.nodes n s e h.tiles h.small h.found cut-fits;
    small = h.small;
    found = Cut.split-find_rest i (zeroed ia) waste mm.nodes n (ground arith) h.found;
    free = h.free;
    fits = omega (arith, find-bounds i mm.nodes n s e h.tiles h.found, h.fits, h.small);
    idle = h.idle;
  }

  pub cut-splitoff : find ia cut.nodes ≡ some splitoff
  unfolding cut splitoff
  cut-splitoff = Cut.split-find_child i (zeroed ia) waste mm.nodes n fresh h.found

  pub cut-used : (x : ℕ) → used cut.nodes x ≡ (used mm.nodes x || inside splitoff x)
  unfolding cut splitoff
  cut-used x =
      Cut.split-used i (zeroed ia) waste mm.nodes n s e x h.tiles h.small h.found h.free cut-fits

  pub cut-fresh : (ib : ℕ) → find ib mm.nodes ≡ none → ib ≢ ia → find ib cut.nodes ≡ none
  unfolding cut
  cut-fresh ib none_b other =
      Cut.split-find_other i (zeroed ia) waste mm.nodes ib (ground arith) other ∙ none_b
