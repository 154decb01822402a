-- ===== src/Mm/Rescan.antt =====
-- A block that is added to a scan and removed again.
use vmwgfx.Prelude.{
  ℕ, ◌+◌, ◌<◌, ◌≡◌, Bool, true, false, List, [], ◌∷◌, none, some, arith, ◌==◌, add32, u64_mod,
  u32_mod, Bool-cases, inl, inr,
}
use vmwgfx.Mm.{Node, find}
use vmwgfx.Mm.Tiles.{Tiles, Tiles-le}
use vmwgfx.Mm.Scan.{
  Scan, Added, take_next, marked, in_front, take_prev, add_after, add_to, scan_added, scan_removed,
  scan_add_block, give_prev, give_next, given, restore, scan_remove_block,
}

-- What the removal of an added block restores.
record Undone (i : ℕ) (ns : List Node) (a : Added) : Type 0 where
  list : restore i a.links a.nodes ≡ ns
  found : find i a.nodes ≡ some a.node
  flag : a.node.scanned ≡ true

module _ (i e : ℕ) (small : e < u64_mod) where
  take_next-Undone :
      (n : Node) (ns : List Node) (s : ℕ)
      → Tiles s (n ∷ ns) e
      → (n.id == i) ≡ true
      → n.free ≡ false
      → n.scanned ≡ false
      → Undone i (n ∷ ns) (take_next none (marked n) ns)
  unfolding take_next marked restore given give_prev give_next find
  take_next-Undone n [] s t h u v = ground arith
  take_next-Undone n (m ∷ ns) s t h u v = ground (arith, Tiles-le ns (s + n.size + m.size) e t.1.1)

  take_prev-Undone :
      (p n : Node) (ns : List Node) (s : ℕ)
      → Tiles s (p ∷ n ∷ ns) e
      → (p.id == i) ≡ false
      → (n.id == i) ≡ true
      → n.free ≡ false
      → n.scanned ≡ false
      → Undone i (p ∷ n ∷ ns) (take_prev p n ns)
  unfolding take_prev take_next marked restore given give_prev give_next find in_front
  take_prev-Undone p n [] s t q h u v = ground arith
  take_prev-Undone p n (m ∷ ns) s t q h u v =
      ground (arith, Tiles-le ns (s + p.size + n.size + m.size) e t.1.1.1)

  -- the walk; `p` is in front of the list
  in_front-Undone :
      (p : Node) (ns : List Node) (a : Added)
      → (p.id == i) ≡ false
      → Undone i ns a
      → Undone i (p ∷ ns) (in_front p a)
  unfolding in_front restore find
  in_front-Undone p ns a q u = ground (arith, u.list, u.found, u.flag)

  add_after-Undone :
      (ns : List Node) (p n : Node) (s : ℕ)
      → Tiles s (p ∷ ns) e
      → (p.id == i) ≡ false
      → find i ns ≡ some n
      → n.free ≡ false
      → n.scanned ≡ false
      → Undone i (p ∷ ns) (add_after i p ns)
  unfolding add_after find
  add_after-Undone [] p n s t q h u v = cc
  add_after-Undone (m ∷ ns) p n s t q h u v = elim (Bool-cases (m.id == i)) [
    | inl here ↦ rw here (take_prev-Undone p m ns s t q here (ground arith) (ground arith))
    | inr later ↦ rw later (
        in_front-Undone p (m ∷ ns) (add_after i m ns) q
          (add_after-Undone ns m n (s + p.size) t.1 later (ground arith) u v))
  ]

  add_to-Undone :
      (ns : List Node) (n : Node) (s : ℕ)
      → Tiles s ns e
      → find i ns ≡ some n
      → n.free ≡ false
      → n.scanned ≡ false
      → (a : Added) × (add_to i ns ≡ some a) × Undone i ns a
  unfolding add_to find
  add_to-Undone [] n s t h u v = cc
  add_to-Undone (m ∷ ns) n s t h u v = elim (Bool-cases (m.id == i)) [
    | inl here ↦ (
      take_next none (marked m) ns,
      simp here,
      take_next-Undone m ns s t here (ground arith) (ground arith),
    )
    | inr later ↦
        (add_after i m ns, simp later, add_after-Undone ns m n s t later (ground arith) u v)
  ]

add_block-some :
    (i : ℕ) (sc : Scan) (n : Node) (a : Added)
    → find i sc.mm.nodes ≡ some n
    → n.free ≡ false
    → add_to i sc.mm.nodes ≡ some a
    → scan_add_block i sc ≡ some (scan_added i a sc)
unfolding scan_add_block
add_block-some i sc n a h u k =
    rw (h, scan_add_block) (rw (u, scan_add_block) (rw (k, scan_add_block)))

remove_block-some :
    (i : ℕ) (sc : Scan) (n : Node)
    → find i sc.mm.nodes ≡ some n
    → n.scanned ≡ true
    → scan_remove_block i sc ≡ some (scan_removed i n sc)
unfolding scan_remove_block
remove_block-some i sc n h u = rw (h, scan_remove_block) (simp u)

-- The state after both calls.
record Back (i : ℕ) (sc r : Scan) : Type 0 where
  mm : r.mm ≡ sc.mm
  scanned_blocks : r.scanned_blocks ≡ sc.scanned_blocks
  links : (j : ℕ) → (j == i) ≡ false → r.links j ≡ sc.links j

scan_added-fields :
    (i : ℕ) (sc : Scan) (a : Added)
    → ((scan_added i a sc).1.mm ≡ record (sc.mm) { nodes = a.nodes })
      × ((scan_added i a sc).1.links i ≡ a.links)
      × ((scan_added i a sc).1.scanned_blocks ≡ add32 sc.scanned_blocks 1)
      × ((j : ℕ) → (j == i) ≡ false → (scan_added i a sc).1.links j ≡ sc.links j)
unfolding scan_added
scan_added-fields i sc a = (ground arith, ground arith, ground arith, λ j h. ground arith)

scan_removed-Back :
    (i : ℕ) (sc : Scan) (a : Added)
    → Undone i sc.mm.nodes a
    → sc.scanned_blocks < u32_mod
    → Back i sc (scan_removed i a.node (scan_added i a sc).1).1
unfolding scan_removed
scan_removed-Back i sc a u few =
    let f = scan_added-fields i sc a in
    record {
      mm = ground (arith, f.0, f.1, u.list);
      scanned_blocks = ground (arith, f.2);
      links = λ j h. f.3 j h;
    }

-- A block in use that is added to the scan and removed again leaves the block list, the number of
-- scanned blocks and the other blocks' links as they were; neither call meets its `BUG_ON`. It
-- supposes that the blocks tile a range that ends below 2 ^ 64, and fewer than 2 ^ 32 scanned blocks.
pub scan_add_block-undone :
    (i : ℕ) (sc : Scan) (n : Node) (s e : ℕ)
    → Tiles s sc.mm.nodes e
    → e < u64_mod
    → find i sc.mm.nodes ≡ some n
    → n.free ≡ false
    → n.scanned ≡ false
    → sc.scanned_blocks < u32_mod
    → (hit evict : Bool) × (added removed : Scan) × (scan_add_block i sc ≡ some (hit, added))
      × (scan_remove_block i added ≡ some (evict, removed))
      × (removed.mm ≡ sc.mm)
      × (removed.scanned_blocks ≡ sc.scanned_blocks)
      × ((j : ℕ) → (j == i) ≡ false → removed.links j ≡ sc.links j)
scan_add_block-undone i sc n s e t small h u v few =
    let (a, k, undone) = add_to-Undone i e small sc.mm.nodes n s t h u v in
    let added = (scan_added i a sc).1 in
    let f = scan_added-fields i sc a in
    let back = scan_removed-Back i sc a undone few in
    (
      (scan_added i a sc).0,
      (scan_removed i a.node added).0,
      added,
      (scan_removed i a.node added).1,
      add_block-some i sc n a h u k,
      remove_block-some i added a.node (ground (arith, f.0, undone.found)) undone.flag,
      back.mm,
      back.scanned_blocks,
      back.links,
    )
