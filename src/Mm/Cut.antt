-- ===== src/Mm/Cut.antt =====
-- What the two ways of taking a block, splitting and marking, do to the block list.
use vmwgfx.Prelude.{
  ℕ, ◌+◌, ◌≤◌, ◌<◌, ◌≡◌, ◌≢◌, refl, true, false, not, ◌&&◌, ◌||◌, List, [], ◌∷◌, none, some, arith,
  u64_mod, ◌==◌, Bool-cases, inl, inr, add64, sub64,
}
use mathlib.Core.Path.{subst}
use vmwgfx.Mm.{Node, find, split_nodes}
use vmwgfx.Mm.Tiles.{Tiles, inside, used, Tiles-le}
use vmwgfx.Mm.Get.{mark_used}
use vmwgfx.Mm.Put.{merge, merge_after, merge_next, merge_prev, merge_pair, behind}

module _ (i : ℕ) (c : Node) (size : ℕ) where
  -- the child in its place
  abbrev pub child_of : Node → Node
  child_of n = record c { start = n.start; size = size }

  -- the block with its first `size` bytes gone
  abbrev pub rest_of : Node → Node
  rest_of n = record n { start = add64 n.start size; size = sub64 n.size size }

  pub split-find_child :
      (ns : List Node) (n : Node)
      → find c.id ns ≡ none
      → find i ns ≡ some n
      → find c.id (split_nodes i c size ns) ≡ some (child_of n)
  unfolding find split_nodes
  split-find_child [] n fresh h = cc
  split-find_child (m ∷ ns) n fresh h = ground (arith, split-find_child ns n)

  pub split-find_rest :
      (ns : List Node) (n : Node)
      → c.id ≢ i
      → find i ns ≡ some n
      → find i (split_nodes i c size ns) ≡ some (rest_of n)
  unfolding find split_nodes
  split-find_rest [] n other h = cc
  split-find_rest (m ∷ ns) n other h = ground (arith, split-find_rest ns n)

  pub split-find_other :
      (ns : List Node) (j : ℕ) → j ≢ i → j ≢ c.id → find j (split_nodes i c size ns) ≡ find j ns
  unfolding find split_nodes
  split-find_other [] j p q = refl
  split-find_other (m ∷ ns) j p q = ground (arith, split-find_other ns j)

  pub split-Tiles :
      (ns : List Node) (n : Node) (s e : ℕ)
      → Tiles s ns e
      → e < u64_mod
      → find i ns ≡ some n
      → size ≤ n.size
      → Tiles s (split_nodes i c size ns) e
  unfolding find split_nodes
  split-Tiles [] n s e t small h fits = cc
  split-Tiles (m ∷ ns) n s e t small h fits = elim (Bool-cases (m.id == i)) [
    | inl same ↦
        let fits' : size ≤ m.size = ground arith in
        let room = Tiles-le ns (s + m.size) e t.1 in
        rw same (t.0, (ground arith, subst (λ k. Tiles k ns e) (omega arith) t.1))
    | inr other ↦ rw other (t.0, split-Tiles ns n (s + m.size) e t.1 small (rw other at h) fits)
  ]

  -- Splitting a free block takes the child's addresses into use, if the child is not flagged free.
  pub split-used :
      (ns : List Node) (n : Node) (s e x : ℕ)
      → Tiles s ns e
      → e < u64_mod
      → find i ns ≡ some n
      → n.free ≡ true
      → size ≤ n.size
      → used (split_nodes i c size ns) x ≡ (used ns x || (not c.free && inside (child_of n) x))
  unfolding find split_nodes
  split-used [] n s e x t small h free fits = cc
  split-used (m ∷ ns) n s e x t small h free fits =
      ground (arith, split-used ns n (s + m.size) e x t.1, Tiles-le ns (s + m.size) e t.1)

module _ (i : ℕ) where
  pub mark-find_self :
      (ns : List Node) (n : Node)
      → find i ns ≡ some n
      → find i (mark_used i ns) ≡ some (record n { free = false })
  unfolding find mark_used
  mark-find_self [] n h = cc
  mark-find_self (m ∷ ns) n h = ground (arith, mark-find_self ns n)

  pub mark-find_other : (ns : List Node) (j : ℕ) → j ≢ i → find j (mark_used i ns) ≡ find j ns
  unfolding find mark_used
  mark-find_other [] j p = refl
  mark-find_other (m ∷ ns) j p = ground (arith, mark-find_other ns j)

  pub mark-Tiles : (ns : List Node) (s e : ℕ) → Tiles s ns e → Tiles s (mark_used i ns) e
  unfolding mark_used
  mark-Tiles [] s e t = t
  mark-Tiles (m ∷ ns) s e t = ground (arith, mark-Tiles ns (s + m.size) e t.1)

  -- Marking a free block takes all of its addresses into use.
  pub mark-used :
      (ns : List Node) (n : Node) (x : ℕ)
      → find i ns ≡ some n
      → n.free ≡ true
      → used (mark_used i ns) x ≡ (used ns x || inside n x)
  unfolding find mark_used
  mark-used [] n x h f = cc
  mark-used (m ∷ ns) n x h f = ground (arith, mark-used ns n x)

module _ (k : ℕ) (c : Node) (busy : c.free ≡ false) where
  -- A block in use that is not given back stays what it is when another one is given back.
  merge_next-find :
      (cur : Node) (ns : List Node)
      → cur.id ≢ k
      → find k ns ≡ some c
      → find k (merge_next cur ns).nodes ≡ some c
  unfolding find merge_next
  merge_next-find cur [] o h = cc
  merge_next-find cur (n ∷ ns) o h = ground arith

  merge_pair-find :
      (p cur : Node) (ns : List Node)
      → cur.id ≢ k
      → find k (p ∷ cur ∷ ns) ≡ some c
      → find k (merge_pair p cur ns).nodes ≡ some c
  unfolding find merge_pair merge_prev behind
  merge_pair-find p cur [] o h = ground arith
  merge_pair-find p cur (n ∷ ns) o h = ground (arith, merge_next-find cur (n ∷ ns) o)

  merge_after-find :
      (i : ℕ) (ns : List Node) (p : Node)
      → i ≢ k
      → find k (p ∷ ns) ≡ some c
      → find k (merge_after i p ns).nodes ≡ some c
  unfolding find merge_after behind
  merge_after-find i [] p o h = h
  merge_after-find i (n ∷ ns) p o h =
      ground (arith, merge_pair-find p n ns, merge_after-find i ns n o)

  pub merge-find :
      (i : ℕ) (ns : List Node) → i ≢ k → find k ns ≡ some c → find k (merge i ns).nodes ≡ some c
  unfolding find merge
  merge-find i [] o h = h
  merge-find i (n ∷ ns) o h = ground (arith, merge_next-find n ns, merge_after-find i ns n o)
