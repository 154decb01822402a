-- ===== src/Mm/Release.antt =====
-- `drm_mm_put_block` frees exactly the addresses of the block, and keeps the tiling.
use vmwgfx.Prelude.{
  ℕ, ◌+◌, ◌<◌, ◌≡◌, refl, ◌∙◌, true, false, not, ◌&&◌, List, [], ◌∷◌, Option, none, some, arith,
  u64_mod, ◌==◌, Bool-cases, inl, inr,
}
use mathlib.Core.Path.{subst}
use vmwgfx.Mm.{Node, Mm, find}
use vmwgfx.Mm.Tiles.{Tiles, inside, used, Tiles-le, used-behind, find-bounds}
use vmwgfx.Mm.Put.{
  Merge, merge_next, merge_prev, merge_pair, behind, merge_after, merge, put_block, absorb, retire,
  release,
}

-- The list after a merge: it tiles the same range, and the block's addresses are free.
abbrev pub Frees : (before : List Node) → (cur : Node) → (s e : ℕ) → Merge → ℕ → Type 0
Frees before cur s e m x =
    Tiles s m.nodes e × (used m.nodes x ≡ (used before x && not (inside cur x)))

module _ (cur : Node) where
  merge_next-Frees :
      (ns : List Node) (s e x : ℕ)
      → Tiles s (cur ∷ ns) e
      → e < u64_mod
      → Frees (cur ∷ ns) cur s e (merge_next cur ns) x
  unfolding merge_next
  merge_next-Frees [] s e x t small = ground arith
  merge_next-Frees (n ∷ ns) s e x t small =
      ground (arith, used-behind cur (n ∷ ns) s e x t, Tiles-le ns (s + cur.size + n.size) e t.1.1)

  merge_prev-Frees :
      (p : Node) (ns : List Node) (s e x : ℕ)
      → Tiles s (p ∷ cur ∷ ns) e
      → e < u64_mod
      → p.free ≡ true
      → Frees (p ∷ cur ∷ ns) cur s e (merge_prev p cur ns) x
  unfolding merge_prev
  merge_prev-Frees p [] s e x t small f = ground arith
  merge_prev-Frees p (n ∷ ns) s e x t small f = ground (
    arith,
    used-behind cur (n ∷ ns) (s + p.size) e x t.1,
    Tiles-le ns (s + p.size + cur.size + n.size) e t.1.1.1,
  )

  merge_pair-Frees :
      (p : Node) (ns : List Node) (s e x : ℕ)
      → Tiles s (p ∷ cur ∷ ns) e
      → e < u64_mod
      → Frees (p ∷ cur ∷ ns) cur s e (merge_pair p cur ns) x
  unfolding merge_pair behind
  merge_pair-Frees p ns s e x t small = ground (
    arith,
    merge_prev-Frees p ns s e x t small,
    merge_next-Frees ns (s + p.size) e x t.1 small,
    used-behind p (cur ∷ ns) s e x t,
  )

some-injective : {a b : Node} → some a ≡ some b → a ≡ b
some-injective h = cc

merge_after-Frees :
    (i : ℕ) (ns : List Node) (p cur : Node) (s e x : ℕ)
    → Tiles s (p ∷ ns) e
    → e < u64_mod
    → find i ns ≡ some cur
    → Frees (p ∷ ns) cur s e (merge_after i p ns) x
unfolding merge_after find behind
merge_after-Frees i [] p cur s e x t small h = cc
merge_after-Frees i (n ∷ ns) p cur s e x t small h = elim (Bool-cases (n.id == i)) [
  | inl same ↦
      subst (λ c. Frees (p ∷ n ∷ ns) c s e (merge_after i p (n ∷ ns)) x)
        (some-injective (rw same at h)) (rw same (merge_pair-Frees n p ns s e x t small))
  | inr other ↦ rw other (
      ground (
        arith,
        merge_after-Frees i ns n cur (s + p.size) e x t.1 small,
        find-bounds i ns cur (s + p.size + n.size) e t.1.1,
      ))
]

pub merge-Frees :
    (i : ℕ) (ns : List Node) (cur : Node) (s e x : ℕ)
    → Tiles s ns e
    → e < u64_mod
    → find i ns ≡ some cur
    → Frees ns cur s e (merge i ns) x
unfolding merge find
merge-Frees i [] cur s e x t small h = cc
merge-Frees i (n ∷ ns) cur s e x t small h = elim (Bool-cases (n.id == i)) [
  | inl same ↦
      subst (λ c. Frees (n ∷ ns) c s e (merge i (n ∷ ns)) x) (some-injective (rw same at h))
        (rw same (merge_next-Frees n ns s e x t small))
  | inr other ↦ rw other (merge_after-Frees i ns n cur s e x t small (rw other at h))
]

retire-nodes : (n : Node) (mm : Mm) → (retire n mm).nodes ≡ mm.nodes
unfolding retire
retire-nodes n mm = ground arith

absorb-nodes : (n : Option Node) (mm : Mm) → (absorb n mm).nodes ≡ mm.nodes
unfolding absorb
absorb-nodes none mm = refl
absorb-nodes (some n) mm = retire-nodes n _

pub release-nodes :
    (i : ℕ) (cur : Node) (mm : Mm) → (release i cur mm).nodes ≡ (merge i mm.nodes).nodes
unfolding release
release-nodes i cur mm = elim (Bool-cases (merge i mm.nodes).merged) [
  | inl done ↦ rw done (retire-nodes cur _ ∙ absorb-nodes (merge i mm.nodes).absorbed _)
  | inr not_done ↦ rw not_done (absorb-nodes (merge i mm.nodes).absorbed _)
]

pub put_block-some :
    (i : ℕ) (mm : Mm) (cur : Node)
    → find i mm.nodes ≡ some cur
    → cur.scanned ≡ false
    → put_block i mm ≡ some (release i cur mm)
unfolding put_block
put_block-some i mm cur h idle = rw (h, put_block) (simp idle)

-- Giving a block back succeeds outside a scan; afterwards the blocks still tile the range, and the
-- addresses in use are those from before less the block's own.
pub put_block_frees :
    (i : ℕ) (mm : Mm) (cur : Node) (s e : ℕ)
    → Tiles s mm.nodes e
    → e < u64_mod
    → find i mm.nodes ≡ some cur
    → cur.scanned ≡ false
    → (mm' : Mm) × (put_block i mm ≡ some mm')
      × Tiles s mm'.nodes e
      × ((x : ℕ) → used mm'.nodes x ≡ (used mm.nodes x && not (inside cur x)))
put_block_frees i mm cur s e t small h idle = (
  release i cur mm,
  put_block-some i mm cur h idle,
  rw (release-nodes i cur mm) (merge-Frees i mm.nodes cur s e 0 t small h).0,
  λ x. rw (release-nodes i cur mm) (merge-Frees i mm.nodes cur s e x t small h).1,
)
