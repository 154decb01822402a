-- ===== src/Mm/Coalesce.antt =====
-- Free blocks never lie side by side.
use vmwgfx.Prelude.{ℕ, ◌≡◌, sym, ◌∙◌, Bool, false, ◌&&◌, List, [], ◌∷◌, some, arith}
use mathlib.Core.Path.{subst}
use vmwgfx.Mm.{Node, Mm, find}
use vmwgfx.Mm.Put.{merge_next, merge_prev, merge_pair, behind, merge_after, merge, put_block}
use vmwgfx.Mm.Release.{release-nodes, put_block-some}

-- No free block follows a free one; `b` is whether what lies in front of the list is free.
abbrev pub Coalesced : (b : Bool) → List Node → Type 0
Coalesced b [] = Unit
Coalesced b (n ∷ ns) = ((b && n.free) ≡ false) × Coalesced n.free ns

merge_next-Coalesced :
    (cur : Node) (ns : List Node)
    → cur.free ≡ false
    → Coalesced cur.free ns
    → Coalesced false (merge_next cur ns).nodes
unfolding merge_next
merge_next-Coalesced cur [] used c = ground arith
merge_next-Coalesced cur (n ∷ ns) used c = ground arith

merge_prev-Coalesced :
    (b : Bool) (p cur : Node) (ns : List Node)
    → Coalesced b (p ∷ cur ∷ ns)
    → Coalesced b (merge_prev p cur ns).nodes
unfolding merge_prev
merge_prev-Coalesced b p cur [] c = ground arith
merge_prev-Coalesced b p cur (n ∷ []) c = ground arith
merge_prev-Coalesced b p cur (n ∷ m ∷ ns) c = ground arith

merge_pair-Coalesced :
    (b : Bool) (p cur : Node) (ns : List Node)
    → cur.free ≡ false
    → Coalesced b (p ∷ cur ∷ ns)
    → Coalesced b (merge_pair p cur ns).nodes
unfolding merge_pair behind
merge_pair-Coalesced b p cur ns u c =
    ground (arith, merge_prev-Coalesced b p cur ns c, merge_next-Coalesced cur ns u c.1.1)

merge_after-Coalesced :
    (i : ℕ) (ns : List Node) (b : Bool) (p cur : Node)
    → find i ns ≡ some cur
    → cur.free ≡ false
    → Coalesced b (p ∷ ns)
    → Coalesced b (merge_after i p ns).nodes
unfolding merge_after find behind
merge_after-Coalesced i [] b p cur h u c = cc
merge_after-Coalesced i (n ∷ ns) b p cur h u c =
    ground (arith, merge_pair-Coalesced b p n ns, merge_after-Coalesced i ns p.free n cur)

merge-Coalesced :
    (i : ℕ) (ns : List Node) (cur : Node)
    → find i ns ≡ some cur
    → cur.free ≡ false
    → Coalesced false ns
    → Coalesced false (merge i ns).nodes
unfolding merge find
merge-Coalesced i [] cur h u c = cc
merge-Coalesced i (n ∷ ns) cur h u c =
    ground (arith, merge_next-Coalesced n ns, merge_after-Coalesced i ns false n cur)

-- Giving back a block that is in use leaves no two free blocks side by side, if there were none.
pub put_block-Coalesced :
    (i : ℕ) (mm mm' : Mm) (cur : Node)
    → find i mm.nodes ≡ some cur
    → cur.free ≡ false
    → cur.scanned ≡ false
    → Coalesced false mm.nodes
    → put_block i mm ≡ some mm'
    → Coalesced false mm'.nodes
put_block-Coalesced i mm mm' cur h u idle c e =
    subst (λ m. Coalesced false m.nodes) (some-injective (sym (put_block-some i mm cur h idle) ∙ e))
      (rw (release-nodes i cur mm) (merge-Coalesced i mm.nodes cur h u c))
  where
    some-injective : {a b : Mm} → some a ≡ some b → a ≡ b
    some-injective q = cc
