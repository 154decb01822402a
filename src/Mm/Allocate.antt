-- ===== src/Mm/Allocate.antt =====
-- `drm_mm_get_block_generic` takes exactly the block that it returns.
use mathlib.Core.Path.{subst}
use vmwgfx.Prelude.{
  ℕ, ◌+◌, ◌-◌, ◌<◌, ◌≡◌, ◌≢◌, refl, ◌∙◌, ap, true, not, ◌&&◌, ◌||◌, List, Option, none, some, arith,
  u64_mod, ◌==◌, if◌then◌else◌, u32_mod, ◌%◌, Bool-cases, inl, inr, ltb, add64, sub64,
}
use vmwgfx.Mm.{Node, Mm, find, split_at_start, kmalloc}
use vmwgfx.Mm.Tiles.{Tiles, inside, used, find-bounds, used-free}
use vmwgfx.Mm.Get.{
  take_block, put_back, get_after, get_block_generic, align_waste, get_block_range_generic,
  range_waste,
}
use vmwgfx.Mm.Aligned.{IsFirstAligned, align_waste-le, align_waste-IsFirstAligned}
use vmwgfx.Mm.Put.{put_block, release}
use vmwgfx.Mm.Release.{put_block-some, release-nodes, merge-Frees}
use vmwgfx.Mm.Cut
use vmwgfx.Mm.Hole.{
  Taken, IsHole, after_take, taken_id, taken, take_block-some, take-Taken, take-others, cut,
  splitoff, rest, rest-starts, cut-IsHole, cut-splitoff, cut-used, cut-fresh,
}

put_back-some :
    (ia : ℕ) (block : Option ℕ) (mm mm' : Mm)
    → put_block ia mm ≡ some mm'
    → put_back ia (some (block, mm)) ≡ some (block, mm')
unfolding put_back
put_back-some ia block mm mm' h = rw (h, put_back)

get_after-cut :
    (i size waste ia : ℕ) (a b : Option ℕ) (mm m1 : Mm)
    → waste ≢ 0
    → split_at_start i waste a mm ≡ (some ia, m1)
    → get_after i size waste a b mm ≡ put_back ia (take_block i size b m1)
unfolding get_after
get_after-cut i size waste ia a b mm m1 some_waste h = elim (Bool-cases (waste == 0)) [
  | inl none_wasted ↦ absurd (ground arith)
  | inr more ↦ rw more (rw (h, get_after) (rw h))
]

-- What a call that allocates achieves.
abbrev pub Allocates :
    (call : Option (Option ℕ × Mm)) → (before : List Node) → (start size s e : ℕ) → Type 0
Allocates call before start size s e =
    (k : ℕ) × (mm' : Mm) × (c : Node) × (call ≡ some (some k, mm'))
    × Taken before mm'.nodes k start size s e c

module _ (mm : Mm) (i size ia ib s e : ℕ) (n : Node) (fresh_a : find ia mm.nodes ≡ none)
    (fresh_b : find ib mm.nodes ≡ none) (apart : ib ≢ ia) where
  get_whole :
      IsHole mm i size s e n → Allocates (take_block i size (some ib) mm) mm.nodes n.start size s e
  get_whole h = (
    taken_id mm i size ib s e n h fresh_b,
    after_take mm i size ib s e n h fresh_b,
    taken mm i size ib s e n h fresh_b,
    take_block-some mm i size ib s e n h fresh_b,
    take-Taken mm i size ib s e n h fresh_b,
  )

  module _ (waste : ℕ) (h : IsHole mm i (waste + size) s e n) where
    mm1 : Mm
    mm1 = cut mm i waste size ia s e n h fresh_a

    off : Node
    off = splitoff mm i waste size ia s e n h fresh_a

    hole : IsHole mm1 i size s e (rest mm i waste size ia s e n h fresh_a)
    unfolding mm1
    hole = cut-IsHole mm i waste size ia s e n h fresh_a

    fresh1 : find ib mm1.nodes ≡ none
    unfolding mm1
    fresh1 = cut-fresh mm i waste size ia s e n h fresh_a ib fresh_b apart

    mm2 : Mm
    mm2 = after_take mm1 i size ib s e _ hole fresh1

    k : ℕ
    k = taken_id mm1 i size ib s e _ hole fresh1

    c : Node
    c = taken mm1 i size ib s e _ hole fresh1

    off-found : find ia mm2.nodes ≡ some off
    unfolding mm2 mm1 off
    off-found =
        take-others mm1 i size ib s e _ hole fresh1 ia (ground arith) (ground arith)
        ∙ cut-splitoff mm i waste size ia s e n h fresh_a

    cut-Taken :
        Taken mm1.nodes mm2.nodes k (rest mm i waste size ia s e n h fresh_a).start size s e c
    unfolding mm2 k c
    cut-Taken = take-Taken mm1 i size ib s e _ hole fresh1

    ia-ne : ia ≢ k
    unfolding k taken_id
    ia-ne = ground arith

    final : Mm
    final = release ia off mm2

    after_put : put_block ia mm2 ≡ some final
    unfolding final off splitoff
    after_put = put_block-some ia mm2 off off-found refl

    put_all :
        Tiles s final.nodes e
        × ((x : ℕ) → used final.nodes x ≡ (used mm2.nodes x && not (inside off x)))
    unfolding final
    put_all = (
      rw (release-nodes ia off mm2)
          (merge-Frees ia mm2.nodes off s e 0 cut-Taken.tiling h.small off-found).0,
      λ x.
          rw (release-nodes ia off mm2)
            (merge-Frees ia mm2.nodes off s e x cut-Taken.tiling h.small off-found).1,
    )

    starts : c.start ≡ n.start + waste
    starts = cut-Taken.starts ∙ rest-starts mm i waste size ia s e n h fresh_a

    found : find k final.nodes ≡ some c
    unfolding final
    found =
        rw (release-nodes ia off mm2)
          (Cut.merge-find k c cut-Taken.busy ia mm2.nodes ia-ne cut-Taken.found)

    first_used : (x : ℕ) → used mm1.nodes x ≡ (used mm.nodes x || inside off x)
    unfolding mm1 off
    first_used x = cut-used mm i waste size ia s e n h fresh_a x

    in_use : (x : ℕ) → used final.nodes x ≡ (used mm.nodes x || inside c x)
    unfolding off splitoff
    in_use x = ground (
      arith,
      put_all.1 x,
      cut-Taken.in_use x,
      first_used x,
      starts,
      h.fits,
      used-free i mm.nodes n s e x h.tiles h.found h.free,
    )

    first_split : split_at_start i waste (some ia) mm ≡ (some ia, mm1)
    unfolding split_at_start kmalloc mm1 cut
    first_split = refl

    took : take_block i size (some ib) mm1 ≡ some (some k, mm2)
    unfolding k mm2
    took = take_block-some mm1 i size ib s e _ hole fresh1

    get_cut :
        waste ≢ 0
        → Allocates
            (get_after i size waste (some ia) (some ib) mm)
            mm.nodes
            (n.start + waste)
            size
            s
            e
    get_cut some_waste = (
      k,
      final,
      c,
      call,
      record {
        found = found;
        busy = cut-Taken.busy;
        scan_idle = cut-Taken.scan_idle;
        starts = starts;
        bytes = cut-Taken.bytes;
        tiling = put_all.0;
        in_use = in_use;
      },
    )
      where
        call : get_after i size waste (some ia) (some ib) mm ≡ some (some k, final)
        call =
            get_after-cut i size waste ia (some ia) (some ib) mm mm1 some_waste first_split
            ∙ ap (put_back ia) took
            ∙ put_back-some ia (some k) mm2 final after_put

get_after-whole :
    (i size waste : ℕ) (a b : Option ℕ) (mm : Mm)
    → (waste == 0) ≡ true
    → get_after i size waste a b mm ≡ take_block i size b mm
unfolding get_after
get_after-whole i size waste a b mm h = rw h

get_after-Allocates :
    (mm : Mm) (i size waste ia ib s e : ℕ) (n : Node)
    → IsHole mm i (waste + size) s e n
    → find ia mm.nodes ≡ none
    → find ib mm.nodes ≡ none
    → ib ≢ ia
    → Allocates (get_after i size waste (some ia) (some ib) mm) mm.nodes (n.start + waste) size s e
get_after-Allocates mm i size waste ia ib s e n h fresh_a fresh_b apart =
    elim (Bool-cases (waste == 0)) [
      | inl none_wasted ↦
          let h' : IsHole mm i size s e n = record {
            tiles = h.tiles;
            small = h.small;
            found = h.found;
            free = h.free;
            fits = omega (arith, h.fits);
            idle = h.idle;
          } in
          let (k, mm', c, call, t) = get_whole mm i size ia ib s e n fresh_a fresh_b apart h' in
          (
            k,
            mm',
            c,
            get_after-whole i size waste (some ia) (some ib) mm none_wasted ∙ call,
            subst (λ st. Taken mm.nodes mm'.nodes k st size s e c) (ground arith) t,
          )
      | inr more ↦ get_cut mm i size ia ib s e n fresh_a fresh_b apart waste h (ground arith)
    ]

-- Cutting `size` bytes out of a free block that holds them behind its aligned start succeeds when
-- memory is to be had. The block returned is in use, has just this size, lies at the first address
-- of the free block that is a multiple of the alignment (at its start, where the alignment is 0), and
-- its addresses are all that is newly in use; the blocks still tile the range. `ia` and `ib` are the
-- identities of new structures; the alignment is a 32-bit number.
pub get_block_generic_takes :
    (mm : Mm) (i size alignment ia ib s e : ℕ) (n : Node)
    → IsHole mm i (align_waste n.start alignment + size) s e n
    → find ia mm.nodes ≡ none
    → find ib mm.nodes ≡ none
    → ib ≢ ia
    → alignment < u32_mod
    → IsFirstAligned n.start alignment (n.start + align_waste n.start alignment)
      × Allocates
          (get_block_generic i size alignment (some ia) (some ib) mm)
          mm.nodes
          (n.start + align_waste n.start alignment)
          size
          s
          e
unfolding get_block_generic
get_block_generic_takes mm i size alignment ia ib s e n h fresh_a fresh_b apart small = (
  align_waste-IsFirstAligned n.start alignment small,
  rw (h.found, get_block_generic)
      (get_after-Allocates mm i size (align_waste n.start alignment) ia ib s e n h fresh_a fresh_b
        apart),
)

-- The range version gives up what lies below `start`, and then what alignment asks for.
range_waste-lem :
    (n : Node) (alignment start : ℕ)
    → alignment < u32_mod
    → n.start < u64_mod
    → start < u64_mod
    → start + alignment < n.start + u32_mod
    → range_waste n alignment start
      ≡ (start - n.start) + align_waste (n.start + (start - n.start)) alignment
unfolding range_waste
range_waste-lem n alignment start small in_n in_s near = elim (Bool-cases (ltb n.start start)) [
  | inl below ↦ ground (arith, here, align_waste-le (n.start + (start - n.start)) alignment small)
  | inr above ↦ ground (arith, here, align_waste-le (n.start + (start - n.start)) alignment small)
]
  where
    here :
        add64 n.start (if ltb n.start start then sub64 start n.start % u32_mod else 0)
        ≡ n.start + (start - n.start)
    here = ground arith

-- The same for the range version, at the first aligned address from `start` on, if `start` lies
-- less than 2 ^ 32 bytes, with the alignment, above the start of the free block.
pub get_block_range_generic_takes :
    (mm : Mm) (i size alignment start end ia ib s e : ℕ) (n : Node)
    → IsHole mm i (range_waste n alignment start + size) s e n
    → find ia mm.nodes ≡ none
    → find ib mm.nodes ≡ none
    → ib ≢ ia
    → alignment < u32_mod
    → start < u64_mod
    → start + alignment < n.start + u32_mod
    → IsFirstAligned
        (n.start + (start - n.start))
        alignment
        (n.start + range_waste n alignment start)
      × Allocates
          (get_block_range_generic i size alignment start end (some ia) (some ib) mm)
          mm.nodes
          (n.start + range_waste n alignment start)
          size
          s
          e
unfolding get_block_range_generic
get_block_range_generic_takes mm i size alignment start end ia ib s e n h fresh_a fresh_b apart
      small in_s near =
    let wasted =
      range_waste-lem n alignment start small
        (omega (arith, find-bounds i mm.nodes n s e h.tiles h.found, h.small)) in_s near in
    (
      subst (IsFirstAligned (n.start + (start - n.start)) alignment) (omega (arith, wasted))
          (align_waste-IsFirstAligned (n.start + (start - n.start)) alignment small),
      rw (h.found, get_block_range_generic)
          (get_after-Allocates mm i size (range_waste n alignment start) ia ib s e n h fresh_a
            fresh_b apart),
    )
