-- ===== src/Mm/Choice.antt =====
-- What the searches of the free stack return.
use vmwgfx.Prelude.{
  ℕ, ◌+◌, ◌≤◌, ◌<◌, ◌≡◌, ◌≢◌, refl, sym, Bool, true, false, ◌&&◌, List, [], ◌∷◌, Option, none, some,
  arith, ltb, u64_mod, Any, All, Bool-cases, inl, inr, ◌⊎◌, ◌↔◌,
}
use mathlib.Core.Path.{subst}
use vmwgfx.Mm.{Node, Mm}
use vmwgfx.Mm.Get.{align_waste}
use vmwgfx.Mm.Search.{
  check_free_hole, free_blocks, search, search_free, hole_fits, range_fits, max_size,
  search_free_in_range,
}

-- Every block is larger than `size` or does not fit.
abbrev pub NoneBelow : (fits : Node → Bool) → (size : ℕ) → List Node → Type 0
NoneBelow fits size = All (λ m. (fits m ≡ false) ⊎ (size ≤ m.size))

-- The first block of the list that fits.
abbrev pub IsFirst : (fits : Node → Bool) → Node → List Node → Type 0
IsFirst fits n [] = ⊥
IsFirst fits n (m ∷ ms) = ((fits m ≡ true) × (n ≡ m)) ⊎ ((fits m ≡ false) × IsFirst fits n ms)

-- A block that fits, of the smallest size.
abbrev pub IsBest : (fits : Node → Bool) → Node → List Node → Type 0
IsBest fits n ns = (fits n ≡ true) × Any (λ m. n ≡ m) ns × NoneBelow fits n.size ns

-- What a search returns on a list of blocks.
abbrev pub Searched : (fits : Node → Bool) → (best_match : Bool) → Option Node → List Node → Type 0
Searched fits best_match none ns = All (λ m. (fits m ≡ false) ⊎ (max_size ≤ m.size)) ns
Searched fits true (some n) ns = IsBest fits n ns
Searched fits false (some n) ns = IsFirst fits n ns

module _ (fits : Node → Bool) where
  search-IsFirst :
      (ns : List Node) (n : Node) (k : ℕ) → search fits false none k ns ≡ some n → IsFirst fits n ns
  unfolding search
  search-IsFirst [] n k h = cc
  search-IsFirst (m ∷ ns) n k h = elim (Bool-cases (fits m)) [
    | inl taken ↦ inl (taken, ground arith)
    | inr passed ↦ inr (passed, search-IsFirst ns n k (ground arith))
  ]

  search-some : (b : Bool) (ns : List Node) (c : Node) (k : ℕ) → search fits b (some c) k ns ≢ none
  unfolding search
  search-some b [] c k h = cc
  search-some b (m ∷ ns) c k h = ground (arith, search-some b ns c k, search-some b ns m m.size)

  search-none :
      (b : Bool) (ns : List Node) (k : ℕ)
      → search fits b none k ns ≡ none
      → All (λ m. (fits m ≡ false) ⊎ (k ≤ m.size)) ns
  unfolding search
  search-none b [] k h = tt
  search-none b (m ∷ ns) k h = elim (Bool-cases (fits m && ltb m.size k)) [
    | inl better ↦ absurd (ground (arith, search-some b ns m m.size))
    | inr worse ↦ (ground arith, search-none b ns k (ground arith))
  ]

  -- The best block so far stays, if no smaller one follows that fits; else a smallest such block is
  -- returned.
  search-IsBest :
      (ns : List Node) (best : Option Node) (k : ℕ) (n : Node)
      → search fits true best k ns ≡ some n
      → ((best ≡ some n) × NoneBelow fits k ns) ⊎ ((n.size < k) × IsBest fits n ns)
  unfolding search
  search-IsBest [] best k n h = inl (h, tt)
  search-IsBest (m ∷ ns) best k n h = elim (Bool-cases (fits m && ltb m.size k)) [
    | inl better ↦ elim (search-IsBest ns (some m) m.size n (ground arith)) [
      | inl (e, below) ↦
          let e' : m ≡ n = cc in
          inr (
            ground arith,
            (
              subst (λ c. fits c ≡ true) e' (ground arith),
              inl (sym e'),
              (inr (ground arith), subst (λ c. NoneBelow fits c.size ns) e' below),
            ),
          )
      | inr (lt, found) ↦ inr (ground arith, (found.0, inr found.1, (inr (ground arith), found.2)))
    ]
    | inr worse ↦ elim (search-IsBest ns best k n (ground arith)) [
      | inl (e, below) ↦ inl (e, (ground arith, below))
      | inr (lt, found) ↦ inr (lt, (found.0, inr found.1, (ground arith, found.2)))
    ]
  ]

  search-Searched :
      (b : Bool) (ns : List Node) → Searched fits b (search fits b none max_size ns) ns
  search-Searched b ns = go b (search fits b none max_size ns) refl
    where
      go : (b : Bool) (o : Option Node) → search fits b none max_size ns ≡ o → Searched fits b o ns
      go b none e = search-none b ns max_size e
      go false (some n) e = search-IsFirst ns n max_size e
      go true (some n) e = elim (search-IsBest ns none max_size n e) [
        | inl (h, _) ↦ absurd (cc)
        | inr found ↦ found.1
      ]

-- What `drm_mm_search_free` returns by the test of the hole: the topmost block that passes, or, for
-- the best match, one of the smallest; and NULL only if none passes (for the best match, none of less
-- than 2 ^ 64 - 1 bytes).
pub search_free-Searched :
    (mm : Mm) (size alignment : ℕ) (best_match : Bool)
    → Searched
        (hole_fits size alignment)
        best_match
        (search_free mm size alignment best_match)
        (free_blocks mm.free_stack mm.nodes)
unfolding search_free
search_free-Searched mm size alignment best_match =
    search-Searched (hole_fits size alignment) best_match (free_blocks mm.free_stack mm.nodes)

-- The same for `drm_mm_search_free_in_range`, where the part of the block that lies in the range
-- must have the room.
pub search_free_in_range-Searched :
    (mm : Mm) (size alignment start end : ℕ) (best_match : Bool)
    → Searched
        (range_fits size alignment start end)
        best_match
        (search_free_in_range mm size alignment start end best_match)
        (free_blocks mm.free_stack mm.nodes)
unfolding search_free_in_range
search_free_in_range-Searched mm size alignment start end best_match =
    search-Searched (range_fits size alignment start end) best_match
      (free_blocks mm.free_stack mm.nodes)

-- The test of a hole is exact: for a request whose end does not pass 2 ^ 64, it says whether the
-- bytes behind the aligned start fit in front of the end.
pub check_free_hole_iff :
    (start end size alignment : ℕ)
    → start ≤ end
    → end < u64_mod
    → start + size + align_waste start alignment < u64_mod
    → (check_free_hole start end size alignment ≡ true)
      ↔ (start + align_waste start alignment + size ≤ end)
unfolding check_free_hole
check_free_hole_iff start end size alignment le small sum = (ground arith, ground arith)
