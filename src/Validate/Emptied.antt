-- ===== src/Validate/Emptied.antt =====
-- Taking the buffers and the resources of a submission out of its table leaves no key in it.
use vmwgfx.Prelude.{
  ℕ, zero, suc, ◌+◌, ◌<◌, ◌≡◌, refl, ap, ◌∙◌, Bool, true, false, List, [], ◌∷◌, ◌++◌, none, some,
  ◌==◌, if◌then◌else◌, arith, get_elem?, Any, All, Bool-cases, Option-cases, inl, inr, ◌⊎◌,
}
use vmwgfx.Hashtab.{Table, remove_item}
use vmwgfx.Hashtab.Lookup.{IsTable, get, remove_item-removes}
use vmwgfx.Validate.{ValBuf, ResNode, Context, item}
use vmwgfx.Validate.Listed.{IsContext}

-- the keys of the buffers and of the resources, in order
abbrev pub bos : List ValBuf → List ℕ
bos [] = []
bos (b ∷ bs) = b.bo ∷ bos bs

abbrev pub ress : List ResNode → List ℕ
ress [] = []
ress (n ∷ ns) = n.res ∷ ress ns

module _ (hash : ℕ → ℕ) where
  -- the items of these keys taken out, whose places are from `i` on
  abbrev pub remove_keys : Table → (i : ℕ) → List ℕ → Table
  remove_keys t i [] = t
  remove_keys t i (k ∷ ks) = remove_keys (remove_item hash t (item k i)) (suc i) ks

  -- Each key is in the table with its place.
  abbrev AreHeld : Table → (i : ℕ) → List ℕ → Type 0
  AreHeld t i [] = Unit
  AreHeld t i (k ∷ ks) = (get hash t k ≡ some (item k i)) × AreHeld t (suc i) ks

  -- No other key is in the table.
  abbrev Known : Table → List ℕ → Type 0
  Known t ks = (key : ℕ) → (get hash t key ≡ none) ⊎ Any (λ k. k ≡ key) ks

  -- how a removal changes the table
  abbrev Without : ℕ → Table → Table → Type 0
  Without k t t' = (key : ℕ) → get hash t' key ≡ (if k == key then none else get hash t key)

  later-AreHeld :
      (t t' : Table) (k i j : ℕ) (ks : List ℕ)
      → i < j
      → get hash t k ≡ some (item k i)
      → Without k t t'
      → AreHeld t j ks
      → AreHeld t' j ks
  later-AreHeld t t' k i j [] lt h w v = tt
  later-AreHeld t t' k i j (l ∷ ks) lt h w (at, v) = elim (Bool-cases (k == l)) [
    | inl same ↦
        let e : k ≡ l = ground arith in absurd (ground (arith, at, h, ap (λ x. get hash t x) e))
    | inr other ↦ (ground (arith, w l, at), later-AreHeld t t' k i (suc j) ks (omega arith) h w v)
  ]

  others-AreHeld :
      (is_bo : ℕ → Bool) (t t' : Table) (k j : ℕ) (ks : List ℕ)
      → is_bo k ≡ true
      → All (λ l. is_bo l ≡ false) ks
      → Without k t t'
      → AreHeld t j ks
      → AreHeld t' j ks
  others-AreHeld is_bo t t' k j [] kind kinds w v = tt
  others-AreHeld is_bo t t' k j (l ∷ ks) kind (other, kinds) w (at, v) =
      elim (Bool-cases (k == l)) [
        | inl same ↦
            let e : k ≡ l = ground arith in absurd (ground (arith, kind, other, ap is_bo e))
        | inr apart ↦
            (ground (arith, w l, at), others-AreHeld is_bo t t' k (suc j) ks kind kinds w v)
      ]

  fewer-Known :
      (t t' : Table) (k : ℕ) (ks : List ℕ) → Without k t t' → Known t (k ∷ ks) → Known t' ks
  fewer-Known t t' k ks w v key = elim (Bool-cases (k == key)) [
    | inl same ↦ inl (ground (arith, w key))
    | inr other ↦ elim (v key) [
      | inl absent ↦ inl (ground (arith, w key))
      | inr (inl same) ↦ absurd (ground arith)
      | inr (inr later) ↦ inr later
    ]
  ]

  all_removed :
      (t : Table) (i : ℕ) (ks : List ℕ)
      → IsTable t
      → AreHeld t i ks
      → Known t ks
      → IsTable (remove_keys t i ks) × Known (remove_keys t i ks) []
  all_removed t i [] sorted held known = (sorted, known)
  all_removed t i (k ∷ ks) sorted (at, held) known =
      let (s', w) = remove_item-removes hash t (item k i) sorted at in
      let t' = remove_item hash t (item k i) in
      all_removed t' (suc i) ks s' (later-AreHeld t t' k i (suc i) ks (omega arith) at w held)
        (fewer-Known t t' k ks w known)

  buffers_removed :
      (is_bo : ℕ → Bool) (t : Table) (i : ℕ) (ks rs : List ℕ)
      → IsTable t
      → AreHeld t i ks
      → AreHeld t 0 rs
      → All (λ k. is_bo k ≡ true) ks
      → All (λ r. is_bo r ≡ false) rs
      → Known t (ks ++ rs)
      → IsTable (remove_keys t i ks)
        × AreHeld (remove_keys t i ks) 0 rs
        × Known (remove_keys t i ks) rs
  buffers_removed is_bo t i [] rs sorted held rest kinds others known = (sorted, rest, known)
  buffers_removed is_bo t i (k ∷ ks) rs sorted (at, held) rest (kind, kinds) others known =
      let (s', w) = remove_item-removes hash t (item k i) sorted at in
      let t' = remove_item hash t (item k i) in
      buffers_removed is_bo t' (suc i) ks rs s'
        (later-AreHeld t t' k i (suc i) ks (omega arith) at w held)
        (others-AreHeld is_bo t t' k 0 rs kind others w rest) kinds others
        (fewer-Known t t' k (ks ++ rs) w known)

  -- the same, read off a list by its indices
  bos-AreHeld :
      (is_bo : ℕ → Bool) (t : Table) (i : ℕ) (bs : List ValBuf)
      → ((j : ℕ) (b : ValBuf)
          → get_elem? bs j ≡ some b
          → (is_bo b.bo ≡ true) × (get hash t b.bo ≡ some (item b.bo (i + j))))
      → AreHeld t i (bos bs) × All (λ k. is_bo k ≡ true) (bos bs)
  bos-AreHeld is_bo t i [] h = (tt, tt)
  bos-AreHeld is_bo t i (b ∷ bs) h =
      let (held, kinds) = bos-AreHeld is_bo t (suc i) bs (λ j x e.
        ((h (suc j) x e).0, (h (suc j) x e).1 ∙ ap (λ n. some (item x.bo n)) (omega arith))) in
      (((h 0 b refl).1 ∙ ap (λ n. some (item b.bo n)) (omega arith), held), ((h 0 b refl).0, kinds))

  ress-AreHeld :
      (is_bo : ℕ → Bool) (t : Table) (i : ℕ) (ns : List ResNode)
      → ((j : ℕ) (n : ResNode)
          → get_elem? ns j ≡ some n
          → (is_bo n.res ≡ false) × (get hash t n.res ≡ some (item n.res (i + j))))
      → AreHeld t i (ress ns) × All (λ r. is_bo r ≡ false) (ress ns)
  ress-AreHeld is_bo t i [] h = (tt, tt)
  ress-AreHeld is_bo t i (n ∷ ns) h =
      let (held, kinds) = ress-AreHeld is_bo t (suc i) ns (λ j x e.
        ((h (suc j) x e).0, (h (suc j) x e).1 ∙ ap (λ k. some (item x.res k)) (omega arith))) in
      (
        ((h 0 n refl).1 ∙ ap (λ k. some (item n.res k)) (omega arith), held),
        ((h 0 n refl).0, kinds),
      )

  bos-Any :
      (bs : List ValBuf) (rs : List ℕ) (j key : ℕ) (b : ValBuf)
      → get_elem? bs j ≡ some b
      → b.bo ≡ key
      → Any (λ k. k ≡ key) (bos bs ++ rs)
  bos-Any [] rs j key b e h = cc
  bos-Any (x ∷ bs) rs zero key b e h = inl (ground (arith, e, h))
  bos-Any (x ∷ bs) rs (suc j) key b e h = inr (bos-Any bs rs j key b e h)

  ress-Any :
      (bs : List ValBuf) (ns : List ResNode) (j key : ℕ) (n : ResNode)
      → get_elem? ns j ≡ some n
      → n.res ≡ key
      → Any (λ k. k ≡ key) (bos bs ++ ress ns)
  ress-Any [] [] j key n e h = cc
  ress-Any [] (x ∷ ns) zero key n e h = inl (ground (arith, e, h))
  ress-Any [] (x ∷ ns) (suc j) key n e h = inr (ress-Any [] ns j key n e h)
  ress-Any (b ∷ bs) ns j key n e h = inr (ress-Any bs ns j key n e h)

  pub removed-Empty :
      (is_bo : ℕ → Bool) (base : ℕ → ℕ) (c : Context)
      → IsContext hash is_bo base c
      → let t = remove_keys (remove_keys c.res_ht 0 (bos c.val_bufs)) 0 (ress c.resource_list) in
        IsTable t × ((key : ℕ) → get hash t key ≡ none)
  removed-Empty is_bo base c v =
      let (held, kinds) = bos-AreHeld is_bo c.res_ht 0 c.val_bufs (λ j b e.
        ((v.buffers j b e).0, (v.buffers j b e).1 ∙ ap (λ n. some (item b.bo n)) (omega arith))) in
      let (rest, others) = ress-AreHeld is_bo c.res_ht 0 c.resource_list (λ j n e. (
        (v.resources j n e).0,
        (v.resources j n e).1 ∙ ap (λ k. some (item n.res k)) (omega arith),
      )) in
      let (s1, rest1, known1) =
        buffers_removed is_bo c.res_ht 0 (bos c.val_bufs) (ress c.resource_list) v.sorted held rest
          kinds others known in
      let (s2, known2) =
        all_removed (remove_keys c.res_ht 0 (bos c.val_bufs)) 0 (ress c.resource_list) s1 rest1
          known1 in
      (s2, λ key. elim (known2 key) [ inl absent ↦ absent | inr h ↦ absurd h ])
    where
      known : Known c.res_ht (bos c.val_bufs ++ ress c.resource_list)
      known key = elim (Option-cases (get hash c.res_ht key)) [
        | inl absent ↦ inl absent
        | inr (it, there) ↦ elim (Bool-cases (is_bo key)) [
          | inl kind ↦
              let (b, at, same) = v.known_bo key it kind there in
              inr (bos-Any c.val_bufs (ress c.resource_list) it.owner key b at same)
          | inr kind ↦
              let (n, at, same) = v.known_res key it kind there in
              inr (ress-Any c.val_bufs c.resource_list it.owner key n at same)
        ]
      ]
