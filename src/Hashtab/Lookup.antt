-- ===== src/Hashtab/Lookup.antt =====
-- The table is a map from keys to items, behind `hash`.
use vmwgfx.Prelude.{
  ℕ, ◌≡◌, refl, List, [], ◌∷◌, Option, none, some, arith, ◌==◌, if◌then◌else◌, Bool-cases, inl, inr,
  Outcome, ok, err, einval,
}
use mathlib.Core.Path.{subst, sym, ap}
use native.Mathlib.Decide.{ℕ_discrete}
use vmwgfx.Hashtab.{
  Item, Table, find_chain, insert_chain, delete_chain, find_item, insert_item, remove_item,
  remove_key, set_bucket,
}
use vmwgfx.Hashtab.Chain.{
  IsSorted, find-insert, find-delete, insert-IsSorted, delete-IsSorted, insert-taken, insert-new,
}

-- Every chain is sorted.
abbrev pub IsTable : Table → Type 0
IsTable t = (i : ℕ) → IsSorted none (t.bucket i)

set-IsTable :
    (t : Table) (i : ℕ) (c : List Item) → IsTable t → IsSorted none c → IsTable (set_bucket t i c)
unfolding set_bucket
set-IsTable t i c v s j = elim (Bool-cases (j == i)) [
  | inl here ↦ rw here s
  | inr other ↦ rw other (v j)
]

module _ (hash : ℕ → ℕ) where
  -- what a lookup finds
  abbrev pub get : Table → (key : ℕ) → Option Item
  get t key = find_chain key (t.bucket (hash key))

  pub find_item_lem :
      (t : Table) (key : ℕ)
      → find_item hash t key ≡ elim (get t key) [ none ↦ err einval | some item ↦ ok item ]
  unfolding find_item
  find_item_lem t key = refl

  -- A chain that differs at one key only makes a table that does.
  set-get :
      (t : Table) (k key : ℕ) (c : List Item) (r : Option Item)
      → find_chain key c ≡ (if k == key then r else find_chain key (t.bucket (hash k)))
      → get (set_bucket t (hash k) c) key ≡ (if k == key then r else get t key)
  unfolding set_bucket
  set-get t k key c r h = elim (ℕ_discrete k key) [
    | yes same ↦ ground (arith, ap hash same)
    | no other ↦ elim (ℕ_discrete (hash key) (hash k)) [
      | yes meet ↦ ground (arith, ap (λ i. find_chain key (t.bucket i)) meet)
      | no apart ↦ ground arith
    ]
  ]

  -- what an insertion does to lookups
  abbrev pub Inserted : Table → Item → Outcome Table → Type 0
  Inserted t item (err e) = (e ≡ einval) × ((old : Item) × (get t item.key ≡ some old))
  Inserted t item (ok t') =
      IsTable t'
      × (get t item.key ≡ none)
      × ((key : ℕ) → get t' key ≡ (if item.key == key then some item else get t key))

  -- An insertion fails, with EINVAL, exactly when the key is there; otherwise the new table is
  -- sorted again, finds the item under its key, and finds under each other key what was found before.
  pub insert_item-Inserted :
      (t : Table) (item : Item) → IsTable t → Inserted t item (insert_item hash t item)
  unfolding insert_item
  insert_item-Inserted t item v = go (insert_chain item (t.bucket (hash item.key))) refl
    where
      go :
          (o : Option (List Item))
          → insert_chain item (t.bucket (hash item.key)) ≡ o
          → Inserted t item (insert_item hash t item)
      go none e = rw (e, insert_item) (refl, old_item (get t item.key) refl)
        where
          old_item :
              (o : Option Item) → get t item.key ≡ o → (old : Item) × (get t item.key ≡ some old)
          old_item none q = absurd (insert-new (t.bucket (hash item.key)) item q e)
          old_item (some old) q = (old, q)
      go (some c) e =
          rw (e, insert_item)
            (
              set-IsTable t (hash item.key) c v
                  (insert-IsSorted (t.bucket (hash item.key)) c none item (v (hash item.key)) tt e),
              is_new (get t item.key) refl,
              λ key.
                  set-get t item.key key c (some item)
                    (find-insert (t.bucket (hash item.key)) c item none key (v (hash item.key)) e),
            )
        where
          is_new : (o : Option Item) → get t item.key ≡ o → get t item.key ≡ none
          is_new none q = q
          is_new (some old) q =
              absurd (ground (arith, insert-taken (t.bucket (hash item.key)) item old q))

  -- Removing an item that the table holds leaves the table sorted; its key is not found any more,
  -- and under each other key what was found before.
  pub remove_item-removes :
      (t : Table) (item : Item)
      → IsTable t
      → get t item.key ≡ some item
      → IsTable (remove_item hash t item)
        × ((key : ℕ)
            → get (remove_item hash t item) key ≡ (if item.key == key then none else get t key))
  unfolding remove_item
  remove_item-removes t item v h = (
    set-IsTable t (hash item.key) (delete_chain item chain) v
        (delete-IsSorted chain none item sorted),
    λ key.
        set-get t item.key key (delete_chain item chain) none
          (find-delete chain item none key sorted h),
  )
    where
      chain : List Item
      chain = t.bucket (hash item.key)

      sorted : IsSorted none chain
      sorted = v (hash item.key)

  pub find-key : (es : List Item) (k : ℕ) (item : Item) → find_chain k es ≡ some item → item.key ≡ k
  unfolding find_chain
  find-key [] k item h = cc
  find-key (e ∷ es) k item h = ground (arith, find-key es k item)

  abbrev pub Removed : Table → ℕ → Outcome Table → Type 0
  Removed t k (err e) = (e ≡ einval) × (get t k ≡ none)
  Removed t k (ok t') =
      IsTable t' × ((key : ℕ) → get t' key ≡ (if k == key then none else get t key))

  -- Removing a key fails, with EINVAL, exactly when the table does not hold it; otherwise it is not
  -- found any more, and under each other key what was found before.
  pub remove_key-Removed : (t : Table) (k : ℕ) → IsTable t → Removed t k (remove_key hash t k)
  unfolding remove_key
  remove_key-Removed t k v = go (get t k) refl
    where
      go : (o : Option Item) → get t k ≡ o → Removed t k (remove_key hash t k)
      go none e = rw (e, remove_key) (refl, e)
      go (some item) e =
          let at_k : item.key ≡ k = find-key (t.bucket (hash k)) k item e in
          let gone = remove_item-removes t item v (subst (λ j. get t j ≡ some item) (sym at_k) e) in
          rw (e, remove_key) (subst (λ j. Removed t j (ok (remove_item hash t item))) at_k gone)
