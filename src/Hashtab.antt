-- ===== src/Hashtab.antt =====
-- The chained hash table (drm_hashtab.c). The table is a function from bucket numbers to chains; an
-- item is its key and its owner, the identity of the structure that embeds it. `hash_long` is the
-- kernel's: a parameter, the bucket of a key.
pub mod Chain
pub mod Lookup
pub mod Keys
mod Tests
use vmwgfx.Prelude.{
  ℕ, zero, suc, ◌+◌, ◌-◌, ◌*◌, ◌%◌, ◌^◌, Bool, true, false, List, [], ◌∷◌, Option, none, some, ltb,
  ◌==◌, ◌&&◌, if◌then◌else◌, add32, sub32, add64, u64_mod, Outcome, ok, err, einval,
}

-- `struct drm_hash_item`
pub record Item : Type 0 where
  pub key : ℕ
  pub owner : ℕ

-- `struct drm_open_hash`, less what only says how the memory was allocated
pub record Table : Type 0 where
  pub size : ℕ
  pub order : ℕ
  pub fill : ℕ
  pub bucket : ℕ → List Item

-- `drm_ht_create`, when memory is to be had
unfoldable pub create : (order : ℕ) → Table
create order = record { size = 2 ^ order; order = order; fill = 0; bucket = λ i. [] }

-- the walk of `drm_ht_find_key` and `drm_ht_find_key_rcu` along a chain
unfoldable pub find_chain : (key : ℕ) → List Item → Option Item
find_chain key [] = none
find_chain key (entry ∷ es) =
    if entry.key == key then some entry else if ltb key entry.key then none else find_chain key es

abbrev pub behind : Item → Option (List Item) → Option (List Item)
behind entry none = none
behind entry (some c) = some (entry ∷ c)

-- The walk of `drm_ht_insert_item`: behind the last entry with a smaller key, and `none` if an
-- entry has the key.
unfoldable pub insert_chain : Item → List Item → Option (List Item)
insert_chain item [] = some (item ∷ [])
insert_chain item (entry ∷ es) =
    let later = behind entry (insert_chain item es) in
    if entry.key == item.key
    then none
    else if ltb item.key entry.key
    then some (item ∷ entry ∷ es)
    else later

-- `hlist_del_init_rcu` of the item of this key and owner
unfoldable pub delete_chain : Item → List Item → List Item
delete_chain item [] = []
delete_chain item (entry ∷ es) =
    if entry.key == item.key && entry.owner == item.owner then es else entry ∷ delete_chain item es

unfoldable pub set_bucket : Table → ℕ → List Item → Table
set_bucket t i c = record t { bucket = λ j. if j == i then c else t.bucket j }

module _ (hash : ℕ → ℕ) where
  -- `drm_ht_find_item`
  unfoldable pub find_item : Table → (key : ℕ) → Outcome Item
  find_item t key = elim (find_chain key (t.bucket (hash key))) [
    | none ↦ err einval
    | some item ↦ ok item
  ]

  -- `drm_ht_insert_item`
  unfoldable pub insert_item : Table → Item → Outcome Table
  insert_item t item = elim (insert_chain item (t.bucket (hash item.key))) [
    | none ↦ err einval
    | some c ↦ ok (record (set_bucket t (hash item.key) c) { fill = add32 t.fill 1 })
  ]

  -- `drm_ht_remove_item`
  unfoldable pub remove_item : Table → Item → Table
  remove_item t item =
      record (set_bucket t (hash item.key) (delete_chain item (t.bucket (hash item.key)))) {
        fill = sub32 t.fill 1;
      }

  -- `drm_ht_remove_key`
  unfoldable pub remove_key : Table → (key : ℕ) → Outcome Table
  remove_key t key = elim (find_chain key (t.bucket (hash key))) [
    | none ↦ err einval
    | some item ↦ ok (remove_item t item)
  ]

  -- the key that a round of `drm_ht_just_insert_please` tries
  abbrev pub shifted : (shift add unshifted : ℕ) → ℕ
  shifted shift add unshifted = add64 (unshifted * 2 ^ shift % u64_mod) add

  -- Its loop, on fuel, from `unshifted`, until it comes round to `first`; `none` if the fuel ends.
  -- It gives the key with the table.
  unfoldable pub insert_loop :
      (fuel : ℕ) → Table → (owner bits shift add first unshifted : ℕ) → Option (Outcome (ℕ × Table))
  insert_loop zero t owner bits shift add first unshifted = none
  insert_loop (suc fuel) t owner bits shift add first unshifted =
      let key = shifted shift add unshifted in
      let next = (unshifted + 1) % 2 ^ bits in
      elim (insert_item t (record { key = key; owner = owner })) [
        | ok t' ↦ some (ok (key, t'))
        | err e ↦ elim (next == first) [
          | true ↦ some (err einval)
          | false ↦ insert_loop fuel t owner bits shift add first next
        ]
      ]

  -- `drm_ht_just_insert_please`; `first` is `hash_long(seed, bits)`, and each of the 2 ^ bits values
  -- is tried once at most
  unfoldable pub just_insert_please :
      Table → (owner first bits shift add : ℕ) → Option (Outcome (ℕ × Table))
  unfolding insert_loop
  just_insert_please t owner first bits shift add =
      insert_loop (2 ^ bits) t owner bits shift add first first
