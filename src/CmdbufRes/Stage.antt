-- ===== src/CmdbufRes/Stage.antt =====
-- What staging an addition and a removal does.
use vmwgfx.Prelude.{ℕ, ◌≡◌, refl, true, Option, some, arith, ==_refl, Outcome, ok, err, einval}
use vmwgfx.Hashtab.{Item, Table, insert_item}
use vmwgfx.Hashtab.Lookup.{IsTable, get, Inserted, insert_item-Inserted}
use vmwgfx.CmdbufRes.{Man, update, key_of, res_add, alloc_entry}

pub update_self {ℓ} : {A : Type ℓ} (f : ℕ → A) (i : ℕ) (a : A) → update f i a i ≡ a
unfolding update
update_self f i a = rw (==_refl i)

module _ (hash : ℕ → ℕ) where
  -- the entry that the table holds under a key
  abbrev pub entry_at : Man → (key : ℕ) → Option Item
  entry_at m key = get hash m.resources key

  -- Adding a key that is taken fails with EINVAL, and what was allocated for it stays allocated,
  -- though no list and no table knows it.
  pub res_add-taken :
      (m : Man) (i res_type user_key res : ℕ) (old : Item)
      → IsTable m.resources
      → entry_at m (key_of res_type user_key) ≡ some old
      → (n : Man) × (res_add hash (some i) res_type user_key res m ≡ (err einval, n))
        × (n.live i ≡ true)
        × (n.resources ≡ m.resources)
        × (n.list ≡ m.list)
        × (n.staged ≡ m.staged)
  unfolding res_add alloc_entry
  res_add-taken m i res_type user_key res old v taken =
      go (insert_item hash m.resources item) refl (insert_item-Inserted hash m.resources item v)
    where
      k : ℕ
      k = key_of res_type user_key

      item : Item
      item = record { key = k; owner = i }

      n : Man
      n = alloc_entry i k m

      go :
          (o : Outcome Table)
          → insert_item hash m.resources item ≡ o
          → Inserted hash m.resources item o
          → (n : Man) × (res_add hash (some i) res_type user_key res m ≡ (err einval, n))
            × (n.live i ≡ true)
            × (n.resources ≡ m.resources)
            × (n.list ≡ m.list)
            × (n.staged ≡ m.staged)
      go (err e) q p = (n, rw (q, res_add) (rw p.0), update_self m.live i true, refl, refl, refl)
      go (ok t) q p = absurd (ground (arith, p.1))
