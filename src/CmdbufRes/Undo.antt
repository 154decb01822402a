-- ===== src/CmdbufRes/Undo.antt =====
-- Reverting an addition that was staged.
use mathlib.Core.Path.{subst}
use vmwgfx.Prelude.{
  ℕ, ◌+◌, ◌-◌, ◌≡◌, refl, sym, ◌∙◌, ap, false, [], ◌∷◌, none, some, arith, ◌==◌, ==_refl,
  if◌then◌else◌, Outcome, ok, err,
}
use native.Mathlib.Decide.{ℕ_discrete}
use vmwgfx.Hashtab.{Item, Table, insert_item}
use vmwgfx.Hashtab.Lookup.{IsTable, get, Inserted, insert_item-Inserted, remove_item-removes}
use vmwgfx.CmdbufRes.{
  add, del, Entry, Man, update, unlink, item_of, key_of, res_add, stage_entry, alloc_entry,
  list_del, reference, unreference, revert, revert_loop, revert_entry, res_free, kfree,
  restore_entry,
}
use vmwgfx.CmdbufRes.Stage.{update_self, entry_at}

-- A manager with nothing staged.
pub record IsQuiet (m : Man) : Type 0 where
  pub table : IsTable m.resources
  pub quiet : m.staged ≡ []

module _ (hash : ℕ → ℕ) where
  -- The committed state of `m` is that of `m'`: the same lookups, nothing staged, and as many
  -- references to each resource.
  pub record Restores (m m' : Man) : Type 0 where
    pub lookups : (key : ℕ) → entry_at hash m' key ≡ entry_at hash m key
    pub quiet : m'.staged ≡ []
    pub refs : (r : ℕ) → m'.refs r ≡ m.refs r

  pub revert_loop-one :
      (m n : Man) (i : ℕ)
      → m.staged ≡ i ∷ []
      → revert_entry hash i m ≡ some n
      → revert hash m ≡ some n
  unfolding revert revert_loop
  revert_loop-one m n i one h = ap (λ l. revert_loop hash l m) one ∙ rw (h, revert_loop)

  pub revert_entry-add :
      (m : Man) (i : ℕ)
      → (m.entries i).state ≡ add
      → revert_entry hash i m ≡ some (res_free hash i m)
  unfolding revert_entry
  revert_entry-add m i h = rw (h, revert_entry)

  pub revert_entry-del :
      (m : Man) (i : ℕ)
      → (m.entries i).state ≡ del
      → revert_entry hash i m ≡ some (restore_entry hash i m)
  unfolding revert_entry
  revert_entry-del m i h = rw (h, revert_entry)

  -- Freeing the one staged entry, which the table holds.
  pub res_free-lookups :
      (m : Man) (i key : ℕ)
      → IsTable m.resources
      → entry_at hash m (item_of m i).key ≡ some (item_of m i)
      → entry_at hash (res_free hash i m) key
        ≡ (if (m.entries i).key == key then none else entry_at hash m key)
  unfolding res_free list_del unreference kfree
  res_free-lookups m i key v h = (remove_item-removes hash m.resources (item_of m i) v h).1 key

  res_free-staged : (m : Man) (i : ℕ) → m.staged ≡ i ∷ [] → (res_free hash i m).staged ≡ []
  unfolding res_free list_del unreference kfree unlink
  res_free-staged m i one = rw (one, unlink) (rw (==_refl i))

  res_free-refs :
      (m : Man) (i r : ℕ)
      → (res_free hash i m).refs r
        ≡ (if r == (m.entries i).res then m.refs (m.entries i).res - 1 else m.refs r)
  unfolding res_free list_del unreference kfree update
  res_free-refs m i r = refl

  -- the staged addition of entry `i`, where the table took it
  module _ (m : Man) (i key res : ℕ) (t : Table) (v : IsQuiet m)
      (took : Inserted hash m.resources (record { key = key; owner = i }) (ok t)) where
    added : Man
    added = stage_entry i key res (record (alloc_entry i key m) { resources = t })

    entry : added.entries i ≡ record { key = key; state = add; res = res }
    unfolding added stage_entry reference alloc_entry
    entry = update_self _ i _

    added-staged : added.staged ≡ i ∷ []
    unfolding added stage_entry reference alloc_entry
    added-staged = rw v.quiet

    added-resources : added.resources ≡ t
    unfolding added stage_entry reference alloc_entry
    added-resources = refl

    added-refs : (r : ℕ) → added.refs r ≡ (if r == res then m.refs res + 1 else m.refs r)
    unfolding added stage_entry reference alloc_entry update
    added-refs r = refl

    item-eq : item_of added i ≡ record { key = key; owner = i }
    item-eq = ap (λ (e : Entry). let x : Item = record { key = e.key; owner = i } in x) entry

    added-found : entry_at hash added (item_of added i).key ≡ some (item_of added i)
    unfolding added stage_entry reference alloc_entry
    added-found =
        subst (λ it. get hash t it.key ≡ some it) (sym item-eq) (took.2 key ∙ rw (==_refl key))

    lookups : (k : ℕ) → entry_at hash (res_free hash i added) k ≡ entry_at hash m k
    unfolding added stage_entry reference alloc_entry
    lookups k = res_free-lookups added i k took.0 added-found ∙ (elim (ℕ_discrete key k) [
      | yes same ↦
          ground (arith, ap (λ (e : Entry). e.key) entry, took.1, ap (λ q. entry_at hash m q) same)
      | no other ↦ ground (arith, ap (λ (e : Entry). e.key) entry, took.2 k)
    ])

    refs : (r : ℕ) → (res_free hash i added).refs r ≡ m.refs r
    refs r = ground (
      arith,
      res_free-refs added i r,
      ap (λ (e : Entry). e.res) entry,
      added-refs r,
      added-refs res,
    )

    added-Restores : Restores m (res_free hash i added)
    added-Restores = record {
      lookups = lookups;
      quiet = res_free-staged added i added-staged;
      refs = refs;
    }

    revert-added : revert hash added ≡ some (res_free hash i added)
    revert-added =
        revert_loop-one added _ i added-staged
          (revert_entry-add added i (ap (λ (e : Entry). e.state) entry))

  pub res_add-ok :
      (m : Man) (i res_type user_key res : ℕ) (t : Table)
      → insert_item hash m.resources (record { key = key_of res_type user_key; owner = i }) ≡ ok t
      → res_add hash (some i) res_type user_key res m ≡ (
        ok tt,
        stage_entry i
            (key_of res_type user_key)
            res
            (record (alloc_entry i (key_of res_type user_key) m) { resources = t }),
      )
  unfolding res_add alloc_entry
  res_add-ok m i res_type user_key res t q = rw (q, res_add)

  res_free-live : (m : Man) (i : ℕ) → (res_free hash i m).live i ≡ false
  unfolding res_free list_del unreference kfree
  res_free-live m i = update_self m.live i false

  -- An addition that the manager takes is undone by a revert: afterwards every key finds what it
  -- found before, nothing is staged, each resource has as many references, and the new entry is
  -- freed. It supposes that nothing was staged before and that the key was not taken.
  pub res_add-revert :
      (m : Man) (i res_type user_key res : ℕ)
      → IsQuiet m
      → entry_at hash m (key_of res_type user_key) ≡ none
      → (m1 : Man) × (m2 : Man) × (res_add hash (some i) res_type user_key res m ≡ (ok tt, m1))
        × (revert hash m1 ≡ some m2)
        × Restores m m2
        × (m2.live i ≡ false)
  unfolding added
  res_add-revert m i res_type user_key res v free =
      go (insert_item hash m.resources item) refl
        (insert_item-Inserted hash m.resources item v.table)
    where
      k : ℕ
      k = key_of res_type user_key

      item : Item
      item = record { key = k; owner = i }

      go :
          (o : Outcome Table)
          → insert_item hash m.resources item ≡ o
          → Inserted hash m.resources item o
          → (m1 : Man) × (m2 : Man) × (res_add hash (some i) res_type user_key res m ≡ (ok tt, m1))
            × (revert hash m1 ≡ some m2)
            × Restores m m2
            × (m2.live i ≡ false)
      go (err e) q p = absurd (ground (arith, p.1))
      go (ok t) q p = (
        added m i k res t v p,
        res_free hash i (added m i k res t v p),
        res_add-ok m i res_type user_key res t q,
        revert-added m i k res t v p,
        added-Restores m i k res t v p,
        res_free-live (added m i k res t v p) i,
      )
