-- ===== src/CmdbufRes/Removal.antt =====
-- Reverting a removal that was staged.
use mathlib.Core.Path.{subst}
use vmwgfx.Prelude.{
  ℕ, ◌≡◌, refl, sym, ◌∙◌, ap, [], ◌∷◌, Option, none, some, arith, ◌==◌, ==_refl, if◌then◌else◌,
  Outcome, ok, err, einval,
}
use native.Mathlib.Decide.{ℕ_discrete}
use vmwgfx.Hashtab.{Item, Table, find_item, insert_item}
use vmwgfx.Hashtab.Lookup.{
  IsTable, get, find_item_lem, Inserted, insert_item-Inserted, remove_item-removes, find-key,
}
use vmwgfx.CmdbufRes.{
  commited, del, Entry, Man, unlink, item_of, key_of, res_remove, stage_removal, list_del,
  set_state, revert, reinsert, restore_entry,
}
use vmwgfx.CmdbufRes.Stage.{update_self, entry_at}
use vmwgfx.CmdbufRes.Undo.{IsQuiet, Restores, revert_loop-one, revert_entry-del}

module _ (hash : ℕ → ℕ) where
  -- the staged removal of entry `i`, which the table holds
  module _ (m : Man) (i : ℕ) (v : IsQuiet m)
      (held : entry_at hash m (item_of m i).key ≡ some (item_of m i)) where
    unfoldable pub gone : Man
    gone = stage_removal hash i m

    pub gone-staged : gone.staged ≡ i ∷ []
    unfolding gone stage_removal list_del set_state unlink
    gone-staged = rw v.quiet

    pub gone-entry : gone.entries i ≡ record (m.entries i) { state = del }
    unfolding gone stage_removal list_del set_state
    gone-entry = update_self _ i _

    pub gone-removed :
        IsTable gone.resources
        × ((key : ℕ)
            → get hash gone.resources key
              ≡ (if (m.entries i).key == key then none else entry_at hash m key))
    unfolding gone stage_removal list_del set_state
    gone-removed = remove_item-removes hash m.resources (item_of m i) v.table held

    gone-item : item_of gone i ≡ item_of m i
    gone-item = ap (λ (e : Entry). let x : Item = record { key = e.key; owner = i } in x) gone-entry

    back : Table
    back = reinsert hash i gone

    Back : Type 0
    Back = (key : ℕ) → get hash back key ≡ entry_at hash m key

    gone-back : Back
    unfolding back Back reinsert
    gone-back =
        go (insert_item hash gone.resources (item_of gone i)) refl
          (insert_item-Inserted hash gone.resources (item_of gone i) gone-removed.0)
      where
        go :
            (o : Outcome Table)
            → insert_item hash gone.resources (item_of gone i) ≡ o
            → Inserted hash gone.resources (item_of gone i) o
            → Back
        go (err e) q p key = absurd (
            ground (
              arith,
              p.1,
              gone-removed.1 (gone.entries i).key,
              ap (λ (e : Entry). e.key) gone-entry,
            ))
        go (ok t) q p key =
            rw (q, reinsert)
              (elim (ℕ_discrete (m.entries i).key key) [
                | yes same ↦ ground (
                  arith,
                  p.2 key,
                  gone-item,
                  gone-removed.1 key,
                  ap (λ (e : Entry). e.key) gone-entry,
                  held,
                  ap (λ j. entry_at hash m j) same,
                )
                | no other ↦
                    ground
                      (arith, p.2 key, gone-removed.1 key, ap (λ (e : Entry). e.key) gone-entry)
              ])

    restored : Man
    restored = restore_entry hash i gone

    restored-staged : restored.staged ≡ []
    unfolding restored restore_entry list_del set_state unlink
    restored-staged = rw (gone-staged, unlink) (rw (==_refl i))

    restored-lookups : (key : ℕ) → entry_at hash restored key ≡ entry_at hash m key
    unfolding restored restore_entry list_del set_state back Back
    restored-lookups = gone-back

    restored-refs : (r : ℕ) → restored.refs r ≡ m.refs r
    unfolding restored restore_entry list_del set_state gone stage_removal
    restored-refs r = refl

    restored-state : (restored.entries i).state ≡ commited
    unfolding restored restore_entry list_del set_state
    restored-state = ap (λ (e : Entry). e.state) (update_self gone.entries i _)

    revert-gone : revert hash gone ≡ some restored
    unfolding restored
    revert-gone =
        revert_loop-one hash gone _ i gone-staged
          (revert_entry-del hash gone i (ap (λ (e : Entry). e.state) gone-entry))

  pub res_remove-commited :
      (m : Man) (res_type user_key : ℕ) (item : Item)
      → entry_at hash m (key_of res_type user_key) ≡ some item
      → (m.entries item.owner).state ≡ commited
      → res_remove hash res_type user_key m ≡ some (ok tt, stage_removal hash item.owner m)
  unfolding res_remove
  res_remove-commited m res_type user_key item h c = rw (found, res_remove) (rw (c, res_remove))
    where
      found : find_item hash m.resources (key_of res_type user_key) ≡ ok item
      found =
          find_item_lem hash m.resources (key_of res_type user_key)
          ∙ ap
              (λ (o : Option Item).
                let x : Outcome Item = elim o [ none ↦ err einval | some it ↦ ok it ] in x)
              h

  -- A removal of a committed entry is undone by a revert: afterwards every key finds what it found
  -- before, nothing is staged, each resource has as many references, and the entry is committed.
  -- It supposes that nothing was staged before.
  pub res_remove-revert :
      (m : Man) (i res_type user_key : ℕ)
      → IsQuiet m
      → entry_at hash m (key_of res_type user_key) ≡ some (item_of m i)
      → (m.entries i).state ≡ commited
      → (m1 : Man) × (m2 : Man) × (res_remove hash res_type user_key m ≡ some (ok tt, m1))
        × (revert hash m1 ≡ some m2)
        × Restores hash m m2
        × ((m2.entries i).state ≡ commited)
  unfolding gone
  res_remove-revert m i res_type user_key v h c =
      let k = key_of res_type user_key in
      let at_k = find-key hash (m.resources.bucket (hash k)) k (item_of m i) h in
      let held = subst (λ j. entry_at hash m j ≡ some (item_of m i)) (sym at_k) h in
      (
        stage_removal hash i m,
        restored m i v held,
        res_remove-commited m res_type user_key (item_of m i) h c,
        revert-gone m i v held,
        record {
          lookups = restored-lookups m i v held;
          quiet = restored-staged m i v held;
          refs = restored-refs m i v held;
        },
        restored-state m i v held,
      )
