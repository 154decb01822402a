-- ===== src/CmdbufRes/Readd.antt =====
-- A key that is removed and added again in one command stream.
use mathlib.Core.Path.{subst}
use vmwgfx.Prelude.{
  ℕ, ◌≡◌, ◌≢◌, refl, sym, ◌∙◌, ap, [], ◌∷◌, ◌++◌, none, some, arith, ◌==◌, ==_refl, Bool-cases, inl,
  inr, Outcome, ok, err,
}
use vmwgfx.Hashtab.{Item, Table, insert_item}
use vmwgfx.Hashtab.Lookup.{IsTable, get, Inserted, insert_item-Inserted, find-key}
use vmwgfx.CmdbufRes.{
  commited, add, del, Entry, Man, update, item_of, key_of, res_add, res_remove, stage_entry,
  alloc_entry, list_del, set_state, reference, revert, revert_loop, revert_entry, res_free,
  reinsert, restore_entry,
}
use vmwgfx.CmdbufRes.Stage.{update_self, entry_at}
use vmwgfx.CmdbufRes.Undo.{
  IsQuiet, revert_entry-add, revert_entry-del, res_free-lookups, res_add-ok,
}
use vmwgfx.CmdbufRes.Removal.{gone, gone-staged, gone-entry, gone-removed, res_remove-commited}

update_ne {ℓ} : {A : Type ℓ} (f : ℕ → A) (i : ℕ) (a : A) (j : ℕ) → j ≢ i → update f i a j ≡ f j
unfolding update
update_ne f i a j h = elim (Bool-cases (j == i)) [
  | inl same ↦ absurd (h (ground arith))
  | inr other ↦ rw other
]

module _ (hash : ℕ → ℕ) where
  revert_loop-two :
      (m n o : Man) (i j : ℕ)
      → m.staged ≡ i ∷ j ∷ []
      → revert_entry hash i m ≡ some n
      → revert_entry hash j n ≡ some o
      → revert hash m ≡ some o
  unfolding revert revert_loop
  revert_loop-two m n o i j two h k =
      ap (λ l. revert_loop hash l m) two ∙ rw (h, revert_loop) (rw (k, revert_loop))

  -- entry `i` is removed, then entry `j` is added under its key
  module _ (m : Man) (i j k res : ℕ) (v : IsQuiet m) (at_k : (m.entries i).key ≡ k)
      (held : entry_at hash m (item_of m i).key ≡ some (item_of m i)) (apart : j ≢ i) (t : Table)
      (took : Inserted hash
        (gone hash m i v held).resources
        (record { key = k; owner = j })
        (ok t)) where
    m1 : Man
    m1 = gone hash m i v held

    m2 : Man
    m2 = stage_entry j k res (record (alloc_entry j k m1) { resources = t })

    m2-entry_j : m2.entries j ≡ record { key = k; state = add; res = res }
    unfolding m2 stage_entry reference alloc_entry
    m2-entry_j = update_self _ j _

    m2-entry_i : m2.entries i ≡ record (m.entries i) { state = del }
    unfolding m2 stage_entry reference alloc_entry m1
    m2-entry_i =
        update_ne _ j _ i (λ e. apart (sym e))
        ∙ update_ne _ j _ i (λ e. apart (sym e))
        ∙ gone-entry hash m i v held

    m2-staged : m2.staged ≡ i ∷ j ∷ []
    unfolding m2 stage_entry reference alloc_entry m1
    m2-staged = ap (λ l. l ++ (j ∷ [])) (gone-staged hash m i v held)

    m3 : Man
    m3 = restore_entry hash i m2

    -- the insertion of the old entry fails, and the table stays
    m2-reinsert : reinsert hash i m2 ≡ t
    unfolding reinsert m2 stage_entry reference alloc_entry
    m2-reinsert =
        go (insert_item hash t (item_of m2 i)) refl
          (insert_item-Inserted hash t (item_of m2 i) took.0)
      where
        go :
            (o : Outcome Table)
            → insert_item hash t (item_of m2 i) ≡ o
            → Inserted hash t (item_of m2 i) o
            → reinsert hash i m2 ≡ t
        go (err e) q p = rw (q, reinsert)
        go (ok t') q p = absurd (
            ground
              (arith, p.1, took.2 (m2.entries i).key, ap (λ (e : Entry). e.key) m2-entry_i, at_k))

    m3-resources : m3.resources ≡ t
    unfolding m3 restore_entry list_del set_state
    m3-resources = m2-reinsert

    m3-entry_j : m3.entries j ≡ record { key = k; state = add; res = res }
    unfolding m3 restore_entry list_del set_state
    m3-entry_j = update_ne m2.entries i _ j apart ∙ m2-entry_j

    m4 : Man
    m4 = res_free hash j m3

    m3-item_j : item_of m3 j ≡ record { key = k; owner = j }
    m3-item_j = ap (λ (e : Entry). let x : Item = record { key = e.key; owner = j } in x) m3-entry_j

    t-found : get hash t k ≡ some (record { key = k; owner = j })
    t-found = took.2 k ∙ rw (==_refl k)

    m3-held : entry_at hash m3 (item_of m3 j).key ≡ some (item_of m3 j)
    m3-held =
        subst (λ it. entry_at hash m3 it.key ≡ some it) (sym m3-item_j)
          (ap (λ (u : Table). get hash u k) m3-resources ∙ t-found)

    m4-lost : entry_at hash m4 k ≡ none
    unfolding m4
    m4-lost =
        res_free-lookups hash m3 j k (subst (λ u. IsTable u) (sym m3-resources) took.0) m3-held
        ∙ ground (arith, ap (λ (e : Entry). e.key) m3-entry_j)

    m4-revert : revert hash m2 ≡ some m4
    unfolding m3 m4
    m4-revert =
        revert_loop-two m2 _ _ i j m2-staged
          (revert_entry-del hash m2 i (ap (λ (e : Entry). e.state) m2-entry_i))
          (revert_entry-add hash m3 j (ap (λ (e : Entry). e.state) m3-entry_j))

  -- A committed resource that a command stream removes and whose key it then uses again for another
  -- resource is lost when the stream is reverted: its key finds nothing any more.
  pub revert-readd :
      (m : Man) (i j res_type user_key res : ℕ)
      → IsQuiet m
      → entry_at hash m (key_of res_type user_key) ≡ some (item_of m i)
      → (m.entries i).state ≡ commited
      → j ≢ i
      → (m1 m2 m4 : Man) × (res_remove hash res_type user_key m ≡ some (ok tt, m1))
        × (res_add hash (some j) res_type user_key res m1 ≡ (ok tt, m2))
        × (revert hash m2 ≡ some m4)
        × (entry_at hash m4 (key_of res_type user_key) ≡ none)
  unfolding m1 m2 alloc_entry
  revert-readd m i j res_type user_key res v h c apart =
      go (insert_item hash (gone hash m i v held).resources item) refl (
        insert_item-Inserted hash (gone hash m i v held).resources item
          (gone-removed hash m i v held).0)
    where
      k : ℕ
      k = key_of res_type user_key

      at_k : (m.entries i).key ≡ k
      at_k = find-key hash (m.resources.bucket (hash k)) k (item_of m i) h

      held : entry_at hash m (item_of m i).key ≡ some (item_of m i)
      held = subst (λ q. entry_at hash m q ≡ some (item_of m i)) (sym at_k) h

      item : Item
      item = record { key = k; owner = j }

      first : res_remove hash res_type user_key m ≡ some (ok tt, gone hash m i v held)
      first = unfold gone in res_remove-commited hash m res_type user_key (item_of m i) h c

      go :
          (o : Outcome Table)
          → insert_item hash (gone hash m i v held).resources item ≡ o
          → Inserted hash (gone hash m i v held).resources item o
          → (m1 m2 m4 : Man) × (res_remove hash res_type user_key m ≡ some (ok tt, m1))
            × (res_add hash (some j) res_type user_key res m1 ≡ (ok tt, m2))
            × (revert hash m2 ≡ some m4)
            × (entry_at hash m4 (key_of res_type user_key) ≡ none)
      go (err e) q p = absurd (ground (arith, p.1, (gone-removed hash m i v held).1 k, at_k))
      go (ok t) q p = (
        gone hash m i v held,
        m2 m i j k res v at_k held apart t p,
        m4 m i j k res v at_k held apart t p,
        first,
        res_add-ok hash (gone hash m i v held) j res_type user_key res t q,
        m4-revert m i j k res v at_k held apart t p,
        m4-lost m i j k res v at_k held apart t p,
      )
