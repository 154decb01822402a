-- ===== src/CmdbufRes.antt =====
-- Command buffer managed resources (vmwgfx_cmdbuf_res.c): additions and removals are staged while a
-- command stream is checked, and committed or reverted when its fate is known. The manager keeps a
-- hash table (drm_hashtab.c) of entries and the list of committed ones. An entry is its identity,
-- a number; `entries` holds what is stored there, `live` whether it is allocated. `refs` counts the
-- references to each resource that the driver holds.
pub mod Undo
pub mod Removal
mod Tests
pub mod Stage
pub mod Readd
use Prim.Native.Nat.{bit_or}
use vmwgfx.Prelude.{
  ℕ, ◌+◌, ◌-◌, ◌*◌, ◌%◌, ◌^◌, Bool, true, false, List, [], ◌∷◌, ◌++◌, Option, none, some, ◌==◌,
  if◌then◌else◌, u32_mod, Outcome, ok, err, Errno, enomem, einval,
}
use vmwgfx.Hashtab.{Item, Table, create, find_item, insert_item, remove_item}

-- `enum vmw_cmdbuf_res_state`
pub data State : Type 0 where
  commited add del : State

-- `struct vmw_cmdbuf_res`
pub record Entry : Type 0 where
  pub key : ℕ
  pub state : State
  pub res : ℕ

-- `struct vmw_cmdbuf_res_manager` with the caller's staging list, `staged`
pub record Man : Type 0 where
  pub resources : Table
  pub list : List ℕ
  pub staged : List ℕ
  pub entries : ℕ → Entry
  pub live : ℕ → Bool
  pub refs : ℕ → ℕ

-- one value of a function changed
unfoldable pub update {ℓ} : {A : Type ℓ} → (ℕ → A) → ℕ → A → ℕ → A
update f i a j = if j == i then a else f j

-- `list_del` of an entry from the list that it is on
unfoldable pub unlink : ℕ → List ℕ → List ℕ
unlink i [] = []
unlink i (j ∷ js) = if j == i then js else j ∷ unlink i js

unfoldable pub list_del : ℕ → Man → Man
list_del i m = record m { list = unlink i m.list; staged = unlink i m.staged }

-- the `hash` member of an entry
abbrev pub item_of : Man → ℕ → Item
item_of m i = record { key = (m.entries i).key; owner = i }

-- `vmw_resource_reference` and `vmw_resource_unreference`
unfoldable pub reference : ℕ → Man → Man
reference r m = record m { refs = update m.refs r (m.refs r + 1) }

unfoldable pub unreference : ℕ → Man → Man
unreference r m = record m { refs = update m.refs r (m.refs r - 1) }

unfoldable pub kfree : ℕ → Man → Man
kfree i m = record m { live = update m.live i false }

unfoldable pub set_state : ℕ → State → Man → Man
set_state i s m = record m { entries = update m.entries i (record (m.entries i) { state = s }) }

-- `user_key | (res_type << 24)`
unfoldable pub key_of : (res_type user_key : ℕ) → ℕ
key_of res_type user_key = bit_or user_key (res_type * 2 ^ 24 % u32_mod)

-- `kzalloc` of an entry, and its key
unfoldable pub alloc_entry : ℕ → (key : ℕ) → Man → Man
alloc_entry i key m = record m {
  entries = update m.entries i (record { key = key; state = commited; res = 0 });
  live = update m.live i true;
}

-- the end of `vmw_cmdbuf_res_add`
unfoldable pub stage_entry : ℕ → (key res : ℕ) → Man → Man
stage_entry i key res n = reference res (record n {
  entries = update n.entries i (record { key = key; state = add; res = res });
  staged = n.staged ++ (i ∷ []);
})

module _ (hash : ℕ → ℕ) where
  -- `vmw_cmdbuf_res_lookup`
  unfoldable pub lookup : Man → (res_type user_key : ℕ) → Outcome ℕ × Man
  lookup m res_type user_key = elim (find_item hash m.resources (key_of res_type user_key)) [
    | err e ↦ (err e, m)
    | ok item ↦ (ok (m.entries item.owner).res, reference (m.entries item.owner).res m)
  ]

  -- `vmw_cmdbuf_res_free`
  unfoldable pub res_free : ℕ → Man → Man
  res_free i m =
      let m' = list_del i m in
      kfree i (
        unreference (m.entries i).res
          (record m' { resources = remove_item hash m'.resources (item_of m i) }))

  -- a round of the loop of `vmw_cmdbuf_res_commit`; `none` is its `BUG`
  unfoldable pub commit_entry : ℕ → Man → Option Man
  commit_entry i m =
      let m' = list_del i m in
      elim (m.entries i).state [
        | add ↦ some (let n = set_state i commited m' in record n { list = n.list ++ (i ∷ []) })
        | del ↦ some (kfree i (unreference (m.entries i).res m'))
        | commited ↦ none
      ]

  unfoldable pub commit_loop : List ℕ → Man → Option Man
  commit_loop [] m = some m
  commit_loop (i ∷ is) m = elim (commit_entry i m) [ none ↦ none | some m' ↦ commit_loop is m' ]

  -- `vmw_cmdbuf_res_commit`
  unfoldable pub commit : Man → Option Man
  commit m = commit_loop m.staged m

  -- the table after the insertion, whose result the caller does not look at
  unfoldable pub reinsert : ℕ → Man → Table
  reinsert i m = elim (insert_item hash m.resources (item_of m i)) [
    | ok t ↦ t
    | err e ↦ m.resources
  ]

  -- the revert of a removal
  unfoldable pub restore_entry : ℕ → Man → Man
  restore_entry i m =
      let n = list_del i (record m { resources = reinsert i m }) in
      set_state i commited (record n { list = n.list ++ (i ∷ []) })

  -- a round of the loop of `vmw_cmdbuf_res_revert`
  unfoldable pub revert_entry : ℕ → Man → Option Man
  revert_entry i m = elim (m.entries i).state [
    | add ↦ some (res_free i m)
    | del ↦ some (restore_entry i m)
    | commited ↦ none
  ]

  unfoldable pub revert_loop : List ℕ → Man → Option Man
  revert_loop [] m = some m
  revert_loop (i ∷ is) m = elim (revert_entry i m) [ none ↦ none | some m' ↦ revert_loop is m' ]

  -- `vmw_cmdbuf_res_revert`
  unfoldable pub revert : Man → Option Man
  revert m = revert_loop m.staged m

  -- `vmw_cmdbuf_res_add`; `alloc` is what `kzalloc` returns
  unfoldable pub res_add :
      (alloc : Option ℕ) → (res_type user_key res : ℕ) → Man → Outcome (Unit {0}) × Man
  res_add none res_type user_key res m = (err enomem, m)
  res_add (some i) res_type user_key res m =
      let key = key_of res_type user_key in
      let n = alloc_entry i key m in
      elim (insert_item hash n.resources (record { key = key; owner = i })) [
        | err e ↦ (err e, n)
        | ok t ↦ (ok tt, stage_entry i key res (record n { resources = t }))
      ]

  -- the removal of a committed entry
  unfoldable pub stage_removal : ℕ → Man → Man
  stage_removal i m =
      let n = list_del i (record m { resources = remove_item hash m.resources (item_of m i) }) in
      set_state i del (record n { staged = n.staged ++ (i ∷ []) })

  -- `vmw_cmdbuf_res_remove`; `none` is its `BUG`
  unfoldable pub res_remove : (res_type user_key : ℕ) → Man → Option (Outcome (Unit {0}) × Man)
  res_remove res_type user_key m = elim (find_item hash m.resources (key_of res_type user_key)) [
    | err e ↦ some (err einval, m)
    | ok item ↦ elim (m.entries item.owner).state [
      | add ↦ some (ok tt, res_free item.owner m)
      | commited ↦ some (ok tt, stage_removal item.owner m)
      | del ↦ none
    ]
  ]

  -- the loop of `vmw_cmdbuf_res_man_destroy`
  unfoldable pub destroy_loop : List ℕ → Man → Man
  destroy_loop [] m = m
  destroy_loop (i ∷ is) m = destroy_loop is (res_free i m)

  -- `vmw_cmdbuf_res_man_destroy`, before the manager itself is freed
  unfoldable pub man_destroy : Man → Man
  man_destroy m = destroy_loop m.list m
