-- ===== src/Validate/Clear.antt =====
-- Clearing a submission gives back what was taken.
use vmwgfx.Prelude.{
  ℕ, suc, ◌+◌, ◌-◌, ◌%◌, ◌≤◌, ◌≡◌, refl, sym, none, ◌∙◌, ap, Bool, List, [], ◌∷◌, arith, sub32,
  u32_mod, length,
}
use vmwgfx.Hashtab.{Table, remove_item}
use vmwgfx.Validate.{
  ValBuf, ResNode, Context, item, count_at, clear_bufs, clear_resources, clear_validations,
  resource_list_unreference, give_up, max_validations,
}
use vmwgfx.Validate.Listed.{IsContext, uses, res_uses}
use vmwgfx.Validate.Emptied.{bos, ress, remove_keys, removed-Empty}
use vmwgfx.Hashtab.Lookup.{IsTable, get}
use mathlib.Core.Path.{subst}

-- What is left: no buffer or resource is listed or counted, the table is empty, and every buffer and
-- every resource has the references it had.
pub record Cleared (hash : ℕ → ℕ) (base : ℕ → ℕ) (c : Context) : Type 0 where
  pub val_bufs : c.val_bufs ≡ []
  pub cur_val_buf : c.cur_val_buf ≡ 0
  pub resource_list : c.resource_list ≡ []
  pub sorted : IsTable c.res_ht
  pub empty : (key : ℕ) → get hash c.res_ht key ≡ none
  pub fill : c.res_ht.fill ≡ 0
  pub refs : (a : ℕ) → c.refs a ≡ base a

module _ (hash : ℕ → ℕ) where
  remove_item-fill :
      (t : Table) (key owner : ℕ) → (remove_item hash t (item key owner)).fill ≡ sub32 t.fill 1
  unfolding remove_item
  remove_item-fill t key owner = refl

  clear_resources-fill :
      (i : ℕ) (ns : List ResNode) (c : Context)
      → c.res_ht.fill ≡ length ns % u32_mod
      → ((clear_resources hash i ns c).res_ht.fill ≡ 0)
        × ((clear_resources hash i ns c).refs ≡ c.refs)
        × ((clear_resources hash i ns c).cur_val_buf ≡ c.cur_val_buf)
  unfolding clear_resources
  clear_resources-fill i [] c h = (ground (arith, h), refl, refl)
  clear_resources-fill i (n ∷ ns) c h =
      clear_resources-fill (suc i) ns
        (record c { res_ht = remove_item hash c.res_ht (item n.res i) })
        (ground (arith, h, remove_item-fill c.res_ht n.res i))

  -- the buffers from the `i`-th on are still to be cleared
  record Clearing (base : ℕ → ℕ) (bs : List ValBuf) (c : Context) : Type 0 where
    count : c.cur_val_buf ≡ length bs
    room : length bs ≤ max_validations
    fill : c.res_ht.fill ≡ (length bs + length c.resource_list) % u32_mod
    refs : (bo : ℕ) → c.refs bo ≡ base bo + uses bo bs

  clear_bufs-Clearing :
      (base : ℕ → ℕ) (i : ℕ) (bs : List ValBuf) (c : Context)
      → Clearing base bs c
      → Clearing base [] (clear_bufs hash i bs c)
        × ((clear_bufs hash i bs c).resource_list ≡ c.resource_list)
  unfolding clear_bufs
  clear_bufs-Clearing base i [] c v = (v, refl)
  clear_bufs-Clearing base i (b ∷ bs) c v =
      clear_bufs-Clearing base (suc i) bs
        (record c {
          refs = count_at (λ n. n - 1) b.bo c.refs;
          res_ht = remove_item hash c.res_ht (item b.bo i);
          cur_val_buf = sub32 c.cur_val_buf 1;
        })
        record {
          count = ground (arith, v.count, v.room);
          room = omega (arith, v.room);
          fill = ground (arith, v.fill, remove_item-fill c.res_ht b.bo i);
          refs = λ bo. ground (arith, v.refs bo);
        }

  clear_bufs-table :
      (i : ℕ) (bs : List ValBuf) (c : Context)
      → (clear_bufs hash i bs c).res_ht ≡ remove_keys hash c.res_ht i (bos bs)
  unfolding clear_bufs
  clear_bufs-table i [] c = refl
  clear_bufs-table i (b ∷ bs) c = clear_bufs-table (suc i) bs (record c {
    refs = count_at (λ n. n - 1) b.bo c.refs;
    res_ht = remove_item hash c.res_ht (item b.bo i);
    cur_val_buf = sub32 c.cur_val_buf 1;
  })

  clear_resources-table :
      (i : ℕ) (ns : List ResNode) (c : Context)
      → clear_resources hash i ns c ≡ record c { res_ht = remove_keys hash c.res_ht i (ress ns) }
  unfolding clear_resources
  clear_resources-table i [] c = refl
  clear_resources-table i (n ∷ ns) c =
      clear_resources-table (suc i) ns
        (record c { res_ht = remove_item hash c.res_ht (item n.res i) })

  unreference-refs :
      (base : ℕ → ℕ) (ns : List ResNode) (c : Context)
      → ((a : ℕ) → c.refs a ≡ base a + res_uses a ns)
      → (refs : ℕ → ℕ) × (resource_list_unreference ns c ≡ record c { refs = refs })
        × ((a : ℕ) → refs a ≡ base a)
  unfolding resource_list_unreference
  unreference-refs base [] c h = (c.refs, refl, λ a. omega (arith, h a))
  unreference-refs base (n ∷ ns) c h =
      unreference-refs base ns (record c { refs = count_at (λ k. k - 1) n.res c.refs })
        (λ a. ground (arith, h a))

  -- The end of a submission gives up all that it took: every buffer and every resource has again the
  -- references that it had before, no buffer or resource is listed any more, and the table finds no
  -- key. So neither BUG_ON of `vmw_clear_validations` is met, and the next submission starts from an
  -- empty table. It supposes that the lists and the table agree, as the additions of buffers and
  -- resources leave them.
  pub give_up-Cleared :
      (is_bo : ℕ → Bool) (base : ℕ → ℕ) (c : Context)
      → IsContext hash is_bo base c
      → Cleared hash base (give_up hash c)
  unfolding give_up clear_validations
  give_up-Cleared is_bo base c v =
      let start : Clearing (λ a. base a + res_uses a c.resource_list) c.val_bufs c = record {
        count = v.count;
        room = ground (arith, v.count, v.room);
        fill = v.fill;
        refs = λ a. omega (arith, v.refs a);
      } in
      let (d, same) =
        clear_bufs-Clearing (λ a. base a + res_uses a c.resource_list) 0 c.val_bufs c start in
      let c1 : Context = record (clear_bufs hash 0 c.val_bufs c) { val_bufs = [] } in
      let c2 : Context = clear_resources hash 0 c1.resource_list c1 in
      let (f, r, n) = clear_resources-fill 0 c1.resource_list c1 (ground (arith, d.fill)) in
      let whole = clear_resources-table 0 c1.resource_list c1 in
      let table : c2.res_ht
          ≡ remove_keys hash (remove_keys hash c.res_ht 0 (bos c.val_bufs)) 0
              (ress c.resource_list) =
        ap (λ (x : Context). x.res_ht) whole
        ∙ ap (λ t. remove_keys hash t 0 (ress c1.resource_list)) (clear_bufs-table 0 c.val_bufs c)
        ∙ ap (λ l. remove_keys hash (remove_keys hash c.res_ht 0 (bos c.val_bufs)) 0 (ress l))
            same in
      let (sorted, empty) = removed-Empty hash is_bo base c v in
      let kept : c2.resource_list ≡ c.resource_list =
        ap (λ (x : Context). x.resource_list) whole ∙ same in
      let c3 : Context = record c2 { resource_list = [] } in
      let (refs, q, back) = unreference-refs base c2.resource_list c3 (λ a.
        ap (λ g. g a) r ∙ d.refs a ∙ omega arith ∙ ap (λ l. base a + res_uses a l) (sym kept)) in
      subst (Cleared hash base) (sym q) record {
        val_bufs = ap (λ (x : Context). x.val_bufs) whole;
        cur_val_buf = n ∙ d.count;
        resource_list = refl;
        sorted = subst IsTable (sym table) sorted;
        empty = λ key. subst (λ t. get hash t key ≡ none) (sym table) (empty key);
        fill = f;
        refs = back;
      }
