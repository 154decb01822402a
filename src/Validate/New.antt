-- ===== src/Validate/New.antt =====
-- A buffer or a resource that is new on the lists.
use Prim.Native.Nat.{bit_or}
use vmwgfx.Prelude.{
  ℕ, suc, ◌<◌, ◌≡◌, refl, sym, Bool, true, false, List, [], ◌∷◌, ◌++◌, Option, none, some, leb,
  ◌==◌, arith, add32, Outcome, ok, err, enomem, length, length-append, get_elem?, Bool-cases, inl,
  inr,
}
use mathlib.Core.Path.{subst}
use vmwgfx.Hashtab.{Item, Table, insert_item, insert_chain, set_bucket}
use vmwgfx.Hashtab.Lookup.{get, find_item_lem, Inserted, insert_item-Inserted}
use vmwgfx.Validate.{
  ValBuf, ResNode, Context, item, count_at, list_new, bo_to_validate_list, resource_val_add, change,
  not_first, max_validations, listed_before,
}
use vmwgfx.Validate.Listed.{
  IsContext, Extends, Listed, get-last, get-snoc, get-old, get-change, change-get,
  listed_before-Listed, uses-snoc, res_uses-snoc, res_uses-first, length-change,
}

-- the context with a buffer at the end, under the table `t`
abbrev pub with_buf : Table → ValBuf → (flags : ℕ) → Context → Context
with_buf t b flags c = record c {
  res_ht = t;
  val_bufs = c.val_bufs ++ (b ∷ []);
  cur_val_buf = add32 c.cur_val_buf 1;
  fence_flags = bit_or c.fence_flags flags;
  refs = count_at suc b.bo c.refs;
}

abbrev pub with_res : Table → ResNode → Context → Context
with_res t n c = record c {
  res_ht = t;
  resource_list = c.resource_list ++ (n ∷ []);
  refs = count_at suc n.res c.refs;
}

module _ (hash : ℕ → ℕ) where
  insert_item-fill :
      (t : Table) (it : Item) (t' : Table)
      → insert_item hash t it ≡ ok t'
      → t'.fill ≡ add32 t.fill 1
  unfolding insert_item set_bucket
  insert_item-fill t it t' e = go (insert_chain it (t.bucket (hash it.key))) refl
    where
      go :
          (o : Option (List Item))
          → insert_chain it (t.bucket (hash it.key)) ≡ o
          → t'.fill ≡ add32 t.fill 1
      go none q = absurd (ground (arith, q, e))
      go (some c) q = ground (arith, q, e)

module _ (hash : ℕ → ℕ) (is_bo : ℕ → Bool) (base : ℕ → ℕ) where
  with_buf-IsContext :
      (t : Table) (b : ValBuf) (flags : ℕ) (c : Context)
      → IsContext hash is_bo base c
      → is_bo b.bo ≡ true
      → c.cur_val_buf < max_validations
      → Inserted hash c.res_ht (item b.bo c.cur_val_buf) (ok t)
      → t.fill ≡ add32 c.res_ht.fill 1
      → IsContext hash is_bo base (with_buf t b flags c)
  with_buf-IsContext t b flags c v kind space (sorted, fresh, found) filled = record {
    sorted = sorted;
    buffers = λ i x e. elim (get-snoc c.val_bufs b x i e) [
      | inl old ↦ ((v.buffers i x old).0, ground (arith, v.buffers i x old, found x.bo))
      | inr (here, same) ↦ ground (arith, v.count, found b.bo)
    ];
    resources =
        λ i n e. ((v.resources i n e).0, ground (arith, v.resources i n e, found n.res, kind));
    known_bo = λ bo it h e. elim (Bool-cases (b.bo == bo)) [
      | inl same ↦ (b, ground (arith, found bo, v.count, get-last c.val_bufs b), ground arith)
      | inr other ↦
          let (x, p, q) = v.known_bo bo it h (ground (arith, found bo)) in
          (x, get-old c.val_bufs b x it.owner p, q)
    ];
    known_res = λ res it h e. v.known_res res it h (ground (arith, found res, kind));
    count = ground (arith, v.count, length-append c.val_bufs (b ∷ []));
    room = ground arith;
    fill = ground (arith, v.fill, filled, length-append c.val_bufs (b ∷ []));
    refs = λ bo. ground (arith, v.refs bo, uses-snoc bo b c.val_bufs);
  }

  with_res-IsContext :
      (t : Table) (n : ResNode) (c : Context)
      → IsContext hash is_bo base c
      → is_bo n.res ≡ false
      → Inserted hash c.res_ht (item n.res (length c.resource_list)) (ok t)
      → t.fill ≡ add32 c.res_ht.fill 1
      → IsContext hash is_bo base (with_res t n c)
  with_res-IsContext t n c v kind (sorted, fresh, found) filled = record {
    sorted = sorted;
    buffers = λ i x e. ((v.buffers i x e).0, ground (arith, v.buffers i x e, found x.bo, kind));
    resources = λ i x e. elim (get-snoc c.resource_list n x i e) [
      | inl old ↦ ((v.resources i x old).0, ground (arith, v.resources i x old, found x.res))
      | inr (here, same) ↦ ground (arith, found n.res)
    ];
    known_bo = λ bo it h e. v.known_bo bo it h (ground (arith, found bo, kind));
    known_res = λ res it h e. elim (Bool-cases (n.res == res)) [
      | inl same ↦ (n, ground (arith, found res, get-last c.resource_list n), ground arith)
      | inr other ↦
          let (x, p, q) = v.known_res res it h (ground (arith, found res)) in
          (x, get-old c.resource_list n x it.owner p, q)
    ];
    count = v.count;
    room = v.room;
    fill = ground (arith, v.fill, filled, length-append c.resource_list (n ∷ []));
    refs = λ a. ground (arith, v.refs a, res_uses-snoc a n c.resource_list);
  }

  list_new-Listed :
      (bo flags : ℕ) (as_mob : Bool) (c : Context)
      → IsContext hash is_bo base c
      → is_bo bo ≡ true
      → get hash c.res_ht bo ≡ none
      → Listed hash is_bo base bo as_mob c (list_new hash bo flags as_mob c)
  unfolding list_new
  list_new-Listed bo flags as_mob c v kind fresh =
      elim (Bool-cases (leb max_validations c.cur_val_buf)) [
        | inl full ↦ rw full (refl, refl, inr (ground (arith, v.room)))
        | inr space ↦
            go (insert_item hash c.res_ht (item bo c.cur_val_buf)) refl space
              (insert_item-Inserted hash c.res_ht (item bo c.cur_val_buf) v.sorted)
      ]
    where
      go :
          (o : Outcome Table)
          → insert_item hash c.res_ht (item bo c.cur_val_buf) ≡ o
          → leb max_validations c.cur_val_buf ≡ false
          → Inserted hash c.res_ht (item bo c.cur_val_buf) o
          → Listed hash is_bo base bo as_mob c (list_new hash bo flags as_mob c)
      go (err e) q space (_, (old, there)) = absurd (ground (arith, there, fresh))
      go (ok t) q space ins =
          let filled = insert_item-fill hash c.res_ht (item bo c.cur_val_buf) t q in
          let b : ValBuf = record {
            bo = bo;
            validate_as_mob = as_mob;
            sync_obj_arg = bit_or 0 flags;
          } in
          let c' = with_buf t b flags c in
          let e : list_new hash bo flags as_mob c ≡ (ok c.cur_val_buf, c') =
            ground (arith, q, space) in
          let at : get_elem? c'.val_bufs c.cur_val_buf ≡ some b =
            ground (arith, v.count, get-last c.val_bufs b) in
          let old : Extends hash is_bo base c c' = record {
            kept = λ bo' m i (x, p, s, u). (x, get-old c.val_bufs b x i p, s, u);
            relocs = refl;
            cur_reloc = refl;
            resource_list = refl;
          } in
          subst (λ r. Listed hash is_bo base bo as_mob c r) (sym e)
            (
              with_buf-IsContext t b flags c v kind (ground arith) ins filled,
              (b, at, refl, refl),
              old,
            )

  -- Listing a buffer gives it an index, at which the list has it for this use, and every buffer
  -- listed before stays where it was; or it fails, with EINVAL and without a change, because
  -- the buffer is listed for the other use, as a MOB or not, or because 2048 are listed.
  pub bo_to_validate_list-Listed :
      (bo flags : ℕ) (as_mob : Bool) (c : Context)
      → IsContext hash is_bo base c
      → is_bo bo ≡ true
      → Listed hash is_bo base bo as_mob c (bo_to_validate_list hash bo flags as_mob c)
  unfolding bo_to_validate_list
  bo_to_validate_list-Listed bo flags as_mob c v kind = go (get hash c.res_ht bo) refl
    where
      go :
          (o : Option Item)
          → get hash c.res_ht bo ≡ o
          → Listed hash is_bo base bo as_mob c (bo_to_validate_list hash bo flags as_mob c)
      go none q =
          let e : bo_to_validate_list hash bo flags as_mob c ≡ list_new hash bo flags as_mob c =
            ground (arith, find_item_lem hash c.res_ht bo, q) in
          subst (λ r. Listed hash is_bo base bo as_mob c r) (sym e)
            (list_new-Listed bo flags as_mob c v kind q)
      go (some it) q =
          let (b, there, same) = v.known_bo bo it kind q in
          let e : bo_to_validate_list hash bo flags as_mob c
              ≡ listed_before hash flags as_mob it.owner (some b) c =
            ground (arith, find_item_lem hash c.res_ht bo, q, there) in
          subst (λ r. Listed hash is_bo base bo as_mob c r) (sym e)
            (listed_before-Listed hash is_bo base bo flags as_mob it.owner b c v there same)

  first-IsContext :
      (c : Context) (i : ℕ)
      → IsContext hash is_bo base c
      → IsContext hash is_bo base (record c { resource_list = change not_first i c.resource_list })
  first-IsContext c i v = record {
    sorted = v.sorted;
    buffers = v.buffers;
    resources = λ j n h.
        let (x, e, q) = get-change not_first c.resource_list i j n h in
        ground (arith, v.resources j x e);
    known_bo = v.known_bo;
    known_res = λ res it h e.
        let (n, q, s) = v.known_res res it h e in
        let (y, r, t) = change-get not_first c.resource_list i it.owner n q in (y, r, ground arith);
    count = v.count;
    room = v.room;
    fill = ground (arith, v.fill, length-change not_first c.resource_list i);
    refs = λ a. ground (arith, v.refs a, res_uses-first a i c.resource_list);
  }

  -- What adding a resource comes to.
  abbrev pub Added : Context → Outcome ℕ × Context → Type 0
  Added c (ok i, c') =
      IsContext hash is_bo base c'
      × (c'.relocs ≡ c.relocs)
      × (c'.cur_reloc ≡ c.cur_reloc)
      × (c'.val_bufs ≡ c.val_bufs)
  Added c (err e, c') = c' ≡ c

  pub resource_val_add-Added :
      (kzalloc : Bool) (res : ℕ) (c : Context)
      → IsContext hash is_bo base c
      → is_bo res ≡ false
      → Added c (resource_val_add hash kzalloc res c)
  unfolding resource_val_add
  resource_val_add-Added kzalloc res c v kind = go (get hash c.res_ht res) refl kzalloc refl
    where
      put :
          (o : Outcome Table)
          → insert_item hash c.res_ht (item res (length c.resource_list)) ≡ o
          → Inserted hash c.res_ht (item res (length c.resource_list)) o
          → get hash c.res_ht res ≡ none
          → Added c (resource_val_add hash true res c)
      put (err e) q (_, (old, there)) fresh = absurd (ground (arith, there, fresh))
      put (ok t) q ins fresh =
          let filled = insert_item-fill hash c.res_ht (item res (length c.resource_list)) t q in
          let n : ResNode = record { res = res; first_usage = true } in
          let e : resource_val_add hash true res c ≡ (ok (length c.resource_list), with_res t n c) =
            ground (arith, find_item_lem hash c.res_ht res, q, fresh) in
          subst (λ r. Added c r) (sym e)
            (with_res-IsContext t n c v kind ins filled, refl, refl, refl)

      go :
          (o : Option Item)
          → get hash c.res_ht res ≡ o
          → (k : Bool) → kzalloc ≡ k
          → Added c (resource_val_add hash k res c)
      go (some it) q k _ =
          let e : resource_val_add hash k res c ≡ (
            ok it.owner,
            record c { resource_list = change not_first it.owner c.resource_list },
          ) =
            ground (arith, find_item_lem hash c.res_ht res, q) in
          subst (λ r. Added c r) (sym e) (first-IsContext c it.owner v, refl, refl, refl)
      go none q false _ =
          let e : resource_val_add hash false res c ≡ (err enomem, c) =
            ground (arith, find_item_lem hash c.res_ht res, q) in
          subst (λ r. Added c r) (sym e) refl
      go none q true _ =
          put (insert_item hash c.res_ht (item res (length c.resource_list))) refl
            (insert_item-Inserted hash c.res_ht (item res (length c.resource_list)) v.sorted) q
