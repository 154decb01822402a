-- ===== src/Objects/Init.antt =====
-- A new object belongs to its file.
use vmwgfx.Prelude.{
  ℕ, ◌+◌, ◌≡◌, refl, ◌∙◌, ap, Bool, true, false, List, [], ◌∷◌, ◌++◌, none, some, arith, ok, err,
  eperm,
}
use vmwgfx.Objects.{
  Base, Ref, Device, Round, kref_put, release_base, base_unref, get_base, find_ref, ref_usage,
  may_use, get_ref, insert_ref, add_loop, ref_object_add, base_object_init,
}
use vmwgfx.Objects.Balance.{IsBalanced, uses, more, less, base_unref-IsBalanced}
use vmwgfx.Objects.Refs.{insert_ref-IsBalanced, held-IsBalanced}
use vmwgfx.Objects.Close.{unref-refs}
use vmwgfx.Objects.Steps.{created, created-IsBalanced}

none_found :
    (tfile ref_type key : ℕ) (rs : List Ref)
    → uses key rs ≡ 0
    → find_ref tfile ref_type key rs ≡ none
unfolding find_ref
none_found tfile ref_type key [] e = refl
none_found tfile ref_type key (r ∷ rs) e = ground (arith, none_found tfile ref_type key rs)

-- a round in which memory is to be had and nothing intervenes
abbrev pub calm : Round
calm = record { mem = ok tt; kmalloc = true; others = λ d. d }

-- `ttm_ref_object_add` refuses a file that may not use the object, and changes nothing.
pub ref_object_add-refuses :
    (rounds : List Round) (tfile ref_type key : ℕ) (b : Base) (d : Device)
    → d.bases key ≡ some b
    → may_use tfile b ≡ false
    → ref_object_add rounds tfile ref_type key d ≡ some (err eperm, d)
unfolding ref_object_add
ref_object_add-refuses rounds tfile ref_type key b d e refused = ground (arith, e, refused)

-- an object with one reference, and a usage reference of a file that is used once
abbrev pub fresh : (tfile : ℕ) → (shareable ref_obj_release : Bool) → Base
fresh tfile shareable ref_obj_release = record {
  shareable = shareable;
  tfile = tfile;
  ref_obj_release = ref_obj_release;
  refcount = 1;
}

abbrev pub first_usage : (tfile key : ℕ) → Ref
first_usage tfile key = record { obj = key; tfile = tfile; ref_type = ref_usage; kref = 1 }

found-snoc :
    (tfile key : ℕ) (rs : List Ref)
    → find_ref tfile ref_usage key rs ≡ none
    → find_ref tfile ref_usage key (rs ++ (first_usage tfile key ∷ []))
      ≡ some (first_usage tfile key)
unfolding find_ref
found-snoc tfile key [] e = ground arith
found-snoc tfile key (r ∷ rs) e = ground (arith, found-snoc tfile key rs)

-- With a free key and memory for a reference object, `ttm_base_object_init` makes an object, and the
-- books stay right: the creator holds nothing any more, and the one reference on the object is the usage
-- reference of its file. It supposes that no other thread intervenes before the reference object
-- is in the table.
pub base_object_init-IsBalanced :
    (key tfile : ℕ) (shareable ref_obj_release : Bool) (held : ℕ → ℕ) (rounds : List Round)
    (d : Device)
    → IsBalanced 0 held d
    → d.bases key ≡ none
    → (d' : Device) × (base_object_init (ok key) (calm ∷ rounds) tfile shareable ref_obj_release d
        ≡ some (ok key, d'))
      × IsBalanced 0 held d'
      × (d'.bases key ≡ some (fresh tfile shareable ref_obj_release))
      × (find_ref tfile ref_usage key d'.refs ≡ some (first_usage tfile key))
unfolding base_unref kref_put release_base base_object_init ref_object_add add_loop get_ref
    insert_ref
base_object_init-IsBalanced key tfile shareable ref_obj_release held rounds d v free =
    let d1 = created key tfile shareable ref_obj_release d in
    let v1 = created-IsBalanced key tfile shareable ref_obj_release held d v free in
    let b = fresh tfile shareable ref_obj_release in
    let absent : find_ref tfile 0 key d.refs ≡ none =
      none_found tfile 0 key d.refs (ground (arith, v.dead key free)) in
    let d2 : Device = record (get_base key b d1) {
      refs = d.refs ++ (first_usage tfile key ∷ []);
      charged = d.charged + 1;
    } in
    let q : insert_ref tfile 0 key b d1 ≡ some d2 = ground (arith, absent) in
    let v2 =
      insert_ref-IsBalanced (more key held) tfile 0 key b d1 d2 v1 (ground arith) (ground arith)
        q in
    let v3 = base_unref-IsBalanced 0 key (more key held) d2 v2 (ground arith) in
    (
      base_unref key d2,
      ground (arith, absent, q),
      held-IsBalanced 0 (less key (more key held)) held (base_unref key d2) (λ k. ground arith) v3,
      ground arith,
      ap (find_ref tfile ref_usage key) (unref-refs key d2) ∙ found-snoc tfile key d.refs absent,
    )
