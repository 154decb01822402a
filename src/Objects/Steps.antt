-- ===== src/Objects/Steps.antt =====
-- Whatever files and callers do one after the other, the counts of objects are right and no file has what it may not.
use vmwgfx.Prelude.{
  ℕ, suc, ◌+◌, ◌<◌, ◌≡◌, sym, Bool, true, List, [], ◌∷◌, Option, none, some, ◌==◌, arith, All,
  Bool-cases, Option-cases, inl, inr,
}
use mathlib.Core.Path.{subst}
use vmwgfx.Objects.{
  Base, Ref, Device, set_base, count_file, base_unref, get_base, lookup_for_ref, lookup, find_ref,
  ref_usage, may_use, get_ref, insert_ref, ref_base_unref, file_release,
}
use vmwgfx.Objects.Balance.{
  IsBalanced, IsAllowed, uses, more, less, same_key, base_unref-IsBalanced, get_base-IsBalanced,
}
use vmwgfx.Objects.Refs.{
  get_ref-IsBalanced, insert_ref-IsBalanced, ref_base_unref-IsBalanced, found-IsAllowed,
}
use vmwgfx.Objects.Close.{file_release-IsBalanced}

-- the objects, with the references that callers hold on each
pub record System : Type 0 where
  pub device : Device
  pub held : ℕ → ℕ

-- a new object in the table, as `ttm_base_object_init` puts it there, held by its creator
abbrev pub created : (key tfile : ℕ) → (shareable ref_obj_release : Bool) → Device → Device
created key tfile shareable ref_obj_release d =
    let b : Base = record {
      shareable = shareable;
      tfile = tfile;
      ref_obj_release = ref_obj_release;
      refcount = 1;
    } in
    record d { bases = set_base key (some b) d.bases; file_refs = count_file suc tfile d.file_refs }

-- What can happen, one call after the other: an object is made with a free key, found by
-- a file or by anyone, and given up; a file takes a reference again or for the first time, gives it
-- back, or is closed.
pub data Step (s t : System) : Type 0 where
  creates :
      (key tfile : ℕ) (shareable ref_obj_release : Bool)
      → s.device.bases key ≡ none
      → t ≡ record {
        device = created key tfile shareable ref_obj_release s.device;
        held = more key s.held;
      }
      → Step s t
  finds :
      (tfile key : ℕ) (b : Base) (d : Device)
      → lookup tfile key s.device ≡ (some b, d)
      → t ≡ record { device = d; held = more key s.held }
      → Step s t
  looks_up :
      (key : ℕ) (b : Base) (d : Device)
      → lookup_for_ref key s.device ≡ (some b, d)
      → t ≡ record { device = d; held = more key s.held }
      → Step s t
  unrefs :
      (key : ℕ)
      → 0 < s.held key
      → t ≡ record { device = base_unref key s.device; held = less key s.held }
      → Step s t
  takes :
      (tfile ref_type key : ℕ) (d : Device)
      → get_ref tfile ref_type key s.device ≡ some d
      → t ≡ record s { device = d }
      → Step s t
  inserts :
      (tfile ref_type key : ℕ) (b : Base) (d : Device)
      → s.device.bases key ≡ some b
      → may_use tfile b ≡ true
      → insert_ref tfile ref_type key b s.device ≡ some d
      → t ≡ record s { device = d }
      → Step s t
  gives :
      (tfile key ref_type : ℕ)
      → t ≡ record s { device = (ref_base_unref tfile key ref_type s.device).1 }
      → Step s t
  closes :
      (tfile : ℕ) (d : Device)
      → file_release tfile s.device ≡ some d
      → t ≡ record s { device = d }
      → Step s t

pub data Steps (s : System) : System → Type 0 where
  here : Steps s s
  next : {t u : System} → Steps s t → Step t u → Steps s u

new-IsAllowed :
    (key : ℕ) (b : Base) (bases : ℕ → Option Base) (rs : List Ref)
    → uses key rs ≡ 0
    → All (IsAllowed bases) rs
    → All (IsAllowed (set_base key (some b) bases)) rs
new-IsAllowed key b bases [] e v = tt
new-IsAllowed key b bases (r ∷ rs) e ((pos, (c, f, u)), v) =
    ((pos, (c, ground arith, u)), new-IsAllowed key b bases rs (ground arith) v)

pub created-IsBalanced :
    (key tfile : ℕ) (shareable ref_obj_release : Bool) (held : ℕ → ℕ) (d : Device)
    → IsBalanced 0 held d
    → d.bases key ≡ none
    → IsBalanced 0 (more key held) (created key tfile shareable ref_obj_release d)
created-IsBalanced key tfile shareable ref_obj_release held d v free = record {
  counts = λ k c h. elim (Bool-cases (k == key)) [
    | inl this ↦
        subst (λ j. (c.refcount ≡ uses j d.refs + more key held j) × (0 < c.refcount))
          (sym (same_key k key this)) (ground (arith, v.dead key free))
    | inr other ↦ ground (arith, v.counts k c)
  ];
  dead = λ k h. elim (Bool-cases (k == key)) [
    | inl this ↦ absurd (ground (arith, h, this))
    | inr other ↦ ground (arith, v.dead k)
  ];
  charged = v.charged;
  allowed =
      new-IsAllowed key
        (record {
          shareable = shareable;
          tfile = tfile;
          ref_obj_release = ref_obj_release;
          refcount = 1;
        })
        d.bases d.refs (ground (arith, v.dead key free)) v.allowed;
}

lookup_for_ref-IsBalanced :
    (key : ℕ) (b : Base) (held : ℕ → ℕ) (d d' : Device)
    → IsBalanced 0 held d
    → lookup_for_ref key d ≡ (some b, d')
    → IsBalanced 0 (more key held) d'
unfolding lookup_for_ref
lookup_for_ref-IsBalanced key b held d d' v e = elim (Option-cases (d.bases key)) [
  | inl absent ↦ absurd (ground (arith, e, absent))
  | inr (c, there) ↦ elim (Bool-cases (c.refcount == 0)) [
    | inl dying ↦ absurd (ground (arith, e, there, dying))
    | inr alive ↦
        let q : get_base key c d ≡ d' = ground (arith, e, there, alive) in
        subst (λ x. IsBalanced 0 (more key held) x) q (get_base-IsBalanced 0 key c held d v there)
  ]
]

lookup-IsBalanced :
    (tfile key : ℕ) (b : Base) (held : ℕ → ℕ) (d d' : Device)
    → IsBalanced 0 held d
    → lookup tfile key d ≡ (some b, d')
    → IsBalanced 0 (more key held) d'
unfolding lookup
lookup-IsBalanced tfile key b held d d' v e =
    elim (Option-cases (find_ref tfile ref_usage key d.refs)) [
      | inl absent ↦ absurd (ground (arith, e, absent))
      | inr (r, found) ↦
          let (_, is) = found-IsAllowed tfile ref_usage key d.bases d.refs r found v.allowed in
          let q : r.obj ≡ key = same_key r.obj key (ground (arith, is)) in
          subst (λ k. IsBalanced 0 (more k held) d') q
            (lookup_for_ref-IsBalanced r.obj b held d d' v (ground (arith, e, found)))
    ]

Step-IsBalanced :
    (s t : System) → Step s t → IsBalanced 0 s.held s.device → IsBalanced 0 t.held t.device
Step-IsBalanced s t (creates key tfile shareable release free e) v =
    rw e (created-IsBalanced key tfile shareable release s.held s.device v free)
Step-IsBalanced s t (finds tfile key b d h e) v =
    rw e (lookup-IsBalanced tfile key b s.held s.device d v h)
Step-IsBalanced s t (looks_up key b d h e) v =
    rw e (lookup_for_ref-IsBalanced key b s.held s.device d v h)
Step-IsBalanced s t (unrefs key pos e) v = rw e (base_unref-IsBalanced 0 key s.held s.device v pos)
Step-IsBalanced s t (takes tfile ref_type key d h e) v =
    rw e (get_ref-IsBalanced s.held tfile ref_type key s.device d v h)
Step-IsBalanced s t (inserts tfile ref_type key b d there may h e) v =
    rw e (insert_ref-IsBalanced s.held tfile ref_type key b s.device d v there may h)
Step-IsBalanced s t (gives tfile key ref_type e) v =
    rw e (ref_base_unref-IsBalanced s.held tfile key ref_type s.device v)
Step-IsBalanced s t (closes tfile d h e) v =
    let (d', q, w, _) = file_release-IsBalanced s.held tfile s.device v in
    let same : d' ≡ d = ground (arith, q, h) in rw e (subst (λ x. IsBalanced 0 s.held x) same w)

-- Where each call runs as a whole: an object is in the table just as long as there is a reference on it,
-- its count is the number of its reference objects and of the references that callers hold, a
-- reference object is charged for once, and no file has one on an object that belongs to another file
-- and is not shareable. Callers give up only references that they hold.
pub Steps-IsBalanced :
    (s t : System) → Steps s t → IsBalanced 0 s.held s.device → IsBalanced 0 t.held t.device
Steps-IsBalanced s _ here v = v
Steps-IsBalanced s u (next {t} ss x) v = Step-IsBalanced t u x (Steps-IsBalanced s t ss v)
