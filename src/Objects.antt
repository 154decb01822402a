-- ===== src/Objects.antt =====
-- Base objects and the references that files hold on them (ttm/ttm_object.c). A file is a number, and
-- a base object is its key, which `object_hash` gives to one object at a time. The hash tables are
-- the maps from keys that they implement: `bases` is `object_hash`, and the tables of all files are
-- one list of reference objects, found by file, type and key.
pub mod Balance
pub mod Refs
pub mod Close
pub mod Steps
pub mod Init
pub mod Races
mod Tests
use vmwgfx.Prelude.{
  ℕ, zero, suc, ◌+◌, ◌-◌, Bool, true, false, not, ◌&&◌, ◌||◌, List, [], ◌∷◌, ◌++◌, Option, none,
  some, ltb, ◌==◌, if◌then◌else◌, Outcome, ok, err, Errno, enomem, einval, eperm,
}

-- `enum ttm_ref_type`
abbrev pub ref_usage : ℕ
ref_usage = 0

abbrev pub ref_synccpu_read : ℕ
ref_synccpu_read = 1

abbrev pub ref_synccpu_write : ℕ
ref_synccpu_write = 2

-- `struct ttm_base_object`; `ref_obj_release` is whether it has that callback
pub record Base : Type 0 where
  pub shareable : Bool
  pub tfile : ℕ
  pub ref_obj_release : Bool
  pub refcount : ℕ

-- `struct ttm_ref_object`
pub record Ref : Type 0 where
  pub obj : ℕ
  pub tfile : ℕ
  pub ref_type : ℕ
  pub kref : ℕ

-- `struct ttm_object_device` with its files: `file_refs` is the refcount of each file, `charged` the
-- number of reference objects that are accounted for, `released` the objects whose
-- `refcount_release` was called, `ref_released` those of the calls of `ref_obj_release`.
pub record Device : Type 0 where
  pub bases : ℕ → Option Base
  pub refs : List Ref
  pub file_refs : ℕ → ℕ
  pub charged : ℕ
  pub released : List ℕ
  pub ref_released : List ℕ

abbrev pub set_base : (key : ℕ) → Option Base → (ℕ → Option Base) → ℕ → Option Base
set_base key b bases k = if k == key then b else bases k

abbrev pub count_file : (ℕ → ℕ) → (tfile : ℕ) → (ℕ → ℕ) → ℕ → ℕ
count_file step tfile file_refs f = if f == tfile then step (file_refs f) else file_refs f

-- whether a reference object is the one of this file, type and key
abbrev pub is_ref : (tfile ref_type key : ℕ) → Ref → Bool
is_ref tfile ref_type key r = r.obj == key && (r.tfile == tfile && r.ref_type == ref_type)

unfoldable pub find_ref : (tfile ref_type key : ℕ) → List Ref → Option Ref
find_ref tfile ref_type key [] = none
find_ref tfile ref_type key (r ∷ rs) =
    if is_ref tfile ref_type key r then some r else find_ref tfile ref_type key rs

unfoldable pub change_ref : (ℕ → ℕ) → (tfile ref_type key : ℕ) → List Ref → List Ref
change_ref step tfile ref_type key [] = []
change_ref step tfile ref_type key (r ∷ rs) =
    if is_ref tfile ref_type key r
    then record r { kref = step r.kref } ∷ rs
    else r ∷ change_ref step tfile ref_type key rs

unfoldable pub drop_ref : (tfile ref_type key : ℕ) → List Ref → List Ref
drop_ref tfile ref_type key [] = []
drop_ref tfile ref_type key (r ∷ rs) =
    if is_ref tfile ref_type key r then rs else r ∷ drop_ref tfile ref_type key rs

-- `kref_put` of a base object: whether the count came to 0. The object stays in the table.
unfoldable pub kref_put : (key : ℕ) → Device → Bool × Device
kref_put key d = elim (d.bases key) [
  | none ↦ (false, d)
  | some b ↦ (
    b.refcount == 1,
    record d { bases = set_base key (some (record b { refcount = b.refcount - 1 })) d.bases },
  )
]

-- `ttm_release_base`
unfoldable pub release_base : (key : ℕ) → Device → Device
release_base key d = elim (d.bases key) [
  | none ↦ d
  | some b ↦ record d {
    bases = set_base key none d.bases;
    file_refs = count_file (λ n. n - 1) b.tfile d.file_refs;
    released = key ∷ d.released;
  }
]

-- `ttm_base_object_unref`, where no other task comes between its two sections
unfoldable pub base_unref : (key : ℕ) → Device → Device
unfolding kref_put release_base
base_unref key d = let (last, d') = kref_put key d in if last then release_base key d' else d'

abbrev pub get_base : (key : ℕ) → Base → Device → Device
get_base key b d = record d {
  bases = set_base key (some (record b { refcount = b.refcount + 1 })) d.bases;
}

-- `ttm_base_object_lookup_for_ref`, and `kref_get_unless_zero` of what is found
unfoldable pub lookup_for_ref : (key : ℕ) → Device → Option Base × Device
lookup_for_ref key d = elim (d.bases key) [
  | none ↦ (none, d)
  | some b ↦ if b.refcount == 0 then (none, d) else (some b, get_base key b d)
]

-- `ttm_base_object_lookup`: by a reference of the file
unfoldable pub lookup : (tfile key : ℕ) → Device → Option Base × Device
unfolding lookup_for_ref
lookup tfile key d = elim (find_ref tfile ref_usage key d.refs) [
  | none ↦ (none, d)
  | some r ↦ lookup_for_ref r.obj d
]

-- the test of `ttm_ref_object_add`
abbrev pub may_use : (tfile : ℕ) → Base → Bool
may_use tfile b = not (not (b.tfile == tfile) && not b.shareable)

-- its first section: a reference that the file has is taken once more
unfoldable pub get_ref : (tfile ref_type key : ℕ) → Device → Option Device
get_ref tfile ref_type key d = elim (find_ref tfile ref_type key d.refs) [
  | none ↦ none
  | some r ↦
      if r.kref == 0
      then none
      else some (record d { refs = change_ref (λ n. n + 1) tfile ref_type key d.refs })
]

-- its section under the lock: a new reference object, unless the table has one
unfoldable pub insert_ref : (tfile ref_type key : ℕ) → Base → Device → Option Device
insert_ref tfile ref_type key b d = elim (find_ref tfile ref_type key d.refs) [
  | some r ↦ none
  | none ↦ some (record (get_base key b d) {
    refs = d.refs ++ (record { obj = key; tfile = tfile; ref_type = ref_type; kref = 1 } ∷ []);
    charged = d.charged + 1;
  })
]

-- What a round of its loop meets: whether memory may be charged, whether `kmalloc` gives it, and what
-- other threads do before the lock is taken.
pub record Round : Type 0 where
  pub mem : Outcome (Unit {0})
  pub kmalloc : Bool
  pub others : Device → Device

-- The loop, with `none` if it needs more rounds; a result comes with `existed`.
unfoldable pub add_loop :
    (rounds : List Round) → (tfile ref_type key : ℕ) → Device → Option (Outcome Bool × Device)
add_loop [] tfile ref_type key d = none
add_loop (r ∷ rs) tfile ref_type key d =
    let again = add_loop rs tfile ref_type key (r.others d) in
    elim (get_ref tfile ref_type key d) [
      | some d' ↦ some (ok true, d')
      | none ↦ elim r.mem [
        | err e ↦ some (err e, d)
        | ok _ ↦ if not r.kmalloc then some (err enomem, d) else elim ((r.others d).bases key) [
          | none ↦ none
          | some b ↦ elim (insert_ref tfile ref_type key b (r.others d)) [
            | some d' ↦ some (ok false, d')
            | none ↦ again
          ]
        ]
      ]
    ]

-- `ttm_ref_object_add`, on a base object that the caller holds
unfoldable pub ref_object_add :
    (rounds : List Round) → (tfile ref_type key : ℕ) → Device → Option (Outcome Bool × Device)
ref_object_add rounds tfile ref_type key d = elim (d.bases key) [
  | none ↦ none
  | some b ↦ if may_use tfile b then add_loop rounds tfile ref_type key d else some (err eperm, d)
]

-- the call of `ref_obj_release`
abbrev pub notify : (ref_type key : ℕ) → Option Base → Device → Device
notify ref_type key none d = d
notify ref_type key (some b) d =
    if not (ref_type == ref_usage) && b.ref_obj_release
    then record d { ref_released = key ∷ d.ref_released }
    else d

-- The first section of `ttm_ref_object_release`, which takes the reference object out of the table and
-- the list. Its reference on the base object is then the task's.
unfoldable pub unlink_ref : (tfile ref_type key : ℕ) → Device → Device
unlink_ref tfile ref_type key d =
    notify ref_type key (d.bases key) (record d { refs = drop_ref tfile ref_type key d.refs })

-- `ttm_ref_object_release`
unfoldable pub ref_object_release : (tfile ref_type key : ℕ) → Device → Device
unfolding base_unref unlink_ref
ref_object_release tfile ref_type key d =
    let d' = base_unref key (unlink_ref tfile ref_type key d) in
    record d' { charged = d'.charged - 1 }

-- `ttm_ref_object_base_unref`
unfoldable pub ref_base_unref : (tfile key ref_type : ℕ) → Device → Outcome (Unit {0}) × Device
unfolding ref_object_release
ref_base_unref tfile key ref_type d = elim (find_ref tfile ref_type key d.refs) [
  | none ↦ (err einval, d)
  | some r ↦
      if r.kref == 1
      then (ok tt, ref_object_release tfile ref_type key d)
      else (ok tt, record d { refs = change_ref (λ n. n - 1) tfile ref_type key d.refs })
]

-- the first reference object of a file
unfoldable pub first_of : (tfile : ℕ) → List Ref → Option Ref
first_of tfile [] = none
first_of tfile (r ∷ rs) = if r.tfile == tfile then some r else first_of tfile rs

-- The loop of `ttm_object_file_release`, on fuel; `none` if the list is not empty by then.
unfoldable pub release_loop : (fuel tfile : ℕ) → Device → Option Device
unfolding ref_object_release
release_loop zero tfile d = elim (first_of tfile d.refs) [ none ↦ some d | some r ↦ none ]
release_loop (suc fuel) tfile d = elim (first_of tfile d.refs) [
  | none ↦ some d
  | some r ↦ release_loop fuel tfile (ref_object_release tfile r.ref_type r.obj d)
]

-- the number of reference objects of a file
unfoldable pub count_refs : (tfile : ℕ) → List Ref → ℕ
count_refs tfile [] = 0
count_refs tfile (r ∷ rs) = (if r.tfile == tfile then 1 else 0) + count_refs tfile rs

-- `ttm_object_file_release`, on fuel for each reference object of the file
unfoldable pub file_release : (tfile : ℕ) → Device → Option Device
unfolding release_loop
file_release tfile d = elim (release_loop (count_refs tfile d.refs) tfile d) [
  | none ↦ none
  | some d' ↦ some (record d' { file_refs = count_file (λ n. n - 1) tfile d'.file_refs })
]

-- `ttm_base_object_init`, of an object that gets the key `key`, or none; `rounds` are those of the
-- reference that the file gets
unfoldable pub base_object_init :
    (key : Outcome ℕ)
    → (rounds : List Round) → (tfile : ℕ) → (shareable ref_obj_release : Bool) → Device
    → Option (Outcome ℕ × Device)
unfolding ref_object_add base_unref
base_object_init (err e) rounds tfile shareable ref_obj_release d =
    some (err e, record d { file_refs = count_file suc tfile d.file_refs })
base_object_init (ok key) rounds tfile shareable ref_obj_release d =
    let b : Base = record {
      shareable = shareable;
      tfile = tfile;
      ref_obj_release = ref_obj_release;
      refcount = 1;
    } in
    let placed : Device = record d {
      bases = set_base key (some b) d.bases;
      file_refs = count_file suc tfile d.file_refs;
    } in
    elim (ref_object_add rounds tfile ref_usage key placed) [
      | none ↦ none
      | some (r, d') ↦ elim r [
        | ok existed ↦ some (ok key, base_unref key d')
        | err e ↦ some (err e, record d' { bases = set_base key none d'.bases })
      ]
    ]
