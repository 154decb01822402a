-- ===== src/Objects/Close.antt =====
-- A file that is closed gives up all it holds.
use vmwgfx.Prelude.{
  ℕ, zero, suc, ◌-◌, ◌≡◌, refl, ◌∙◌, ap, List, [], ◌∷◌, Option, none, some, ◌==◌, arith, Bool-cases,
  Option-cases, inl, inr,
}
use mathlib.Core.Path.{subst}
use vmwgfx.Objects.{
  Base, Ref, Device, find_ref, drop_ref, kref_put, release_base, base_unref, unlink_ref, notify,
  ref_object_release, first_of, count_refs, release_loop, file_release, count_file,
}
use vmwgfx.Objects.Balance.{IsBalanced}
use vmwgfx.Objects.Refs.{ref_object_release-IsBalanced}

-- a first reference object of a file is found by its type and key
first-found :
    (tfile : ℕ) (rs : List Ref) (r : Ref)
    → first_of tfile rs ≡ some r
    → ((x : Ref) × (find_ref tfile r.ref_type r.obj rs ≡ some x))
      × (count_refs tfile rs ≡ suc (count_refs tfile (drop_ref tfile r.ref_type r.obj rs)))
unfolding first_of find_ref count_refs drop_ref
first-found tfile [] r e = cc
first-found tfile (x ∷ rs) r e = elim (Bool-cases (x.tfile == tfile)) [
  | inl this ↦
      let q : x ≡ r = ground (arith, e, this) in
      subst
        (λ y.
          ((z : Ref) × (find_ref tfile y.ref_type y.obj (x ∷ rs) ≡ some z))
          × (count_refs tfile (x ∷ rs)
              ≡ suc (count_refs tfile (drop_ref tfile y.ref_type y.obj (x ∷ rs)))))
        q ((x, ground (arith, this)), ground (arith, this))
  | inr other ↦
      let ((z, f), n) = first-found tfile rs r (ground (arith, e, other)) in
      ((z, ground (arith, other, f)), ground (arith, other, n))
]

none_first : (tfile : ℕ) (rs : List Ref) → count_refs tfile rs ≡ 0 → first_of tfile rs ≡ none
unfolding first_of count_refs
none_first tfile [] e = refl
none_first tfile (r ∷ rs) e = ground (arith, none_first tfile rs)

none_counted : (tfile : ℕ) (rs : List Ref) → first_of tfile rs ≡ none → count_refs tfile rs ≡ 0
unfolding first_of count_refs
none_counted tfile [] e = refl
none_counted tfile (r ∷ rs) e = ground (arith, none_counted tfile rs)

pub unref-refs : (key : ℕ) (d : Device) → (base_unref key d).refs ≡ d.refs
unfolding base_unref kref_put release_base
unref-refs key d = elim (Option-cases (d.bases key)) [
  | inl absent ↦ ground (arith, absent)
  | inr (b, there) ↦ ground (arith, there)
]

notify-refs :
    (ref_type key : ℕ) (o : Option Base) (d : Device) → (notify ref_type key o d).refs ≡ d.refs
notify-refs ref_type key none d = refl
notify-refs ref_type key (some b) d = ground arith

release-refs :
    (tfile ref_type key : ℕ) (d : Device)
    → (ref_object_release tfile ref_type key d).refs ≡ drop_ref tfile ref_type key d.refs
unfolding ref_object_release unlink_ref
release-refs tfile ref_type key d =
    let d1 : Device = record d { refs = drop_ref tfile ref_type key d.refs } in
    unref-refs key (notify ref_type key (d.bases key) d1)
    ∙ notify-refs ref_type key (d.bases key) d1

release_loop-IsBalanced :
    (fuel : ℕ) (held : ℕ → ℕ) (tfile : ℕ) (d : Device)
    → IsBalanced 0 held d
    → count_refs tfile d.refs ≡ fuel
    → (d' : Device) × (release_loop fuel tfile d ≡ some d')
      × IsBalanced 0 held d'
      × (count_refs tfile d'.refs ≡ 0)
unfolding release_loop
release_loop-IsBalanced zero held tfile d v e = (d, ground (arith, none_first tfile d.refs e), v, e)
release_loop-IsBalanced (suc fuel) held tfile d v e = elim (Option-cases (first_of tfile d.refs)) [
  | inl empty ↦ (d, ground (arith, empty), v, none_counted tfile d.refs empty)
  | inr (r, first) ↦
      let ((x, found), less) = first-found tfile d.refs r first in
      let d1 = ref_object_release tfile r.ref_type r.obj d in
      let v1 = ref_object_release-IsBalanced held tfile r.ref_type r.obj x d v found in
      let n : count_refs tfile d1.refs ≡ fuel =
        ap (count_refs tfile) (release-refs tfile r.ref_type r.obj d) ∙ omega (arith, less, e) in
      let (d', q, w, z) = release_loop-IsBalanced fuel held tfile d1 v1 n in
      (d', ground (arith, first, q), w, z)
]

-- Closing a file ends, after as many rounds as the file has reference objects; none of them is left,
-- and the count of every object that lives on is that of the references that are left on it, so
-- that an object whose last reference was among them is gone.
pub file_release-IsBalanced :
    (held : ℕ → ℕ) (tfile : ℕ) (d : Device)
    → IsBalanced 0 held d
    → (d' : Device) × (file_release tfile d ≡ some d')
      × IsBalanced 0 held d'
      × (count_refs tfile d'.refs ≡ 0)
unfolding file_release
file_release-IsBalanced held tfile d v =
    let (d1, e, w, z) = release_loop-IsBalanced (count_refs tfile d.refs) held tfile d v refl in
    (
      record d1 { file_refs = count_file (λ n. n - 1) tfile d1.file_refs },
      ground (arith, e),
      record { counts = w.counts; dead = w.dead; charged = w.charged; allowed = w.allowed },
      z,
    )
