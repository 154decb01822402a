-- ===== src/Objects/Refs.antt =====
-- Reference objects come and go, and the books stay right.
use vmwgfx.Prelude.{
  ℕ, suc, ◌+◌, ◌-◌, ◌<◌, ◌≡◌, refl, sym, ap, true, not, ◌&&◌, List, [], ◌∷◌, ◌++◌, Option, none,
  some, ◌==◌, if◌then◌else◌, arith, All, All-append, length, length-append, Bool-cases,
  Option-cases, inl, inr,
}
use mathlib.Core.Path.{subst}
use vmwgfx.Objects.{
  Base, Ref, Device, is_ref, find_ref, change_ref, drop_ref, base_unref, get_base, may_use, get_ref,
  insert_ref, notify, unlink_ref, ref_object_release, ref_base_unref,
}
use vmwgfx.Objects.Balance.{
  uses, IsAllowed, IsBalanced, more, less, same_key, base_unref-IsBalanced, get_base-IsBalanced,
}

-- A reference object is there, and the rest of the list.
pub drop-uses :
    (tfile ref_type key : ℕ) (rs : List Ref) (r : Ref)
    → find_ref tfile ref_type key rs ≡ some r
    → ((k : ℕ) → uses k rs ≡ (if key == k then 1 else 0) + uses k (drop_ref tfile ref_type key rs))
      × (length rs ≡ suc (length (drop_ref tfile ref_type key rs)))
unfolding find_ref drop_ref
drop-uses tfile ref_type key [] r e = cc
drop-uses tfile ref_type key (x ∷ rs) r e = elim (Bool-cases (is_ref tfile ref_type key x)) [
  | inl this ↦
      let q = same_key x.obj key (ground (arith, this)) in
      (
        λ k. ground (arith, this, ap {B = ℕ} (λ o. (if o == k then 1 else 0)) q),
        ground (arith, this),
      )
  | inr other ↦
      let (u, l) = drop-uses tfile ref_type key rs r (ground (arith, e, other)) in
      (λ k. ground (arith, other, u k), ground (arith, other, l))
]

drop-IsAllowed :
    (tfile ref_type key : ℕ) (bases : ℕ → Option Base) (rs : List Ref)
    → All (IsAllowed bases) rs
    → All (IsAllowed bases) (drop_ref tfile ref_type key rs)
unfolding drop_ref
drop-IsAllowed tfile ref_type key bases [] v = tt
drop-IsAllowed tfile ref_type key bases (x ∷ rs) (p, v) =
    elim (Bool-cases (is_ref tfile ref_type key x)) [
      | inl this ↦ rw this v
      | inr other ↦ rw other (p, drop-IsAllowed tfile ref_type key bases rs v)
    ]

pub change-uses :
    (step : ℕ → ℕ) (tfile ref_type key : ℕ) (rs : List Ref) (k : ℕ)
    → (uses k (change_ref step tfile ref_type key rs) ≡ uses k rs)
      × (length (change_ref step tfile ref_type key rs) ≡ length rs)
unfolding change_ref
change-uses step tfile ref_type key [] k = (refl, refl)
change-uses step tfile ref_type key (x ∷ rs) k =
    let (u, l) = change-uses step tfile ref_type key rs k in (ground (arith, u), ground (arith, l))

change-IsAllowed :
    (step : ℕ → ℕ) (tfile ref_type key : ℕ) (bases : ℕ → Option Base) (rs : List Ref) (r : Ref)
    → find_ref tfile ref_type key rs ≡ some r
    → 0 < step r.kref
    → All (IsAllowed bases) rs
    → All (IsAllowed bases) (change_ref step tfile ref_type key rs)
unfolding find_ref change_ref
change-IsAllowed step tfile ref_type key bases [] r e pos v = tt
change-IsAllowed step tfile ref_type key bases (x ∷ rs) r e pos ((p, b), v) =
    elim (Bool-cases (is_ref tfile ref_type key x)) [
      | inl this ↦
          let q : x ≡ r = ground (arith, e, this) in
          rw this ((subst (λ y. 0 < step y.kref) (sym q) pos, b), v)
      | inr other ↦ rw other (
        (p, b),
        change-IsAllowed step tfile ref_type key bases rs r (ground (arith, e, other)) pos v,
      )
    ]

-- A reference object is taken once more, or given back but not the last time.
pub change-IsBalanced :
    (extra : ℕ) (held : ℕ → ℕ) (step : ℕ → ℕ) (tfile ref_type key : ℕ) (r : Ref) (d : Device)
    → IsBalanced extra held d
    → find_ref tfile ref_type key d.refs ≡ some r
    → 0 < step r.kref
    → IsBalanced extra held (record d { refs = change_ref step tfile ref_type key d.refs })
change-IsBalanced extra held step tfile ref_type key r d v e pos = record {
  counts = λ k c h. ground (arith, v.counts k c h, change-uses step tfile ref_type key d.refs k);
  dead = λ k h. ground (arith, v.dead k h, change-uses step tfile ref_type key d.refs k);
  charged = ground (arith, v.charged, change-uses step tfile ref_type key d.refs 0);
  allowed = change-IsAllowed step tfile ref_type key d.bases d.refs r e pos v.allowed;
}

-- A reference object that is unlinked leaves its reference to whoever frees it.
pub drop-IsBalanced :
    (held : ℕ → ℕ) (tfile ref_type key : ℕ) (r : Ref) (d : Device)
    → IsBalanced 0 held d
    → find_ref tfile ref_type key d.refs ≡ some r
    → IsBalanced 1 (more key held) (record d { refs = drop_ref tfile ref_type key d.refs })
drop-IsBalanced held tfile ref_type key r d v e =
    let (u, l) = drop-uses tfile ref_type key d.refs r e in
    record {
      counts = λ k c h. ground (arith, v.counts k c h, u k);
      dead = λ k h. ground (arith, v.dead k h, u k);
      charged = ground (arith, v.charged, l);
      allowed = drop-IsAllowed tfile ref_type key d.bases d.refs v.allowed;
    }

-- Books are right for what is held, however that is written.
pub held-IsBalanced :
    (extra : ℕ) (held held' : ℕ → ℕ) (d : Device)
    → ((k : ℕ) → held k ≡ held' k)
    → IsBalanced extra held d
    → IsBalanced extra held' d
held-IsBalanced extra held held' d same v = record {
  counts = λ k b h. ground (arith, same k, v.counts k b h);
  dead = λ k h. ground (arith, same k, v.dead k h);
  charged = v.charged;
  allowed = v.allowed;
}

notify-IsBalanced :
    (extra ref_type key : ℕ) (o : Option Base) (held : ℕ → ℕ) (d : Device)
    → IsBalanced extra held d
    → IsBalanced extra held (notify ref_type key o d)
notify-IsBalanced extra ref_type key none held d v = v
notify-IsBalanced extra ref_type key (some b) held d v =
    elim (Bool-cases (not (ref_type == 0) && b.ref_obj_release)) [
      | inl told ↦
          rw told
            (record { counts = v.counts; dead = v.dead; charged = v.charged; allowed = v.allowed })
      | inr silent ↦ rw silent v
    ]

uncharge-IsBalanced :
    (held : ℕ → ℕ) (d : Device)
    → IsBalanced 1 held d
    → IsBalanced 0 held (record d { charged = d.charged - 1 })
uncharge-IsBalanced held d v = record {
  counts = v.counts;
  dead = v.dead;
  charged = omega (arith, v.charged);
  allowed = v.allowed;
}

pub ref_object_release-IsBalanced :
    (held : ℕ → ℕ) (tfile ref_type key : ℕ) (r : Ref) (d : Device)
    → IsBalanced 0 held d
    → find_ref tfile ref_type key d.refs ≡ some r
    → IsBalanced 0 held (ref_object_release tfile ref_type key d)
unfolding ref_object_release unlink_ref
ref_object_release-IsBalanced held tfile ref_type key r d v e =
    let d1 : Device = record d { refs = drop_ref tfile ref_type key d.refs } in
    let d2 = notify ref_type key (d.bases key) d1 in
    let v2 =
      notify-IsBalanced 1 ref_type key (d.bases key) (more key held) d1
        (drop-IsBalanced held tfile ref_type key r d v e) in
    let v3 = base_unref-IsBalanced 1 key (more key held) d2 v2 (ground arith) in
    held-IsBalanced 0 (less key (more key held)) held
      (record (base_unref key d2) { charged = (base_unref key d2).charged - 1 }) (λ k. ground arith)
      (uncharge-IsBalanced (less key (more key held)) (base_unref key d2) v3)

-- A reference object that is found is the one that was looked for.
pub found-IsAllowed :
    (tfile ref_type key : ℕ) (bases : ℕ → Option Base) (rs : List Ref) (r : Ref)
    → find_ref tfile ref_type key rs ≡ some r
    → All (IsAllowed bases) rs
    → IsAllowed bases r × (is_ref tfile ref_type key r ≡ true)
unfolding find_ref
found-IsAllowed tfile ref_type key bases [] r e v = cc
found-IsAllowed tfile ref_type key bases (x ∷ rs) r e (p, v) =
    elim (Bool-cases (is_ref tfile ref_type key x)) [
      | inl this ↦
          let q : x ≡ r = ground (arith, e, this) in
          subst (λ y. IsAllowed bases y × (is_ref tfile ref_type key y ≡ true)) q (p, this)
      | inr other ↦ found-IsAllowed tfile ref_type key bases rs r (ground (arith, e, other)) v
    ]

pub ref_base_unref-IsBalanced :
    (held : ℕ → ℕ) (tfile key ref_type : ℕ) (d : Device)
    → IsBalanced 0 held d
    → IsBalanced 0 held (ref_base_unref tfile key ref_type d).1
unfolding ref_base_unref
ref_base_unref-IsBalanced held tfile key ref_type d v =
    let d' = (ref_base_unref tfile key ref_type d).1 in
    elim (Option-cases (find_ref tfile ref_type key d.refs)) [
      | inl absent ↦ let q : d ≡ d' = ground (arith, absent) in subst (λ x. IsBalanced 0 held x) q v
      | inr (r, found) ↦ elim (Bool-cases (r.kref == 1)) [
        | inl last ↦
            let q : ref_object_release tfile ref_type key d ≡ d' = ground (arith, found, last) in
            subst (λ x. IsBalanced 0 held x) q
              (ref_object_release-IsBalanced held tfile ref_type key r d v found)
        | inr others ↦
            let rest : Device = record d {
              refs = change_ref (λ n. n - 1) tfile ref_type key d.refs;
            } in
            let q : rest ≡ d' = ground (arith, found, others) in
            let ((pos, _), _) =
              found-IsAllowed tfile ref_type key d.bases d.refs r found v.allowed in
            subst (λ x. IsBalanced 0 held x) q
              (change-IsBalanced 0 held (λ n. n - 1) tfile ref_type key r d v found
                (ground (arith, others, pos)))
      ]
    ]

pub get_ref-IsBalanced :
    (held : ℕ → ℕ) (tfile ref_type key : ℕ) (d d' : Device)
    → IsBalanced 0 held d
    → get_ref tfile ref_type key d ≡ some d'
    → IsBalanced 0 held d'
unfolding get_ref
get_ref-IsBalanced held tfile ref_type key d d' v e =
    elim (Option-cases (find_ref tfile ref_type key d.refs)) [
      | inl absent ↦ absurd (ground (arith, e, absent))
      | inr (r, found) ↦ elim (Bool-cases (r.kref == 0)) [
        | inl dying ↦ absurd (ground (arith, e, found, dying))
        | inr alive ↦
            let d1 : Device = record d {
              refs = change_ref (λ n. n + 1) tfile ref_type key d.refs;
            } in
            let q : d1 ≡ d' = ground (arith, e, found, alive) in
            subst (λ x. IsBalanced 0 held x) q
              (change-IsBalanced 0 held (λ n. n + 1) tfile ref_type key r d v found (omega arith))
      ]
    ]

uses-snoc :
    (k : ℕ) (r : Ref) (rs : List Ref)
    → uses k (rs ++ (r ∷ [])) ≡ uses k rs + (if r.obj == k then 1 else 0)
uses-snoc k r [] = omega arith
uses-snoc k r (x ∷ rs) = omega (arith, uses-snoc k r rs)

pub insert_ref-IsBalanced :
    (held : ℕ → ℕ) (tfile ref_type key : ℕ) (b : Base) (d d' : Device)
    → IsBalanced 0 held d
    → d.bases key ≡ some b
    → may_use tfile b ≡ true
    → insert_ref tfile ref_type key b d ≡ some d'
    → IsBalanced 0 held d'
unfolding insert_ref
insert_ref-IsBalanced held tfile ref_type key b d d' v e use_it h =
    elim (Option-cases (find_ref tfile ref_type key d.refs)) [
      | inr (r, found) ↦ absurd (ground (arith, h, found))
      | inl absent ↦
          let r : Ref = record { obj = key; tfile = tfile; ref_type = ref_type; kref = 1 } in
          let d1 = get_base key b d in
          let d2 : Device = record d1 { refs = d.refs ++ (r ∷ []); charged = d.charged + 1 } in
          let q : d2 ≡ d' = ground (arith, h, absent) in
          let v1 = get_base-IsBalanced 0 key b held d v e in
          let b1 : Base = record b { refcount = b.refcount + 1 } in
          let own : IsAllowed d1.bases r = (omega arith, (b1, ground arith, use_it)) in
          subst (λ x. IsBalanced 0 held x) q
            record {
              counts = λ k c g. ground (arith, v1.counts k c g, uses-snoc k r d.refs);
              dead = λ k g. ground (arith, v1.dead k g, uses-snoc k r d.refs);
              charged = ground (arith, v1.charged, length-append d.refs (r ∷ []));
              allowed = All-append (IsAllowed d1.bases) d.refs (r ∷ []) v1.allowed (own, tt);
            }
    ]
