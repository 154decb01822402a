-- ===== src/Objects/Races/Bases.antt =====
-- Sections that are about one object keep the counts: it is looked up, given up and removed.
use mathlib.Core.Path.{subst}
use vmwgfx.Prelude.{
  All, ◌⊎◌, ℕ, ◌+◌, ◌-◌, ◌<◌, ◌≡◌, refl, sym, ap, ◌∙◌, Bool, true, false, ◌∷◌, Option, none, some,
  ◌==◌, arith, Bool-cases, Option-cases, inl, inr,
}
use vmwgfx.Objects.{
  Base, Ref, Device, set_base, count_file, kref_put, release_base, get_base, lookup_for_ref, lookup,
  find_ref, ref_usage, may_use,
}
use vmwgfx.Objects.Balance.{uses, more, less, same_key}
use vmwgfx.Objects.Races.{System, mark, dying, IsCounted, IsUsable, IsLive}
use vmwgfx.Objects.Races.Lists.{Stays, keep-IsUsable}

-- Two states that differ in one object at most.
abbrev pub Same : (key : ℕ) → System → System → Type 0
Same key s t =
    (k : ℕ)
    → (k == key) ≡ false
    → (t.device.bases k ≡ s.device.bases k)
      × (uses k t.device.refs ≡ uses k s.device.refs)
      × (t.held k ≡ s.held k)
      × (t.removing k ≡ s.removing k)

pub one-IsLive :
    (key : ℕ) (s t : System)
    → IsLive s
    → Same key s t
    → IsCounted (t.device.bases key) (uses key t.device.refs) (t.held key) (t.removing key)
    → t.unlinking ≡ dying t.device.refs
    → All (IsUsable t.device.bases) t.device.refs
    → IsLive t
one-IsLive key s t v same right unlinking usable = record {
  counted = λ k. elim (Bool-cases (k == key)) [
    | inl this ↦
        subst (λ j. IsCounted (t.device.bases j) (uses j t.device.refs) (t.held j) (t.removing j))
          (sym (same_key k key this)) right
    | inr other ↦ let (a, b, c, d) = same k other in rw a (rw b (rw c (rw d (v.counted k))))
  ];
  unlinking = unlinking;
  usable = usable;
}

-- Where one object changes, the reference objects stay usable if it stays or has none.
pub one-IsUsable :
    (key : ℕ) (bases' : ℕ → Option Base) (s : System)
    → IsLive s
    → ((k : ℕ) → (k == key) ≡ false → bases' k ≡ s.device.bases k)
    → (uses key s.device.refs ≡ 0) ⊎ Stays s.device.bases bases' key
    → All (IsUsable bases') s.device.refs
one-IsUsable key bases' s v same here_too =
    keep-IsUsable s.device.bases bases' s.device.refs
      (λ k. elim (Bool-cases (k == key)) [
        | inl this ↦
            subst (λ j. (uses j s.device.refs ≡ 0) ⊎ Stays s.device.bases bases' j)
              (sym (same_key k key this)) here_too
        | inr other ↦ inr (λ b there. (b, same k other ∙ there, λ f. refl))
      ])
      v.usable

pub recount-IsUsable :
    (key n : ℕ) (b : Base) (s : System)
    → IsLive s
    → s.device.bases key ≡ some b
    → All (IsUsable (set_base key (some (record b { refcount = n })) s.device.bases)) s.device.refs
recount-IsUsable key n b s v there =
    one-IsUsable key (set_base key (some (record b { refcount = n })) s.device.bases) s v
      (λ k other. ground (arith, other))
      (inr (λ c at.
        let q : b ≡ c = ground (arith, there, at) in
        (record b { refcount = n }, ground arith, λ f. ap (λ (x : Base). may_use f x) q)))

pub get-IsLive :
    (key : ℕ) (b : Base) (s : System)
    → IsLive s
    → s.device.bases key ≡ some b
    → (b.refcount == 0) ≡ false
    → IsLive (record s { device = get_base key b s.device; held = more key s.held })
get-IsLive key b s v there alive =
    one-IsLive key s (record s { device = get_base key b s.device; held = more key s.held }) v
      (λ k other. (ground arith, refl, ground arith, refl))
      (ground (arith, there, alive, v.counted key)) v.unlinking
      (recount-IsUsable key (b.refcount + 1) b s v there)

pub lookup_for_ref-IsLive :
    (key : ℕ) (b : Base) (d : Device) (s : System)
    → IsLive s
    → lookup_for_ref key s.device ≡ (some b, d)
    → IsLive (record s { device = d; held = more key s.held })
unfolding lookup_for_ref
lookup_for_ref-IsLive key b d s v e = elim (Option-cases (s.device.bases key)) [
  | inl absent ↦ absurd (ground (arith, e, absent))
  | inr (c, there) ↦ elim (Bool-cases (c.refcount == 0)) [
    | inl ended ↦ absurd (ground (arith, e, there, ended))
    | inr alive ↦
        let q : get_base key c s.device ≡ d = ground (arith, e, there, alive) in
        subst (λ x. IsLive (record s { device = x; held = more key s.held })) q
          (get-IsLive key c s v there alive)
  ]
]

pub lookup-IsLive :
    (tfile key : ℕ) (b : Base) (r : Ref) (d : Device) (s : System)
    → IsLive s
    → find_ref tfile ref_usage key s.device.refs ≡ some r
    → lookup tfile key s.device ≡ (some b, d)
    → IsLive (record s { device = d; held = more r.obj s.held })
unfolding lookup
lookup-IsLive tfile key b r d s v found e =
    lookup_for_ref-IsLive r.obj b d s v (ground (arith, e, found))

pub put-IsLive :
    (key : ℕ) (s : System)
    → IsLive s
    → 0 < s.held key
    → IsLive (record s {
      device = (kref_put key s.device).1;
      held = less key s.held;
      removing = mark key (kref_put key s.device).0 s.removing;
    })
unfolding kref_put
put-IsLive key s v pos = elim (Option-cases (s.device.bases key)) [
  | inl absent ↦ absurd (ground (arith, absent, v.counted key, pos))
  | inr (b, there) ↦
      let d' : Device = record (s.device) {
        bases = set_base key (some (record b { refcount = b.refcount - 1 })) s.device.bases;
      } in
      let t : System = record s {
        device = d';
        held = less key s.held;
        removing = mark key (b.refcount == 1) s.removing;
      } in
      let q : (b.refcount == 1, d') ≡ kref_put key s.device = ground (arith, there) in
      subst
        (λ (x : Bool × Device).
          IsLive
            (record s { device = x.1; held = less key s.held; removing = mark key x.0 s.removing }))
        q
        (one-IsLive key s t v (λ k other. (ground arith, refl, ground arith, ground arith))
          (ground (arith, there, v.counted key, pos)) v.unlinking
          (recount-IsUsable key (b.refcount - 1) b s v there))
]

pub release_base-IsLive :
    (key : ℕ) (s : System)
    → IsLive s
    → s.removing key ≡ true
    → IsLive (record s { device = release_base key s.device; removing = mark key false s.removing })
unfolding release_base
release_base-IsLive key s v ended = elim (Option-cases (s.device.bases key)) [
  | inl absent ↦ absurd (ground (arith, absent, v.counted key, ended))
  | inr (b, there) ↦
      let d' : Device = record (s.device) {
        bases = set_base key none s.device.bases;
        file_refs = count_file (λ n. n - 1) b.tfile s.device.file_refs;
        released = key ∷ s.device.released;
      } in
      let q : d' ≡ release_base key s.device = ground (arith, there) in
      subst (λ x. IsLive (record s { device = x; removing = mark key false s.removing })) q
        (one-IsLive key s (record s { device = d'; removing = mark key false s.removing }) v
          (λ k other. (ground arith, refl, refl, ground arith))
          (ground (arith, there, v.counted key, ended)) v.unlinking
          (one-IsUsable key (set_base key none s.device.bases) s v
            (λ k other. ground (arith, other)) (inl (ground (arith, there, v.counted key, ended)))))
]
