-- ===== src/Objects/Balance.antt =====
-- The count of an object is that of its reference objects and of the references that callers hold.
use vmwgfx.Prelude.{
  ℕ, ◌+◌, ◌-◌, ◌<◌, ◌≡◌, sym, ◌∙◌, ap, true, false, List, [], ◌∷◌, Option, none, some, ◌==◌,
  if◌then◌else◌, arith, All, length, Bool-cases, Option-cases, inl, inr,
}
use mathlib.Core.Path.{subst}
use vmwgfx.Objects.{
  Base, Ref, Device, set_base, kref_put, release_base, base_unref, get_base, count_file, may_use,
}

-- the reference objects of an object
abbrev pub uses : (key : ℕ) → List Ref → ℕ
uses key [] = 0
uses key (r ∷ rs) = (if r.obj == key then 1 else 0) + uses key rs

-- A reference object is on a live object that its file may use, and is in use itself.
abbrev pub IsAllowed : (ℕ → Option Base) → Ref → Type 0
IsAllowed bases r =
    (0 < r.kref) × ((b : Base) × (bases r.obj ≡ some b) × (may_use r.tfile b ≡ true))

-- The books: `held` are the references that callers hold, and `extra` reference objects are being
-- freed.
pub record IsBalanced (extra : ℕ) (held : ℕ → ℕ) (d : Device) : Type 0 where
  pub counts :
      (key : ℕ) (b : Base)
      → d.bases key ≡ some b
      → (b.refcount ≡ uses key d.refs + held key) × (0 < b.refcount)
  pub dead : (key : ℕ) → d.bases key ≡ none → (uses key d.refs ≡ 0) × (held key ≡ 0)
  pub charged : d.charged ≡ extra + length d.refs
  pub allowed : All (IsAllowed d.bases) d.refs

-- references that callers hold, one more or one less on an object
abbrev pub more : (key : ℕ) → (ℕ → ℕ) → ℕ → ℕ
more key held k = if k == key then held k + 1 else held k

abbrev pub less : (key : ℕ) → (ℕ → ℕ) → ℕ → ℕ
less key held k = if k == key then held k - 1 else held k

pub same_key : (a b : ℕ) → (a == b) ≡ true → a ≡ b
same_key a b h = ground arith

-- A count changes on one object, or the object goes that no reference object is on.
counted-IsAllowed :
    (key : ℕ) (b : Base) (n : ℕ) (bases : ℕ → Option Base) (rs : List Ref)
    → bases key ≡ some b
    → All (IsAllowed bases) rs
    → All (IsAllowed (set_base key (some (record b { refcount = n })) bases)) rs
counted-IsAllowed key b n bases [] e v = tt
counted-IsAllowed key b n bases (r ∷ rs) e ((pos, (c, f, u)), v) =
    elim (Bool-cases (r.obj == key)) [
      | inl this ↦
          let q : bases r.obj ≡ bases key = ap bases (same_key r.obj key this) in
          (
            (pos, (record b { refcount = n }, ground arith, ground (arith, q))),
            counted-IsAllowed key b n bases rs e v,
          )
      | inr other ↦ ((pos, (c, ground arith, u)), counted-IsAllowed key b n bases rs e v)
    ]

gone-IsAllowed :
    (key : ℕ) (bases bases' : ℕ → Option Base) (rs : List Ref)
    → ((k : ℕ) → (k == key) ≡ false → bases' k ≡ bases k)
    → uses key rs ≡ 0
    → All (IsAllowed bases) rs
    → All (IsAllowed bases') rs
gone-IsAllowed key bases bases' [] same e v = tt
gone-IsAllowed key bases bases' (r ∷ rs) same e ((pos, (c, f, u)), v) =
    let q : bases' r.obj ≡ bases r.obj = same r.obj (ground (arith, e)) in
    ((pos, (c, q ∙ f, u)), gone-IsAllowed key bases bases' rs same (ground (arith, e)) v)

-- A count that is right makes right books.
recount :
    (extra key n : ℕ) (b : Base) (held held' : ℕ → ℕ) (d : Device)
    → IsBalanced extra held d
    → d.bases key ≡ some b
    → n ≡ uses key d.refs + held' key
    → 0 < n
    → ((k : ℕ) → (k == key) ≡ false → held' k ≡ held k)
    → IsBalanced extra held'
        (record d { bases = set_base key (some (record b { refcount = n })) d.bases })
recount extra key n b held held' d v e right pos others = record {
  counts = λ k c h. elim (Bool-cases (k == key)) [
    | inl this ↦
        let q = same_key k key this in
        subst (λ j. (c.refcount ≡ uses j d.refs + held' j) × (0 < c.refcount)) (sym q)
          (ground arith)
    | inr other ↦ ground (arith, others k other, v.counts k c)
  ];
  dead = λ k h. elim (Bool-cases (k == key)) [
    | inl this ↦ absurd (ground (arith, h, this))
    | inr other ↦ ground (arith, others k other, v.dead k)
  ];
  charged = v.charged;
  allowed = counted-IsAllowed key b n d.bases d.refs e v.allowed;
}

remove_base-IsBalanced :
    (extra key : ℕ) (held held' file_refs : ℕ → ℕ) (bases' : ℕ → Option Base) (released : List ℕ)
    (d : Device)
    → IsBalanced extra held d
    → bases' key ≡ none
    → ((k : ℕ) → (k == key) ≡ false → bases' k ≡ d.bases k)
    → uses key d.refs ≡ 0
    → held' key ≡ 0
    → ((k : ℕ) → (k == key) ≡ false → held' k ≡ held k)
    → IsBalanced extra held'
        (record d { bases = bases'; file_refs = file_refs; released = released })
remove_base-IsBalanced extra key held held' file_refs bases' released d v gone same unused none_held
      others =
    record {
      counts = λ k c h. elim (Bool-cases (k == key)) [
        | inl this ↦ absurd (ground (arith, h, gone, ap bases' (same_key k key this)))
        | inr other ↦ ground (arith, others k other, same k other, v.counts k c)
      ];
      dead = λ k h. elim (Bool-cases (k == key)) [
        | inl this ↦
            subst (λ j. (uses j d.refs ≡ 0) × (held' j ≡ 0)) (sym (same_key k key this))
              (unused, none_held)
        | inr other ↦ ground (arith, others k other, same k other, v.dead k)
      ];
      charged = v.charged;
      allowed = gone-IsAllowed key d.bases bases' d.refs same unused v.allowed;
    }

-- A caller gives up a reference that it holds.
pub base_unref-IsBalanced :
    (extra key : ℕ) (held : ℕ → ℕ) (d : Device)
    → IsBalanced extra held d
    → 0 < held key
    → IsBalanced extra (less key held) (base_unref key d)
unfolding base_unref kref_put release_base
base_unref-IsBalanced extra key held d v pos = elim (Option-cases (d.bases key)) [
  | inl freed ↦ absurd (omega (arith, v.dead key freed, pos))
  | inr (b, e) ↦
      let (right, alive) = v.counts key b e in
      elim (Bool-cases (b.refcount == 1)) [
        | inl last ↦
            let files = count_file (λ n. n - 1) b.tfile d.file_refs in
            let bases' : ℕ → Option Base =
              set_base key none
                (set_base key (some (record b { refcount = b.refcount - 1 })) d.bases) in
            let d' : Device = record d {
              bases = bases';
              file_refs = files;
              released = key ∷ d.released;
            } in
            let q : d' ≡ base_unref key d = ground (arith, e, last) in
            subst (λ x. IsBalanced extra (less key held) x) q
              (remove_base-IsBalanced extra key held (less key held) files bases' (key ∷ d.released)
                d v (ground arith) (λ k other. ground (arith, other)) (ground arith) (ground arith)
                (λ k other. ground (arith, other)))
        | inr others ↦
            let d' : Device = record d {
              bases = set_base key (some (record b { refcount = b.refcount - 1 })) d.bases;
            } in
            let q : d' ≡ base_unref key d = ground (arith, e, others) in
            subst (λ x. IsBalanced extra (less key held) x) q
              (recount extra key (b.refcount - 1) b held (less key held) d v e (ground arith)
                (ground arith) (λ k other. ground (arith, other)))
      ]
]

-- A caller takes a reference of a live object.
pub get_base-IsBalanced :
    (extra key : ℕ) (b : Base) (held : ℕ → ℕ) (d : Device)
    → IsBalanced extra held d
    → d.bases key ≡ some b
    → IsBalanced extra (more key held) (get_base key b d)
get_base-IsBalanced extra key b held d v e =
    recount extra key (b.refcount + 1) b held (more key held) d v e
      (ground (arith, v.counts key b e)) (omega arith) (λ k other. ground (arith, other))
