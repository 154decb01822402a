-- ===== src/Objects/Races/Lists.antt =====
-- The list of reference objects: those whose count is 0, and those whose object their file may use.
use mathlib.Core.Path.{subst}
use vmwgfx.Prelude.{
  All, ◌⊎◌, ℕ, ◌+◌, ◌≡◌, ap, ◌∙◌, List, [], ◌∷◌, ◌++◌, Option, some, ◌==◌, if◌then◌else◌, arith,
  Bool-cases, inl, inr,
}
use vmwgfx.Objects.{Base, Ref, is_ref, find_ref, change_ref, drop_ref, may_use}
use vmwgfx.Objects.Balance.{uses}
use vmwgfx.Objects.Races.{dying, IsUsable}

-- The object of the key is still there for the same files.
abbrev pub Stays : (bases bases' : ℕ → Option Base) → (key : ℕ) → Type 0
Stays bases bases' key =
    (b : Base)
    → bases key ≡ some b
    → (b' : Base) × (bases' key ≡ some b') × ((f : ℕ) → may_use f b' ≡ may_use f b)

pub keep-IsUsable :
    (bases bases' : ℕ → Option Base) (rs : List Ref)
    → ((k : ℕ) → (uses k rs ≡ 0) ⊎ Stays bases bases' k)
    → All (IsUsable bases) rs
    → All (IsUsable bases') rs
keep-IsUsable bases bases' [] h v = tt
keep-IsUsable bases bases' (r ∷ rs) h ((b, there, may), v) = (
  elim (h r.obj) [
    | inl unused ↦ absurd (ground (arith, unused))
    | inr stays ↦ let (b', there', same) = stays b there in (b', there', same r.tfile ∙ may)
  ],
  keep-IsUsable bases bases' rs
      (λ k. elim (h k) [ inl unused ↦ inl (ground (arith, unused)) | inr stays ↦ inr stays ]) v,
)

pub drop-IsUsable :
    (tfile ref_type key : ℕ) (bases : ℕ → Option Base) (rs : List Ref)
    → All (IsUsable bases) rs
    → All (IsUsable bases) (drop_ref tfile ref_type key rs)
unfolding drop_ref
drop-IsUsable tfile ref_type key bases [] v = tt
drop-IsUsable tfile ref_type key bases (x ∷ rs) (p, v) =
    elim (Bool-cases (is_ref tfile ref_type key x)) [
      | inl this ↦ rw this v
      | inr other ↦ rw other (p, drop-IsUsable tfile ref_type key bases rs v)
    ]

pub change-IsUsable :
    (step : ℕ → ℕ) (tfile ref_type key : ℕ) (bases : ℕ → Option Base) (rs : List Ref)
    → All (IsUsable bases) rs
    → All (IsUsable bases) (change_ref step tfile ref_type key rs)
unfolding change_ref
change-IsUsable step tfile ref_type key bases [] v = tt
change-IsUsable step tfile ref_type key bases (x ∷ rs) (p, v) =
    elim (Bool-cases (is_ref tfile ref_type key x)) [
      | inl this ↦ rw this (p, v)
      | inr other ↦ rw other (p, change-IsUsable step tfile ref_type key bases rs v)
    ]

pub last-IsUsable :
    (bases : ℕ → Option Base) (rs : List Ref) (r : Ref)
    → All (IsUsable bases) rs
    → IsUsable bases r
    → All (IsUsable bases) (rs ++ (r ∷ []))
last-IsUsable bases [] r v p = (p, tt)
last-IsUsable bases (x ∷ rs) r (q, v) p = (q, last-IsUsable bases rs r v p)

pub drop-dying :
    (tfile ref_type key : ℕ) (rs : List Ref) (r : Ref)
    → find_ref tfile ref_type key rs ≡ some r
    → dying rs ≡ (if r.kref == 0 then 1 else 0) + dying (drop_ref tfile ref_type key rs)
unfolding find_ref drop_ref
drop-dying tfile ref_type key [] r e = cc
drop-dying tfile ref_type key (x ∷ rs) r e = elim (Bool-cases (is_ref tfile ref_type key x)) [
  | inl this ↦
      let q : x ≡ r = ground (arith, e, this) in ground (arith, this, ap (λ (y : Ref). y.kref) q)
  | inr other ↦ ground (arith, other, drop-dying tfile ref_type key rs r (ground (arith, e, other)))
]

pub change-dying :
    (step : ℕ → ℕ) (tfile ref_type key : ℕ) (rs : List Ref) (r : Ref)
    → find_ref tfile ref_type key rs ≡ some r
    → (if r.kref == 0 then 1 else 0) + dying (change_ref step tfile ref_type key rs)
      ≡ (if step r.kref == 0 then 1 else 0) + dying rs
unfolding find_ref change_ref
change-dying step tfile ref_type key [] r e = cc
change-dying step tfile ref_type key (x ∷ rs) r e =
    elim (Bool-cases (is_ref tfile ref_type key x)) [
      | inl this ↦
          let q : x ≡ r = ground (arith, e, this) in
          subst
            (λ (y : Ref).
              (if y.kref == 0 then 1 else 0) + dying (change_ref step tfile ref_type key (x ∷ rs))
              ≡ (if step y.kref == 0 then 1 else 0) + dying (x ∷ rs))
            q (ground (arith, this))
      | inr other ↦
          ground
            (arith, other, change-dying step tfile ref_type key rs r (ground (arith, e, other)))
    ]

pub uses-last :
    (k : ℕ) (rs : List Ref) (r : Ref) → uses k (rs ++ (r ∷ [])) ≡ uses k rs + uses k (r ∷ [])
uses-last k [] r = omega arith
uses-last k (x ∷ rs) r = omega (arith, uses-last k rs r)

pub dying-last : (rs : List Ref) (r : Ref) → dying (rs ++ (r ∷ [])) ≡ dying rs + dying (r ∷ [])
dying-last [] r = omega arith
dying-last (x ∷ rs) r = omega (arith, dying-last rs r)
