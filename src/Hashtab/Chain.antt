-- ===== src/Hashtab/Chain.antt =====
-- Chains are sorted by key, and the walks that stop early are right.
use vmwgfx.Prelude.{
  ℕ, ◌≤◌, ◌<◌, ◌⊎◌, ◌≡◌, ◌≢◌, refl, ◌&&◌, List, [], ◌∷◌, Option, none, some, arith, ltb, ◌==◌,
  if◌then◌else◌, Bool-cases, inl, inr,
}
use mathlib.Core.Path.{subst, sym}
use vmwgfx.Hashtab.{Item, find_chain, insert_chain, delete_chain}

some-injective {ℓ} : {A : Type ℓ} {a b : A} → some a ≡ some b → a ≡ b
some-injective h = cc

-- The keys of a chain rise strictly, and are above `lo` (if there is such a bound, `some lo`).
abbrev pub Above : Option ℕ → ℕ → Type 0
Above none k = Unit
Above (some lo) k = lo < k

abbrev pub IsSorted : Option ℕ → List Item → Type 0
IsSorted lo [] = Unit
IsSorted lo (e ∷ es) = Above lo e.key × IsSorted (some e.key) es

pub find-below :
    (es : List Item) (lo k : ℕ) → IsSorted (some lo) es → k ≤ lo → find_chain k es ≡ none
unfolding find_chain
find-below [] lo k s h = refl
find-below (e ∷ es) lo k s h = ground (arith, find-below es e.key k s.1)

-- An insertion fails exactly when the key is there.
pub insert-taken :
    (es : List Item) (item old : Item)
    → find_chain item.key es ≡ some old
    → insert_chain item es ≡ none
unfolding insert_chain find_chain
insert-taken [] item old h = cc
insert-taken (e ∷ es) item old h = ground (arith, insert-taken es item old)

pub insert-new :
    (es : List Item) (item : Item) → find_chain item.key es ≡ none → insert_chain item es ≢ none
unfolding insert_chain find_chain
insert-new [] item h = cc
insert-new (e ∷ es) item h = ground (arith, insert-new es item)

-- Where an insertion puts the item.
Placed : Item → Item → (es c : List Item) → Type 0
Placed item e es c =
    ((item.key < e.key) × (c ≡ item ∷ e ∷ es))
    ⊎ ((e.key < item.key) × ((c' : List Item) × (insert_chain item es ≡ some c') × (c ≡ e ∷ c')))

insert-Placed :
    (item e : Item) (es c : List Item) → insert_chain item (e ∷ es) ≡ some c → Placed item e es c
unfolding insert_chain Placed
insert-Placed item e es c h = go (insert_chain item es) refl
  where
    go :
        (o : Option (List Item))
        → insert_chain item es ≡ o
        → ((item.key < e.key) × (c ≡ item ∷ e ∷ es))
          ⊎ ((e.key < item.key)
              × ((c' : List Item) × (insert_chain item es ≡ some c') × (c ≡ e ∷ c')))
    go none q = inl (ground arith, ground arith)
    go (some c') q = elim (Bool-cases (ltb item.key e.key)) [
      | inl before ↦ inl (ground arith, ground arith)
      | inr after ↦ inr (ground arith, (c', q, ground arith))
    ]

pub insert-IsSorted :
    (es c : List Item) (lo : Option ℕ) (item : Item)
    → IsSorted lo es
    → Above lo item.key
    → insert_chain item es ≡ some c
    → IsSorted lo c
unfolding insert_chain Placed
insert-IsSorted [] c lo item s a h = subst (λ c. IsSorted lo c) (some-injective h) (a, tt)
insert-IsSorted (e ∷ es) c lo item s a h = elim (insert-Placed item e es c h) [
  | inl (lt, q) ↦ subst (λ c. IsSorted lo c) (sym q) (a, (lt, s.1))
  | inr (gt, r) ↦
      subst (λ c. IsSorted lo c) (sym r.2)
        (s.0, insert-IsSorted es r.0 (some e.key) item s.1 gt r.1)
]

pub find-insert :
    (es c : List Item) (item : Item) (lo : Option ℕ) (k : ℕ)
    → IsSorted lo es
    → insert_chain item es ≡ some c
    → find_chain k c ≡ (if item.key == k then some item else find_chain k es)
unfolding insert_chain find_chain Placed
find-insert [] c item lo k s h = ground arith
find-insert (e ∷ es) c item lo k s h = elim (insert-Placed item e es c h) [
  | inl (lt, q) ↦ ground (arith, find-below es e.key k s.1)
  | inr (gt, r) ↦ ground (arith, r.2, find-insert es r.0 item (some e.key) k s.1 r.1)
]

IsSorted-weaken :
    (es : List Item) (lo : Option ℕ) (k : ℕ) → Above lo k → IsSorted (some k) es → IsSorted lo es
IsSorted-weaken [] lo k a s = tt
IsSorted-weaken (e ∷ es) none k a s = (tt, s.1)
IsSorted-weaken (e ∷ es) (some lo) k a s = (omega arith, s.1)

pub delete-IsSorted :
    (es : List Item) (lo : Option ℕ) (item : Item)
    → IsSorted lo es
    → IsSorted lo (delete_chain item es)
unfolding delete_chain
delete-IsSorted [] lo item s = tt
delete-IsSorted (e ∷ es) lo item s =
    elim (Bool-cases (e.key == item.key && e.owner == item.owner)) [
      | inl found ↦ rw (found, delete_chain) (IsSorted-weaken es lo e.key s.0 s.1)
      | inr passed ↦ rw (passed, delete_chain) (s.0, delete-IsSorted es (some e.key) item s.1)
    ]

pub find-delete :
    (es : List Item) (item : Item) (lo : Option ℕ) (k : ℕ)
    → IsSorted lo es
    → find_chain item.key es ≡ some item
    → find_chain k (delete_chain item es) ≡ (if item.key == k then none else find_chain k es)
unfolding delete_chain find_chain
find-delete [] item lo k s h = cc
find-delete (e ∷ es) item lo k s h =
    ground (arith, find-below es e.key k s.1, find-delete es item (some e.key) k s.1)
