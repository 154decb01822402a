-- ===== src/Hashtab/Keys.antt =====
-- `drm_ht_just_insert_please` ends, and gives up only when every key is taken.
use native.Mathlib.Nat.{mod-add-mod, add-mod_right, mod-eq_of_lt}
use vmwgfx.Prelude.{
  ℕ, zero, suc, ◌+◌, ◌-◌, ◌%◌, ◌^◌, ◌<◌, ◌≡◌, refl, sym, ◌∙◌, ap, true, false, Option, none, some,
  arith, ◌==◌, ==_refl, Bool-cases, ltb, ltb→lt, inl, inr, Outcome, ok, err, einval,
}
use mathlib.Core.Path.{subst}
use vmwgfx.Hashtab.{Item, Table, insert_item, shifted, insert_loop, just_insert_please}
use vmwgfx.Hashtab.Lookup.{IsTable, get, Inserted, insert_item-Inserted}

module _ (hash : ℕ → ℕ) (t : Table) (owner bits shift add first : ℕ) where
  -- the `k`-th key that is tried
  abbrev pub tried : ℕ → ℕ
  tried k = shifted hash shift add ((first + k) % 2 ^ bits)

  abbrev IsTaken : ℕ → Type 0
  IsTaken k = (old : Item) × (get hash t (tried k) ≡ some old)

  -- What a call comes to.
  abbrev pub Pleased : Option (Outcome (ℕ × Table)) → Type 0
  Pleased none = ⊥
  Pleased (some (err e)) =
      (e ≡ einval) × ((k : ℕ) → k < 2 ^ bits → (old : Item) × (get hash t (tried k) ≡ some old))
  Pleased (some (ok (key, t'))) =
      ((k : ℕ) × (k < 2 ^ bits) × (key ≡ tried k))
      × Inserted hash t (record { key = key; owner = owner }) (ok t')

  next-tried : (k : ℕ) → ((first + k) % 2 ^ bits + 1) % 2 ^ bits ≡ (first + suc k) % 2 ^ bits
  next-tried k = mod-add-mod (first + k) (2 ^ bits) 1 ∙ ap (λ n. n % 2 ^ bits) (omega arith)

  module _ (v : IsTable t) (low : first < 2 ^ bits) where
    start : first % 2 ^ bits ≡ first
    start = mod-eq_of_lt low

    comes_round : (k : ℕ) → suc k ≡ 2 ^ bits → ((first + suc k) % 2 ^ bits == first) ≡ true
    comes_round k h =
        let e : (first + suc k) % 2 ^ bits ≡ first =
          ap (λ n. (first + n) % 2 ^ bits) h ∙ add-mod_right first (2 ^ bits) ∙ start in
        rw e (==_refl first)

    early : (k : ℕ) → suc k < 2 ^ bits → ((first + suc k) % 2 ^ bits == first) ≡ false
    early k h = elim (Bool-cases (ltb (first + suc k) (2 ^ bits))) [
      | inl below ↦
          ground (arith, mod-eq_of_lt {n = first + suc k} {m = 2 ^ bits} (ltb→lt _ _ below))
      | inr above ↦
          let back : first + suc k - 2 ^ bits < 2 ^ bits = ground arith in
          let whole : (first + suc k - 2 ^ bits + 2 ^ bits) ≡ first + suc k = ground arith in
          let e : (first + suc k) % 2 ^ bits ≡ first + suc k - 2 ^ bits =
            ap (λ n. n % 2 ^ bits) (sym whole)
            ∙ add-mod_right (first + suc k - 2 ^ bits) (2 ^ bits)
            ∙ mod-eq_of_lt back in
          ground (arith, e)
    ]

    loop-Pleased :
        (m k : ℕ)
        → k + m ≡ 2 ^ bits
        → 0 < m
        → ((j : ℕ) → j < k → IsTaken j)
        → Pleased (insert_loop hash m t owner bits shift add first ((first + k) % 2 ^ bits))
    unfolding insert_loop
    loop-Pleased zero k h pos before = absurd (omega arith)
    loop-Pleased (suc m) k h pos before =
        go (loop-Pleased m (suc k)) (insert_item hash t item) refl
          (insert_item-Inserted hash t item v)
      where
        item : Item
        item = record { key = tried k; owner = owner }

        before' : IsTaken k → (j : ℕ) → j < suc k → IsTaken j
        before' now j lt = elim (Bool-cases (j == k)) [
          | inl same ↦ subst (λ i. IsTaken i) (ground arith) now
          | inr other ↦ before j (ground arith)
        ]

        go :
            (suc k + m ≡ 2 ^ bits
              → 0 < m
              → ((j : ℕ) → j < suc k → IsTaken j)
              → Pleased
                  (insert_loop hash m t owner bits shift add first ((first + suc k) % 2 ^ bits)))
            → (o : Outcome Table) → insert_item hash t item ≡ o
            → Inserted hash t item o
            → Pleased
                (insert_loop hash (suc m) t owner bits shift add first ((first + k) % 2 ^ bits))
        go again (ok t') q p = rw (q, insert_loop) ((k, omega arith, refl), p)
        go again (err e) q p = elim (Bool-cases (m == 0)) [
          | inl last ↦
              rw (q, insert_loop)
                (rw (next-tried k)
                  (rw (comes_round k (ground arith)) (refl, λ j lt. before' p.1 j (ground arith))))
          | inr more ↦
              rw (q, insert_loop)
                (rw (next-tried k) (
                  rw (early k (ground arith)) (
                    subst (λ u. Pleased (insert_loop hash m t owner bits shift add first u))
                      (sym (next-tried k)) (again (omega arith) (ground arith) (before' p.1)))))
        ]

    -- `drm_ht_just_insert_please` ends within its 2 ^ bits rounds. It gives up, with EINVAL, only
    -- when each of the keys that it can try is taken; otherwise it inserts the item under one of them
    -- that was not. The hash of the seed is below 2 ^ bits.
    pub just_insert_please-Pleased : Pleased (just_insert_please hash t owner first bits shift add)
    unfolding just_insert_please
    just_insert_please-Pleased =
        subst (λ u. Pleased (insert_loop hash (2 ^ bits) t owner bits shift add first u))
          (ap (λ n. n % 2 ^ bits) (omega arith) ∙ start)
          (loop-Pleased (2 ^ bits) 0 (omega arith) (omega (arith, low))
            (λ j lt. absurd (omega arith)))
