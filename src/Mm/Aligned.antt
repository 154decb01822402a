-- ===== src/Mm/Aligned.antt =====
-- The first address from a start on that is a multiple of the alignment; no alignment is 0.
use native.Mathlib.Nat.{mod-add-mod, mod_self, mod-lt, mod-eq_of_lt}
use vmwgfx.Prelude.{
  ℕ, ◌+◌, ◌-◌, ◌%◌, ◌≤◌, ◌<◌, ◌≡◌, ◌≢◌, sym, ◌∙◌, ap, ◌==◌, arith, ◌⊎◌, inl, inr, Bool-cases,
  u32_mod, ltb,
}
use vmwgfx.Mm.Get.{align_waste}

abbrev pub IsAligned : (alignment at : ℕ) → Type 0
IsAligned alignment at = (alignment ≡ 0) ⊎ (at % alignment ≡ 0)

abbrev pub IsFirstAligned : (start alignment at : ℕ) → Type 0
IsFirstAligned start alignment at =
    (start ≤ at) × IsAligned alignment at × ((x : ℕ) → start ≤ x → IsAligned alignment x → at ≤ x)

align-mod :
    (start alignment : ℕ)
    → alignment ≢ 0
    → alignment < u32_mod
    → (start + align_waste start alignment) % alignment ≡ 0
unfolding align_waste
align-mod start alignment ne small =
    sym (mod-add-mod start alignment (align_waste start alignment))
    ∙ ground (arith, mod-lt start {m = alignment}, mod_self alignment)

pub align_waste-lt :
    (start alignment : ℕ)
    → alignment ≢ 0
    → alignment < u32_mod
    → align_waste start alignment < alignment
unfolding align_waste
align_waste-lt start alignment ne small = ground (arith, mod-lt start {m = alignment})

pub align_waste-le :
    (start alignment : ℕ) → alignment < u32_mod → align_waste start alignment ≤ alignment
unfolding align_waste
align_waste-le start alignment small = elim (Bool-cases (alignment == 0)) [
  | inl whole ↦ ground arith
  | inr ne ↦ ground (arith, align_waste-lt start alignment (ground arith) small)
]

small-mod : (d m : ℕ) → d < m → d % m ≡ d
small-mod d m lt = mod-eq_of_lt lt

-- Two multiples are not less than a multiple apart.
multiple-apart : (x a m : ℕ) → m ≢ 0 → x % m ≡ 0 → a % m ≡ 0 → x < a → a < x + m → ⊥
multiple-apart x a m ne hx ha lt near =
    let d = a - x in
    let q : (x + d) % m ≡ d % m =
      sym (mod-add-mod x m d) ∙ ap (λ k. (k + d) % m) hx ∙ ap (λ k. k % m) (omega arith) in
    let z : d % m ≡ 0 = sym q ∙ ap (λ k. k % m) (omega (arith, lt)) ∙ ha in
    omega (arith, z, small-mod d m (omega (arith, near, lt)), lt)

nothing_below :
    (start alignment : ℕ)
    → alignment ≢ 0
    → alignment < u32_mod
    → (x : ℕ) → start ≤ x
    → x % alignment ≡ 0
    → start + align_waste start alignment ≤ x
nothing_below start alignment ne small x le hx =
    elim (Bool-cases (ltb x (start + align_waste start alignment))) [
      | inl below ↦ absurd (
          multiple-apart x (start + align_waste start alignment) alignment ne hx
            (align-mod start alignment ne small) (ground arith)
            (omega (arith, le, align_waste-lt start alignment ne small)))
      | inr above ↦ ground arith
    ]

pub align_waste-IsFirstAligned :
    (start alignment : ℕ)
    → alignment < u32_mod
    → IsFirstAligned start alignment (start + align_waste start alignment)
unfolding align_waste
align_waste-IsFirstAligned start alignment small = elim (Bool-cases (alignment == 0)) [
  | inl none ↦ (omega arith, inl (ground arith), λ x le h. ground arith)
  | inr some ↦
      let ne : alignment ≢ 0 = ground arith in
      (
        omega arith,
        inr (align-mod start alignment ne small),
        λ x le h. nothing_below start alignment ne small x le (ground (arith, h)),
      )
]
