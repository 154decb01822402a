-- ===== src/Memory/RoundPot.antt =====
-- `ttm_round_pot` rounds up, to less than twice the size.
use Prim.Native.Nat.{bit_and}
use vmwgfx.Prelude.{
  ℕ, zero, suc, ◌+◌, ◌*◌, ◌≤◌, ◌<◌, ◌≡◌, false, ◌==◌, arith, u64_mod, sub64, Bool-cases, inl, inr,
}
use vmwgfx.Memory.{page_size, page_align, double_up, round_pot}

-- 0, 1 and 2 pass the test for a power of two.
three_le : (size : ℕ) → 0 < size → (bit_and size (sub64 size 1) == 0) ≡ false → 3 ≤ size
three_le zero pos other = omega arith
three_le (suc zero) pos other = cc
three_le (suc (suc zero)) pos other = cc
three_le (suc (suc (suc n))) pos other = omega arith

double_up-ge :
    (size : ℕ)
    → 3 ≤ size
    → size ≤ 4096
    → (size ≤ double_up 10 4 size) × (double_up 10 4 size < 2 * size)
unfolding double_up
double_up-ge size three small = ground arith

page_align-ge :
    (size : ℕ)
    → page_size < size
    → size + page_size < u64_mod
    → (size ≤ page_align size) × (page_align size < 2 * size)
page_align-ge size big small = (omega arith, omega arith)

-- A size is rounded up to less than its double, page alignment included, and nothing wraps.
pub round_pot-ge :
    (size : ℕ)
    → 0 < size
    → size + page_size < u64_mod
    → (size ≤ round_pot size) × (round_pot size < 2 * size)
unfolding round_pot
round_pot-ge size pos small = elim (Bool-cases (bit_and size (sub64 size 1) == 0)) [
  | inl pot ↦ rw pot (omega arith, omega arith)
  | inr other ↦
      rw other (ground (arith, double_up-ge size (three_le size pos other), page_align-ge size))
]
