-- ===== src/Verifier/Bounce.antt =====
-- The buffer that a command stream is copied to grows until it holds the stream, or for ever.
use vmwgfx.Prelude.{
  ℕ, zero, suc, ◌+◌, ◌-◌, ◌*◌, ◌/◌, ◌^◌, ◌≤◌, ◌<◌, ◌≡◌, refl, Bool, false, none, some, leb, ltb,
  ◌==◌, if◌then◌else◌, arith, add32, Outcome, ok, err, enomem, Bool-cases, inl, inr, ◌⊎◌, ltb→lt,
}
use vmwgfx.Verifier.{page_align32, bounce_loop, bounce_init_size, resize_cmd_bounce}

-- A round grows the buffer by half and up to a page.
grow :
    (x : ℕ)
    → bounce_init_size ≤ x
    → x < 2 ^ 31
    → (x < page_align32 (add32 x (x / 2))) × (2 * page_align32 (add32 x (x / 2)) ≤ 3 * x + 8192)
grow x big small = omega arith

bounce_loop-grown :
    (fuel x size : ℕ)
    → bounce_init_size ≤ x
    → size ≤ 2 ^ 31
    → 0 < fuel
    → size < fuel + x
    → 2 * x ≤ 3 * size + 65536
    → (grown : ℕ) × (bounce_loop fuel x size ≡ some grown)
      × (size ≤ grown)
      × (2 * grown ≤ 3 * size + 65536)
unfolding bounce_loop
bounce_loop-grown zero x size big small pos few near = absurd (omega arith)
bounce_loop-grown (suc fuel) x size big small pos few near = elim (Bool-cases (ltb x size)) [
  | inl less ↦
      let lt = ltb→lt x size less in
      let g = grow x big (omega (arith, lt)) in
      let (grown, e, p, q) =
        bounce_loop-grown fuel (page_align32 (add32 x (x / 2))) size (omega (arith, g)) small
          (omega (arith, lt)) (omega (arith, g)) (omega (arith, g, lt)) in
      (grown, ground (arith, e), p, q)
  | inr enough ↦ (x, ground arith, ground arith, near)
]

-- What resizing comes to: the buffer holds `size` bytes, or memory is short and it is gone.
abbrev pub Resized : (vmalloc : ℕ → Bool) → (old size : ℕ) → Outcome (Unit {0}) × ℕ → Type 0
Resized vmalloc old size (ok _, new) = (size ≤ new) × ((new ≡ old) ⊎ (2 * new ≤ 3 * size + 65536))
Resized vmalloc old size (err e, new) =
    (e ≡ enomem)
    × (new ≡ 0)
    × ((grown : ℕ) × (vmalloc grown ≡ false) × (size ≤ grown) × (2 * grown ≤ 3 * size + 65536))

-- For a stream of up to 2 ^ 31 bytes the bounce buffer stops growing, within as many rounds as the
-- stream has bytes: it then holds the stream, and where it grew it is at most half as large again but for
-- 32 KB; or that much memory is not to be had, and the buffer is empty. It supposes that the buffer was
-- empty before, or no smaller than when it is first allocated.
pub resize_cmd_bounce-Resized :
    (vmalloc : ℕ → Bool) (old size : ℕ)
    → (old ≡ 0) ⊎ (bounce_init_size ≤ old)
    → size ≤ 2 ^ 31
    → (r : Outcome (Unit {0}) × ℕ) × (resize_cmd_bounce vmalloc (suc size) old size ≡ some r)
      × Resized vmalloc old size r
unfolding resize_cmd_bounce
resize_cmd_bounce-Resized vmalloc old size start small = elim (Bool-cases (leb size old)) [
  | inl fits ↦ ((ok tt, old), ground arith, (ground arith, inl refl))
  | inr short ↦
      let x = if old == 0 then bounce_init_size else old in
      let (grown, e, p, q) =
        bounce_loop-grown (suc size) x size (ground arith) small (omega arith) (ground arith)
          (ground arith) in
      elim (Bool-cases (vmalloc grown)) [
        | inl got ↦ ((ok tt, grown), ground (arith, e), (p, inr q))
        | inr failed ↦ ((err enomem, 0), ground (arith, e), (refl, refl, (grown, failed, p, q)))
      ]
]

bounce_loop-stuck :
    (fuel x size : ℕ) → x ≤ 2 ^ 32 - 4096 → 2 ^ 32 - 4096 < size → bounce_loop fuel x size ≡ none
unfolding bounce_loop
bounce_loop-stuck zero x size page huge = refl
bounce_loop-stuck (suc fuel) x size page huge =
    ground (arith, bounce_loop-stuck fuel (page_align32 (add32 x (x / 2))) size)

-- A stream larger than 2 ^ 32 - 4096 bytes makes the buffer grow for ever: no number of rounds is
-- enough, since no page-aligned 32-bit size reaches it.
pub resize_cmd_bounce-stuck :
    (vmalloc : ℕ → Bool) (fuel old size : ℕ)
    → old ≤ 2 ^ 32 - 4096
    → 2 ^ 32 - 4096 < size
    → resize_cmd_bounce vmalloc fuel old size ≡ none
unfolding resize_cmd_bounce
resize_cmd_bounce-stuck vmalloc fuel old size page huge =
    let x = if old == 0 then bounce_init_size else old in
    ground (arith, bounce_loop-stuck fuel x size)
