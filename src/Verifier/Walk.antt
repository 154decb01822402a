-- ===== src/Verifier/Walk.antt =====
-- The walk over a command stream covers it exactly, and ends.
use vmwgfx.Prelude.{
  ℕ, zero, suc, ◌+◌, ◌-◌, ◌^◌, ◌≤◌, ◌<◌, ◌≡◌, refl, sym, Bool, true, false, ◌&&◌, some, ltb, ◌==◌,
  arith, add32, sub32, Outcome, einval, eperm, Bool-cases, inl, inr, ◌⊎◌,
}
use mathlib.Core.Path.{subst}
use vmwgfx.Verifier.Commands.{Checker}
use vmwgfx.Verifier.{Verdict, passes, refused, oops, check, check_loop, check_all}
use vmwgfx.Verifier.User.{check-Judged, Judged}

module _ {S : Type 0} (word : S → ℕ → ℕ) (func : Checker → ℕ → S → Outcome (Unit {0}) × S) where
  -- The commands from `pos` up to `end` pass one after the other, each within the stream.
  pub data Accepted (gb : Bool) (end : ℕ) : (pos : ℕ) → S → S → Type 0 where
    over : {s : S} → Accepted gb end end s s
    command :
        {pos size : ℕ} {s t u : S}
        → check word func false gb (end - pos) pos s ≡ (passes size, t)
        → size ≤ end - pos
        → Accepted gb end (pos + size) t u
        → Accepted gb end pos s u

  -- What the walk of a user's stream from `pos` to `end` comes to.
  abbrev pub Walked : (gb : Bool) → (end pos : ℕ) → S → Verdict × S → Type 0
  Walked gb end pos s (passes size, t) = (size ≡ end) × Accepted gb end pos s t
  Walked gb end pos s (refused e, t) = (e ≡ einval) ⊎ (e ≡ eperm)
  Walked gb end pos s (oops, t) = ⊥

  extend-Walked :
      (gb : Bool) (end pos size : ℕ) (s s' : S) (r : Verdict × S)
      → check word func false gb (end - pos) pos s ≡ (passes size, s')
      → size ≤ end - pos
      → Walked gb end (pos + size) s' r
      → Walked gb end pos s r
  extend-Walked gb end pos size s s' (passes n, t) q le (e, a) = (e, command q le a)
  extend-Walked gb end pos size s s' (refused e, t) q le w = w
  extend-Walked gb end pos size s s' (oops, t) q le w = w

  over-Walked : (gb : Bool) (end pos : ℕ) (s : S) → pos ≡ end → Walked gb end pos s (passes pos, s)
  over-Walked gb end pos s e = subst (λ x. Walked gb end x s (passes x, s)) (sym e) (refl, over)

  check_loop-Walked :
      (fuel : ℕ) (gb : Bool) (end pos : ℕ) (s : S) (r : Verdict × S)
      → pos ≤ end
      → end < 2 ^ 32
      → check_loop word func fuel false gb (end - pos) pos s ≡ some r
      → Walked gb end pos s r
  unfolding check_loop
  check_loop-Walked zero gb end pos s r le small e = cc
  check_loop-Walked (suc fuel) gb end pos s r le small e =
      elim (Bool-cases (ltb 0 (end - pos) && ltb (end - pos) (2 ^ 31))) [
        | inl more ↦
            go (check word func false gb (end - pos) pos s) refl more
              (check-Judged word func gb (end - pos) pos s) (check_loop-Walked fuel gb end)
        | inr no_more ↦ elim (Bool-cases (end - pos == 0)) [
          | inl done ↦
              let q : (passes pos, s) ≡ r = ground (arith, e) in
              subst (λ x. Walked gb end pos s x) q (over-Walked gb end pos s (ground arith))
          | inr out_of_sync ↦
              let q : (refused einval, s) ≡ r = ground (arith, e) in
              subst (λ x. Walked gb end pos s x) q (inl refl)
        ]
      ]
    where
      go :
          (v : Verdict × S)
          → check word func false gb (end - pos) pos s ≡ v
          → ltb 0 (end - pos) && ltb (end - pos) (2 ^ 31) ≡ true
          → Judged word func gb (end - pos) pos s v
          → ((pos' : ℕ) (s' : S) (r' : Verdict × S)
              → pos' ≤ end
              → end < 2 ^ 32
              → check_loop word func fuel false gb (end - pos') pos' s' ≡ some r'
              → Walked gb end pos' s' r')
          → Walked gb end pos s r
      go (passes size, s') q more j again =
          let fits : size ≤ end - pos = j.fits in
          let left : sub32 (end - pos) size ≡ end - (pos + size) = omega arith in
          let rest : check_loop word func fuel false gb (end - (pos + size)) (pos + size) s'
              ≡ some r =
            ground (arith, q, more, left, e) in
          extend-Walked gb end pos size s s' r q fits
            (again (pos + size) s' r (omega arith) small rest)
      go (refused n, s') q more j again =
          let same : (refused n, s') ≡ r = ground (arith, q, more, e) in
          subst (λ x. Walked gb end pos s x) same j
      go (oops, s') q more j again = absurd j

  -- Where the walk over a user's stream ends, the stream was refused with EINVAL or EPERM, or its
  -- commands passed one after the other, each lies within the stream, and they cover it exactly.
  pub check_all-Walked :
      (gb : Bool) (size : ℕ) (s : S) (r : Verdict × S)
      → size < 2 ^ 32
      → check_all word func false gb size s ≡ some r
      → Walked gb size 0 s r
  unfolding check_all
  check_all-Walked gb size s r small e =
      check_loop-Walked (suc size) gb size 0 s r (omega arith) small (ground (arith, e))

  -- The commands from `pos` up to `at` pass one after the other, each within the stream.
  pub data Prefix (gb : Bool) (end at : ℕ) (t : S) : (pos : ℕ) → S → Type 0 where
    nothing : Prefix gb end at t at t
    then_one :
        {pos size : ℕ} {s u : S}
        → check word func false gb (end - pos) pos s ≡ (passes size, u)
        → size ≤ end - pos
        → Prefix gb end at t (pos + size) u
        → Prefix gb end at t pos s

  -- The walk comes to a command within the stream whose header and its claim make 0 bytes, and that
  -- passes.
  abbrev pub Stalls : (gb : Bool) → (end pos : ℕ) → S → Type 0
  Stalls gb end pos s =
      (at : ℕ) × (t : S) × (u : S) × Prefix gb end at t pos s
      × (at < end)
      × (add32 (word t (at + 4)) 8 ≡ 0)
      × (check word func false gb (end - at) at t ≡ (passes 0, u))

  -- What a walk from `pos` comes to: a result, or a command of no size.
  abbrev Ends : (fuel : ℕ) → (gb : Bool) → (end pos : ℕ) → S → Type 0
  Ends fuel gb end pos s =
      ((r : Verdict × S) × (check_loop word func fuel false gb (end - pos) pos s ≡ some r))
      ⊎ Stalls gb end pos s

  check_loop-Ends :
      (fuel : ℕ) (gb : Bool) (end pos : ℕ) (s : S)
      → end < fuel + pos
      → pos ≤ end
      → end < 2 ^ 32
      → Ends fuel gb end pos s
  unfolding check_loop
  check_loop-Ends zero gb end pos s few le small = absurd (omega arith)
  check_loop-Ends (suc fuel) gb end pos s few le small =
      elim (Bool-cases (ltb 0 (end - pos) && ltb (end - pos) (2 ^ 31))) [
        | inl more ↦
            go (check word func false gb (end - pos) pos s) refl more
              (check-Judged word func gb (end - pos) pos s) (check_loop-Ends fuel gb end)
        | inr no_more ↦ elim (Bool-cases (end - pos == 0)) [
          | inl done ↦ inl ((passes pos, s), ground arith)
          | inr out_of_sync ↦ inl ((refused einval, s), ground arith)
        ]
      ]
    where
      go :
          (v : Verdict × S)
          → check word func false gb (end - pos) pos s ≡ v
          → ltb 0 (end - pos) && ltb (end - pos) (2 ^ 31) ≡ true
          → Judged word func gb (end - pos) pos s v
          → ((pos' : ℕ) (s' : S)
              → end < fuel + pos'
              → pos' ≤ end
              → end < 2 ^ 32
              → Ends fuel gb end pos' s')
          → Ends (suc fuel) gb end pos s
      go (passes zero, s') q more j again =
          inr (pos, s, s', nothing, ground (arith, more), sym j.whole, q)
      go (passes (suc n), s') q more j again =
          let fits : suc n ≤ end - pos = j.fits in
          let left : sub32 (end - pos) (suc n) ≡ end - (pos + suc n) = omega arith in
          elim (again (pos + suc n) s' (omega arith) (omega arith) small) [
            | inl (r, e) ↦ inl (r, ground (arith, q, more, left, e))
            | inr (at, t, u, p, lt, none_left, passed) ↦
                inr (at, t, u, then_one q fits p, lt, none_left, passed)
          ]
      go (refused n, s') q more j again = inl ((refused n, s'), ground (arith, q, more))
      go (oops, s') q more j again = absurd j

  -- The walk over a user's stream of less than 2 ^ 32 bytes ends within a round for each byte and one
  -- more, whatever the commands are and do: the stream is refused with EINVAL or EPERM, or its
  -- commands passed one after the other and cover it exactly. There is one exception, which is a command
  -- that is reached, passes, and has a header that makes 0 bytes with the 8 of its own, in 32 bits.
  pub check_all-ends :
      (gb : Bool) (size : ℕ) (s : S)
      → size < 2 ^ 32
      → ((r : Verdict × S) × (check_all word func false gb size s ≡ some r) × Walked gb size 0 s r)
        ⊎ Stalls gb size 0 s
  unfolding check_all
  check_all-ends gb size s small =
      elim (check_loop-Ends (suc size) gb size 0 s (omega arith) (omega arith) small) [
        | inl (r, e) ↦
            let e' : check_all word func false gb size s ≡ some r = ground (arith, e) in
            inl (r, e', check_all-Walked gb size s r small e')
        | inr stalls ↦ inr stalls
      ]
