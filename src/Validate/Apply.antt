-- ===== src/Validate/Apply.antt =====
-- Relocations are applied without a fault.
use vmwgfx.Prelude.{
  ℕ, zero, suc, ◌+◌, ◌≡◌, refl, Bool, true, false, some, arith, get_elem?, inl, inr, ◌-◌, ◌^◌,
  add32,
}
use mathlib.Core.Path.{subst}
use vmwgfx.Validate.{
  ValBuf, Reloc, Context, Placement, vram, gmr, mob, elsewhere, write, apply_one, apply_loop,
  apply_relocations,
}
use vmwgfx.Validate.Reach.{IsSubmission, Placed}

-- Buffers used as MOBs are MOBs when relocations are applied, and the others are in VRAM or a GMR.
abbrev pub Suits : (validate_as_mob : Bool) → Placement → Type 0
Suits true (mob start) = Unit
Suits false (vram offset) = Unit
Suits false (gmr start) = Unit
Suits as_mob p = ⊥

abbrev pub Validated : (mem : ℕ → Placement) → Context → Type 0
Validated mem c =
    (i : ℕ) (b : ValBuf) → get_elem? c.val_bufs i ≡ some b → Suits b.validate_as_mob (mem b.bo)

mob-some :
    (m : Placement) (r : Reloc) (cb : ℕ → ℕ) (p : ℕ)
    → Suits true m
    → r.mob_loc ≡ some p
    → (cb' : ℕ → ℕ) × (apply_one m r cb ≡ some cb')
unfolding apply_one
mob-some (mob start) r cb p s e = (write p start cb, rw e refl)
mob-some (vram offset) r cb p s e = absurd s
mob-some (gmr start) r cb p s e = absurd s
mob-some elsewhere r cb p s e = absurd s

guest-some :
    (m : Placement) (r : Reloc) (cb : ℕ → ℕ) (p : ℕ)
    → Suits false m
    → r.location ≡ some p
    → (cb' : ℕ → ℕ) × (apply_one m r cb ≡ some cb')
unfolding apply_one
guest-some (vram offset) r cb p s e =
    (write p (2 ^ 32 - 2) (write (p + 4) (add32 (cb (p + 4)) offset) cb), rw e refl)
guest-some (gmr start) r cb p s e = (write p start cb, rw e refl)
guest-some (mob start) r cb p s e = absurd s
guest-some elsewhere r cb p s e = absurd s

module _ (hash : ℕ → ℕ) (is_bo : ℕ → Bool) (base : ℕ → ℕ) (mem : ℕ → Placement) where
  one-some :
      (c : Context) (r : Reloc) (cb : ℕ → ℕ)
      → Validated mem c
      → Placed hash is_bo base r c
      → (b : ValBuf) × (get_elem? c.val_bufs r.index ≡ some b)
        × ((cb' : ℕ → ℕ) × (apply_one (mem b.bo) r cb ≡ some cb'))
  one-some c r cb v (bo, inl ((b, e, same, kind), (p, q))) =
      (b, e, mob-some (mem b.bo) r cb p (subst (λ m. Suits m (mem b.bo)) kind (v r.index b e)) q)
  one-some c r cb v (bo, inr ((b, e, same, kind), (p, q))) =
      (b, e, guest-some (mem b.bo) r cb p (subst (λ m. Suits m (mem b.bo)) kind (v r.index b e)) q)

  apply_loop-some :
      (todo i : ℕ) (c : Context) (cb : ℕ → ℕ)
      → IsSubmission hash is_bo base c
      → Validated mem c
      → todo + i ≡ c.cur_reloc
      → (cb' : ℕ → ℕ) × (apply_loop mem todo i c cb ≡ some cb')
  unfolding apply_loop
  apply_loop-some zero i c cb s v h = (cb, refl)
  apply_loop-some (suc todo) i c cb s v h =
      let (b, e, (cb1, q)) = one-some c (c.relocs i) cb v (s.placed i (omega (arith, h))) in
      let (cb2, r) = apply_loop-some todo (suc i) c cb1 s v (omega (arith, h)) in
      (cb2, ground (arith, e, q, r))

  -- Applying the relocations of a submission neither writes through a null pointer, nor reads
  -- beyond the listed buffers, nor meets a buffer it does not expect, and none is left over. It supposes
  -- that each buffer was put where the validation asks: MOBs as MOBs, others into VRAM or a GMR.
  pub apply_relocations-some :
      (c : Context) (cb : ℕ → ℕ)
      → IsSubmission hash is_bo base c
      → Validated mem c
      → (cb' : ℕ → ℕ) × (apply_relocations mem c cb ≡ some (cb', record c { cur_reloc = 0 }))
  unfolding apply_relocations
  apply_relocations-some c cb s v =
      let (cb', e) = apply_loop-some c.cur_reloc 0 c cb s v (omega arith) in
      (cb', ground (arith, e))
