-- ===== src/Validate/Tests.antt =====
-- A concrete submission.
use vmwgfx.Prelude.{
  ℕ, ◌%◌, ◌≡◌, refl, arith, Bool, true, false, [], none, some, ltb, ok, err, einval, ◌==◌,
  if◌then◌else◌, zero, suc,
}
use mathlib.Core.Path.{subst}
use vmwgfx.Hashtab.{create, find_item, find_chain, insert_item, insert_chain, set_bucket}
use vmwgfx.Hashtab.Lookup.{IsTable, get}
use vmwgfx.Validate.{
  ValBuf, Context, reset, bo_to_validate_list, listed_before, list_new, place_reloc,
  translate_mob_ptr, translate_guest_ptr, resource_val_add, give_up, Placement, vram, mob,
  apply_relocations,
}
use vmwgfx.Validate.Reach.{
  IsSubmission, Step, here, next, adds, mobs, guests, Left, Steps-IsSubmission, Steps-Left,
}
use vmwgfx.Validate.Clear.{Cleared, give_up-Cleared}
use vmwgfx.Validate.Apply.{Suits, Validated, apply_relocations-some}

abbrev low_bits : ℕ → ℕ
low_bits key = key % 16

-- buffers have addresses below 100
abbrev is_bo : ℕ → Bool
is_bo key = ltb key 100

abbrev no_refs : ℕ → ℕ
no_refs bo = 0

abbrev start : Context
start = record {
  res_ht = create 4;
  val_bufs = [];
  cur_val_buf = 0;
  relocs = λ i. record { mob_loc = none; location = none; index = 0 };
  cur_reloc = 0;
  resource_list = [];
  fence_flags = 0;
  refs = no_refs;
}

-- Buffer 5 is used as a MOB, and buffer 21, in the same bucket, as a guest pointer.
abbrev one_mob : Context
one_mob = (translate_mob_ptr low_bits (ok 5) 8 (reset start)).1

abbrev two_buffers : Context
two_buffers = (translate_guest_ptr low_bits (ok 21) 24 one_mob).1

mob_step : Step low_bits is_bo no_refs (reset start) (ok 5) one_mob
unfolding translate_mob_ptr place_reloc bo_to_validate_list listed_before list_new find_item
    insert_item insert_chain create set_bucket reset find_chain
mob_step = mobs (ok 5) 8 refl refl

guest_step : Step low_bits is_bo no_refs one_mob (ok 21) two_buffers
unfolding translate_mob_ptr translate_guest_ptr place_reloc bo_to_validate_list listed_before
    list_new find_item insert_item insert_chain create set_bucket reset find_chain
guest_step = guests (ok 21) 24 refl refl

start-IsTable : IsTable start.res_ht
unfolding create
start-IsTable i = tt

start-empty : (key : ℕ) → get low_bits start.res_ht key ≡ none
unfolding create find_chain
start-empty key = refl

start-fill : start.res_ht.fill ≡ 0
unfolding create
start-fill = refl

-- Buffer 5 is listed as a MOB, and a guest pointer to it fails behind it.
abbrev mixed_use : Context
mixed_use = (translate_guest_ptr low_bits (ok 5) 40 two_buffers).1

mixed_step : Step low_bits is_bo no_refs two_buffers (err einval) mixed_use
unfolding translate_mob_ptr translate_guest_ptr place_reloc bo_to_validate_list listed_before
    list_new find_item insert_item insert_chain create set_bucket reset find_chain
mixed_step = guests (ok 5) 40 refl refl

Steps-Left_example : Left low_bits is_bo no_refs two_buffers (err einval) mixed_use
Steps-Left_example =
    Steps-Left low_bits is_bo no_refs start two_buffers mixed_use (err einval) start-IsTable
      start-empty start-fill (λ bo. refl) (next (next here mob_step) guest_step) mixed_step

two_buffers-IsSubmission : IsSubmission low_bits is_bo no_refs two_buffers
two_buffers-IsSubmission =
    Steps-IsSubmission low_bits is_bo no_refs start two_buffers start-IsTable start-empty start-fill
      (λ bo. refl) (next (next here mob_step) guest_step)

-- Resource 117, which is in the bucket of buffer 5 too, is listed behind the buffers.
abbrev with_resource : Context
with_resource = (resource_val_add low_bits true 117 two_buffers).1

resource_step : Step low_bits is_bo no_refs two_buffers (ok 0) with_resource
unfolding translate_mob_ptr translate_guest_ptr place_reloc bo_to_validate_list listed_before
    list_new find_item insert_item insert_chain create set_bucket reset find_chain resource_val_add
resource_step = adds true 117 refl refl

with_resource-IsSubmission : IsSubmission low_bits is_bo no_refs with_resource
with_resource-IsSubmission =
    Steps-IsSubmission low_bits is_bo no_refs start with_resource start-IsTable start-empty
      start-fill (λ bo. refl) (next (next (next here mob_step) guest_step) resource_step)

give_up-Cleared_example : Cleared low_bits no_refs (give_up low_bits with_resource)
give_up-Cleared_example =
    give_up-Cleared low_bits is_bo no_refs with_resource with_resource-IsSubmission.context

abbrev buffer : (bo : ℕ) → (validate_as_mob : Bool) → ValBuf
buffer bo validate_as_mob = record { bo = bo; validate_as_mob = validate_as_mob; sync_obj_arg = 1 }

abbrev placement : ℕ → Placement
placement bo = if bo == 5 then mob 3 else vram 4096

two_buffers-Validated : Validated placement two_buffers
unfolding translate_mob_ptr translate_guest_ptr place_reloc bo_to_validate_list listed_before
    list_new find_item insert_item insert_chain create set_bucket reset find_chain
two_buffers-Validated zero b e =
    let q : buffer 5 true ≡ b = ground (arith, e) in
    subst (λ x. Suits x.validate_as_mob (placement x.bo)) q tt
two_buffers-Validated (suc zero) b e =
    let q : buffer 21 false ≡ b = ground (arith, e) in
    subst (λ x. Suits x.validate_as_mob (placement x.bo)) q tt
two_buffers-Validated (suc (suc i)) b e = cc

abbrev zeros : ℕ → ℕ
zeros i = 0

apply_relocations-some_example :
    (cb : ℕ → ℕ) × (apply_relocations placement two_buffers zeros
      ≡ some (cb, record two_buffers { cur_reloc = 0 }))
apply_relocations-some_example =
    apply_relocations-some low_bits is_bo no_refs placement two_buffers zeros
      two_buffers-IsSubmission two_buffers-Validated
