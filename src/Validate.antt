-- ===== src/Validate.antt =====
-- The validation list and the relocations of a submission (vmwgfx_execbuf.c). Buffers, resources
-- and places in the stream are numbers. The hash table `res_ht` holds the buffers and the
-- resources of the submission; the owner of an item is its place in the array or the list. `hash` is the
-- kernel's, and so is the allocation of a node, which is an argument where it may fail.
pub mod Listed
pub mod New
pub mod Reach
pub mod Emptied
pub mod Clear
pub mod Apply
mod Tests
use Prim.Native.Nat.{bit_or}
use vmwgfx.Prelude.{
  ℕ, zero, suc, ◌+◌, ◌-◌, ◌%◌, ◌^◌, Bool, true, false, not, ◌&&◌, ◌||◌, List, [], ◌∷◌, ◌++◌, Option,
  none, some, leb, ltb, ◌==◌, if◌then◌else◌, add32, sub32, u32_mod, Outcome, ok, err, enomem,
  einval, Errno, length, get_elem?,
}
use vmwgfx.Hashtab.{Item, Table, find_item, insert_item, remove_item}

-- VMWGFX_MAX_VALIDATIONS and VMWGFX_MAX_RELOCATIONS
abbrev pub max_validations : ℕ
max_validations = 2048

abbrev pub max_relocations : ℕ
max_relocations = 2048

-- DRM_VMW_FENCE_FLAG_EXEC
abbrev pub flag_exec : ℕ
flag_exec = 1

-- `struct vmw_validate_buffer`
pub record ValBuf : Type 0 where
  pub bo : ℕ
  pub validate_as_mob : Bool
  pub sync_obj_arg : ℕ

-- `struct vmw_resource_val_node`, as far as the validation list is concerned
pub record ResNode : Type 0 where
  pub res : ℕ
  pub first_usage : Bool

-- `struct vmw_relocation`; a pointer is a place in the stream, or `none` for NULL
pub record Reloc : Type 0 where
  pub mob_loc : Option ℕ
  pub location : Option ℕ
  pub index : ℕ

-- `struct vmw_sw_context`, as far as validation is concerned. `val_bufs` are the first `cur_val_buf`
-- entries of the array, which are in `validate_nodes` in this order. `refs` counts the references on
-- each buffer and each resource.
pub record Context : Type 0 where
  pub res_ht : Table
  pub val_bufs : List ValBuf
  pub cur_val_buf : ℕ
  pub relocs : ℕ → Reloc
  pub cur_reloc : ℕ
  pub resource_list : List ResNode
  pub fence_flags : ℕ
  pub refs : ℕ → ℕ

abbrev pub item : (key owner : ℕ) → Item
item key owner = record { key = key; owner = owner }

-- the `i`-th element changed
unfoldable pub change : {A : Type 0} → (A → A) → (i : ℕ) → List A → List A
change f i [] = []
change f zero (x ∷ xs) = f x ∷ xs
change f (suc i) (x ∷ xs) = x ∷ change f i xs

abbrev pub set_reloc : (i : ℕ) → Reloc → (ℕ → Reloc) → ℕ → Reloc
set_reloc i r relocs j = if j == i then r else relocs j

abbrev pub count_at : (step : ℕ → ℕ) → (bo : ℕ) → (ℕ → ℕ) → ℕ → ℕ
count_at step bo refs b = if b == bo then step (refs b) else refs b

abbrev pub with_flags : (flags : ℕ) → ValBuf → ValBuf
with_flags flags b = record b { sync_obj_arg = bit_or b.sync_obj_arg flags }

abbrev pub not_first : ResNode → ResNode
not_first n = record n { first_usage = false }

-- what `vmw_execbuf_process` resets before the commands are checked
unfoldable pub reset : Context → Context
reset c = record c {
  cur_reloc = 0;
  cur_val_buf = 0;
  val_bufs = [];
  fence_flags = 0;
  resource_list = [];
}

-- the loop of `vmw_resource_list_unreference`
unfoldable pub resource_list_unreference : List ResNode → Context → Context
resource_list_unreference [] c = c
resource_list_unreference (n ∷ ns) c =
    resource_list_unreference ns (record c { refs = count_at (λ k. k - 1) n.res c.refs })

module _ (hash : ℕ → ℕ) where
  -- the branch of `vmw_bo_to_validate_list` for a buffer that is in the table, as the `i`-th
  unfoldable pub listed_before :
      (fence_flags : ℕ)
      → (validate_as_mob : Bool) → (i : ℕ) → Option ValBuf
      → Context
      → Outcome ℕ × Context
  listed_before fence_flags validate_as_mob i none c = (err einval, c)
  listed_before fence_flags validate_as_mob i (some b) c =
      if b.validate_as_mob && validate_as_mob || not b.validate_as_mob && not validate_as_mob
      then (
        ok i,
        record c {
          val_bufs = change (with_flags fence_flags) i c.val_bufs;
          fence_flags = bit_or c.fence_flags fence_flags;
        },
      )
      else (err einval, c)

  -- the branch for a buffer that is not
  unfoldable pub list_new :
      (bo fence_flags : ℕ) → (validate_as_mob : Bool) → Context → Outcome ℕ × Context
  list_new bo fence_flags validate_as_mob c =
      if leb max_validations c.cur_val_buf
      then (err einval, c)
      else elim (insert_item hash c.res_ht (item bo c.cur_val_buf)) [
        | err e ↦ (err e, c)
        | ok t ↦ (
          ok c.cur_val_buf,
          record c {
            res_ht = t;
            val_bufs =
                c.val_bufs
                ++ (record {
                  bo = bo;
                  validate_as_mob = validate_as_mob;
                  sync_obj_arg = bit_or 0 fence_flags;
                }
                    ∷ []);
            cur_val_buf = add32 c.cur_val_buf 1;
            fence_flags = bit_or c.fence_flags fence_flags;
            refs = count_at suc bo c.refs;
          },
        )
      ]

  -- `vmw_bo_to_validate_list`; it gives the index of the buffer
  unfoldable pub bo_to_validate_list :
      (bo fence_flags : ℕ) → (validate_as_mob : Bool) → Context → Outcome ℕ × Context
  bo_to_validate_list bo fence_flags validate_as_mob c = elim (find_item hash c.res_ht bo) [
    | ok found ↦
        listed_before fence_flags validate_as_mob found.owner (get_elem? c.val_bufs found.owner) c
    | err _ ↦ list_new bo fence_flags validate_as_mob c
  ]

  -- `vmw_resource_val_add`, with a node allocated or not; it gives the place in the list
  unfoldable pub resource_val_add : (kzalloc : Bool) → (res : ℕ) → Context → Outcome ℕ × Context
  resource_val_add kzalloc res c = elim (find_item hash c.res_ht res) [
    | ok found ↦
        (ok found.owner, record c { resource_list = change not_first found.owner c.resource_list })
    | err _ ↦
        if not kzalloc
        then (err enomem, c)
        else elim (insert_item hash c.res_ht (item res (length c.resource_list))) [
          | err e ↦ (err e, c)
          | ok t ↦ (
            ok (length c.resource_list),
            record c {
              res_ht = t;
              resource_list = c.resource_list ++ (record { res = res; first_usage = true } ∷ []);
              refs = count_at suc res c.refs;
            },
          )
        ]
  ]

  -- The last step of `vmw_translate_mob_ptr` and of `vmw_translate_guest_ptr`: the relocation `r` is in
  -- place but for its index, which the validation list gives.
  unfoldable pub place_reloc :
      (bo : ℕ) → (validate_as_mob : Bool) → Reloc → Context → Outcome ℕ × Context
  place_reloc bo validate_as_mob r c =
      let placed : Context = record c {
        relocs = set_reloc c.cur_reloc r c.relocs;
        cur_reloc = add32 c.cur_reloc 1;
      } in
      let (o, c') = bo_to_validate_list bo flag_exec validate_as_mob placed in
      elim o [
        | err e ↦ (err e, c')
        | ok i ↦
            (ok bo, record c' { relocs = set_reloc c.cur_reloc (record r { index = i }) c'.relocs })
      ]

  -- `vmw_translate_mob_ptr`, of the handle at `id`, which `vmw_user_dmabuf_lookup` looks up or not
  unfoldable pub translate_mob_ptr : (lookup : Outcome ℕ) → (id : ℕ) → Context → Outcome ℕ × Context
  translate_mob_ptr (err _) id c = (err einval, c)
  translate_mob_ptr (ok bo) id c =
      if leb max_relocations c.cur_reloc
      then (err einval, c)
      else place_reloc bo true
          (record (c.relocs c.cur_reloc) { mob_loc = some id; location = none }) c

  -- `vmw_translate_guest_ptr`, of the pointer at `ptr`; it leaves `mob_loc` as it is
  unfoldable pub translate_guest_ptr :
      (lookup : Outcome ℕ) → (ptr : ℕ) → Context → Outcome ℕ × Context
  translate_guest_ptr (err _) ptr c = (err einval, c)
  translate_guest_ptr (ok bo) ptr c =
      if leb max_relocations c.cur_reloc
      then (err einval, c)
      else place_reloc bo false (record (c.relocs c.cur_reloc) { location = some ptr }) c

  -- the loops of `vmw_clear_validations`, over the buffers from the `i`-th on, and over the resources
  unfoldable pub clear_bufs : (i : ℕ) → List ValBuf → Context → Context
  clear_bufs i [] c = c
  clear_bufs i (b ∷ bs) c = clear_bufs (suc i) bs (record c {
    refs = count_at (λ n. n - 1) b.bo c.refs;
    res_ht = remove_item hash c.res_ht (item b.bo i);
    cur_val_buf = sub32 c.cur_val_buf 1;
  })

  unfoldable pub clear_resources : (i : ℕ) → List ResNode → Context → Context
  clear_resources i [] c = c
  clear_resources i (n ∷ ns) c =
      clear_resources (suc i) ns (record c { res_ht = remove_item hash c.res_ht (item n.res i) })

  -- `vmw_clear_validations`; its two BUG_ON tests are about the result
  unfoldable pub clear_validations : Context → Context
  clear_validations c =
      let cleared = record (clear_bufs 0 c.val_bufs c) { val_bufs = [] } in
      clear_resources 0 cleared.resource_list cleared

  -- How `vmw_execbuf_process` gives up what it listed, on success and on failure: `resource_list` is
  -- emptied by `list_splice_init`.
  unfoldable pub give_up : Context → Context
  give_up c =
      let cleared = clear_validations c in
      resource_list_unreference cleared.resource_list (record cleared { resource_list = [] })

-- where a buffer is when relocations are applied: TTM_PL_VRAM, VMW_PL_GMR, VMW_PL_MOB, or elsewhere
pub data Placement : Type 0 where
  vram : (offset : ℕ) → Placement
  gmr : (start : ℕ) → Placement
  mob : (start : ℕ) → Placement
  elsewhere : Placement

-- SVGA_GMR_FRAMEBUFFER
abbrev pub gmr_framebuffer : ℕ
gmr_framebuffer = 2 ^ 32 - 2

-- the stream, as 32-bit words at byte offsets, with one changed
abbrev pub write : (at value : ℕ) → (ℕ → ℕ) → ℕ → ℕ
write at value cb i = if i == at then value else cb i

-- A round of `vmw_apply_relocations`: an SVGAGuestPtr is a GMR id and an offset, of 4 bytes each. It is
-- `none` where a null pointer is written to, or at BUG().
unfoldable pub apply_one : Placement → Reloc → (ℕ → ℕ) → Option (ℕ → ℕ)
apply_one (vram offset) r cb = elim r.location [
  | none ↦ none
  | some p ↦ some (write p gmr_framebuffer (write (p + 4) (add32 (cb (p + 4)) offset) cb))
]
apply_one (gmr start) r cb = elim r.location [ none ↦ none | some p ↦ some (write p start cb) ]
apply_one (mob start) r cb = elim r.mob_loc [ none ↦ none | some p ↦ some (write p start cb) ]
apply_one elsewhere r cb = none

-- The loop of `vmw_apply_relocations`, for `todo` relocations from the `i`-th on; it is `none` too where
-- an index is beyond the buffers.
unfoldable pub apply_loop :
    (mem : ℕ → Placement) → (todo i : ℕ) → Context → (ℕ → ℕ) → Option (ℕ → ℕ)
apply_loop mem zero i c cb = some cb
apply_loop mem (suc todo) i c cb = elim (get_elem? c.val_bufs (c.relocs i).index) [
  | none ↦ none
  | some b ↦ elim (apply_one (mem b.bo) (c.relocs i) cb) [
    | none ↦ none
    | some cb' ↦ apply_loop mem todo (suc i) c cb'
  ]
]

-- `vmw_apply_relocations`
unfoldable pub apply_relocations :
    (mem : ℕ → Placement) → Context → (ℕ → ℕ) → Option ((ℕ → ℕ) × Context)
apply_relocations mem c cb = elim (apply_loop mem c.cur_reloc 0 c cb) [
  | none ↦ none
  | some cb' ↦ some (cb', record c { cur_reloc = 0 })
]
