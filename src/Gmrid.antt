-- ===== src/Gmrid.antt =====
-- The manager of GMR and MOB ids (vmwgfx_gmrid_manager.c). The kernel's `ida` hands out ids: what
-- its calls return is an argument, one record per round of the loop, and `ids` are those that were
-- handed out and not given back. `num_pages` of a buffer is an argument.
pub mod Pages
mod Tests
use vmwgfx.Prelude.{
  ℕ, ◌+◌, ◌-◌, ◌%◌, Bool, true, false, not, List, [], ◌∷◌, Option, none, some, if◌then◌else◌, ltb,
  leb, ◌==◌, add32, sub32, u32_mod, Outcome, ok, err, Errno, enomem, eagain, einval, ebusy, eperm,
  erestartsys,
}

-- `struct vmwgfx_gmrid_man`
pub record Man : Type 0 where
  pub ids : List ℕ
  pub max_gmr_ids : ℕ
  pub max_gmr_pages : ℕ
  pub used_gmr_pages : ℕ

-- What `ida_pre_get` (whether it succeeds) and `ida_get_new` return.
pub record Round : Type 0 where
  pub pre_get : Bool
  pub get_new : Outcome ℕ

-- `struct ttm_mem_reg`, for a region that has a node
pub record Region : Type 0 where
  pub start : ℕ
  pub num_pages : ℕ

-- What a call does: 0 with a region or without one, an error, or not yet anything, when the rounds
-- are used up.
pub data Got : Type 0 where
  region : Region → Man → Got
  no_region : Man → Got
  failed : Errno → Man → Got
  looping : Got

-- `ida_remove`
unfoldable pub remove_id : ℕ → List ℕ → List ℕ
remove_id i [] = []
remove_id i (j ∷ js) = if j == i then js else j ∷ remove_id i js

-- the labels out_err and out_err_locked
unfoldable pub give_back : (num_pages : ℕ) → Man → Man
give_back num_pages g = record g { used_gmr_pages = sub32 g.used_gmr_pages (num_pages % u32_mod) }

-- `ret == -EAGAIN`
abbrev pub is_again : Errno → Bool
is_again eagain = true
is_again enomem = false
is_again einval = false
is_again ebusy = false
is_again eperm = false
is_again erestartsys = false

-- the `do` loop, and what follows it
unfoldable pub get_loop : (num_pages : ℕ) → List Round → Man → Got
get_loop num_pages [] g = looping
get_loop num_pages (r ∷ rs) g =
    let again = get_loop num_pages rs g in
    if not r.pre_get then failed enomem (give_back num_pages g) else elim r.get_new [
      | ok id ↦
          if leb g.max_gmr_ids id
          then no_region (give_back num_pages g)
          else region (record { start = id; num_pages = num_pages }) (record g { ids = id ∷ g.ids })
      | err e ↦ if is_again e then again else failed e (give_back num_pages g)
    ]

-- `vmw_gmrid_man_get_node`
unfoldable pub get_node : (num_pages : ℕ) → List Round → Man → Got
get_node num_pages rs g =
    if ltb 0 g.max_gmr_pages
    then (let g' = record g { used_gmr_pages = add32 g.used_gmr_pages (num_pages % u32_mod) } in
        if ltb g'.max_gmr_pages g'.used_gmr_pages
        then no_region (give_back num_pages g')
        else get_loop num_pages rs g')
    else get_loop num_pages rs g

-- `vmw_gmrid_man_put_node`, on a region that has a node
unfoldable pub put_node : Region → Man → Man
put_node m g = record g {
  ids = remove_id m.start g.ids;
  used_gmr_pages = sub32 g.used_gmr_pages (m.num_pages % u32_mod);
}
