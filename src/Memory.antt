-- ===== src/Memory.antt =====
-- Memory accounting (ttm/ttm_memory.c): zones with limits, and the bytes that are charged to them. The
-- zones are a list in the order of `zones`; a pointer to a zone is its place there, the kernel zone
-- 0. `capable(CAP_SYS_ADMIN)` is an argument, the shrink callback `do_shrink` a parameter. The
-- configuration is that without CONFIG_HIGHMEM.
pub mod Charges
pub mod Shrink
pub mod RoundPot
mod Tests
use Prim.Native.Nat.{bit_and}
use vmwgfx.Prelude.{
  ℕ, zero, suc, ◌+◌, ◌-◌, ◌*◌, ◌/◌, ◌%◌, ◌^◌, Bool, true, false, not, ◌&&◌, ◌||◌, List, [], ◌∷◌,
  ◌++◌, Option, none, some, leb, ltb, ◌==◌, if◌then◌else◌, add64, sub64, u64_mod, Outcome, ok, err,
  Errno, enomem,
}

-- `struct ttm_mem_zone`
pub record Zone : Type 0 where
  pub zone_mem : ℕ
  pub emer_mem : ℕ
  pub max_mem : ℕ
  pub swap_limit : ℕ
  pub used_mem : ℕ

-- `struct ttm_mem_global`: `has_dma32` is whether `zone_dma32` is set, `has_shrink` whether `shrink`
-- is; `swaps` counts the calls of `queue_work`.
pub record Global : Type 0 where
  pub zones : List Zone
  pub has_dma32 : Bool
  pub has_shrink : Bool
  pub swaps : ℕ

-- PAGE_SIZE
abbrev pub page_size : ℕ
page_size = 4096

-- TTM_MEMORY_ALLOC_RETRIES
abbrev pub alloc_retries : ℕ
alloc_retries = 4

-- the limits of a zone of `mem` bytes
unfoldable pub zone_of : (mem : ℕ) → Zone
zone_of mem = record {
  zone_mem = mem;
  emer_mem = add64 (mem / 2) (mem / 4);
  max_mem = mem / 2;
  swap_limit = sub64 (mem / 2) (mem / 8);
  used_mem = 0;
}

-- What `kzalloc` and `kobject_init_and_add` return for a zone.
pub data Creation : Type 0 where
  created no_memory : Creation
  no_object : Errno → Creation

-- adds a zone, if it can be created
abbrev pub add_zone : Creation → Zone → Global → Outcome (Unit {0}) × Global
add_zone created z g = (ok tt, record g { zones = g.zones ++ (z ∷ []) })
add_zone no_memory z g = (err enomem, g)
add_zone (no_object e) z g = (err e, g)

-- `ttm_mem_init_kernel_zone`, on the fields of `struct sysinfo`
unfoldable pub init_kernel_zone :
    Creation → (totalram totalhigh mem_unit : ℕ) → Global → Outcome (Unit {0}) × Global
init_kernel_zone c totalram totalhigh mem_unit g =
    add_zone c (zone_of (sub64 totalram totalhigh * mem_unit % u64_mod)) g

-- `ttm_mem_init_dma32_zone`; a failed `kobject_init_and_add` leaves `zone_dma32` set
unfoldable pub init_dma32_zone :
    Creation → (totalram mem_unit : ℕ) → Global → Outcome (Unit {0}) × Global
init_dma32_zone no_memory totalram mem_unit g = (err enomem, g)
init_dma32_zone c totalram mem_unit g =
    if leb (totalram * mem_unit % u64_mod) (2 ^ 32)
    then (ok tt, g)
    else add_zone c (zone_of (2 ^ 32)) (record g { has_dma32 = true })

-- `ttm_zones_above_swap_target`
unfoldable pub swap_target : (from_wq capable : Bool) → (extra : ℕ) → Zone → ℕ
swap_target from_wq capable extra z =
    let target = if from_wq then z.swap_limit else if capable then z.emer_mem else z.max_mem in
    if ltb target extra then 0 else target

unfoldable pub above_swap_target : (from_wq capable : Bool) → (extra : ℕ) → List Zone → Bool
above_swap_target from_wq capable extra [] = false
above_swap_target from_wq capable extra (z ∷ zs) =
    ltb (swap_target from_wq capable extra z) z.used_mem
    || above_swap_target from_wq capable extra zs

-- `ttm_check_swapping`
unfoldable pub needs_swapping : List Zone → Bool
needs_swapping [] = false
needs_swapping (z ∷ zs) = ltb z.swap_limit z.used_mem || needs_swapping zs

unfoldable pub check_swapping : Global → Global
check_swapping g = if needs_swapping g.zones then record g { swaps = g.swaps + 1 } else g

-- the attributes of a zone that can be written, and `ttm_mem_zone_store` of `val` KiB on zone `i`
pub data Attribute : Type 0 where
  emer max swap : Attribute

abbrev pub set_max : ℕ → Zone → Zone
set_max v z = record z { max_mem = v }

unfoldable pub set_limit : Attribute → (val64 : ℕ) → Zone → Zone
set_limit emer v z =
    let z' = record z { emer_mem = v } in if ltb v z.max_mem then set_max v z' else z'
set_limit max v z =
    let z' = set_max v z in if ltb z.emer_mem v then record z' { emer_mem = v } else z'
set_limit swap v z = record z { swap_limit = v }

unfoldable pub store_at : (i : ℕ) → Attribute → (val : ℕ) → List Zone → List Zone
store_at i a val [] = []
store_at zero a val (z ∷ zs) =
    let val64 = val * 1024 % u64_mod in
    set_limit a (if ltb z.zone_mem val64 then z.zone_mem else val64) z ∷ zs
store_at (suc i) a val (z ∷ zs) = z ∷ store_at i a val zs

unfoldable pub zone_store : (i : ℕ) → Attribute → (val : ℕ) → Global → Global
zone_store i a val g = check_swapping (record g { zones = store_at i a val g.zones })

-- whether a walk over all zones, or over a single one, looks at zone `i`
unfoldable pub is_counted : (single_zone : Option ℕ) → (i : ℕ) → Bool
is_counted none i = true
is_counted (some s) i = s == i

-- `ttm_mem_global_free_zone`, from zone `i` on
unfoldable pub sub_used : (single_zone : Option ℕ) → (amount i : ℕ) → List Zone → List Zone
sub_used single amount i [] = []
sub_used single amount i (z ∷ zs) =
    (if is_counted single i then record z { used_mem = sub64 z.used_mem amount } else z)
    ∷ sub_used single amount (suc i) zs

unfoldable pub free_zone : (single_zone : Option ℕ) → (amount : ℕ) → Global → Global
free_zone single amount g = record g { zones = sub_used single amount 0 g.zones }

-- the two walks of `ttm_mem_global_reserve`
unfoldable pub has_room : (capable : Bool) → (single_zone : Option ℕ) → (i : ℕ) → List Zone → Bool
has_room capable single i [] = true
has_room capable single i (z ∷ zs) =
    let limit = if capable then z.emer_mem else z.max_mem in
    not (is_counted single i && ltb limit z.used_mem) && has_room capable single (suc i) zs

unfoldable pub add_used : (single_zone : Option ℕ) → (amount i : ℕ) → List Zone → List Zone
add_used single amount i [] = []
add_used single amount i (z ∷ zs) =
    (if is_counted single i then record z { used_mem = add64 z.used_mem amount } else z)
    ∷ add_used single amount (suc i) zs

-- `ttm_mem_global_reserve`, which its only caller asks to reserve
unfoldable pub reserve :
    (capable : Bool)
    → (single_zone : Option ℕ) → (amount : ℕ) → Global
    → Outcome (Unit {0}) × Global
reserve capable single amount g =
    if has_room capable single 0 g.zones
    then (ok tt, check_swapping (record g { zones = add_used single amount 0 g.zones }))
    else (err enomem, check_swapping g)

-- the bytes in use in all zones
unfoldable pub total_used : List Zone → ℕ
total_used [] = 0
total_used (z ∷ zs) = z.used_mem + total_used zs

-- the zone that a page is charged to; `pfn` is its `page_to_pfn`
unfoldable pub page_zone : (pfn : ℕ) → Global → Option ℕ
page_zone pfn g = if g.has_dma32 && ltb 1048576 pfn then some 0 else none

-- `do_shrink` gives whether it succeeds, and the accounting after it
module _ (do_shrink : Global → Bool × Global) where
  -- The loop of `ttm_shrink`, on fuel.
  unfoldable pub shrink_loop :
      (fuel : ℕ) → (from_wq capable : Bool) → (extra : ℕ) → Global → Option Global
  shrink_loop zero from_wq capable extra g = none
  shrink_loop (suc fuel) from_wq capable extra g =
      let (freed, g') = do_shrink g in
      let rest = shrink_loop fuel from_wq capable extra g' in
      if above_swap_target from_wq capable extra g.zones
      then (if freed then rest else some g')
      else some g

  -- `ttm_shrink`; `none` if more rounds are needed than there are bytes in use
  unfoldable pub shrink : (from_wq capable : Bool) → (extra : ℕ) → Global → Option Global
  shrink from_wq capable extra g =
      if g.has_shrink
      then shrink_loop (suc (total_used g.zones)) from_wq capable extra g
      else some g

  -- `ttm_mem_global_alloc_zone`, when `count` retries are left
  unfoldable pub alloc_loop :
      (count : ℕ)
      → (capable : Bool) → (single_zone : Option ℕ) → (memory : ℕ) → (no_wait : Bool) → Global
      → Option (Outcome (Unit {0}) × Global)
  alloc_loop zero capable single memory no_wait g = some (reserve capable single memory g)
  alloc_loop (suc count) capable single memory no_wait g =
      let (ret, g') = reserve capable single memory g in
      elim ret [
        | ok _ ↦ some (ok tt, g')
        | err e ↦
            if no_wait
            then some (err enomem, g')
            else elim (shrink false capable (add64 (add64 memory (memory / 4)) 16) g') [
              | none ↦ none
              | some g'' ↦ alloc_loop count capable single memory no_wait g''
            ]
      ]

  unfoldable pub alloc_zone :
      (capable : Bool)
      → (single_zone : Option ℕ) → (memory : ℕ) → (no_wait : Bool) → Global
      → Option (Outcome (Unit {0}) × Global)
  unfolding alloc_loop
  alloc_zone capable single memory no_wait g =
      alloc_loop alloc_retries capable single memory no_wait g

  -- `ttm_mem_global_alloc` and `ttm_mem_global_alloc_page`
  unfoldable pub global_alloc :
      (capable : Bool)
      → (memory : ℕ) → (no_wait : Bool) → Global
      → Option (Outcome (Unit {0}) × Global)
  global_alloc capable memory no_wait g = alloc_zone capable none memory no_wait g

  unfoldable pub alloc_page :
      (capable : Bool)
      → (pfn : ℕ) → (no_wait : Bool) → Global
      → Option (Outcome (Unit {0}) × Global)
  alloc_page capable pfn no_wait g = alloc_zone capable (page_zone pfn g) page_size no_wait g

-- `ttm_mem_global_free` and `ttm_mem_global_free_page`
unfoldable pub global_free : (amount : ℕ) → Global → Global
global_free amount g = free_zone none amount g

unfoldable pub free_page : (pfn : ℕ) → Global → Global
free_page pfn g = free_zone (page_zone pfn g) page_size g

-- the loop of `ttm_round_pot`, on fuel
unfoldable pub double_up : (fuel tmp_size size : ℕ) → ℕ
double_up zero tmp size = tmp
double_up (suc fuel) tmp size =
    if ltb tmp size then double_up fuel (tmp * 2 % u64_mod) size else tmp

-- PAGE_ALIGN
abbrev pub page_align : ℕ → ℕ
page_align size = add64 size (page_size - 1) / page_size * page_size

-- `ttm_round_pot`: the loop runs below 4096, so for 10 rounds at most
unfoldable pub round_pot : (size : ℕ) → ℕ
round_pot size =
    if bit_and size (sub64 size 1) == 0
    then size
    else if ltb page_size size
    then page_align size
    else double_up 10 4 size
