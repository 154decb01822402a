-- ===== src/Memory/Charges.antt =====
-- What is charged to the zones is what callers hold, and it stays within the limits.
use vmwgfx.Prelude.{
  ℕ, zero, suc, ◌+◌, ◌≤◌, ◌<◌, ◌≡◌, refl, Bool, true, List, [], ◌∷◌, ◌++◌, Option, if◌then◌else◌,
  arith, u64_mod, ok, err, enomem,
}
use vmwgfx.Memory.{
  Zone, Global, Attribute, set_limit, store_at, zone_store, is_counted, sub_used, free_zone,
  has_room, add_used, reserve, check_swapping,
}

-- A charge that a caller holds: to all zones or to one.
pub record Charge : Type 0 where
  pub zone : Option ℕ
  pub amount : ℕ

-- what the charges come to in zone `i`
abbrev pub charged : (i : ℕ) → List Charge → ℕ
charged i [] = 0
charged i (c ∷ cs) = (if is_counted c.zone i then c.amount else 0) + charged i cs

-- A zone, where no charge is larger than `most`: its limits are in order, what is used is what is
-- charged, and it is within the memory of the zone but for one charge.
pub record IsZone (most charge : ℕ) (z : Zone) : Type 0 where
  pub max_le : z.max_mem ≤ z.emer_mem
  pub emer_le : z.emer_mem ≤ z.zone_mem
  pub small : z.zone_mem + most < u64_mod
  pub used : z.used_mem ≡ charge
  pub fits : z.used_mem ≤ z.zone_mem + most

abbrev pub IsZones : (most : ℕ) → List Charge → (i : ℕ) → List Zone → Type 0
IsZones most cs i [] = Unit
IsZones most cs i (z ∷ zs) = IsZone most (charged i cs) z × IsZones most cs (suc i) zs

-- The accounting, with the charges that are held.
pub record Books : Type 0 where
  pub global : Global
  pub charges : List Charge

-- What can happen: a reservation that succeeds or fails, a charge that is given back, and a limit
-- that the administrator sets.
pub data Step (most : ℕ) (s t : Books) : Type 0 where
  reserves :
      (capable : Bool) (c : Charge)
      → c.amount ≤ most
      → (g : Global) → reserve capable c.zone c.amount s.global ≡ (ok tt, g)
      → t ≡ record { global = g; charges = c ∷ s.charges }
      → Step most s t
  refuses :
      (capable : Bool) (c : Charge) (g : Global)
      → reserve capable c.zone c.amount s.global ≡ (err enomem, g)
      → t ≡ record s { global = g }
      → Step most s t
  frees :
      (pre post : List Charge) (c : Charge)
      → s.charges ≡ pre ++ (c ∷ post)
      → t ≡ record { global = free_zone c.zone c.amount s.global; charges = pre ++ post }
      → Step most s t
  stores :
      (i : ℕ) (a : Attribute) (val : ℕ)
      → t ≡ record s { global = zone_store i a val s.global }
      → Step most s t

pub data Steps (most : ℕ) (s : Books) : Books → Type 0 where
  here : Steps most s s
  next : {t u : Books} → Steps most s t → Step most t u → Steps most s u

check-zones : (g : Global) → (check_swapping g).zones ≡ g.zones
unfolding check_swapping
check-zones g = ground arith

add-IsZones :
    (most : ℕ) (capable : Bool) (c : Charge) (cs : List Charge) (i : ℕ) (zs : List Zone)
    → c.amount ≤ most
    → has_room capable c.zone i zs ≡ true
    → IsZones most cs i zs
    → IsZones most (c ∷ cs) i (add_used c.zone c.amount i zs)
unfolding has_room add_used
add-IsZones most capable c cs i [] le h v = tt
add-IsZones most capable c cs i (z ∷ zs) le h v =
    ground (arith, add-IsZones most capable c cs (suc i) zs le)

charged-remove :
    (i : ℕ) (pre post : List Charge) (c : Charge)
    → charged i (pre ++ (c ∷ post))
      ≡ (if is_counted c.zone i then c.amount else 0) + charged i (pre ++ post)
charged-remove i [] post c = refl
charged-remove i (x ∷ pre) post c = omega (arith, charged-remove i pre post c)

sub-IsZones :
    (most : ℕ) (pre post : List Charge) (c : Charge) (i : ℕ) (zs : List Zone)
    → IsZones most (pre ++ (c ∷ post)) i zs
    → IsZones most (pre ++ post) i (sub_used c.zone c.amount i zs)
unfolding sub_used
sub-IsZones most pre post c i [] v = tt
sub-IsZones most pre post c i (z ∷ zs) v =
    ground (arith, charged-remove i pre post c, sub-IsZones most pre post c (suc i) zs)

store-IsZones :
    (most : ℕ) (cs : List Charge) (i k : ℕ) (a : Attribute) (val : ℕ) (zs : List Zone)
    → IsZones most cs i zs
    → IsZones most cs i (store_at k a val zs)
unfolding store_at set_limit
store-IsZones most cs i k a val [] v = tt
store-IsZones most cs i zero a val (z ∷ zs) v = ground arith
store-IsZones most cs i (suc k) a val (z ∷ zs) v =
    (v.0, store-IsZones most cs (suc i) k a val zs v.1)

reserve-ok :
    (capable : Bool) (single : Option ℕ) (amount : ℕ) (g h : Global)
    → reserve capable single amount g ≡ (ok tt, h)
    → (has_room capable single 0 g.zones ≡ true) × (h.zones ≡ add_used single amount 0 g.zones)
unfolding reserve check_swapping
reserve-ok capable single amount g h e = ground arith

reserve-err :
    (capable : Bool) (single : Option ℕ) (amount : ℕ) (g h : Global)
    → reserve capable single amount g ≡ (err enomem, h)
    → h.zones ≡ g.zones
unfolding reserve check_swapping
reserve-err capable single amount g h e = ground arith

Step-IsZones :
    (most : ℕ) (s t : Books)
    → Step most s t
    → IsZones most s.charges 0 s.global.zones
    → IsZones most t.charges 0 t.global.zones
unfolding free_zone zone_store
Step-IsZones most s t (reserves capable c le g h e) v =
    let (room, zs) = reserve-ok capable c.zone c.amount s.global g h in
    rw e (rw zs (add-IsZones most capable c s.charges 0 s.global.zones le room v))
Step-IsZones most s t (refuses capable c g h e) v =
    rw e (rw (reserve-err capable c.zone c.amount s.global g h) v)
Step-IsZones most s t (frees pre post c h e) v =
    rw e (sub-IsZones most pre post c 0 s.global.zones (rw h at v))
Step-IsZones most s t (stores i a val e) v = rw e (
    rw (check-zones (record (s.global) { zones = store_at i a val s.global.zones }))
      (store-IsZones most s.charges 0 i a val s.global.zones v))

-- Whatever callers reserve and give back, and whatever limits are set, the bytes in use of each zone
-- are exactly those of the charges that are held, exceed the memory of the zone by one charge at
-- most, and never wrap; and the limits stay in order. It supposes that no charge is larger than
-- `most`, and that nothing is freed that is not held.
pub Steps-IsZones :
    (most : ℕ) (s t : Books)
    → Steps most s t
    → IsZones most s.charges 0 s.global.zones
    → IsZones most t.charges 0 t.global.zones
Steps-IsZones most s _ here v = v
Steps-IsZones most s u (next {t} ss x) v = Step-IsZones most t u x (Steps-IsZones most s t ss v)
