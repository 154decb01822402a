-- ===== src/Validate/Reach.antt =====
-- A submission while its commands are checked: every relocation has a buffer and a place.
use vmwgfx.Prelude.{
  ℕ, ◌+◌, ◌≤◌, ◌<◌, ◌≡◌, refl, sym, ap, ◌∙◌, Bool, true, false, none, some, leb, ◌==◌, arith, add32,
  Outcome, ok, err, Errno, einval, get_elem?, Bool-cases, inl, inr, ◌⊎◌,
}
use mathlib.Core.Path.{subst}
use vmwgfx.Hashtab.Lookup.{IsTable, get}
use vmwgfx.Validate.{
  Reloc, Context, set_reloc, place_reloc, translate_mob_ptr, translate_guest_ptr,
  bo_to_validate_list, resource_val_add, reset, max_relocations, flag_exec,
}
use vmwgfx.Validate.Listed.{IsContext, IsAt, Listed}
use vmwgfx.Validate.New.{bo_to_validate_list-Listed, Added, resource_val_add-Added}

module _ (hash : ℕ → ℕ) (is_bo : ℕ → Bool) (base : ℕ → ℕ) where
  -- A relocation whose buffer is listed as a MOB has a MOB id to write, and one whose
  -- buffer is not has a guest pointer.
  abbrev pub Placed : Reloc → Context → Type 0
  Placed r c =
      (bo : ℕ) × ((IsAt hash is_bo base bo true r.index c × ((p : ℕ) × (r.mob_loc ≡ some p)))
        ⊎ (IsAt hash is_bo base bo false r.index c × ((p : ℕ) × (r.location ≡ some p))))

  pub record IsSubmission (c : Context) : Type 0 where
    pub context : IsContext hash is_bo base c
    pub placed : (i : ℕ) → i < c.cur_reloc → Placed (c.relocs i) c
    pub few : c.cur_reloc ≤ max_relocations

  -- What the lookup of a handle gives is a buffer.
  abbrev pub GivesBuffer : Outcome ℕ → Type 0
  GivesBuffer (ok bo) = is_bo bo ≡ true
  GivesBuffer (err e) = Unit

  -- The additions that the checks of commands make, with what each returns and leaves.
  pub data Step (c : Context) (o : Outcome ℕ) (c' : Context) : Type 0 where
    lists :
        (bo flags : ℕ) (as_mob : Bool)
        → is_bo bo ≡ true
        → bo_to_validate_list hash bo flags as_mob c ≡ (o, c')
        → Step c o c'
    adds :
        (kzalloc : Bool) (res : ℕ)
        → is_bo res ≡ false
        → resource_val_add hash kzalloc res c ≡ (o, c')
        → Step c o c'
    mobs :
        (lookup : Outcome ℕ) (id : ℕ)
        → GivesBuffer lookup
        → translate_mob_ptr hash lookup id c ≡ (o, c')
        → Step c o c'
    guests :
        (lookup : Outcome ℕ) (ptr : ℕ)
        → GivesBuffer lookup
        → translate_guest_ptr hash lookup ptr c ≡ (o, c')
        → Step c o c'

  -- One addition after the other, as long as they succeed; the first that fails ends the checks.
  pub data Steps (c : Context) : Context → Type 0 where
    here : Steps c c
    next : {d e : Context} {i : ℕ} → Steps c d → Step d (ok i) e → Steps c e

  -- What an addition leaves: a submission, or, where it fails, the lists as they were, with at most one
  -- relocation more, which has no buffer.
  abbrev pub Left : Context → Outcome ℕ → Context → Type 0
  Left c (ok i) d = IsSubmission d
  Left c (err e) d =
      IsContext hash is_bo base d
      × (d.val_bufs ≡ c.val_bufs)
      × (d.resource_list ≡ c.resource_list)
      × ((d.cur_reloc ≡ c.cur_reloc) ⊎ (d.cur_reloc ≡ c.cur_reloc + 1))
      × (d.cur_reloc ≤ max_relocations)
      × ((i : ℕ) → i < c.cur_reloc → Placed (d.relocs i) d)

  relocs-IsContext :
      (c : Context) (relocs : ℕ → Reloc) (n : ℕ)
      → IsContext hash is_bo base c
      → IsContext hash is_bo base (record c { relocs = relocs; cur_reloc = n })
  relocs-IsContext c relocs n v = record {
    sorted = v.sorted;
    buffers = v.buffers;
    resources = v.resources;
    known_bo = v.known_bo;
    known_res = v.known_res;
    count = v.count;
    room = v.room;
    fill = v.fill;
    refs = v.refs;
  }

  kept-Placed :
      (c c' : Context) (r : Reloc)
      → ((bo : ℕ) (m : Bool) (i : ℕ)
          → IsAt hash is_bo base bo m i c
          → IsAt hash is_bo base bo m i c')
      → Placed r c
      → Placed r c'
  kept-Placed c c' r kept (bo, inl (at, p)) = (bo, inl (kept bo true r.index at, p))
  kept-Placed c c' r kept (bo, inr (at, p)) = (bo, inr (kept bo false r.index at, p))

  -- The relocation `r` has the place that it is to have.
  abbrev Aimed : (as_mob : Bool) → Reloc → Type 0
  Aimed true r = (p : ℕ) × (r.mob_loc ≡ some p)
  Aimed false r = (p : ℕ) × (r.location ≡ some p)

  Aimed-Placed :
      (bo : ℕ) (as_mob : Bool) (r : Reloc) (i : ℕ) (c : Context)
      → Aimed as_mob r
      → IsAt hash is_bo base bo as_mob i c
      → Placed (record r { index = i }) c
  Aimed-Placed bo true r i c aim at = (bo, inl (at, aim))
  Aimed-Placed bo false r i c aim at = (bo, inr (at, aim))

  unchanged-Left : (c d : Context) (e : Errno) → IsSubmission c → d ≡ c → Left c (err e) d
  unchanged-Left c d e v same =
      subst (λ x. Left c (err e) x) (sym same) (v.context, refl, refl, inl refl, v.few, v.placed)

  with_reloc : Reloc → Context → Context
  with_reloc r c = record c {
    relocs = set_reloc c.cur_reloc r c.relocs;
    cur_reloc = add32 c.cur_reloc 1;
  }

  unplaced-Left :
      (c : Context) (r : Reloc) (e : Errno)
      → c.cur_reloc < max_relocations
      → IsSubmission c
      → Left c (err e) (with_reloc r c)
  unfolding with_reloc
  unplaced-Left c r e space v = (
    relocs-IsContext c (set_reloc c.cur_reloc r c.relocs) (add32 c.cur_reloc 1) v.context,
    refl,
    refl,
    inr (ground arith),
    ground arith,
    λ i lt.
        let other : c.relocs i ≡ set_reloc c.cur_reloc r c.relocs i = ground arith in
        subst (λ x. Placed x (with_reloc r c)) other
          (kept-Placed c (with_reloc r c) (c.relocs i) (λ bo m j at. at) (v.placed i lt)),
  )

  place-Left :
      (bo : ℕ) (as_mob : Bool) (r : Reloc) (c : Context)
      → is_bo bo ≡ true
      → c.cur_reloc < max_relocations
      → Aimed as_mob r
      → IsSubmission c
      → Left c (place_reloc hash bo as_mob r c).0 (place_reloc hash bo as_mob r c).1
  unfolding place_reloc with_reloc
  place-Left bo as_mob r c kind space aim v =
      go (bo_to_validate_list hash bo flag_exec as_mob placed) refl (
        bo_to_validate_list-Listed hash is_bo base bo flag_exec as_mob placed
          (relocs-IsContext c (set_reloc c.cur_reloc r c.relocs) (add32 c.cur_reloc 1) v.context)
          kind)
    where
      placed : Context
      placed = with_reloc r c

      result : Outcome ℕ × Context
      result = place_reloc hash bo as_mob r c

      go :
          (o : Outcome ℕ × Context)
          → bo_to_validate_list hash bo flag_exec as_mob placed ≡ o
          → Listed hash is_bo base bo as_mob placed o
          → Left c result.0 result.1
      go (err n, d) q l =
          let same : (err n, placed) ≡ result = ground (arith, q, l.1) in
          subst (λ (x : Outcome ℕ × Context). Left c x.0 x.1) same (unplaced-Left c r n space v)
      go (ok i, d) q (vd, at, ext) =
          let relocs = set_reloc c.cur_reloc (record r { index = i }) d.relocs in
          let same : (ok bo, record d { relocs = relocs }) ≡ result = ground (arith, q) in
          subst (λ (x : Outcome ℕ × Context). Left c x.0 x.1) same
            record {
              context = relocs-IsContext d relocs d.cur_reloc vd;
              placed = λ j lt. one j (ground (arith, ext.cur_reloc));
              few = ground (arith, ext.cur_reloc);
            }
        where
          one :
              (j : ℕ)
              → j < c.cur_reloc + 1
              → Placed (set_reloc c.cur_reloc (record r { index = i }) d.relocs j) d
          one j lt = elim (Bool-cases (j == c.cur_reloc)) [
            | inl this ↦ rw this (Aimed-Placed bo as_mob r i d aim at)
            | inr before ↦
                let q : d.relocs j ≡ c.relocs j =
                  ground (arith, before, ap (λ f. f j) ext.relocs) in
                rw before (rw q (kept-Placed c d (c.relocs j) ext.kept (v.placed j (ground arith))))
          ]

  mob-Left :
      (lookup : Outcome ℕ) (id : ℕ) (c : Context)
      → GivesBuffer lookup
      → IsSubmission c
      → Left c (translate_mob_ptr hash lookup id c).0 (translate_mob_ptr hash lookup id c).1
  unfolding translate_mob_ptr
  mob-Left (err n) id c g v = unchanged-Left c c einval v refl
  mob-Left (ok bo) id c kind v = elim (Bool-cases (leb max_relocations c.cur_reloc)) [
    | inl full ↦ rw full (unchanged-Left c c einval v refl)
    | inr space ↦ rw space (
        place-Left bo true (record (c.relocs c.cur_reloc) { mob_loc = some id; location = none }) c
          kind (ground arith) (id, refl) v)
  ]

  guest-Left :
      (lookup : Outcome ℕ) (ptr : ℕ) (c : Context)
      → GivesBuffer lookup
      → IsSubmission c
      → Left c (translate_guest_ptr hash lookup ptr c).0 (translate_guest_ptr hash lookup ptr c).1
  unfolding translate_guest_ptr
  guest-Left (err n) ptr c g v = unchanged-Left c c einval v refl
  guest-Left (ok bo) ptr c kind v = elim (Bool-cases (leb max_relocations c.cur_reloc)) [
    | inl full ↦ rw full (unchanged-Left c c einval v refl)
    | inr space ↦ rw space (
        place-Left bo false (record (c.relocs c.cur_reloc) { location = some ptr }) c kind
          (ground arith) (ptr, refl) v)
  ]

  -- A submission stays one where buffers stay listed and relocations are not touched.
  extend-IsSubmission :
      (c c' : Context)
      → IsSubmission c
      → IsContext hash is_bo base c'
      → ((bo : ℕ) (m : Bool) (i : ℕ)
          → IsAt hash is_bo base bo m i c
          → IsAt hash is_bo base bo m i c')
      → c'.relocs ≡ c.relocs
      → c'.cur_reloc ≡ c.cur_reloc
      → IsSubmission c'
  extend-IsSubmission c c' v v' kept same count = record {
    context = v';
    placed = λ i lt.
        subst (λ f. Placed (f i) c') (sym same)
          (kept-Placed c c' (c.relocs i) kept (v.placed i (ground (arith, count))));
    few = ground (arith, count, v.few);
  }

  listing-Left :
      (bo : ℕ) (as_mob : Bool) (c c' : Context) (o : Outcome ℕ)
      → IsSubmission c
      → Listed hash is_bo base bo as_mob c (o, c')
      → Left c o c'
  listing-Left bo as_mob c c' (ok i) v (vd, at, ext) =
      extend-IsSubmission c c' v vd ext.kept ext.relocs ext.cur_reloc
  listing-Left bo as_mob c c' (err e) v l = unchanged-Left c c' e v l.1

  adding-Left :
      (c c' : Context) (o : Outcome ℕ)
      → IsSubmission c
      → Added hash is_bo base c (o, c')
      → Left c o c'
  adding-Left c c' (ok i) v (vd, relocs, count, same) =
      extend-IsSubmission c c' v vd
        (λ bo m j (b, p, q, s). (b, ap (λ l. get_elem? l j) same ∙ p, q, s)) relocs count
  adding-Left c c' (err e) v same = unchanged-Left c c' e v same

  Step-Left :
      (c : Context) (o : Outcome ℕ) (c' : Context) → IsSubmission c → Step c o c' → Left c o c'
  Step-Left c o c' v (lists bo flags as_mob kind e) = listing-Left bo as_mob c c' o v (
      subst (λ r. Listed hash is_bo base bo as_mob c r) e
        (bo_to_validate_list-Listed hash is_bo base bo flags as_mob c v.context kind))
  Step-Left c o c' v (adds kzalloc res kind e) = adding-Left c c' o v (
      subst (λ r. Added hash is_bo base c r) e
        (resource_val_add-Added hash is_bo base kzalloc res c v.context kind))
  Step-Left c o c' v (mobs lookup id kind e) =
      subst (λ (x : Outcome ℕ × Context). Left c x.0 x.1) e (mob-Left lookup id c kind v)
  Step-Left c o c' v (guests lookup ptr kind e) =
      subst (λ (x : Outcome ℕ × Context). Left c x.0 x.1) e (guest-Left lookup ptr c kind v)

  reset-IsSubmission :
      (c : Context)
      → IsTable c.res_ht
      → ((key : ℕ) → get hash c.res_ht key ≡ none)
      → c.res_ht.fill ≡ 0
      → ((bo : ℕ) → c.refs bo ≡ base bo)
      → IsSubmission (reset c)
  unfolding reset
  reset-IsSubmission c sorted empty fill refs = record {
    context = record {
      sorted = sorted;
      buffers = λ i b e. cc;
      resources = λ i n e. cc;
      known_bo = λ bo it h e. absurd (ground (arith, e, empty bo));
      known_res = λ res it h e. absurd (ground (arith, e, empty res));
      count = refl;
      room = omega arith;
      fill = ground (arith, fill);
      refs = λ bo. ground (arith, refs bo);
    };
    placed = λ i lt. absurd (omega arith);
    few = omega arith;
  }

  pub Steps-IsSubmission :
      (c c' : Context)
      → IsTable c.res_ht
      → ((key : ℕ) → get hash c.res_ht key ≡ none)
      → c.res_ht.fill ≡ 0
      → ((bo : ℕ) → c.refs bo ≡ base bo)
      → Steps (reset c) c'
      → IsSubmission c'
  Steps-IsSubmission c _ sorted empty fill refs here = reset-IsSubmission c sorted empty fill refs
  Steps-IsSubmission c c' sorted empty fill refs (next {d} {i} ss s) =
      Step-Left d (ok i) c' (Steps-IsSubmission c d sorted empty fill refs ss) s

  -- From an empty table on, after additions that succeed, whatever buffers and resources the commands
  -- name, one more addition, which succeeds or fails. Where it succeeds: each buffer and each resource
  -- is in the table once, at its place in its list, and nothing else is, and each has one reference
  -- more than before, `base`; at most 2048 buffers and 2048 relocations are listed; and each
  -- relocation has a listed buffer, with a MOB id to write where the buffer is used as a MOB, and a
  -- guest pointer where it is not. Where it fails: the table, the references and the bounds are right
  -- in the same way, the lists are what they were, each relocation that was there has its buffer, and
  -- at most one relocation was added, of which nothing is said. It supposes that no buffer has the
  -- address of a resource.
  pub Steps-Left :
      (c d c' : Context) (o : Outcome ℕ)
      → IsTable c.res_ht
      → ((key : ℕ) → get hash c.res_ht key ≡ none)
      → c.res_ht.fill ≡ 0
      → ((bo : ℕ) → c.refs bo ≡ base bo)
      → Steps (reset c) d
      → Step d o c'
      → Left d o c'
  Steps-Left c d c' o sorted empty fill refs ss s =
      Step-Left d o c' (Steps-IsSubmission c d sorted empty fill refs ss) s
