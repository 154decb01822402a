-- ===== src/Validate/Listed.antt =====
-- What the validation list holds, and what adding to it does.
use Prim.Native.Nat.{bit_or}
use vmwgfx.Prelude.{
  ℕ, zero, suc, ◌+◌, ◌%◌, ◌≤◌, ◌≡◌, refl, sym, ◌∙◌, ap, Bool, true, false, not, List, [], ◌∷◌, ◌++◌,
  some, ◌==◌, if◌then◌else◌, arith, u32_mod, Outcome, ok, err, einval, length, get_elem?, inl, inr,
  ◌⊎◌,
}
use vmwgfx.Hashtab.{Item}
use vmwgfx.Hashtab.Lookup.{IsTable, get}
use vmwgfx.Validate.{
  ValBuf, ResNode, Context, item, change, with_flags, not_first, listed_before, max_validations,
}

-- how often a buffer is listed
abbrev pub uses : (bo : ℕ) → List ValBuf → ℕ
uses bo [] = 0
uses bo (b ∷ bs) = (if bo == b.bo then 1 else 0) + uses bo bs

-- how often a resource is listed
abbrev pub res_uses : (res : ℕ) → List ResNode → ℕ
res_uses res [] = 0
res_uses res (n ∷ ns) = (if res == n.res then 1 else 0) + res_uses res ns

-- The buffers and the resources are in the table, each under its key with its place, and nothing else
-- is; the counts agree, and each listed buffer or resource has one reference more than `base`.
pub record IsContext (hash : ℕ → ℕ) (is_bo : ℕ → Bool) (base : ℕ → ℕ) (c : Context) : Type 0 where
  pub sorted : IsTable c.res_ht
  pub buffers :
      (i : ℕ) (b : ValBuf)
      → get_elem? c.val_bufs i ≡ some b
      → (is_bo b.bo ≡ true) × (get hash c.res_ht b.bo ≡ some (item b.bo i))
  pub resources :
      (i : ℕ) (n : ResNode)
      → get_elem? c.resource_list i ≡ some n
      → (is_bo n.res ≡ false) × (get hash c.res_ht n.res ≡ some (item n.res i))
  pub known_bo :
      (bo : ℕ) (it : Item)
      → is_bo bo ≡ true
      → get hash c.res_ht bo ≡ some it
      → (b : ValBuf) × (get_elem? c.val_bufs it.owner ≡ some b) × (b.bo ≡ bo)
  pub known_res :
      (res : ℕ) (it : Item)
      → is_bo res ≡ false
      → get hash c.res_ht res ≡ some it
      → (n : ResNode) × (get_elem? c.resource_list it.owner ≡ some n) × (n.res ≡ res)
  pub count : c.cur_val_buf ≡ length c.val_bufs
  pub room : c.cur_val_buf ≤ max_validations
  pub fill : c.res_ht.fill ≡ (length c.val_bufs + length c.resource_list) % u32_mod
  pub refs : (a : ℕ) → c.refs a ≡ base a + uses a c.val_bufs + res_uses a c.resource_list

module _ {A : Type 0} where
  pub get-last : (xs : List A) (x : A) → get_elem? (xs ++ (x ∷ [])) (length xs) ≡ some x
  get-last [] x = refl
  get-last (y ∷ xs) x = get-last xs x

  -- an index into a list that has grown by one is one into the list, or the last
  pub get-snoc :
      (xs : List A) (x y : A) (i : ℕ)
      → get_elem? (xs ++ (x ∷ [])) i ≡ some y
      → (get_elem? xs i ≡ some y) ⊎ ((i ≡ length xs) × (y ≡ x))
  get-snoc [] x y zero e = inr (refl, ground (arith, e))
  get-snoc [] x y (suc i) e = cc
  get-snoc (z ∷ xs) x y zero e = inl e
  get-snoc (z ∷ xs) x y (suc i) e = elim (get-snoc xs x y i e) [
    | inl h ↦ inl h
    | inr (h, q) ↦ inr (ap suc h, q)
  ]

  pub get-old :
      (xs : List A) (x y : A) (i : ℕ)
      → get_elem? xs i ≡ some y
      → get_elem? (xs ++ (x ∷ [])) i ≡ some y
  get-old [] x y i e = cc
  get-old (z ∷ xs) x y zero e = e
  get-old (z ∷ xs) x y (suc i) e = get-old xs x y i e

  -- reading a list with one element changed
  pub get-change :
      (f : A → A) (xs : List A) (i j : ℕ) (y : A)
      → get_elem? (change f i xs) j ≡ some y
      → (x : A) × (get_elem? xs j ≡ some x) × ((y ≡ x) ⊎ (y ≡ f x))
  unfolding change
  get-change f [] i j y e = cc
  get-change f (x ∷ xs) zero zero y e = (x, refl, inr (ground (arith, e)))
  get-change f (x ∷ xs) zero (suc j) y e = (y, e, inl refl)
  get-change f (x ∷ xs) (suc i) zero y e = (y, e, inl refl)
  get-change f (x ∷ xs) (suc i) (suc j) y e = get-change f xs i j y e

  pub change-get :
      (f : A → A) (xs : List A) (i j : ℕ) (x : A)
      → get_elem? xs j ≡ some x
      → (y : A) × (get_elem? (change f i xs) j ≡ some y) × ((y ≡ x) ⊎ (y ≡ f x))
  unfolding change
  change-get f [] i j x e = cc
  change-get f (z ∷ xs) zero zero x e = (f x, ground (arith, e), inr refl)
  change-get f (z ∷ xs) zero (suc j) x e = (x, e, inl refl)
  change-get f (z ∷ xs) (suc i) zero x e = (x, e, inl refl)
  change-get f (z ∷ xs) (suc i) (suc j) x e = change-get f xs i j x e

  pub length-change : (f : A → A) (xs : List A) (i : ℕ) → length (change f i xs) ≡ length xs
  unfolding change
  length-change f [] i = refl
  length-change f (x ∷ xs) zero = refl
  length-change f (x ∷ xs) (suc i) = ap suc (length-change f xs i)

uses-flags :
    (bo flags i : ℕ) (bs : List ValBuf) → uses bo (change (with_flags flags) i bs) ≡ uses bo bs
unfolding change
uses-flags bo flags i [] = refl
uses-flags bo flags zero (b ∷ bs) = refl
uses-flags bo flags (suc i) (b ∷ bs) =
    ap (λ n. (if bo == b.bo then 1 else 0) + n) (uses-flags bo flags i bs)

pub res_uses-first :
    (res i : ℕ) (ns : List ResNode) → res_uses res (change not_first i ns) ≡ res_uses res ns
unfolding change
res_uses-first res i [] = refl
res_uses-first res zero (n ∷ ns) = refl
res_uses-first res (suc i) (n ∷ ns) =
    ap (λ k. (if res == n.res then 1 else 0) + k) (res_uses-first res i ns)

pub res_uses-snoc :
    (res : ℕ) (n : ResNode) (ns : List ResNode)
    → res_uses res (ns ++ (n ∷ [])) ≡ res_uses res ns + (if res == n.res then 1 else 0)
res_uses-snoc res n [] = omega arith
res_uses-snoc res n (m ∷ ms) = omega (arith, res_uses-snoc res n ms)

pub uses-snoc :
    (bo : ℕ) (b : ValBuf) (bs : List ValBuf)
    → uses bo (bs ++ (b ∷ [])) ≡ uses bo bs + (if bo == b.bo then 1 else 0)
uses-snoc bo b [] = omega arith
uses-snoc bo b (x ∷ bs) = omega (arith, uses-snoc bo b bs)

module _ (hash : ℕ → ℕ) (is_bo : ℕ → Bool) (base : ℕ → ℕ) where
  -- The `i`-th buffer is `bo`, used as `validate_as_mob` says.
  abbrev pub IsAt : (bo : ℕ) → (validate_as_mob : Bool) → (i : ℕ) → Context → Type 0
  IsAt bo validate_as_mob i c =
      (b : ValBuf) × (get_elem? c.val_bufs i ≡ some b)
      × (b.bo ≡ bo)
      × (b.validate_as_mob ≡ validate_as_mob)

  -- Buffers stay where they are, and the relocations and the resources are untouched.
  pub record Extends (c c' : Context) : Type 0 where
    pub kept :
        (bo : ℕ) (validate_as_mob : Bool) (i : ℕ)
        → IsAt bo validate_as_mob i c
        → IsAt bo validate_as_mob i c'
    pub relocs : c'.relocs ≡ c.relocs
    pub cur_reloc : c'.cur_reloc ≡ c.cur_reloc
    pub resource_list : c'.resource_list ≡ c.resource_list

  -- What listing a buffer comes to: it is at the index that is handed out, or nothing is changed,
  -- because it is listed for the other use, or the list is full.
  abbrev pub Listed : (bo : ℕ) → (validate_as_mob : Bool) → Context → Outcome ℕ × Context → Type 0
  Listed bo validate_as_mob c (ok i, c') =
      IsContext hash is_bo base c' × IsAt bo validate_as_mob i c' × Extends c c'
  Listed bo validate_as_mob c (err e, c') =
      (e ≡ einval)
      × (c' ≡ c)
      × (((i : ℕ) × IsAt bo (not validate_as_mob) i c) ⊎ (c.cur_val_buf ≡ max_validations))

  flags-IsContext :
      (c : Context) (flags i : ℕ)
      → IsContext hash is_bo base c
      → IsContext hash is_bo base (record c {
        val_bufs = change (with_flags flags) i c.val_bufs;
        fence_flags = bit_or c.fence_flags flags;
      })
  flags-IsContext c flags i v = record {
    sorted = v.sorted;
    buffers = λ j b h.
        let (x, e, q) = get-change (with_flags flags) c.val_bufs i j b h in
        ground (arith, v.buffers j x e);
    resources = v.resources;
    known_bo = λ bo it h e.
        let (b, q, s) = v.known_bo bo it h e in
        let (y, r, t) = change-get (with_flags flags) c.val_bufs i it.owner b q in
        (y, r, ground arith);
    known_res = v.known_res;
    count = v.count ∙ sym (length-change (with_flags flags) c.val_bufs i);
    room = v.room;
    fill = ground (arith, v.fill, length-change (with_flags flags) c.val_bufs i);
    refs = λ a.
        v.refs a
        ∙ ap (λ n. base a + n + res_uses a c.resource_list) (sym (uses-flags a flags i c.val_bufs));
  }

  flags-kept :
      (c : Context) (flags i : ℕ) (bo : ℕ) (as_mob : Bool) (j : ℕ)
      → IsAt bo as_mob j c
      → IsAt bo as_mob j (record c {
        val_bufs = change (with_flags flags) i c.val_bufs;
        fence_flags = bit_or c.fence_flags flags;
      })
  flags-kept c flags i bo as_mob j (b, e, p, q) =
      let (y, r, t) = change-get (with_flags flags) c.val_bufs i j b e in
      (y, r, ground arith, ground arith)

  flags-Extends :
      (c : Context) (flags i : ℕ)
      → Extends c (record c {
        val_bufs = change (with_flags flags) i c.val_bufs;
        fence_flags = bit_or c.fence_flags flags;
      })
  flags-Extends c flags i = record {
    kept = flags-kept c flags i;
    relocs = refl;
    cur_reloc = refl;
    resource_list = refl;
  }

  pub listed_before-Listed :
      (bo flags : ℕ) (as_mob : Bool) (i : ℕ) (b : ValBuf) (c : Context)
      → IsContext hash is_bo base c
      → get_elem? c.val_bufs i ≡ some b
      → b.bo ≡ bo
      → Listed bo as_mob c (listed_before hash flags as_mob i (some b) c)
  unfolding listed_before
  listed_before-Listed bo flags as_mob i b c v e same = go as_mob b.validate_as_mob refl
    where
      go :
          (m m' : Bool)
          → b.validate_as_mob ≡ m'
          → Listed bo m c (listed_before hash flags m i (some b) c)
      go true true u = rw u (
        flags-IsContext c flags i v,
        flags-kept c flags i bo true i (b, e, same, u),
        flags-Extends c flags i,
      )
      go false false u = rw u (
        flags-IsContext c flags i v,
        flags-kept c flags i bo false i (b, e, same, u),
        flags-Extends c flags i,
      )
      go true false u = rw u (refl, refl, inl (i, (b, e, same, u)))
      go false true u = rw u (refl, refl, inl (i, (b, e, same, u)))
