-- ===== src/Objects/Races.antt =====
-- The sections of the object code one by one: a count comes to 0 in one, and the object or the reference
-- object leaves its table in a later one, and tasks that look it up come between them.
pub mod Lists
pub mod Bases
pub mod Order
use mathlib.Core.Path.{subst}
use vmwgfx.Prelude.{
  All, ◌⊎◌, ℕ, ◌+◌, ◌-◌, ◌<◌, ◌≡◌, refl, sym, ap, ◌∙◌, Bool, true, false, not, ◌&&◌, List, [], ◌∷◌,
  ◌++◌, Option, none, some, ◌==◌, if◌then◌else◌, arith, Bool-cases, Option-cases, inl, inr,
}
use vmwgfx.Objects.{
  Base, Ref, Device, set_base, count_file, kref_put, release_base, get_base, lookup_for_ref, lookup,
  is_ref, find_ref, change_ref, drop_ref, ref_usage, may_use, get_ref, insert_ref, unlink_ref,
  notify,
}
use vmwgfx.Objects.Balance.{uses, more, less, same_key}
use vmwgfx.Objects.Refs.{drop-uses, change-uses}
use vmwgfx.Objects.Steps.{created}

-- The objects; the references that tasks hold on each; whether a task has taken the count of an object
-- to 0 and is to remove it; and how many tasks have taken the count of a reference object to 0
-- and are to unlink it.
pub record System : Type 0 where
  pub device : Device
  pub held : ℕ → ℕ
  pub removing : ℕ → Bool
  pub unlinking : ℕ

abbrev pub mark : (key : ℕ) → Bool → (ℕ → Bool) → ℕ → Bool
mark key b removing k = if k == key then b else removing k

-- The sections. A task gives up only what it holds, and takes a reference for a file only on an object
-- that it holds. `unlinks` is the first section of `ttm_ref_object_release`, by the task that took
-- the count to 0, and `closes` is the same from `ttm_object_file_release`; the task then holds the
-- reference of the reference object, which `puts` gives up.
pub data Step (s t : System) : Type 0 where
  creates :
      (key tfile : ℕ) (shareable ref_obj_release : Bool)
      → s.device.bases key ≡ none
      → t ≡ record s {
        device = created key tfile shareable ref_obj_release s.device;
        held = more key s.held;
      }
      → Step s t
  finds :
      (tfile key : ℕ) (b : Base) (r : Ref) (d : Device)
      → find_ref tfile ref_usage key s.device.refs ≡ some r
      → lookup tfile key s.device ≡ (some b, d)
      → t ≡ record s { device = d; held = more r.obj s.held }
      → Step s t
  looks_up :
      (key : ℕ) (b : Base) (d : Device)
      → lookup_for_ref key s.device ≡ (some b, d)
      → t ≡ record s { device = d; held = more key s.held }
      → Step s t
  puts :
      (key : ℕ)
      → 0 < s.held key
      → t ≡ record s {
        device = (kref_put key s.device).1;
        held = less key s.held;
        removing = mark key (kref_put key s.device).0 s.removing;
      }
      → Step s t
  removes :
      (key : ℕ)
      → s.removing key ≡ true
      → t ≡ record s { device = release_base key s.device; removing = mark key false s.removing }
      → Step s t
  takes :
      (tfile ref_type key : ℕ) (d : Device)
      → get_ref tfile ref_type key s.device ≡ some d
      → t ≡ record s { device = d }
      → Step s t
  inserts :
      (tfile ref_type key : ℕ) (b : Base) (d : Device)
      → 0 < s.held key
      → s.device.bases key ≡ some b
      → may_use tfile b ≡ true
      → insert_ref tfile ref_type key b s.device ≡ some d
      → t ≡ record s { device = d }
      → Step s t
  gives :
      (tfile ref_type key : ℕ) (r : Ref)
      → find_ref tfile ref_type key s.device.refs ≡ some r
      → 0 < r.kref
      → t ≡ record s {
        device = record (s.device) {
          refs = change_ref (λ n. n - 1) tfile ref_type key s.device.refs;
        };
        unlinking = (if r.kref == 1 then 1 else 0) + s.unlinking;
      }
      → Step s t
  unlinks :
      (tfile ref_type key : ℕ) (r : Ref)
      → find_ref tfile ref_type key s.device.refs ≡ some r
      → r.kref ≡ 0
      → t ≡ record s {
        device = unlink_ref tfile ref_type key s.device;
        held = more key s.held;
        unlinking = s.unlinking - 1;
      }
      → Step s t
  closes :
      (tfile ref_type key : ℕ) (r : Ref)
      → find_ref tfile ref_type key s.device.refs ≡ some r
      → 0 < r.kref
      → t ≡ record s { device = unlink_ref tfile ref_type key s.device; held = more key s.held }
      → Step s t

pub data Steps (s : System) : System → Type 0 where
  here : Steps s s
  next : {t u : System} → Steps s t → Step t u → Steps s u

-- the reference objects whose count is 0
abbrev pub dying : List Ref → ℕ
dying [] = 0
dying (r ∷ rs) = (if r.kref == 0 then 1 else 0) + dying rs

-- An object in the table has the count of its reference objects and of the references that tasks hold,
-- and that is 0 just where a task is to remove it; there is nothing on an object that is not there.
abbrev pub IsCounted : Option Base → (uses held : ℕ) → (removing : Bool) → Type 0
IsCounted none u h m = (u ≡ 0) × (h ≡ 0) × (m ≡ false)
IsCounted (some b) u h m = (b.refcount ≡ u + h) × (m ≡ (b.refcount == 0))

-- A reference object is on an object in the table that its file may use.
abbrev pub IsUsable : (ℕ → Option Base) → Ref → Type 0
IsUsable bases r = (b : Base) × (bases r.obj ≡ some b) × (may_use r.tfile b ≡ true)

-- And the reference objects with the count 0 are those that a task is to unlink.
pub record IsLive (s : System) : Type 0 where
  pub counted :
      (key : ℕ)
      → IsCounted (s.device.bases key) (uses key s.device.refs) (s.held key) (s.removing key)
  pub unlinking : s.unlinking ≡ dying s.device.refs
  pub usable : All (IsUsable s.device.bases) s.device.refs
