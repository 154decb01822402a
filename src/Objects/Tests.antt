-- ===== src/Objects/Tests.antt =====
-- Concrete runs of base objects: object 7 of file 1, which nobody shares.
use vmwgfx.Prelude.{ℕ, ◌≡◌, refl, arith, true, false, [], ◌∷◌, none, some, ok}
use vmwgfx.Objects.{
  Base, Ref, Device, kref_put, release_base, lookup_for_ref, base_unref, find_ref, insert_ref,
  get_base, file_release, count_refs, base_object_init, ref_usage,
}
use vmwgfx.Objects.Init.{calm, fresh, first_usage, base_object_init-IsBalanced}
use vmwgfx.Objects.Balance.{IsBalanced, more, less}
use vmwgfx.Objects.Steps.{
  System, Step, Steps, created, here, next, creates, inserts, unrefs, Steps-IsBalanced,
}
use vmwgfx.Objects.Races
use vmwgfx.Objects.Races.Order.{Steps-IsLive}
use vmwgfx.Objects.Close.{file_release-IsBalanced}

abbrev nothing : Device
nothing = record {
  bases = λ key. none;
  refs = [];
  file_refs = λ f. 1;
  charged = 0;
  released = [];
  ref_released = [];
}

abbrev none_held : ℕ → ℕ
none_held key = 0

abbrev start : System
start = record { device = nothing; held = none_held }

nothing-IsBalanced : IsBalanced 0 none_held nothing
nothing-IsBalanced = record {
  counts = λ key b h. cc;
  dead = λ key h. (refl, refl);
  charged = refl;
  allowed = tt;
}

abbrev object : (refcount : ℕ) → Base
object refcount = record {
  shareable = false;
  tfile = 1;
  ref_obj_release = false;
  refcount = refcount;
}

abbrev made : System
made = record { device = created 7 1 false false nothing; held = more 7 none_held }

abbrev usage : Ref
usage = record { obj = 7; tfile = 1; ref_type = 0; kref = 1 }

abbrev referenced_device : Device
referenced_device = record (get_base 7 (object 1) made.device) { refs = usage ∷ []; charged = 1 }

abbrev referenced : System
referenced = record made { device = referenced_device }

-- The creator has given its reference up, and the file has one.
abbrev owned : System
owned = record { device = base_unref 7 referenced_device; held = less 7 made.held }

insert_step : Step made referenced
unfolding insert_ref find_ref
insert_step = inserts 1 0 7 (object 1) referenced_device refl refl refl refl

owned-Steps : Steps start owned
owned-Steps =
    next (next (next here (creates 7 1 false false refl refl)) insert_step)
      (unrefs 7 (ground arith) refl)

owned-IsBalanced : IsBalanced 0 owned.held owned.device
owned-IsBalanced = Steps-IsBalanced start owned owned-Steps nothing-IsBalanced

file_release-IsBalanced_example :
    (d : Device) × (file_release 1 owned.device ≡ some d)
    × IsBalanced 0 owned.held d
    × (count_refs 1 d.refs ≡ 0)
file_release-IsBalanced_example = file_release-IsBalanced owned.held 1 owned.device owned-IsBalanced

base_object_init-IsBalanced_example :
    (d : Device) × (base_object_init (ok 7) (calm ∷ []) 1 true false nothing ≡ some (ok 7, d))
    × IsBalanced 0 none_held d
    × (d.bases 7 ≡ some (fresh 1 true false))
    × (find_ref 1 ref_usage 7 d.refs ≡ some (first_usage 1 7))
base_object_init-IsBalanced_example =
    base_object_init-IsBalanced 7 1 true false none_held [] nothing nothing-IsBalanced refl

-- The object with its creator's reference alone, which is given up; another task looks it up in vain, and
-- it is removed.
abbrev alone : Races.System
alone = record {
  device = created 7 1 false false nothing;
  held = more 7 none_held;
  removing = λ key. false;
  unlinking = 0;
}

abbrev empty : Races.System
empty = record { device = nothing; held = none_held; removing = λ key. false; unlinking = 0 }

abbrev ended : Races.System
ended = record alone {
  device = (kref_put 7 alone.device).1;
  held = less 7 alone.held;
  removing = Races.mark 7 (kref_put 7 alone.device).0 alone.removing;
}

abbrev removed : Races.System
removed = record ended {
  device = release_base 7 ended.device;
  removing = Races.mark 7 false ended.removing;
}

removed-Steps : Races.Steps empty removed
unfolding kref_put
removed-Steps =
    Races.next
      (Races.next (Races.next Races.here (Races.creates 7 1 false false refl refl))
        (Races.puts 7 (ground arith) refl))
      (Races.removes 7 refl refl)

Steps-IsLive_example : Races.IsLive removed
Steps-IsLive_example =
    Steps-IsLive empty removed removed-Steps
      record { counted = λ key. (refl, refl, refl); unlinking = refl; usable = tt }

-- While the count is 0 and the object is in the table, a lookup does not get it.
ended_lookup : (lookup_for_ref 7 ended.device).0 ≡ none
unfolding lookup_for_ref kref_put
ended_lookup = refl
