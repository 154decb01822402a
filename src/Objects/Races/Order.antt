-- ===== src/Objects/Races/Order.antt =====
-- Sections that make objects or are about reference objects, and any interleaving of the sections.
use mathlib.Core.Path.{subst}
use vmwgfx.Prelude.{
  ℕ, ◌+◌, ◌-◌, ◌<◌, ◌≡◌, refl, sym, ap, ◌∙◌, Bool, true, not, ◌&&◌, [], ◌∷◌, ◌++◌, Option, none,
  some, ◌==◌, if◌then◌else◌, arith, Bool-cases, Option-cases, inl, inr,
}
use vmwgfx.Objects.{
  Base, Ref, Device, get_base, find_ref, change_ref, drop_ref, ref_usage, may_use, get_ref,
  insert_ref, unlink_ref, notify,
}
use vmwgfx.Objects.Balance.{more}
use vmwgfx.Objects.Refs.{drop-uses, change-uses}
use vmwgfx.Objects.Steps.{created}
use vmwgfx.Objects.Races.{
  System, Step, creates, finds, looks_up, puts, removes, takes, inserts, gives, unlinks, closes,
  Steps, here, next, dying, IsLive,
}
use vmwgfx.Objects.Races.Lists.{
  drop-IsUsable, change-IsUsable, last-IsUsable, drop-dying, change-dying, uses-last, dying-last,
}
use vmwgfx.Objects.Races.Bases.{
  one-IsLive, one-IsUsable, recount-IsUsable, lookup_for_ref-IsLive, lookup-IsLive, put-IsLive,
  release_base-IsLive,
}

change-IsLive :
    (step : ℕ → ℕ) (tfile ref_type key n : ℕ) (s : System)
    → IsLive s
    → n ≡ dying (change_ref step tfile ref_type key s.device.refs)
    → IsLive (record s {
      device = record (s.device) { refs = change_ref step tfile ref_type key s.device.refs };
      unlinking = n;
    })
change-IsLive step tfile ref_type key n s v right = record {
  counted = λ k. rw (change-uses step tfile ref_type key s.device.refs k).0 (v.counted k);
  unlinking = right;
  usable = change-IsUsable step tfile ref_type key s.device.bases s.device.refs v.usable;
}

notify-same :
    (ref_type key : ℕ) (o : Option Base) (d : Device)
    → ((notify ref_type key o d).bases ≡ d.bases) × ((notify ref_type key o d).refs ≡ d.refs)
notify-same ref_type key none d = (refl, refl)
notify-same ref_type key (some b) d =
    elim (Bool-cases (not (ref_type == ref_usage) && b.ref_obj_release)) [
      | inl told ↦ rw told (refl, refl)
      | inr silent ↦ rw silent (refl, refl)
    ]

unlink-IsLive :
    (tfile ref_type key n : ℕ) (r : Ref) (s : System)
    → IsLive s
    → find_ref tfile ref_type key s.device.refs ≡ some r
    → n ≡ dying (drop_ref tfile ref_type key s.device.refs)
    → IsLive (record s {
      device = unlink_ref tfile ref_type key s.device;
      held = more key s.held;
      unlinking = n;
    })
unfolding unlink_ref
unlink-IsLive tfile ref_type key n r s v found right =
    let d1 : Device = record (s.device) { refs = drop_ref tfile ref_type key s.device.refs } in
    let (bases, refs) = notify-same ref_type key (s.device.bases key) d1 in
    let (u, _) = drop-uses tfile ref_type key s.device.refs r found in
    record {
      counted = λ k. rw bases (
          rw refs (elim (Option-cases (s.device.bases k)) [
            | inl absent ↦ ground (arith, v.counted k, absent, u k)
            | inr (b, there) ↦ ground (arith, v.counted k, there, u k)
          ]));
      unlinking = right ∙ sym (ap dying refs);
      usable =
          rw bases
            (rw refs (drop-IsUsable tfile ref_type key s.device.bases s.device.refs v.usable));
    }

created-IsLive :
    (key tfile : ℕ) (shareable ref_obj_release : Bool) (s : System)
    → IsLive s
    → s.device.bases key ≡ none
    → IsLive (record s {
      device = created key tfile shareable ref_obj_release s.device;
      held = more key s.held;
    })
created-IsLive key tfile shareable ref_obj_release s v absent =
    one-IsLive key s
      (record s {
        device = created key tfile shareable ref_obj_release s.device;
        held = more key s.held;
      })
      v (λ k other. (ground arith, refl, ground arith, refl))
      (ground (arith, absent, v.counted key)) v.unlinking
      (one-IsUsable key (created key tfile shareable ref_obj_release s.device).bases s v
        (λ k other. ground (arith, other)) (inl (ground (arith, absent, v.counted key))))

get_ref-IsLive :
    (tfile ref_type key : ℕ) (d : Device) (s : System)
    → IsLive s
    → get_ref tfile ref_type key s.device ≡ some d
    → IsLive (record s { device = d })
unfolding get_ref
get_ref-IsLive tfile ref_type key d s v e =
    elim (Option-cases (find_ref tfile ref_type key s.device.refs)) [
      | inl absent ↦ absurd (ground (arith, e, absent))
      | inr (r, found) ↦ elim (Bool-cases (r.kref == 0)) [
        | inl ended ↦ absurd (ground (arith, e, found, ended))
        | inr alive ↦
            let d' : Device = record (s.device) {
              refs = change_ref (λ n. n + 1) tfile ref_type key s.device.refs;
            } in
            let q : d' ≡ d = ground (arith, e, found, alive) in
            let counts = change-dying (λ n. n + 1) tfile ref_type key s.device.refs r found in
            subst (λ x. IsLive (record s { device = x })) q
              (change-IsLive (λ n. n + 1) tfile ref_type key s.unlinking s v
                (ground (arith, counts, alive, v.unlinking)))
      ]
    ]

insert_ref-IsLive :
    (tfile ref_type key : ℕ) (b : Base) (d : Device) (s : System)
    → IsLive s
    → 0 < s.held key
    → s.device.bases key ≡ some b
    → may_use tfile b ≡ true
    → insert_ref tfile ref_type key b s.device ≡ some d
    → IsLive (record s { device = d })
unfolding insert_ref
insert_ref-IsLive tfile ref_type key b d s v pos there may e =
    elim (Option-cases (find_ref tfile ref_type key s.device.refs)) [
      | inr (r, found) ↦ absurd (ground (arith, e, found))
      | inl absent ↦
          let n : Ref = record { obj = key; tfile = tfile; ref_type = ref_type; kref = 1 } in
          let d' : Device = record (get_base key b s.device) {
            refs = s.device.refs ++ (n ∷ []);
            charged = s.device.charged + 1;
          } in
          let q : d' ≡ d = ground (arith, e, absent) in
          subst (λ x. IsLive (record s { device = x })) q
            (one-IsLive key s (record s { device = d' }) v
              (λ k other. (ground arith, ground (arith, uses-last k s.device.refs n), refl, refl))
              (ground (arith, there, pos, v.counted key, uses-last key s.device.refs n))
              (ground (arith, v.unlinking, dying-last s.device.refs n))
              (last-IsUsable d'.bases s.device.refs n
                (recount-IsUsable key (b.refcount + 1) b s v there)
                (record b { refcount = b.refcount + 1 }, ground arith, may)))
    ]

Step-IsLive : (s t : System) → Step s t → IsLive s → IsLive t
Step-IsLive s t (creates key tfile shareable release absent e) v =
    rw e (created-IsLive key tfile shareable release s v absent)
Step-IsLive s t (finds tfile key b r d found h e) v =
    rw e (lookup-IsLive tfile key b r d s v found h)
Step-IsLive s t (looks_up key b d h e) v = rw e (lookup_for_ref-IsLive key b d s v h)
Step-IsLive s t (puts key pos e) v = rw e (put-IsLive key s v pos)
Step-IsLive s t (removes key ended e) v = rw e (release_base-IsLive key s v ended)
Step-IsLive s t (takes tfile ref_type key d h e) v =
    rw e (get_ref-IsLive tfile ref_type key d s v h)
Step-IsLive s t (inserts tfile ref_type key b d pos there may h e) v =
    rw e (insert_ref-IsLive tfile ref_type key b d s v pos there may h)
Step-IsLive s t (gives tfile ref_type key r found pos e) v =
    let counts = change-dying (λ n. n - 1) tfile ref_type key s.device.refs r found in
    rw e (
      change-IsLive (λ n. n - 1) tfile ref_type key ((if r.kref == 1 then 1 else 0) + s.unlinking) s
        v (ground (arith, counts, pos, v.unlinking)))
Step-IsLive s t (unlinks tfile ref_type key r found ended e) v = rw e (
    unlink-IsLive tfile ref_type key (s.unlinking - 1) r s v found
      (ground (arith, v.unlinking, ended, drop-dying tfile ref_type key s.device.refs r found)))
Step-IsLive s t (closes tfile ref_type key r found pos e) v = rw e (
    unlink-IsLive tfile ref_type key s.unlinking r s v found
      (ground (arith, v.unlinking, pos, drop-dying tfile ref_type key s.device.refs r found)))

-- Tasks make, look up and give up objects, and take, give back and close references of files, in any
-- interleaving of the sections, where between a count that comes to 0 and the removal others may
-- come. Always an object in the table has as its count the number of its reference objects and of the
-- references that tasks hold; that is 0 just where one task is to remove it, so that no task that
-- looks the object up then gets it; nothing is on an object that is not in the table; no file has a
-- reference on an object that belongs to another file and is not shareable; and the
-- reference objects whose count is 0 are as many as the tasks that are to unlink one. It supposes that
-- tasks give up only what they hold, and it leaves out that an object is taken out of the table again
-- because its first reference could not be made.
pub Steps-IsLive : (s t : System) → Steps s t → IsLive s → IsLive t
Steps-IsLive s _ here v = v
Steps-IsLive s u (next {t} ss x) v = Step-IsLive t u x (Steps-IsLive s t ss v)
