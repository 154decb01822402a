-- ===== src/Fence/Books.antt =====
-- What the manager counts, and when the fence goal is on.
use mathlib.Core.Path.{subst}
use vmwgfx.Prelude.{
  ℕ, ◌+◌, ◌%◌, ◌≤◌, ◌<◌, ◌≡◌, refl, ◌∙◌, true, false, List, [], ◌∷◌, Option, none, some, ◌==◌,
  arith, All, u32_mod, length, Bool-cases, inl, inr,
}
use vmwgfx.Fence.{
  Fence, Manager, perform_actions, signal, is_passed, pass_fences, find, change, drop, is_found,
  on_fence, next_goal, goal_new, update_round, update, schedule, is_empty,
}
use vmwgfx.Fence.Pass.{perform_actions-Performed}

-- how many actions hang on the fences
abbrev pub attached : List Fence → ℕ
attached [] = 0
attached (f ∷ fs) = length f.actions + attached fs

-- A fence that has not passed, and one that has.
abbrev pub IsOpen : Fence → Type 0
IsOpen f = f.signaled.exec ≡ false

abbrev pub IsClosed : Fence → Type 0
IsClosed f = (f.signaled.exec ≡ true) × (f.actions ≡ [])

pub record IsBooks (m : Manager) : Type 0 where
  pub list : All IsOpen m.fence_list
  pub passed : All IsClosed m.passed
  pub objects : m.num_fence_objects ≡ (length m.fence_list + length m.passed) % u32_mod
  pub pending : m.pending_actions ≡ attached m.fence_list % u32_mod
  pub goal : 0 < attached m.fence_list → m.seqno_valid ≡ true

-- The same, in the midst of an update: `fs` is what is left of the list.
record InUpdate (fs : List Fence) (m : Manager) : Type 0 where
  list : All IsOpen fs
  passed : All IsClosed m.passed
  objects : m.num_fence_objects ≡ (length fs + length m.passed) % u32_mod
  pending : m.pending_actions ≡ attached fs % u32_mod

pass_fences-InUpdate :
    (seqno : ℕ) (fs : List Fence) (m : Manager)
    → InUpdate fs m
    → InUpdate (pass_fences seqno fs m).fence_list (pass_fences seqno fs m)
unfolding pass_fences signal
pass_fences-InUpdate seqno [] m v = record {
  list = tt;
  passed = v.passed;
  objects = v.objects;
  pending = v.pending;
}
pass_fences-InUpdate seqno (f ∷ fs) m v =
    let m1 : Manager = record m { passed = signal f ∷ m.passed } in
    let p = perform_actions-Performed f.actions m1 in
    let more : InUpdate fs (perform_actions f.actions m1) = record {
      list = v.list.1;
      passed = ground (arith, p.passed, v.passed);
      objects = ground (arith, p.passed, p.num_fence_objects, v.objects);
      pending = p.pending (attached fs) (ground (arith, v.pending));
    } in
    let rest = pass_fences-InUpdate seqno fs (perform_actions f.actions m1) more in
    elim (Bool-cases (is_passed seqno f)) [
      | inl now ↦ rw now rest
      | inr later ↦
          rw later
            (record { list = v.list; passed = v.passed; objects = v.objects; pending = v.pending })
    ]

pass_fences-goal :
    (seqno : ℕ) (fs : List Fence) (m : Manager)
    → ((pass_fences seqno fs m).seqno_valid ≡ m.seqno_valid)
      × ((pass_fences seqno fs m).fence_goal ≡ m.fence_goal)
unfolding pass_fences
pass_fences-goal seqno [] m = (refl, refl)
pass_fences-goal seqno (f ∷ fs) m =
    let m1 : Manager = record m { passed = signal f ∷ m.passed } in
    let p = perform_actions-Performed f.actions m1 in
    ground
      (arith, p.seqno_valid, p.fence_goal, pass_fences-goal seqno fs (perform_actions f.actions m1))

attached-empty : (l : List ℕ) → is_empty l ≡ true → length l ≡ 0
attached-empty [] h = refl
attached-empty (a ∷ l) h = cc

next_goal-some : (fs : List Fence) → 0 < attached fs → (n : ℕ) × (next_goal fs ≡ some n)
unfolding next_goal
next_goal-some [] h = absurd (omega arith)
next_goal-some (f ∷ fs) h = elim (Bool-cases (is_empty f.actions)) [
  | inl free ↦
      let (n, e) = next_goal-some fs (omega (arith, attached-empty f.actions free)) in
      (n, ground (arith, e))
  | inr held ↦ (f.seqno, ground arith)
]

goal_new-IsBooks :
    (seqno : ℕ) (m : Manager)
    → InUpdate m.fence_list m
    → (0 < attached m.fence_list → m.seqno_valid ≡ true)
    → IsBooks (schedule (goal_new seqno m).1)
unfolding goal_new
goal_new-IsBooks seqno m v h = go (next_goal m.fence_list) refl
  where
    same : (schedule (goal_new seqno m).1).fence_list ≡ m.fence_list
    same = ground arith

    listed : 0 < attached (schedule (goal_new seqno m).1).fence_list → 0 < attached m.fence_list
    listed pos = rw same at pos

    go : (o : Option ℕ) → next_goal m.fence_list ≡ o → IsBooks (schedule (goal_new seqno m).1)
    go none e = record {
      list = ground (arith, v.list);
      passed = ground (arith, v.passed);
      objects = ground (arith, v.objects);
      pending = ground (arith, v.pending);
      goal = λ pos. absurd (ground (arith, next_goal-some m.fence_list (listed pos)));
    }
    go (some n) e = record {
      list = ground (arith, v.list);
      passed = ground (arith, v.passed);
      objects = ground (arith, v.objects);
      pending = ground (arith, v.pending);
      goal = λ pos. ground (arith, h (listed pos));
    }

-- where the fences that are left had a valid goal before
attached-le :
    (seqno : ℕ) (fs : List Fence) (m : Manager)
    → attached (pass_fences seqno fs m).fence_list ≤ attached fs
unfolding pass_fences
attached-le seqno [] m = omega arith
attached-le seqno (f ∷ fs) m = ground (
  arith,
  attached-le seqno fs (perform_actions f.actions (record m { passed = signal f ∷ m.passed })),
)

update_round-IsBooks : (seqno : ℕ) (m : Manager) → IsBooks m → IsBooks (update_round seqno m).1
unfolding update_round
update_round-IsBooks seqno m v =
    goal_new-IsBooks seqno (pass_fences seqno m.fence_list m)
      (pass_fences-InUpdate seqno m.fence_list m
        (record { list = v.list; passed = v.passed; objects = v.objects; pending = v.pending }))
      (λ pos.
        (pass_fences-goal seqno m.fence_list m).0
        ∙ v.goal (omega (arith, pos, attached-le seqno m.fence_list m)))

pub update-IsBooks :
    (reads : List ℕ) (seqno : ℕ) (m m' : Manager)
    → IsBooks m
    → update seqno reads m ≡ some m'
    → IsBooks m'
unfolding update
update-IsBooks [] seqno m m' v h =
    let e : (update_round seqno m).1 ≡ m' = ground (arith, h) in
    subst (λ n. IsBooks n) e (update_round-IsBooks seqno m v)
update-IsBooks (r ∷ rs) seqno m m' v h =
    let w = update_round-IsBooks seqno m v in
    let rest = update-IsBooks rs r (update_round seqno m).1 m' w in
    elim (Bool-cases (update_round seqno m).0) [
      | inl again ↦ elim (Bool-cases (r == seqno)) [
        | inl still ↦
            let e : (update_round seqno m).1 ≡ m' = ground (arith, h) in subst (λ n. IsBooks n) e w
        | inr moved ↦ rest (ground (arith, h))
      ]
      | inr done ↦
          let e : (update_round seqno m).1 ≡ m' = ground (arith, h) in subst (λ n. IsBooks n) e w
    ]

-- A change of a fence that keeps its flags, with `extra` actions more.
pub record Keeps (extra : ℕ) (g : Fence → Fence) : Type 0 where
  pub signaled : (f : Fence) → (g f).signaled ≡ f.signaled
  pub actions : (f : Fence) → length (g f).actions ≡ length f.actions + extra

pub change-list :
    (i : ℕ) (extra : ℕ) (g : Fence → Fence) (fs : List Fence)
    → Keeps extra g
    → All IsOpen fs
    → is_found (find i fs) ≡ true
    → All IsOpen (change g i fs)
      × (attached (change g i fs) ≡ attached fs + extra)
      × (length (change g i fs) ≡ length fs)
unfolding find change
change-list i extra g [] k o h = cc
change-list i extra g (f ∷ fs) k o h =
    ground (arith, k.signaled f, k.actions f, change-list i extra g fs k o.1)

change-passed :
    (i : ℕ) (g : Fence → Fence) (fs : List Fence)
    → ((f : Fence) → IsClosed f → IsClosed (g f))
    → All IsClosed fs
    → All IsClosed (change g i fs) × (length (change g i fs) ≡ length fs)
unfolding change
change-passed i g [] k o = (tt, refl)
change-passed i g (f ∷ fs) k o = ground (arith, k f o.0, change-passed i g fs k o.1)

pub on_fence-IsBooks :
    (i : ℕ) (g : Fence → Fence) (m : Manager)
    → Keeps 0 g
    → ((f : Fence) → IsClosed f → IsClosed (g f))
    → IsBooks m
    → IsBooks (on_fence g i m)
unfolding on_fence
on_fence-IsBooks i g m k kc v = elim (Bool-cases (is_found (find i m.fence_list))) [
  | inl here ↦
      let (a, b, c) = change-list i 0 g m.fence_list k v.list here in
      rw here (record {
        list = a;
        passed = v.passed;
        objects = ground (arith, v.objects, c);
        pending = ground (arith, v.pending, b);
        goal = λ pos. v.goal (omega (arith, pos, b));
      })
  | inr gone ↦
      let (a, c) = change-passed i g m.passed kc v.passed in
      rw gone (record {
        list = v.list;
        passed = a;
        objects = ground (arith, v.objects, c);
        pending = v.pending;
        goal = v.goal;
      })
]

pub drop-list :
    (i : ℕ) (f : Fence) (fs : List Fence)
    → All IsOpen fs
    → find i fs ≡ some f
    → f.actions ≡ []
    → All IsOpen (drop i fs)
      × (attached (drop i fs) ≡ attached fs)
      × (length (drop i fs) + 1 ≡ length fs)
unfolding find drop
drop-list i f [] o h e = cc
drop-list i f (x ∷ fs) o h e = ground (arith, drop-list i f fs o.1)

pub drop-passed :
    (i : ℕ) (f : Fence) (fs : List Fence)
    → All IsClosed fs
    → find i fs ≡ some f
    → All IsClosed (drop i fs) × (length (drop i fs) + 1 ≡ length fs)
unfolding find drop
drop-passed i f [] o h = cc
drop-passed i f (x ∷ fs) o h = ground (arith, drop-passed i f fs o.1)
