-- ===== src/Fence/Steps.antt =====
-- Every operation of the fence manager keeps its books.
use mathlib.Core.Path.{subst}
use vmwgfx.Prelude.{
  ℕ, ◌+◌, ◌≡◌, refl, sym, false, List, [], ◌∷◌, ◌++◌, Option, none, some, Option-cases, ◌==◌, arith,
  All, All-append, length, length-append, Bool-cases, inl, inr,
}
use vmwgfx.Fence.{
  Fence, Flags, Manager, perform_actions, find, lookup, on_fence, get_ref, put_ref, attach,
  destroy_locked, obj_init, obj_reference, obj_unreference, goal_check, update, add_locked,
  goal_irq, add_action, work_round, fifo_up, manager_init,
}
use vmwgfx.Fence.Books.{
  IsBooks, IsOpen, IsClosed, attached, change-list, on_fence-IsBooks, drop-list, drop-passed,
  update-IsBooks,
}

-- What callers do. A fence on which an action hangs is not given up, since the action holds a
-- reference.
pub data Step (m n : Manager) : Type 0 where
  inits : (id seqno : ℕ) (mask : Flags) → n ≡ (obj_init id seqno mask m).1 → Step m n
  refs : (i : ℕ) → n ≡ obj_reference i m → Step m n
  unrefs :
      (i : ℕ) (f : Fence)
      → lookup i m ≡ some f
      → (f.kref ≡ 1 → f.actions ≡ [])
      → obj_unreference i m ≡ some n
      → Step m n
  adds :
      (i action seqno : ℕ) (reads : List ℕ) → add_action i action seqno reads m ≡ some n → Step m n
  updates : (seqno : ℕ) (reads : List ℕ) → update seqno reads m ≡ some n → Step m n
  works : n ≡ work_round m → Step m n
  up : n ≡ fifo_up m → Step m n

pub data Steps (m : Manager) : Manager → Type 0 where
  here : Steps m m
  next : {n o : Manager} → Steps m n → Step n o → Steps m o

attached-append :
    (fs : List Fence) (f : Fence) → attached (fs ++ (f ∷ [])) ≡ attached fs + length f.actions
attached-append [] f = omega arith
attached-append (x ∷ fs) f = omega (arith, attached-append fs f)

find-IsOpen : (i : ℕ) (fs : List Fence) (f : Fence) → All IsOpen fs → find i fs ≡ some f → IsOpen f
unfolding find
find-IsOpen i [] f o h = cc
find-IsOpen i (x ∷ fs) f o h = ground (arith, find-IsOpen i fs f o.1)

find-IsClosed :
    (i : ℕ) (fs : List Fence) (f : Fence) → All IsClosed fs → find i fs ≡ some f → IsClosed f
unfolding find
find-IsClosed i [] f o h = cc
find-IsClosed i (x ∷ fs) f o h = ground (arith, find-IsClosed i fs f o.1)

obj_init-IsBooks :
    (id seqno : ℕ) (mask : Flags) (m : Manager) → IsBooks m → IsBooks (obj_init id seqno mask m).1
unfolding obj_init
obj_init-IsBooks id seqno mask m v = elim (Bool-cases m.fifo_down) [
  | inl down ↦ ground (arith, v, down)
  | inr ready ↦
      let new : Fence = record {
        id = id;
        seqno = seqno;
        signaled = record { exec = false; query = false };
        signal_mask = mask;
        actions = [];
        kref = 1;
        wakes = 0;
      } in
      rw ready (record {
        list = All-append IsOpen m.fence_list (new ∷ []) v.list (refl, tt);
        passed = v.passed;
        objects = ground (arith, v.objects, length-append m.fence_list (new ∷ []));
        pending = ground (arith, v.pending, attached-append m.fence_list new);
        goal = λ pos. v.goal (omega (arith, pos, attached-append m.fence_list new));
      })
]

destroy-IsBooks :
    (i : ℕ) (f : Fence) (m : Manager)
    → lookup i m ≡ some f
    → f.actions ≡ []
    → IsBooks m
    → IsBooks (destroy_locked i m)
unfolding destroy_locked
destroy-IsBooks i f m h e v = go (find i m.fence_list) refl
  where
    go : (o : Option Fence) → find i m.fence_list ≡ o → IsBooks (destroy_locked i m)
    go (some g) q =
        let same : g ≡ f = ground (arith, q, h) in
        let (a, b, c) = drop-list i f m.fence_list v.list (ground (arith, q, same)) e in
        rw (q, destroy_locked)
          (record {
            list = a;
            passed = v.passed;
            objects = ground (arith, v.objects, c);
            pending = ground (arith, v.pending, b);
            goal = λ pos. v.goal (omega (arith, pos, b));
          })
    go none q =
        let (a, c) = drop-passed i f m.passed v.passed (ground (arith, q, h)) in
        rw (q, destroy_locked)
          (record {
            list = v.list;
            passed = a;
            objects = ground (arith, v.objects, c);
            pending = v.pending;
            goal = v.goal;
          })

unreference-IsBooks :
    (i : ℕ) (f : Fence) (m n : Manager)
    → lookup i m ≡ some f
    → (f.kref ≡ 1 → f.actions ≡ [])
    → obj_unreference i m ≡ some n
    → IsBooks m
    → IsBooks n
unfolding obj_unreference
unreference-IsBooks i f m n h e k v = elim (Bool-cases (f.kref == 1)) [
  | inl last ↦
      let q : destroy_locked i m ≡ n = ground (arith, h, k, last) in
      subst (λ o. IsBooks o) q (destroy-IsBooks i f m h (e (ground arith)) v)
  | inr more ↦
      let q : on_fence put_ref i m ≡ n = ground (arith, h, k, more) in
      subst (λ o. IsBooks o) q
        (on_fence-IsBooks i put_ref m (record { signaled = λ g. refl; actions = λ g. omega arith })
          (λ g c. c) v)
]

add_locked-IsBooks :
    (i a : ℕ) (f : Fence) (m : Manager)
    → lookup i m ≡ some f
    → IsBooks m
    → IsBooks (add_locked i f a m).1
unfolding add_locked goal_check on_fence perform_actions
add_locked-IsBooks i a f m h v = go (find i m.fence_list) refl
  where
    go : (o : Option Fence) → find i m.fence_list ≡ o → IsBooks (add_locked i f a m).1
    go (some g) q =
        let found : find i m.fence_list ≡ some f = ground (arith, q, h) in
        let not_passed = find-IsOpen i m.fence_list f v.list found in
        let (list, more, c) =
          change-list i 1 (attach a) m.fence_list
            (record { signaled = λ x. refl; actions = λ x. length-append x.actions (a ∷ []) })
            v.list (ground (arith, found)) in
        record {
          list = ground (arith, found, not_passed, list);
          passed = ground (arith, found, not_passed, v.passed);
          objects = ground (arith, found, not_passed, c, v.objects);
          pending = ground (arith, found, not_passed, more, v.pending);
          goal = ground (arith, found, not_passed);
        }
    go none q =
        let found : find i m.passed ≡ some f = ground (arith, q, h) in
        let is_closed = find-IsClosed i m.passed f v.passed found in
        record {
          list = ground (arith, is_closed, v.list);
          passed = ground (arith, is_closed, v.passed);
          objects = ground (arith, is_closed, v.objects);
          pending = ground (arith, is_closed, v.pending);
          goal = ground (arith, is_closed, v.goal);
        }

work_round-IsBooks : (m : Manager) → IsBooks m → IsBooks (work_round m)
unfolding work_round
work_round-IsBooks m v = record {
  list = ground (arith, v.list);
  passed = ground (arith, v.passed);
  objects = ground (arith, v.objects);
  pending = ground (arith, v.pending);
  goal = ground (arith, v.goal);
}

goal_irq-IsBooks : (m : Manager) → IsBooks m → IsBooks (goal_irq m)
unfolding goal_irq
goal_irq-IsBooks m v = record {
  list = ground (arith, v.list);
  passed = ground (arith, v.passed);
  objects = ground (arith, v.objects);
  pending = ground (arith, v.pending);
  goal = ground (arith, v.goal);
}

add_action-IsBooks :
    (i action seqno : ℕ) (reads : List ℕ) (m n : Manager)
    → IsBooks m
    → add_action i action seqno reads m ≡ some n
    → IsBooks n
unfolding add_action
add_action-IsBooks i action seqno reads m n v h = elim (Option-cases (lookup i m)) [
  | inl none_there ↦ absurd (ground (arith, h, none_there))
  | inr (f, found) ↦
      let w = add_locked-IsBooks i action f m found v in
      elim (Bool-cases (add_locked i f action m).0) [
        | inl runs ↦
            update-IsBooks reads seqno (goal_irq (add_locked i f action m).1) n
              (goal_irq-IsBooks _ w) (ground (arith, h, found, runs))
        | inr stays ↦
            let e : (add_locked i f action m).1 ≡ n = ground (arith, h, found, stays) in
            subst (λ o. IsBooks o) e w
      ]
]

Step-IsBooks : (m n : Manager) → Step m n → IsBooks m → IsBooks n
unfolding obj_reference fifo_up
Step-IsBooks m n (inits id seqno mask e) v =
    subst (λ o. IsBooks o) (sym e) (obj_init-IsBooks id seqno mask m v)
Step-IsBooks m n (refs i e) v =
    subst (λ o. IsBooks o) (sym e)
      (on_fence-IsBooks i get_ref m (record { signaled = λ g. refl; actions = λ g. omega arith })
        (λ g c. c) v)
Step-IsBooks m n (unrefs i f h k e) v = unreference-IsBooks i f m n h k e v
Step-IsBooks m n (adds i action seqno reads e) v = add_action-IsBooks i action seqno reads m n v e
Step-IsBooks m n (updates seqno reads e) v = update-IsBooks reads seqno m n v e
Step-IsBooks m n (works e) v = subst (λ o. IsBooks o) (sym e) (work_round-IsBooks m v)
Step-IsBooks m n (up e) v =
    subst (λ o. IsBooks o) (sym e)
      (record {
        list = v.list;
        passed = v.passed;
        objects = v.objects;
        pending = v.pending;
        goal = v.goal;
      })

manager_init-IsBooks : (goal : ℕ) → IsBooks (manager_init goal)
unfolding manager_init
manager_init-IsBooks goal = record {
  list = tt;
  passed = tt;
  objects = refl;
  pending = refl;
  goal = λ pos. ground arith;
}

-- In every state that a new manager reaches, the fences on the list are just those that are not
-- signalled, a signalled fence has no action left, the two counters are the numbers of fences and of
-- actions that wait, and as long as an action waits a fence goal is set. It supposes that a fence
-- on which an action hangs is not given up.
pub Steps-IsBooks : (goal : ℕ) (m : Manager) → Steps (manager_init goal) m → IsBooks m
Steps-IsBooks goal _ here = manager_init-IsBooks goal
Steps-IsBooks goal m (next {n} ss s) = Step-IsBooks n m s (Steps-IsBooks goal n ss)
