-- ===== src/Fence.antt =====
-- Fence objects (vmwgfx_fence.c): the list of fences that have not passed, the actions that hang on
-- them, and the fence goal, the number at which the device is to interrupt. A fence is its identity, a
-- number, with its fields; those that left the list are in `passed`. An action is its identity; all
-- actions are of the one type VMW_ACTION_EVENT. What the FENCE register reads as, and how waits end,
-- are arguments.
pub mod Pass
pub mod Goal
pub mod Books
pub mod Steps
mod Tests
use vmwgfx.Prelude.{
  ℕ, zero, suc, ◌+◌, ◌-◌, ◌^◌, Bool, true, false, not, ◌&&◌, ◌||◌, List, [], ◌∷◌, ◌++◌, Option,
  none, some, leb, ltb, ◌==◌, if◌then◌else◌, add32, sub32, Outcome, ok, err, enomem, ebusy,
}

-- VMW_FENCE_WRAP of this file
abbrev pub fence_wrap : ℕ
fence_wrap = 2 ^ 31

-- DRM_VMW_FENCE_FLAG_EXEC and DRM_VMW_FENCE_FLAG_QUERY
pub record Flags : Type 0 where
  pub exec : Bool
  pub query : Bool

-- `(signaled & flags) == flags`, and `flags & mask`
abbrev pub covers : (signaled flags : Flags) → Bool
covers s f = (s.exec || not f.exec) && (s.query || not f.query)

abbrev pub masked : Flags → Flags → Flags
masked f m = record { exec = f.exec && m.exec; query = f.query && m.query }

-- `struct vmw_fence_obj`; `wakes` counts the calls of `wake_up_all` on its queue
pub record Fence : Type 0 where
  pub id : ℕ
  pub seqno : ℕ
  pub signaled : Flags
  pub signal_mask : Flags
  pub actions : List ℕ
  pub kref : ℕ
  pub wakes : ℕ

-- `struct vmw_fence_manager`, the FENCE_GOAL register, the count of goal waiters, the actions whose
-- `seq_passed` has run, the last one last, and those that were cleaned up. `works` counts the calls of
-- `schedule_work`.
pub record Manager : Type 0 where
  pub fence_list : List Fence
  pub passed : List Fence
  pub num_fence_objects : ℕ
  pub fifo_down : Bool
  pub cleanup_list : List ℕ
  pub pending_actions : ℕ
  pub goal_irq_on : Bool
  pub seqno_valid : Bool
  pub fence_goal : ℕ
  pub goal_waiters : ℕ
  pub ran : List ℕ
  pub cleaned : List ℕ
  pub works : ℕ

-- `vmw_fence_manager_init`
unfoldable pub manager_init : (fence_goal : ℕ) → Manager
manager_init fence_goal = record {
  fence_list = [];
  passed = [];
  num_fence_objects = 0;
  fifo_down = true;
  cleanup_list = [];
  pending_actions = 0;
  goal_irq_on = false;
  seqno_valid = false;
  fence_goal = fence_goal;
  goal_waiters = 0;
  ran = [];
  cleaned = [];
  works = 0;
}

-- `vmw_fence_obj_init`, of a zeroed structure `id`
unfoldable pub obj_init : (id seqno : ℕ) → (mask : Flags) → Manager → Outcome (Unit {0}) × Manager
obj_init id seqno mask m = if m.fifo_down then (err ebusy, m) else (
  ok tt,
  record m {
    fence_list =
        m.fence_list
        ++ (record {
          id = id;
          seqno = seqno;
          signaled = record { exec = false; query = false };
          signal_mask = mask;
          actions = [];
          kref = 1;
          wakes = 0;
        }
            ∷ []);
    num_fence_objects = add32 m.num_fence_objects 1;
  },
)

-- `vmw_fence_create`; `alloc` is what `kzalloc` returns
unfoldable pub fence_create :
    (alloc : Option ℕ) → (seqno : ℕ) → (mask : Flags) → Manager → Outcome ℕ × Manager
unfolding obj_init
fence_create none seqno mask m = (err enomem, m)
fence_create (some id) seqno mask m =
    let (ret, m') = obj_init id seqno mask m in
    elim ret [ ok _ ↦ (ok id, m') | err e ↦ (err e, m') ]

-- the fence that a pointer points to
unfoldable pub find : ℕ → List Fence → Option Fence
find i [] = none
find i (f ∷ fs) = if f.id == i then some f else find i fs

-- a change of the fence that a pointer points to, and its removal
unfoldable pub change : (Fence → Fence) → ℕ → List Fence → List Fence
change g i [] = []
change g i (f ∷ fs) = if f.id == i then g f ∷ fs else f ∷ change g i fs

unfoldable pub drop : ℕ → List Fence → List Fence
drop i [] = []
drop i (f ∷ fs) = if f.id == i then fs else f ∷ drop i fs

abbrev pub is_found : Option Fence → Bool
is_found none = false
is_found (some f) = true

-- the fence, on the list or not, and a change of it
abbrev pub either : Option Fence → Option Fence → Option Fence
either none b = b
either (some f) b = some f

abbrev pub lookup : ℕ → Manager → Option Fence
lookup i m = either (find i m.fence_list) (find i m.passed)

unfoldable pub on_fence : (Fence → Fence) → ℕ → Manager → Manager
on_fence g i m =
    if is_found (find i m.fence_list)
    then record m { fence_list = change g i m.fence_list }
    else record m { passed = change g i m.passed }

abbrev pub get_ref : Fence → Fence
get_ref f = record f { kref = f.kref + 1 }

abbrev pub put_ref : Fence → Fence
put_ref f = record f { kref = f.kref - 1 }

-- `vmw_fence_obj_reference`
unfoldable pub obj_reference : ℕ → Manager → Manager
unfolding on_fence
obj_reference i m = on_fence get_ref i m

-- `vmw_fence_obj_destroy_locked`
unfoldable pub destroy_locked : ℕ → Manager → Manager
destroy_locked i m =
    let m' = record m { num_fence_objects = sub32 m.num_fence_objects 1 } in
    if is_found (find i m.fence_list)
    then record m' { fence_list = drop i m.fence_list }
    else record m' { passed = drop i m.passed }

-- `vmw_fence_obj_unreference`; `none` is its `BUG_ON`
unfoldable pub obj_unreference : ℕ → Manager → Option Manager
unfolding on_fence destroy_locked
obj_unreference i m = elim (lookup i m) [
  | none ↦ none
  | some f ↦
      if f.kref == 0
      then none
      else if f.kref == 1
      then some (destroy_locked i m)
      else some (on_fence put_ref i m)
]

-- `vmw_fences_perform_actions`
unfoldable pub perform_actions : List ℕ → Manager → Manager
perform_actions [] m = m
perform_actions (a ∷ later) m = perform_actions later (record m {
  pending_actions = sub32 m.pending_actions 1;
  ran = m.ran ++ (a ∷ []);
  cleanup_list = m.cleanup_list ++ (a ∷ []);
})

-- a fence that has passed
unfoldable pub signal : Fence → Fence
signal f = record f {
  signaled = record (f.signaled) { exec = true };
  actions = [];
  wakes = f.wakes + 1;
}

abbrev pub is_passed : (seqno : ℕ) → Fence → Bool
is_passed seqno f = ltb (sub32 seqno f.seqno) fence_wrap

-- the loop of `vmw_fences_update` on what is left of the list
unfoldable pub pass_fences : (seqno : ℕ) → List Fence → Manager → Manager
pass_fences seqno [] m = record m { fence_list = [] }
pass_fences seqno (f ∷ fs) m =
    if is_passed seqno f
    then pass_fences seqno fs
        (perform_actions f.actions (record m { passed = signal f ∷ m.passed }))
    else record m { fence_list = f ∷ fs }

abbrev pub is_empty {ℓ} : {A : Type ℓ} → List A → Bool
is_empty [] = true
is_empty (x ∷ xs) = false

-- the first fence with an action
unfoldable pub next_goal : List Fence → Option ℕ
next_goal [] = none
next_goal (f ∷ fs) = if not (is_empty f.actions) then some f.seqno else next_goal fs

-- `vmw_fence_goal_new_locked`
unfoldable pub goal_new : (passed_seqno : ℕ) → Manager → Bool × Manager
goal_new passed_seqno m =
    if not m.seqno_valid
    then (false, m)
    else if leb fence_wrap (sub32 passed_seqno m.fence_goal)
    then (false, m)
    else elim (next_goal m.fence_list) [
      | none ↦ (true, record m { seqno_valid = false })
      | some goal ↦ (true, record m { seqno_valid = true; fence_goal = goal })
    ]

-- `vmw_fence_goal_check_locked`
unfoldable pub goal_check : Fence → Manager → Bool × Manager
goal_check f m =
    if f.signaled.exec
    then (false, m)
    else if m.seqno_valid && ltb (sub32 m.fence_goal f.seqno) fence_wrap
    then (false, m)
    else (true, record m { fence_goal = f.seqno; seqno_valid = true })

abbrev pub schedule : Manager → Manager
schedule m = if not (is_empty m.cleanup_list) then record m { works = m.works + 1 } else m

-- what `vmw_fences_update` does under the lock: whether the goal was updated
unfoldable pub update_round : (seqno : ℕ) → Manager → Bool × Manager
update_round seqno m =
    let (again, m') = goal_new seqno (pass_fences seqno m.fence_list m) in (again, schedule m')

-- `vmw_fences_update` from the first read of the FENCE register on, with those that follow; `none` if
-- they are used up
unfoldable pub update : (seqno : ℕ) → (reads : List ℕ) → Manager → Option Manager
update seqno [] m = let (again, m') = update_round seqno m in if again then none else some m'
update seqno (r ∷ rs) m =
    let (again, m') = update_round seqno m in
    let rerun = update r rs m' in if again then (if r == seqno then some m' else rerun) else some m'

-- `vmw_fence_obj_signaled`, with the reads of the update
unfoldable pub obj_signaled :
    ℕ → (flags : Flags) → (seqno : ℕ) → (reads : List ℕ) → Manager → Option (Bool × Manager)
obj_signaled i flags seqno reads m = elim (lookup i m) [
  | none ↦ none
  | some f ↦
      let wanted = masked flags f.signal_mask in
      if covers f.signaled wanted
      then some (true, m)
      else (elim (if f.signaled.exec then some m else update seqno reads m) [
        | none ↦ none
        | some m' ↦ elim (lookup i m') [
          | none ↦ none
          | some f' ↦ some (covers f'.signaled wanted, m')
        ]
      ])
]

-- `vmw_fence_fifo_up`
unfoldable pub fifo_up : Manager → Manager
fifo_up m = record m { fifo_down = false }

abbrev pub attach : (action : ℕ) → Fence → Fence
attach a f = record f { actions = f.actions ++ (a ∷ []) }

-- what `vmw_fence_obj_add_action` does under the lock: whether an update is to be run
unfoldable pub add_locked : (i : ℕ) → Fence → (action : ℕ) → Manager → Bool × Manager
unfolding on_fence
add_locked i f a m =
    let m' = record m { pending_actions = add32 m.pending_actions 1 } in
    if f.signaled.exec
    then (false, perform_actions (a ∷ []) m')
    else goal_check f (on_fence (attach a) i m')

unfoldable pub goal_irq : Manager → Manager
goal_irq m =
    if not m.goal_irq_on
    then record m { goal_irq_on = true; goal_waiters = m.goal_waiters + 1 }
    else m

-- `vmw_fence_obj_add_action`, with the reads of the update that may follow
unfoldable pub add_action :
    ℕ → (action : ℕ) → (seqno : ℕ) → (reads : List ℕ) → Manager → Option Manager
add_action i a seqno reads m = elim (lookup i m) [
  | none ↦ none
  | some f ↦
      let (run_update, m') = add_locked i f a m in
      if run_update then update seqno reads (goal_irq m') else some m'
]

-- a round of `vmw_fence_work_func`: the actions on the cleanup list, which it empties
unfoldable pub work_round : Manager → Manager
work_round m =
    let m' = record m { cleanup_list = []; cleaned = m.cleaned ++ m.cleanup_list } in
    if not m.seqno_valid && m.goal_irq_on
    then record m' { goal_irq_on = false; goal_waiters = m.goal_waiters - 1 }
    else m'
