-- ===== src/Fence/Tests.antt =====
-- Concrete runs of the fence manager.
use vmwgfx.Prelude.{
  ℕ, ◌%◌, ◌≡◌, refl, arith, true, false, [], ◌∷◌, List, u32_mod, ltb, if◌then◌else◌,
}
use vmwgfx.Fence.{
  Fence, Flags, Manager, manager_init, fifo_up, obj_init, pass_fences, goal_check, add_action,
  add_locked, on_fence, change, find, goal_irq, update, update_round, goal_new, next_goal,
  perform_actions, signal,
}
use vmwgfx.Fence.Pass.{Emitted, fences_of, Passed, pass_fences-Passed}
use vmwgfx.Fence.Books.{IsBooks}
use vmwgfx.Fence.Steps.{Step, here, next, up, inits, adds, updates, Steps-IsBooks}
use vmwgfx.Fence.Goal.{goal_check-later}

abbrev exec_only : Flags
exec_only = record { exec = true; query = false }

abbrev no_flags : Flags
no_flags = record { exec = false; query = false }

abbrev fence : (id seqno : ℕ) → (actions : List ℕ) → Fence
fence id seqno actions = record {
  id = id;
  seqno = seqno;
  signaled = no_flags;
  signal_mask = exec_only;
  actions = actions;
  kref = 1;
  wakes = 0;
}

-- three fences about the wrap-around, the first two with an action
abbrev emitted : List Emitted
emitted =
    record { fence = fence 1 4294967295 (7 ∷ []); count = 4294967295 }
    ∷ record { fence = fence 2 0 (8 ∷ []); count = 4294967296 }
    ∷ record { fence = fence 3 1 []; count = 4294967297 }
    ∷ []

abbrev manager : Manager
manager = record {
  fence_list = fences_of emitted;
  passed = [];
  num_fence_objects = 3;
  fifo_down = false;
  cleanup_list = [];
  pending_actions = 2;
  goal_irq_on = true;
  seqno_valid = true;
  fence_goal = 4294967295;
  goal_waiters = 1;
  ran = [];
  cleaned = [];
  works = 0;
}

-- The device has passed the second one.
pass_fences-Passed_example :
    Passed 4294967296 emitted manager
      (pass_fences (4294967296 % u32_mod) (fences_of emitted) manager)
pass_fences-Passed_example = pass_fences-Passed 0 4294967296 emitted manager (ground arith)

-- Fence 5 is emitted, gets an action, and passes.
abbrev one_fence : Manager
one_fence = (obj_init 1 5 exec_only (fifo_up (manager_init 0))).1

abbrev with_action : Manager
with_action = record one_fence {
  fence_list = fence 1 5 (7 ∷ []) ∷ [];
  pending_actions = 1;
  goal_irq_on = true;
  seqno_valid = true;
  fence_goal = 5;
  goal_waiters = 1;
}

abbrev passed : Manager
passed = record with_action {
  fence_list = [];
  passed =
      record (fence 1 5 []) { signaled = record { exec = true; query = false }; wakes = 1 } ∷ [];
  pending_actions = 0;
  seqno_valid = false;
  cleanup_list = 7 ∷ [];
  ran = 7 ∷ [];
  works = 1;
}

adds_action : Step one_fence with_action
unfolding obj_init fifo_up manager_init add_action add_locked on_fence change find goal_check
    goal_irq update update_round pass_fences goal_new next_goal
adds_action = adds 1 7 4 (4 ∷ []) refl

passes_fence : Step with_action passed
unfolding obj_init fifo_up manager_init update update_round pass_fences perform_actions signal
    goal_new next_goal
passes_fence = updates 5 (5 ∷ []) refl

Steps-IsBooks_example : IsBooks passed
Steps-IsBooks_example =
    Steps-IsBooks 0 passed
      (next (next (next (next here (up refl)) (inits 1 5 exec_only refl)) adds_action) passes_fence)

-- The goal is that of the first fence, and an action goes to the third.
goal_check-later_example :
    ((goal_check (fence 3 1 []) manager).1.seqno_valid ≡ true)
    × ((goal_check (fence 3 1 []) manager).1.fence_goal
        ≡ (if ltb 4294967295 4294967297 then 4294967297 else 4294967295) % u32_mod)
goal_check-later_example =
    goal_check-later (fence 3 1 []) manager 4294967297 4294967295 refl refl refl refl (omega arith)
      (omega arith)
