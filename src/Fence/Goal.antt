-- ===== src/Fence/Goal.antt =====
-- Which fence goal is set.
use vmwgfx.Prelude.{ℕ, ◌+◌, ◌%◌, ◌<◌, ◌≡◌, true, false, if◌then◌else◌, ltb, arith, u32_mod}
use vmwgfx.Fence.{Fence, Manager, fence_wrap, goal_check}

-- When an action is attached to the `n`-th fence while the goal is that of the `goal`-th, the device is
-- asked to interrupt at the later of the two: a goal that lies ahead of the fence stays, and one
-- before it is replaced, so that the earlier fence gives no interrupt. The two lie less
-- than 2 ^ 31 fences apart.
pub goal_check-later :
    (f : Fence) (m : Manager) (n goal : ℕ)
    → f.signaled.exec ≡ false
    → m.seqno_valid ≡ true
    → f.seqno ≡ n % u32_mod
    → m.fence_goal ≡ goal % u32_mod
    → n < goal + fence_wrap
    → goal < n + fence_wrap
    → ((goal_check f m).1.seqno_valid ≡ true)
      × ((goal_check f m).1.fence_goal ≡ (if ltb goal n then n else goal) % u32_mod)
unfolding goal_check
goal_check-later f m n goal fresh valid hf hg near far = ground arith
