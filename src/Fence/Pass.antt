-- ===== src/Fence/Pass.antt =====
-- `vmw_fences_update` signals the fences that have passed, in order, and runs their actions.
use vmwgfx.Prelude.{
  ℕ, ◌+◌, ◌%◌, ◌≤◌, ◌<◌, ◌≡◌, refl, sym, ◌∙◌, ap, true, List, [], ◌∷◌, ◌++◌, if◌then◌else◌, leb,
  arith, u32_mod, sub32, length,
}
use vmwgfx.Fence.{Fence, Manager, fence_wrap, perform_actions, signal, is_passed, pass_fences}

module _ {A : Type 0} where
  append_assoc : (xs ys zs : List A) → (xs ++ ys) ++ zs ≡ xs ++ (ys ++ zs)
  append_assoc [] ys zs = refl
  append_assoc (x ∷ xs) ys zs = ap (λ l. x ∷ l) (append_assoc xs ys zs)

  append_nil : (xs : List A) → xs ++ [] ≡ xs
  append_nil [] = refl
  append_nil (x ∷ xs) = ap (λ l. x ∷ l) (append_nil xs)

-- What running the actions leaves behind.
pub record Performed (l : List ℕ) (m m' : Manager) : Type 0 where
  pub ran : m'.ran ≡ m.ran ++ l
  pub cleanup : m'.cleanup_list ≡ m.cleanup_list ++ l
  pub passed : m'.passed ≡ m.passed
  pub fence_list : m'.fence_list ≡ m.fence_list
  pub num_fence_objects : m'.num_fence_objects ≡ m.num_fence_objects
  pub seqno_valid : m'.seqno_valid ≡ m.seqno_valid
  pub fence_goal : m'.fence_goal ≡ m.fence_goal
  pub pending :
      (n : ℕ) → m.pending_actions ≡ (length l + n) % u32_mod → m'.pending_actions ≡ n % u32_mod

pub perform_actions-Performed : (l : List ℕ) (m : Manager) → Performed l m (perform_actions l m)
unfolding perform_actions
perform_actions-Performed [] m = record {
  ran = sym (append_nil m.ran);
  cleanup = sym (append_nil m.cleanup_list);
  passed = refl;
  fence_list = refl;
  num_fence_objects = refl;
  seqno_valid = refl;
  fence_goal = refl;
  pending = λ n h. ground (arith, h);
}
perform_actions-Performed (a ∷ l) m =
    let m1 = record m {
      pending_actions = sub32 m.pending_actions 1;
      ran = m.ran ++ (a ∷ []);
      cleanup_list = m.cleanup_list ++ (a ∷ []);
    } in
    let p = perform_actions-Performed l m1 in
    record {
      ran = p.ran ∙ append_assoc m.ran (a ∷ []) l;
      cleanup = p.cleanup ∙ append_assoc m.cleanup_list (a ∷ []) l;
      passed = p.passed;
      fence_list = p.fence_list;
      num_fence_objects = p.num_fence_objects;
      seqno_valid = p.seqno_valid;
      fence_goal = p.fence_goal;
      pending = λ n h. p.pending n (omega (arith, h));
    }

-- A fence that was really the `count`-th to be emitted.
pub record Emitted : Type 0 where
  pub fence : Fence
  pub count : ℕ

abbrev pub fences_of : List Emitted → List Fence
fences_of [] = []
fences_of (e ∷ es) = e.fence ∷ fences_of es

-- The list is in the order of emission, from `low` on, and less than 2 ^ 31 away from `passed`.
abbrev pub IsOrdered : (low passed : ℕ) → List Emitted → Type 0
IsOrdered low passed [] = Unit
IsOrdered low passed (e ∷ es) =
    (low ≤ e.count)
    × (e.fence.seqno ≡ e.count % u32_mod)
    × (e.count ≤ passed + fence_wrap)
    × (passed < e.count + fence_wrap)
    × IsOrdered e.count passed es

-- The fences up to the `passed`-th, and the others.
abbrev pub up_to : (passed : ℕ) → List Emitted → List Emitted
up_to passed [] = []
up_to passed (e ∷ es) = if leb e.count passed then e ∷ up_to passed es else up_to passed es

abbrev pub after : (passed : ℕ) → List Emitted → List Emitted
after passed [] = []
after passed (e ∷ es) = if leb e.count passed then after passed es else e ∷ after passed es

abbrev pub actions_of : List Emitted → List ℕ
actions_of [] = []
actions_of (e ∷ es) = e.fence.actions ++ actions_of es

-- A fence whose EXEC flag is set, beside those it had, whose queue was woken once, and that has no
-- action left.
abbrev pub signaled_once : Fence → Fence
signaled_once f = record {
  id = f.id;
  seqno = f.seqno;
  signaled = record { exec = true; query = f.signaled.query };
  signal_mask = f.signal_mask;
  actions = [];
  kref = f.kref;
  wakes = f.wakes + 1;
}

signal-once : (f : Fence) → signal f ≡ signaled_once f
unfolding signal
signal-once f = refl

-- they join the fences that passed before
abbrev pub signal_all : List Emitted → List Fence → List Fence
signal_all [] fs = fs
signal_all (e ∷ es) fs = signal_all es (signaled_once e.fence ∷ fs)

is_passed-count :
    (low passed : ℕ) (e : Emitted) (es : List Emitted)
    → IsOrdered low passed (e ∷ es)
    → is_passed (passed % u32_mod) e.fence ≡ leb e.count passed
is_passed-count low passed e es o = ground arith

none_later :
    (low passed : ℕ) (es : List Emitted)
    → IsOrdered low passed es
    → passed < low
    → (after passed es ≡ es) × (up_to passed es ≡ [])
none_later low passed [] o h = (refl, refl)
none_later low passed (e ∷ es) o h = ground (arith, none_later e.count passed es o.4)

-- What the update leaves behind.
pub record Passed (passed : ℕ) (es : List Emitted) (m m' : Manager) : Type 0 where
  pub fence_list : m'.fence_list ≡ fences_of (after passed es)
  pub signaled : m'.passed ≡ signal_all (up_to passed es) m.passed
  pub ran : m'.ran ≡ m.ran ++ actions_of (up_to passed es)
  pub cleanup : m'.cleanup_list ≡ m.cleanup_list ++ actions_of (up_to passed es)

-- With the `passed`-th fence signalled by the device, the update takes just the fences up to it off
-- the list, across the wrap-around of sequence numbers: it sets their EXEC flag, wakes the queue of
-- each once, runs their actions, those of
-- earlier fences first, and hands each to the worker once. It supposes that the list is in the
-- order of emission and spans less than 2 ^ 31 fences on either side.
pub pass_fences-Passed :
    (low passed : ℕ) (es : List Emitted) (m : Manager)
    → IsOrdered low passed es
    → Passed passed es m (pass_fences (passed % u32_mod) (fences_of es) m)
unfolding pass_fences
pass_fences-Passed low passed [] m o = record {
  fence_list = refl;
  signaled = refl;
  ran = sym (append_nil m.ran);
  cleanup = sym (append_nil m.cleanup_list);
}
pass_fences-Passed low passed (e ∷ es) m o =
    let test = is_passed-count low passed e es o in
    let m1 : Manager = record m { passed = signal e.fence ∷ m.passed } in
    let p = perform_actions-Performed e.fence.actions m1 in
    let q = pass_fences-Passed e.count passed es (perform_actions e.fence.actions m1) o.4 in
    let rest = none_later e.count passed es o.4 in
    let now = actions_of (up_to passed es) in
    let all_ran = ap (λ l. l ++ now) p.ran ∙ append_assoc m.ran e.fence.actions now in
    let all_cleanup =
      ap (λ l. l ++ now) p.cleanup ∙ append_assoc m.cleanup_list e.fence.actions now in
    let all_passed =
      ap (signal_all (up_to passed es)) (p.passed ∙ ap (λ f. f ∷ m.passed) (signal-once e.fence)) in
    record {
      fence_list = ground (arith, test, q.fence_list, rest);
      signaled = ground (arith, test, q.signaled, rest, all_passed);
      ran = ground (arith, test, q.ran, rest, all_ran, append_nil m.ran);
      cleanup = ground (arith, test, q.cleanup, rest, all_cleanup, append_nil m.cleanup_list);
    }
