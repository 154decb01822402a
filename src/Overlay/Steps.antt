-- ===== src/Overlay/Steps.antt =====
-- The overlay under any sequence of calls.
use vmwgfx.Prelude.{
  ℕ, ◌≡◌, refl, Bool, true, false, Option, none, some, arith, Outcome, ok, err, Bool-cases,
  Option-cases, inl, inr,
}
use mathlib.Core.Path.{subst}
use vmwgfx.Overlay.{
  Overlay, Luck, holds, stopped, stop, put_again, update_stream, state_of, stop_all, pause_all,
  resume_all, ioctl, claim, unref, init,
}
use vmwgfx.Overlay.Shown.{IsOverlay, stop-IsOverlay, start-IsOverlay}

-- A stream that was stopped has no buffer.
stop-empty :
    (interruptible : Bool) (l : Luck) (o o' : Overlay)
    → stop false interruptible l o ≡ some (ok tt, o')
    → o'.stream.buf ≡ none
unfolding stop stopped
stop-empty interruptible l o o' e = ground arith

put_again-IsOverlay :
    (base : ℕ → ℕ) (buf arg : ℕ) (interruptible : Bool) (l : Luck) (o o' : Overlay)
    (r : Outcome (Unit {0}))
    → IsOverlay base o
    → o.stream.buf ≡ some buf
    → o.stream.paused ≡ false
    → put_again buf arg interruptible l o ≡ some (r, o')
    → IsOverlay base o'
unfolding put_again
put_again-IsOverlay base buf arg interruptible l o o' r v has running e =
    go l.put refl interruptible refl
  where
    go : (p : Outcome (Unit {0})) → l.put ≡ p → (i : Bool) → interruptible ≡ i → IsOverlay base o'
    go (ok _) q i s =
        let o1 : Overlay = record o {
          shown = some buf;
          stream = record (o.stream) { saved = arg };
        } in
        let t : o1 ≡ o' = ground (arith, e, q) in
        subst (λ x. IsOverlay base x) t
          record {
            paused = v.paused;
            pinned = v.pinned;
            shown = λ b h. ground (arith, h, has, running);
            refs = v.refs;
          }
    go (err n) q true s =
        let t : o ≡ o' = ground (arith, e, q, s) in subst (λ x. IsOverlay base x) t v
    go (err n) q false s = absurd (ground (arith, e, q, s))

held_buf : (buf : ℕ) (s : Option ℕ) → holds buf s ≡ true → s ≡ some buf
held_buf buf none h = cc
held_buf buf (some b) h = ground (arith, h)

update_stream-IsOverlay :
    (base : ℕ → ℕ) (buf : Option ℕ) (arg : ℕ) (interruptible : Bool) (l : Luck) (o o' : Overlay)
    (r : Outcome (Unit {0}))
    → IsOverlay base o
    → update_stream buf arg interruptible l o ≡ some (r, o')
    → IsOverlay base o'
unfolding update_stream
update_stream-IsOverlay base none arg interruptible l o o' r v e =
    let t : o ≡ o' = ground (arith, e) in subst (λ x. IsOverlay base x) t v
update_stream-IsOverlay base (some buf) arg interruptible l o o' r v e =
    elim (Bool-cases (holds buf o.stream.buf)) [
      | inl same ↦
          let has = held_buf buf o.stream.buf same in
          elim (Bool-cases o.stream.paused) [
            | inl paused ↦
                start-IsOverlay base buf arg l o o' r v (inr has) (ground (arith, e, same, paused))
            | inr running ↦
                put_again-IsOverlay base buf arg interruptible l o o' r v has running
                  (ground (arith, e, same, running))
          ]
      | inr other ↦ go (stop false interruptible l o) refl other
    ]
  where
    go :
        (s : Option (Outcome (Unit {0}) × Overlay))
        → stop false interruptible l o ≡ s
        → holds buf o.stream.buf ≡ false
        → IsOverlay base o'
    go none q other = absurd (ground (arith, e, q, other))
    go (some (err n, o1)) q other =
        let t : o1 ≡ o' = ground (arith, e, q, other) in
        subst (λ x. IsOverlay base x) t (stop-IsOverlay base false interruptible l o o1 (err n) v q)
    go (some (ok u, o1)) q other =
        start-IsOverlay base buf arg l o1 o' r
          (stop-IsOverlay base false interruptible l o o1 (ok u) v q)
          (inl (stop-empty interruptible l o o1 q)) (ground (arith, e, q, other))

-- What the driver and user space call; a call that meets BUG() is no step.
pub data Step (o o' : Overlay) : Type 0 where
  controls :
      (enabled : Bool) (buf : Outcome ℕ) (arg : ℕ) (l : Luck) (r : Outcome (Unit {0}))
      → ioctl enabled buf arg l o ≡ some (r, o')
      → Step o o'
  stops : (l : Luck) → stop_all l o ≡ some o' → Step o o'
  pauses : (l : Luck) → pause_all l o ≡ some o' → Step o o'
  resumes : (l : Luck) → resume_all l o ≡ some o' → Step o o'
  claims : o' ≡ (claim o).1 → Step o o'
  unrefs : (l : Luck) → unref l o ≡ some o' → Step o o'

pub data Steps (o : Overlay) : Overlay → Type 0 where
  here : Steps o o
  next : {p q : Overlay} → Steps o p → Step p q → Steps o q

claimed-IsOverlay :
    (base : ℕ → ℕ) (c : Bool) (o : Overlay)
    → IsOverlay base o
    → IsOverlay base (record o { stream = record (o.stream) { claimed = c } })
claimed-IsOverlay base c o v = record {
  paused = v.paused;
  pinned = v.pinned;
  shown = v.shown;
  refs = v.refs;
}

state-cases :
    (x : Option (Outcome (Unit {0}) × Overlay)) (o : Overlay)
    → state_of x ≡ some o
    → (r : Outcome (Unit {0})) × (x ≡ some (r, o))
state-cases none o e = cc
state-cases (some (r, p)) o e = (r, ground (arith, e))

Step-IsOverlay : (base : ℕ → ℕ) (o o' : Overlay) → Step o o' → IsOverlay base o → IsOverlay base o'
unfolding ioctl stop_all pause_all resume_all claim unref
Step-IsOverlay base o o' (controls false buf arg l r e) v =
    stop-IsOverlay base false true l o o' r v e
Step-IsOverlay base o o' (controls true (err n) arg l r e) v =
    let t : o ≡ o' = ground (arith, e) in subst (λ x. IsOverlay base x) t v
Step-IsOverlay base o o' (controls true (ok buf) arg l r e) v =
    update_stream-IsOverlay base (some buf) arg true l o o' r v e
Step-IsOverlay base o o' (stops l e) v =
    let (r, q) = state-cases (stop false false l o) o' e in
    stop-IsOverlay base false false l o o' r v q
Step-IsOverlay base o o' (pauses l e) v =
    let (r, q) = state-cases (stop true false l o) o' e in
    stop-IsOverlay base true false l o o' r v q
Step-IsOverlay base o o' (resumes l e) v = elim (Bool-cases o.stream.paused) [
  | inl paused ↦
      let (r, q) =
        state-cases (update_stream o.stream.buf o.stream.saved false l o) o'
          (ground (arith, e, paused)) in
      update_stream-IsOverlay base o.stream.buf o.stream.saved false l o o' r v q
  | inr running ↦ let t : o ≡ o' = ground (arith, e, running) in subst (λ x. IsOverlay base x) t v
]
Step-IsOverlay base o o' (claims e) v = elim (Bool-cases o.stream.claimed) [
  | inl taken ↦ let t : o ≡ o' = ground (arith, e, taken) in subst (λ x. IsOverlay base x) t v
  | inr free ↦
      let t : record o { stream = record (o.stream) { claimed = true } } ≡ o' =
        ground (arith, e, free) in
      subst (λ x. IsOverlay base x) t (claimed-IsOverlay base true o v)
]
Step-IsOverlay base o o' (unrefs l e) v = elim (Option-cases (state_of (stop false false l o))) [
  | inl bug ↦ absurd (ground (arith, e, bug))
  | inr (p, q) ↦
      let (r, s) = state-cases (stop false false l o) p q in
      let t : record p { stream = record (p.stream) { claimed = false } } ≡ o' =
        ground (arith, e, q) in
      subst (λ x. IsOverlay base x) t
        (claimed-IsOverlay base false p (stop-IsOverlay base false false l o p r v s))
]

init-IsOverlay : (base : ℕ → ℕ) → IsOverlay base (init base)
unfolding init
init-IsOverlay base = record {
  paused = λ h. refl;
  pinned = λ b. refl;
  shown = λ b h. cc;
  refs = λ b. ground arith;
}

-- In every state that a new overlay reaches, whether calls succeed, fail or are interrupted halfway: the
-- device shows no buffer but that of the stream, which is then pinned; a buffer is pinned just while the
-- stream has it and is not paused; only a stream with a buffer is paused; and the overlay has
-- one reference on the buffer of the stream, and none on others.
pub Steps-IsOverlay : (base : ℕ → ℕ) (o : Overlay) → Steps (init base) o → IsOverlay base o
Steps-IsOverlay base _ here = init-IsOverlay base
Steps-IsOverlay base o (next {p} ss s) = Step-IsOverlay base p o s (Steps-IsOverlay base p ss)
