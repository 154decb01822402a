-- ===== src/Overlay/Shown.antt =====
-- The device shows only a buffer that the overlay has pinned and referenced.
use vmwgfx.Prelude.{
  ℕ, ◌+◌, ◌≡◌, refl, Bool, true, false, not, ◌&&◌, Option, none, some, if◌then◌else◌, arith,
  Outcome, ok, err, Bool-cases, Option-cases, inl, inr, ◌⊎◌,
}
use mathlib.Core.Path.{subst}
use vmwgfx.Overlay.{Overlay, Luck, allowed, set_pin, count_ref, holds, stopped, stop, start}

-- A paused stream has a buffer; the buffer of the stream is pinned unless the stream is paused, and
-- nothing else is; what is shown is that buffer, of a stream that is not paused; and the overlay has one
-- reference on it, beside those of others, `base`.
pub record IsOverlay (base : ℕ → ℕ) (o : Overlay) : Type 0 where
  pub paused : o.stream.buf ≡ none → o.stream.paused ≡ false
  pub pinned : (b : ℕ) → o.pinned b ≡ (holds b o.stream.buf && not o.stream.paused)
  pub shown : (b : ℕ) → o.shown ≡ some b → (o.stream.buf ≡ some b) × (o.stream.paused ≡ false)
  pub refs : (b : ℕ) → o.refs b ≡ base b + (if holds b o.stream.buf then 1 else 0)

off-IsOverlay :
    (base : ℕ → ℕ) (o : Overlay) → IsOverlay base o → IsOverlay base (record o { shown = none })
off-IsOverlay base o v = record {
  paused = v.paused;
  pinned = v.pinned;
  shown = λ b h. cc;
  refs = v.refs;
}

stopped-IsOverlay :
    (base : ℕ → ℕ) (pause : Bool) (buf : ℕ) (o : Overlay)
    → o.stream.buf ≡ some buf
    → o.shown ≡ none
    → ((b : ℕ) → o.pinned b ≡ false)
    → ((b : ℕ) → o.refs b ≡ base b + (if holds b o.stream.buf then 1 else 0))
    → IsOverlay base (stopped pause buf o)
unfolding stopped
stopped-IsOverlay base true buf o e dark loose refs = record {
  paused = λ h. absurd (ground (arith, e, h));
  pinned = λ b. ground (arith, loose b);
  shown = λ b h. absurd (ground (arith, dark, h));
  refs = refs;
}
stopped-IsOverlay base false buf o e dark loose refs = record {
  paused = λ h. refl;
  pinned = λ b. ground (arith, loose b);
  shown = λ b h. absurd (ground (arith, dark, h));
  refs = λ b. ground (arith, refs b, e);
}

pub stop-IsOverlay :
    (base : ℕ → ℕ) (pause interruptible : Bool) (l : Luck) (o o' : Overlay) (r : Outcome (Unit {0}))
    → IsOverlay base o
    → stop pause interruptible l o ≡ some (r, o')
    → IsOverlay base o'
unfolding stop
stop-IsOverlay base pause interruptible l o o' r v e = elim (Option-cases o.stream.buf) [
  | inl empty ↦ let q : o ≡ o' = ground (arith, e, empty) in subst (λ x. IsOverlay base x) q v
  | inr (buf, has) ↦ elim (Bool-cases o.stream.paused) [
    | inl paused ↦
        let q : stopped pause buf o ≡ o' = ground (arith, e, has, paused) in
        subst (λ x. IsOverlay base x) q
          (stopped-IsOverlay base pause buf o has (dark buf paused o.shown refl)
            (λ b. ground (arith, v.pinned b, paused)) v.refs)
    | inr running ↦
        go buf has running (allowed interruptible l.stop) refl (allowed interruptible l.unpin) refl
  ]
]
  where
    dark : (buf : ℕ) → o.stream.paused ≡ true → (s : Option ℕ) → o.shown ≡ s → o.shown ≡ none
    dark buf paused none h = h
    dark buf paused (some b) h = absurd (ground (arith, v.shown b h, paused))

    go :
        (buf : ℕ)
        → o.stream.buf ≡ some buf
        → o.stream.paused ≡ false
        → (a : Option (Outcome (Unit {0}))) → allowed interruptible l.stop ≡ a
        → (c : Option (Outcome (Unit {0}))) → allowed interruptible l.unpin ≡ c
        → IsOverlay base o'
    go buf has running none p c s = absurd (ground (arith, e, has, running, p))
    go buf has running (some (err n)) p c s =
        let q : o ≡ o' = ground (arith, e, has, running, p) in subst (λ x. IsOverlay base x) q v
    go buf has running (some (ok _)) p none s = absurd (ground (arith, e, has, running, p, s))
    go buf has running (some (ok _)) p (some (err n)) s =
        let q : record o { shown = none } ≡ o' = ground (arith, e, has, running, p, s) in
        subst (λ x. IsOverlay base x) q (off-IsOverlay base o v)
    go buf has running (some (ok _)) p (some (ok _)) s =
        let o1 : Overlay = record o { shown = none; pinned = set_pin buf false o.pinned } in
        let q : stopped pause buf o1 ≡ o' = ground (arith, e, has, running, p, s) in
        subst (λ x. IsOverlay base x) q
          (stopped-IsOverlay base pause buf o1 has refl (λ b. ground (arith, v.pinned b, has))
            v.refs)

pub start-IsOverlay :
    (base : ℕ → ℕ) (buf arg : ℕ) (l : Luck) (o o' : Overlay) (r : Outcome (Unit {0}))
    → IsOverlay base o
    → (o.stream.buf ≡ none) ⊎ (o.stream.buf ≡ some buf)
    → start buf arg l o ≡ some (r, o')
    → IsOverlay base o'
unfolding start
start-IsOverlay base buf arg l o o' r v free e = go l.pin refl l.put refl l.undo refl
  where
    go :
        (a : Outcome (Unit {0}))
        → l.pin ≡ a
        → (b : Outcome (Unit {0})) → l.put ≡ b
        → (c : Outcome (Unit {0})) → l.undo ≡ c
        → IsOverlay base o'
    go (err n) p b q c s =
        let t : o ≡ o' = ground (arith, e, p) in subst (λ x. IsOverlay base x) t v
    go (ok _) p (err n) q (ok _) s =
        let t : o ≡ o' = ground (arith, e, p, q, s) in subst (λ x. IsOverlay base x) t v
    go (ok _) p (err n) q (err m) s = absurd (ground (arith, e, p, q, s))
    go (ok _) p (ok _) q c s =
        let o1 : Overlay = record o {
          pinned = set_pin buf true o.pinned;
          shown = some buf;
          refs = if holds buf o.stream.buf then o.refs else count_ref (λ n. n + 1) buf o.refs;
          stream = record (o.stream) { buf = some buf; saved = arg; paused = false };
        } in
        let t : o1 ≡ o' = ground (arith, e, p, q) in
        subst (λ x. IsOverlay base x) t
          record {
            paused = λ h. refl;
            pinned = λ b. ground (arith, v.pinned b, free);
            shown = λ b h. ground (arith, h);
            refs = λ b. ground (arith, v.refs b, free);
          }
