-- ===== src/Verifier/User.antt =====
-- What user space may submit.
use vmwgfx.Prelude.{
  ℕ, ◌+◌, ◌≤◌, ◌≡◌, refl, Bool, true, false, not, ◌&&◌, ◌||◌, Option, none, some, leb, ltb, arith,
  add32, sub32, Outcome, ok, err, einval, Errno, eperm, Bool-cases, inl, inr, ◌⊎◌, sym,
  Option-cases,
}
use mathlib.Core.Path.{subst}
use vmwgfx.Verifier.Commands.{Checker, Entry, cmd_base, cmd_entries}
use vmwgfx.Verifier.{
  Verdict, passes, refused, oops, run, size_not_3d, check_not_3d, check_entry, check, cmd_max,
}

module _ {S : Type 0} (word : S → ℕ → ℕ) (func : Checker → ℕ → S → Outcome (Unit {0}) × S) where
  -- A command that passes for user space: it is a 3D command that the table allows to users and to
  -- this device, it is within the stream, and its own check passes.
  pub record Allowed (gb : Bool) (remaining pos : ℕ) (s : S) (size : ℕ) (s' : S) : Type 0 where
    pub is_3d : ltb (word s pos) cmd_max ≡ false
    pub whole : size ≡ add32 (word s (pos + 4)) 8
    pub fits : size ≤ remaining
    pub entry : Entry
    pub listed : cmd_entries (sub32 (word s pos) cmd_base) ≡ some entry
    pub user_allow : entry.user_allow ≡ true
    pub device : (entry.gb_disable && gb) || (entry.gb_enable && not gb) ≡ false
    pub checked : run word func entry.func pos s ≡ (ok tt, s')

  -- What a user's command comes to.
  abbrev pub Judged : (gb : Bool) → (remaining pos : ℕ) → S → Verdict × S → Type 0
  Judged gb remaining pos s (passes size, s') = Allowed gb remaining pos s size s'
  Judged gb remaining pos s (refused e, s') = (e ≡ einval) ⊎ (e ≡ eperm)
  Judged gb remaining pos s (oops, s') = ⊥

  refused-Judged :
      (gb : Bool) (remaining pos : ℕ) (s s' : S) (e : Errno) (r : Verdict × S)
      → r ≡ (refused e, s')
      → (e ≡ einval) ⊎ (e ≡ eperm)
      → Judged gb remaining pos s r
  refused-Judged gb remaining pos s s' e r q h = subst (λ x. Judged gb remaining pos s x) (sym q) h

  not_3d-Judged :
      (gb : Bool) (remaining pos : ℕ) (s : S)
      → Judged gb remaining pos s (check_not_3d word func false remaining pos s)
  unfolding check_not_3d
  not_3d-Judged gb remaining pos s =
      let r = check_not_3d word func false remaining pos s in
      elim (Option-cases (size_not_3d (word s pos))) [
        | inl unknown ↦
            refused-Judged gb remaining pos s s einval r (ground (arith, unknown)) (inl refl)
        | inr (size, known) ↦ elim (Bool-cases (ltb remaining size)) [
          | inl large ↦
              refused-Judged gb remaining pos s s einval r (ground (arith, known, large)) (inl refl)
          | inr fits ↦
              refused-Judged gb remaining pos s s eperm r (ground (arith, known, fits)) (inr refl)
        ]
      ]

  entry-Judged :
      (gb : Bool) (remaining pos : ℕ) (s : S) (o : Option Entry)
      → ltb (word s pos) cmd_max ≡ false
      → add32 (word s (pos + 4)) 8 ≤ remaining
      → cmd_entries (sub32 (word s pos) cmd_base) ≡ o
      → Judged gb remaining pos s
          (check_entry word func false gb (add32 (word s (pos + 4)) 8) pos o s)
  unfolding check_entry
  entry-Judged gb remaining pos s none is_3d fits listed = inr refl
  entry-Judged gb remaining pos s (some entry) is_3d fits listed =
      elim (Bool-cases entry.user_allow) [
        | inl user ↦ elim (Bool-cases ((entry.gb_disable && gb) || (entry.gb_enable && not gb))) [
          | inl other ↦
              refused-Judged gb remaining pos s s einval
                (check_entry word func false gb size pos (some entry) s) (ground arith) (inl refl)
          | inr device ↦ go (run word func entry.func pos s) refl user device
        ]
        | inr kernel ↦
            refused-Judged gb remaining pos s s eperm
              (check_entry word func false gb size pos (some entry) s) (ground arith) (inr refl)
      ]
    where
      size : ℕ
      size = add32 (word s (pos + 4)) 8

      go :
          (r : Outcome (Unit {0}) × S)
          → run word func entry.func pos s ≡ r
          → entry.user_allow ≡ true
          → (entry.gb_disable && gb) || (entry.gb_enable && not gb) ≡ false
          → Judged gb remaining pos s (check_entry word func false gb size pos (some entry) s)
      go (ok _, s') q user device =
          let e : check_entry word func false gb size pos (some entry) s ≡ (passes size, s') =
            ground (arith, q) in
          subst (λ r. Judged gb remaining pos s r) (sym e)
            record {
              is_3d = is_3d;
              whole = refl;
              fits = fits;
              entry = entry;
              listed = listed;
              user_allow = user;
              device = device;
              checked = q;
            }
      go (err _, s') q user device =
          refused-Judged gb remaining pos s s' einval
            (check_entry word func false gb size pos (some entry) s) (ground (arith, q)) (inl refl)

  -- A command of user space passes only where it is a 3D command that the table lists, allows to users
  -- and gives to this kind of device, that ends within what remains of the stream, and that its own
  -- check accepts; it passes with the size of its header, as 32-bit arithmetic has it. Every other
  -- command is refused with EINVAL or EPERM, and an empty row of the table is never called.
  pub check-Judged :
      (gb : Bool) (remaining pos : ℕ) (s : S)
      → Judged gb remaining pos s (check word func false gb remaining pos s)
  unfolding check
  check-Judged gb remaining pos s =
      let size = add32 (word s (pos + 4)) 8 in
      let index = sub32 (word s pos) cmd_base in
      let r = check word func false gb remaining pos s in
      elim (Bool-cases (ltb (word s pos) cmd_max)) [
        | inl old ↦
            let q : r ≡ check_not_3d word func false remaining pos s = ground (arith, old) in
            subst (λ x. Judged gb remaining pos s x) (sym q) (not_3d-Judged gb remaining pos s)
        | inr is_3d ↦ elim (Bool-cases (ltb remaining size)) [
          | inl large ↦
              refused-Judged gb remaining pos s s einval r (ground (arith, is_3d, large)) (inl refl)
          | inr fits ↦ elim (Bool-cases (leb 102 index)) [
            | inl beyond ↦
                refused-Judged gb remaining pos s s einval r (ground (arith, is_3d, fits, beyond))
                  (inl refl)
            | inr within ↦
                let q : r ≡ check_entry word func false gb size pos (cmd_entries index) s =
                  ground (arith, is_3d, fits, within) in
                subst (λ x. Judged gb remaining pos s x) (sym q)
                  (entry-Judged gb remaining pos s (cmd_entries index) is_3d (ground arith) refl)
          ]
        ]
      ]
