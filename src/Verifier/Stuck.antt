-- ===== src/Verifier/Stuck.antt =====
-- A stream over which the walk does not end.
use vmwgfx.Prelude.{
  ℕ, zero, suc, ◌+◌, ◌-◌, ◌^◌, ◌<◌, ◌≡◌, refl, Bool, false, none, some, arith, Outcome,
}
use vmwgfx.Verifier.Commands.{
  Checker, cmd_id, cmd_entry, cmd_entries, find_command, present_readback,
}
use vmwgfx.Verifier.{passes, run, check_entry, check, check_loop}

present_readback-entry : cmd_entries 28 ≡ some (cmd_entry present_readback)
unfolding cmd_entries find_command cmd_id
present_readback-entry = refl

module _ {S : Type 0} (word : S → ℕ → ℕ) (func : Checker → ℕ → S → Outcome (Unit {0}) × S) where
  check-nothing :
      (gb : Bool) (remaining pos : ℕ) (s : S)
      → word s pos ≡ 1068
      → word s (pos + 4) ≡ 2 ^ 32 - 8
      → check word func false gb remaining pos s ≡ (passes 0, s)
  unfolding check check_entry run cmd_entry
  check-nothing gb remaining pos s id size = rw (id, size, present_readback-entry) (ground arith)

  -- The walk does not end over a user's stream that starts with the command PRESENT_READBACK, whose
  -- header claims 2 ^ 32 - 8 bytes: with the 8 bytes of the header they are 0 in 32 bits, and the
  -- command passes again and again, however many rounds are made.
  pub check_loop-stuck :
      (fuel : ℕ) (gb : Bool) (size : ℕ) (s : S)
      → 0 < size
      → size < 2 ^ 31
      → word s 0 ≡ cmd_id present_readback
      → word s 4 ≡ 2 ^ 32 - 8
      → check_loop word func fuel false gb size 0 s ≡ none
  unfolding check_loop cmd_id
  check_loop-stuck zero gb size s pos small id claimed = refl
  check_loop-stuck (suc fuel) gb size s pos small id claimed = ground (
    arith,
    check-nothing gb size 0 s id claimed,
    check_loop-stuck fuel gb size s pos small id claimed,
  )
