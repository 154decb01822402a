-- ===== src/Verifier/Tests.antt =====
-- Concrete command streams.
use vmwgfx.Prelude.{
  ℕ, ◌≡◌, refl, arith, Bool, true, false, none, some, ◌==◌, if◌then◌else◌, Outcome, err, einval,
  inr, ◌⊎◌,
}
use vmwgfx.Verifier.Commands.{Checker, cmd_id}
use vmwgfx.Verifier.{Verdict, check, check_all, check_loop, resize_cmd_bounce}
use vmwgfx.Verifier.User.{Judged, check-Judged}
use vmwgfx.Verifier.Walk.{Walked, Stalls, check_all-ends}
use vmwgfx.Verifier.Stuck.{check_loop-stuck}
use vmwgfx.Verifier.Bounce.{Resized, resize_cmd_bounce-Resized, resize_cmd_bounce-stuck}

-- a command without checks of its own, PRESENT_READBACK, with a header of `size`
abbrev stream : (size : ℕ) → Unit {0} → ℕ → ℕ
stream size s i = if i == 0 then 1068 else size

abbrev refuse : Checker → ℕ → Unit {0} → Outcome (Unit {0}) × Unit {0}
refuse c pos s = (err einval, s)

check-Judged_example :
    Judged (stream 4) refuse false 12 0 tt (check (stream 4) refuse false false 12 0 tt)
check-Judged_example = check-Judged (stream 4) refuse false 12 0 tt

-- A stream as user space gives it, which no checker changes: two commands PRESENT_READBACK of 12
-- bytes and 8 bytes, the first with a word of data.
abbrev two_commands : ℕ → ℕ
two_commands i =
    if i == 0 then 1068 else if i == 4 then 4 else if i == 8 then 0 else if i == 12 then 1068 else 0

abbrev at_word : (ℕ → ℕ) → ℕ → ℕ
at_word s i = s i

abbrev no_checker : Checker → ℕ → (ℕ → ℕ) → Outcome (Unit {0}) × (ℕ → ℕ)
no_checker c pos s = (err einval, s)

check_all-ends_example :
    ((r : Verdict × (ℕ → ℕ)) × (check_all at_word no_checker false false 20 two_commands ≡ some r)
      × Walked at_word no_checker false 20 0 two_commands r)
    ⊎ Stalls at_word no_checker false 20 0 two_commands
check_all-ends_example = check_all-ends at_word no_checker false 20 two_commands (omega arith)

check_loop-stuck_example : check_loop (stream 4294967288) refuse 1000 false false 8 0 tt ≡ none
unfolding cmd_id
check_loop-stuck_example =
    check_loop-stuck (stream 4294967288) refuse 1000 false 8 tt (omega arith) (omega arith) refl
      refl

-- a kernel that has 48 KB, and no more
abbrev scarce : ℕ → Bool
scarce n = if n == 49152 then true else false

resize_cmd_bounce-Resized_example :
    (r : Outcome (Unit {0}) × ℕ) × (resize_cmd_bounce scarce 40001 32768 40000 ≡ some r)
    × Resized scarce 32768 40000 r
resize_cmd_bounce-Resized_example =
    resize_cmd_bounce-Resized scarce 32768 40000 (inr (omega arith)) (omega arith)

resize_cmd_bounce-stuck_example : resize_cmd_bounce scarce 1000 32768 4294967295 ≡ none
resize_cmd_bounce-stuck_example =
    resize_cmd_bounce-stuck scarce 1000 32768 4294967295 (omega arith) (omega arith)
