-- ===== src/Verifier.antt =====
-- The command verifier (vmwgfx_execbuf.c): the walk over a command stream, the table of the commands,
-- and the buffer that a stream is copied to. A stream is read by `word`, its 32-bit words at byte
-- offsets from the start, which the checks of single commands may patch; those checks, but for the
-- two that do nothing, are the argument `func`.
pub mod Commands
pub mod User
pub mod Walk
pub mod Stuck
pub mod Bounce
mod Tests
use vmwgfx.Prelude.{
  ℕ, zero, suc, ◌+◌, ◌-◌, ◌*◌, ◌/◌, ◌%◌, ◌^◌, Bool, true, false, not, ◌&&◌, ◌||◌, Option, none,
  some, leb, ltb, ◌==◌, if◌then◌else◌, add32, sub32, u32_mod, Outcome, ok, err, enomem, einval,
  eperm, Errno,
}
use vmwgfx.Verifier.Commands.{
  Command, Checker, Entry, cmd_base, cmd_max_3d, cmd_entries, cmd_invalid, cmd_ok,
  cmd_check_define_gmrfb,
}

-- SVGA_CMD_MAX
abbrev pub cmd_max : ℕ
cmd_max = 43

-- What the check of a command comes to: it passes, with its size, it is refused, or a null pointer
-- is called.
pub data Verdict : Type 0 where
  passes : (size : ℕ) → Verdict
  refused : Errno → Verdict
  oops : Verdict

-- The size of a command that is not a 3D one, by its number.
unfoldable pub size_not_3d : (id : ℕ) → Option ℕ
size_not_3d id =
    if id == 1
    then some 20
    else if id == 36
    then some 20
    else if id == 37
    then some 32
    else if id == 38
    then some 32
    else none

-- the result of the check of a command that is not a 3D one, and of one that is: an error of
-- the latter becomes EINVAL
abbrev pub verdict : (size : ℕ) → Outcome (Unit {0}) → Verdict
verdict size (ok _) = passes size
verdict size (err e) = refused e

abbrev pub verdict_3d : (size : ℕ) → Outcome (Unit {0}) → Verdict
verdict_3d size (ok _) = passes size
verdict_3d size (err e) = refused einval

module _ {S : Type 0} (word : S → ℕ → ℕ) (func : Checker → ℕ → S → Outcome (Unit {0}) × S) where
  -- the check of the command at `pos` by `c`: `vmw_cmd_ok`, `vmw_cmd_invalid`, whose
  -- result is 1 for the administrator, which is a failure as well, or another
  unfoldable pub run : Checker → (pos : ℕ) → S → Outcome (Unit {0}) × S
  run cmd_ok pos s = (ok tt, s)
  run cmd_invalid pos s = (err einval, s)
  run c pos s = func c pos s

  -- `vmw_cmd_check_not_3d`
  unfoldable pub check_not_3d : (kernel : Bool) → (remaining pos : ℕ) → S → Verdict × S
  check_not_3d kernel remaining pos s = elim (size_not_3d (word s pos)) [
    | none ↦ (refused einval, s)
    | some size ↦
        if ltb remaining size
        then (refused einval, s)
        else if not kernel
        then (refused eperm, s)
        else if word s pos == 36
        then (let (r, s') = run cmd_check_define_gmrfb pos s in (verdict size r, s'))
        else (passes size, s)
  ]

  -- `vmw_cmd_check`, from the entry of the table on
  unfoldable pub check_entry : (kernel gb : Bool) → (size pos : ℕ) → Option Entry → S → Verdict × S
  check_entry kernel gb size pos none s = (if not kernel then refused eperm else oops, s)
  check_entry kernel gb size pos (some entry) s =
      if not entry.user_allow && not kernel
      then (refused eperm, s)
      else if entry.gb_disable && gb
      then (refused einval, s)
      else if entry.gb_enable && not gb
      then (refused einval, s)
      else (let (r, s') = run entry.func pos s in (verdict_3d size r, s'))

  -- `vmw_cmd_check`, of the command at `pos`
  unfoldable pub check : (kernel gb : Bool) → (remaining pos : ℕ) → S → Verdict × S
  check kernel gb remaining pos s =
      let size = add32 (word s (pos + 4)) 8 in
      let index = sub32 (word s pos) cmd_base in
      if ltb (word s pos) cmd_max
      then check_not_3d kernel remaining pos s
      else if ltb remaining size
      then (refused einval, s)
      else if leb (cmd_max_3d - cmd_base) index
      then (refused einval, s)
      else check_entry kernel gb size pos (cmd_entries index) s

  -- the loop of `vmw_cmd_check_all`, on fuel, from `pos` on; `none` if the fuel ends
  unfoldable pub check_loop :
      (fuel : ℕ) → (kernel gb : Bool) → (cur_size pos : ℕ) → S → Option (Verdict × S)
  check_loop zero kernel gb cur_size pos s = none
  check_loop (suc fuel) kernel gb cur_size pos s =
      if ltb 0 cur_size && ltb cur_size (2 ^ 31)
      then (let (v, s') = check kernel gb cur_size pos s in
          elim v [
            | passes size ↦ check_loop fuel kernel gb (sub32 cur_size size) (pos + size) s'
            | refused e ↦ some (refused e, s')
            | oops ↦ some (oops, s')
          ])
      else if cur_size == 0
      then some (passes pos, s)
      else some (refused einval, s)

  -- `vmw_cmd_check_all`; the fuel is a round for each byte and one more
  unfoldable pub check_all : (kernel gb : Bool) → (size : ℕ) → S → Option (Verdict × S)
  check_all kernel gb size s = check_loop (suc size) kernel gb size 0 s

-- VMWGFX_CMD_BOUNCE_INIT_SIZE
abbrev pub bounce_init_size : ℕ
bounce_init_size = 32768

-- PAGE_ALIGN of a 32-bit number
abbrev pub page_align32 : ℕ → ℕ
page_align32 x = add32 x 4095 / 4096 * 4096

-- the loop of `vmw_resize_cmd_bounce`, on fuel; `none` if it ends
unfoldable pub bounce_loop : (fuel cmd_bounce_size size : ℕ) → Option ℕ
bounce_loop zero cmd_bounce_size size = none
bounce_loop (suc fuel) cmd_bounce_size size =
    if ltb cmd_bounce_size size
    then bounce_loop fuel (page_align32 (add32 cmd_bounce_size (cmd_bounce_size / 2))) size
    else some cmd_bounce_size

-- `vmw_resize_cmd_bounce`, on fuel; it gives the result with the new `cmd_bounce_size`, where `vmalloc`
-- succeeds or not
unfoldable pub resize_cmd_bounce :
    (vmalloc : ℕ → Bool) → (fuel cmd_bounce_size size : ℕ) → Option (Outcome (Unit {0}) × ℕ)
resize_cmd_bounce vmalloc fuel cmd_bounce_size size =
    if leb size cmd_bounce_size
    then some (ok tt, cmd_bounce_size)
    else elim (bounce_loop fuel (if cmd_bounce_size == 0 then bounce_init_size else cmd_bounce_size)
        size) [
          | none ↦ none
          | some grown ↦ if vmalloc grown then some (ok tt, grown) else some (err enomem, 0)
        ]
