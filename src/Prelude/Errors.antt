-- ===== src/Prelude/Errors.antt =====
-- The `int` results of the driver: 0, or a negative errno.

-- The errno values that the modelled functions return.
pub data Errno : Type 0 where
  enomem einval ebusy erestartsys eagain eperm : Errno

-- `ok` is the return value 0 (with what the function hands out), `err e` the value -e.
pub data Outcome {ℓ} (A : Type ℓ) : Type ℓ where
  ok : A → Outcome A
  err : Errno → Outcome A
