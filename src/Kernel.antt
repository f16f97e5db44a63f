-- ===== src/Kernel.antt =====
-- What every file of src/ takes from the kernel: error numbers, the two kinds of return value, a
-- pointer argument that may be NULL, and the outcome of memory requests.
use dm_zns_base.Prelude.{ℕ, Bool, true, false, Option, none, some}

-- The error numbers that the code returns; `other` is any other number, such as one that the kernel
-- returns and the code passes on.
pub data Errno : Type 0 where
  eio enomem ebusy eexist enodev einval enospc enodata eoverflow eopnotsupp : Errno
  other : ℕ → Errno

-- An `int` result: 0, a negative error number, or (`fault`) no result at all, because the code read
-- or wrote outside an array, which C leaves undefined.
pub data Ret : Type 0 where
  ok : Ret
  err : Errno → Ret
  fault : Ret

-- A pointer argument: NULL, or the value of what it points to.
abbrev pub Ptr {ℓ} : Type ℓ → Type ℓ
Ptr A = Option A

-- The outcome of the memory requests of a run: request number `n` is granted if the answer is true.
-- An operation takes the number of requests made before it, and returns the number made after it.
abbrev pub Grants : Type 0
Grants = ℕ → Bool

abbrev pub is_ok : Ret → Bool
is_ok ok = true
is_ok (err _) = false
is_ok fault = false

-- One for a pointer to something, and nothing for NULL.
abbrev pub is_live {ℓ} : {A : Type ℓ} → Ptr A → ℕ
is_live none = 0
is_live (some _) = 1
