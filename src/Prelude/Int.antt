-- ===== src/Prelude/Int.antt =====
-- The signed integers that the C functions return, and the error numbers of the kernel.
use Prim.Native.Nat.{ℕ, zero, suc}
use mathlib.Core.Bool.{Bool, true, false}

-- `negsuc n` is -(n + 1).
pub data ℤ : Type 0 where
  pos : ℕ → ℤ
  negsuc : ℕ → ℤ

-- The C test `ret != 0` is `not (is_zero ret)`.
abbrev pub is_zero : ℤ → Bool
is_zero (pos zero) = true
is_zero (pos (suc n)) = false
is_zero (negsuc n) = false

-- The C test `ret < 0`.
abbrev pub is_neg : ℤ → Bool
is_neg (pos n) = false
is_neg (negsuc n) = true

-- Negated error numbers of asm-generic/errno.h, as the functions return them.
abbrev pub neg_eperm : ℤ
neg_eperm = negsuc 0

abbrev pub neg_enoent : ℤ
neg_enoent = negsuc 1

abbrev pub neg_eio : ℤ
neg_eio = negsuc 4

abbrev pub neg_ebadf : ℤ
neg_ebadf = negsuc 8

abbrev pub neg_enomem : ℤ
neg_enomem = negsuc 11

abbrev pub neg_eacces : ℤ
neg_eacces = negsuc 12

abbrev pub neg_efault : ℤ
neg_efault = negsuc 13

abbrev pub neg_eexist : ℤ
neg_eexist = negsuc 16

abbrev pub neg_einval : ℤ
neg_einval = negsuc 21

abbrev pub neg_enotrecoverable : ℤ
neg_enotrecoverable = negsuc 130
