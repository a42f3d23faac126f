-- ===== src/Misc.antt =====
-- misc/misc.c: the hash of a string, printed in hexadecimal.
-- A pointer that may be NULL is an `Option`; where the outermost `none` stands before such a
-- pointer, it is a fault: the code frees a pointer that it never set, or reads through NULL.
pub mod Hex
pub mod Hash
pub mod FileHash
use refmon.Prelude.{
  ℕ, ◌+◌, ◌/◌, ◌%◌, Bool, true, false, not, Option, none, some, List, [], ◌∷◌, ◌++◌, ℤ, pos,
  is_zero, ltb, if◌then◌else◌,
}
use refmon.CStr.{Str, codes}
use refmon.Kernel.{Memory, Crypto, Alloc, pure, ◌>>=◌, call}

abbrev pub default_password : Str
default_password = codes "ciao"

-- A digit of `%02x`.
unfoldable pub hex_digit : ℕ → ℕ
hex_digit d = if ltb d 10 then b'0' + d else 87 + d

-- `sprintf(out + i * 2, "%02x", hash[i])` for each byte in turn, up to the final NUL.
unfoldable pub hexconv : List ℕ → Str
hexconv [] = []
hexconv (b ∷ hash) = hex_digit (b / 16) ∷ hex_digit (b % 16) ∷ hexconv hash

-- `false` stands for the NULL that `alloc_hash_desc` returns.
unfoldable pub alloc_hash_desc : Memory → Crypto → Alloc Bool
alloc_hash_desc m c = do
  shash ← call c.crypto_alloc_shash
  if not shash then pure false else call m.kmalloc

-- The value returned, and the digest if it is 0.
unfoldable pub shash_comp : Crypto → Str → Alloc (ℤ × List ℕ)
shash_comp c input = do
  ret_init ← call c.crypto_shash_init
  if not (is_zero ret_init) then pure (ret_init, []) else do
    ret_update ← call c.crypto_shash_update
    if not (is_zero ret_update)
        then pure (ret_update, [])
        else do ret_final ← call c.crypto_shash_final; pure (ret_final, c.sha256 input)

-- If `out` cannot be allocated, `desc` is freed with no value: a fault.
unfoldable pub hashgen_str : Memory → Crypto → Str → Alloc (Option (Option Str))
unfolding alloc_hash_desc shash_comp
hashgen_str m c str = do
  out ← call m.kmalloc
  if not out then pure none else do
    desc ← alloc_hash_desc m c
    if not desc then pure (some none) else do
      (ret, hash) ← shash_comp c str
      if not (is_zero ret) then pure (some none) else pure (some (some (hexconv hash)))
