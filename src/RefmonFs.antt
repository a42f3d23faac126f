-- ===== src/RefmonFs.antt =====
-- io/refmonfs: the file system of one file that holds the log (file.c and dir.c).
-- The device is a parameter; a block is written when its buffer is. Each operation on the file
-- runs under the mutex of file.c. Offsets and lengths are 64-bit unsigned numbers and block
-- numbers 32-bit ones, with their wrap-around written out.
pub mod Copied
pub mod Append
pub mod ReadBack
pub mod Errors
pub mod Whole
pub mod Listing
pub mod Mkfs
pub mod Mount
use refmon.Prelude.{
  ℕ, zero, suc, ◌+◌, ◌-◌, ◌/◌, ◌%◌, ◌^◌, String, Bool, true, false, not, ◌&&◌, Option, none, some,
  List, [], ◌∷◌, ◌++◌, ℤ, pos, negsuc, ltb, leb, ◌==◌, if◌then◌else◌, neg_eio, length, get_elem?,
}

abbrev pub default_block_size : ℕ
default_block_size = 4096

abbrev pub default_ino_size : ℕ
default_ino_size = 2

-- Can the block be read? And how many bytes can not be copied to user memory?
pub record Device : Type 0 where
  pub sb_bread : ℕ → Bool
  pub copy_to_user : List ℕ → ℕ

-- `b_data` is the byte at a place of a block.
pub record LogFile : Type 0 where
  pub i_size : ℕ
  pub f_pos : ℕ
  pub b_data : ℕ → ℕ → ℕ
  pub refmonfs_mutex : Bool

-- REFMONFS_MUTEX_LOCK … REFMONFS_MUTEX_UNLOCK; the code unlocks before each of its returns. `none`
-- is a fault or a wait without end.
abbrev pub with_mutex : {A : Type 0} → (LogFile → Option A × LogFile) → LogFile → Option A × LogFile
with_mutex body f = elim f.refmonfs_mutex [
  | true ↦ (none, f)
  | false ↦
      let (r, f') = body (record f { refmonfs_mutex = true }) in
      (r, record f' { refmonfs_mutex = false })
]

-- Copies the bytes to the block, from a place in it on.
unfoldable pub memcpy : (ℕ → ℕ → ℕ) → ℕ → ℕ → List ℕ → ℕ → ℕ → ℕ
memcpy b_data block place bytes b i =
    if b == block && leb place i
    then elim (get_elem? bytes (i - place)) [ none ↦ b_data b i | some c ↦ c ]
    else b_data b i

-- An `int` that is computed from 64-bit numbers.
abbrev pub to_int : ℕ → ℕ
to_int n = n % 2 ^ 32

-- A `size_t` that is returned as a `ssize_t`.
abbrev pub to_ssize : ℕ → ℤ
to_ssize n = let m = n % 2 ^ 64 in if ltb m (2 ^ 63) then pos m else negsuc (2 ^ 64 - 1 - m)

-- What follows the choice of the block. The bytes must not run over the end of the block's buffer.
-- `out_size` is the value of the variable that the code returns and never sets.
unfoldable pub write_block : Device → ℕ → List ℕ → ℕ → ℕ → ℕ → LogFile → Option ℤ × LogFile
write_block dev out_size iov offset block_offset block_to_write f =
    if not (dev.sb_bread block_to_write)
    then (some neg_eio, f)
    else if ltb default_block_size (block_offset + length iov)
    then (none, f)
    else (
      some (to_ssize out_size),
      record f {
        b_data = memcpy f.b_data block_to_write block_offset iov;
        i_size = if ltb f.i_size (offset + length iov) then offset + length iov else f.i_size;
        f_pos = offset;
      },
    )

unfoldable pub write_locked : Device → ℕ → List ℕ → LogFile → Option ℤ × LogFile
write_locked dev out_size iov f =
    let offset = f.i_size in
    let block_offset = offset % default_block_size in
    let block_to_write = to_int (offset / default_block_size + default_ino_size) in
    let spare_space = default_block_size - block_offset in
    if leb spare_space (length iov)
    then (if not (dev.sb_bread block_to_write)
        then (some neg_eio, f)
        else write_block dev out_size iov (offset + spare_space) 0 (to_int (block_to_write + 1)) f)
    else write_block dev out_size iov offset block_offset block_to_write f

unfoldable pub onefilefs_write_async : Device → ℕ → List ℕ → LogFile → Option ℤ × LogFile
onefilefs_write_async dev out_size iov = with_mutex (write_locked dev out_size iov)

-- `n` bytes of the block, from a place in it on.
unfoldable pub read_bytes : (ℕ → ℕ → ℕ) → ℕ → ℕ → ℕ → List ℕ
read_bytes b_data block place zero = []
read_bytes b_data block place (suc n) = b_data block place ∷ read_bytes b_data block (place + 1) n

-- What a read yields: its value, the bytes that `copy_to_user` is given, and the new `*off`.
pub record ReadResult : Type 0 where
  pub value : ℤ
  pub bytes : List ℕ
  pub off : ℕ

-- From where the length is known: only what is left of the block is read.
unfoldable pub read_block : Device → ℕ → ℕ → LogFile → Option ReadResult × LogFile
read_block dev off len f =
    let offset = off % default_block_size in
    let n =
      if ltb default_block_size ((offset + len) % 2 ^ 64)
      then default_block_size - offset
      else len in
    let block_to_read = to_int (off / default_block_size + default_ino_size) in
    if not (dev.sb_bread block_to_read)
    then (some (record { value = neg_eio; bytes = []; off = off }), f)
    else (let bytes = read_bytes f.b_data block_to_read offset n in
        let ret = dev.copy_to_user bytes in
        (some (record { value = pos (n - ret); bytes = bytes; off = off + (n - ret) }), f))

unfoldable pub read_locked : Device → ℕ → ℕ → LogFile → Option ReadResult × LogFile
read_locked dev off len f =
    if leb f.i_size off
    then (some (record { value = pos 0; bytes = []; off = off }), f)
    else read_block dev off (if ltb f.i_size ((off + len) % 2 ^ 64) then f.i_size - off else len) f

unfoldable pub onefilefs_read : Device → ℕ → ℕ → LogFile → Option ReadResult × LogFile
onefilefs_read dev off len = with_mutex (read_locked dev off len)

-- One entry of the directory, if the listing stands at it: `dir_emit` may refuse it, and then the
-- function returns; else the position moves on to what follows. The value is what was emitted and
-- the position.
abbrev pub Emit : Type 0
Emit = ℕ → List String × ℕ

unfoldable pub emit_at : (String → Bool) → ℕ → String → Emit → Emit
emit_at dir_emit at name next position =
    if position == at
    then (if not (dir_emit name)
        then ([], position)
        else (name ∷ (next (position + 1)).0, (next (position + 1)).1))
    else next position

abbrev pub refmon_file_log : String
refmon_file_log = "blocked-ops.log"

unfoldable pub onefilefs_iterate : (String → Bool) → Emit
unfolding emit_at
onefilefs_iterate dir_emit position =
    if leb (2 + 1) position
    then ([], position)
    else emit_at dir_emit 0 "."
        (emit_at dir_emit 1 ".." (emit_at dir_emit 2 refmon_file_log (λ p. ([], p)))) position
