-- ===== src/RefmonFs/ReadBack.antt =====
-- Reading a record of the log file back (io/refmonfs/file.c).
use refmon.Prelude.{
  ℕ, suc, ◌+◌, ◌-◌, ◌/◌, ◌%◌, ◌^◌, ◌<◌, ◌≤◌, true, false, ◌≡◌, refl, some, List, [], ◌∷◌, pos, ltb,
  leb, if◌then◌else◌, length, get_elem?, arith,
}
use refmon.RefmonFs.{
  Device, LogFile, to_int, read_bytes, read_block, read_locked, onefilefs_read,
  onefilefs_write_async,
}
use refmon.RefmonFs.Append.{Writable, record_start, appended, write_lem, start_room}
use refmon.RefmonFs.Copied.{memcpy_inside}

plus_zero : (p : ℕ) → p + 0 ≡ p
plus_zero p = omega arith

next : (p k : ℕ) → p + 1 + k ≡ p + suc k
next p k = omega arith

read_bytes_all :
    (b_data : ℕ → ℕ → ℕ) (b p : ℕ) (bytes : List ℕ)
    → ((k c : ℕ) → get_elem? bytes k ≡ some c → b_data b (p + k) ≡ c)
    → read_bytes b_data b p (length bytes) ≡ bytes
unfolding read_bytes
read_bytes_all b_data b p [] h = refl
read_bytes_all b_data b p (c ∷ bytes) h =
    let first : b_data b p ≡ c = rw (plus_zero p) at (h 0 c refl) in
    let rest : read_bytes b_data b (p + 1) (length bytes) ≡ bytes =
      read_bytes_all b_data b (p + 1) bytes (λ k d e. rw (next p k) (h (suc k) d e)) in
    rw (first, rest) refl

not_below : (n : ℕ) → n ≤ 4096 → ltb 4096 (n % 2 ^ 64) ≡ false
not_below n h = ground arith

in_block : (p n : ℕ) → p + n ≤ 4096 → ltb 4096 ((p + n) % 2 ^ 64) ≡ false
in_block p n h = not_below (p + n) h

block_small : (x : ℕ) → x < 2 ^ 43 - 8192 → to_int (x / 4096 + 2) ≡ x / 4096 + 2
block_small x h = omega arith

minus_zero : (n : ℕ) → n - 0 ≡ n
minus_zero n = omega arith

read_block_lem :
    (dev : Device) (off : ℕ) (bytes : List ℕ) (f : LogFile)
    → ((b : ℕ) → dev.sb_bread b ≡ true)
    → ((out : List ℕ) → dev.copy_to_user out ≡ 0)
    → off % 4096 + length bytes ≤ 4096
    → off < 2 ^ 43 - 8192
    → ((k c : ℕ) → get_elem? bytes k ≡ some c → f.b_data (off / 4096 + 2) (off % 4096 + k) ≡ c)
    → read_block dev off (length bytes) f
      ≡ (some (record { value = pos (length bytes); bytes = bytes; off = off + length bytes }), f)
unfolding read_block
read_block_lem dev off bytes f readable copies room small holds =
    rw
      (
        readable (to_int (off / 4096 + 2)),
        in_block (off % 4096) (length bytes) room,
        block_small off small,
        read_bytes_all f.b_data (off / 4096 + 2) (off % 4096) bytes holds,
        copies bytes,
        minus_zero (length bytes),
      )
      refl

not_at_end : (size a n : ℕ) → size ≡ a + n → 0 < n → leb size a ≡ false
not_at_end size a n e h = ground arith

-- What is left of the file is the record.
cut :
    (size a n len : ℕ)
    → size ≡ a + n
    → n ≤ len
    → a + len < 2 ^ 64
    → (if ltb size ((a + len) % 2 ^ 64) then size - a else len) ≡ n
cut size a n len e h small = ground arith

module _ (dev : Device) (off len : ℕ) (bytes : List ℕ) (readable : (b : ℕ) → dev.sb_bread b ≡ true)
    (copies : (out : List ℕ) → dev.copy_to_user out ≡ 0) (some_bytes : 0 < length bytes)
    (enough : length bytes ≤ len) (nowrap : off + len < 2 ^ 64)
    (room : off % 4096 + length bytes ≤ 4096) (small : off < 2 ^ 43 - 8192) where
  read_locked_lem :
      (f : LogFile)
      → f.i_size ≡ off + length bytes
      → ((k c : ℕ) → get_elem? bytes k ≡ some c → f.b_data (off / 4096 + 2) (off % 4096 + k) ≡ c)
      → read_locked dev off len f
        ≡ (some (record { value = pos (length bytes); bytes = bytes; off = off + length bytes }), f)
  unfolding read_locked
  read_locked_lem f end holds =
      rw
        (
          not_at_end f.i_size off (length bytes) end some_bytes,
          cut f.i_size off (length bytes) len end enough nowrap,
        )
        (read_block_lem dev off bytes f readable copies room small holds)

  pub read_lem :
      (f : LogFile)
      → f.refmonfs_mutex ≡ false
      → f.i_size ≡ off + length bytes
      → ((k c : ℕ) → get_elem? bytes k ≡ some c → f.b_data (off / 4096 + 2) (off % 4096 + k) ≡ c)
      → onefilefs_read dev off len f
        ≡ (some (record { value = pos (length bytes); bytes = bytes; off = off + length bytes }), f)
  unfolding onefilefs_read
  read_lem f free end holds =
      ground (arith, free, read_locked_lem (record f { refmonfs_mutex = true }) end holds)

start_small : (size len : ℕ) → size < 2 ^ 43 - 16384 → record_start size len < 2 ^ 43 - 8192
start_small size len h = ground arith

-- A record of 1 to 4096 bytes that has been appended is read back whole by a read at its place with
-- room for it: the bytes are the record's, the value is their number, and the file stays as it was.
-- This holds if the device can be read, the copy to user memory succeeds, the mutex is free, the
-- size is below 2^43 - 16384, and the end of the read fits a 64-bit number.
pub onefilefs_read-onefilefs_write_async :
    (dev : Device) (out_size len : ℕ) (iov : List ℕ) (f : LogFile)
    → Writable dev f iov
    → ((out : List ℕ) → dev.copy_to_user out ≡ 0)
    → 0 < length iov
    → length iov ≤ len
    → record_start f.i_size (length iov) + len < 2 ^ 64
    → let s = record_start f.i_size (length iov) in
      let g = (onefilefs_write_async dev out_size iov f).1 in
      onefilefs_read dev s len g
      ≡ (some (record { value = pos (length iov); bytes = iov; off = s + length iov }), g)
onefilefs_read-onefilefs_write_async dev out_size len iov f w copies some_bytes enough nowrap =
    let s = record_start f.i_size (length iov) in
    let room = start_room f.i_size (length iov) w.fits in
    rw (write_lem dev out_size iov f w) (
      read_lem dev s len iov w.readable copies some_bytes enough nowrap room
        (start_small f.i_size (length iov) w.small) (appended iov f) w.free refl
        (λ k c e. memcpy_inside f.b_data (s / 4096 + 2) (s % 4096) k c iov e))
