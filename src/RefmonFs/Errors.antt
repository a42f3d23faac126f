-- ===== src/RefmonFs/Errors.antt =====
-- The error branches of the operations on the log file (io/refmonfs/file.c).
use refmon.Prelude.{
  ℕ, ◌+◌, ◌-◌, ◌/◌, ◌%◌, ◌<◌, true, false, ◌≡◌, ◌≢◌, none, some, List, ltb, leb, neg_eio, length,
  arith,
}
use refmon.RefmonFs.{
  Device, LogFile, to_int, to_ssize, write_block, write_locked, onefilefs_write_async, read_block,
  read_locked, onefilefs_read,
}

write_locked_eio :
    (dev : Device) (out_size : ℕ) (iov : List ℕ) (f : LogFile)
    → to_ssize out_size ≢ neg_eio
    → (write_locked dev out_size iov f).0 ≡ some neg_eio
    → (write_locked dev out_size iov f).1 ≡ f
unfolding write_locked write_block
write_locked_eio dev out_size iov f ne h = ground arith

read_locked_keeps : (dev : Device) (off len : ℕ) (f : LogFile) → (read_locked dev off len f).1 ≡ f
unfolding read_locked read_block
read_locked_keeps dev off len f = ground arith

-- If the mutex is free, and the unset value that a write returns is not -EIO, a write that returns -EIO leaves the file as it was, and so does every read;
-- the mutex is free again.
pub onefilefs_eio_keeps :
    (dev : Device) (out_size off len : ℕ) (iov : List ℕ) (f : LogFile)
    → to_ssize out_size ≢ neg_eio
    → f.refmonfs_mutex ≡ false
    → (onefilefs_write_async dev out_size iov f).0 ≡ some neg_eio
    → ((onefilefs_write_async dev out_size iov f).1 ≡ f) × ((onefilefs_read dev off len f).1 ≡ f)
unfolding onefilefs_write_async onefilefs_read
onefilefs_eio_keeps dev out_size off len iov f ne free h =
    let g = record f { refmonfs_mutex = true } in
    (
      ground (arith, free, write_locked_eio dev out_size iov g ne),
      ground (arith, free, read_locked_keeps dev off len g),
    )

overrun : (place len : ℕ) → 4096 < len → ltb 4096 (place + len) ≡ true
overrun place len h = ground arith

full : (x len : ℕ) → 4096 < len → leb (4096 - x % 4096) len ≡ true
full x len h = ground arith

write_locked_overrun :
    (dev : Device) (out_size : ℕ) (iov : List ℕ) (f : LogFile)
    → ((b : ℕ) → dev.sb_bread b ≡ true)
    → 4096 < length iov
    → (write_locked dev out_size iov f).0 ≡ none
unfolding write_locked write_block
write_locked_overrun dev out_size iov f readable long = ground (
  arith,
  full f.i_size (length iov) long,
  readable (to_int (f.i_size / 4096 + 2)),
  readable (to_int (to_int (f.i_size / 4096 + 2) + 1)),
  overrun 0 (length iov) long,
)

-- A record of more than 4096 bytes is written past the end of a block's buffer, if the device can
-- be read and the mutex is free.
pub onefilefs_write_async_overrun :
    (dev : Device) (out_size : ℕ) (iov : List ℕ) (f : LogFile)
    → f.refmonfs_mutex ≡ false
    → ((b : ℕ) → dev.sb_bread b ≡ true)
    → 4096 < length iov
    → (onefilefs_write_async dev out_size iov f).0 ≡ none
unfolding onefilefs_write_async
onefilefs_write_async_overrun dev out_size iov f free readable long = ground (
  arith,
  free,
  write_locked_overrun dev out_size iov (record f { refmonfs_mutex = true }) readable long,
)
