-- ===== src/RefmonFs/Mount/Size.antt =====
-- The size of the log file over a mount (io/refmonfs/file.c): it is not written back.
use refmon.Prelude.{
  ℕ, ◌+◌, ◌-◌, ◌^◌, ◌<◌, ◌≤◌, ◌/◌, ◌%◌, ◌≡◌, refl, ap, sym, ◌∙◌, some, false, Option, ℤ, get_elem?,
  List, length, arith,
}
use mathlib.Core.Path.{subst}
use refmon.CStr.{Str}
use refmon.RefmonFs.{Device, LogFile, memcpy, read_bytes, onefilefs_write_async}
use refmon.RefmonFs.Append.{Writable, record_start, appended, write_lem, byte_at, placed}
use refmon.RefmonFs.Copied.{memcpy_other}
use refmon.RefmonFs.Mount.{Mount, Child, Inode, Lookup, fill_inode, onefilefs_lookup}

abbrev pub mounted : Mount → LogFile → Mount
mounted m f = record m { b_data = f.b_data }

-- A write to another block leaves the bytes of a block alone.
read_bytes_kept :
    (b_data : ℕ → ℕ → ℕ) (b p c i n : ℕ) (bytes : List ℕ)
    → (c ≡ b → ⊥)
    → read_bytes (memcpy b_data b p bytes) c i n ≡ read_bytes b_data c i n
unfolding read_bytes
read_bytes_kept b_data b p c i ℕ.zero bytes other = refl
read_bytes_kept b_data b p c i (ℕ.suc n) bytes other =
    rw (memcpy_other b_data b p c i bytes other, read_bytes_kept b_data b p c (i + 1) n bytes other)
      refl

inode_block_apart : (b : ℕ) → 1 ≡ b + 2 → ⊥
inode_block_apart b e = omega arith

fill_inode-same :
    (m : Mount) (b1 b2 : ℕ → ℕ → ℕ) (d : Child)
    → read_bytes b1 1 24 8 ≡ read_bytes b2 1 24 8
    → fill_inode (record m { b_data = b1 }) d ≡ fill_inode (record m { b_data = b2 }) d
unfolding fill_inode
fill_inode-same m b1 b2 d e = ground (arith, e)

size_from :
    (m : Mount) (b1 b2 : ℕ → ℕ → ℕ) (name : Str) (d : Child)
    → read_bytes b1 1 24 8 ≡ read_bytes b2 1 24 8
    → onefilefs_lookup (record m { b_data = b1 }) name d
      ≡ onefilefs_lookup (record m { b_data = b2 }) name d
unfolding onefilefs_lookup
size_from m b1 b2 name d e = ground (arith, fill_inode-same m b1 b2 d e)

-- The size of the log file is not written back to the device: whatever has been appended to it, a
-- lookup of its name on the device afterwards gives what it gave before, the size included. This
-- holds if the record can be appended: the device can be read, the mutex is free, the record is at
-- most 4096 bytes long and the size below 2^43 - 16384.
onefilefs_lookup-onefilefs_write_async :
    (dev : Device) (out_size : ℕ) (iov : List ℕ) (f : LogFile) (m : Mount) (name : Str) (d : Child)
    → Writable dev f iov
    → onefilefs_lookup (mounted m (onefilefs_write_async dev out_size iov f).1) name d
      ≡ onefilefs_lookup (mounted m f) name d
onefilefs_lookup-onefilefs_write_async dev out_size iov f m name d w =
    let s = record_start f.i_size (length iov) in
    rw (ap (λ r. r.1) (write_lem dev out_size iov f w)) (
      size_from m (appended iov f).b_data f.b_data name d (
        read_bytes_kept f.b_data (s / 4096 + 2) (s % 4096) 1 24 8 iov
          (inode_block_apart (s / 4096))))

-- The log file of a new mount, opened for writing: its size is that of the inode that was looked
-- up, and its blocks are those of the device.
abbrev pub reopened : Inode → LogFile → LogFile
reopened inode f = record {
  i_size = inode.i_size;
  f_pos = 0;
  b_data = f.b_data;
  refmonfs_mutex = false;
}

-- A record that was appended is overwritten after a new mount: the lookup of the log yields the inode
-- with the size from before the record, and a record of the same length that is appended then
-- stands where the first one stood, byte for byte. This holds for a log file that was opened with
-- the size of the inode on the device, if the device can be read, the mutex is free, the records
-- are at most 4096 bytes long and the size is below 2^43 - 16384.
pub remount_overwrites :
    (dev : Device) (out_size : ℕ) (first second : List ℕ) (f : LogFile) (m : Mount) (name : Str)
    (d : Child) (inode : Inode) (k c c' : ℕ)
    → Writable dev f first
    → (onefilefs_lookup (mounted m f) name d).1.d_inode ≡ some inode
    → inode.i_size ≡ f.i_size
    → length second ≡ length first
    → get_elem? first k ≡ some c
    → get_elem? second k ≡ some c'
    → let g = (onefilefs_write_async dev out_size first f).1 in
      let place = record_start f.i_size (length first) + k in
      ((onefilefs_lookup (mounted m g) name d).1.d_inode ≡ some inode)
      × (byte_at g place ≡ c)
      × (byte_at (onefilefs_write_async dev out_size second (reopened inode g)).1 place ≡ c')
remount_overwrites dev out_size first second f m name d inode k c c' w found size same e e' =
    let g = (onefilefs_write_async dev out_size first f).1 in
    let place = record_start f.i_size (length first) + k in
    let start : record_start inode.i_size (length second) ≡ record_start f.i_size (length first) =
      ap (λ n. record_start n (length second)) size ∙ ap (record_start f.i_size) same in
    let again : Writable dev (reopened inode g) second = record {
      free = refl;
      readable = w.readable;
      fits = subst (λ n. n ≤ 4096) (sym same) w.fits;
      small = subst (λ n. n < 2 ^ 43 - 16384) (sym size) w.small;
    } in
    (
      ap (λ (l : Lookup × Child). l.1.d_inode)
            (onefilefs_lookup-onefilefs_write_async dev out_size first f m name d w)
          ∙ found,
      subst (λ (r : Option ℤ × LogFile). byte_at r.1 place ≡ c)
          (sym (write_lem dev out_size first f w)) (placed first f k c w.fits e),
      subst (λ (r : Option ℤ × LogFile). byte_at r.1 place ≡ c')
          (sym (write_lem dev out_size second (reopened inode g) again))
          (subst (λ s. byte_at (appended second (reopened inode g)) (s + k) ≡ c') start
            (placed second (reopened inode g) k c' again.fits e')),
    )
