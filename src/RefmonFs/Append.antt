-- ===== src/RefmonFs/Append.antt =====
-- Appending to the log file (io/refmonfs/file.c): where a record goes, and what stays.
use refmon.Prelude.{
  ℕ, zero, suc, ◌+◌, ◌-◌, ◌/◌, ◌%◌, ◌^◌, ◌<◌, ◌≤◌, true, false, ◌≡◌, inl, inr, refl, sym, ap, ◌∙◌,
  ◌⊎◌, none, some, Option-cases, leb→le, leb→lt, List, [], ◌∷◌, ltb, leb, ◌==◌, if◌then◌else◌,
  length, get_elem?, arith, Bool-cases, ==_iff,
}
use refmon.RefmonFs.Copied.{memcpy_inside, memcpy_before}
use refmon.RefmonFs.{
  Device, LogFile, memcpy, to_int, to_ssize, write_block, write_locked, onefilefs_write_async,
}

-- The byte of the file at an offset: its blocks begin at number 2.
abbrev pub byte_at : LogFile → ℕ → ℕ
byte_at f x = f.b_data (x / 4096 + 2) (x % 4096)

-- Where a record begins: at the end of the file, or at the next block if the rest of the last one
-- is not longer than the record.
abbrev pub record_start : ℕ → ℕ → ℕ
record_start size len = if leb (4096 - size % 4096) len then size + (4096 - size % 4096) else size

-- The file with the record in place.
abbrev pub appended : List ℕ → LogFile → LogFile
appended iov f =
    let s = record_start f.i_size (length iov) in
    record f {
      i_size = s + length iov;
      f_pos = s;
      b_data = memcpy f.b_data (s / 4096 + 2) (s % 4096) iov;
    }

-- The device can be read, and the file's blocks have numbers that an `int` holds.
pub record Writable (dev : Device) (f : LogFile) (iov : List ℕ) : Type 0 where
  pub free : f.refmonfs_mutex ≡ false
  pub readable : (b : ℕ) → dev.sb_bread b ≡ true
  pub fits : length iov ≤ 4096
  pub small : f.i_size < 2 ^ 43 - 16384

block_small : (x : ℕ) → x < 2 ^ 43 - 16384 → to_int (x / 4096 + 2) ≡ x / 4096 + 2
block_small x h = omega arith

next_small : (x : ℕ) → x < 2 ^ 43 - 16384 → to_int (to_int (x / 4096 + 2) + 1) ≡ x / 4096 + 3
next_small x h = omega arith

next_block : (x : ℕ) → (x + (4096 - x % 4096)) / 4096 + 2 ≡ x / 4096 + 3
next_block x = omega arith

next_place : (x : ℕ) → (x + (4096 - x % 4096)) % 4096 ≡ 0
next_place x = omega arith

grows : (a n : ℕ) (size : ℕ) → size ≤ a → (if ltb size (a + n) then a + n else size) ≡ a + n
grows a n size h = ground arith

no_overrun : (place len : ℕ) → place + len ≤ 4096 → ltb 4096 (place + len) ≡ false
no_overrun place len h = ground arith

-- The record at an offset at or behind the end of the file.
abbrev put : List ℕ → ℕ → ℕ → ℕ → LogFile → LogFile
put iov offset place block f = record f {
  b_data = memcpy f.b_data block place iov;
  i_size = offset + length iov;
  f_pos = offset;
}

write_block_lem :
    (dev : Device) (out_size : ℕ) (iov : List ℕ) (offset place block : ℕ) (f : LogFile)
    → ((b : ℕ) → dev.sb_bread b ≡ true)
    → place + length iov ≤ 4096
    → f.i_size ≤ offset
    → write_block dev out_size iov offset place block f
      ≡ (some (to_ssize out_size), put iov offset place block f)
unfolding write_block
write_block_lem dev out_size iov offset place block f readable room behind = ground (
  arith,
  readable block,
  no_overrun place (length iov) room,
  grows offset (length iov) f.i_size behind,
)

-- The record fits into the rest of the last block.
room_here : (x len : ℕ) → leb (4096 - x % 4096) len ≡ false → x % 4096 + len ≤ 4096
room_here x len h = ground arith

write_locked_lem :
    (dev : Device) (out_size : ℕ) (iov : List ℕ) (f : LogFile)
    → ((b : ℕ) → dev.sb_bread b ≡ true)
    → length iov ≤ 4096
    → f.i_size < 2 ^ 43 - 16384
    → write_locked dev out_size iov f ≡ (some (to_ssize out_size), appended iov f)
unfolding write_locked
write_locked_lem dev out_size iov f readable fits small =
    elim (Bool-cases (leb (4096 - f.i_size % 4096) (length iov))) [
      | inl full ↦
          rw
            (
              full,
              readable (to_int (f.i_size / 4096 + 2)),
              next_small f.i_size small,
              next_block f.i_size,
              next_place f.i_size,
            )
            (write_block_lem dev out_size iov (f.i_size + (4096 - f.i_size % 4096)) 0
              (f.i_size / 4096 + 3) f readable (omega arith) (omega arith))
      | inr room ↦
          rw (room, block_small f.i_size small)
            (write_block_lem dev out_size iov f.i_size (f.i_size % 4096) (f.i_size / 4096 + 2) f
              readable (room_here f.i_size (length iov) room) (omega arith))
    ]

pub write_lem :
    (dev : Device) (out_size : ℕ) (iov : List ℕ) (f : LogFile)
    → Writable dev f iov
    → onefilefs_write_async dev out_size iov f ≡ (some (to_ssize out_size), appended iov f)
unfolding onefilefs_write_async
write_lem dev out_size iov f w = ground (
  arith,
  w.free,
  write_locked_lem dev out_size iov (record f { refmonfs_mutex = true }) w.readable w.fits w.small,
)

pub start_behind : (size len : ℕ) → size ≤ record_start size len
start_behind size len = ground arith

pub start_room : (size len : ℕ) → len ≤ 4096 → record_start size len % 4096 + len ≤ 4096
start_room size len fits = elim (Bool-cases (leb (4096 - size % 4096) len)) [
  | inl full ↦ rw (full, next_place size) (omega arith)
  | inr room ↦ rw room (room_here size len room)
]

-- Inside a block, the numbers of block and place are those of the beginning.
same_block : (s k len : ℕ) → s % 4096 + len ≤ 4096 → k < len → (s + k) / 4096 ≡ s / 4096
same_block s k len room h = omega arith

same_place : (s k len : ℕ) → s % 4096 + len ≤ 4096 → k < len → (s + k) % 4096 ≡ s % 4096 + k
same_place s k len room h = omega arith

-- A record lies in one block.
pub record_in_block :
    (size len k : ℕ)
    → len ≤ 4096
    → k < len
    → (record_start size len + k) / 4096 ≡ record_start size len / 4096
record_in_block size len k fits h =
    same_block (record_start size len) k len (start_room size len fits) h

kept_in_block :
    (b_data : ℕ → ℕ → ℕ) (iov : List ℕ) (x s : ℕ)
    → x < s
    → x / 4096 + 2 ≡ s / 4096 + 2
    → memcpy b_data (s / 4096 + 2) (s % 4096) iov (x / 4096 + 2) (x % 4096)
      ≡ b_data (x / 4096 + 2) (x % 4096)
kept_in_block b_data iov x s h e =
    rw e (memcpy_before b_data (s / 4096 + 2) (s % 4096) (x % 4096) iov (omega arith))

-- The bytes before the record are what they were.
pub kept :
    (iov : List ℕ) (f : LogFile) (x : ℕ)
    → x < record_start f.i_size (length iov)
    → byte_at (appended iov f) x ≡ byte_at f x
unfolding memcpy
kept iov f x h =
    let s = record_start f.i_size (length iov) in
    elim (Bool-cases (x / 4096 + 2 == s / 4096 + 2)) [
      | inl e ↦ kept_in_block f.b_data iov x s h ((==_iff (x / 4096 + 2) (s / 4096 + 2)).0 e)
      | inr e ↦ ground (arith, e)
    ]

get_lt : (bytes : List ℕ) (k c : ℕ) → get_elem? bytes k ≡ some c → k < length bytes
get_lt [] k c e = absurd (ground arith)
get_lt (b ∷ bytes) zero c e = omega arith
get_lt (b ∷ bytes) (suc k) c e = omega (arith, get_lt bytes k c e)

get_out : (bytes : List ℕ) (k : ℕ) → get_elem? bytes k ≡ none → length bytes ≤ k
get_out [] k e = omega arith
get_out (b ∷ bytes) zero e = absurd (ground arith)
get_out (b ∷ bytes) (suc k) e = omega (arith, get_out bytes k e)

pub placed :
    (iov : List ℕ) (f : LogFile) (k c : ℕ)
    → length iov ≤ 4096
    → get_elem? iov k ≡ some c
    → byte_at (appended iov f) (record_start f.i_size (length iov) + k) ≡ c
placed iov f k c fits e =
    let s = record_start f.i_size (length iov) in
    let room = start_room f.i_size (length iov) fits in
    let k_lt = get_lt iov k c e in
    rw (same_block s k (length iov) room k_lt, same_place s k (length iov) room k_lt)
      (memcpy_inside f.b_data (s / 4096 + 2) (s % 4096) k c iov e)

-- A byte of the record, in the block in which the record begins.
placed_inside :
    (iov : List ℕ) (f : LogFile) (k : ℕ)
    → length iov ≤ 4096
    → let s = record_start f.i_size (length iov) in
      (length iov ≤ k)
      ⊎ (((s + k) / 4096 ≡ s / 4096) × (get_elem? iov k ≡ some (byte_at (appended iov f) (s + k))))
placed_inside iov f k fits = elim (Option-cases (get_elem? iov k)) [
  | inl out ↦ inl (get_out iov k out)
  | inr (c, e) ↦ inr (
    record_in_block f.i_size (length iov) k fits (get_lt iov k c e),
    e ∙ ap some (sym (placed iov f k c fits e)),
  )
]

kept_below :
    (iov : List ℕ) (f : LogFile) (x : ℕ)
    → (f.i_size ≤ x) ⊎ (byte_at (appended iov f) x ≡ byte_at f x)
kept_below iov f x = elim (Bool-cases (leb f.i_size x)) [
  | inl out ↦ inl (leb→le f.i_size x out)
  | inr inside ↦
      let lt = leb→lt f.i_size x inside in
      inr (kept iov f x (omega (arith, start_behind f.i_size (length iov))))
]

-- If the device can be read, the mutex is free and the size is below 2^43 - 16384, a record of up to
-- 4096 bytes, an empty one too, is appended whole to a file, an empty one too: it begins at or behind the end of the
-- file, and the new size is its end; each byte of the file stays as it was; and each byte of the
-- record lies in the block in which the record begins and is the one given. The value returned is
-- the size_t that the code never sets, read as a ssize_t.
pub onefilefs_write_async-Appends :
    (dev : Device) (out_size : ℕ) (iov : List ℕ) (f : LogFile) (x k : ℕ)
    → Writable dev f iov
    → let s = record_start f.i_size (length iov) in
      let (ret, g) = onefilefs_write_async dev out_size iov f in
      (ret ≡ some (to_ssize out_size))
      × (f.i_size ≤ s)
      × (g.i_size ≡ s + length iov)
      × ((f.i_size ≤ x) ⊎ (byte_at g x ≡ byte_at f x))
      × ((length iov ≤ k)
          ⊎ (((s + k) / 4096 ≡ s / 4096) × (get_elem? iov k ≡ some (byte_at g (s + k)))))
onefilefs_write_async-Appends dev out_size iov f x k w = rw (write_lem dev out_size iov f w) (
  refl,
  start_behind f.i_size (length iov),
  refl,
  kept_below iov f x,
  placed_inside iov f k w.fits,
)
