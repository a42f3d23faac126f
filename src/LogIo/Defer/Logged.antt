-- ===== src/LogIo/Defer/Logged.antt =====
-- A refused operation ends up in the log file, from where it can be read (io/logio.c with
-- io/refmonfs/file.c).
use refmon.Prelude.{
  ℕ, suc, ◌+◌, ◌^◌, ◌<◌, ◌≤◌, true, false, ◌≡◌, sym, ap, ◌∙◌, some, List, [], ◌∷◌, ◌++◌, pos, arith,
  length, length-append, take, length-take-le, is_neg, if◌then◌else◌,
}
use refmon.CStr.{Str}
use refmon.CStr.Decimal.{decimal}
use refmon.LogIo.{LogDataset}
use refmon.LogIo.Defer.{LogHost, LogState, log_text, log_line, write_line, defer}
use refmon.Misc.FileHash.{hashed, hashgen_filecont}
use refmon.RefmonFs.{Device, to_ssize, onefilefs_write_async, onefilefs_read}
use refmon.RefmonFs.Append.{Writable, record_start, appended, write_lem}
use refmon.RefmonFs.ReadBack.{onefilefs_read-onefilefs_write_async}

take_pos {ℓ} : {A : Type ℓ} (n : ℕ) (xs : List A) → 0 < length xs → 0 < length (take (suc n) xs)
take_pos n [] h = h
take_pos n (x ∷ xs) h = omega arith

log_text_pos : (d : LogDataset) (hash : Str) → 0 < length (log_text d hash)
unfolding log_text
log_text_pos d hash = omega (
  arith,
  length-append (decimal d.tgid) (
      9
      ∷ (decimal d.tid
          ++ 9
            ∷ (decimal d.uid
                ++ 9 ∷ (decimal d.euid ++ 9 ∷ (d.prog_path ++ 9 ∷ (hash ++ 10 ∷ [])))))),
)

-- A line is not empty, and is at most 515 bytes long.
pub log_line_bounds :
    (d : LogDataset) (hash : Str)
    → (0 < length (log_line d hash)) × (length (log_line d hash) ≤ 515)
unfolding log_line
log_line_bounds d hash =
    let text = log_text_pos d hash in
    (take_pos 514 (log_text d hash) text, length-take-le 515 (log_text d hash))

-- The files that a write leaves open: one, if the unset value that it returns is negative.
abbrev pub left_open : ℕ → ℕ
left_open out_size = if is_neg (to_ssize out_size) then 1 else 0

-- The log file is in the file system of io/refmonfs.
abbrev pub on_refmonfs : Device → ℕ → LogHost → LogHost
on_refmonfs dev out_size h = record h { kernel_write = onefilefs_write_async dev out_size }

module _ (dev : Device) (out_size : ℕ) (h : LogHost) (d : LogDataset) (s : LogState) (hash : Str)
    (ready : Writable dev s.log_file []) where
  abbrev line : Str
  line = log_line d hash

  line_ready : Writable dev s.log_file line
  line_ready = record {
    free = ready.free;
    readable = ready.readable;
    fits = omega (arith, (log_line_bounds d hash).1);
    small = ready.small;
  }

  pub defer_lem :
      s.spin ≡ false
      → h.open_log ≡ true
      → (hashgen_filecont h.memory h.crypto h.files d.prog_path s.calls).0 ≡ hashed hash
      → (defer (on_refmonfs dev out_size h) d s).0 ≡ some tt
        × (defer (on_refmonfs dev out_size h) d s).1.spin ≡ false
        × (defer (on_refmonfs dev out_size h) d s).1.open_files ≡ s.open_files + left_open out_size
        × (defer (on_refmonfs dev out_size h) d s).1.log_file ≡ appended line s.log_file
  unfolding defer write_line
  defer_lem free opens hashes =
      ground (arith, free, opens, hashes, write_lem dev out_size line s.log_file line_ready)

  -- If the lock of the logger is free, the program's file can be hashed, the log file opens and lies
  -- on a device that can be read, the mutex of the log file is free, and its size is below
  -- 2^43 - 16384, then the deferred work ends with the lock free, one more file left open exactly if the
  -- unset value that the write returns is negative, and a read with room for 515 bytes at the place of
  -- the new record yields the line that `snprintf` made of the refused operation and the hash.
  pub onefilefs_read-defer :
      (len : ℕ)
      → s.spin ≡ false
      → h.open_log ≡ true
      → (hashgen_filecont h.memory h.crypto h.files d.prog_path s.calls).0 ≡ hashed hash
      → ((out : List ℕ) → dev.copy_to_user out ≡ 0)
      → 515 ≤ len
      → record_start s.log_file.i_size (length (log_line d hash)) + len < 2 ^ 64
      → let (ret, s') = defer (on_refmonfs dev out_size h) d s in
        let start = record_start s.log_file.i_size (length (log_line d hash)) in
        (ret ≡ some tt)
        × (s'.spin ≡ false)
        × (s'.open_files ≡ s.open_files + left_open out_size)
        × ((onefilefs_read dev start len s'.log_file).0
            ≡ some (record {
              value = pos (length (log_line d hash));
              bytes = log_line d hash;
              off = start + length (log_line d hash);
            }))
  onefilefs_read-defer len free opens hashes copies enough nowrap =
      let (done, unlocked, closed, logged) = defer_lem free opens hashes in
      let start = record_start s.log_file.i_size (length line) in
      let written = write_lem dev out_size line s.log_file line_ready in
      let bounds = log_line_bounds d hash in
      let read =
        onefilefs_read-onefilefs_write_async dev out_size len line s.log_file line_ready copies
          bounds.0 (omega (arith, bounds.1)) nowrap in
      (
        done,
        unlocked,
        closed,
        ap (λ f. (onefilefs_read dev start len f).0) (logged ∙ sym (ap (λ r. r.1) written))
            ∙ ap (λ r. r.0) read,
      )
