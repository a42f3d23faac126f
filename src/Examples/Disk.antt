-- ===== src/Examples/Disk.antt =====
-- Runs of io/refmonfs on a small log file.
use refmon.Prelude.{
  get_elem?, ◌⊎◌, ℕ, ◌+◌, ◌/◌, ◌≤◌, true, false, ◌≡◌, refl, some, List, [], ◌∷◌, arith,
}
use refmon.RefmonFs.{to_ssize, Device, LogFile, onefilefs_write_async}
use refmon.RefmonFs.Append.{Writable, byte_at, record_start, onefilefs_write_async-Appends}
use refmon.RefmonFs.Whole.{Readable, read_file, content, read_file-content}

abbrev pub device : Device
device = record { sb_bread = λ b. true; copy_to_user = λ bytes. 0 }

-- Its last block has two bytes left.
abbrev pub log_file : LogFile
log_file = record { i_size = 4094; f_pos = 0; b_data = λ b i. 65; refmonfs_mutex = false }

abbrev pub line : List ℕ
line = 49 ∷ 50 ∷ 10 ∷ []

pub log_file-Writable : Writable device log_file line
log_file-Writable = record {
  free = refl;
  readable = λ b. refl;
  fits = omega arith;
  small = omega arith;
}

onefilefs_write_async-Appends_example :
    let s = record_start 4094 3 in
    let (ret, g) = onefilefs_write_async device 5 line log_file in
    (ret ≡ some (to_ssize 5))
    × (4094 ≤ s)
    × (g.i_size ≡ s + 3)
    × ((4094 ≤ 7) ⊎ (byte_at g 7 ≡ 65))
    × ((3 ≤ 1) ⊎ (((s + 1) / 4096 ≡ s / 4096) × (get_elem? line 1 ≡ some (byte_at g (s + 1)))))
onefilefs_write_async-Appends_example =
    onefilefs_write_async-Appends device 5 line log_file 7 1 log_file-Writable

log_file-Readable : Readable device log_file
log_file-Readable = record {
  free = refl;
  readable = λ b. refl;
  copies = λ out. refl;
  small = omega arith;
}

read_file-content_example :
    read_file device 4095 1000 0 log_file ≡ some (content (λ b i. 65) 0 4094)
read_file-content_example =
    read_file-content device log_file log_file-Readable 1000 (omega arith) (omega arith)
