-- ===== src/Examples/Log.antt =====
-- The deferred work and the mounted file system of the log on concrete inputs.
use refmon.Prelude.{
  ℕ, ◌+◌, ◌≡◌, ◌⊎◌, refl, true, false, none, some, List, [], ◌∷◌, pos, arith, length, leb,
  if◌then◌else◌,
}
use refmon.CStr.{Str, codes, strcmp_is_zero}
use refmon.LogIo.{LogDataset}
use refmon.LogIo.Defer.{LogHost, LogState, log_line, defer}
use refmon.LogIo.Defer.Logged.{left_open, onefilefs_read-defer}
use refmon.LogIo.Defer.Trail.{Logged}
use refmon.Misc.{hexconv}
use refmon.Misc.FileHash.{Files, FilesRead, hashed, null, fault, hashgen_filecont}
use refmon.Misc.FileHash.Ends.{hashgen_filecont_cases, hashgen_filecont_works}
use refmon.RefmonFs.{LogFile, read_bytes, onefilefs_write_async, onefilefs_read, refmon_file_log}
use refmon.RefmonFs.Append.{byte_at, Writable, record_start}
use refmon.RefmonFs.Mkfs.{Mkfs, Disk, file_body, makefs, s_ifreg}
use refmon.RefmonFs.Mount.{
  Mount, SuperBlock, Child, Inode, fill_inode, child_dentry, onefilefs_lookup,
  singlefilefs_fill_super,
}
use refmon.RefmonFs.Mount.Format.{Ready, on_device, opened, log_inode, onefilefs_read-makefs}
use refmon.RefmonFs.Mount.Size.{mounted, reopened, remount_overwrites}
use refmon.Examples.{root, files, file_path, memory, crypto, memory_works, crypto_works}
use refmon.Examples.Disk.{device, log_file, line}

abbrev text : List ℕ
text = 104 ∷ 105 ∷ []

-- One file with two bytes; a read gives all that is asked for.
abbrev one_file : Files
one_file = record {
  filp_open = λ n path. some text;
  kernel_read = λ n left size. pos (if leb (length left) size then length left else size);
}

no_bytes : (left : List ℕ) → length left ≡ 0 → left ≡ []
no_bytes [] h = refl
no_bytes (c ∷ left) h = absurd (omega arith)

one_file-FilesRead : FilesRead one_file
one_file-FilesRead = record {
  within = λ n r size left h. ground arith;
  asked = λ n r size left h. ground arith;
  at_end = λ n size left h e. no_bytes left (ground arith);
}

hashgen_filecont_cases_example :
    ((hashgen_filecont memory crypto one_file file_path 0).0 ≡ fault)
    ⊎ ((hashgen_filecont memory crypto one_file file_path 0).0 ≡ null)
    ⊎ ((content : List ℕ) × (some text ≡ some content)
        × ((hashgen_filecont memory crypto one_file file_path 0).0
            ≡ hashed (hexconv (crypto.sha256 content))))
hashgen_filecont_cases_example =
    hashgen_filecont_cases memory crypto one_file file_path 0 one_file-FilesRead

abbrev work : LogDataset
work = record { tgid = 7; tid = 8; uid = 1000; euid = 1000; prog_path = file_path }

abbrev log_state : LogState
log_state = record { spin = false; log_file = log_file; open_files = 0; calls = 0 }

abbrev log_host : LogHost
log_host = record {
  memory = memory;
  crypto = crypto;
  files = one_file;
  open_log = true;
  kernel_write = onefilefs_write_async device 5;
}

-- "02" is the print of the digest of two bytes.
abbrev digest : Str
digest = hexconv (2 ∷ [])

file_hash :
    (path : Str) (n : ℕ) → (hashgen_filecont memory crypto one_file path n).0 ≡ hashed digest
file_hash path n =
    hashgen_filecont_works memory crypto one_file path n one_file-FilesRead text memory_works
      crypto_works (λ i size left. (if leb (length left) size then length left else size, refl))
      refl

log_file-Ready : Writable device log_file []
log_file-Ready = record {
  free = refl;
  readable = λ b. refl;
  fits = omega arith;
  small = omega arith;
}

onefilefs_read-defer_example :
    let (ret, s') = defer log_host work log_state in
    let start = record_start 4094 (length (log_line work digest)) in
    (ret ≡ some tt)
    × (s'.spin ≡ false)
    × (s'.open_files ≡ 0)
    × ((onefilefs_read device start 600 s'.log_file).0
        ≡ some (record {
          value = pos (length (log_line work digest));
          bytes = log_line work digest;
          off = start + length (log_line work digest);
        }))
onefilefs_read-defer_example =
    onefilefs_read-defer device 5 log_host work log_state digest log_file-Ready 600 refl refl
      (file_hash file_path 0) (λ out. refl) (omega arith) (ground arith)

-- A `size_t` of all ones is -1 as a `ssize_t`, and leaves the log file open.
all_ones_leaves_open : left_open 18446744073709551615 ≡ 1
all_ones_leaves_open = refl

-- Another program's work, which gets the lock first.
abbrev works : List LogDataset
works = record { tgid = 9; tid = 9; uid = 0; euid = 0; prog_path = codes "/bin/rm" } ∷ work ∷ []

abbrev tool : Mkfs
tool = record { can_open = true; write = λ place n. some n; unset = λ v i. 170 }

abbrev disk : Disk
disk = record { data_at = λ x. 255; place = 0; closed = false }

abbrev new_mount : Mount
new_mount = record {
  sb_bread = λ b. true;
  b_data = λ b i. 0;
  iget_locked = λ n. some true;
  d_make_root = true;
}

abbrev super : SuperBlock
super = record { s_magic = 0; s_root = none }

abbrev child : Child
child = record { d_inode = none; d_count = 1 }

device-Ready : Ready device new_mount
device-Ready = record {
  device_readable = λ b. refl;
  copies = λ out. refl;
  readable = λ b. refl;
  inodes = λ n. refl;
  root = refl;
}

onefilefs_read-makefs_example :
    let (ret, made) = makefs tool (codes "mkfs" ∷ codes "image" ∷ []) disk in
    let mounted_disk = on_device new_mount made.data_at in
    (ret ≡ pos 0)
    × (made.closed ≡ true)
    × ((singlefilefs_fill_super mounted_disk super).0 ≡ some (pos 0))
    × (onefilefs_lookup mounted_disk (codes refmon_file_log) child
        ≡ (child_dentry, record { d_inode = some log_inode; d_count = 2 }))
    × ((onefilefs_read device 0 100 (opened log_inode made.data_at)).0
        ≡ some (record { value = pos 31; bytes = file_body; off = 31 }))
onefilefs_read-makefs_example =
    onefilefs_read-makefs device new_mount tool (codes "mkfs") (codes "image") disk super child 100
      refl (λ p n. refl) device-Ready (omega arith) (omega arith)

-- A log without a heading, on a device of zeros.
abbrev empty_log : LogFile
empty_log = record { i_size = 0; f_pos = 0; b_data = λ b i. 0; refmonfs_mutex = false }

abbrev empty_inode : Inode
empty_inode = record { i_ino = 1; i_mode = s_ifreg + 509; i_size = 0; is_new = false }

empty_inode_found :
    (onefilefs_lookup (mounted new_mount empty_log) (codes refmon_file_log) child).1.d_inode
    ≡ some empty_inode
unfolding onefilefs_lookup fill_inode read_bytes strcmp_is_zero
empty_inode_found = refl

remount_overwrites_example :
    let g = (onefilefs_write_async device 5 line empty_log).1 in
    ((onefilefs_lookup (mounted new_mount g) (codes refmon_file_log) child).1.d_inode
      ≡ some empty_inode)
    × (byte_at g 1 ≡ 50)
    × (byte_at (onefilefs_write_async device 5 (97 ∷ 98 ∷ 99 ∷ []) (reopened empty_inode g)).1 1
        ≡ 98)
remount_overwrites_example =
    remount_overwrites device 5 line (97 ∷ 98 ∷ 99 ∷ []) empty_log new_mount (codes refmon_file_log)
      child empty_inode 1 50 98
      (record { free = refl; readable = λ b. refl; fits = omega arith; small = omega arith })
      empty_inode_found refl refl refl refl
