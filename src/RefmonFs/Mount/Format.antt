-- ===== src/RefmonFs/Mount/Format.antt =====
-- A device that the mkfs tool has written can be mounted, and its file holds the heading of the
-- log (io/refmonfs: singlefilemakefs.c, singlefilefs.c and file.c).
use refmon.Prelude.{
  ℕ, zero, suc, ◌+◌, ◌-◌, ◌*◌, ◌<◌, ◌≤◌, ◌^◌, true, false, ◌≡◌, refl, ap, ◌∙◌, Option, some, ℤ,
  negsuc, List, [], ◌∷◌, pos, length, take, arith, get_elem?, ==_iff,
}
use refmon.CStr.{Str, codes, strcmp_is_zero}
use refmon.RefmonFs.{Device, read_bytes, onefilefs_read, refmon_file_log, LogFile}
use refmon.RefmonFs.ReadBack.{read_lem}
use refmon.RefmonFs.Copied.{at_or_after, back}
use refmon.RefmonFs.Mkfs.{
  Mkfs, Disk, ssize, le_number, sb_rest, block_padding, magic_number, sb_bytes, inode_bytes,
  file_body, put, write_out, then_write, write_all, makefs, unset_bytes, close,
}
use refmon.RefmonFs.Mount.{
  Mount, SuperBlock, Inode, Child, child_dentry, make_root, singlefilefs_fill_super, fill_inode,
  onefilefs_lookup,
}

-- The inode of the log file as the tool leaves it.
abbrev pub log_inode : Inode
log_inode = record { i_ino = 1; i_mode = 33277; i_size = 31; is_new = false }

-- The blocks of the device, of 4096 bytes each.
abbrev pub blocks : Disk → ℕ → ℕ → ℕ
blocks d b i = d.data_at (b * 4096 + i)

abbrev pub opened : Inode → (ℕ → ℕ) → LogFile
opened inode data_at = record {
  i_size = inode.i_size;
  f_pos = 0;
  b_data = λ b i. data_at (b * 4096 + i);
  refmonfs_mutex = false;
}

take_all : (xs : Str) → take (length xs) xs ≡ xs
take_all [] = refl
take_all (x ∷ xs) = ap (λ r. x ∷ r) (take_all xs)

length-read_bytes : (b_data : ℕ → ℕ → ℕ) (b p n : ℕ) → length (read_bytes b_data b p n) ≡ n
unfolding read_bytes
length-read_bytes b_data b p zero = refl
length-read_bytes b_data b p (suc n) = omega (arith, length-read_bytes b_data b (p + 1) n)

zero_plus : (k : ℕ) → 0 + k ≡ k
zero_plus k = omega arith

put_inside :
    (data_at : ℕ → ℕ) (p k c : ℕ) (bytes : Str)
    → get_elem? bytes k ≡ some c
    → put data_at p bytes (p + k) ≡ c
put_inside data_at p k c bytes e = rw (at_or_after p k, back p k, e) refl

module _ (h : Mkfs) where
  abbrev padding : Str
  padding = unset_bytes h block_padding (4096 - length (inode_bytes h))

  length-sb_bytes : length (sb_bytes h) ≡ 4096
  unfolding sb_bytes
  length-sb_bytes = omega (arith, length-read_bytes (λ b i. h.unset sb_rest i) 0 0 4072)

  length-inode_bytes : length (inode_bytes h) ≡ 32
  unfolding inode_bytes read_bytes
  length-inode_bytes = refl

  length-padding : length padding ≡ 4064
  length-padding =
      length-read_bytes (λ b i. h.unset block_padding i) 0 0 (4096 - length (inode_bytes h))
      ∙ ap (λ n. 4096 - n) length-inode_bytes

  -- What the tool makes of the device.
  formatted : Disk → ℕ → ℕ
  formatted d =
      put (put (put (put d.data_at 0 (sb_bytes h)) 4096 (inode_bytes h)) 4128 padding) 8192
        file_body

  magic_there :
      (d : Disk) → le_number (read_bytes (λ b i. formatted d (b * 4096 + i)) 0 8 8) ≡ magic_number
  unfolding formatted sb_bytes read_bytes
  magic_there d = refl

  size_there : (d : Disk) → le_number (read_bytes (λ b i. formatted d (b * 4096 + i)) 1 24 8) ≡ 31
  unfolding formatted inode_bytes read_bytes
  size_there d = refl

  body_there : (d : Disk) (k c : ℕ) → get_elem? file_body k ≡ some c → formatted d (8192 + k) ≡ c
  unfolding formatted
  body_there d k c e =
      put_inside (put (put (put d.data_at 0 (sb_bytes h)) 4096 (inode_bytes h)) 4128 padding) 8192 k
        c file_body e

module _ (h : Mkfs) (whole : (p n : ℕ) → h.write p n ≡ some n) where
  abbrev put_at : Str → Disk → Disk
  put_at bytes d = record d {
    data_at = put d.data_at d.place bytes;
    place = d.place + length bytes;
  }

  write_out_lem :
      (bytes : Str) (d : Disk) → write_out h bytes d ≡ (some (length bytes), put_at bytes d)
  unfolding write_out
  write_out_lem bytes d = ground (arith, whole d.place (length bytes), take_all bytes)

  then_write_lem :
      (bytes : Str) (next : Disk → ℤ × Disk) (error : Option ℕ → ℤ) (d : Disk)
      → then_write h bytes next error d ≡ next (put_at bytes d)
  unfolding then_write
  then_write_lem bytes next error d =
      rw (write_out_lem bytes d, (==_iff (length bytes) (length bytes)).1 refl) refl

  writes :
      (a b c e : Str) (last : Disk → ℤ × Disk) (err err1 err2 err3 : Option ℕ → ℤ) (d : Disk)
      → then_write h a (then_write h b (then_write h c (then_write h e last err3) err2) err1) err d
        ≡ last (put_at e (put_at c (put_at b (put_at a d))))
  writes a b c e last err err1 err2 err3 d =
      then_write_lem a (then_write h b (then_write h c (then_write h e last err3) err2) err1) err d
      ∙ then_write_lem b (then_write h c (then_write h e last err3) err2) err1 (put_at a d)
      ∙ then_write_lem c (then_write h e last err3) err2 (put_at b (put_at a d))
      ∙ then_write_lem e last err3 (put_at c (put_at b (put_at a d)))

  write_all_lem :
      (d : Disk)
      → write_all h (record d { place = 0; closed = false })
        ≡ (pos 0, record { data_at = formatted h d; place = 8223; closed = true })
  unfolding write_all formatted
  write_all_lem d =
      writes (sb_bytes h) (inode_bytes h) (padding h) file_body (λ x. (pos 0, close x)) ssize
        (λ r. negsuc 0) (λ r. negsuc 0) (λ r. negsuc 0) (record d { place = 0; closed = false })
      ∙ rw (length-padding h, length-sb_bytes h, length-inode_bytes h) refl

  makefs_lem :
      (argv0 device : Str) (d : Disk)
      → h.can_open ≡ true
      → makefs h (argv0 ∷ device ∷ []) d
        ≡ (pos 0, record { data_at = formatted h d; place = 8223; closed = true })
  unfolding makefs
  makefs_lem argv0 device d opens = ground (arith, opens, write_all_lem d)

-- The device is there to be mounted: its blocks can be read, and the kernel has memory and no old
-- inodes.
pub record Ready (dev : Device) (m : Mount) : Type 0 where
  pub device_readable : (b : ℕ) → dev.sb_bread b ≡ true
  pub copies : (out : List ℕ) → dev.copy_to_user out ≡ 0
  pub readable : (b : ℕ) → m.sb_bread b ≡ true
  pub inodes : (n : ℕ) → m.iget_locked n ≡ some true
  pub root : m.d_make_root ≡ true

abbrev pub on_device : Mount → (ℕ → ℕ) → Mount
on_device m data_at = record m { b_data = λ b i. data_at (b * 4096 + i) }

module _ (dev : Device) (m : Mount) (h : Mkfs) (d : Disk) (r : Ready dev m) where
  fill_super_lem :
      (sb : SuperBlock)
      → (singlefilefs_fill_super (on_device m (formatted h d)) sb).0 ≡ some (pos 0)
  unfolding singlefilefs_fill_super make_root
  fill_super_lem sb = ground (arith, r.readable 0, magic_there h d, r.inodes 10, r.root)

  fill_inode_lem :
      (c : Child)
      → fill_inode (on_device m (formatted h d)) c
        ≡ (child_dentry, record { d_inode = some log_inode; d_count = c.d_count + 1 })
  unfolding fill_inode
  fill_inode_lem c = rw (r.readable 1, size_there h d) refl

  lookup_lem :
      (c : Child)
      → onefilefs_lookup (on_device m (formatted h d)) (codes refmon_file_log) c
        ≡ (child_dentry, record { d_inode = some log_inode; d_count = c.d_count + 1 })
  unfolding onefilefs_lookup strcmp_is_zero
  lookup_lem c = rw (r.inodes 1) (fill_inode_lem c)

  read_heading :
      (len : ℕ)
      → 31 ≤ len
      → len < 2 ^ 64
      → (onefilefs_read dev 0 len (opened log_inode (formatted h d))).0
        ≡ some (record { value = pos 31; bytes = file_body; off = 31 })
  read_heading len enough nowrap =
      ap (λ x. x.0)
        (read_lem dev 0 len file_body r.device_readable r.copies (omega arith) enough (omega arith)
          (omega arith) (omega arith) (opened log_inode (formatted h d)) refl refl
          (λ k c e. rw (zero_plus k) (body_there h d k c e)))

-- If the device opens, every write to it writes all its bytes, its blocks can be read, and the kernel
-- has memory, then the tool ends with 0 and the device closed; the file system that it has written can be
-- mounted; a lookup of the log's name in it gives its inode, with the size 31; and a read of the
-- file from its beginning, with room for 31 bytes, yields the heading of the log.
pub onefilefs_read-makefs :
    (dev : Device) (m : Mount) (h : Mkfs) (argv0 device : Str) (d : Disk) (sb : SuperBlock)
    (c : Child) (len : ℕ)
    → h.can_open ≡ true
    → ((p n : ℕ) → h.write p n ≡ some n)
    → Ready dev m
    → 31 ≤ len
    → len < 2 ^ 64
    → let (ret, made) = makefs h (argv0 ∷ device ∷ []) d in
      let mounted = on_device m made.data_at in
      (ret ≡ pos 0)
      × (made.closed ≡ true)
      × ((singlefilefs_fill_super mounted sb).0 ≡ some (pos 0))
      × (onefilefs_lookup mounted (codes refmon_file_log) c
          ≡ (child_dentry, record { d_inode = some log_inode; d_count = c.d_count + 1 }))
      × ((onefilefs_read dev 0 len (opened log_inode made.data_at)).0
          ≡ some (record { value = pos 31; bytes = file_body; off = 31 }))
onefilefs_read-makefs dev m h argv0 device d sb c len opens whole r enough nowrap =
    rw (makefs_lem h whole argv0 device d opens) (
      refl,
      refl,
      fill_super_lem dev m h d r sb,
      lookup_lem dev m h d r c,
      read_heading dev m h d r len enough nowrap,
    )
