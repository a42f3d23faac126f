-- ===== src/RefmonFs/Mount.antt =====
-- Mounting the file system of the log and finding its file: io/refmonfs/singlefilefs.c and
-- `onefilefs_lookup` of io/refmonfs/file.c. The kernel's calls are parameters, and so are the blocks
-- of the device.
pub mod Format
pub mod Size
use refmon.Prelude.{
  ℕ, ◌+◌, ◌*◌, String, Bool, true, false, not, Option, none, some, ℤ, pos, ◌==◌, if◌then◌else◌,
  neg_eio, neg_ebadf, neg_enomem, List,
}
use refmon.CStr.{Str, codes, strcmp_is_zero}
use refmon.RefmonFs.{read_bytes, refmon_file_log}
use refmon.RefmonFs.Mkfs.{le_number, magic_number, s_ifreg, singlefilefs_file_inode_number}

abbrev pub sb_block_number : ℕ
sb_block_number = 0

abbrev pub singlefilefs_inodes_block_number : ℕ
singlefilefs_inodes_block_number = 1

abbrev pub singlefilefs_root_inode_number : ℕ
singlefilefs_root_inode_number = 10

abbrev s_ifdir : ℕ
s_ifdir = 16384

-- S_IRUSR | S_IRGRP | S_IROTH | S_IWUSR | S_IWGRP | S_IXUSR | S_IXGRP | S_IXOTH
abbrev permissions : ℕ
permissions = 509

pub record Inode : Type 0 where
  pub i_ino : ℕ
  pub i_mode : ℕ
  pub i_size : ℕ
  pub is_new : Bool

-- Can a block be read, what is in it, what does `iget_locked` yield (`none` is NULL, `some true` a
-- new inode, `some false` a cached one), and does `d_make_root` succeed?
pub record Mount : Type 0 where
  pub sb_bread : ℕ → Bool
  pub b_data : ℕ → ℕ → ℕ
  pub iget_locked : ℕ → Option Bool
  pub d_make_root : Bool

pub record SuperBlock : Type 0 where
  pub s_magic : ℕ
  pub s_root : Option Inode

-- A number of 8 bytes at a place of a block.
abbrev pub uint64_at : Mount → ℕ → ℕ → ℕ
uint64_at h block place = le_number (read_bytes h.b_data block place 8)

-- From the choice of the root inode on. The root has no size of its own.
unfoldable pub make_root : Mount → SuperBlock → ℤ × SuperBlock
make_root h sb = elim (h.iget_locked singlefilefs_root_inode_number) [
  | none ↦ (neg_enomem, sb)
  | some is_new ↦
      let root_inode : Inode = record {
        i_ino = singlefilefs_root_inode_number;
        i_mode = s_ifdir + permissions;
        i_size = 0;
        is_new = false;
      } in
      if not h.d_make_root
      then (neg_enomem, record sb { s_root = none })
      else (pos 0, record sb { s_root = some root_inode })
]

-- The code tests `sb` and not `bh`: a block that cannot be read is a fault (`none`).
unfoldable pub singlefilefs_fill_super : Mount → SuperBlock → Option ℤ × SuperBlock
singlefilefs_fill_super h sb =
    let sb' = record sb { s_magic = magic_number } in
    if not (h.sb_bread sb_block_number)
    then (none, sb')
    else if not (uint64_at h sb_block_number 8 == sb'.s_magic)
    then (some neg_ebadf, sb')
    else (some (make_root h sb').0, (make_root h sb').1)

-- What the kernel does with a file system, on a state of its own: its registration, the mounting of
-- a block device, by the function that fills the super block, and the end of a super block.
pub record Vfs (S : Type 0) : Type 0 where
  pub register_filesystem : S → ℤ × S
  pub unregister_filesystem : S → ℤ × S
  pub mount_bdev : (Mount → SuperBlock → Option ℤ × SuperBlock) → S → ℤ × S
  pub kill_block_super : S → S

module _ {S : Type 0} (v : Vfs S) where
  unfoldable pub singlefilefs_init : S → ℤ × S
  singlefilefs_init s = v.register_filesystem s

  -- What comes of it is only printed.
  unfoldable pub singlefilefs_exit : S → S
  singlefilefs_exit s = (v.unregister_filesystem s).1

  -- The value is what `ERR_PTR` carries, or 0 for a dentry.
  unfoldable pub singlefilefs_mount : S → ℤ × S
  singlefilefs_mount s = v.mount_bdev singlefilefs_fill_super s

  unfoldable pub singlefilefs_kill_superblock : S → S
  singlefilefs_kill_superblock s = v.kill_block_super s

-- The dentry that was looked for: its inode, and the references to it.
pub record Child : Type 0 where
  pub d_inode : Option Inode
  pub d_count : ℕ

-- What a lookup returns: NULL, an error, or the dentry that it was given.
pub data Lookup : Type 0 where
  no_dentry : Lookup
  error_pointer : ℤ → Lookup
  child_dentry : Lookup

-- For an inode that was not cached: its size is that of the inode on the device.
unfoldable pub fill_inode : Mount → Child → Lookup × Child
fill_inode h d =
    if not (h.sb_bread singlefilefs_inodes_block_number) then (error_pointer neg_eio, d) else (
      child_dentry,
      record {
        d_inode = some (record {
          i_ino = singlefilefs_file_inode_number;
          i_mode = s_ifreg + permissions;
          i_size = uint64_at h singlefilefs_inodes_block_number 24;
          is_new = false;
        });
        d_count = d.d_count + 1;
      },
    )

unfoldable pub onefilefs_lookup : Mount → Str → Child → Lookup × Child
onefilefs_lookup h name d =
    if not (strcmp_is_zero name (codes refmon_file_log))
    then (no_dentry, d)
    else elim (h.iget_locked singlefilefs_file_inode_number) [
      | none ↦ (error_pointer neg_enomem, d)
      | some false ↦ (child_dentry, d)
      | some true ↦ fill_inode h d
    ]
