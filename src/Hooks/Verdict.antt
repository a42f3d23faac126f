-- ===== src/Hooks/Verdict.antt =====
-- When the entry handlers send a call to the tail hook.
use refmon.Prelude.{ℕ, ◌+◌, ◌%◌, bit_or, ◌≡◌, ◌≢◌, ◌↔◌, ◌⊎◌, Option, some, arith, Any}
use refmon.CStr.{Str}
use refmon.Kernel.{Memory, FileSystem}
use refmon.Kernel.Documented.{MemoryWorks, PathsAbsolute}
use refmon.Model.{PathIdentifier, Registry}
use refmon.FsUtils.{
  resolve_links, ignore_absolute_paths, no_ino_no, path_max, extract_ino_no_from_path,
  extract_path_from_dentry,
}
use refmon.FsUtils.Subpath.{IsCString}
use refmon.FsUtils.Search.{Covers, is_eligible_iff}
use refmon.FsUtils.Resolve.{canonical, resolve_path_alloc_works, canonical-IsAbsolute}
use refmon.AddFile.Invariant.{absolute_ne_nil}
use refmon.Hooks.{
  krp_to_tailhook, with_absolute_path, open_test, krp_hook_open, rm_test, krp_hook_rm, mkdir_test,
  krp_hook_mkdir, OpenRegs,
}
use refmon.Hooks.AccessMode.{is_write_acc_iff}

-- The registers at vfs_open.
abbrev pub at_vfs_open : ℕ → ℕ → OpenRegs
at_vfs_open dentry f_flags = record { path_dentry = some dentry; f_flags = some f_flags }

-- The dentry's path resolves to this path, and the buffer that held it still does when it is read
-- after it has been freed.
pub record Resolves (m : Memory) (f : FileSystem) (dentry flags : ℕ) (path : Str) : Type 0 where
  pub dentry_path : Str
  pub printed : f.dentry_path_raw dentry path_max ≡ some dentry_path
  pub kept : (n : ℕ) → m.read_freed n dentry_path ≡ some dentry_path
  pub resolved : canonical f dentry_path flags ≡ some path

module _ (m : Memory) (f : FileSystem) (dentry flags : ℕ) (use_path : Str → Option ℕ) where
  with_absolute_path_works :
      (path : Str) (n : ℕ)
      → MemoryWorks m
      → Resolves m f dentry flags path
      → (with_absolute_path m f dentry flags use_path n).0 ≡ use_path path
  unfolding with_absolute_path extract_path_from_dentry
  with_absolute_path_works path n mw r = ground (
    arith,
    mw.kmalloc n,
    resolve_path_alloc_works m f r.dentry_path flags (n + 1) mw,
    r.printed,
    r.kept (n + 1),
    r.resolved,
  )

module _ (m : Memory) (f : FileSystem) (registry : Registry) (dentry : ℕ) (path : Str)
    (mw : MemoryWorks m) (pa : PathsAbsolute f) (text : IsCString path) where
  abbrev names : ℕ → PathIdentifier
  names ino = record { path = path; ino_no = ino }

  -- If memory does not fail, the path of the file that vfs_open is called on resolves and is still in its
  -- freed buffer when it is read, an open is refused exactly if it is a write access and an entry of
  -- the registry covers the resolved path of its file or the inode there.
  pub krp_hook_open_iff :
      (f_flags n : ℕ)
      → Resolves m f dentry resolve_links path
      → ((krp_hook_open m f registry (at_vfs_open dentry f_flags) n).0 ≡ some krp_to_tailhook) ↔ (
          ((f_flags % 4 ≡ 1) ⊎ (f_flags % 4 ≡ 2))
          × Any (Covers f (names (extract_ino_no_from_path f path))) registry)
  unfolding krp_hook_open open_test
  krp_hook_open_iff f_flags n r =
      let at =
        with_absolute_path_works m f dentry resolve_links (open_test f registry (some f_flags)) path
          n mw r in
      let eligible = is_eligible_iff f registry (names (extract_ino_no_from_path f path)) text in
      let access = is_write_acc_iff f_flags in
      let ne =
        absolute_ne_nil path
          (canonical-IsAbsolute f r.dentry_path resolve_links path pa r.resolved) in
      ground arith

  -- A removal is refused exactly if the resolved path leads to an inode, and an entry of the
  -- registry covers the path or the inode.
  pub krp_hook_rm_iff :
      (n : ℕ)
      → Resolves m f dentry resolve_links path
      → ((krp_hook_rm m f registry dentry n).0 ≡ some krp_to_tailhook) ↔ (
          (extract_ino_no_from_path f path ≢ no_ino_no)
          × Any (Covers f (names (extract_ino_no_from_path f path))) registry)
  unfolding krp_hook_rm rm_test
  krp_hook_rm_iff n r =
      let at =
        with_absolute_path_works m f dentry resolve_links (λ p. some (rm_test f registry p)) path n
          mw r in
      let eligible = is_eligible_iff f registry (names (extract_ino_no_from_path f path)) text in
      let ne =
        absolute_ne_nil path
          (canonical-IsAbsolute f r.dentry_path resolve_links path pa r.resolved) in
      ground arith

  -- The making or removing of a directory is refused exactly if an entry of the registry covers
  -- its path, with no inode.
  pub krp_hook_mkdir_iff :
      (n : ℕ)
      → Resolves m f dentry (bit_or resolve_links ignore_absolute_paths) path
      → ((krp_hook_mkdir m f registry dentry n).0 ≡ some krp_to_tailhook)
        ↔ Any (Covers f (names no_ino_no)) registry
  unfolding krp_hook_mkdir mkdir_test
  krp_hook_mkdir_iff n r =
      let flags = bit_or resolve_links ignore_absolute_paths in
      let at =
        with_absolute_path_works m f dentry flags (λ p. some (mkdir_test f registry p)) path n mw
          r in
      let eligible = is_eligible_iff f registry (names no_ino_no) text in
      let ne =
        absolute_ne_nil path (canonical-IsAbsolute f r.dentry_path flags path pa r.resolved) in
      ground arith
