-- ===== src/Kernel.antt =====
-- The Linux kernel as the module's code (misc/, syscalls/, probing/) calls it: none of it is in the
-- repository, so every operation is a field that the model takes as a parameter.
-- A call that can fail from one moment to the next (an allocation, a step of the hash) is indexed
-- by the number of such calls made before it; `Alloc` is the monad that counts them. What one run
-- of an operation sees of the file system and of the calling task does not change during that run.
pub mod Documented
use refmon.Prelude.{ℕ, ◌+◌, String, Bool, true, false, Option, List, ℤ, if◌then◌else◌}
use refmon.CStr.{Str}

-- The entry handlers that the probes name.
pub data Hook : Type 0 where
  krp_hook_open krp_hook_rm krp_hook_mkdir : Hook

-- What `struct kretprobe` holds of interest: the return handler is krp_hook_tail in every probe,
-- and `disabled` is KPROBE_FLAG_DISABLED in `kp.flags`.
pub record Kretprobe : Type 0 where
  pub symbol_name : String
  pub entry_handler : Hook
  pub maxactive : ℕ
  pub disabled : Bool

pub record Memory : Type 0 where
  -- Does the allocation with this number succeed?
  pub kmalloc : ℕ → Bool
  -- The number of bytes that could not be copied.
  pub copy_from_user : Str → ℕ → ℕ
  -- What is read from memory that has been freed, where this string stood in it, once this many
  -- calls have been numbered; `none` for a fault.
  pub read_freed : ℕ → Str → Option Str

-- A dentry is a number.
pub record FileSystem : Type 0 where
  -- The dentry that the path leads to, with these lookup flags; `none` for an error.
  pub kern_path : Str → ℕ → Option ℕ
  pub is_dir_inode : ℕ → Bool
  pub i_ino : ℕ → ℕ
  -- The path of a dentry in a buffer of this size; `none` for an error pointer.
  pub dentry_path_raw : ℕ → ℕ → Option Str
  -- The path of the calling task's working directory, likewise.
  pub pwd_path : ℕ → Option Str

pub record Crypto : Type 0 where
  pub crypto_alloc_shash : ℕ → Bool
  pub crypto_shash_init : ℕ → ℤ
  pub crypto_shash_update : ℕ → ℤ
  pub crypto_shash_final : ℕ → ℤ
  -- The digest of all the bytes fed between `init` and `final`.
  pub sha256 : Str → List ℕ

pub record Kprobes : Type 0 where
  pub enable_kretprobe : Kretprobe → Kretprobe
  pub disable_kretprobe : Kretprobe → Kretprobe

pub record Kernel : Type 0 where
  pub memory : Memory
  pub files : FileSystem
  pub crypto : Crypto
  pub kprobes : Kprobes
  -- The calling task.
  pub current_euid : ℕ
  pub current_uid : ℕ
  pub task_tgid : ℕ
  pub task_pid : ℕ
  pub exe_file_dentry : ℕ
  -- The register rax with its old value and the value to return, and its value afterwards.
  pub regs_set_return_value : ℕ → ℤ → ℕ

-- A computation that makes numbered calls.
abbrev pub Alloc : Type 0 → Type 0
Alloc A = ℕ → A × ℕ

abbrev pub pure : {A : Type 0} → A → Alloc A
pure a n = (a, n)

infixl 5 ◌>>=◌
abbrev pub ◌>>=◌ : {A B : Type 0} → Alloc A → (A → Alloc B) → Alloc B
◌>>=◌ m f n = let (a, n') = m n in f a n'

-- One numbered call, with the result that `answers` has at its number.
abbrev pub call : {A : Type 0} → (ℕ → A) → Alloc A
call answers n = (answers n, n + 1)
