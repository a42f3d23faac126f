-- ===== src/Kernel/Documented.antt =====
-- What the code relies on in the kernel, as hypotheses for the theorems that need them.
use refmon.Prelude.{ℕ, ◌<◌, ◌≡◌, true, false, some, pos, length, All}
use refmon.CStr.{Str, char_at}
use refmon.Kernel.{Kretprobe, Memory, FileSystem, Crypto, Kprobes}

-- No allocation fails, and user memory can be read.
pub record MemoryWorks (m : Memory) : Type 0 where
  pub kmalloc : (n : ℕ) → m.kmalloc n ≡ true
  pub copy_from_user : (s : Str) (n : ℕ) → m.copy_from_user s n ≡ 0

-- No step of the hash fails.
pub record CryptoWorks (c : Crypto) : Type 0 where
  pub alloc : (n : ℕ) → c.crypto_alloc_shash n ≡ true
  pub init : (n : ℕ) → c.crypto_shash_init n ≡ pos 0
  pub update : (n : ℕ) → c.crypto_shash_update n ≡ pos 0
  pub final : (n : ℕ) → c.crypto_shash_final n ≡ pos 0

-- A digest is a list of 32 bytes.
pub record Sha256Bytes (c : Crypto) : Type 0 where
  pub size : (s : Str) → length (c.sha256 s) ≡ 32
  pub bytes : (s : Str) → All (λ b. b < 256) (c.sha256 s)

-- Enabling a probe clears its flag and disabling sets it; nothing else of it changes.
pub record KprobesWork (p : Kprobes) : Type 0 where
  pub enable : (q : Kretprobe) → p.enable_kretprobe q ≡ record q { disabled = false }
  pub disable : (q : Kretprobe) → p.disable_kretprobe q ≡ record q { disabled = true }

-- A path that begins at the root.
abbrev pub IsAbsolute : Str → Type 0
IsAbsolute s = char_at s 0 ≡ b'/'

-- The kernel prints paths from the root.
pub record PathsAbsolute (f : FileSystem) : Type 0 where
  pub dentry_path_raw : (d n : ℕ) (s : Str) → f.dentry_path_raw d n ≡ some s → IsAbsolute s
  pub pwd_path : (n : ℕ) (s : Str) → f.pwd_path n ≡ some s → IsAbsolute s
