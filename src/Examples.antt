-- ===== src/Examples.antt =====
-- Concrete inputs for the theorems: a small kernel, a registry and a world, and runs of the code of
-- syscalls/, misc/ and probing/ on them.
mod Calls
mod Parts
mod Boot
mod Disk
mod Tools
mod Log
mod Readers
mod Locking
mod Shown
use refmon.Prelude.{
  ℕ, ◌+◌, ◌≡◌, refl, Bool, true, false, Option, none, some, List, [], ◌∷◌, ℤ, pos, arith, ◌==◌,
  if◌then◌else◌,
}
use refmon.CStr.{Str, codes, match_string, strlen}
use refmon.CStr.Match.{match_string_refl}
use refmon.Kernel.{Memory, FileSystem, Crypto, Kprobes, Kernel, Kretprobe}
use refmon.Kernel.Documented.{MemoryWorks, CryptoWorks, KprobesWork, PathsAbsolute}
use refmon.Model.{Registry, RegistryEntry, rec_on}
use refmon.Misc.{hexconv}
use refmon.Probing.{Probes, initial_probes}
use refmon.AddFile.Invariant.{WellFormed}
use refmon.World.{World}
use refmon.Syscalls.Tables.{Works}
use refmon.System.{Healthy}

abbrev pub file_path : Str
file_path = codes "/f"

abbrev pub dir_path : Str
dir_path = codes "/d"

abbrev pub memory : Memory
memory = record { kmalloc = λ n. true; copy_from_user = λ s n. 0; read_freed = λ n s. some s }

-- "/f" is a file and "/d" a directory, which is also the working directory.
abbrev pub files : FileSystem
files = record {
  kern_path = λ p flags.
      if match_string p file_path then some 5 else if match_string p dir_path then some 6 else none;
  is_dir_inode = λ d. d == 6;
  i_ino = λ d. d + 100;
  dentry_path_raw = λ d n. if d == 5 then some file_path else some dir_path;
  pwd_path = λ n. some dir_path;
}

-- A digest that shows the length of the text.
abbrev pub crypto : Crypto
crypto = record {
  crypto_alloc_shash = λ n. true;
  crypto_shash_init = λ n. pos 0;
  crypto_shash_update = λ n. pos 0;
  crypto_shash_final = λ n. pos 0;
  sha256 = λ s. strlen s ∷ [];
}

abbrev pub kprobes : Kprobes
kprobes = record {
  enable_kretprobe = λ q. record q { disabled = false };
  disable_kretprobe = λ q. record q { disabled = true };
}

abbrev pub root : Kernel
root = record {
  memory = memory;
  files = files;
  crypto = crypto;
  kprobes = kprobes;
  current_euid = 0;
  current_uid = 1000;
  task_tgid = 7;
  task_pid = 8;
  exe_file_dentry = 5;
  regs_set_return_value = λ ax rc. 18446744073709551603;
}

pub memory_works : MemoryWorks memory
memory_works = record { kmalloc = λ n. refl; copy_from_user = λ s n. refl }

pub crypto_works : CryptoWorks crypto
crypto_works = record { alloc = λ n. refl; init = λ n. refl; update = λ n. refl; final = λ n. refl }

pub kprobes_work : KprobesWork kprobes
kprobes_work = record { enable = λ q. refl; disable = λ q. refl }

pub paths_absolute : PathsAbsolute files
paths_absolute = record {
  dentry_path_raw = λ d n s h. ground arith;
  pwd_path = λ n s h. ground arith;
}

pub works : Works root
works = record { memory = memory_works; crypto = crypto_works; paths = paths_absolute }

pub healthy : Healthy root
healthy = record { memory = memory_works; paths = paths_absolute; kprobes = kprobes_work }

abbrev pub password : Str
password = codes "ciao"

abbrev pub dir_entry : RegistryEntry
dir_entry = record {
  registered = record { path = dir_path; ino_no = 106 };
  resolved = record { path = dir_path; ino_no = 106 };
}

abbrev pub one_entry : Registry
one_entry = dir_entry ∷ []

pub one_entry-WellFormed : WellFormed one_entry
one_entry-WellFormed = record {
  good = ((refl, refl, (λ e. omega arith), (λ e. omega arith)), tt);
  distinct = (tt, tt);
}

-- "04" is the print of the digest of the password.
abbrev pub reconf : Registry → World
reconf registry = record {
  instance = record {
    state = rec_on;
    registry = registry;
    password = codes "04";
    spinlock_inst = false;
    spinlock_probing = false;
  };
  probes = initial_probes;
  work = [];
  calls = 0;
}
