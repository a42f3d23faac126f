-- ===== src/Startup/Shape.antt =====
-- What the initialisation of the module works on: the module's static variables, the kernel's
-- registrations, the words of memory around the system call table, and the kernel's calls.
use refmon.Prelude.{
  ℕ, String, Bool, false, Option, none, some, [], ℤ, pos, negsuc, ◌==◌, if◌then◌else◌,
}
use refmon.CStr.{Str}
use refmon.Kernel.{Memory, Crypto, Kretprobe}
use refmon.Model.{RefmonState, off, Registry}

-- io/files.h
abbrev pub file_syscallcodes : String
file_syscallcodes = "refmon-syscallcodes"

abbrev pub file_state : String
file_state = "refmon-state"

abbrev pub file_registry : String
file_registry = "refmon-list"

-- An array of HACKED_ENTRIES elements.
pub record Entries (A : Type 0) : Type 0 where
  pub entry_0 : A
  pub entry_1 : A
  pub entry_2 : A
  pub entry_3 : A

abbrev pub same_entries : {A : Type 0} → A → Entries A
same_entries a = record { entry_0 = a; entry_1 = a; entry_2 = a; entry_3 = a }

pub record RegisteredSyscallCodes : Type 0 where
  pub sc_code_set_state : ℤ
  pub sc_code_reconf_add : ℤ
  pub sc_code_reconf_rm : ℤ
  pub sc_code_flush : ℤ

-- What the kernel holds of the module: its /proc files and its probes.
pub record Present : Type 0 where
  pub syscallcodes : Bool
  pub state_file : Bool
  pub list_file : Bool
  pub vfs_open : Bool
  pub filp_open : Bool
  pub vfs_unlink : Bool
  pub vfs_mkdir : Bool
  pub vfs_rmdir : Bool

-- `table` is indexed from the start of the system call table, in words, and goes on below it.
pub record Loaded : Type 0 where
  pub password : Option Str
  pub state : RefmonState
  pub registry : Registry
  pub restore : Entries ℤ
  pub the_ni_syscall : ℕ
  pub syscall_codes : RegisteredSyscallCodes
  pub present : Present
  pub table : ℤ → ℕ
  pub calls : ℕ

-- What the module is given: the kernel's calls, the module parameter, the addresses of its four
-- system calls, and `get_entries` of lib/scth, which reads the table and yields how many entries it
-- found, which, and the address of sys_ni_syscall; `none` if it leaves its arguments alone.
pub record Host : Type 0 where
  pub memory : Memory
  pub crypto : Crypto
  pub proc_create : String → Bool
  pub register_kretprobe : Kretprobe → ℤ
  pub the_syscall_table : ℕ
  pub new_sys_call_array : Entries ℕ
  pub get_entries : (ℤ → ℕ) → ℕ → Option (ℕ × Entries ℤ × ℕ)

abbrev pub Boot : Type 0 → Type 0
Boot A = Loaded → Option A × Loaded

abbrev pub pure : {A : Type 0} → A → Boot A
pure a s = (some a, s)

infixl 5 ◌>>=◌ ◌>>◌
abbrev pub ◌>>=◌ : {A B : Type 0} → Boot A → (A → Boot B) → Boot B
◌>>=◌ m f s = let (r, s') = m s in elim r [ none ↦ (none, s') | some a ↦ f a s' ]

abbrev pub ◌>>◌ : {B : Type 0} → Boot (Unit {0}) → Boot B → Boot B
m >> n = m >>= λ _. n

abbrev pub same : ℤ → ℤ → Bool
same (pos a) (pos b) = a == b
same (pos a) (negsuc b) = false
same (negsuc a) (pos b) = false
same (negsuc a) (negsuc b) = a == b

-- A word is written.
abbrev pub store : (ℤ → ℕ) → ℤ → ℕ → ℤ → ℕ
store table at value i = if same i at then value else table i

abbrev pub nothing_present : Present
nothing_present = record {
  syscallcodes = false;
  state_file = false;
  list_file = false;
  vfs_open = false;
  filp_open = false;
  vfs_unlink = false;
  vfs_mkdir = false;
  vfs_rmdir = false;
}

-- The static variables as they are declared.
abbrev pub unloaded : (ℤ → ℕ) → Loaded
unloaded table = record {
  password = none;
  state = off;
  registry = [];
  restore = same_entries (negsuc 0);
  the_ni_syscall = 0;
  syscall_codes = record {
    sc_code_set_state = pos 0;
    sc_code_reconf_add = pos 0;
    sc_code_reconf_rm = pos 0;
    sc_code_flush = pos 0;
  };
  present = nothing_present;
  table = table;
  calls = 0;
}
