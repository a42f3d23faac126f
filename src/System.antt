-- ===== src/System.antt =====
-- The module as it runs: system calls and probe handlers, one after the other, from the state that
-- the initialisation leaves (refmon.c, syscalls/, probing/). Each step has its own kernel, so the
-- file system, the callers and what fails may differ from step to step.
pub mod Formed
pub mod Invariant
pub mod Audit
use refmon.Prelude.{ℕ, ◌≡◌, false, Option, none, some, [], ℤ}
use refmon.CStr.{Str}
use refmon.Kernel.{Kernel}
use refmon.Kernel.Documented.{MemoryWorks, PathsAbsolute, KprobesWork}
use refmon.Model.{off}
use refmon.Probing.{initial_probes}
use refmon.Hooks.{krp_hook_open, krp_hook_rm, krp_hook_mkdir, krp_hook_tail}
use refmon.World.{World}
use refmon.Syscalls.{Syscall, syscall}

-- Allocations succeed, and the rest of the kernel does what it documents. The hash may fail.
pub record Healthy (k : Kernel) : Type 0 where
  pub memory : MemoryWorks k.memory
  pub paths : PathsAbsolute k.files
  pub kprobes : KprobesWork k.kprobes

-- A step that returns. An entry handler changes only the count of the kernel's calls.
pub data Step (w u : World) : Type 0 where
  call :
      (k : Kernel) (c : Syscall) (ret : ℤ)
      → Healthy k
      → (syscall k c w).0 ≡ some ret
      → u ≡ (syscall k c w).1
      → Step w u
  refuse :
      (k : Kernel) (ax : ℕ) (out : ℤ × ℕ)
      → (krp_hook_tail k ax w).0 ≡ some out
      → u ≡ (krp_hook_tail k ax w).1
      → Step w u
  entry : (calls : ℕ) → u ≡ record w { calls = calls } → Step w u

pub data Reach (w : World) : World → Type 0 where
  here : Reach w w
  next : {u v : World} → Reach w u → Step u v → Reach w v

-- After `init_instance` and `init_password`, with the probes as they are declared.
abbrev pub initial : Str → World
initial password = record {
  instance = record {
    state = off;
    registry = [];
    password = password;
    spinlock_inst = false;
    spinlock_probing = false;
  };
  probes = initial_probes;
  work = [];
  calls = 0;
}
