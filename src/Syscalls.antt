-- ===== src/Syscalls.antt =====
-- syscalls/syscalls.c: the four system calls that the module adds, each of which hands its
-- arguments to its handler. A `char *` argument may be NULL.
pub mod Lock
pub mod Atomic
pub mod Authority
pub mod Tables
pub mod RoundTrip
pub mod State
use refmon.Prelude.{Option, ℤ}
use refmon.CStr.{Str}
use refmon.Kernel.{Kernel}
use refmon.World.{Run}
use refmon.Handlers.{do_set_state, do_reconf_add, do_reconf_rm, do_flush_registry}

pub data Syscall : Type 0 where
  sys_set_state : Option Str → Syscall
  sys_reconf_add : Option Str → Option Str → Syscall
  sys_reconf_rm : Option Str → Option Str → Syscall
  sys_flush : Option Str → Syscall

unfoldable pub syscall : Kernel → Syscall → Run ℤ
syscall k (sys_set_state new_state) = do_set_state k new_state
syscall k (sys_reconf_add path password) = do_reconf_add k path password
syscall k (sys_reconf_rm path password) = do_reconf_rm k path password
syscall k (sys_flush password) = do_flush_registry k password
