-- ===== src/Syscalls/Lock.antt =====
-- The instance lock around the system calls.
use refmon.Prelude.{◌≡◌, true, false, none, some, ℤ, arith}
use refmon.Kernel.{Kernel}
use refmon.World.{World, Run}
use refmon.Handlers.{
  with_instance_lock, set_state_body, reconf_add_body, reconf_rm_body, flush_body, do_set_state,
  do_reconf_add, do_reconf_rm, do_flush_registry,
}
use refmon.Syscalls.{Syscall, sys_set_state, sys_reconf_add, sys_reconf_rm, sys_flush, syscall}

with_instance_lock_releases :
    (body : Run ℤ) (w : World) (ret : ℤ)
    → (with_instance_lock body w).0 ≡ some ret
    → (w.instance.spinlock_inst ≡ false)
      × ((with_instance_lock body w).1.instance.spinlock_inst ≡ false)
unfolding with_instance_lock
with_instance_lock_releases body w ret h = ground arith

with_instance_lock_held :
    (body : Run ℤ) (w : World)
    → w.instance.spinlock_inst ≡ true
    → with_instance_lock body w ≡ (none, w)
unfolding with_instance_lock
with_instance_lock_held body w h = ground arith

-- Each system call that returns found the lock free and leaves it free, on every path.
pub syscall_releases :
    (k : Kernel) (c : Syscall) (w : World) (ret : ℤ)
    → (syscall k c w).0 ≡ some ret
    → (w.instance.spinlock_inst ≡ false) × ((syscall k c w).1.instance.spinlock_inst ≡ false)
unfolding syscall do_set_state do_reconf_add do_reconf_rm do_flush_registry
syscall_releases k (sys_set_state s) w ret h =
    with_instance_lock_releases (set_state_body k s) w ret h
syscall_releases k (sys_reconf_add p q) w ret h =
    with_instance_lock_releases (reconf_add_body k p q) w ret h
syscall_releases k (sys_reconf_rm p q) w ret h =
    with_instance_lock_releases (reconf_rm_body k p q) w ret h
syscall_releases k (sys_flush p) w ret h = with_instance_lock_releases (flush_body k p) w ret h
