-- ===== src/Syscalls/Atomic.antt =====
-- A system call that returns an error has changed nothing.
use refmon.Prelude.{
  ℕ, ◌≡◌, ◌⊎◌, inl, inr, true, false, Option, none, some, ℤ, pos, is_zero, arith, Option-cases,
}
use refmon.CStr.{Str}
use refmon.Kernel.{Memory, FileSystem, Kernel}
use refmon.Model.{Registry}
use refmon.AddFile.{add_file}
use refmon.AddFile.Outcome.{refused, appended, add_file-Added}
use refmon.Probing.{probing_update, probing_on, probing_off}
use refmon.Safety.{all_checks, safety_checks, sanitize_user_input_alloc}
use refmon.World.{World, Run}
use refmon.Handlers.{
  set_state_body, set_state, reconf_add_body, reconf_rm_body, flush_body, with_instance_lock,
  do_set_state, do_reconf_add, do_reconf_rm, do_flush_registry,
}
use refmon.Syscalls.{Syscall, sys_set_state, sys_reconf_add, sys_reconf_rm, sys_flush, syscall}

-- An error of the body has left the instance and the probes as they were.
abbrev Keeps : Run ℤ → Type 0
Keeps body =
    (w : World) (ret : ℤ)
    → (body w).0 ≡ some ret
    → is_zero ret ≡ false
    → ((body w).1.instance ≡ w.instance)
      × ((body w).1.probes ≡ w.probes)
      × ((body w).1.work ≡ w.work)

set_state-Keeps : (k : Kernel) (s : Option Str) → Keeps (set_state_body k s)
unfolding set_state_body set_state probing_update probing_on probing_off
set_state-Keeps k none w ret h e = ground arith
set_state-Keeps k (some s) w ret h e = ground arith

add_file_error :
    (m : Memory) (f : FileSystem) (registry : Registry) (path : Str) (n : ℕ)
    → ((add_file m f registry path n).0.0 ≡ pos 0) ⊎ ((add_file m f registry path n).0.1 ≡ registry)
add_file_error m f registry path n = elim (add_file-Added m f registry path n) [
  | refused err same ↦ inr same
  | appended e ie ok grown ↦ inl ok
]

reconf_add-Keeps : (k : Kernel) (p q : Option Str) → Keeps (reconf_add_body k p q)
unfolding reconf_add_body
reconf_add-Keeps k p q w ret h e =
    let checked = safety_checks k w.instance all_checks q w.calls in
    let sanitized = sanitize_user_input_alloc k.memory p checked.1 in
    let added = λ (s : Str). add_file_error k.memory k.files w.instance.registry s sanitized.1 in
    elim (Option-cases sanitized.0) [
      | inl x ↦ ground arith
      | inr (o, x) ↦ elim (Option-cases o) [
        | inl y ↦ ground arith
        | inr (s, y) ↦ ground (arith, added s)
      ]
    ]

reconf_rm-Keeps : (k : Kernel) (p q : Option Str) → Keeps (reconf_rm_body k p q)
unfolding reconf_rm_body
reconf_rm-Keeps k p q w ret h e = ground arith

flush-Keeps : (k : Kernel) (p : Option Str) → Keeps (flush_body k p)
unfolding flush_body
flush-Keeps k p w ret h e = ground arith

with_instance_lock-Keeps : (body : Run ℤ) → Keeps body → Keeps (with_instance_lock body)
unfolding with_instance_lock
with_instance_lock-Keeps body keeps w ret h e =
    let w' = record w { instance = record w.instance { spinlock_inst = true } } in
    ground (arith, keeps w' ret)

-- A system call that returns anything but 0 has changed neither the instance nor the probes nor
-- the queue of deferred work.
pub syscall_error_keeps :
    (k : Kernel) (c : Syscall) (w : World) (ret : ℤ)
    → (syscall k c w).0 ≡ some ret
    → is_zero ret ≡ false
    → ((syscall k c w).1.instance ≡ w.instance)
      × ((syscall k c w).1.probes ≡ w.probes)
      × ((syscall k c w).1.work ≡ w.work)
unfolding syscall do_set_state do_reconf_add do_reconf_rm do_flush_registry
syscall_error_keeps k (sys_set_state s) =
    with_instance_lock-Keeps (set_state_body k s) (set_state-Keeps k s)
syscall_error_keeps k (sys_reconf_add p q) =
    with_instance_lock-Keeps (reconf_add_body k p q) (reconf_add-Keeps k p q)
syscall_error_keeps k (sys_reconf_rm p q) =
    with_instance_lock-Keeps (reconf_rm_body k p q) (reconf_rm-Keeps k p q)
syscall_error_keeps k (sys_flush p) = with_instance_lock-Keeps (flush_body k p) (flush-Keeps k p)
