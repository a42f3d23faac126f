-- ===== src/Handlers.antt =====
-- syscalls/syscalls-handlers.c: the system calls.
-- The body of each call stands between the lock and the `tail` label that releases it; an early
-- `goto tail` is a branch that returns. Memory that the code does not free is not tracked.
use refmon.Prelude.{
  ℕ, Bool, true, false, not, Option, none, some, [], ◌∷◌, ℤ, pos, is_zero, if◌then◌else◌,
  neg_enoent, neg_einval, erase_idx,
}
use refmon.CStr.{Str}
use refmon.Kernel
use refmon.Kernel.{Kernel}
use refmon.Model.{Registry, Instance, string_to_state, is_state_valid, is_on}
use refmon.FsUtils.{ignore_absolute_paths, resolve_path_alloc, find_entry_by_regpath_alloc}
use refmon.AddFile.{add_file}
use refmon.Safety.{check_root, all_checks, sanitize_user_input_alloc, safety_checks}
use refmon.Probing.{probing_update}
use refmon.World.{
  Run, pure, ◌>>=◌, ◌>>◌, lift, lift_total, fault, spin_instance_lock, spin_instance_unlock,
}

-- `_set_state`
unfoldable pub set_state : Kernel → Str → Run ℤ
set_state k new_state w =
    let i = record w.instance { state = string_to_state new_state } in
    let (ret, probes) = probing_update k.kprobes (is_on i) w.probes in
    (some ret, record w { instance = i; probes = probes })

-- The end of a system call: the lock is released at `tail`.
unfoldable pub with_instance_lock : Run ℤ → Run ℤ
unfolding spin_instance_lock spin_instance_unlock
with_instance_lock body = do spin_instance_lock; ret ← body; spin_instance_unlock; pure ret

unfoldable pub set_state_body : Kernel → Option Str → Run ℤ
set_state_body k new_state = do
  ret ← lift (λ i. safety_checks k i check_root none)
  if not (is_zero ret) then pure ret else elim new_state [
    | none ↦ fault
    | some s ↦ if not (is_state_valid s) then pure neg_einval else set_state k s
  ]

unfoldable pub do_set_state : Kernel → Option Str → Run ℤ
unfolding with_instance_lock
do_set_state k new_state = with_instance_lock (set_state_body k new_state)

-- Calls `_add_file`, which works on the registry of the instance.
unfoldable pub run_add_file : Kernel → Str → Run ℤ
run_add_file k path w =
    let ((ret, registry), n) = add_file k.memory k.files w.instance.registry path w.calls in
    (some ret, record w { instance = record w.instance { registry = registry }; calls = n })

-- `list_del`, at the place of the node.
unfoldable pub list_del : ℕ → Run (Unit {0})
list_del i w =
    let registry = erase_idx w.instance.registry i in
    (some tt, record w { instance = record w.instance { registry = registry } })

unfoldable pub reconf_add_body : Kernel → Option Str → Option Str → Run ℤ
unfolding run_add_file
reconf_add_body k path_in password_in = do
  ret ← lift (λ i. safety_checks k i all_checks password_in)
  if not (is_zero ret) then pure ret else do
    sanitized ← lift (λ i. sanitize_user_input_alloc k.memory path_in)
    elim sanitized [ none ↦ pure neg_einval | some safe_path ↦ run_add_file k safe_path ]

unfoldable pub do_reconf_add : Kernel → Option Str → Option Str → Run ℤ
unfolding with_instance_lock
do_reconf_add k path_in password_in = with_instance_lock (reconf_add_body k path_in password_in)

-- `find_entry_by_regpath_alloc(resolve_path_alloc(safe_path, …))`
unfoldable pub find_for_removal : Kernel → Str → Instance → Kernel.Alloc (Option ℕ)
find_for_removal k safe_path i n =
    let (resolved, n') =
      resolve_path_alloc k.memory k.files (some safe_path) ignore_absolute_paths n in
    find_entry_by_regpath_alloc k.memory k.files i.registry resolved n'

unfoldable pub reconf_rm_body : Kernel → Option Str → Option Str → Run ℤ
unfolding list_del
reconf_rm_body k path_in password_in = do
  ret ← lift (λ i. safety_checks k i all_checks password_in)
  if not (is_zero ret) then pure ret else do
    sanitized ← lift (λ i. sanitize_user_input_alloc k.memory path_in)
    elim sanitized [
      | none ↦ pure neg_einval
      | some safe_path ↦ do
        found ← lift_total (find_for_removal k safe_path)
        elim found [ none ↦ pure neg_enoent | some node ↦ do list_del node; pure (pos 0) ]
    ]

unfoldable pub do_reconf_rm : Kernel → Option Str → Option Str → Run ℤ
unfolding with_instance_lock
do_reconf_rm k path_in password_in = with_instance_lock (reconf_rm_body k path_in password_in)

-- `list_empty`
abbrev pub is_empty : Registry → Bool
is_empty [] = true
is_empty (node ∷ rest) = false

-- The loop `list_for_each_entry_safe` with `list_del`: each node in turn is unlinked at the head.
unfoldable pub unlink_each : Registry → Registry
unlink_each [] = []
unlink_each (node ∷ rest) = unlink_each rest

-- An empty list is left alone.
unfoldable pub flush_registry : Run ℤ
unfolding unlink_each
flush_registry w = if is_empty w.instance.registry then (some (pos 0), w) else (
  some (pos 0),
  record w { instance = record w.instance { registry = unlink_each w.instance.registry } },
)

unfoldable pub flush_body : Kernel → Option Str → Run ℤ
unfolding flush_registry
flush_body k password = do
  ret ← lift (λ i. safety_checks k i all_checks password)
  if not (is_zero ret) then pure ret else flush_registry

unfoldable pub do_flush_registry : Kernel → Option Str → Run ℤ
unfolding with_instance_lock
do_flush_registry k password = with_instance_lock (flush_body k password)
