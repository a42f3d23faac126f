-- ===== src/Syscalls/Authority.antt =====
-- Who may do what.
use refmon.Prelude.{ℕ, ◌≡◌, true, Option, none, some, ℤ, pos, arith, ◌≢◌, []}
use refmon.CStr.{Str}
use refmon.Kernel.{Kernel}
use refmon.Model.{Instance, is_reconf}
use refmon.Safety.{
  all_checks, safety_checks, root_check, reconf_check, password_check, sanitize_user_input_alloc,
}
use refmon.Safety.Decision.{hash, safety_checks_sound, safety_checks-root}
use refmon.World.{World, Run, locked}
use refmon.Handlers.{
  set_state_body, reconf_add_body, reconf_rm_body, flush_body, with_instance_lock, do_set_state,
  do_reconf_add, do_reconf_rm, do_flush_registry,
}
use refmon.Syscalls.{Syscall, sys_set_state, sys_reconf_add, sys_reconf_rm, sys_flush, syscall}

-- The task is root, the state is reconfigurable, and the password has the stored hash.
abbrev pub Authorised : Kernel → Instance → Option Str → Type 0
Authorised k i none = ⊥
Authorised k i (some p) =
    (k.current_euid ≡ 0) × (is_reconf i ≡ true) × (p ≢ []) × (hash k p ≡ i.password)

-- What a call needs before it may succeed: a change of state needs root alone.
abbrev pub MayRun : Kernel → Instance → Syscall → Type 0
MayRun k i (sys_set_state s) = k.current_euid ≡ 0
MayRun k i (sys_reconf_add path password) = Authorised k i password
MayRun k i (sys_reconf_rm path password) = Authorised k i password
MayRun k i (sys_flush password) = Authorised k i password

safety_checks-Authorised :
    (k : Kernel) (i : Instance) (p : Option Str) (n : ℕ)
    → (safety_checks k i all_checks p n).0 ≡ some (pos 0)
    → Authorised k i p
unfolding safety_checks root_check reconf_check password_check sanitize_user_input_alloc
safety_checks-Authorised k i none n h = ground arith
safety_checks-Authorised k i (some p) n h = safety_checks_sound k i p n h

reconf_add_passes :
    (k : Kernel) (p q : Option Str) (w : World)
    → (reconf_add_body k p q w).0 ≡ some (pos 0)
    → (safety_checks k w.instance all_checks q w.calls).0 ≡ some (pos 0)
unfolding reconf_add_body
reconf_add_passes k p q w h = ground arith

reconf_rm_passes :
    (k : Kernel) (p q : Option Str) (w : World)
    → (reconf_rm_body k p q w).0 ≡ some (pos 0)
    → (safety_checks k w.instance all_checks q w.calls).0 ≡ some (pos 0)
unfolding reconf_rm_body
reconf_rm_passes k p q w h = ground arith

flush_passes :
    (k : Kernel) (q : Option Str) (w : World)
    → (flush_body k q w).0 ≡ some (pos 0)
    → (safety_checks k w.instance all_checks q w.calls).0 ≡ some (pos 0)
unfolding flush_body
flush_passes k q w h = ground arith

set_state_passes :
    (k : Kernel) (s : Option Str) (w : World)
    → (set_state_body k s w).0 ≡ some (pos 0)
    → k.current_euid ≡ 0
unfolding set_state_body
set_state_passes k s w h = ground (arith, safety_checks-root k w.instance none w.calls)

-- Under the lock the checks read the same state and the same password.
locked-Authorised :
    (k : Kernel) (w : World) (p : Option Str)
    → Authorised k (locked w).instance p
    → Authorised k w.instance p
unfolding is_reconf
locked-Authorised k w none h = h
locked-Authorised k w (some p) h = h

with_instance_lock_body :
    (body : Run ℤ) (w : World) (ret : ℤ)
    → (with_instance_lock body w).0 ≡ some ret
    → (body (locked w)).0 ≡ some ret
unfolding with_instance_lock
with_instance_lock_body body w ret h = ground arith

-- A system call that returns 0 was made by root, and unless it sets the state, in a
-- reconfigurable state with a password whose hash is the stored one.
pub syscall-MayRun :
    (k : Kernel) (c : Syscall) (w : World)
    → (syscall k c w).0 ≡ some (pos 0)
    → MayRun k w.instance c
unfolding syscall do_set_state do_reconf_add do_reconf_rm do_flush_registry
syscall-MayRun k (sys_set_state s) w h =
    set_state_passes k s (locked w) (with_instance_lock_body (set_state_body k s) w (pos 0) h)
syscall-MayRun k (sys_reconf_add p q) w h =
    let done = with_instance_lock_body (reconf_add_body k p q) w (pos 0) h in
    locked-Authorised k w q (
      safety_checks-Authorised k (locked w).instance q w.calls
        (reconf_add_passes k p q (locked w) done))
syscall-MayRun k (sys_reconf_rm p q) w h =
    let done = with_instance_lock_body (reconf_rm_body k p q) w (pos 0) h in
    locked-Authorised k w q (
      safety_checks-Authorised k (locked w).instance q w.calls
        (reconf_rm_passes k p q (locked w) done))
syscall-MayRun k (sys_flush q) w h =
    let done = with_instance_lock_body (flush_body k q) w (pos 0) h in
    locked-Authorised k w q
      (safety_checks-Authorised k (locked w).instance q w.calls (flush_passes k q (locked w) done))
