-- ===== src/Syscalls/State.antt =====
-- The system call that sets the state.
use refmon.Prelude.{◌≡◌, false, none, some, pos, arith, neg_einval, neg_eacces, ◌==◌, if◌then◌else◌}
use refmon.CStr.{Str}
use refmon.Kernel.{Kernel}
use refmon.Model.{string_to_state, is_state_valid, is_on, is_off}
use refmon.Probing.{probing_update, probing_on, probing_off}
use refmon.Safety.Decision.{safety_checks-root}
use refmon.World.{World, locked}
use refmon.Handlers.{with_instance_lock, set_state_body, set_state, do_set_state}
use refmon.Syscalls.{sys_set_state, syscall}

-- The world with another state, and the probes switched to fit it.
abbrev pub with_state : Kernel → Str → World → World
with_state k s w =
    let i = record w.instance { state = string_to_state s } in
    record w { instance = i; probes = (probing_update k.kprobes (is_on i) w.probes).1 }

set_state_body_lem :
    (k : Kernel) (s : Str) (w : World)
    → set_state_body k (some s) w ≡ (
        if k.current_euid == 0
        then if is_state_valid s then (some (pos 0), with_state k s w) else (some neg_einval, w)
        else (some neg_eacces, w))
unfolding set_state_body set_state probing_update probing_on probing_off
set_state_body_lem k s w = ground (arith, safety_checks-root k w.instance none w.calls)

-- Setting the state never fails otherwise: EACCES without root, EINVAL for a text that is no
-- state, and else the new state with the probes switched to fit it; nothing else changes.
pub sys_set_state_lem :
    (k : Kernel) (s : Str) (w : World)
    → w.instance.spinlock_inst ≡ false
    → syscall k (sys_set_state (some s)) w ≡ (
        if k.current_euid == 0
        then if is_state_valid s then (some (pos 0), with_state k s w) else (some neg_einval, w)
        else (some neg_eacces, w))
unfolding syscall do_set_state with_instance_lock is_on is_off
sys_set_state_lem k s w free = ground (arith, set_state_body_lem k s (locked w))
