-- ===== src/Locking/Pieces.antt =====
-- The system calls of syscalls/syscalls-handlers.c, taken apart into what they do between the lock
-- and the `tail` label: the checks, the validation of the state, its store, the switch of the
-- probes, and the work on the registry.
use refmon.Prelude.{
  ap, sym, ◌∙◌, ℕ, ◌≡◌, refl, All, Option, none, some, List, [], ◌∷◌, ℤ, pos, not, if◌then◌else◌,
  neg_einval, neg_enoent, arith, Bool-cases, inl, inr,
}
use refmon.CStr.{Str}
use refmon.Kernel.{Kernel}
use refmon.Model.{string_to_state, is_state_valid, is_on}
use refmon.Safety.{check_root, all_checks, safety_checks, sanitize_user_input_alloc}
use refmon.Probing.{probing_update}
use refmon.World.{World, Run, pure, ◌>>=◌, ◌>>◌, lift, lift_total, fault}
use refmon.Handlers.{
  set_state, with_instance_lock, set_state_body, do_set_state, run_add_file, list_del,
  reconf_add_body, do_reconf_add, find_for_removal, reconf_rm_body, do_reconf_rm, flush_registry,
  flush_body, do_flush_registry,
}
use refmon.Syscalls.{Syscall, sys_set_state, sys_reconf_add, sys_reconf_rm, sys_flush, syscall}
use refmon.Locking.{Takes, taken, going, perform, finish, Parts}
use refmon.Locking.Sequence.{
  sequence, in_turn, RunKeepsLock, ends, perform-sequence, with_instance_lock-ends,
  sequence-KeepsLock,
}

abbrev safety : Kernel → ℕ → Option Str → Run ℤ
safety k checks password = lift (λ i. safety_checks k i checks password)

-- `is_state_valid`, behind the load of the first character.
abbrev validate : Option Str → Run ℤ
validate none = fault
validate (some s) = if not (is_state_valid s) then pure neg_einval else pure (pos 0)

abbrev store_state : Option Str → Run ℤ
store_state none w = (none, w)
store_state (some s) w =
    (some (pos 0), record w { instance = record w.instance { state = string_to_state s } })

abbrev switch_probes : Kernel → Run ℤ
switch_probes k w =
    let (ret, probes) = probing_update k.kprobes (is_on w.instance) w.probes in
    (some ret, record w { probes = probes })

abbrev add_work : Kernel → Option Str → Run ℤ
add_work k path_in = do
  sanitized ← lift (λ i. sanitize_user_input_alloc k.memory path_in)
  elim sanitized [ none ↦ pure neg_einval | some safe_path ↦ run_add_file k safe_path ]

abbrev rm_work : Kernel → Option Str → Run ℤ
rm_work k path_in = do
  sanitized ← lift (λ i. sanitize_user_input_alloc k.memory path_in)
  elim sanitized [
    | none ↦ pure neg_einval
    | some safe_path ↦ do
      found ← lift_total (find_for_removal k safe_path)
      elim found [ none ↦ pure neg_enoent | some node ↦ do list_del node; pure (pos 0) ]
  ]

-- The checks of a system call, in order, and the work behind them.
abbrev checks_of : Kernel → Syscall → List (Run ℤ)
checks_of k (sys_set_state new_state) =
    safety k check_root none ∷ validate new_state ∷ store_state new_state ∷ []
checks_of k (sys_reconf_add path password) = safety k all_checks password ∷ []
checks_of k (sys_reconf_rm path password) = safety k all_checks password ∷ []
checks_of k (sys_flush password) = safety k all_checks password ∷ []

abbrev work_of : Kernel → Syscall → Run ℤ
work_of k (sys_set_state new_state) = switch_probes k
work_of k (sys_reconf_add path password) = add_work k path
work_of k (sys_reconf_rm path password) = rm_work k path
work_of k (sys_flush password) = flush_registry

set_state-in_turn :
    (k : Kernel) (new_state : Option Str) (w : World)
    → in_turn (checks_of k (sys_set_state new_state)) (switch_probes k) w
      ≡ set_state_body k new_state w
unfolding set_state_body set_state
set_state-in_turn k none w = ground arith
set_state-in_turn k (some s) w = elim (Bool-cases (is_state_valid s)) [
  | inl valid ↦ rw valid (ground arith)
  | inr wrong ↦ rw wrong (ground arith)
]

reconf_add-in_turn :
    (k : Kernel) (path password : Option Str) (w : World)
    → in_turn (checks_of k (sys_reconf_add path password)) (add_work k path) w
      ≡ reconf_add_body k path password w
unfolding reconf_add_body
reconf_add-in_turn k path password w = refl

reconf_rm-in_turn :
    (k : Kernel) (path password : Option Str) (w : World)
    → in_turn (checks_of k (sys_reconf_rm path password)) (rm_work k path) w
      ≡ reconf_rm_body k path password w
unfolding reconf_rm_body
reconf_rm-in_turn k path password w = refl

flush-in_turn :
    (k : Kernel) (password : Option Str) (w : World)
    → in_turn (checks_of k (sys_flush password)) flush_registry w ≡ flush_body k password w
unfolding flush_body
flush-in_turn k password w = refl

abbrev body_of : Kernel → Syscall → Run ℤ
body_of k (sys_set_state new_state) = set_state_body k new_state
body_of k (sys_reconf_add path password) = reconf_add_body k path password
body_of k (sys_reconf_rm path password) = reconf_rm_body k path password
body_of k (sys_flush password) = flush_body k password

body_of-in_turn :
    (k : Kernel) (c : Syscall) (w : World) → in_turn (checks_of k c) (work_of k c) w ≡ body_of k c w
body_of-in_turn k (sys_set_state new_state) w = set_state-in_turn k new_state w
body_of-in_turn k (sys_reconf_add path password) w = reconf_add-in_turn k path password w
body_of-in_turn k (sys_reconf_rm path password) w = reconf_rm-in_turn k path password w
body_of-in_turn k (sys_flush password) w = flush-in_turn k password w

syscall-body_of : (k : Kernel) (c : Syscall) → syscall k c ≡ with_instance_lock (body_of k c)
unfolding syscall do_set_state do_reconf_add do_reconf_rm do_flush_registry
syscall-body_of k (sys_set_state new_state) = refl
syscall-body_of k (sys_reconf_add path password) = refl
syscall-body_of k (sys_reconf_rm path password) = refl
syscall-body_of k (sys_flush password) = refl

-- What a system call does under the lock is all that it does.
pub sequence-syscall :
    (k : Kernel) (c : Syscall) (w : World)
    → Takes w
    → finish (perform (sequence (checks_of k c) (work_of k c)) (taken w, going)) ≡ syscall k c w
sequence-syscall k c w free =
    perform-sequence (checks_of k c) (work_of k c) (taken w)
    ∙ ap ends (body_of-in_turn k c (taken w))
    ∙ sym (with_instance_lock-ends (body_of k c) w free)
    ∙ sym (ap (λ (m : Run ℤ). m w) (syscall-body_of k c))

add_work-KeepsLock : (k : Kernel) (path : Option Str) → RunKeepsLock (add_work k path)
unfolding run_add_file
add_work-KeepsLock k path w held = ground arith

rm_work-KeepsLock : (k : Kernel) (path : Option Str) → RunKeepsLock (rm_work k path)
unfolding list_del
rm_work-KeepsLock k path w held = ground arith

validate-KeepsLock : (s : Option Str) → RunKeepsLock (validate s)
validate-KeepsLock none w held = held
validate-KeepsLock (some s) w held = ground arith

store_state-KeepsLock : (s : Option Str) → RunKeepsLock (store_state s)
store_state-KeepsLock none w held = held
store_state-KeepsLock (some s) w held = held

flush-KeepsLock : RunKeepsLock flush_registry
unfolding flush_registry
flush-KeepsLock w held = ground arith

pub checks_of-KeepsLock : (k : Kernel) (c : Syscall) → All RunKeepsLock (checks_of k c)
checks_of-KeepsLock k (sys_set_state s) =
    (λ w held. held, (validate-KeepsLock s, (store_state-KeepsLock s, tt)))
checks_of-KeepsLock k (sys_reconf_add p q) = (λ w held. held, tt)
checks_of-KeepsLock k (sys_reconf_rm p q) = (λ w held. held, tt)
checks_of-KeepsLock k (sys_flush p) = (λ w held. held, tt)

pub work_of-KeepsLock : (k : Kernel) (c : Syscall) → RunKeepsLock (work_of k c)
work_of-KeepsLock k (sys_set_state s) = λ w held. held
work_of-KeepsLock k (sys_reconf_add p q) = add_work-KeepsLock k p
work_of-KeepsLock k (sys_reconf_rm p q) = rm_work-KeepsLock k p
work_of-KeepsLock k (sys_flush p) = flush-KeepsLock

-- Every system call, in pieces.
unfoldable pub pieces : (k : Kernel) (c : Syscall) → Parts k c
pieces k c = record {
  actions = sequence (checks_of k c) (work_of k c);
  keeps =
      sequence-KeepsLock (checks_of k c) (work_of k c) (checks_of-KeepsLock k c)
        (work_of-KeepsLock k c);
  whole = sequence-syscall k c;
}
