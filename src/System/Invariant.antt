-- ===== src/System/Invariant.antt =====
-- What holds in every state that the running module reaches.
use refmon.Prelude.{
  ℕ, ◌≡◌, ◌≢◌, ◌⊎◌, inl, inr, refl, sym, true, false, Option, none, some, ℤ, arith,
}
use mathlib.Core.Path.{subst}
use refmon.CStr.{Str}
use refmon.Kernel.{Kernel}
use refmon.Model.{einval, is_state_valid, is_on, is_off}
use refmon.Model.State.{is_state_valid_iff}
use refmon.AddFile.Invariant.{WellFormed}
use refmon.Probing.Switch.{ProbesAre, probing_update-ProbesAre}
use refmon.Safety.Decision.{safety_checks-root}
use refmon.Hooks.{krp_hook_tail, tail_body}
use refmon.World.{World, Run, locked}
use refmon.Handlers.{
  with_instance_lock, set_state_body, do_set_state, reconf_add_body, reconf_rm_body, flush_body,
  do_reconf_add, do_reconf_rm, do_flush_registry,
}
use refmon.Syscalls.{Syscall, sys_set_state, sys_reconf_add, sys_reconf_rm, sys_flush, syscall}
use refmon.Syscalls.Lock.{syscall_releases}
use refmon.Syscalls.State.{with_state, sys_set_state_lem}
use refmon.System.{Healthy, Step, call, refuse, entry, Reach, here, next, initial}
use refmon.System.Formed.{
  SameRest, KeepsFormed, with_instance_lock-KeepsFormed, reconf_add-KeepsFormed,
  reconf_rm-KeepsFormed, flush-KeepsFormed,
}

-- Between two steps: the registry is well formed, both locks are free, the state is an enumerator,
-- the five probes are on exactly if the state is, and the password is the one of the start.
pub record IsSafe (password : Str) (w : World) : Type 0 where
  pub formed : WellFormed w.instance.registry
  pub inst_free : w.instance.spinlock_inst ≡ false
  pub probing_free : w.instance.spinlock_probing ≡ false
  pub enumerator : w.instance.state ≢ einval
  pub switched : ProbesAre (is_on w.instance) w.probes
  pub same_password : w.instance.password ≡ password

module _ (password : Str) where
  rest-IsSafe :
      (w u : World)
      → IsSafe password w
      → SameRest w u
      → WellFormed u.instance.registry
      → u.instance.spinlock_inst ≡ false
      → IsSafe password u
  unfolding is_on is_off
  rest-IsSafe w u safe same wf free = record {
    formed = wf;
    inst_free = free;
    probing_free = ground (arith, safe.probing_free);
    enumerator = λ e. safe.enumerator (ground arith);
    switched = let h = safe.switched in ground arith;
    same_password = ground (arith, safe.same_password);
  }

  call-IsSafe :
      (k : Kernel) (c : Syscall) (body : Run ℤ) (w : World) (ret : ℤ)
      → syscall k c ≡ with_instance_lock body
      → KeepsFormed body
      → (syscall k c w).0 ≡ some ret
      → IsSafe password w
      → IsSafe password (syscall k c w).1
  call-IsSafe k c body w ret e keeps h safe =
      let kept = with_instance_lock-KeepsFormed body keeps in
      let kept' = subst KeepsFormed (sym e) kept in
      rest-IsSafe w (syscall k c w).1 safe (kept'.rest w) (kept'.formed w safe.formed)
        (syscall_releases k c w ret h).1

  set_state_text :
      (k : Kernel) (s : Str) (w : World)
      → w.instance.spinlock_inst ≡ false
      → ((syscall k (sys_set_state (some s)) w).1 ≡ w)
        ⊎ ((is_state_valid s ≡ true)
            × ((syscall k (sys_set_state (some s)) w).1 ≡ with_state k s w))
  set_state_text k s w free = ground (arith, sys_set_state_lem k s w free)

  -- Setting the state leaves the world as it was, or has set a state that was spelled right.
  set_state_cases :
      (k : Kernel) (o : Option Str) (w : World) (ret : ℤ)
      → w.instance.spinlock_inst ≡ false
      → (syscall k (sys_set_state o) w).0 ≡ some ret
      → ((syscall k (sys_set_state o) w).1 ≡ w)
        ⊎ ((s : Str) × (is_state_valid s ≡ true)
            × ((syscall k (sys_set_state o) w).1 ≡ with_state k s w))
  unfolding syscall do_set_state with_instance_lock set_state_body
  set_state_cases k none w ret free h =
      inl (ground (arith, safety_checks-root k (locked w).instance none w.calls))
  set_state_cases k (some s) w ret free h = elim (set_state_text k s w free) [
    | inl same ↦ inl same
    | inr (valid, set) ↦ inr (s, valid, set)
  ]

  with_state-IsSafe :
      (k : Kernel) (s : Str) (w : World)
      → Healthy k
      → is_state_valid s ≡ true
      → IsSafe password w
      → IsSafe password (with_state k s w)
  with_state-IsSafe k s w healthy valid safe = record {
    formed = safe.formed;
    inst_free = safe.inst_free;
    probing_free = safe.probing_free;
    enumerator = (is_state_valid_iff s).0 valid;
    switched =
        (probing_update-ProbesAre k.kprobes _ (is_on w.instance) w.probes healthy.kprobes
          safe.switched).1;
    same_password = safe.same_password;
  }

  syscall-IsSafe :
      (k : Kernel) (c : Syscall) (w : World) (ret : ℤ)
      → Healthy k
      → (syscall k c w).0 ≡ some ret
      → IsSafe password w
      → IsSafe password (syscall k c w).1
  unfolding syscall do_reconf_add do_reconf_rm do_flush_registry
  syscall-IsSafe k (sys_set_state o) w ret healthy h safe =
      elim (set_state_cases k o w ret safe.inst_free h) [
        | inl same ↦ subst (IsSafe password) (sym same) safe
        | inr (s, valid, set) ↦
            subst (IsSafe password) (sym set) (with_state-IsSafe k s w healthy valid safe)
      ]
  syscall-IsSafe k (sys_reconf_add p q) w ret healthy h safe =
      call-IsSafe k (sys_reconf_add p q) (reconf_add_body k p q) w ret refl
        (reconf_add-KeepsFormed k healthy.memory healthy.paths p q) h safe
  syscall-IsSafe k (sys_reconf_rm p q) w ret healthy h safe =
      call-IsSafe k (sys_reconf_rm p q) (reconf_rm_body k p q) w ret refl
        (reconf_rm-KeepsFormed k p q) h safe
  syscall-IsSafe k (sys_flush q) w ret healthy h safe =
      call-IsSafe k (sys_flush q) (flush_body k q) w ret refl (flush-KeepsFormed k q) h safe

  -- The tail hook touches no more than the lock of the probes, the queue and the count of calls.
  tail_frame :
      (k : Kernel) (ax : ℕ) (w : World) (out : ℤ × ℕ)
      → (krp_hook_tail k ax w).0 ≡ some out
      → ((krp_hook_tail k ax w).1.instance ≡ w.instance)
        × ((krp_hook_tail k ax w).1.probes ≡ w.probes)
  unfolding krp_hook_tail tail_body
  tail_frame k ax w out h = ground arith

  instance-IsSafe :
      (w u : World)
      → u.instance ≡ w.instance
      → u.probes ≡ w.probes
      → IsSafe password w
      → IsSafe password u
  instance-IsSafe w u i p safe = record {
    formed = rw i safe.formed;
    inst_free = rw i safe.inst_free;
    probing_free = rw i safe.probing_free;
    enumerator = rw i safe.enumerator;
    switched = rw (i, p) safe.switched;
    same_password = rw i safe.same_password;
  }

  Step-IsSafe : {w u : World} → Step w u → IsSafe password w → IsSafe password u
  Step-IsSafe {w} {u} (call k c ret healthy h e) safe =
      subst (IsSafe password) (sym e) (syscall-IsSafe k c w ret healthy h safe)
  Step-IsSafe {w} {u} (refuse k ax out h e) safe =
      let (i, p) = tail_frame k ax w out h in
      subst (IsSafe password) (sym e) (instance-IsSafe w (krp_hook_tail k ax w).1 i p safe)
  Step-IsSafe {w} {u} (entry calls e) safe =
      subst (IsSafe password) (sym e)
        (instance-IsSafe w (record w { calls = calls }) refl refl safe)

  initial-IsSafe : IsSafe password (initial password)
  unfolding is_on is_off
  initial-IsSafe = record {
    formed = record { good = tt; distinct = tt };
    inst_free = refl;
    probing_free = refl;
    enumerator = λ e. cc;
    switched = (refl, refl, refl, refl, refl);
    same_password = refl;
  }

  -- In every state that is reached from the initial one by system calls and probe handlers, in
  -- kernels in which allocations succeed: the registry is well formed, both locks are free, the
  -- state is an enumerator, the probes are on exactly if the state is, and the password is as it was.
  pub Reach-IsSafe : {u : World} → Reach (initial password) u → IsSafe password u
  Reach-IsSafe here = initial-IsSafe
  Reach-IsSafe (next r s) = Step-IsSafe s (Reach-IsSafe r)
