-- ===== src/Monitor/Simulation.antt =====
-- Runs of the system calls are runs of the monitor.
use refmon.Prelude.{
  Bool, All, true, false, not, ◌≡◌, inl, inr, refl, sym, ap, ◌∙◌, Option, Bool-cases, some, List,
  [], ◌∷◌, ℤ, pos, is_zero, ◌==◌, if◌then◌else◌, neg_einval, neg_eacces,
}
use mathlib.Core.Path.{subst}
use refmon.CStr.{Str, match_string}
use refmon.Kernel.{FileSystem, Kernel}
use refmon.Model.{Registry, is_reconf, is_state_valid, string_to_state}
use refmon.Safety.Decision.{decision, hash}
use refmon.AddFile.Outcome.{addition}
use refmon.AddFile.Invariant.{WellFormed}
use refmon.Removal.{removal}
use refmon.World.{World, Run}
use refmon.Handlers.{
  with_instance_lock, reconf_add_body, reconf_rm_body, flush_body, do_reconf_add, do_reconf_rm,
  do_flush_registry,
}
use refmon.Syscalls.{Syscall, sys_set_state, sys_reconf_add, sys_reconf_rm, sys_flush, syscall}
use refmon.Syscalls.Lock.{syscall_releases}
use refmon.Syscalls.State.{with_state, sys_set_state_lem}
use refmon.Syscalls.Tables.{
  Works, behind_checks, Gives, sys_reconf_add_lem, sys_reconf_rm_lem, sys_flush_lem,
}
use refmon.System.Formed.{
  KeepsFormed, with_instance_lock-KeepsFormed, reconf_add-KeepsFormed, reconf_rm-KeepsFormed,
  flush-KeepsFormed,
}
use refmon.Monitor.{
  Protected, Monitor, nothing, Request, set_state, add, remove, flush, as_syscall, allowed, guarded,
  add_path, remove_path, serve,
}
use refmon.Monitor.View.{view}
use refmon.Monitor.Refinement.{Agree, addition-add_path, removal-remove_path}

-- The world between two calls, and the monitor that it stands for.
pub record Simulates (w : World) (a : Monitor) : Type 0 where
  pub free : w.instance.spinlock_inst ≡ false
  pub formed : WellFormed w.instance.registry
  pub state : w.instance.state ≡ a.state
  pub stored : w.instance.password ≡ a.stored
  pub protected : (p : Str) → view w.instance.registry p ≡ a.protected p

decision-allowed :
    (k : Kernel) (w : World) (a : Monitor) (password : Str)
    → w.instance.state ≡ a.state
    → w.instance.password ≡ a.stored
    → decision k.current_euid w.instance (hash k) password ≡ allowed k a password
unfolding decision allowed is_reconf
decision-allowed k w a password s p = rw (s, p) refl

-- The checks are the same on both sides.
guarded-Agree :
    (work : FileSystem → Registry → Str → ℤ × Registry)
    (operation : FileSystem → Str → Protected → ℤ × Protected) (k : Kernel) (w : World)
    (a : Monitor) (path password : Str)
    → Simulates w a
    → Agree (work k.files w.instance.registry path) (operation k.files path a.protected)
    → Agree (behind_checks work k w.instance path password) (guarded operation k a path password)
guarded-Agree work operation k w a path password sim agree =
    rw (decision-allowed k w a password sim.state sim.stored)
      (split (is_zero (allowed k a password)) (match_string path []))
  where
    split :
        (zero empty : Bool)
        → Agree
            (if not zero
              then (allowed k a password, w.instance.registry)
              else if empty
              then (neg_einval, w.instance.registry)
              else work k.files w.instance.registry path)
            (if not zero
              then (allowed k a password, a.protected)
              else if empty
              then (neg_einval, a.protected)
              else operation k.files path a.protected)
    split true true = (refl, sim.protected)
    split true false = agree
    split false empty = (refl, sim.protected)

-- A call on the registry, from what it gives and what it keeps.
call-Simulates :
    (k : Kernel) (c : Syscall) (body : Run ℤ) (w : World) (a : Monitor) (r : ℤ × Registry)
    (s : ℤ × Protected)
    → syscall k c ≡ with_instance_lock body
    → KeepsFormed body
    → Simulates w a
    → Gives (syscall k c w) r
    → Agree r s
    → ((syscall k c w).0 ≡ some s.0) × Simulates (syscall k c w).1 (record a { protected = s.1 })
call-Simulates k c body w a r s e keeps sim (ret, left) (same, view_same) =
    let kept = subst KeepsFormed (sym e) (with_instance_lock-KeepsFormed body keeps) in
    let rest = kept.rest w in
    (
      ret ∙ ap some same,
      record {
        free = (syscall_releases k c w r.0 ret).1;
        formed = kept.formed w sim.formed;
        state = rest.0 ∙ sim.state;
        stored = rest.1 ∙ sim.stored;
        protected = λ p. ap (λ (es : Registry). view es p) left ∙ view_same p;
      },
    )

flushed-Agree :
    (w : World) (a : Monitor) (d : ℤ)
    → Simulates w a
    → Agree
        (d, if is_zero d then [] else w.instance.registry)
        (d, if is_zero d then nothing else a.protected)
unfolding view
flushed-Agree w a d sim = elim (Bool-cases (is_zero d)) [
  | inl zero ↦ rw zero (refl, λ p. refl)
  | inr other ↦ rw other (refl, sim.protected)
]

module _ (k : Kernel) (works : Works k) where
  set_state-Simulates :
      (text : Str) (w : World) (a : Monitor)
      → Simulates w a
      → ((syscall k (sys_set_state (some text)) w).0 ≡ some (serve k (set_state text) a).0)
        × Simulates (syscall k (sys_set_state (some text)) w).1 (serve k (set_state text) a).1
  unfolding serve
  set_state-Simulates text w a sim =
      rw (sys_set_state_lem k text w sim.free) (split (k.current_euid == 0) (is_state_valid text))
    where
      split :
          (root valid : Bool)
          → let out : Option ℤ × World =
              if root
              then if valid then (some (pos 0), with_state k text w) else (some neg_einval, w)
              else (some neg_eacces, w) in
            let spec : ℤ × Monitor =
              if not root
              then (neg_eacces, a)
              else if not valid
              then (neg_einval, a)
              else (pos 0, record a { state = string_to_state text }) in
            (out.0 ≡ some spec.0) × Simulates out.1 spec.1
      split true true = (
        refl,
        record {
          free = sim.free;
          formed = sim.formed;
          state = refl;
          stored = sim.stored;
          protected = sim.protected;
        },
      )
      split true false = (refl, sim)
      split false valid = (refl, sim)

  -- One system call that does not fail for want of memory returns what the monitor answers, and
  -- leaves a world that stands for the monitor afterwards.
  pub serve-Simulates :
      (r : Request) (w : World) (a : Monitor)
      → Simulates w a
      → ((syscall k (as_syscall r) w).0 ≡ some (serve k r a).0)
        × Simulates (syscall k (as_syscall r) w).1 (serve k r a).1
  unfolding serve syscall do_reconf_add do_reconf_rm do_flush_registry
  serve-Simulates (set_state text) w a sim = set_state-Simulates text w a sim
  serve-Simulates (add path password) w a sim =
      call-Simulates k (sys_reconf_add (some path) (some password))
        (reconf_add_body k (some path) (some password)) w a
        (behind_checks addition k w.instance path password) (guarded add_path k a path password)
        refl (reconf_add-KeepsFormed k works.memory works.paths (some path) (some password)) sim
        (sys_reconf_add_lem k path password works w sim.free)
        (guarded-Agree addition add_path k w a path password sim (
          addition-add_path k.files w.instance.registry path a.protected works.paths sim.protected))
  serve-Simulates (remove path password) w a sim =
      call-Simulates k (sys_reconf_rm (some path) (some password))
        (reconf_rm_body k (some path) (some password)) w a
        (behind_checks removal k w.instance path password) (guarded remove_path k a path password)
        refl (reconf_rm-KeepsFormed k (some path) (some password)) sim
        (sys_reconf_rm_lem k path password works w sim.free)
        (guarded-Agree removal remove_path k w a path password sim (
          removal-remove_path k.files w.instance.registry path a.protected works.paths sim.protected
            sim.formed))
  serve-Simulates (flush password) w a sim =
      let d = allowed k a password in
      call-Simulates k (sys_flush (some password)) (flush_body k (some password)) w a
        (d, if is_zero d then [] else w.instance.registry)
        (d, if is_zero d then nothing else a.protected) refl (flush-KeepsFormed k (some password))
        sim
        (rw (decision-allowed k w a password sim.state sim.stored) at
          (sys_flush_lem k password works w sim.free))
        (flushed-Agree w a d sim)

-- Calls one after the other, each in its own kernel: what they return, and the world they leave.
unfoldable pub run_calls : List (Kernel × Request) → World → List (Option ℤ) × World
run_calls [] w = ([], w)
run_calls ((k, r) ∷ calls) w =
    let (ret, w') = syscall k (as_syscall r) w in
    let (rets, w'') = run_calls calls w' in (ret ∷ rets, w'')

-- The answers of the monitor to the same requests.
unfoldable pub serve_all : List (Kernel × Request) → Monitor → List (Option ℤ) × Monitor
serve_all [] a = ([], a)
serve_all ((k, r) ∷ calls) a =
    let (ret, a') = serve k r a in let (rets, a'') = serve_all calls a' in (some ret ∷ rets, a'')

-- Whatever system calls are made, one after the other, in kernels in which nothing fails: they
-- return what the monitor answers to the same requests, and the registry that they leave stands for
-- the monitor's map. The monitor knows no order of the entries.
pub run_calls-Simulates :
    (calls : List (Kernel × Request)) (w : World) (a : Monitor)
    → All (λ c. Works c.0) calls
    → Simulates w a
    → ((run_calls calls w).0 ≡ (serve_all calls a).0)
      × Simulates (run_calls calls w).1 (serve_all calls a).1
unfolding run_calls serve_all
run_calls-Simulates [] w a works sim = (refl, sim)
run_calls-Simulates ((k, r) ∷ calls) w a (works, more) sim =
    let (ret, next) = serve-Simulates k works r w a sim in
    let (rets, last) =
      run_calls-Simulates calls (syscall k (as_syscall r) w).1 (serve k r a).1 more next in
    (rw (ret, rets) refl, last)
