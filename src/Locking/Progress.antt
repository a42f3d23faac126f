-- ===== src/Locking/Progress.antt =====
-- No system call waits for ever by the fault of another one (model/instance.h,
-- syscalls/syscalls-handlers.c).
use refmon.Prelude.{ℕ, false, ◌≡◌, ◌≢◌, refl, sym, ap, ◌∙◌, inl, inr, List, [], ◌∷◌, ◌++◌, ℤ, some}
use mathlib.Core.Path.{subst}
use refmon.Kernel.{Kernel}
use refmon.World.{World}
use refmon.Syscalls.{syscall}
use refmon.Syscalls.Tables.{Works}
use refmon.Monitor.{Monitor, Request, as_syscall, serve}
use refmon.Monitor.Simulation.{Simulates, serve_all, run_calls-Simulates, serve-Simulates}
use refmon.Locking.{
  taken, Slot, going, gives, faulted, Action, perform, unlocked, finish, Parts, Cpu, waiting,
  inside, returned, update, Config, start, acquire, act, release, Reach, here, later,
}
use refmon.Locking.Serial.{free-Takes, NotInside, update_here, update_other, Held, calls}
use refmon.Locking.Steps.{Reach-Inv, calls-Works}

-- A call that ends with a value was about to return it.
finish_gives :
    (s : World × Slot) (ret : ℤ) (w : World)
    → finish s ≡ (some ret, w)
    → (s.1 ≡ gives ret) × (unlocked s.0 ≡ w)
finish_gives (u, going) ret w e = let t = ap (λ x. x.0) e in absurd (cc)
finish_gives (u, gives r) ret w e = let t = ap (λ x. x.0) e in ((cc), ap (λ x. x.1) e)
finish_gives (u, faulted) ret w e = let t = ap (λ x. x.0) e in absurd (cc)

module _ (call : ℕ → Kernel × Request)
    (parts : (i : ℕ) → Parts (call i).0 (as_syscall (call i).1)) where
  Reach-trans :
      {c d e : Config} → Reach call parts c d → Reach call parts d e → Reach call parts c e
  Reach-trans r here = r
  Reach-trans r (later s st) = later (Reach-trans r s) st

  -- Call `i` has run from `c`, and nothing else has.
  record Ran (c : Config) (i : ℕ) (w : World) (x : Cpu) : Type 0 where
    end : Config
    reach : Reach call parts c end
    world : end.world ≡ w
    here_now : end.cpu i ≡ x
    others : (j : ℕ) → j ≢ i → end.cpu j ≡ c.cpu j

  run_actions :
      (i : ℕ) (todo : List Action) (slot : Slot) (c : Config)
      → c.cpu i ≡ inside todo slot
      → let s = perform todo (c.world, slot) in Ran c i s.0 (inside [] s.1)
  run_actions i [] slot c e = record {
    end = c;
    reach = here;
    world = refl;
    here_now = e;
    others = λ j ne. refl;
  }
  run_actions i (a ∷ todo) slot c e =
      let next : Config = record c {
        world = (a (c.world, slot)).0;
        cpu = update c.cpu i (inside todo (a (c.world, slot)).1);
      } in
      let more =
        run_actions i todo (a (c.world, slot)).1 next
          (update_here c.cpu i (inside todo (a (c.world, slot)).1)) in
      record {
        end = more.end;
        reach = Reach-trans (later here (act i a todo slot e)) more.reach;
        world = more.world;
        here_now = more.here_now;
        others = λ j ne.
            more.others j ne ∙ update_other c.cpu i j (inside todo (a (c.world, slot)).1) ne;
      }

  run_to_return :
      (i : ℕ) (todo : List Action) (slot : Slot) (c : Config) (ret : ℤ) (w : World)
      → c.cpu i ≡ inside todo slot
      → finish (perform todo (c.world, slot)) ≡ (some ret, w)
      → Ran c i w (returned ret)
  run_to_return i todo slot c ret w e ends =
      let ran = run_actions i todo slot c e in
      let (value, left) = finish_gives (perform todo (c.world, slot)) ret w ends in
      let ready = ran.here_now ∙ ap (inside []) value in
      record {
        end = record {
          world = unlocked ran.end.world;
          cpu = update ran.end.cpu i (returned ret);
          history = ran.end.history ++ (i, ret) ∷ [];
        };
        reach = later ran.reach (release i ret ready);
        world = ap unlocked ran.world ∙ left;
        here_now = update_here ran.end.cpu i (returned ret);
        others = λ j ne. update_other ran.end.cpu i j (returned ret) ne ∙ ran.others j ne;
      }

  -- A call that finds the lock free takes it and returns what the monitor answers.
  run_call :
      (works : (i : ℕ) → Works (call i).0) (i : ℕ) (c : Config) (a : Monitor)
      → Simulates c.world a
      → c.cpu i ≡ waiting
      → Ran c i
          (syscall (call i).0 (as_syscall (call i).1) c.world).1
          (returned (serve (call i).0 (call i).1 a).0)
  run_call works i c a sim e =
      let takes = free-Takes c.world sim.free in
      let (returns, next) = serve-Simulates (call i).0 (works i) (call i).1 c.world a sim in
      let w = (syscall (call i).0 (as_syscall (call i).1) c.world).1 in
      let entered = inside (parts i).actions going in
      let has_lock : Config = record c { world = taken c.world; cpu = update c.cpu i entered } in
      let ran =
        run_to_return i (parts i).actions going has_lock (serve (call i).0 (call i).1 a).0 w
          (update_here c.cpu i entered)
          ((parts i).whole c.world takes ∙ ap (λ r. (r, w)) returns) in
      record {
        end = ran.end;
        reach = Reach-trans (later here (acquire i e takes)) ran.reach;
        world = ran.world;
        here_now = ran.here_now;
        others = λ j ne. ran.others j ne ∙ update_other c.cpu i j entered ne;
      }

  -- The holder of the lock returns.
  run_holder :
      (works : (i : ℕ) → Works (call i).0) (w0 : World) (c : Config) (a : Monitor)
      (inv : Held call parts w0 c)
      → Simulates inv.before a
      → let h = inv.holder in
        Ran c h
          (syscall (call h).0 (as_syscall (call h).1) inv.before).1
          (returned (serve (call h).0 (call h).1 a).0)
  run_holder works w0 c a inv sim =
      let h = inv.holder in
      let (returns, next) = serve-Simulates (call h).0 (works h) (call h).1 inv.before a sim in
      let w = (syscall (call h).0 (as_syscall (call h).1) inv.before).1 in
      run_to_return h inv.rest inv.slot c (serve (call h).0 (call h).1 a).0 w inv.is_inside (
        ap finish inv.completes
        ∙ (parts h).whole inv.before inv.was_free
        ∙ ap (λ r. (r, w)) returns)

  -- A call that waits while the lock is free returns, and leaves the lock free.
  return_from_free :
      (works : (i : ℕ) → Works (call i).0) (i : ℕ) (c : Config) (a : Monitor)
      → Simulates c.world a
      → c.cpu i ≡ waiting
      → (ret : ℤ) × (d : Config) × Reach call parts c d
        × (d.cpu i ≡ returned ret)
        × (d.world.instance.spinlock_inst ≡ false)
  return_from_free works i c a sim e =
      let (returns, next) = serve-Simulates (call i).0 (works i) (call i).1 c.world a sim in
      let ran = run_call works i c a sim e in
      (
        (serve (call i).0 (call i).1 a).0,
        ran.end,
        ran.reach,
        ran.here_now,
        ap (λ (w : World). w.instance.spinlock_inst) ran.world ∙ next.free,
      )

-- In kernels in which nothing fails, and if no argument of a call is NULL, however the actions of the
-- system calls have interleaved so far: a call that waits for the lock can still return, and leaves
-- the lock free.
pub waiting_returns :
    (call : ℕ → Kernel × Request) (parts : (i : ℕ) → Parts (call i).0 (as_syscall (call i).1))
    (w : World) (a : Monitor) {c : Config} (i : ℕ)
    → ((i : ℕ) → Works (call i).0)
    → Simulates w a
    → Reach call parts (start w) c
    → c.cpu i ≡ waiting
    → (ret : ℤ) × (d : Config) × Reach call parts c d
      × (d.cpu i ≡ returned ret)
      × (d.world.instance.spinlock_inst ≡ false)
waiting_returns call parts w a {c} i works sim reach e =
    let all = calls-Works call works c.history in
    let last = (run_calls-Simulates (calls call c.history) w a all sim).1 in
    elim (Reach-Inv call parts w sim.free reach) [
      | inl inv ↦
          return_from_free call parts works i c (serve_all (calls call c.history) a).1
            (subst (λ s. Simulates s.1 (serve_all (calls call c.history) a).1) inv.serial last) e
      | inr inv ↦
          let h = inv.holder in
          let m = (serve_all (calls call c.history) a).1 in
          let before : Simulates inv.before m = subst (λ s. Simulates s.1 m) inv.serial last in
          let ran = run_holder call parts works w c m inv before in
          let next = (serve-Simulates (call h).0 (works h) (call h).1 inv.before m before).1 in
          let other : i ≢ h =
            λ same. let t = sym e ∙ ap c.cpu same ∙ inv.is_inside in subst NotInside t tt in
          let (ret, d, more, at, free) =
            return_from_free call parts works i ran.end (serve (call h).0 (call h).1 m).1
              (subst (λ u. Simulates u (serve (call h).0 (call h).1 m).1) (sym ran.world) next)
              (ran.others i other ∙ e) in
          (ret, d, Reach-trans call parts ran.reach more, at, free)
    ]
