-- ===== src/Locking/Serial.antt =====
-- Whatever the interleaving of the system calls, their effect is that of one call after the other
-- (model/instance.h, syscalls/syscalls-handlers.c).
use refmon.Prelude.{
  arith, none, ℕ, All, true, false, ◌≡◌, ◌≢◌, ◌⊎◌, refl, sym, ap, ◌∙◌, Bool-cases, inl, inr, Option,
  some, List, [], ◌∷◌, ◌++◌, ℤ, ◌==◌, ==_iff,
}
use refmon.Kernel.{Kernel}
use refmon.World.{World, spin_instance_lock, spin_instance_unlock}
use refmon.Syscalls.{syscall}
use refmon.Monitor.{Request, as_syscall}
use refmon.Monitor.Simulation.{run_calls}
use refmon.Locking.{
  Takes, taken, unlocked, Slot, going, Action, perform, KeepsLock, Parts, Cpu, waiting, inside,
  returned, update, Config,
}

run_calls-append :
    (cs : List (Kernel × Request)) (k : Kernel) (r : Request) (w : World)
    → run_calls (cs ++ (k, r) ∷ []) w ≡ (
      (run_calls cs w).0 ++ (syscall k (as_syscall r) (run_calls cs w).1).0 ∷ [],
      (syscall k (as_syscall r) (run_calls cs w).1).1,
    )
unfolding run_calls
run_calls-append [] k r w = refl
run_calls-append ((k', r') ∷ cs) k r w =
    let u = (syscall k' (as_syscall r') w).1 in
    ap (λ (s : List (Option ℤ) × World). ((syscall k' (as_syscall r') w).0 ∷ s.0, s.1))
      (run_calls-append cs k r u)

abbrev pub results : List (ℕ × ℤ) → List (Option ℤ)
results [] = []
results ((i, ret) ∷ hs) = some ret ∷ results hs

results-append :
    (hs : List (ℕ × ℤ)) (i : ℕ) (ret : ℤ)
    → results (hs ++ (i, ret) ∷ []) ≡ results hs ++ some ret ∷ []
results-append [] i ret = refl
results-append (h ∷ hs) i ret = ap (λ r. some h.1 ∷ r) (results-append hs i ret)

abbrev pub NotInside : Cpu → Type 0
NotInside waiting = Unit
NotInside (inside rest slot) = ⊥
NotInside (returned ret) = Unit

abbrev pub actions_of : Cpu → List Action
actions_of waiting = []
actions_of (inside rest slot) = rest
actions_of (returned ret) = []

abbrev pub slot_of : Cpu → Slot
slot_of waiting = going
slot_of (inside rest slot) = slot
slot_of (returned ret) = going

pub update_here : (cpu : ℕ → Cpu) (i : ℕ) (x : Cpu) → update cpu i x i ≡ x
update_here cpu i x = rw ((==_iff i i).1 refl) refl

pub update_other : (cpu : ℕ → Cpu) (i j : ℕ) (x : Cpu) → j ≢ i → update cpu i x j ≡ cpu j
update_other cpu i j x ne = elim (Bool-cases (j == i)) [
  | inl same ↦ absurd (ne ((==_iff j i).0 same))
  | inr other ↦ rw other refl
]

-- The lock is taken where it is free, and then it is held.
pub free-Takes : (w : World) → w.instance.spinlock_inst ≡ false → Takes w
unfolding spin_instance_lock
free-Takes w e = ground (arith, e)

pub taken_held : (w : World) → Takes w → (taken w).instance.spinlock_inst ≡ true
unfolding spin_instance_lock
taken_held w t = ground arith

-- Where it is held, it is waited for, and nothing changes.
pub held_waits : (w : World) → w.instance.spinlock_inst ≡ true → Takes w → ⊥
unfolding spin_instance_lock
held_waits w e t = ground arith

pub spins_still : (w : World) → (spin_instance_lock w).0 ≡ none → taken w ≡ w
unfolding spin_instance_lock
spins_still w e = ground arith

pub unlocked_free : (w : World) → (unlocked w).instance.spinlock_inst ≡ false
unfolding spin_instance_unlock
unlocked_free w = refl

module _ (call : ℕ → Kernel × Request) where
  abbrev pub calls : List (ℕ × ℤ) → List (Kernel × Request)
  calls [] = []
  calls ((i, ret) ∷ hs) = call i ∷ calls hs

  calls-append :
      (hs : List (ℕ × ℤ)) (i : ℕ) (ret : ℤ) → calls (hs ++ (i, ret) ∷ []) ≡ calls hs ++ call i ∷ []
  calls-append [] i ret = refl
  calls-append (h ∷ hs) i ret = ap (λ r. call h.0 ∷ r) (calls-append hs i ret)

module _ (call : ℕ → Kernel × Request) (parts : (i : ℕ) → Parts (call i).0 (as_syscall (call i).1))
    (w0 : World) where
  -- The calls that have returned, one after the other, make this world.
  abbrev pub Serial : List (ℕ × ℤ) → World → Type 0
  Serial hs w = run_calls (calls call hs) w0 ≡ (results hs, w)

  pub Serial-append :
      (hs : List (ℕ × ℤ)) (i : ℕ) (ret : ℤ) (w w' : World)
      → Serial hs w
      → syscall (call i).0 (as_syscall (call i).1) w ≡ (some ret, w')
      → Serial (hs ++ (i, ret) ∷ []) w'
  Serial-append hs i ret w w' serial returns =
      ap (λ cs. run_calls cs w0) (calls-append call hs i ret)
      ∙ run_calls-append (calls call hs) (call i).0 (call i).1 w0
      ∙ ap
          (λ (s : List (Option ℤ) × World). (
            s.0 ++ (syscall (call i).0 (as_syscall (call i).1) s.1).0 ∷ [],
            (syscall (call i).0 (as_syscall (call i).1) s.1).1,
          ))
          serial
      ∙ ap (λ (s : Option ℤ × World). (results hs ++ s.0 ∷ [], s.1)) returns
      ∙ ap (λ rs. (rs, w')) (sym (results-append hs i ret))

  -- Nobody holds the lock.
  pub record Free (c : Config) : Type 0 where
    pub free : c.world.instance.spinlock_inst ≡ false
    pub serial : Serial c.history c.world
    pub none_inside : (j : ℕ) → NotInside (c.cpu j)

  -- One call holds the lock, and what it has left to do completes it.
  pub record Held (c : Config) : Type 0 where
    pub holder : ℕ
    pub before : World
    pub rest : List Action
    pub slot : Slot
    pub held : c.world.instance.spinlock_inst ≡ true
    pub is_inside : c.cpu holder ≡ inside rest slot
    pub was_free : Takes before
    pub serial : Serial c.history before
    pub completes :
        perform rest (c.world, slot) ≡ perform (parts holder).actions (taken before, going)
    pub keeps : All KeepsLock rest
    pub others : (j : ℕ) → j ≢ holder → NotInside (c.cpu j)

  abbrev pub Inv : Config → Type 0
  Inv c = Free c ⊎ Held c
