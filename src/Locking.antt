-- ===== src/Locking.antt =====
-- System calls on many processors at once: the spin lock of the instance (model/instance.h) and what
-- the calls of syscalls/syscalls-handlers.c do while they hold it, in small actions.
pub mod Serial
pub mod Steps
pub mod Sequence
pub mod Pieces
pub mod Progress
use refmon.Prelude.{
  ℕ, Bool, All, true, false, ◌≡◌, Option, none, some, List, [], ◌∷◌, ◌++◌, ℤ, ◌==◌, if◌then◌else◌,
}
use refmon.Kernel.{Kernel}
use refmon.World.{World, spin_instance_lock, spin_instance_unlock}
use refmon.Syscalls.{Syscall, syscall}
use refmon.Monitor.{Request, as_syscall}

-- How far a call has come: it goes on, it is about to return a value, or it has faulted.
pub data Slot : Type 0 where
  going : Slot
  gives : ℤ → Slot
  faulted : Slot

-- What happens at once, to the world and the slot.
abbrev pub Action : Type 0
Action = World × Slot → World × Slot

abbrev pub perform : List Action → World × Slot → World × Slot
perform [] s = s
perform (a ∷ rest) s = perform rest (a s)

-- SPIN_INSTANCE_LOCK ends: it does not wait.
abbrev pub Takes : World → Type 0
Takes w = (spin_instance_lock w).0 ≡ some tt

-- The world behind SPIN_INSTANCE_LOCK, and behind SPIN_INSTANCE_UNLOCK.
abbrev pub taken : World → World
taken w = (spin_instance_lock w).1

abbrev pub unlocked : World → World
unlocked w = (spin_instance_unlock w).1

-- The end of a call that has a value to return; another one has faulted and keeps the lock.
abbrev pub finish : World × Slot → Option ℤ × World
finish (w, going) = (none, w)
finish (w, gives ret) = (some ret, unlocked w)
finish (w, faulted) = (none, w)

-- No action of a call touches the lock.
abbrev pub KeepsLock : Action → Type 0
KeepsLock a =
    (s : World × Slot) → s.0.instance.spinlock_inst ≡ true → (a s).0.instance.spinlock_inst ≡ true

-- A system call, taken apart into the actions between its lock and its unlock.
pub record Parts (k : Kernel) (c : Syscall) : Type 0 where
  pub actions : List Action
  pub keeps : All KeepsLock actions
  pub whole : (w : World) → Takes w → finish (perform actions (taken w, going)) ≡ syscall k c w

-- Where a call stands: it spins on the lock, holds it with some actions left, or has returned.
pub data Cpu : Type 0 where
  waiting : Cpu
  inside : List Action → Slot → Cpu
  returned : ℤ → Cpu

abbrev pub update : (ℕ → Cpu) → ℕ → Cpu → ℕ → Cpu
update cpu i x j = if j == i then x else cpu j

-- The world, the calls by their numbers, and what has been returned so far, in order.
pub record Config : Type 0 where
  pub world : World
  pub cpu : ℕ → Cpu
  pub history : List (ℕ × ℤ)

abbrev pub start : World → Config
start w = record { world = w; cpu = λ i. waiting; history = [] }

module _ (call : ℕ → Kernel × Request)
    (parts : (i : ℕ) → Parts (call i).0 (as_syscall (call i).1)) where
  -- A step of one call, whichever is next: SPIN_INSTANCE_LOCK where it does not end, and where it
  -- does, an action, or SPIN_INSTANCE_UNLOCK.
  pub data Step (c : Config) : Config → Type 0 where
    spin :
        (i : ℕ)
        → c.cpu i ≡ waiting
        → (spin_instance_lock c.world).0 ≡ none
        → Step c (record c { world = taken c.world })
    acquire :
        (i : ℕ)
        → c.cpu i ≡ waiting
        → Takes c.world
        → Step c (record c {
          world = taken c.world;
          cpu = update c.cpu i (inside (parts i).actions going);
        })
    act :
        (i : ℕ) (a : Action) (rest : List Action) (slot : Slot)
        → c.cpu i ≡ inside (a ∷ rest) slot
        → Step c (record c {
          world = (a (c.world, slot)).0;
          cpu = update c.cpu i (inside rest (a (c.world, slot)).1);
        })
    release :
        (i : ℕ) (ret : ℤ)
        → c.cpu i ≡ inside [] (gives ret)
        → Step c (record {
          world = unlocked c.world;
          cpu = update c.cpu i (returned ret);
          history = c.history ++ (i, ret) ∷ [];
        })

  -- Steps one after the other, in whatever order the calls take turns.
  pub data Reach (c : Config) : Config → Type 0 where
    here : Reach c c
    later : {d e : Config} → Reach c d → Step d e → Reach c e
