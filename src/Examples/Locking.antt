-- ===== src/Examples/Locking.antt =====
-- A schedule of two system calls on two processors.
use refmon.World.{spin_instance_lock, spin_instance_unlock}
use refmon.Prelude.{
  Bool-cases, inl, inr, false, ℕ, ◌≡◌, refl, List, [], ◌∷◌, ℤ, pos, ◌==◌, if◌then◌else◌,
}
use refmon.CStr.{codes, match_string, strncmp_is_zero}
use refmon.Kernel.{Kernel}
use refmon.Model.{string_to_state, is_state_valid, is_on}
use refmon.Safety.{safety_checks, root_check, reconf_check, password_check, caught}
use refmon.Probing.{probing_update, probing_on, probing_off}
use refmon.Monitor.{Request, set_state, add, as_syscall}
use refmon.Locking.{
  Slot, Action, Parts, Config, start, Reach, here, later, acquire, act, release, inside, waiting,
  returned, update,
}
use refmon.Locking.Progress.{waiting_returns}
use refmon.Syscalls.Tables.{Works}
use refmon.Locking.Pieces.{pieces}
use refmon.Examples.{file_path, root, works, password, one_entry, reconf}
use refmon.Examples.Tools.{monitor, monitor-Simulates}

-- Call 0 adds a path, the others switch the monitor off.
abbrev call : ℕ → Kernel × Request
call i = if i == 0 then (root, add file_path password) else (root, set_state (codes "OFF"))

abbrev parts : (i : ℕ) → Parts (call i).0 (as_syscall (call i).1)
parts i = pieces (call i).0 (as_syscall (call i).1)

abbrev c0 : Config
c0 = start (reconf one_entry)

call-Works : (i : ℕ) → Works (call i).0
call-Works i = elim (Bool-cases (i == 0)) [
  | inl first ↦ rw first works
  | inr other ↦ rw other works
]

-- An action of a call that holds the lock.
acts :
    {c : Config} (i : ℕ) {a : Action} {rest : List Action} {slot : Slot}
    → Reach call parts c0 c
    → c.cpu i ≡ inside (a ∷ rest) slot
    → Reach call parts c0 (record c {
      world = (a (c.world, slot)).0;
      cpu = update c.cpu i (inside rest (a (c.world, slot)).1);
    })
acts i {a} {rest} {slot} r e = later r (act i a rest slot e)

abbrev reached : {d : Config} → Reach call parts c0 d → (d : Config) × Reach call parts c0 d
reached {d} r = (d, r)

-- Call 1 runs to its end while call 0 waits for the lock, and then call 0 takes it.
schedule : (d : Config) × Reach call parts c0 d
unfolding spin_instance_lock spin_instance_unlock pieces safety_checks root_check reconf_check
    password_check caught probing_update probing_on probing_off string_to_state is_state_valid is_on
    match_string strncmp_is_zero
schedule =
    let checked = acts 1 (later here (acquire 1 refl refl)) refl in
    let stored = acts 1 (acts 1 checked refl) refl in
    let switched = acts 1 stored refl in
    reached (later (later switched (release 1 (pos 0) refl)) (acquire 0 refl refl))

call_1_returned : schedule.0.history ≡ (1, pos 0) ∷ []
unfolding schedule
call_1_returned = refl

call_2_waits : schedule.0.cpu 2 ≡ waiting
unfolding schedule
call_2_waits = refl

waiting_returns_example :
    (ret : ℤ) × (d : Config) × Reach call parts schedule.0 d
    × (d.cpu 2 ≡ returned ret)
    × (d.world.instance.spinlock_inst ≡ false)
waiting_returns_example =
    waiting_returns call parts (reconf one_entry) monitor 2 call-Works monitor-Simulates schedule.1
      call_2_waits
