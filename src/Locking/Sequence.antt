-- ===== src/Locking/Sequence.antt =====
-- What stands between the lock of a system call and its `tail` label (syscalls/syscalls-handlers.c),
-- as a sequence of actions: checks, each of which may end the call, and the work behind them.
use refmon.Prelude.{
  ap, true, ◌≡◌, refl, All, Option, none, some, List, [], ◌∷◌, ℤ, is_zero, not, if◌then◌else◌,
  arith, Bool-cases, inl, inr,
}
use refmon.World.{World, Run, pure, ◌>>=◌}
use refmon.Handlers.{with_instance_lock}
use refmon.Locking.{
  Slot, going, gives, faulted, Action, perform, taken, Takes, unlocked, finish, KeepsLock,
}

-- A value other than 0 ends the call.
abbrev after_check : Option ℤ → Slot
after_check none = faulted
after_check (some ret) = if is_zero ret then going else gives ret

abbrev after_last : Option ℤ → Slot
after_last none = faulted
after_last (some ret) = gives ret

-- A call that is about to return, or has faulted, does nothing more.
abbrev action : (Option ℤ → Slot) → Run ℤ → Action
action after m (w, going) = ((m w).1, after (m w).0)
action after m (w, gives ret) = (w, gives ret)
action after m (w, faulted) = (w, faulted)

abbrev check : Run ℤ → Action
check m = action after_check m

abbrev last : Run ℤ → Action
last m = action after_last m

abbrev pub RunKeepsLock : Run ℤ → Type 0
RunKeepsLock m =
    (w : World) → w.instance.spinlock_inst ≡ true → (m w).1.instance.spinlock_inst ≡ true

action-KeepsLock :
    (after : Option ℤ → Slot) (m : Run ℤ) → RunKeepsLock m → KeepsLock (action after m)
action-KeepsLock after m keeps (w, going) e = keeps w e
action-KeepsLock after m keeps (w, gives ret) e = e
action-KeepsLock after m keeps (w, faulted) e = e

abbrev pub sequence : List (Run ℤ) → Run ℤ → List Action
sequence [] work = last work ∷ []
sequence (m ∷ ms) work = check m ∷ sequence ms work

abbrev pub in_turn : List (Run ℤ) → Run ℤ → Run ℤ
in_turn [] work = work
in_turn (m ∷ ms) work = m >>= λ ret. if not (is_zero ret) then pure ret else in_turn ms work

abbrev pub ends : Option ℤ × World → Option ℤ × World
ends (none, u) = (none, u)
ends (some ret, u) = (some ret, unlocked u)

sequence_gives :
    (ms : List (Run ℤ)) (work : Run ℤ) (w : World) (ret : ℤ)
    → perform (sequence ms work) (w, gives ret) ≡ (w, gives ret)
sequence_gives [] work w ret = refl
sequence_gives (m ∷ ms) work w ret = sequence_gives ms work w ret

sequence_faulted :
    (ms : List (Run ℤ)) (work : Run ℤ) (w : World)
    → perform (sequence ms work) (w, faulted) ≡ (w, faulted)
sequence_faulted [] work w = refl
sequence_faulted (m ∷ ms) work w = sequence_faulted ms work w

sequence_after :
    (ms : List (Run ℤ)) (work : Run ℤ) (r : Option ℤ) (u : World)
    → finish (perform (sequence ms work) (u, going)) ≡ ends (in_turn ms work u)
    → finish (perform (sequence ms work) (u, after_check r))
      ≡ ends (in_turn ((λ w. (r, u)) ∷ ms) work u)
sequence_after ms work none u e = ap finish (sequence_faulted ms work u)
sequence_after ms work (some ret) u e = elim (Bool-cases (is_zero ret)) [
  | inl zero ↦ rw zero e
  | inr more ↦ rw more (ap finish (sequence_gives ms work u ret))
]

last_ends : (r : Option ℤ) (u : World) → finish (u, after_last r) ≡ ends (r, u)
last_ends none u = refl
last_ends (some ret) u = refl

pub perform-sequence :
    (ms : List (Run ℤ)) (work : Run ℤ) (w : World)
    → finish (perform (sequence ms work) (w, going)) ≡ ends (in_turn ms work w)
perform-sequence [] work w = last_ends (work w).0 (work w).1
perform-sequence (m ∷ ms) work w =
    sequence_after ms work (m w).0 (m w).1 (perform-sequence ms work (m w).1)

pub with_instance_lock-ends :
    (body : Run ℤ) (w : World) → Takes w → with_instance_lock body w ≡ ends (body (taken w))
unfolding with_instance_lock
with_instance_lock-ends body w free = ground arith

pub sequence-KeepsLock :
    (ms : List (Run ℤ)) (work : Run ℤ)
    → All RunKeepsLock ms
    → RunKeepsLock work
    → All KeepsLock (sequence ms work)
sequence-KeepsLock [] work all keeps = (action-KeepsLock after_last work keeps, tt)
sequence-KeepsLock (m ∷ ms) work (first, all) keeps =
    (action-KeepsLock after_check m first, sequence-KeepsLock ms work all keeps)
