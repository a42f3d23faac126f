-- ===== src/Locking/Steps.antt =====
-- Every step of the interleaved system calls keeps the invariant, and what they do to the whole is
-- what the monitor does for the same requests (model/instance.h, syscalls/syscalls-handlers.c).
use refmon.Prelude.{
  ℕ, All, false, ◌≡◌, ◌≢◌, refl, sym, ap, ◌∙◌, Bool-cases, inl, inr, List, [], ◌∷◌, ◌++◌, ℤ, ◌==◌,
  ==_iff,
}
use mathlib.Core.Path.{subst}
use refmon.Kernel.{Kernel}
use refmon.World.{World}
use refmon.Syscalls.Tables.{Works}
use refmon.Monitor.{Monitor, Request, as_syscall}
use refmon.Monitor.Simulation.{run_calls}
use refmon.Locking.{
  Slot, going, gives, Action, perform, unlocked, finish, KeepsLock, Parts, inside, returned, update,
  Config, start, Step, Takes, taken, spin, acquire, act, release, Reach, here, later,
}
use refmon.Locking.Serial.{
  taken_held, held_waits, spins_still, unlocked_free, NotInside, actions_of, slot_of, update_here,
  update_other, Serial-append, Free, Held, Inv, calls,
}

module _ (call : ℕ → Kernel × Request) (parts : (i : ℕ) → Parts (call i).0 (as_syscall (call i).1))
    (w0 : World) where
  acquire-Inv :
      (c : Config) (i : ℕ)
      → Takes c.world
      → Free call parts w0 c
      → Held call parts w0 (record c {
        world = taken c.world;
        cpu = update c.cpu i (inside (parts i).actions going);
      })
  acquire-Inv c i takes inv = record {
    holder = i;
    before = c.world;
    rest = (parts i).actions;
    slot = going;
    held = taken_held c.world takes;
    is_inside = update_here c.cpu i (inside (parts i).actions going);
    was_free = takes;
    serial = inv.serial;
    completes = refl;
    keeps = (parts i).keeps;
    others = λ j ne.
        subst NotInside (sym (update_other c.cpu i j (inside (parts i).actions going) ne))
          (inv.none_inside j);
  }

  -- Only the holder of the lock acts.
  acts_alone :
      (c : Config) (inv : Held call parts w0 c) (i : ℕ) (rest : List Action) (slot : Slot)
      → c.cpu i ≡ inside rest slot
      → i ≡ inv.holder
  acts_alone c inv i rest slot e = elim (Bool-cases (i == inv.holder)) [
    | inl same ↦ (==_iff i inv.holder).0 same
    | inr other ↦
        let ne : i ≢ inv.holder = λ e'. let same = (==_iff i inv.holder).1 e' in cc in
        absurd (subst NotInside e (inv.others i ne))
  ]

  act-Inv :
      (c : Config) (i : ℕ) (a : Action) (rest : List Action) (slot : Slot)
      → Held call parts w0 c
      → c.cpu i ≡ inside (a ∷ rest) slot
      → Held call parts w0 (record c {
        world = (a (c.world, slot)).0;
        cpu = update c.cpu i (inside rest (a (c.world, slot)).1);
      })
  act-Inv c i a rest slot inv e =
      let mine = acts_alone c inv i (a ∷ rest) slot e in
      let there = sym inv.is_inside ∙ ap c.cpu (sym mine) ∙ e in
      let same = ap actions_of there in
      let keeps : KeepsLock a × All KeepsLock rest = subst (All KeepsLock) same inv.keeps in
      record {
        holder = i;
        before = inv.before;
        rest = rest;
        slot = (a (c.world, slot)).1;
        held = keeps.0 (c.world, slot) inv.held;
        is_inside = update_here c.cpu i (inside rest (a (c.world, slot)).1);
        was_free = inv.was_free;
        serial = inv.serial;
        completes = rw mine (
            ap (λ (s : List Action × Slot). perform s.0 (c.world, s.1))
              (sym (ap (λ x. (actions_of x, slot_of x)) there))
            ∙ inv.completes);
        keeps = keeps.1;
        others = λ j ne.
            subst NotInside (sym (update_other c.cpu i j (inside rest (a (c.world, slot)).1) ne))
              (inv.others j (λ e'. ne (e' ∙ sym mine)));
      }

  release-Inv :
      (c : Config) (i : ℕ) (ret : ℤ)
      → Held call parts w0 c
      → c.cpu i ≡ inside [] (gives ret)
      → Free call parts w0 (record {
        world = unlocked c.world;
        cpu = update c.cpu i (returned ret);
        history = c.history ++ (i, ret) ∷ [];
      })
  release-Inv c i ret inv e =
      let mine = acts_alone c inv i [] (gives ret) e in
      let there = sym inv.is_inside ∙ ap c.cpu (sym mine) ∙ e in
      let left : (c.world, gives ret) ≡ perform (parts i).actions (taken inv.before, going) =
        rw mine (
          ap (λ (s : List Action × Slot). perform s.0 (c.world, s.1))
            (sym (ap (λ x. (actions_of x, slot_of x)) there))
          ∙ inv.completes) in
      let ends = sym ((parts i).whole inv.before inv.was_free) ∙ sym (ap finish left) in
      record {
        free = unlocked_free c.world;
        serial =
            Serial-append call parts w0 c.history i ret inv.before (unlocked c.world) inv.serial
              ends;
        none_inside = λ j. elim (Bool-cases (j == i)) [
          | inl same ↦ rw same tt
          | inr other ↦
              rw other (inv.others j (λ e'. let same = (==_iff j i).1 (e' ∙ sym mine) in cc))
        ];
      }

  Step-Inv : {c d : Config} → Step call parts c d → Inv call parts w0 c → Inv call parts w0 d
  Step-Inv {c} (spin i e waits) inv =
      subst (λ w. Inv call parts w0 (record c { world = w })) (sym (spins_still c.world waits)) inv
  Step-Inv {c} (acquire i e takes) (inl inv) = inr (acquire-Inv c i takes inv)
  Step-Inv {c} (acquire i e takes) (inr inv) = absurd (held_waits c.world inv.held takes)
  Step-Inv {c} (act i a rest slot e) (inl inv) = absurd (subst NotInside e (inv.none_inside i))
  Step-Inv {c} (act i a rest slot e) (inr inv) = inr (act-Inv c i a rest slot inv e)
  Step-Inv {c} (release i ret e) (inl inv) = absurd (subst NotInside e (inv.none_inside i))
  Step-Inv {c} (release i ret e) (inr inv) = inl (release-Inv c i ret inv e)

  pub Reach-Inv :
      {c : Config}
      → w0.instance.spinlock_inst ≡ false
      → Reach call parts (start w0) c
      → Inv call parts w0 c
  unfolding run_calls
  Reach-Inv free here = inl (record { free = free; serial = refl; none_inside = λ j. tt })
  Reach-Inv free (later r st) = Step-Inv st (Reach-Inv free r)

pub calls-Works :
    (call : ℕ → Kernel × Request)
    → ((i : ℕ) → Works (call i).0)
    → (hs : List (ℕ × ℤ)) → All (λ r. Works r.0) (calls call hs)
calls-Works call works [] = tt
calls-Works call works ((i, ret) ∷ hs) = (works i, calls-Works call works hs)
