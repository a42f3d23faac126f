-- ===== src/Syscalls/RoundTrip.antt =====
-- Adding and removing paths, one call after the other.
use refmon.Prelude.{◌≡◌, false, Option, some, ℤ, pos, arith, neg_eexist, neg_enoent}
use refmon.CStr.{Str}
use refmon.Kernel.{Kernel, FileSystem}
use refmon.Model.{Registry, is_reconf}
use refmon.Safety.Decision.{decision}
use refmon.AddFile.Outcome.{addition}
use refmon.AddFile.Invariant.{WellFormed}
use refmon.Removal.{removal, removal-addition, addition-addition, removal-removal}
use refmon.World.{World}
use refmon.Handlers.{
  with_instance_lock, reconf_add_body, reconf_rm_body, do_reconf_add, do_reconf_rm,
}
use refmon.Syscalls.{sys_reconf_add, sys_reconf_rm, syscall}
use refmon.Syscalls.Lock.{syscall_releases}
use refmon.Syscalls.Tables.{Works, behind_checks, Gives, sys_reconf_add_lem, sys_reconf_rm_lem}

-- The state and the password are those of before.
abbrev SameGuard : World → World → Type 0
SameGuard w w' =
    (w'.instance.state ≡ w.instance.state) × (w'.instance.password ≡ w.instance.password)

module _ (k : Kernel) (p q : Option Str) (w : World) where
  reconf_add_frame : SameGuard w (syscall k (sys_reconf_add p q) w).1
  unfolding syscall do_reconf_add with_instance_lock reconf_add_body
  reconf_add_frame = ground arith

  reconf_rm_frame : SameGuard w (syscall k (sys_reconf_rm p q) w).1
  unfolding syscall do_reconf_rm with_instance_lock reconf_rm_body
  reconf_rm_frame = ground arith

-- Where one call got past the checks with 0, so does a later one with the same password.
next_behind_checks :
    (k : Kernel) (first second : FileSystem → Registry → Str → ℤ × Registry) (w w' : World)
    (path password : Str)
    → SameGuard w w'
    → (behind_checks first k w.instance path password).0 ≡ pos 0
    → (behind_checks first k w.instance path password ≡ first k.files w.instance.registry path)
      × (behind_checks second k w'.instance path password
          ≡ second k.files w'.instance.registry path)
unfolding decision is_reconf
next_behind_checks k first second w w' path password same h = ground arith

module _ (k : Kernel) (path password : Str) (works : Works k) (w : World) where
  abbrev add : World → Option ℤ × World
  add = syscall k (sys_reconf_add (some path) (some password))

  abbrev remove : World → Option ℤ × World
  remove = syscall k (sys_reconf_rm (some path) (some password))

  -- What an addition that returns 0 has done, and what the next call of either kind will do.
  pub add_done :
      (next : FileSystem → Registry → Str → ℤ × Registry)
      → (add w).0 ≡ some (pos 0)
      → ((addition k.files w.instance.registry path).0 ≡ pos 0)
        × ((add w).1.instance.registry ≡ (addition k.files w.instance.registry path).1)
        × ((add w).1.instance.spinlock_inst ≡ false)
        × (behind_checks next k (add w).1.instance path password
            ≡ next k.files (add w).1.instance.registry path)
  add_done next h =
      let (free, still) = syscall_releases k _ w (pos 0) h in
      let (ret, left) = sys_reconf_add_lem k path password works w free in
      let frame = reconf_add_frame k (some path) (some password) w in
      let both =
        next_behind_checks k addition next w (add w).1 path password frame (ground arith) in
      (ground (arith, both.0), ground (arith, both.0), still, both.1)

  -- If nothing fails, removing a path that was just added returns 0 and gives the registry back.
  pub remove-add : (add w).0 ≡ some (pos 0) → Gives (remove (add w).1) (pos 0, w.instance.registry)
  remove-add h =
      let (ok, grown, free, then_) = add_done removal h in
      let out = sys_reconf_rm_lem k path password works (add w).1 free in
      ground (arith, out.0, out.1, removal-addition k.files w.instance.registry path works.paths ok)

  -- If nothing fails, adding a path that was just added returns EEXIST and leaves the registry.
  pub add-add :
      (add w).0 ≡ some (pos 0) → Gives (add (add w).1) (neg_eexist, (add w).1.instance.registry)
  add-add h =
      let (ok, grown, free, then_) = add_done addition h in
      let out = sys_reconf_add_lem k path password works (add w).1 free in
      ground
        (arith, out.0, out.1, addition-addition k.files w.instance.registry path works.paths ok)

  -- If nothing fails, removing a path that was just removed from a well-formed registry returns
  -- ENOENT and leaves the registry.
  pub remove-remove :
      WellFormed w.instance.registry
      → (remove w).0 ≡ some (pos 0)
      → Gives (remove (remove w).1) (neg_enoent, (remove w).1.instance.registry)
  remove-remove wf h =
      let (free, still) = syscall_releases k _ w (pos 0) h in
      let (ret, left) = sys_reconf_rm_lem k path password works w free in
      let frame = reconf_rm_frame k (some path) (some password) w in
      let both =
        next_behind_checks k removal removal w (remove w).1 path password frame (ground arith) in
      let out = sys_reconf_rm_lem k path password works (remove w).1 still in
      ground (
        arith,
        out.0,
        out.1,
        both.0,
        both.1,
        removal-removal k.files w.instance.registry path works.paths wf,
      )
