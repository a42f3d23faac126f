-- ===== src/Syscalls/Tables.antt =====
-- What each operation on the registry returns, and what it leaves, if nothing fails.
use refmon.Prelude.{
  ℕ, ◌≡◌, refl, false, not, Option, none, some, [], ◌∷◌, Option-cases, inl, inr, ℤ, is_zero, arith,
  neg_einval, if◌then◌else◌,
}
use refmon.CStr.{Str, match_string}
use refmon.Kernel.{Kernel, FileSystem}
use refmon.Kernel.Documented.{MemoryWorks, CryptoWorks, PathsAbsolute}
use refmon.Model.{Instance, Registry, is_reconf}
use refmon.FsUtils.{ignore_absolute_paths, resolve_path_alloc, find_entry_by_regpath_alloc}
use refmon.FsUtils.Resolve.{
  canonical, canonical-IsAbsolute, resolve_path_alloc_works, find_entry_works,
}
use refmon.Safety.{all_checks, safety_checks, sanitize_user_input_alloc}
use refmon.Safety.Decision.{decision, hash, safety_checks-decision, sanitize_works}
use refmon.AddFile.Outcome.{addition, add_file-addition}
use refmon.Removal.{registered_at, removal}
use refmon.World.{World, locked}
use refmon.Handlers.{
  with_instance_lock, reconf_add_body, reconf_rm_body, flush_body, unlink_each, find_for_removal,
  do_reconf_add, do_reconf_rm, do_flush_registry,
}
use refmon.Syscalls.{sys_reconf_add, sys_reconf_rm, sys_flush, syscall}

-- Nothing fails in the kernel.
pub record Works (k : Kernel) : Type 0 where
  pub memory : MemoryWorks k.memory
  pub crypto : CryptoWorks k.crypto
  pub paths : PathsAbsolute k.files

-- The checks first, then the path, then the work on the registry.
abbrev pub behind_checks :
    (FileSystem → Registry → Str → ℤ × Registry) → Kernel → Instance → Str → Str → ℤ × Registry
behind_checks work k i path password =
    let d = decision k.current_euid i (hash k) password in
    if not (is_zero d)
    then (d, i.registry)
    else if match_string path []
    then (neg_einval, i.registry)
    else work k.files i.registry path

-- The call returns the first part, and leaves the second as the registry.
abbrev pub Gives : Option ℤ × World → ℤ × Registry → Type 0
Gives out r = (out.0 ≡ some r.0) × (out.1.instance.registry ≡ r.1)

find_entry_null :
    (k : Kernel) (n : ℕ) (registry : Registry)
    → (find_entry_by_regpath_alloc k.memory k.files registry none n).0 ≡ none
unfolding find_entry_by_regpath_alloc resolve_path_alloc
find_entry_null k n registry = refl

module _ (k : Kernel) (path password : Str) (works : Works k) where
  reconf_add_body_lem :
      (w : World)
      → Gives
          (reconf_add_body k (some path) (some password) w)
          (behind_checks addition k w.instance path password)
  unfolding reconf_add_body
  reconf_add_body_lem w =
      let checked = safety_checks k w.instance all_checks (some password) w.calls in
      let sanitized = sanitize_user_input_alloc k.memory (some path) checked.1 in
      ground (
        arith,
        safety_checks-decision k w.instance password w.calls works.memory works.crypto,
        sanitize_works k.memory path checked.1 works.memory,
        add_file-addition k.memory k.files w.instance.registry path sanitized.1 works.memory
            works.paths,
      )

  find_for_removal_works :
      (i : Instance) (n : ℕ)
      → (find_for_removal k path i n).0 ≡ registered_at k.files i.registry path
  unfolding find_for_removal registered_at
  find_for_removal_works i n =
      let resolved = resolve_path_alloc k.memory k.files (some path) ignore_absolute_paths n in
      let same =
        resolve_path_alloc_works k.memory k.files path ignore_absolute_paths n works.memory in
      elim (Option-cases (canonical k.files path ignore_absolute_paths)) [
        | inl c ↦ ground (arith, same, find_entry_null k resolved.1 i.registry)
        | inr (q, c) ↦ ground (
          arith,
          same,
          find_entry_works k.memory k.files i.registry q resolved.1 works.memory
              (canonical-IsAbsolute k.files path ignore_absolute_paths q works.paths c),
        )
      ]

  reconf_rm_body_lem :
      (w : World)
      → Gives
          (reconf_rm_body k (some path) (some password) w)
          (behind_checks removal k w.instance path password)
  unfolding reconf_rm_body removal
  reconf_rm_body_lem w =
      let checked = safety_checks k w.instance all_checks (some password) w.calls in
      let sanitized = sanitize_user_input_alloc k.memory (some path) checked.1 in
      ground (
        arith,
        safety_checks-decision k w.instance password w.calls works.memory works.crypto,
        sanitize_works k.memory path checked.1 works.memory,
        find_for_removal_works w.instance sanitized.1,
      )

  -- If nothing fails, adding a path does what `addition` says behind the checks: the registry is
  -- not touched unless the task is root, the state reconfigurable and the password right.
  pub sys_reconf_add_lem :
      (w : World)
      → w.instance.spinlock_inst ≡ false
      → Gives
          (syscall k (sys_reconf_add (some path) (some password)) w)
          (behind_checks addition k w.instance path password)
  unfolding syscall do_reconf_add with_instance_lock decision is_reconf
  sys_reconf_add_lem w free =
      ground (arith, (reconf_add_body_lem (locked w)).0, (reconf_add_body_lem (locked w)).1)

  -- If nothing fails, removing a path does what `removal` says behind the checks.
  pub sys_reconf_rm_lem :
      (w : World)
      → w.instance.spinlock_inst ≡ false
      → Gives
          (syscall k (sys_reconf_rm (some path) (some password)) w)
          (behind_checks removal k w.instance path password)
  unfolding syscall do_reconf_rm with_instance_lock decision is_reconf
  sys_reconf_rm_lem w free =
      ground (arith, (reconf_rm_body_lem (locked w)).0, (reconf_rm_body_lem (locked w)).1)

pub unlink_each_all : (registry : Registry) → unlink_each registry ≡ []
unfolding unlink_each
unlink_each_all [] = refl
unlink_each_all (node ∷ rest) = unlink_each_all rest

module _ (k : Kernel) (password : Str) (works : Works k) where
  flush_body_lem :
      (w : World)
      → let d = decision k.current_euid w.instance (hash k) password in
        Gives (flush_body k (some password) w) (d, if is_zero d then [] else w.instance.registry)
  unfolding flush_body
  flush_body_lem w = ground (
    arith,
    safety_checks-decision k w.instance password w.calls works.memory works.crypto,
    unlink_each_all w.instance.registry,
  )

  -- If nothing fails, a flush that the checks let through empties the registry, and any other
  -- leaves it as it was.
  pub sys_flush_lem :
      (w : World)
      → w.instance.spinlock_inst ≡ false
      → let d = decision k.current_euid w.instance (hash k) password in
        Gives
          (syscall k (sys_flush (some password)) w)
          (d, if is_zero d then [] else w.instance.registry)
  unfolding syscall do_flush_registry with_instance_lock decision is_reconf
  sys_flush_lem w free =
      ground (arith, (flush_body_lem (locked w)).0, (flush_body_lem (locked w)).1)
