-- ===== src/Monitor.antt =====
-- What the system calls promise: a monitor that holds a state, a stored password and a map from
-- registered paths to entries. It knows no list, no locks, no probes and no allocations.
pub mod View
pub mod Refinement
pub mod Simulation
pub mod Progress
pub mod Access
use refmon.Prelude.{
  ℕ, bit_or, Bool, not, ◌||◌, Option, none, some, List, [], ◌∷◌, ℤ, pos, is_zero, ◌==◌,
  if◌then◌else◌, neg_eperm, neg_enoent, neg_eacces, neg_eexist, neg_einval,
}
use refmon.CStr.{Str, match_string}
use refmon.Kernel.{Kernel, FileSystem}
use refmon.Model.{
  RefmonState, is_state, rec_off, rec_on, RegistryEntry, string_to_state, is_state_valid,
}
use refmon.FsUtils.{resolve_links, ignore_absolute_paths, no_ino_no, extract_ino_no_from_path}
use refmon.FsUtils.Resolve.{canonical}
use refmon.Safety.Decision.{hash}
use refmon.Syscalls.{Syscall, sys_set_state, sys_reconf_add, sys_reconf_rm, sys_flush}

abbrev pub Protected : Type 0
Protected = Str → Option RegistryEntry

pub record Monitor : Type 0 where
  pub state : RefmonState
  pub stored : Str
  pub protected : Protected

-- A system call whose arguments are not NULL.
pub data Request : Type 0 where
  set_state : Str → Request
  add remove : Str → Str → Request
  flush : Str → Request

abbrev pub as_syscall : Request → Syscall
as_syscall (set_state s) = sys_set_state (some s)
as_syscall (add path password) = sys_reconf_add (some path) (some password)
as_syscall (remove path password) = sys_reconf_rm (some path) (some password)
as_syscall (flush password) = sys_flush (some password)

abbrev pub nothing : Protected
nothing p = none

abbrev pub insert : RegistryEntry → Protected → Protected
insert e m p = if match_string e.registered.path p then some e else m p

abbrev pub delete : Str → Protected → Protected
delete q m p = if match_string q p then none else m p

-- Root, in a state for reconfiguration, with the right password.
unfoldable pub allowed : Kernel → Monitor → Str → ℤ
allowed k a password =
    if not (k.current_euid == 0)
    then neg_eacces
    else if not (is_state a.state rec_off || is_state a.state rec_on)
    then neg_eperm
    else if match_string password []
    then neg_einval
    else if match_string (hash k password) a.stored
    then pos 0
    else neg_eacces

-- The entry for a path whose canonical form is `q`, if the path and what it resolves to have inodes.
unfoldable pub new_entry : FileSystem → Str → Str → Option RegistryEntry
new_entry f path q = elim (canonical f path (bit_or resolve_links ignore_absolute_paths)) [
  | none ↦ none
  | some r ↦
      if extract_ino_no_from_path f path == no_ino_no
      then none
      else if extract_ino_no_from_path f r == no_ino_no
      then none
      else some (record {
        registered = record { path = q; ino_no = extract_ino_no_from_path f path };
        resolved = record { path = r; ino_no = extract_ino_no_from_path f r };
      })
]

unfoldable pub add_path : FileSystem → Str → Protected → ℤ × Protected
unfolding new_entry
add_path f path m = elim (canonical f path ignore_absolute_paths) [
  | none ↦ (neg_einval, m)
  | some q ↦ elim (m q) [
    | some e ↦ (neg_eexist, m)
    | none ↦ elim (new_entry f path q) [ none ↦ (neg_einval, m) | some e ↦ (pos 0, insert e m) ]
  ]
]

unfoldable pub remove_path : FileSystem → Str → Protected → ℤ × Protected
remove_path f path m = elim (canonical f path ignore_absolute_paths) [
  | none ↦ (neg_enoent, m)
  | some q ↦ elim (m q) [ none ↦ (neg_enoent, m) | some e ↦ (pos 0, delete q m) ]
]

-- An operation on the map by a caller who may do it, on a path that is not empty.
abbrev pub guarded :
    (FileSystem → Str → Protected → ℤ × Protected) → Kernel → Monitor → Str → Str → ℤ × Protected
guarded operation k a path password =
    let d = allowed k a password in
    if not (is_zero d)
    then (d, a.protected)
    else if match_string path []
    then (neg_einval, a.protected)
    else operation k.files path a.protected

-- What a request returns, and the monitor after it.
unfoldable pub serve : Kernel → Request → Monitor → ℤ × Monitor
serve k (set_state s) a =
    if not (k.current_euid == 0)
    then (neg_eacces, a)
    else if not (is_state_valid s)
    then (neg_einval, a)
    else (pos 0, record a { state = string_to_state s })
serve k (add path password) a =
    let (ret, m) = guarded add_path k a path password in (ret, record a { protected = m })
serve k (remove path password) a =
    let (ret, m) = guarded remove_path k a path password in (ret, record a { protected = m })
serve k (flush password) a =
    let d = allowed k a password in
    (d, record a { protected = if is_zero d then nothing else a.protected })
