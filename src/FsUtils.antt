-- ===== src/FsUtils.antt =====
-- misc/fsutils.c: how paths are resolved, and how the registry is searched.
-- A `char *` that may be NULL is an `Option Str`; the numbers of the kernel's allocations are
-- counted by `Alloc`. Log messages are left out. The search yields the place of the entry.
pub mod Subpath
pub mod Resolve
pub mod Search
use refmon.Prelude.{
  ℕ, suc, ◌-◌, ◌^◌, bit_or, Bool, true, false, not, ◌&&◌, ◌||◌, Option, none, some, List, [], ◌∷◌,
  ◌++◌, ℤ, pos, negsuc, is_zero, leb, ◌==◌, has_flag, if◌then◌else◌,
}
use mathlib.Core.Option
use refmon.CStr.{Str, strlen, strncmp_is_zero, match_string, char_at}
use refmon.Kernel.{Memory, FileSystem, Alloc, pure, ◌>>=◌, call}
use refmon.Model.{PathIdentifier, RegistryEntry, Registry, Instance}

abbrev pub crit_registered_path : ℕ
crit_registered_path = 0x01

abbrev pub crit_registered_ino : ℕ
crit_registered_ino = 0x02

abbrev pub crit_absolute_path : ℕ
crit_absolute_path = 0x04

abbrev pub crit_absolute_ino : ℕ
crit_absolute_ino = 0x08

abbrev pub crit_subdir_check : ℕ
crit_subdir_check = 0x10

abbrev pub resolve_links : ℕ
resolve_links = 0x01

abbrev pub ignore_absolute_paths : ℕ
ignore_absolute_paths = 0x02

-- REFMON_NO_INO_NO is -1, held in an unsigned long.
abbrev pub no_ino_no : ℕ
no_ino_no = 2 ^ 64 - 1

abbrev pub path_max : ℕ
path_max = 4096

abbrev pub lookup_follow : ℕ
lookup_follow = 1

unfoldable pub is_subpath : Str → Str → Bool
is_subpath base_path sub_path =
    strncmp_is_zero base_path sub_path (strlen base_path)
    && (char_at sub_path (strlen base_path) == 0 || char_at sub_path (strlen base_path) == b'/')

-- -1 if the path leads nowhere, else 1 for a directory and 0 for anything else.
unfoldable pub is_dir : FileSystem → Str → ℤ
is_dir f path = elim (f.kern_path path lookup_follow) [
  | none ↦ negsuc 0
  | some p ↦ if f.is_dir_inode p then pos 1 else pos 0
]

-- The test that the loop of `search_entry` makes of an entry.
unfoldable pub entry_matches : FileSystem → Str → ℕ → ℕ → RegistryEntry → Bool
entry_matches f path ino_no search_criteria curr_node =
    (has_flag search_criteria crit_registered_path && match_string curr_node.registered.path path)
    || (has_flag search_criteria crit_registered_ino && curr_node.registered.ino_no == ino_no)
    || (has_flag search_criteria crit_absolute_path && match_string curr_node.resolved.path path)
    || (has_flag search_criteria crit_absolute_ino && curr_node.resolved.ino_no == ino_no)
    || (has_flag search_criteria crit_subdir_check
        && (not (is_zero (is_dir f curr_node.resolved.path))
            && is_subpath curr_node.resolved.path path))

-- The place of the first entry that the test accepts.
unfoldable pub find_index : (RegistryEntry → Bool) → Registry → Option ℕ
find_index test [] = none
find_index test (curr_node ∷ rest) =
    if test curr_node then some 0 else Option.map suc (find_index test rest)

unfoldable pub search_entry : FileSystem → Registry → Option Str → ℕ → ℕ → Option ℕ
search_entry f [] path ino_no search_criteria = none
search_entry f (e ∷ es) none ino_no search_criteria = none
search_entry f (e ∷ es) (some path) ino_no search_criteria =
    if match_string path []
      && (has_flag search_criteria crit_registered_path
          || has_flag search_criteria crit_absolute_path
          || has_flag search_criteria crit_subdir_check)
    then none
    else find_index (entry_matches f path ino_no search_criteria) (e ∷ es)

unfoldable pub is_resolved : Str → Bool
is_resolved path = char_at path 0 == b'/'

-- The path that `dentry_path_raw` prints for the file that the path leads to.
unfoldable pub resolve_by_links : FileSystem → Str → Option Str
resolve_by_links f working_copy = elim (f.kern_path working_copy lookup_follow) [
  | none ↦ none
  | some p ↦ elim (f.dentry_path_raw p path_max) [
    | none ↦ none
    | some temp ↦ if leb path_max (strlen temp) then none else some temp
  ]
]

-- The working directory, a slash and the path, if `snprintf` can print that with room for a NUL.
unfoldable pub resolve_by_pwd : FileSystem → Str → Option Str
resolve_by_pwd f working_copy = elim (f.pwd_path path_max) [
  | none ↦ none
  | some temp ↦
      let printed = temp ++ (b'/' ∷ working_copy) in
      if leb path_max (strlen printed) then none else some printed
]

unfoldable pub resolve_path_alloc : Memory → FileSystem → Option Str → ℕ → Alloc (Option Str)
unfolding is_resolved resolve_by_links resolve_by_pwd
resolve_path_alloc m f none flags = pure none
resolve_path_alloc m f (some []) flags = pure none
resolve_path_alloc m f (some (c ∷ cs)) flags = do
  let input_path = c ∷ cs
  working_copy ← call m.kmalloc
  if not working_copy
      then pure none
      else if has_flag flags ignore_absolute_paths && is_resolved input_path
      then pure (some input_path)
      else do
        ret_path ← call m.kmalloc
        if not ret_path
            then pure none
            else if has_flag flags resolve_links
            then pure (resolve_by_links f input_path)
            else pure (resolve_by_pwd f input_path)

unfoldable pub is_eligible : FileSystem → Registry → PathIdentifier → Bool
is_eligible f registry id =
    elim (search_entry f registry (some id.path) id.ino_no
      (bit_or (bit_or crit_absolute_path crit_absolute_ino) crit_subdir_check)) [
        | none ↦ false
        | some e ↦ true
      ]

unfoldable pub extract_ino_no_from_path : FileSystem → Str → ℕ
extract_ino_no_from_path f path = elim (f.kern_path path 0) [
  | none ↦ no_ino_no
  | some p ↦ f.i_ino p
]

-- The outer `none` is a fault: `strcat` is called on the error pointer of `dentry_path_raw`, or on
-- memory that cannot be read. The buffer is freed before `strcat` reads the string in it and before
-- a pointer into it is returned: what the caller gets is what the freed memory then holds. All
-- reads of that pointer are taken to give the same string.
unfoldable pub extract_path_from_dentry : Memory → FileSystem → ℕ → Alloc (Option (Option Str))
extract_path_from_dentry m f dentry = do
  buffer ← call m.kmalloc
  if not buffer then pure (some none) else elim (f.dentry_path_raw dentry path_max) [
    | none ↦ pure none
    | some ret ↦ λ n. (elim (m.read_freed n ret) [ none ↦ none | some s ↦ some (some s) ], n)
  ]

unfoldable pub find_entry_by_regpath_alloc :
    Memory → FileSystem → Registry → Option Str → Alloc (Option ℕ)
find_entry_by_regpath_alloc m f registry registered_path = do
  solved ← resolve_path_alloc m f registered_path ignore_absolute_paths
  elim solved [
    | none ↦ pure none
    | some path ↦ pure (search_entry f registry (some path) no_ino_no crit_registered_path)
  ]
