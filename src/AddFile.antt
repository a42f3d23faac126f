-- ===== src/AddFile.antt =====
-- `_add_file` of syscalls/syscalls-handlers.c: how a path enters the registry.
-- The function returns its value and the registry, which it changes only at its end.
pub mod Outcome
pub mod Invariant
use refmon.Prelude.{
  bit_or, Bool, not, Option, none, some, [], ◌∷◌, ◌++◌, ℤ, pos, ◌==◌, if◌then◌else◌, neg_enomem,
  neg_eexist, neg_einval,
}
use refmon.CStr.{Str}
use refmon.Kernel.{Memory, FileSystem, Alloc, pure, ◌>>=◌, call}
use refmon.Model.{RegistryEntry, Registry}
use refmon.FsUtils.{
  resolve_links, ignore_absolute_paths, no_ino_no, resolve_path_alloc, find_entry_by_regpath_alloc,
  extract_ino_no_from_path,
}

-- The node, and its place at the tail of the list.
unfoldable pub add_node : Memory → FileSystem → Registry → Str → Str → Str → Alloc (ℤ × Registry)
add_node m f registry path registered_path resolved_path = do
  let ino_registered = extract_ino_no_from_path f path
  if ino_registered == no_ino_no then pure (neg_einval, registry) else do
    let ino_resolved = extract_ino_no_from_path f resolved_path
    if ino_resolved == no_ino_no then pure (neg_einval, registry) else do
      node ← call m.kmalloc
      if not node then pure (neg_enomem, registry) else do
        let entry : RegistryEntry = record {
          registered = record { path = registered_path; ino_no = ino_registered };
          resolved = record { path = resolved_path; ino_no = ino_resolved };
        }
        pure (pos 0, registry ++ (entry ∷ []))

-- What follows the search for an entry of the same path.
unfoldable pub add_resolved : Memory → FileSystem → Registry → Str → Str → Alloc (ℤ × Registry)
add_resolved m f registry path registered_path = do
  buffer ← call m.kmalloc
  if not buffer then pure (neg_enomem, registry) else do
    resolved ← resolve_path_alloc m f (some path) (bit_or resolve_links ignore_absolute_paths)
    elim resolved [
      | none ↦ pure (neg_einval, registry)
      | some resolved_path ↦ add_node m f registry path registered_path resolved_path
    ]

unfoldable pub add_file : Memory → FileSystem → Registry → Str → Alloc (ℤ × Registry)
add_file m f registry path = do
  buffer ← call m.kmalloc
  if not buffer then pure (neg_enomem, registry) else do
    registered ← resolve_path_alloc m f (some path) ignore_absolute_paths
    elim registered [
      | none ↦ pure (neg_einval, registry)
      | some registered_path ↦ do
        found ← find_entry_by_regpath_alloc m f registry (some registered_path)
        elim found [
          | some e ↦ pure (neg_eexist, registry)
          | none ↦ add_resolved m f registry path registered_path
        ]
    ]
