-- ===== src/AddFile/Outcome.antt =====
-- What `_add_file` does on each of its paths.
use refmon.Prelude.{
  is_zero, ap, ℕ, ◌+◌, bit_or, ◌≡◌, ◌≢◌, ◌⊎◌, inl, inr, refl, false, none, some, Option-cases, [],
  ◌∷◌, ◌++◌, arith, ℤ, pos, ◌==◌, if◌then◌else◌, neg_eexist, neg_einval,
}
use refmon.CStr.{Str}
use refmon.Kernel.{Memory, FileSystem}
use refmon.Kernel.Documented.{MemoryWorks, PathsAbsolute}
use refmon.Model.{RegistryEntry, Registry}
use refmon.FsUtils.{
  resolve_links, ignore_absolute_paths, no_ino_no, resolve_path_alloc, find_entry_by_regpath_alloc,
  extract_ino_no_from_path, search_entry, crit_registered_path,
}
use refmon.FsUtils.Resolve.{
  canonical, resolve_path_alloc_cases, resolve_path_alloc_works, canonical-IsAbsolute,
  find_entry_works,
}
use refmon.AddFile.{add_node, add_resolved, add_file}

-- The entry that a path gets: its two paths are canonical, and both lead to an inode.
pub record IsEntryOf (f : FileSystem) (path : Str) (e : RegistryEntry) : Type 0 where
  pub registered_path : canonical f path ignore_absolute_paths ≡ some e.registered.path
  pub registered_ino : extract_ino_no_from_path f path ≡ e.registered.ino_no
  pub resolved_path :
      canonical f path (bit_or resolve_links ignore_absolute_paths) ≡ some e.resolved.path
  pub resolved_ino : extract_ino_no_from_path f e.resolved.path ≡ e.resolved.ino_no
  pub registered_found : e.registered.ino_no ≢ no_ino_no
  pub resolved_found : e.resolved.ino_no ≢ no_ino_no

-- What follows the search for the path, if memory does not run out.
unfoldable pub with_resolved : FileSystem → Registry → Str → Str → ℤ × Registry
with_resolved f registry path registered_path =
    elim (canonical f path (bit_or resolve_links ignore_absolute_paths)) [
      | none ↦ (neg_einval, registry)
      | some resolved_path ↦
          if extract_ino_no_from_path f path == no_ino_no
          then (neg_einval, registry)
          else if extract_ino_no_from_path f resolved_path == no_ino_no
          then (neg_einval, registry)
          else (
            pos 0,
            registry
                ++ (record {
                  registered = record {
                    path = registered_path;
                    ino_no = extract_ino_no_from_path f path;
                  };
                  resolved = record {
                    path = resolved_path;
                    ino_no = extract_ino_no_from_path f resolved_path;
                  };
                }
                    ∷ []),
          )
    ]

-- What `_add_file` returns if memory does not run out.
unfoldable pub addition : FileSystem → Registry → Str → ℤ × Registry
addition f registry path = elim (canonical f path ignore_absolute_paths) [
  | none ↦ (neg_einval, registry)
  | some registered_path ↦
      elim (search_entry f registry (some registered_path) no_ino_no crit_registered_path) [
        | some i ↦ (neg_eexist, registry)
        | none ↦ with_resolved f registry path registered_path
      ]
]

module _ (m : Memory) (f : FileSystem) (registry : Registry) (path registered_path : Str) where
  add_resolved_works :
      (n : ℕ)
      → MemoryWorks m
      → (add_resolved m f registry path registered_path n).0
        ≡ with_resolved f registry path registered_path
  unfolding add_resolved add_node with_resolved
  add_resolved_works n w =
      let r =
        resolve_path_alloc m f (some path) (bit_or resolve_links ignore_absolute_paths) (n + 1) in
      ground (
        arith,
        w.kmalloc n,
        w.kmalloc r.1,
        resolve_path_alloc_works m f path (bit_or resolve_links ignore_absolute_paths) (n + 1) w,
      )

-- With memory at hand `_add_file` follows the decision table `addition`: EINVAL for a path that does not
-- resolve or has no inode, EEXIST for one that is registered, else a new entry at the tail.
pub add_file-addition :
    (m : Memory) (f : FileSystem) (registry : Registry) (path : Str) (n : ℕ)
    → MemoryWorks m
    → PathsAbsolute f
    → (add_file m f registry path n).0 ≡ addition f registry path
unfolding add_file addition
add_file-addition m f registry path n mw pa =
    let r = resolve_path_alloc m f (some path) ignore_absolute_paths (n + 1) in
    let works = resolve_path_alloc_works m f path ignore_absolute_paths (n + 1) mw in
    elim (Option-cases (canonical f path ignore_absolute_paths)) [
      | inl e ↦ ground (arith, mw.kmalloc n, works)
      | inr (q, e) ↦
          let absolute = canonical-IsAbsolute f path ignore_absolute_paths q pa e in
          let found = find_entry_by_regpath_alloc m f registry (some q) r.1 in
          ground (
            arith,
            mw.kmalloc n,
            works,
            find_entry_works m f registry q r.1 mw absolute,
            add_resolved_works m f registry path q found.1 mw,
          )
    ]

-- What `_add_file` may do to the registry: nothing, with an error, or one entry for the path at its
-- tail, with 0.
pub data Added (f : FileSystem) (registry : Registry) (path : Str) (r : ℤ × Registry) : Type 0 where
  refused : is_zero r.0 ≡ false → r.1 ≡ registry → Added f registry path r
  appended :
      (e : RegistryEntry)
      → IsEntryOf f path e
      → r.0 ≡ pos 0
      → r.1 ≡ registry ++ e ∷ []
      → Added f registry path r

abbrev pub entry_of : FileSystem → Str → Str → Str → RegistryEntry
entry_of f path registered_path resolved_path = record {
  registered = record { path = registered_path; ino_no = extract_ino_no_from_path f path };
  resolved = record { path = resolved_path; ino_no = extract_ino_no_from_path f resolved_path };
}

abbrev Refused : Registry → ℤ × Registry → Type 0
Refused registry r = (is_zero r.0 ≡ false) × (r.1 ≡ registry)

abbrev Appended : FileSystem → Registry → Str → Str → Str → ℤ × Registry → Type 0
Appended f registry path p q r =
    (r ≡ (pos 0, registry ++ entry_of f path p q ∷ []))
    × (extract_ino_no_from_path f path ≢ no_ino_no)
    × (extract_ino_no_from_path f q ≢ no_ino_no)

module _ (m : Memory) (f : FileSystem) (registry : Registry) (path : Str) where
  add_node_cases :
      (p q : Str) (n : ℕ)
      → Refused registry (add_node m f registry path p q n).0
        ⊎ Appended f registry path p q (add_node m f registry path p q n).0
  unfolding add_node
  add_node_cases p q n = ground arith

  add_resolved-none :
      (p : Str) (n : ℕ)
      → canonical f path (bit_or resolve_links ignore_absolute_paths) ≡ none
      → Refused registry (add_resolved m f registry path p n).0
  unfolding add_resolved
  add_resolved-none p n e = ground (
    arith,
    resolve_path_alloc_cases m f path (bit_or resolve_links ignore_absolute_paths) (n + 1),
  )

  add_resolved_cases :
      (p q : Str) (n : ℕ)
      → canonical f path (bit_or resolve_links ignore_absolute_paths) ≡ some q
      → Refused registry (add_resolved m f registry path p n).0
        ⊎ Appended f registry path p q (add_resolved m f registry path p n).0
  unfolding add_resolved
  add_resolved_cases p q n e =
      let flags = bit_or resolve_links ignore_absolute_paths in
      let r = resolve_path_alloc m f (some path) flags (n + 1) in
      ground (arith, resolve_path_alloc_cases m f path flags (n + 1), add_node_cases p q r.1)

  add_file-none :
      (n : ℕ)
      → canonical f path ignore_absolute_paths ≡ none
      → Refused registry (add_file m f registry path n).0
  unfolding add_file
  add_file-none n e =
      ground (arith, resolve_path_alloc_cases m f path ignore_absolute_paths (n + 1))

  add_file_cases :
      (p q : Str) (n : ℕ)
      → canonical f path ignore_absolute_paths ≡ some p
      → canonical f path (bit_or resolve_links ignore_absolute_paths) ≡ some q
      → Refused registry (add_file m f registry path n).0
        ⊎ Appended f registry path p q (add_file m f registry path n).0
  unfolding add_file
  add_file_cases p q n ep eq =
      let r = resolve_path_alloc m f (some path) ignore_absolute_paths (n + 1) in
      let found = find_entry_by_regpath_alloc m f registry (some p) r.1 in
      ground (
        arith,
        resolve_path_alloc_cases m f path ignore_absolute_paths (n + 1),
        add_resolved_cases p q found.1,
      )

  add_file_unresolved :
      (p : Str) (n : ℕ)
      → canonical f path ignore_absolute_paths ≡ some p
      → canonical f path (bit_or resolve_links ignore_absolute_paths) ≡ none
      → Refused registry (add_file m f registry path n).0
  unfolding add_file
  add_file_unresolved p n ep eq =
      let r = resolve_path_alloc m f (some path) ignore_absolute_paths (n + 1) in
      let found = find_entry_by_regpath_alloc m f registry (some p) r.1 in
      ground (
        arith,
        resolve_path_alloc_cases m f path ignore_absolute_paths (n + 1),
        add_resolved-none p found.1,
      )

-- Whatever fails, `_add_file` either returns an error and leaves the registry alone, or returns 0
-- and appends one entry whose two paths are canonical and whose inode numbers are those found.
pub add_file-Added :
    (m : Memory) (f : FileSystem) (registry : Registry) (path : Str) (n : ℕ)
    → Added f registry path (add_file m f registry path n).0
add_file-Added m f registry path n = elim (Option-cases (canonical f path ignore_absolute_paths)) [
  | inl e ↦ let (err, same) = add_file-none m f registry path n e in refused err same
  | inr (p, ep) ↦
      elim (Option-cases (canonical f path (bit_or resolve_links ignore_absolute_paths))) [
        | inl e ↦
            let (err, same) = add_file_unresolved m f registry path p n ep e in refused err same
        | inr (q, eq) ↦ elim (add_file_cases m f registry path p q n ep eq) [
          | inl (err, same) ↦ refused err same
          | inr (r, i, j) ↦
              appended (entry_of f path p q)
                (record {
                  registered_path = ep;
                  registered_ino = refl;
                  resolved_path = eq;
                  resolved_ino = refl;
                  registered_found = i;
                  resolved_found = j;
                })
                (ap (λ (x : ℤ × Registry). x.0) r) (ap (λ (x : ℤ × Registry). x.1) r)
        ]
      ]
]
