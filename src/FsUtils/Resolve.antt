-- ===== src/FsUtils/Resolve.antt =====
-- What `resolve_path_alloc` returns, apart from failing allocations.
use refmon.Prelude.{
  ℕ, ◌+◌, ◌&&◌, ◌≡◌, ◌⊎◌, inl, inr, refl, Option, none, some, [], ◌∷◌, ◌++◌, arith, has_flag,
  if◌then◌else◌, Option-cases,
}
use refmon.CStr.{Str}
use refmon.Kernel.{Memory, FileSystem}
use refmon.Kernel.Documented.{MemoryWorks, PathsAbsolute, IsAbsolute}
use refmon.Model.{Registry}
use refmon.FsUtils.{
  resolve_links, ignore_absolute_paths, path_max, is_resolved, resolve_by_links, resolve_by_pwd,
  resolve_path_alloc, lookup_follow, find_entry_by_regpath_alloc, search_entry, no_ino_no,
  crit_registered_path,
}

-- The resolved path, where memory does not run out.
unfoldable pub canonical : FileSystem → Str → ℕ → Option Str
canonical f [] flags = none
canonical f (c ∷ cs) flags =
    if has_flag flags ignore_absolute_paths && is_resolved (c ∷ cs)
    then some (c ∷ cs)
    else if has_flag flags resolve_links
    then resolve_by_links f (c ∷ cs)
    else resolve_by_pwd f (c ∷ cs)

-- NULL or the canonical path is returned, whichever allocations fail.
pub resolve_path_alloc_cases :
    (m : Memory) (f : FileSystem) (path : Str) (flags n : ℕ)
    → ((resolve_path_alloc m f (some path) flags n).0 ≡ none)
      ⊎ ((resolve_path_alloc m f (some path) flags n).0 ≡ canonical f path flags)
unfolding resolve_path_alloc canonical
resolve_path_alloc_cases m f [] flags n = ground arith
resolve_path_alloc_cases m f (c ∷ cs) flags n = ground arith

-- With memory at hand the canonical path is returned.
pub resolve_path_alloc_works :
    (m : Memory) (f : FileSystem) (path : Str) (flags n : ℕ)
    → MemoryWorks m
    → (resolve_path_alloc m f (some path) flags n).0 ≡ canonical f path flags
unfolding resolve_path_alloc canonical
resolve_path_alloc_works m f [] flags n w = refl
resolve_path_alloc_works m f (c ∷ cs) flags n w = ground (arith, w.kmalloc n, w.kmalloc (n + 1))

IsAbsolute-append : (s t : Str) → IsAbsolute s → IsAbsolute (s ++ t)
IsAbsolute-append [] t h = absurd (omega arith)
IsAbsolute-append (c ∷ s) t h = h

resolve_by_pwd-IsAbsolute :
    (f : FileSystem) (path q : Str)
    → PathsAbsolute f
    → resolve_by_pwd f path ≡ some q
    → IsAbsolute q
unfolding resolve_by_pwd
resolve_by_pwd-IsAbsolute f path q w h = elim (Option-cases (f.pwd_path path_max)) [
  | inl e ↦ absurd (ground arith)
  | inr (s, e) ↦ ground (arith, IsAbsolute-append s (b'/' ∷ path) (w.pwd_path path_max s e))
]

resolve_by_links-IsAbsolute :
    (f : FileSystem) (path q : Str)
    → PathsAbsolute f
    → resolve_by_links f path ≡ some q
    → IsAbsolute q
unfolding resolve_by_links
resolve_by_links-IsAbsolute f path q w h = elim (Option-cases (f.kern_path path lookup_follow)) [
  | inl e ↦ absurd (ground arith)
  | inr (p, e) ↦ elim (Option-cases (f.dentry_path_raw p path_max)) [
    | inl e' ↦ absurd (ground arith)
    | inr (s, e') ↦ ground (arith, w.dentry_path_raw p path_max s e')
  ]
]

-- Whatever the flags, a canonical path is absolute.
pub canonical-IsAbsolute :
    (f : FileSystem) (path : Str) (flags : ℕ) (q : Str)
    → PathsAbsolute f
    → canonical f path flags ≡ some q
    → IsAbsolute q
unfolding canonical is_resolved
canonical-IsAbsolute f [] flags q w h = absurd (ground arith)
canonical-IsAbsolute f (c ∷ cs) flags q w h =
    ground
      (arith, resolve_by_links-IsAbsolute f (c ∷ cs) q w, resolve_by_pwd-IsAbsolute f (c ∷ cs) q w)

-- An absolute path is canonical where absolute paths are left alone.
pub canonical_idem :
    (f : FileSystem) (q : Str) → IsAbsolute q → canonical f q ignore_absolute_paths ≡ some q
unfolding canonical is_resolved
canonical_idem f [] h = absurd (omega arith)
canonical_idem f (c ∷ cs) h = ground arith

module _ (m : Memory) (f : FileSystem) (registry : Registry) (path : Str) where
  -- The search by a registered path, with memory at hand.
  pub find_entry_works :
      (n : ℕ)
      → MemoryWorks m
      → IsAbsolute path
      → (find_entry_by_regpath_alloc m f registry (some path) n).0
        ≡ search_entry f registry (some path) no_ino_no crit_registered_path
  unfolding find_entry_by_regpath_alloc
  find_entry_works n w h =
      ground (
        arith,
        resolve_path_alloc_works m f path ignore_absolute_paths n w,
        canonical_idem f path h,
      )
