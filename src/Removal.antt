-- ===== src/Removal.antt =====
-- How an entry leaves the registry: the decision table of `do_reconf_rm` behind its checks, and how
-- it undoes `_add_file` (syscalls/syscalls-handlers.c).
use refmon.Prelude.{
  ℕ, sym, ◌∙◌, bit_or, ◌≡◌, ◌≢◌, inl, inr, refl, Option, none, some, Option-cases, [], ◌∷◌, ◌++◌,
  arith, ℤ, pos, neg_enoent, neg_eexist, erase_idx, length, All, Bool-cases,
}
use mathlib.Core.Path.{subst}
use refmon.CStr.{Str}
use refmon.CStr.Match.{match_string_iff, match_string_refl}
use refmon.Kernel.{FileSystem}
use refmon.Kernel.Documented.{PathsAbsolute}
use refmon.Model.{RegistryEntry, Registry}
use refmon.FsUtils.{
  resolve_links, ignore_absolute_paths, no_ino_no, crit_registered_path, find_index, search_entry,
}
use refmon.FsUtils.Search.{find_index-append, erase_idx-append}
use refmon.FsUtils.Resolve.{canonical, canonical-IsAbsolute}
use refmon.AddFile.Outcome.{addition, with_resolved, entry_of}
use refmon.AddFile.Invariant.{
  WellFormed, Distinct, absolute_ne_nil, by_path, by_path_lem, addition_fresh,
}

-- The place of the entry whose registered path is the canonical form of the path.
unfoldable pub registered_at : FileSystem → Registry → Str → Option ℕ
registered_at f registry path = elim (canonical f path ignore_absolute_paths) [
  | none ↦ none
  | some q ↦ search_entry f registry (some q) no_ino_no crit_registered_path
]

-- What is returned, and what is left, if memory does not run out.
unfoldable pub removal : FileSystem → Registry → Str → ℤ × Registry
unfolding registered_at
removal f registry path = elim (registered_at f registry path) [
  | none ↦ (neg_enoent, registry)
  | some i ↦ (pos 0, erase_idx registry i)
]

-- The search by a path that is not empty is the plain search for the first entry with that path.
pub search-by_path :
    (f : FileSystem) (es : Registry) (q : Str)
    → q ≢ []
    → search_entry f es (some q) no_ino_no crit_registered_path ≡ find_index (by_path f q) es
unfolding search_entry by_path find_index
search-by_path f [] q h = refl
search-by_path f (e ∷ es) q h = ground (arith, match_string_iff q [])

addition_appends :
    (f : FileSystem) (registry : Registry) (path q : Str)
    → canonical f path ignore_absolute_paths ≡ some q
    → (addition f registry path).0 ≡ pos 0
    → (e : RegistryEntry) × ((addition f registry path).1 ≡ registry ++ e ∷ [])
      × (e.registered.path ≡ q)
unfolding addition with_resolved
addition_appends f registry path q c h =
    elim (Option-cases (canonical f path (bit_or resolve_links ignore_absolute_paths))) [
      | inl n ↦ absurd (ground arith)
      | inr (s, r) ↦ (entry_of f path q s, ground arith, refl)
    ]

addition-canonical :
    (f : FileSystem) (registry : Registry) (path : Str)
    → (addition f registry path).0 ≡ pos 0
    → (q : Str) × (canonical f path ignore_absolute_paths ≡ some q)
unfolding addition
addition-canonical f registry path h =
    elim (Option-cases (canonical f path ignore_absolute_paths)) [
      | inl n ↦ absurd (ground arith)
      | inr c ↦ c
    ]

-- A path that is registered is refused.
addition_of_registered :
    (f : FileSystem) (registry : Registry) (path : Str) (i : ℕ)
    → registered_at f registry path ≡ some i
    → addition f registry path ≡ (neg_eexist, registry)
unfolding registered_at addition
addition_of_registered f registry path i h =
    ground (arith, Option-cases (canonical f path ignore_absolute_paths))

module _ (f : FileSystem) (registry : Registry) (path : Str) (pa : PathsAbsolute f) where
  -- After an addition that succeeds, the entry is found behind all the others.
  registered_at-addition :
      (addition f registry path).0 ≡ pos 0
      → registered_at f (addition f registry path).1 path ≡ some (length registry)
  unfolding registered_at
  registered_at-addition h =
      let (q, c) = addition-canonical f registry path h in
      let (e, grown, same) = addition_appends f registry path q c h in
      let ne = absolute_ne_nil q (canonical-IsAbsolute f path ignore_absolute_paths q pa c) in
      ground (
        arith,
        addition_fresh f registry path q c h,
        search-by_path f registry q ne,
        search-by_path f (registry ++ e ∷ []) q ne,
        find_index-append (by_path f q) registry e,
        by_path_lem f q e,
        match_string_refl q,
      )

  -- Removing a path that was just added gives the registry back.
  pub removal-addition :
      (addition f registry path).0 ≡ pos 0
      → removal f (addition f registry path).1 path ≡ (pos 0, registry)
  unfolding removal
  removal-addition h =
      let (q, c) = addition-canonical f registry path h in
      let (e, grown, same) = addition_appends f registry path q c h in
      ground (arith, registered_at-addition h, erase_idx-append registry e)

  -- A path that was just added cannot be added again.
  pub addition-addition :
      (addition f registry path).0 ≡ pos 0
      → addition f (addition f registry path).1 path ≡ (neg_eexist, (addition f registry path).1)
  addition-addition h =
      addition_of_registered f (addition f registry path).1 path (length registry)
        (registered_at-addition h)

module _ (f : FileSystem) (q : Str) where
  find_of_others :
      (es : Registry) → All (λ x. q ≢ x.registered.path) es → find_index (by_path f q) es ≡ none
  unfolding find_index
  find_of_others [] h = refl
  find_of_others (e ∷ es) h =
      ground
        (arith, find_of_others es h.1, by_path_lem f q e, match_string_iff e.registered.path q, h.0)

  find_index-erase_idx :
      (es : Registry) (i : ℕ)
      → Distinct es
      → find_index (by_path f q) es ≡ some i
      → find_index (by_path f q) (erase_idx es i) ≡ none
  unfolding find_index
  find_index-erase_idx [] i d h = refl
  find_index-erase_idx (e ∷ es) i d h = elim (Bool-cases (by_path f q e)) [
    | inl m ↦
        let same : e.registered.path ≡ q =
          (match_string_iff e.registered.path q).0 (sym (by_path_lem f q e) ∙ m) in
        let others = subst (λ p. All (λ x. p ≢ x.registered.path) es) same d.0 in
        ground (arith, find_of_others es others)
    | inr n ↦ elim (Option-cases (find_index (by_path f q) es)) [
      | inl x ↦ absurd (ground arith)
      | inr (j, x) ↦ ground (arith, find_index-erase_idx es j d.1 x)
    ]
  ]

-- From a well-formed registry, a path that was just removed is not registered any more.
pub removal-removal :
    (f : FileSystem) (registry : Registry) (path : Str)
    → PathsAbsolute f
    → WellFormed registry
    → (removal f registry path).0 ≡ pos 0
    → removal f (removal f registry path).1 path ≡ (neg_enoent, (removal f registry path).1)
unfolding removal
removal-removal f registry path pa w h =
    elim (Option-cases (canonical f path ignore_absolute_paths)) [
      | inl n ↦ absurd (ground arith)
      | inr (q, c) ↦
          let ne = absolute_ne_nil q (canonical-IsAbsolute f path ignore_absolute_paths q pa c) in
          let left = (removal f registry path).1 in
          elim (Option-cases (find_index (by_path f q) registry)) [
            | inl x ↦ absurd (ground (arith, search-by_path f registry q ne))
            | inr (i, x) ↦ ground (
              arith,
              search-by_path f registry q ne,
              search-by_path f (erase_idx registry i) q ne,
              find_index-erase_idx f q registry i w.distinct x,
            )
          ]
    ]
