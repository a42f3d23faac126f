-- ===== src/Monitor/Refinement.antt =====
-- The system calls do to the registry what the monitor does to its map.
use refmon.Prelude.{
  bit_or, ◌≡◌, inl, inr, refl, ap, ◌∙◌, Option, Option-cases, none, some, [], ◌∷◌, ◌++◌, arith, ℤ,
  pos, if◌then◌else◌, neg_einval, neg_eexist, neg_enoent, erase_idx,
}
use refmon.CStr.{Str, match_string}
use refmon.Kernel.{FileSystem}
use refmon.Kernel.Documented.{PathsAbsolute}
use refmon.Model.{RegistryEntry, Registry}
use refmon.FsUtils.{
  resolve_links, ignore_absolute_paths, no_ino_no, find_index, search_entry, crit_registered_path,
}
use refmon.FsUtils.Resolve.{canonical, canonical-IsAbsolute}
use refmon.AddFile.Outcome.{addition, with_resolved}
use refmon.AddFile.Invariant.{WellFormed, absolute_ne_nil, by_path}
use refmon.Removal.{removal, registered_at, search-by_path}
use refmon.Monitor.{Protected, insert, delete, new_entry, add_path, remove_path}
use refmon.Monitor.View.{view, view-insert, view-delete, find_index-view}

with_resolved_lem :
    (f : FileSystem) (registry : Registry) (path q : Str)
    → with_resolved f registry path q ≡ elim (new_entry f path q) [
      | none ↦ (neg_einval, registry)
      | some e ↦ (pos 0, registry ++ e ∷ [])
    ]
unfolding with_resolved new_entry
with_resolved_lem f registry path q =
    ground (arith, Option-cases (canonical f path (bit_or resolve_links ignore_absolute_paths)))

pub new_entry_path :
    (f : FileSystem) (path q : Str) (e : RegistryEntry)
    → new_entry f path q ≡ some e
    → e.registered.path ≡ q
unfolding new_entry
new_entry_path f path q e h =
    ground (arith, Option-cases (canonical f path (bit_or resolve_links ignore_absolute_paths)))

-- The same result, and the same map.
abbrev pub Agree : ℤ × Registry → ℤ × Protected → Type 0
Agree r s = (r.0 ≡ s.0) × ((p : Str) → view r.1 p ≡ s.1 p)

module _ (f : FileSystem) (registry : Registry) (path : Str) (m : Protected) (pa : PathsAbsolute f)
    (same : (p : Str) → view registry p ≡ m p) where
  -- The search for a canonical path is a look into the map.
  search-view :
      (q : Str)
      → canonical f path ignore_absolute_paths ≡ some q
      → search_entry f registry (some q) no_ino_no crit_registered_path
        ≡ find_index (by_path f q) registry
  search-view q c =
      search-by_path f registry q
        (absolute_ne_nil q (canonical-IsAbsolute f path ignore_absolute_paths q pa c))

  addition-add_fresh :
      (q : Str)
      → view registry q ≡ none
      → Agree
          (with_resolved f registry path q)
          (elim (new_entry f path q) [ none ↦ (neg_einval, m) | some e ↦ (pos 0, insert e m) ])
  addition-add_fresh q fresh = elim (Option-cases (new_entry f path q)) [
    | inl n ↦ rw (with_resolved_lem f registry path q, n) (refl, same)
    | inr (e, n) ↦
        let at_q = new_entry_path f path q e n in
        rw (with_resolved_lem f registry path q, n)
          (
            refl,
            λ p.
                view-insert registry e p (ap (view registry) at_q ∙ fresh)
                ∙ ap
                    (λ (o : Option RegistryEntry).
                      if match_string e.registered.path p then some e else o)
                    (same p),
          )
  ]

  pub addition-add_path : Agree (addition f registry path) (add_path f path m)
  unfolding addition add_path
  addition-add_path = elim (Option-cases (canonical f path ignore_absolute_paths)) [
    | inl c ↦
        let a : addition f registry path ≡ (neg_einval, registry) = ground (arith, c) in
        let b : add_path f path m ≡ (neg_einval, m) = ground (arith, c) in rw (a, b) (refl, same)
    | inr (q, c) ↦ elim (find_index-view f q registry) [
      | inl (missed, fresh) ↦
          let a : addition f registry path ≡ with_resolved f registry path q =
            ground (arith, c, search-view q c, missed) in
          let b : add_path f path m ≡ elim (new_entry f path q) [
            | none ↦ (neg_einval, m)
            | some e ↦ (pos 0, insert e m)
          ] =
            ground (arith, c, same q, fresh) in
          rw (a, b) (addition-add_fresh q fresh)
      | inr (i, e, found, there) ↦
          let a : addition f registry path ≡ (neg_eexist, registry) =
            ground (arith, c, search-view q c, found) in
          let b : add_path f path m ≡ (neg_eexist, m) = ground (arith, c, same q, there) in
          rw (a, b) (refl, same)
    ]
  ]

  pub removal-remove_path :
      WellFormed registry → Agree (removal f registry path) (remove_path f path m)
  unfolding removal remove_path registered_at
  removal-remove_path wf = elim (Option-cases (canonical f path ignore_absolute_paths)) [
    | inl c ↦
        let a : removal f registry path ≡ (neg_enoent, registry) = ground (arith, c) in
        let b : remove_path f path m ≡ (neg_enoent, m) = ground (arith, c) in rw (a, b) (refl, same)
    | inr (q, c) ↦ elim (find_index-view f q registry) [
      | inl (missed, fresh) ↦
          let a : removal f registry path ≡ (neg_enoent, registry) =
            ground (arith, c, search-view q c, missed) in
          let b : remove_path f path m ≡ (neg_enoent, m) = ground (arith, c, same q, fresh) in
          rw (a, b) (refl, same)
      | inr (i, e, found, there) ↦
          let a : removal f registry path ≡ (pos 0, erase_idx registry i) =
            ground (arith, c, search-view q c, found) in
          let b : remove_path f path m ≡ (pos 0, delete q m) = ground (arith, c, same q, there) in
          rw (a, b)
            (
              refl,
              λ p.
                  view-delete f q registry i p wf.distinct found
                  ∙ ap (λ (o : Option RegistryEntry). if match_string q p then none else o)
                      (same p),
            )
    ]
  ]
