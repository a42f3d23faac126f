-- ===== src/AddFile/Invariant.antt =====
-- The registry stays well formed: its registered paths are distinct, all paths are absolute and no
-- inode number is the one that stands for none.
use refmon.Prelude.{
  ℕ, zero, suc, bit_or, ◌≡◌, ◌≢◌, Bool, none, some, Option-cases, [], ◌∷◌, ◌++◌, arith, ℤ, pos, All,
  All-append, All-erase_idx, erase_idx, ap, sym, ◌∙◌,
}
use refmon.CStr.{Str, match_string}
use refmon.CStr.Match.{match_string_iff}
use refmon.Kernel.{Memory, FileSystem}
use refmon.Kernel.Documented.{MemoryWorks, PathsAbsolute, IsAbsolute}
use refmon.Model.{RegistryEntry, Registry}
use refmon.FsUtils.{
  resolve_links, ignore_absolute_paths, no_ino_no, crit_registered_path, entry_matches, find_index,
  search_entry,
}
use refmon.FsUtils.Resolve.{canonical, canonical-IsAbsolute}
use refmon.AddFile.{add_file}
use refmon.AddFile.Outcome.{
  IsEntryOf, refused, appended, add_file-Added, addition, add_file-addition,
}

abbrev pub IsGood : RegistryEntry → Type 0
IsGood e =
    IsAbsolute e.registered.path
    × IsAbsolute e.resolved.path
    × (e.registered.ino_no ≢ no_ino_no)
    × (e.resolved.ino_no ≢ no_ino_no)

-- No two entries have the same registered path.
abbrev pub Distinct : Registry → Type 0
Distinct [] = Unit
Distinct (e ∷ es) = All (λ x. e.registered.path ≢ x.registered.path) es × Distinct es

pub record WellFormed (registry : Registry) : Type 0 where
  pub good : All IsGood registry
  pub distinct : Distinct registry

Distinct-append :
    (es : Registry) (e : RegistryEntry)
    → Distinct es
    → All (λ x. x.registered.path ≢ e.registered.path) es
    → Distinct (es ++ e ∷ [])
Distinct-append [] e d h = (tt, tt)
Distinct-append (x ∷ es) e d h = (
  All-append (λ y. x.registered.path ≢ y.registered.path) es (e ∷ []) d.0 (h.0, tt),
  Distinct-append es e d.1 h.1,
)

pub Distinct-erase_idx : (es : Registry) (i : ℕ) → Distinct es → Distinct (erase_idx es i)
Distinct-erase_idx [] i d = d
Distinct-erase_idx (x ∷ es) zero d = d.1
Distinct-erase_idx (x ∷ es) (suc i) d = (
  All-erase_idx (λ y. x.registered.path ≢ y.registered.path) es i d.0,
  Distinct-erase_idx es i d.1,
)

pub WellFormed-erase_idx : (es : Registry) (i : ℕ) → WellFormed es → WellFormed (erase_idx es i)
WellFormed-erase_idx es i w = record {
  good = All-erase_idx IsGood es i w.good;
  distinct = Distinct-erase_idx es i w.distinct;
}

module _ (f : FileSystem) (p : Str) where
  unfoldable pub by_path : RegistryEntry → Bool
  by_path = entry_matches f p no_ino_no crit_registered_path

  pub by_path_lem : (e : RegistryEntry) → by_path e ≡ match_string e.registered.path p
  unfolding by_path entry_matches
  by_path_lem e = ground arith

  pub find_none :
      (es : Registry) → find_index by_path es ≡ none → All (λ e. e.registered.path ≢ p) es
  unfolding find_index
  find_none [] h = tt
  find_none (e ∷ es) h =
      let here = by_path_lem e in
      let same = match_string_iff e.registered.path p in
      (ground arith, find_none es (ground (arith, Option-cases (find_index by_path es))))

  -- A search by a registered path that fails shows that no entry has that path.
  pub search_none :
      (es : Registry)
      → p ≢ []
      → search_entry f es (some p) no_ino_no crit_registered_path ≡ none
      → All (λ e. e.registered.path ≢ p) es
  unfolding search_entry by_path
  search_none [] q h = tt
  search_none (e ∷ es) q h = find_none (e ∷ es) (ground (arith, match_string_iff p []))

pub absolute_ne_nil : (p : Str) → IsAbsolute p → p ≢ []
absolute_ne_nil [] h = absurd (omega arith)
absolute_ne_nil (c ∷ p) h = λ e. cc

-- An addition that succeeds found no entry with the path.
pub addition_fresh :
    (f : FileSystem) (registry : Registry) (path p : Str)
    → canonical f path ignore_absolute_paths ≡ some p
    → (addition f registry path).0 ≡ pos 0
    → search_entry f registry (some p) no_ino_no crit_registered_path ≡ none
unfolding addition
addition_fresh f registry path p e h =
    ground (arith, Option-cases (search_entry f registry (some p) no_ino_no crit_registered_path))

IsEntryOf-IsGood :
    (f : FileSystem) (path : Str) (e : RegistryEntry)
    → PathsAbsolute f
    → IsEntryOf f path e
    → IsGood e
IsEntryOf-IsGood f path e pa ie = (
  canonical-IsAbsolute f path ignore_absolute_paths e.registered.path pa ie.registered_path,
  canonical-IsAbsolute f path (bit_or resolve_links ignore_absolute_paths) e.resolved.path pa
      ie.resolved_path,
  ie.registered_found,
  ie.resolved_found,
)

-- If no allocation fails, `_add_file` keeps the registry well formed.
pub add_file-WellFormed :
    (m : Memory) (f : FileSystem) (registry : Registry) (path : Str) (n : ℕ)
    → MemoryWorks m
    → PathsAbsolute f
    → WellFormed registry
    → WellFormed (add_file m f registry path n).0.1
add_file-WellFormed m f registry path n mw pa w = elim (add_file-Added m f registry path n) [
  | refused err same ↦ rw same w
  | appended e ie ok grown ↦
      let good = IsEntryOf-IsGood f path e pa ie in
      let table = add_file-addition m f registry path n mw pa in
      let fresh =
        addition_fresh f registry path e.registered.path ie.registered_path
          (sym (ap (λ (x : ℤ × Registry). x.0) table) ∙ ok) in
      rw grown (record {
        good = All-append IsGood registry (e ∷ []) w.good (good, tt);
        distinct = Distinct-append registry e w.distinct (
            search_none f e.registered.path registry (absolute_ne_nil e.registered.path good.0)
              fresh);
      })
]
