-- ===== src/FsUtils/Search.antt =====
-- What the search of the registry finds, and which paths the registry makes eligible for protection.
use refmon.Prelude.{
  ℕ, bit_or, Bool, true, false, ◌≡◌, ◌≢◌, ◌↔◌, ◌⊎◌, inl, inr, refl, ap, none, some, [], ◌∷◌, ◌++◌,
  arith, get_elem?, Any, is_zero, Bool-cases, Option-cases, ==_iff, erase_idx, length,
}
use refmon.CStr.{Str}
use refmon.CStr.Match.{match_string_iff}
use refmon.Kernel.{FileSystem}
use refmon.Model.{PathIdentifier, RegistryEntry, Registry}
use refmon.FsUtils.{
  crit_absolute_path, crit_absolute_ino, crit_subdir_check, lookup_follow, is_dir, entry_matches,
  find_index, search_entry, is_eligible,
}
use refmon.FsUtils.Subpath.{ExtendsBySlash, IsCString, is_subpath_iff}

-- Where the path leads, there is a directory (and so too where it leads nowhere).
abbrev pub NoFile : FileSystem → Str → Type 0
NoFile f path = (p : ℕ) → f.kern_path path lookup_follow ≡ some p → f.is_dir_inode p ≡ true

-- The entry protects what the identifier names: the same path, the same inode, or a path below.
abbrev pub Covers : FileSystem → PathIdentifier → RegistryEntry → Type 0
Covers f id e =
    (e.resolved.path ≡ id.path)
    ⊎ (e.resolved.ino_no ≡ id.ino_no)
    ⊎ (NoFile f e.resolved.path × ExtendsBySlash e.resolved.path id.path)

is_dir_iff : (f : FileSystem) (path : Str) → (is_zero (is_dir f path) ≡ false) ↔ NoFile f path
unfolding is_dir
is_dir_iff f path = elim (Option-cases (f.kern_path path lookup_follow)) [
  | inl e ↦ (λ h p q. cc, λ h. ground (arith, e))
  | inr (p, e) ↦ (λ h q r. ground arith, λ h. ground (arith, h p e))
]

abbrev criteria : ℕ
criteria = bit_or (bit_or crit_absolute_path crit_absolute_ino) crit_subdir_check

entry_matches_iff :
    (f : FileSystem) (id : PathIdentifier) (e : RegistryEntry)
    → IsCString id.path
    → (entry_matches f id.path id.ino_no criteria e ≡ true) ↔ Covers f id e
unfolding entry_matches
entry_matches_iff f id e h = ground (
  arith,
  is_dir_iff f e.resolved.path,
  match_string_iff e.resolved.path id.path,
  is_subpath_iff e.resolved.path id.path h,
  ==_iff e.resolved.ino_no id.ino_no,
)

module _ (test : RegistryEntry → Bool) where
  -- The place that is found is in the list, the test holds there, and at no place before it.
  pub find_index-some :
      (es : Registry) (i : ℕ)
      → find_index test es ≡ some i
      → (e : RegistryEntry) × (get_elem? es i ≡ some e) × (test e ≡ true)
  unfolding find_index
  find_index-some [] i h = cc
  find_index-some (e ∷ es) i h = elim (Bool-cases (test e)) [
    | inl passes ↦ (e, ground arith, passes)
    | inr fails ↦ elim (Option-cases (find_index test es)) [
      | inl q ↦ absurd (ground arith)
      | inr (j, q) ↦ let (x, at_j, passes) = find_index-some es j q in (x, ground arith, passes)
    ]
  ]

  find_index-Any : (es : Registry) → (find_index test es ≢ none) ↔ Any (λ e. test e ≡ true) es
  unfolding find_index
  find_index-Any [] = (λ h. h refl, λ h. absurd h)
  find_index-Any (e ∷ es) = let ih = find_index-Any es in ground arith

  -- The first entry that passes is found behind those that do not.
  pub find_index-append :
      (es : Registry) (e : RegistryEntry)
      → find_index test es ≡ none
      → test e ≡ true
      → find_index test (es ++ e ∷ []) ≡ some (length es)
  unfolding find_index
  find_index-append [] e h passes = ground arith
  find_index-append (x ∷ es) e h passes =
      ground (arith, find_index-append es e, Option-cases (find_index test es))

pub erase_idx-append :
    (es : Registry) (e : RegistryEntry) → erase_idx (es ++ e ∷ []) (length es) ≡ es
erase_idx-append [] e = refl
erase_idx-append (x ∷ es) e = ap (λ r. x ∷ r) (erase_idx-append es e)

Any-iff :
    (P Q : RegistryEntry → Type 0) (es : Registry)
    → ((e : RegistryEntry) → P e ↔ Q e)
    → Any P es ↔ Any Q es
Any-iff P Q [] h = (λ a. a, λ a. a)
Any-iff P Q (e ∷ es) h =
    let ih = Any-iff P Q es h in
    (
      elim [ inl p ↦ inl ((h e).0 p) | inr a ↦ inr (ih.0 a) ],
      elim [ inl q ↦ inl ((h e).1 q) | inr a ↦ inr (ih.1 a) ],
    )

-- A path with no NUL in it is eligible exactly when it is not empty and some entry of the registry
-- covers it: by its resolved path, by its inode number, or as a path above it that is not known to
-- lead to something that is no directory.
pub is_eligible_iff :
    (f : FileSystem) (registry : Registry) (id : PathIdentifier)
    → IsCString id.path
    → (is_eligible f registry id ≡ true) ↔ ((id.path ≢ []) × Any (Covers f id) registry)
unfolding is_eligible search_entry
is_eligible_iff f [] id h = (λ e. cc, λ a. absurd a.1)
is_eligible_iff f (e ∷ es) id h =
    let some_iff = find_index-Any (entry_matches f id.path id.ino_no criteria) (e ∷ es) in
    let covers_iff =
      Any-iff (λ x. entry_matches f id.path id.ino_no criteria x ≡ true) (Covers f id) (e ∷ es)
        (λ x. entry_matches_iff f id x h) in
    ground (arith, some_iff, covers_iff, match_string_iff id.path [])
