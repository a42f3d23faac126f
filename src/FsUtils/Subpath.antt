-- ===== src/FsUtils/Subpath.antt =====
-- `is_subpath` compares texts: whether one path is another, or extends it by a slash and more.
use refmon.Prelude.{true, ◌≡◌, ◌↔◌, refl, ap, [], ◌∷◌, ◌++◌, arith, All, ◌≢◌}
use refmon.CStr.{Str, strncmp_is_zero}
use refmon.FsUtils.{is_subpath}

-- What may follow the base path: nothing, or a slash and more.
abbrev pub IsRest : Str → Type 0
IsRest [] = Unit
IsRest (c ∷ s) = c ≡ b'/'

-- `sub_path` is `base_path` itself, or that text with a slash and more behind it. For the base "/" this
-- is not what lies below it: "/etc" has no second slash.
abbrev pub ExtendsBySlash : Str → Str → Type 0
ExtendsBySlash base_path sub_path = (rest : Str) × (sub_path ≡ base_path ++ rest) × IsRest rest

-- A C string holds no NUL.
abbrev pub IsCString : Str → Type 0
IsCString = All (λ c. c ≢ 0)

is_subpath→ExtendsBySlash :
    (base_path sub_path : Str)
    → IsCString sub_path
    → is_subpath base_path sub_path ≡ true
    → ExtendsBySlash base_path sub_path
unfolding is_subpath strncmp_is_zero
is_subpath→ExtendsBySlash [] [] h e = ([], refl, tt)
is_subpath→ExtendsBySlash [] (c ∷ s) h e = (c ∷ s, refl, ground arith)
is_subpath→ExtendsBySlash (c ∷ b) [] h e = ground arith
is_subpath→ExtendsBySlash (c ∷ b) (d ∷ s) h e =
    let (rest, below, ends) = is_subpath→ExtendsBySlash b s h.1 (ground arith) in
    (rest, ground arith, ends)

is_subpath-append :
    (base_path rest : Str) → IsRest rest → is_subpath base_path (base_path ++ rest) ≡ true
unfolding is_subpath strncmp_is_zero
is_subpath-append [] [] h = refl
is_subpath-append [] (c ∷ rest) h = ground arith
is_subpath-append (c ∷ b) rest h = ground (arith, is_subpath-append b rest h)

-- For a second text with no NUL in it, the test holds exactly when it is the first text, or the first text
-- followed by a slash and more.
pub is_subpath_iff :
    (base_path sub_path : Str)
    → IsCString sub_path
    → (is_subpath base_path sub_path ≡ true) ↔ ExtendsBySlash base_path sub_path
is_subpath_iff b s h = (
  is_subpath→ExtendsBySlash b s h,
  λ (rest, e, ends). cc (is_subpath-append b rest ends, ap (is_subpath b) e),
)
