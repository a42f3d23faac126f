-- ===== src/CStr.antt =====
-- C strings: the bytes before the terminating NUL, `strlen` and `strncmp` of the C library, and the
-- macro MATCH_STRING of misc/misc.h.
pub mod Match
pub mod Decimal
use Prim.Native.Char.{code}
use refmon.Prelude.{
  ℕ, zero, suc, String, Bool, true, ◌&&◌, List, [], ◌∷◌, length, ◌==◌, if◌then◌else◌, false,
}

abbrev pub Str : Type 0
Str = List ℕ

-- The bytes of an ASCII literal.
abbrev pub codes : String → Str
codes String.[] = []
codes (String.◌∷◌ c s) = code c ∷ codes s

abbrev pub strlen : Str → ℕ
strlen s = length s

-- `s[i]`: the terminating NUL stands behind the last byte.
abbrev pub char_at : Str → ℕ → ℕ
char_at [] i = 0
char_at (c ∷ s) zero = c
char_at (c ∷ s) (suc i) = char_at s i

-- `strncmp(s, t, n) == 0`: the first n bytes agree, where a NUL ends the comparison.
unfoldable pub strncmp_is_zero : Str → Str → ℕ → Bool
strncmp_is_zero s t zero = true
strncmp_is_zero [] [] (suc n) = true
strncmp_is_zero [] (d ∷ t) (suc n) = false
strncmp_is_zero (c ∷ s) [] (suc n) = false
strncmp_is_zero (c ∷ s) (d ∷ t) (suc n) =
    let rest = strncmp_is_zero s t n in if c == d then rest else false

unfoldable pub match_string : Str → Str → Bool
match_string s t = strncmp_is_zero s t (strlen s) && strlen s == strlen t

-- `strcmp(s, t) == 0`
unfoldable pub strcmp_is_zero : Str → Str → Bool
strcmp_is_zero [] [] = true
strcmp_is_zero [] (d ∷ t) = false
strcmp_is_zero (c ∷ s) [] = false
strcmp_is_zero (c ∷ s) (d ∷ t) = c == d && strcmp_is_zero s t
