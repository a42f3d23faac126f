-- ===== src/CStr/Match.antt =====
-- MATCH_STRING is equality of strings.
use refmon.Prelude.{true, ◌≡◌, ◌↔◌, refl, ap, [], ◌∷◌, arith}
use refmon.CStr.{Str, strncmp_is_zero, match_string}

match_string→eq : (s t : Str) → match_string s t ≡ true → s ≡ t
unfolding match_string strncmp_is_zero
match_string→eq [] [] h = refl
match_string→eq [] (d ∷ t) h = ground arith
match_string→eq (c ∷ s) [] h = ground arith
match_string→eq (c ∷ s) (d ∷ t) h = ground (arith, match_string→eq s t)

pub match_string_refl : (s : Str) → match_string s s ≡ true
unfolding match_string strncmp_is_zero
match_string_refl [] = refl
match_string_refl (c ∷ s) = ground (arith, match_string_refl s)

-- The macro MATCH_STRING holds of two strings exactly when they are the same string.
pub match_string_iff : (s t : Str) → (match_string s t ≡ true) ↔ (s ≡ t)
match_string_iff s t = (match_string→eq s t, λ e. cc (match_string_refl s, ap (match_string s) e))
