-- ===== src/Misc/Hex.antt =====
-- The hexadecimal print of a list of bytes determines the list.
use refmon.Prelude.{ℕ, ◌*◌, ◌/◌, ◌%◌, ◌<◌, ◌≡◌, refl, List, [], ◌∷◌, arith, length, All}
use refmon.Misc.{hex_digit, hexconv}

hex_digit_inj : (a b : ℕ) → a < 16 → b < 16 → hex_digit a ≡ hex_digit b → a ≡ b
unfolding hex_digit
hex_digit_inj a b ha hb h = ground arith

byte_inj :
    (a b : ℕ)
    → a < 256
    → b < 256
    → hex_digit (a / 16) ≡ hex_digit (b / 16)
    → hex_digit (a % 16) ≡ hex_digit (b % 16)
    → a ≡ b
byte_inj a b ha hb h l = omega (
  arith,
  hex_digit_inj (a / 16) (b / 16) (omega arith) (omega arith) h,
  hex_digit_inj (a % 16) (b % 16) (omega arith) (omega arith) l,
)

pub length-hexconv : (hash : List ℕ) → length (hexconv hash) ≡ 2 * length hash
unfolding hexconv
length-hexconv [] = refl
length-hexconv (b ∷ hash) = omega (arith, length-hexconv hash)

-- Two lists of bytes that print alike are equal.
pub hexconv_inj :
    (xs ys : List ℕ)
    → All (λ b. b < 256) xs
    → All (λ b. b < 256) ys
    → hexconv xs ≡ hexconv ys
    → xs ≡ ys
unfolding hexconv
hexconv_inj [] [] hx hy h = refl
hexconv_inj [] (y ∷ ys) hx hy h = ground arith
hexconv_inj (x ∷ xs) [] hx hy h = ground arith
hexconv_inj (x ∷ xs) (y ∷ ys) hx hy h =
    ground (arith, byte_inj x y hx.0 hy.0, hexconv_inj xs ys hx.1 hy.1)
