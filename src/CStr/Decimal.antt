-- ===== src/CStr/Decimal.antt =====
-- Decimal numbers as the C library prints them (%lu, %d) and reads them (%d of fscanf).
use refmon.Prelude.{
  ℕ, zero, suc, ◌+◌, ◌-◌, ◌*◌, ◌/◌, ◌%◌, ◌<◌, ◌≤◌, Bool, true, false, ◌&&◌, ◌||◌, ◌≡◌, inl, inr,
  refl, ap, ◌∙◌, Option, none, some, [], ◌∷◌, ◌++◌, ℤ, pos, negsuc, ltb, leb, ◌==◌, if◌then◌else◌,
  arith, Bool-cases,
}
use mathlib.Core.List.{append_assoc}
use refmon.CStr.{Str}

-- `%lu`: the digits of a number, the highest first; a number has fewer digits than `fuel`.
decimal_digits : ℕ → ℕ → Str
decimal_digits zero n = []
decimal_digits (suc fuel) n =
    let higher = decimal_digits fuel (n / 10) in
    if ltb n 10 then (b'0' + n) ∷ [] else higher ++ ((b'0' + n % 10) ∷ [])

unfoldable pub decimal : ℕ → Str
unfolding decimal_digits
decimal n = decimal_digits (suc n) n

-- `%d`
unfoldable pub decimal_int : ℤ → Str
decimal_int (pos n) = decimal n
decimal_int (negsuc n) = b'-' ∷ decimal (n + 1)

abbrev pub is_digit : ℕ → Bool
is_digit c = leb b'0' c && leb c b'9'

abbrev pub is_space : ℕ → Bool
is_space c = c == b' ' || (leb 9 c && leb c 13)

-- White space is skipped, as a directive of `fscanf` does.
unfoldable pub skip_space : Str → Str
skip_space [] = []
skip_space (c ∷ s) = let rest = skip_space s in if is_space c then rest else c ∷ s

-- The number that the digits at the beginning continue, and what follows them.
unfoldable pub scan_digits : ℕ → Str → ℕ × Str
scan_digits acc [] = (acc, [])
scan_digits acc (c ∷ s) =
    let rest = scan_digits (acc * 10 + (c - b'0')) s in if is_digit c then rest else (acc, c ∷ s)

abbrev pub starts_with_digit : Str → Bool
starts_with_digit [] = false
starts_with_digit (c ∷ s) = is_digit c

-- An unsigned number, of one digit at least.
unfoldable pub scan_unsigned : Str → Option (ℕ × Str)
scan_unsigned s = if starts_with_digit s then some (scan_digits 0 s) else none

-- `%d` without its leading white space: a sign, and a number.
unfoldable pub scan_signed : Str → Option (ℤ × Str)
scan_signed [] = none
scan_signed (c ∷ s) =
    if c == b'-'
    then elim (scan_unsigned s) [
      | none ↦ none
      | some (n, rest) ↦ some ((if n == 0 then pos 0 else negsuc (n - 1)), rest)
    ]
    else elim (scan_unsigned (if c == b'+' then s else c ∷ s)) [
      | none ↦ none
      | some (n, rest) ↦ some (pos n, rest)
    ]

-- The text goes on with something that is no digit.
abbrev pub EndsNumber : Str → Type 0
EndsNumber rest = starts_with_digit rest ≡ false

digit_in : (d : ℕ) → d < 10 → is_digit (b'0' + d) ≡ true
digit_in d h = ground arith

digit_back : (d : ℕ) → b'0' + d - b'0' ≡ d
digit_back d = omega arith

not_small : (n : ℕ) → ltb n 10 ≡ false → 10 ≤ n
not_small n h = ground arith

small : (n : ℕ) → ltb n 10 ≡ true → n < 10
small n h = ground arith

scan_digits-digit :
    (acc d : ℕ) (s : Str) → d < 10 → scan_digits acc ((b'0' + d) ∷ s) ≡ scan_digits (acc * 10 + d) s
unfolding scan_digits
scan_digits-digit acc d s h = rw (digit_in d h, digit_back d) refl

scan_digits-decimal :
    (fuel n : ℕ) (rest : Str)
    → n < fuel
    → scan_digits 0 (decimal_digits fuel n ++ rest) ≡ scan_digits n rest
unfolding decimal_digits
scan_digits-decimal zero n rest h = absurd (omega arith)
scan_digits-decimal (suc fuel) n rest h =
    let continued = λ (a b : ℕ) (e : a ≡ b). ap (λ m. scan_digits m rest) e in
    elim (Bool-cases (ltb n 10)) [
      | inl low ↦
          rw low (scan_digits-digit 0 n rest (small n low) ∙ continued (0 * 10 + n) n (omega arith))
      | inr high ↦
          let big = not_small n high in
          rw (high, append_assoc)
            (scan_digits-decimal fuel (n / 10) ((b'0' + n % 10) ∷ rest) (omega arith)
              ∙ scan_digits-digit (n / 10) (n % 10) rest (omega arith)
              ∙ continued (n / 10 * 10 + n % 10) n (omega arith))
    ]

scan_digits-end : (n : ℕ) (rest : Str) → EndsNumber rest → scan_digits n rest ≡ (n, rest)
unfolding scan_digits
scan_digits-end n [] h = refl
scan_digits-end n (c ∷ rest) h = ground (arith, h)

starts-decimal :
    (fuel n : ℕ) (rest : Str) → n < fuel → starts_with_digit (decimal_digits fuel n ++ rest) ≡ true
unfolding decimal_digits
starts-decimal zero n rest h = absurd (omega arith)
starts-decimal (suc fuel) n rest h = elim (Bool-cases (ltb n 10)) [
  | inl low ↦ rw low (digit_in n (small n low))
  | inr high ↦
      let big = not_small n high in
      rw (high, append_assoc) (starts-decimal fuel (n / 10) ((b'0' + n % 10) ∷ rest) (omega arith))
]

scan_unsigned-decimal :
    (n : ℕ) (rest : Str) → EndsNumber rest → scan_unsigned (decimal n ++ rest) ≡ some (n, rest)
unfolding scan_unsigned decimal
scan_unsigned-decimal n rest h = rw (
  starts-decimal (suc n) n rest (omega arith),
  scan_digits-decimal (suc n) n rest (omega arith),
  scan_digits-end n rest h,
)

pub decimal_starts : (n : ℕ) (rest : Str) → starts_with_digit (decimal n ++ rest) ≡ true
unfolding decimal
decimal_starts n rest = starts-decimal (suc n) n rest (omega arith)

-- A number without a sign.
scan_signed_number :
    (s : Str) (n : ℕ) (rest : Str)
    → starts_with_digit s ≡ true
    → scan_unsigned s ≡ some (n, rest)
    → scan_signed s ≡ some (pos n, rest)
unfolding scan_signed
scan_signed_number [] n rest h e = absurd (ground arith)
scan_signed_number (c ∷ s) n rest h e = ground arith

-- A number that is printed is read back, whatever follows it that is no digit.
pub scan_signed-decimal_int :
    (n : ℤ) (rest : Str) → EndsNumber rest → scan_signed (decimal_int n ++ rest) ≡ some (n, rest)
unfolding scan_signed decimal_int
scan_signed-decimal_int (pos n) rest h =
    scan_signed_number (decimal n ++ rest) n rest (decimal_starts n rest)
      (scan_unsigned-decimal n rest h)
scan_signed-decimal_int (negsuc n) rest h = ground (arith, scan_unsigned-decimal (n + 1) rest h)

digit_no_space : (s : Str) → starts_with_digit s ≡ true → skip_space s ≡ s
unfolding skip_space
digit_no_space [] h = refl
digit_no_space (c ∷ s) h = ground (arith, h)

-- A number that is printed begins with no white space.
pub skip_space-decimal_int :
    (n : ℤ) (rest : Str) → skip_space (decimal_int n ++ rest) ≡ decimal_int n ++ rest
unfolding decimal_int skip_space
skip_space-decimal_int (pos n) rest = digit_no_space (decimal n ++ rest) (decimal_starts n rest)
skip_space-decimal_int (negsuc n) rest = refl
