-- ===== src/RefmonFs/Copied.antt =====
-- The bytes of a block after `memcpy` has copied a record to it (io/refmonfs/file.c).
use refmon.Prelude.{
  ℕ, ◌+◌, ◌-◌, ◌<◌, ◌≡◌, true, false, inl, inr, refl, some, List, leb, ◌==◌, get_elem?, arith,
  Bool-cases, ==_iff,
}
use refmon.RefmonFs.{memcpy}

pub beside : (b c : ℕ) → (b ≡ c → ⊥) → (b == c) ≡ false
beside b c n = elim (Bool-cases (b == c)) [ inl e ↦ absurd (n ((==_iff b c).0 e)) | inr e ↦ e ]

pub at_or_after : (p k : ℕ) → leb p (p + k) ≡ true
at_or_after p k = ground arith

pub back : (p k : ℕ) → p + k - p ≡ k
back p k = omega arith

not_after : (p i : ℕ) → i < p → leb p i ≡ false
not_after p i h = ground arith

pub memcpy_inside :
    (b_data : ℕ → ℕ → ℕ) (b p k c : ℕ) (bytes : List ℕ)
    → get_elem? bytes k ≡ some c
    → memcpy b_data b p bytes b (p + k) ≡ c
unfolding memcpy
memcpy_inside b_data b p k c bytes e = rw ((==_iff b b).1 refl, at_or_after p k, back p k, e) refl

pub memcpy_before :
    (b_data : ℕ → ℕ → ℕ) (b p i : ℕ) (bytes : List ℕ)
    → i < p
    → memcpy b_data b p bytes b i ≡ b_data b i
unfolding memcpy
memcpy_before b_data b p i bytes h = ground (arith, not_after p i h)

pub memcpy_other :
    (b_data : ℕ → ℕ → ℕ) (b p c i : ℕ) (bytes : List ℕ)
    → (c ≡ b → ⊥)
    → memcpy b_data b p bytes c i ≡ b_data c i
unfolding memcpy
memcpy_other b_data b p c i bytes n = ground (arith, beside c b n)
