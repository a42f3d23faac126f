-- ===== src/Misc/Hash.antt =====
-- What `hashgen_str` returns.
use refmon.Prelude.{ℕ, ◌+◌, ◌≡◌, ◌⊎◌, none, some, arith}
use refmon.CStr.{Str}
use refmon.Kernel.{Memory, Crypto}
use refmon.Kernel.Documented.{MemoryWorks, CryptoWorks}
use refmon.Misc.{hexconv, hashgen_str}

-- A fault, NULL, or the print of the digest: no other string is returned, whatever failed.
pub hashgen_str_cases :
    (m : Memory) (c : Crypto) (s : Str) (n : ℕ)
    → ((hashgen_str m c s n).0 ≡ none)
      ⊎ ((hashgen_str m c s n).0 ≡ some none)
      ⊎ ((hashgen_str m c s n).0 ≡ some (some (hexconv (c.sha256 s))))
unfolding hashgen_str
hashgen_str_cases m c s n = ground arith

-- If nothing fails, the print of the digest is returned.
pub hashgen_str_works :
    (m : Memory) (c : Crypto) (s : Str) (n : ℕ)
    → MemoryWorks m
    → CryptoWorks c
    → (hashgen_str m c s n).0 ≡ some (some (hexconv (c.sha256 s)))
unfolding hashgen_str
hashgen_str_works m c s n mw cw = ground (
  arith,
  mw.kmalloc n,
  cw.alloc (n + 1),
  mw.kmalloc (n + 1 + 1),
  cw.init (n + 1 + 1 + 1),
  cw.update (n + 1 + 1 + 1 + 1),
  cw.final (n + 1 + 1 + 1 + 1 + 1),
)
