-- ===== src/Safety/Password.antt =====
-- When the password check passes.
use refmon.Prelude.{ℕ, ◌⊎◌, ◌≡◌, none, some, arith}
use refmon.CStr.{Str, match_string}
use refmon.Kernel.{Memory, Crypto}
use refmon.Kernel.Documented.{MemoryWorks, CryptoWorks}
use refmon.Model.{Instance}
use refmon.Misc.{hexconv, hashgen_str}
use refmon.Misc.Hash.{hashgen_str_cases, hashgen_str_works}
use refmon.Safety.{match_password}

module _ (m : Memory) (c : Crypto) (i : Instance) (p : Str) where
  -- There is a fault, or the print of the digest is compared with the stored string.
  pub match_password_cases :
      (n : ℕ)
      → ((match_password m c i p n).0 ≡ none)
        ⊎ ((match_password m c i p n).0 ≡ some (match_string (hexconv (c.sha256 p)) i.password))
  unfolding match_password match_string
  match_password_cases n =
      let (first, n₁) = hashgen_str m c p n in
      let (second, n₂) = hashgen_str m c p n₁ in
      ground
        (arith, hashgen_str_cases m c p n, hashgen_str_cases m c p n₁, hashgen_str_cases m c p n₂)

  -- If nothing fails there is an answer.
  pub match_password_works :
      (n : ℕ)
      → MemoryWorks m
      → CryptoWorks c
      → (match_password m c i p n).0 ≡ some (match_string (hexconv (c.sha256 p)) i.password)
  unfolding match_password match_string
  match_password_works n mw cw =
      let (first, n₁) = hashgen_str m c p n in
      let (second, n₂) = hashgen_str m c p n₁ in
      ground (
        arith,
        hashgen_str_works m c p n mw cw,
        hashgen_str_works m c p n₁ mw cw,
        hashgen_str_works m c p n₂ mw cw,
      )
