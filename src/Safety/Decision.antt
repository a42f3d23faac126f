-- ===== src/Safety/Decision.antt =====
-- What `safety_checks` decides.
use refmon.Prelude.{
  ℕ, ◌+◌, ◌≡◌, ◌≢◌, ◌⊎◌, true, false, not, Option, none, some, [], arith, ℤ, pos, neg_eperm,
  neg_eacces, neg_einval, neg_enotrecoverable, ◌==◌, if◌then◌else◌, has_flag, has_flag-zero,
}
use refmon.CStr.{Str, strlen, match_string}
use refmon.CStr.Match.{match_string_iff}
use refmon.Kernel.{Memory, Kernel}
use refmon.Kernel.Documented.{MemoryWorks, CryptoWorks}
use refmon.Model.{Instance, is_reconf}
use refmon.Misc.{hexconv}
use refmon.Safety.{
  check_root, check_reconf_state, check_password, all_checks, sanitize_user_input_alloc, root_check,
  reconf_check, password_check, caught, safety_checks,
}
use refmon.Safety.Password.{match_password_cases, match_password_works}

module _ (m : Memory) (p : Str) where
  -- What is sanitized is the input itself, and is not empty.
  pub sanitize_cases :
      (n : ℕ)
      → ((sanitize_user_input_alloc m (some p) n).0 ≡ some none)
        ⊎ ((sanitize_user_input_alloc m (some p) n).0 ≡ some (some p)) × (match_string p [] ≡ false)
  unfolding sanitize_user_input_alloc
  sanitize_cases n = ground arith

  pub sanitize_works :
      (n : ℕ)
      → MemoryWorks m
      → (sanitize_user_input_alloc m (some p) n).0
        ≡ some (if match_string p [] then none else some p)
  unfolding sanitize_user_input_alloc
  sanitize_works n w = ground (arith, w.kmalloc n, w.copy_from_user p (strlen p + 1))

-- What the operations on the registry are told if nothing fails: who asks, in which state, with
-- which password.
unfoldable pub decision : ℕ → Instance → (Str → Str) → Str → ℤ
decision euid i hash p =
    if not (euid == 0)
    then neg_eacces
    else if not (is_reconf i)
    then neg_eperm
    else if match_string p []
    then neg_einval
    else if match_string (hash p) i.password
    then pos 0
    else neg_eacces

-- The stored form of a password.
abbrev pub hash : Kernel → Str → Str
hash k s = hexconv (k.crypto.sha256 s)

module _ (k : Kernel) (i : Instance) (p : Str) where
  -- If no allocation and no step of the hash fails, all three checks together return exactly what
  -- the decision table says, in its order.
  pub safety_checks-decision :
      (n : ℕ)
      → MemoryWorks k.memory
      → CryptoWorks k.crypto
      → (safety_checks k i all_checks (some p) n).0 ≡ some (decision k.current_euid i (hash k) p)
  unfolding safety_checks root_check reconf_check password_check caught decision
  safety_checks-decision n mw cw =
      let s = sanitize_user_input_alloc k.memory (some p) n in
      ground (
        arith,
        sanitize_works k.memory p n mw,
        match_password_works k.memory k.crypto i p s.1 mw cw,
      )

  -- Whatever fails, only a root user in a reconfigurable state whose password has the stored
  -- hash passes all three checks.
  pub safety_checks_sound :
      (n : ℕ)
      → (safety_checks k i all_checks (some p) n).0 ≡ some (pos 0)
      → (k.current_euid ≡ 0) × (is_reconf i ≡ true) × (p ≢ []) × (hash k p ≡ i.password)
  unfolding safety_checks root_check reconf_check password_check caught
  safety_checks_sound n h =
      let s = sanitize_user_input_alloc k.memory (some p) n in
      ground (
        arith,
        sanitize_cases k.memory p n,
        match_password_cases k.memory k.crypto i p s.1,
        match_string_iff p [],
        match_string_iff (hash k p) i.password,
      )

-- A mask with none of the three bits is refused, whoever asks: so is check_none, which is 0.
safety_checks-no_check :
    (k : Kernel) (i : Instance) (checks : ℕ) (arg : Option Str) (n : ℕ)
    → has_flag checks check_root ≡ false
    → has_flag checks check_reconf_state ≡ false
    → has_flag checks check_password ≡ false
    → (safety_checks k i checks arg n).0 ≡ some neg_enotrecoverable
unfolding safety_checks root_check reconf_check password_check caught
safety_checks-no_check k i checks arg n r c p = ground (arith, has_flag-zero checks)

-- The root check alone: the task must have effective user 0, and nothing can go wrong.
pub safety_checks-root :
    (k : Kernel) (i : Instance) (arg : Option Str) (n : ℕ)
    → safety_checks k i check_root arg n
      ≡ (some (if k.current_euid == 0 then pos 0 else neg_eacces), n)
unfolding safety_checks root_check reconf_check password_check caught
safety_checks-root k i arg n = ground arith
