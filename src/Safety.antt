-- ===== src/Safety.antt =====
-- syscalls/safety.c: the checks that stand before every operation.
-- In `safety_checks` each check is a function of its own: `none` goes on to the next check and
-- `some ret` goes to `tail` with `ret`. The outermost `none` of an `Alloc (Option …)` is a fault.
pub mod Decision
pub mod Password
use refmon.Prelude.{
  ℕ, zero, suc, ◌+◌, bit_or, Bool, true, false, not, ◌&&◌, Option, none, some, List, [], ◌∷◌, ℤ,
  pos, negsuc, is_zero, is_neg, ltb, ◌==◌, has_flag, if◌then◌else◌, neg_eperm, neg_eacces,
  neg_einval, neg_enotrecoverable,
}
use refmon.CStr.{Str, strlen, strncmp_is_zero, match_string}
use refmon.Kernel.{Memory, Crypto, Kernel, Alloc, pure, ◌>>=◌, call}
use refmon.Model.{Instance, is_reconf}
use refmon.Misc.{hashgen_str}

abbrev pub check_none : ℕ
check_none = 0x0

abbrev pub check_root : ℕ
check_root = 0x1

abbrev pub check_reconf_state : ℕ
check_reconf_state = 0x2

abbrev pub check_password : ℕ
check_password = 0x4

-- `kuid_t` holds an unsigned number, so the first test never holds.
unfoldable pub is_euid_root : ℕ → ℤ
is_euid_root euid = if ltb euid 0 then pos euid else if euid == 0 then pos 1 else pos 0

-- `strlen` comes before the test for NULL, so a NULL input is a fault.
unfoldable pub sanitize_user_input_alloc : Memory → Option Str → Alloc (Option (Option Str))
sanitize_user_input_alloc m none = pure none
sanitize_user_input_alloc m (some unsafe_input) = do
  let outsize = strlen unsafe_input + 1
  if match_string unsafe_input [] then pure (some none) else do
    safe_output ← call m.kmalloc
    if not safe_output
        then pure (some none)
        else if not (m.copy_from_user unsafe_input outsize == 0)
        then pure (some none)
        else pure (some (some unsafe_input))

unfoldable pub check_reconf : Instance → ℤ
check_reconf i = if not (is_reconf i) then negsuc 0 else pos 0

-- Reads through a pointer that may be NULL.
abbrev pub deref :
    {A : Type 0} → Alloc (Option (Option Str)) → (Str → Alloc (Option A)) → Alloc (Option A)
deref m f = do
  r ← m
  elim r [ none ↦ pure none | some s ↦ elim s [ none ↦ pure none | some str ↦ f str ] ]

-- MATCH_STRING(hashgen_str(safe_password), the_instance.password): the macro writes its first
-- argument three times, and the third is evaluated only if the bytes agree.
unfoldable pub match_password : Memory → Crypto → Instance → Str → Alloc (Option Bool)
match_password m c i safe_password = deref (hashgen_str m c safe_password) λ first.
    deref (hashgen_str m c safe_password) λ second.
      if strncmp_is_zero first i.password (strlen second)
      then deref (hashgen_str m c safe_password)
          (λ third. pure (some (strlen third == strlen i.password)))
      else pure (some false)

unfoldable pub root_check : Kernel → ℕ → Option ℤ
unfolding is_euid_root
root_check k checks =
    if has_flag checks check_root
    then (let is_root = is_euid_root k.current_euid in
        if is_neg is_root
        then some neg_einval
        else if is_zero is_root
        then some neg_eacces
        else none)
    else none

unfoldable pub reconf_check : Instance → ℕ → Option ℤ
unfolding check_reconf
reconf_check i checks =
    if has_flag checks check_reconf_state
    then (if not (is_zero (check_reconf i)) then some neg_eperm else none)
    else none

unfoldable pub password_check : Kernel → Instance → ℕ → Option Str → Alloc (Option (Option ℤ))
password_check k i checks arg =
    if has_flag checks check_password
    then (do
      sanitized ← sanitize_user_input_alloc k.memory arg
      elim sanitized [
        | none ↦ pure none
        | some s ↦ elim s [
          | none ↦ pure (some (some neg_einval))
          | some safe_password ↦ do
            matches ← match_password k.memory k.crypto i safe_password
            elim matches [
              | none ↦ pure none
              | some same ↦ pure (some (if not same then some neg_eacces else none))
            ]
        ]
      ])
    else pure (some none)

-- How many checks the mask asks for.
unfoldable pub caught : ℕ → ℕ
caught checks =
    (if has_flag checks check_root then 1 else 0)
    + (if has_flag checks check_reconf_state then 1 else 0)
    + (if has_flag checks check_password then 1 else 0)

unfoldable pub safety_checks : Kernel → Instance → ℕ → Option Str → Alloc (Option ℤ)
safety_checks k i checks arg =
    if has_flag checks check_none then pure (some (pos 0)) else elim (root_check k checks) [
      | some ret ↦ pure (some ret)
      | none ↦ elim (reconf_check i checks) [
        | some ret ↦ pure (some ret)
        | none ↦ do
          checked ← password_check k i checks arg
          elim checked [
            | none ↦ pure none
            | some tail ↦ elim tail [
              | some ret ↦ pure (some ret)
              | none ↦ pure (some (if caught checks == 0 then neg_enotrecoverable else pos 0))
            ]
          ]
      ]
    ]

-- The mask of the operations on the registry.
abbrev pub all_checks : ℕ
all_checks = bit_or (bit_or check_root check_reconf_state) check_password
