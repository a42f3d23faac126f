-- ===== src/Hooks/AccessMode.antt =====
-- Which opens count as write accesses.
use refmon.Prelude.{ℕ, ◌%◌, ◌≡◌, ◌↔◌, ◌⊎◌, true, arith, bit_and-three}
use refmon.Hooks.{is_write_acc}

-- An open is a write access exactly if its access mode, the two lowest bits of its flags, is
-- O_WRONLY or O_RDWR: O_CREAT, O_TRUNC and O_APPEND make no difference.
pub is_write_acc_iff :
    (f_flags : ℕ) → (is_write_acc f_flags ≡ true) ↔ ((f_flags % 4 ≡ 1) ⊎ (f_flags % 4 ≡ 2))
unfolding is_write_acc
is_write_acc_iff f_flags = ground (arith, bit_and-three f_flags)
