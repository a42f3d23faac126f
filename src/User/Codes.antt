-- ===== src/User/Codes.antt =====
-- The codes of the system calls on their way from the kernel (io/procio.c) to the tool (user/).
use refmon.Prelude.{◌≡◌, refl, some, [], ◌∷◌, ◌++◌, ℤ, arith}
use refmon.CStr.{Str}
use refmon.CStr.Decimal.{decimal_int, skip_space, scan_signed-decimal_int, skip_space-decimal_int}
use refmon.Startup.{Entries, RegisteredSyscallCodes}
use refmon.ProcIo.{codes_text}
use refmon.User.{ScOrder, select, fscanf_int, read_codes, get_syscall_index}

-- The codes in the order of the file.
abbrev pub in_order : RegisteredSyscallCodes → Entries ℤ
in_order c = record {
  entry_0 = c.sc_code_set_state;
  entry_1 = c.sc_code_reconf_add;
  entry_2 = c.sc_code_reconf_rm;
  entry_3 = c.sc_code_flush;
}

-- The text goes on with something that is no white space, or ends.
abbrev NoSpace : Str → Type 0
NoSpace s = skip_space s ≡ s

skip_newline : (s : Str) → skip_space (10 ∷ s) ≡ skip_space s
unfolding skip_space
skip_newline s = refl

skip_nothing : skip_space [] ≡ []
unfolding skip_space
skip_nothing = refl

-- One line of the file is read, if no white space follows it.
fscanf_line :
    (n : ℤ) (rest : Str) → NoSpace rest → fscanf_int (decimal_int n ++ 10 ∷ rest) ≡ some (n, rest)
unfolding fscanf_int
fscanf_line n rest h = ground (
  arith,
  skip_space-decimal_int n (10 ∷ rest),
  scan_signed-decimal_int n (10 ∷ rest) refl,
  skip_newline rest,
  h,
)

read_codes_lem : (c : RegisteredSyscallCodes) → read_codes (codes_text c) ≡ some (in_order c)
unfolding read_codes codes_text
read_codes_lem c =
    let last = decimal_int c.sc_code_flush ++ 10 ∷ [] in
    let third = decimal_int c.sc_code_reconf_rm ++ 10 ∷ last in
    let second = decimal_int c.sc_code_reconf_add ++ 10 ∷ third in
    ground (
      arith,
      fscanf_line c.sc_code_set_state second
          (skip_space-decimal_int c.sc_code_reconf_add (10 ∷ third)),
      fscanf_line c.sc_code_reconf_add third
          (skip_space-decimal_int c.sc_code_reconf_rm (10 ∷ last)),
      fscanf_line c.sc_code_reconf_rm last (skip_space-decimal_int c.sc_code_flush (10 ∷ [])),
      fscanf_line c.sc_code_flush [] skip_nothing,
    )

-- The tool reads from the file that the kernel prints the code of each system call, whatever the
-- codes are.
pub get_syscall_index-codes_text :
    (c : RegisteredSyscallCodes) (index : ScOrder)
    → get_syscall_index (some (codes_text c)) index ≡ select (in_order c) index
unfolding get_syscall_index
get_syscall_index-codes_text c index = ground (arith, read_codes_lem c)
