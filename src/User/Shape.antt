-- ===== src/User/Shape.antt =====
-- What the tool of user/ works with: the orders of the codes, its messages, the options that
-- `getopt_long` finds, and the C library.
use refmon.Prelude.{zero, suc, Bool, false, Option, List, ℤ, pos, negsuc, ltb, if◌then◌else◌}
use refmon.CStr.{Str}
use refmon.Startup.{Entries}

-- SC_ORDER_…: the places of the codes in their file.
pub data ScOrder : Type 0 where
  sc_order_set_state sc_order_reconf_add sc_order_reconf_rm sc_order_flush : ScOrder

-- `codes[index]`
abbrev pub select : Entries ℤ → ScOrder → ℤ
select c sc_order_set_state = c.entry_0
select c sc_order_reconf_add = c.entry_1
select c sc_order_reconf_rm = c.entry_2
select c sc_order_flush = c.entry_3

pub data Message : Type 0 where
  no_code error_occurred invalid_parameter access_denied memory_error already_registered : Message
  not_registered not_permitted unexpected registry_flushed banner pathlist help usage : Message
  wrong_arguments extra_arguments password_error help_flush test_warning : Message
  state_changed path_added path_removed shown : Str → Message

-- What a command returns and what it has printed.
pub record Outcome : Type 0 where
  pub value : ℤ
  pub output : List Message

-- The file of the codes, if it can be opened; what the kernel returns for a number and arguments;
-- -errno as what came before left it; the memory and the pipe of `cat` on a file; the
-- password; and whether the tool was built with TEST.
pub record UserHost : Type 0 where
  pub syscallcodes_file : Option Str
  pub syscall : ℤ → List Str → ℤ
  pub neg_errno : ℤ
  pub calloc : Bool
  pub popen : Str → Option Str
  pub pclose : Bool
  pub getpass : Option Str
  pub test_build : Bool

-- The results that the C library takes for errors.
abbrev pub is_errno : ℤ → Bool
is_errno (pos n) = false
is_errno (negsuc n) = ltb n 4095

-- `syscall(2)`: an error of the kernel goes to errno, and -1 is returned; errno is left alone else.
abbrev pub libc_syscall : ℤ → ℤ → ℤ × ℤ
libc_syscall ret neg_errno = if is_errno ret then (negsuc 0, ret) else (ret, neg_errno)

abbrev pub negate : ℤ → ℤ
negate (pos zero) = pos 0
negate (pos (suc n)) = negsuc n
negate (negsuc n) = pos (suc n)

-- What `getopt_long` returns: a short option with its argument, the name of a long one that has
-- none, or the mark of an error.
pub data Opt : Type 0 where
  opt_s opt_a opt_r : Str → Opt
  opt_i opt_h opt_x opt_error : Opt
  opt_long : Str → Opt
