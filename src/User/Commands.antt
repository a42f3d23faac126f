-- ===== src/User/Commands.antt =====
-- What the commands of user/user.c return.
use refmon.Prelude.{false, ◌≡◌, some, List, [], ◌∷◌, ℤ, is_neg, if◌then◌else◌, arith}
use refmon.CStr.{Str}
use refmon.Startup.{RegisteredSyscallCodes}
use refmon.ProcIo.{codes_text}
use refmon.User.{
  UserHost, Outcome, Message, ScOrder, sc_order_set_state, sc_order_reconf_add, sc_order_reconf_rm,
  sc_order_flush, select, is_errno, with_syscall, cmd_set_state, cmd_reconf_add, cmd_reconf_rm,
  cmd_flush, get_syscall_index,
}
use refmon.User.Codes.{in_order, get_syscall_index-codes_text}

-- The commands that make a system call, with the order of its code and its arguments.
pub data Command : Type 0 where
  set_state : Str → Command
  reconf_add reconf_rm : Str → Str → Command
  flush : Str → Command

abbrev pub run : UserHost → Command → Outcome
run h (set_state s) = cmd_set_state h s
run h (reconf_add path password) = cmd_reconf_add h path password
run h (reconf_rm path password) = cmd_reconf_rm h path password
run h (flush password) = cmd_flush h password

abbrev pub order : Command → ScOrder
order (set_state s) = sc_order_set_state
order (reconf_add path password) = sc_order_reconf_add
order (reconf_rm path password) = sc_order_reconf_rm
order (flush password) = sc_order_flush

abbrev pub arguments : Command → List Str
arguments (set_state s) = s ∷ []
arguments (reconf_add path password) = path ∷ password ∷ []
arguments (reconf_rm path password) = path ∷ password ∷ []
arguments (flush password) = password ∷ []

with_syscall_value :
    (h : UserHost) (o : ScOrder) (args : List Str) (report : ℤ → Message) (code : ℤ)
    → get_syscall_index h.syscallcodes_file o ≡ code
    → is_neg code ≡ false
    → (with_syscall h o args report).value
      ≡ (if is_errno (h.syscall code args) then h.syscall code args else h.neg_errno)
unfolding with_syscall
with_syscall_value h o args report code e p = ground (arith, e, p)

read_index :
    (h : UserHost) (c : RegisteredSyscallCodes) (o : ScOrder)
    → h.syscallcodes_file ≡ some (codes_text c)
    → get_syscall_index h.syscallcodes_file o ≡ select (in_order c) o
read_index h c o file = rw file (get_syscall_index-codes_text c o)

-- If the file of the codes is as the kernel prints it, with codes that are not negative, each
-- command makes its own system call with its own arguments and returns its error; where the call
-- makes no error, it returns the negated errno of before, which is 0 only if nothing had set it.
pub run_value :
    (h : UserHost) (c : RegisteredSyscallCodes) (cmd : Command)
    → h.syscallcodes_file ≡ some (codes_text c)
    → is_neg (select (in_order c) (order cmd)) ≡ false
    → let ret = h.syscall (select (in_order c) (order cmd)) (arguments cmd) in
      (run h cmd).value ≡ (if is_errno ret then ret else h.neg_errno)
unfolding cmd_set_state cmd_reconf_add cmd_reconf_rm cmd_flush
run_value h c (set_state s) file p =
    with_syscall_value h sc_order_set_state (arguments (set_state s)) _ _
      (read_index h c sc_order_set_state file) p
run_value h c (reconf_add path password) file p =
    with_syscall_value h sc_order_reconf_add (arguments (reconf_add path password)) _ _
      (read_index h c sc_order_reconf_add file) p
run_value h c (reconf_rm path password) file p =
    with_syscall_value h sc_order_reconf_rm (arguments (reconf_rm path password)) _ _
      (read_index h c sc_order_reconf_rm file) p
run_value h c (flush password) file p =
    with_syscall_value h sc_order_flush (arguments (flush password)) _ _
      (read_index h c sc_order_flush file) p
