-- ===== src/User.antt =====
-- user/: the command line tool.
-- Its output is a list of messages, each named for what it says. The C library and the kernel are a
-- parameter. `errno` is kept negated, as the commands return it.
mod Shape
pub mod Codes
pub mod Commands
pub mod Main
pub mod EndToEnd
pub mod SetAndShow
pub mod AddAndShow
pub use Shape.*
use refmon.Prelude.{
  ℕ, ◌+◌, Bool, true, false, not, ◌&&◌, Option, none, some, List, [], ◌∷◌, ◌++◌, ℤ, pos, negsuc,
  is_zero, is_neg, ltb, ◌==◌, if◌then◌else◌, neg_eperm, neg_enoent, neg_eio, neg_enomem, neg_eacces,
  neg_eexist, neg_einval, length,
}
use refmon.CStr.{Str, codes, match_string}
use refmon.CStr.Decimal.{skip_space, scan_signed}
use refmon.Startup.{Entries, same}

-- `fscanf(file, "%d\n", …)` on what is left of the file; `none` if it does not return 1.
unfoldable pub fscanf_int : Str → Option (ℤ × Str)
fscanf_int s = elim (scan_signed (skip_space s)) [
  | none ↦ none
  | some (n, rest) ↦ some (n, skip_space rest)
]

-- The next of the four codes, and what is done with it.
abbrev pub next_code : {A : Type 0} → Str → (ℤ → Str → Option A) → Option A
next_code s use_code = elim (fscanf_int s) [ none ↦ none | some (n, rest) ↦ use_code n rest ]

-- The loop that reads the four codes.
unfoldable pub read_codes : Str → Option (Entries ℤ)
read_codes s = next_code s λ a s1. next_code s1 λ b s2. next_code s2 λ c s3.
    next_code s3 λ d s4. some (record { entry_0 = a; entry_1 = b; entry_2 = c; entry_3 = d })

-- The argument is what the file holds, if it can be opened.
unfoldable pub get_syscall_index : Option Str → ScOrder → ℤ
get_syscall_index none index = negsuc 0
get_syscall_index (some file) index = elim (read_codes file) [
  | none ↦ neg_einval
  | some c ↦ select c index
]

-- What all four commands do around the switch over `-errno`, which `report` names the message of.
unfoldable pub with_syscall : UserHost → ScOrder → List Str → (ℤ → Message) → Outcome
with_syscall h order args report =
    let syscall_index = get_syscall_index h.syscallcodes_file order in
    if is_neg syscall_index
    then record { value = syscall_index; output = no_code ∷ [] }
    else (let (ret, err) = libc_syscall (h.syscall syscall_index args) h.neg_errno in
        record {
          value = err;
          output = (if not (is_zero ret) then error_occurred ∷ [] else []) ++ report err ∷ [];
        })

unfoldable pub report_set_state : Str → ℤ → Message
report_set_state new_state err =
    if same err (pos 0)
    then state_changed new_state
    else if same err neg_einval
    then invalid_parameter
    else if same err neg_eacces
    then access_denied
    else unexpected

unfoldable pub report_reconf_add : Str → ℤ → Message
report_reconf_add path err =
    if same err (pos 0)
    then path_added path
    else if same err neg_einval
    then invalid_parameter
    else if same err neg_eacces
    then access_denied
    else if same err neg_enomem
    then memory_error
    else if same err neg_eexist
    then already_registered
    else if same err neg_eperm
    then not_permitted
    else unexpected

unfoldable pub report_reconf_rm : Str → ℤ → Message
report_reconf_rm path err =
    if same err (pos 0)
    then path_removed path
    else if same err neg_einval
    then invalid_parameter
    else if same err neg_eacces
    then access_denied
    else if same err neg_enomem
    then memory_error
    else if same err neg_enoent
    then not_registered
    else if same err neg_eperm
    then not_permitted
    else unexpected

unfoldable pub report_flush : ℤ → Message
report_flush err = if same err (pos 0) then registry_flushed else unexpected

unfoldable pub cmd_set_state : UserHost → Str → Outcome
cmd_set_state h new_state =
    with_syscall h sc_order_set_state (new_state ∷ []) (report_set_state new_state)

unfoldable pub cmd_reconf_add : UserHost → Str → Str → Outcome
cmd_reconf_add h path password =
    with_syscall h sc_order_reconf_add (path ∷ password ∷ []) (report_reconf_add path)

unfoldable pub cmd_reconf_rm : UserHost → Str → Str → Outcome
cmd_reconf_rm h path password =
    with_syscall h sc_order_reconf_rm (path ∷ password ∷ []) (report_reconf_rm path)

unfoldable pub cmd_flush : UserHost → Str → Outcome
cmd_flush h password = with_syscall h sc_order_flush (password ∷ []) report_flush

abbrev pub proc_user_state_file : Str
proc_user_state_file = codes "/proc/refmon-state"

abbrev pub proc_user_list_file : Str
proc_user_list_file = codes "/proc/refmon-list"

-- The pipe's output is printed as it is read.
unfoldable pub read_procfile_from_user : UserHost → Str → Outcome
read_procfile_from_user h filepath =
    if not h.calloc then record { value = neg_enomem; output = [] } else elim (h.popen filepath) [
      | none ↦ record { value = neg_eio; output = [] }
      | some text ↦ record {
        value = (if not h.pclose then neg_eio else pos 0);
        output = shown text ∷ [];
      }
    ]

unfoldable pub cmd_print_state : UserHost → Outcome
cmd_print_state h =
    let ret = read_procfile_from_user h proc_user_state_file in
    if is_neg ret.value
    then record { value = h.neg_errno; output = ret.output }
    else record { value = pos 0; output = ret.output }

-- The negated result is a positive number.
unfoldable pub cmd_print_registry : UserHost → Outcome
cmd_print_registry h =
    let ret = read_procfile_from_user h proc_user_list_file in
    if is_neg ret.value
    then record { value = negate ret.value; output = ret.output }
    else record { value = pos 0; output = ret.output }

unfoldable pub cmd_opinfo : UserHost → Outcome
cmd_opinfo h =
    let state = cmd_print_state h in
    if not (is_zero state.value)
    then record { value = state.value; output = banner ∷ state.output }
    else (let list = cmd_print_registry h in
        record {
          value = (if not (is_zero list.value) then list.value else pos 0);
          output = (banner ∷ state.output) ++ (pathlist ∷ list.output);
        })

unfoldable pub cmd_help : UserHost → Outcome
cmd_help h = record {
  value = pos 0;
  output = help ∷ (if h.test_build then help_flush ∷ [] else []);
}
