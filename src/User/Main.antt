-- ===== src/User/Main.antt =====
-- `main` of user/user.c.
-- The argument list is what `getopt_long` makes of the command line.
use refmon.Prelude.{
  ℕ, Bool, not, Option, none, some, List, [], ◌∷◌, ltb, ◌==◌, if◌then◌else◌, neg_einval,
}
use refmon.CStr.{Str, codes, strcmp_is_zero}
use refmon.User.{
  UserHost, Outcome, Message, usage, wrong_arguments, extra_arguments, password_error, Opt, opt_s,
  opt_a, opt_r, opt_i, opt_h, opt_x, opt_error, opt_long, cmd_set_state, cmd_reconf_add,
  cmd_reconf_rm, cmd_print_state, cmd_print_registry, cmd_opinfo, cmd_help, cmd_flush, test_warning,
}

abbrev pub invalid : Message → Outcome
invalid m = record { value = neg_einval; output = m ∷ [] }

-- `none` is the NULL of a prompt that failed; a build with TEST does not prompt.
unfoldable pub ask_for_password : UserHost → Option Str
ask_for_password h = if h.test_build then some (codes "ciao") else h.getpass

-- A command that wants a password.
unfoldable pub with_password : UserHost → (Str → Outcome) → Outcome
unfolding ask_for_password
with_password h command = elim (ask_for_password h) [
  | none ↦ invalid password_error
  | some password ↦ command password
]

-- A command on a path: it wants two arguments and a password.
unfoldable pub on_path : UserHost → ℕ → (Str → Outcome) → Outcome
unfolding with_password
on_path h argc command =
    if not (argc == 3) then invalid wrong_arguments else with_password h command

-- A command that wants no arguments.
abbrev ignoring_extra : ℕ → Outcome → Outcome
ignoring_extra argc out =
    if ltb 2 argc then record { value = out.value; output = extra_arguments ∷ out.output } else out

-- MATCH_COMMAND
abbrev match_command : Str → Str → Bool
match_command name cmd = strcmp_is_zero name cmd

-- The loop over the options; each turn returns, but one on a long option without a command.
unfoldable pub run_options : UserHost → ℕ → List Opt → Outcome
unfolding on_path
run_options h argc [] = invalid usage
run_options h argc (opt_s optarg ∷ more) =
    if not (argc == 3) then invalid wrong_arguments else cmd_set_state h optarg
run_options h argc (opt_a optarg ∷ more) = on_path h argc (cmd_reconf_add h optarg)
run_options h argc (opt_r optarg ∷ more) = on_path h argc (cmd_reconf_rm h optarg)
run_options h argc (opt_i ∷ more) = ignoring_extra argc (cmd_opinfo h)
run_options h argc (opt_h ∷ more) = ignoring_extra argc (cmd_help h)
run_options h argc (opt_long name ∷ more) =
    let next = run_options h argc more in
    if match_command name (codes "off")
    then cmd_set_state h (codes "OFF")
    else if match_command name (codes "on")
    then cmd_set_state h (codes "ON")
    else if match_command name (codes "recoff")
    then cmd_set_state h (codes "REC-OFF")
    else if match_command name (codes "recon")
    then cmd_set_state h (codes "REC-ON")
    else if match_command name (codes "print-state")
    then cmd_print_state h
    else if match_command name (codes "print-registry")
    then cmd_print_registry h
    else next
run_options h argc (opt_x ∷ more) =
    if h.test_build then with_password h (cmd_flush h) else invalid usage
run_options h argc (opt_error ∷ more) = invalid usage

unfoldable pub main : UserHost → ℕ → List Opt → Outcome
unfolding run_options
main h argc options =
    let out = if ltb argc 2 then invalid usage else run_options h argc options in
    if h.test_build then record { value = out.value; output = test_warning ∷ out.output } else out
