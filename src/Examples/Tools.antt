-- ===== src/Examples/Tools.antt =====
-- The /proc files, the tool of user/ and the monitor on concrete inputs.
use refmon.Prelude.{
  ◌≡◌, ◌↔◌, inl, refl, true, false, Option, none, some, List, [], ◌∷◌, ℤ, pos, negsuc, arith,
  neg_eacces, if◌then◌else◌,
}
use refmon.CStr.{Str, codes, match_string, strncmp_is_zero}
use refmon.Kernel.{Kernel}
use refmon.Model.{rec_on}
use refmon.Startup.{RegisteredSyscallCodes, same}
use refmon.ProcIo.{proc_registry, codes_text}
use refmon.ProcIo.Bounds.{Shown, lines}
use refmon.ProcIo.Reading.{Delivers, read_proc-registry}
use refmon.User.{UserHost, opt_a, get_syscall_index, sc_order_reconf_rm}
use refmon.User.Codes.{get_syscall_index-codes_text}
use refmon.User.Commands.{Command, run, run_value}
use refmon.User.Main.{main, ask_for_password}
use refmon.User.EndToEnd.{CommandLine, main-serve}
use refmon.Syscalls.{syscall}
use refmon.FsUtils.{resolve_by_links, is_resolved, extract_ino_no_from_path}
use refmon.FsUtils.Resolve.{canonical}
use refmon.Misc.{hexconv, hex_digit}
use refmon.Hooks.Verdict.{at_vfs_open}
use refmon.Probing.{initial_probes}
use refmon.Probing.Switch.{ProbesAre}
use refmon.Hooks.{krp_to_tailhook, krp_hook_open}
use refmon.Monitor.{Monitor, Request, set_state, add, new_entry, as_syscall, serve}
use refmon.Monitor.View.{view}
use refmon.Monitor.Simulation.{
  Simulates, run_calls, serve_all, run_calls-Simulates, serve-Simulates,
}
use refmon.Monitor.Access.{opening, hook, Forbidden, hook-Forbidden}
use refmon.Monitor.Progress.{CanProtect, two_calls, root_can_protect}
use refmon.Examples.{
  file_path, memory, files, root, works, kprobes_work, password, one_entry, one_entry-WellFormed,
  reconf,
}
use refmon.Examples.Calls.{file_entry}
use refmon.Examples.Parts.{file-Resolves}

abbrev pub four_codes : RegisteredSyscallCodes
four_codes = record {
  sc_code_set_state = pos 134;
  sc_code_reconf_add = pos 156;
  sc_code_reconf_rm = pos 174;
  sc_code_flush = pos 177;
}

read_proc-registry_example :
    (s : Shown one_entry 4096) × Delivers four_codes
      (λ s. 0)
      proc_registry
      5000
      (reconf one_entry)
      (lines s.first)
read_proc-registry_example =
    read_proc-registry four_codes (λ s. 0) 5000 (reconf one_entry) (λ s. refl) refl (omega arith)

get_syscall_index-codes_text_example :
    get_syscall_index (some (codes_text four_codes)) sc_order_reconf_rm ≡ pos 174
get_syscall_index-codes_text_example = get_syscall_index-codes_text four_codes sc_order_reconf_rm

-- The kernel refuses every call.
abbrev host : UserHost
host = record {
  syscallcodes_file = some (codes_text four_codes);
  syscall = λ code args. neg_eacces;
  neg_errno = pos 0;
  calloc = true;
  popen = λ file. none;
  pclose = true;
  getpass = none;
  test_build = false;
}

run_value_example : (run host (Command.flush password)).value ≡ neg_eacces
run_value_example = run_value host four_codes (Command.flush password) refl refl

abbrev pub monitor : Monitor
monitor = record { state = rec_on; stored = codes "04"; protected = view one_entry }

pub monitor-Simulates : Simulates (reconf one_entry) monitor
monitor-Simulates = record {
  free = refl;
  formed = one_entry-WellFormed;
  state = refl;
  stored = refl;
  protected = λ p. refl;
}

abbrev calls : List (Kernel × Request)
calls = (root, add file_path password) ∷ (root, set_state (codes "OFF")) ∷ []

run_calls-Simulates_example :
    ((run_calls calls (reconf one_entry)).0 ≡ (serve_all calls monitor).0)
    × Simulates (run_calls calls (reconf one_entry)).1 (serve_all calls monitor).1
run_calls-Simulates_example =
    run_calls-Simulates calls (reconf one_entry) monitor (works, (works, tt)) monitor-Simulates

root-CanProtect : CanProtect root monitor file_path password file_path file_entry
unfolding view canonical new_entry match_string strncmp_is_zero resolve_by_links hexconv hex_digit
    is_resolved extract_ino_no_from_path
root-CanProtect = record {
  is_root = refl;
  right_password = refl;
  some_password = refl;
  some_path = refl;
  canonical_path = refl;
  not_registered = refl;
  can_register = refl;
}

probes_off : ProbesAre false initial_probes
probes_off = (refl, refl, refl, refl, refl)

root_can_protect_example :
    let (rets, u) = run_calls (two_calls root file_path password) (reconf one_entry) in
    (rets ≡ some (pos 0) ∷ some (pos 0) ∷ [])
    × (u.instance.state ≡ rec_on)
    × ProbesAre true u.probes
    × ((krp_hook_open memory files u.instance.registry (at_vfs_open 5 1) 0).0
        ≡ some krp_to_tailhook)
root_can_protect_example =
    root_can_protect root (reconf one_entry) monitor file_path password file_path file_entry works
      monitor-Simulates root-CanProtect false 5 1 0 kprobes_work probes_off file-Resolves
      (omega arith) (inl refl)

-- The module behind the code of sys_reconf_add.
abbrev dispatch : List Str → Option ℤ
dispatch [] = none
dispatch (path ∷ []) = none
dispatch (path ∷ given ∷ []) = (syscall root (as_syscall (add path given)) (reconf one_entry)).0
dispatch (path ∷ given ∷ more ∷ rest) = none

-- -ENOSYS if there is no result.
abbrev pub result : Option ℤ → ℤ
result none = negsuc 37
result (some n) = n

abbrev pub module_host : UserHost
module_host = record {
  syscallcodes_file = some (codes_text four_codes);
  syscall = λ code args. if same code (pos 156) then result (dispatch args) else negsuc 37;
  neg_errno = pos 0;
  calloc = true;
  popen = λ file. none;
  pclose = true;
  getpass = some password;
  test_build = false;
}

pub has_result : (x : Option ℤ) (n : ℤ) → x ≡ some n → some (result x) ≡ x
has_result x n e = rw e refl

main-serve_example :
    (main module_host 3 (opt_a file_path ∷ [])).value
    ≡ (serve root (add file_path password) monitor).0
unfolding ask_for_password
main-serve_example =
    main-serve module_host four_codes root (reconf one_entry) monitor password
      (CommandLine.reconf_add file_path) refl refl
      (has_result (syscall root (as_syscall (add file_path password)) (reconf one_entry)).0
        (serve root (add file_path password) monitor).0
        (serve-Simulates root works (add file_path password) (reconf one_entry) monitor
          monitor-Simulates).0)
      refl tt refl works monitor-Simulates

hook-Forbidden_example :
    ((hook memory files (run_calls calls (reconf one_entry)).1.instance.registry 5 (opening 1) 0).0
      ≡ some krp_to_tailhook)
    ↔ Forbidden files (serve_all calls monitor).1.protected file_path (opening 1)
hook-Forbidden_example =
    hook-Forbidden calls (reconf one_entry) monitor root 5 file_path (opening 1) 0
      (works, (works, tt)) monitor-Simulates works (omega arith) file-Resolves
