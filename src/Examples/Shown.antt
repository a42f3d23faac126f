-- ===== src/Examples/Shown.antt =====
-- What a user is shown, on concrete inputs.
use refmon.Prelude.{
  sym, ◌∙◌, ◌<◌, length, ap, ◌++◌, ◌≡◌, refl, Option, none, some, [], ◌∷◌, ℤ, pos, negsuc, arith,
  if◌then◌else◌,
}
use refmon.CStr.{Str, codes, match_string, strncmp_is_zero}
use refmon.Model.{RegistryEntry, is_state_valid}
use refmon.Startup.{same}
use refmon.ProcIo.{proc_registry, proc_state, ProcRead, read_proc}
use refmon.ProcIo.Bounds.{lines}
use refmon.User.{UserHost, opt_a, opt_s, opt_long, shown}
use refmon.User.Main.{main, ask_for_password}
use refmon.User.EndToEnd.{CommandLine, main-serve}
use refmon.User.SetAndShow.{print_state-set_state}
use refmon.World.{World}
use refmon.Syscalls.{syscall}
use refmon.Monitor.{Request, set_state, add, as_syscall, serve}
use refmon.Monitor.Simulation.{serve-Simulates}
use refmon.Examples.{file_path, files, root, works, password, one_entry, reconf}
use refmon.Examples.Tools.{four_codes, monitor, monitor-Simulates, module_host, result, has_result}
use refmon.AddFile.Outcome.{IsEntryOf}
use refmon.ProcIo.{entry_line, page_size}
use refmon.User.AddAndShow.{print_registry-add}
use refmon.Examples.Calls.{added, grown}
use mathlib.Core.Path.{subst}
use refmon.CStr.Decimal.{decimal}

abbrev off_text : Str
off_text = codes "OFF"

abbrev set_off : Option ℤ × World
set_off = syscall root (as_syscall (set_state off_text)) (reconf one_entry)

-- The module behind the code of sys_set_state.
abbrev state_host : UserHost
state_host = record module_host {
  syscall = λ code args. if same code (pos 134) then result set_off.0 else negsuc 37;
}

abbrev bytes_read : Option ProcRead → Str
bytes_read none = []
bytes_read (some r) = r.bytes

-- The pipe passes on what a read of the file of the state yields.
abbrev shower : UserHost
shower = record state_host {
  popen = λ file. some (bytes_read (read_proc four_codes (λ s. 0) proc_state 64 0 set_off.1).0);
}

set_off_served : some (result set_off.0) ≡ set_off.0
set_off_served =
    has_result set_off.0 (serve root (set_state off_text) monitor).0
      (serve-Simulates root works (set_state off_text) (reconf one_entry) monitor
        monitor-Simulates).0

off_is_set : (main state_host 3 (opt_s off_text ∷ [])).value ≡ pos 0
unfolding serve ask_for_password is_state_valid match_string strncmp_is_zero
off_is_set =
    main-serve state_host four_codes root (reconf one_entry) monitor password
      (CommandLine.set off_text) refl refl set_off_served refl tt refl works monitor-Simulates

print_state-set_state_example :
    main shower 2 (opt_long (codes "print-state") ∷ [])
    ≡ record { value = pos 0; output = shown (off_text ++ 10 ∷ []) ∷ [] }
print_state-set_state_example =
    print_state-set_state state_host shower four_codes root (reconf one_entry) monitor off_text
      (λ s. 0) 64 refl refl set_off_served refl works monitor-Simulates off_is_set (λ s. refl)
      (omega arith) (λ out d. ap (λ (r : Option ProcRead × World). some (bytes_read r.0)) d.0) refl
      refl refl

abbrev add_request : Request
add_request = add file_path password

abbrev add_file_call : Option ℤ × World
add_file_call = syscall root (as_syscall add_request) (reconf one_entry)

-- The pipe passes on what a read of the file of the registry yields.
abbrev list_shower : UserHost
list_shower = record module_host {
  popen = λ file.
      some (bytes_read (read_proc four_codes (λ s. 0) proc_registry 5000 0 add_file_call.1).0);
}

file_served : some (result add_file_call.0) ≡ add_file_call.0
file_served = ap (λ x. some (result x)) added ∙ sym added

file_is_added : (main module_host 3 (opt_a file_path ∷ [])).value ≡ pos 0
unfolding ask_for_password
file_is_added =
    let answers =
      serve-Simulates root works add_request (reconf one_entry) monitor monitor-Simulates in
    main-serve module_host four_codes root (reconf one_entry) monitor password
      (CommandLine.reconf_add file_path) refl refl file_served refl tt refl works monitor-Simulates
    ∙ ap result (sym answers.0 ∙ added)

list_is_short : length (lines add_file_call.1.instance.registry) < page_size
unfolding entry_line decimal
list_is_short = subst (λ r. length (lines r) < page_size) (sym grown) (omega arith)

print_registry-add_example :
    (e : RegistryEntry) × IsEntryOf files file_path e
    × (main list_shower 2 (opt_long (codes "print-registry") ∷ [])
        ≡ record { value = pos 0; output = shown (lines one_entry ++ entry_line e) ∷ [] })
unfolding ask_for_password
print_registry-add_example =
    print_registry-add module_host list_shower four_codes root (reconf one_entry) monitor file_path
      password (λ s. 0) 5000 refl refl file_served refl refl works monitor-Simulates file_is_added
      (λ s. refl) (omega arith) list_is_short
      (λ out d. ap (λ (r : Option ProcRead × World). some (bytes_read r.0)) d.0) refl refl refl
