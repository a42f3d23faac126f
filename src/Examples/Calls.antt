-- ===== src/Examples/Calls.antt =====
-- The system calls and the handlers on concrete inputs.
use refmon.Prelude.{[], ◌∷◌, ◌++◌, ◌≡◌, refl, Option, some, ℤ, pos, neg_eexist, neg_eacces}
use refmon.CStr.{codes, match_string, strncmp_is_zero}
use refmon.Model.{RegistryEntry, is_on, is_reconf, string_to_state, is_state_valid}
use refmon.Misc.{hexconv, hashgen_str, hex_digit}
use refmon.FsUtils.{
  resolve_path_alloc, find_entry_by_regpath_alloc, search_entry, find_index, entry_matches,
  is_subpath, is_dir, extract_ino_no_from_path,
}
use refmon.Safety.{
  safety_checks, root_check, reconf_check, password_check, match_password,
  sanitize_user_input_alloc, caught,
}
use refmon.AddFile.{add_file, add_resolved, add_node}
use refmon.Probing.{probing_update, probing_on, probing_off}
use refmon.World.{World}
use refmon.Handlers.{
  do_set_state, do_reconf_add, do_reconf_rm, do_flush_registry, set_state_body, set_state,
  reconf_add_body, reconf_rm_body, flush_body, find_for_removal,
}
use refmon.Syscalls.{Syscall, sys_set_state, sys_reconf_add, sys_reconf_rm, sys_flush, syscall}
use refmon.Syscalls.Atomic.{syscall_error_keeps}
use refmon.Syscalls.Authority.{MayRun, syscall-MayRun}
use refmon.Syscalls.Tables.{Gives}
use refmon.Syscalls.RoundTrip.{remove-add}
use refmon.System.{initial, here, next, call}
use refmon.System.Invariant.{IsSafe, Reach-IsSafe}
use refmon.Examples.{file_path, dir_path, root, works, healthy, password, one_entry, reconf}

-- A call as root, with all that it computes with.
run : Syscall → World → Option ℤ × World
unfolding syscall do_set_state set_state_body set_state probing_update probing_on probing_off
    is_state_valid string_to_state is_on do_reconf_add reconf_add_body do_reconf_rm reconf_rm_body
    find_for_removal do_flush_registry flush_body safety_checks root_check reconf_check
    password_check match_password sanitize_user_input_alloc caught hashgen_str hexconv hex_digit
    is_reconf add_file add_resolved add_node resolve_path_alloc find_entry_by_regpath_alloc
    search_entry find_index entry_matches is_dir is_subpath extract_ino_no_from_path match_string
    strncmp_is_zero
run c w = syscall root c w

abbrev before : World
before = reconf one_entry

abbrev add_call : Syscall
add_call = sys_reconf_add (some file_path) (some password)

abbrev remove_call : Syscall
remove_call = sys_reconf_rm (some dir_path) (some password)

pub added : (syscall root add_call before).0 ≡ some (pos 0)
unfolding run
added = refl

abbrev pub file_entry : RegistryEntry
file_entry = record {
  registered = record { path = file_path; ino_no = 105 };
  resolved = record { path = file_path; ino_no = 105 };
}

pub grown : (syscall root add_call before).1.instance.registry ≡ one_entry ++ file_entry ∷ []
unfolding run
grown = refl

removed : (syscall root remove_call before).0 ≡ some (pos 0)
unfolding run
removed = refl

again : (syscall root (sys_reconf_add (some dir_path) (some password)) before).0 ≡ some neg_eexist
unfolding run
again = refl

wrong_password : (syscall root (sys_flush (some (codes "hello"))) before).0 ≡ some neg_eacces
unfolding run
wrong_password = refl

switched :
    (syscall root (sys_set_state (some (codes "REC-ON"))) (initial (codes "04"))).0 ≡ some (pos 0)
unfolding run
switched = refl

Reach-IsSafe_example :
    IsSafe
      (codes "04")
      (syscall root (sys_set_state (some (codes "REC-ON"))) (initial (codes "04"))).1
Reach-IsSafe_example =
    Reach-IsSafe (codes "04")
      (next here (call root (sys_set_state (some (codes "REC-ON"))) (pos 0) healthy switched refl))

syscall-MayRun_example : MayRun root before.instance add_call
syscall-MayRun_example = syscall-MayRun root add_call before added

syscall_error_keeps_example :
    let c = sys_flush (some (codes "hello")) in
    ((syscall root c before).1.instance ≡ before.instance)
    × ((syscall root c before).1.probes ≡ before.probes)
    × ((syscall root c before).1.work ≡ before.work)
syscall_error_keeps_example =
    syscall_error_keeps root (sys_flush (some (codes "hello"))) before neg_eacces wrong_password
      refl

remove-add_example :
    Gives
      (syscall root
        (sys_reconf_rm (some file_path) (some password))
        (syscall root add_call before).1)
      (pos 0, one_entry)
remove-add_example = remove-add root file_path password works before added
