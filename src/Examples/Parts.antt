-- ===== src/Examples/Parts.antt =====
-- The parts behind the system calls, and the handlers of the probes, on concrete inputs.
use refmon.Prelude.{ℕ, ◌%◌, ◌≡◌, ◌≢◌, ◌↔◌, ◌⊎◌, refl, true, false, some, [], pos, arith, Any}
use refmon.CStr.{codes, match_string, strncmp_is_zero}
use refmon.Model.{PathIdentifier, is_reconf}
use refmon.Misc.{hexconv, hex_digit, hashgen_str}
use refmon.FsUtils.{
  resolve_links, is_eligible, is_subpath, resolve_by_links, is_resolved, extract_ino_no_from_path,
  extract_path_from_dentry,
}
use refmon.FsUtils.Subpath.{ExtendsBySlash, is_subpath_iff}
use refmon.FsUtils.Search.{Covers, is_eligible_iff}
use refmon.FsUtils.Resolve.{canonical}
use refmon.LogIo.{log_handler}
use refmon.Safety.{
  all_checks, safety_checks, root_check, reconf_check, password_check, match_password,
  sanitize_user_input_alloc, caught,
}
use refmon.Safety.Decision.{decision, hash, safety_checks-decision, safety_checks_sound}
use refmon.AddFile.{add_file}
use refmon.AddFile.Invariant.{WellFormed, add_file-WellFormed}
use refmon.AddFile.Outcome.{Added, add_file-Added}
use refmon.Hooks.{
  krp_to_tailhook, is_write_acc, krp_hook_open, krp_hook_tail, tail_body, rax_eacces,
}
use refmon.Hooks.AccessMode.{is_write_acc_iff}
use refmon.Hooks.Verdict.{Resolves, at_vfs_open, krp_hook_open_iff}
use refmon.Examples.{
  file_path, dir_path, memory, files, root, memory_works, crypto_works, paths_absolute, password,
  one_entry, one_entry-WellFormed, reconf,
}

abbrev id : PathIdentifier
id = record { path = codes "/d/x"; ino_no = 3 }

is_eligible_iff_example :
    (is_eligible files one_entry id ≡ true) ↔ ((id.path ≢ []) × Any (Covers files id) one_entry)
is_eligible_iff_example = is_eligible_iff files one_entry id (omega arith)

is_subpath_iff_example :
    (is_subpath dir_path (codes "/d/x") ≡ true) ↔ ExtendsBySlash dir_path (codes "/d/x")
is_subpath_iff_example = is_subpath_iff dir_path (codes "/d/x") (omega arith)

pub file-Resolves : Resolves memory files 5 resolve_links file_path
unfolding canonical resolve_by_links match_string strncmp_is_zero
file-Resolves = record {
  dentry_path = file_path;
  printed = refl;
  kept = λ n. refl;
  resolved = refl;
}

dir-Resolves : Resolves memory files 6 3 dir_path
unfolding canonical is_resolved
dir-Resolves = record { dentry_path = dir_path; printed = refl; kept = λ n. refl; resolved = refl }

krp_hook_open_iff_example :
    ((krp_hook_open memory files one_entry (at_vfs_open 5 1) 0).0 ≡ some krp_to_tailhook) ↔ (
      (◌≡◌ {A = ℕ} (1 % 4) 1 ⊎ ◌≡◌ {A = ℕ} (1 % 4) 2)
      × Any
          (Covers files
            (record { path = file_path; ino_no = extract_ino_no_from_path files file_path }))
          one_entry)
krp_hook_open_iff_example =
    krp_hook_open_iff memory files one_entry 5 file_path memory_works paths_absolute (omega arith) 1
      0 file-Resolves

pub tail_out : (krp_hook_tail root 0 (reconf one_entry)).0 ≡ some (pos 0, rax_eacces)
unfolding krp_hook_tail tail_body log_handler extract_path_from_dentry
tail_out = refl

is_write_acc_iff_example :
    (is_write_acc 513 ≡ true) ↔ (◌≡◌ {A = ℕ} (513 % 4) 1 ⊎ ◌≡◌ {A = ℕ} (513 % 4) 2)
is_write_acc_iff_example = is_write_acc_iff 513

-- O_RDONLY | O_TRUNC empties the file, and is no write access.
truncating_read : is_write_acc 512 ≡ false
unfolding is_write_acc
truncating_read = refl

add_file-WellFormed_example : WellFormed (add_file memory files one_entry file_path 0).0.1
add_file-WellFormed_example =
    add_file-WellFormed memory files one_entry file_path 0 memory_works paths_absolute
      one_entry-WellFormed

add_file-Added_example :
    Added files one_entry file_path (add_file memory files one_entry file_path 0).0
add_file-Added_example = add_file-Added memory files one_entry file_path 0

safety_checks-decision_example :
    (safety_checks root (reconf []).instance all_checks (some password) 0).0
    ≡ some (decision 0 (reconf []).instance (hash root) password)
safety_checks-decision_example =
    safety_checks-decision root (reconf []).instance password 0 memory_works crypto_works

checks_pass :
    (safety_checks root (reconf []).instance all_checks (some password) 0).0 ≡ some (pos 0)
unfolding safety_checks root_check reconf_check password_check match_password
    sanitize_user_input_alloc caught hashgen_str hexconv hex_digit is_reconf match_string
    strncmp_is_zero
checks_pass = refl

safety_checks_sound_example :
    (◌≡◌ {A = ℕ} 0 0)
    × (is_reconf (reconf []).instance ≡ true)
    × (password ≢ [])
    × (hash root password ≡ codes "04")
safety_checks_sound_example = safety_checks_sound root (reconf []).instance password 0 checks_pass
