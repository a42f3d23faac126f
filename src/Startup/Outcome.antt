-- ===== src/Startup/Outcome.antt =====
-- What init_module leaves, on success and on errors (refmon.c).
use refmon.Prelude.{ℕ, true, false, ◌≡◌, refl, ◌∙◌, some, [], ℤ, pos, is_neg, is_zero, ◌==◌, arith}
use refmon.Kernel.{Kretprobe}
use refmon.Kernel.Documented.{MemoryWorks, CryptoWorks}
use refmon.Model.{off}
use refmon.Probing.{initial_probes}
use refmon.Misc.{default_password, hexconv, hashgen_str}
use refmon.Misc.Hash.{hashgen_str_works}
use refmon.Startup.{
  Host, Boot, Loaded, Entries, Present, nothing_present, unloaded, file_syscallcodes, file_state,
  file_registry, init_password, init_instance, check_list_init, init_procfiles, create_procfile,
  init_syscalls, init_probes, register_probe, hacked_entries, write_entries, abort, or_abort,
  init_module,
}

-- The kernel grants every request of the module.
pub record HostWorks (h : Host) : Type 0 where
  pub memory : MemoryWorks h.memory
  pub crypto : CryptoWorks h.crypto
  pub proc_create : (name : _) → h.proc_create name ≡ true
  pub register_kretprobe : (p : Kretprobe) → is_neg (h.register_kretprobe p) ≡ false
  pub has_table : (h.the_syscall_table == 0) ≡ false

abbrev pub all_present : Present
all_present = record {
  syscallcodes = true;
  state_file = true;
  list_file = true;
  vfs_open = true;
  filp_open = true;
  vfs_unlink = true;
  vfs_mkdir = true;
  vfs_rmdir = true;
}

-- The module with the entries that were found for its system calls.
abbrev pub installed : Host → (ℤ → ℕ) → Entries ℤ → ℕ → ℕ → Loaded
installed h table e ni calls = record {
  password = some (hexconv (h.crypto.sha256 default_password));
  state = off;
  registry = [];
  restore = e;
  the_ni_syscall = ni;
  syscall_codes = record {
    sc_code_set_state = e.entry_0;
    sc_code_reconf_add = e.entry_1;
    sc_code_reconf_rm = e.entry_2;
    sc_code_flush = e.entry_3;
  };
  present = all_present;
  table = write_entries table e h.new_sys_call_array;
  calls = calls;
}

pub password_set :
    (h : Host) (s : Loaded)
    → MemoryWorks h.memory
    → CryptoWorks h.crypto
    → (n : ℕ) × (init_password h s ≡ (
      some (pos 0),
      record s { password = some (hexconv (h.crypto.sha256 default_password)); calls = n },
    ))
unfolding init_password
password_set h s mw cw = (
  (hashgen_str h.memory h.crypto default_password s.calls).1,
  ground (arith, hashgen_str_works h.memory h.crypto default_password s.calls mw cw),
)

probes_set :
    (h : Host) (s : Loaded)
    → HostWorks h
    → s.present
      ≡ record nothing_present { syscallcodes = true; state_file = true; list_file = true }
    → init_probes h s ≡ (some (pos 0), record s { present = all_present })
unfolding init_probes register_probe
probes_set h s w p = ground (
  arith,
  p,
  w.register_kretprobe initial_probes.krp_vfs_open,
  w.register_kretprobe initial_probes.krp_filp_open,
  w.register_kretprobe initial_probes.krp_vfs_unlink,
  w.register_kretprobe initial_probes.krp_vfs_mkdir,
  w.register_kretprobe initial_probes.krp_vfs_rmdir,
)

-- The probes, from the state that the three steps before them leave.
probes_from :
    (h : Host) (s : Loaded)
    → HostWorks h
    → init_probes h (record s {
      present = record nothing_present { syscallcodes = true; state_file = true; list_file = true };
    })
      ≡ (some (pos 0), record s { present = all_present })
probes_from h s w = probes_set h _ w refl

pub or_abort_ok :
    (h : Host) (init next : Boot ℤ) (s u : Loaded)
    → init s ≡ (some (pos 0), u)
    → or_abort h init next s ≡ next u
unfolding or_abort
or_abort_ok h init next s u e = ground (arith, e)

-- An error goes through cleanup_module.
pub or_abort_error :
    (h : Host) (init next : Boot ℤ) (s u : Loaded) (ret : ℤ)
    → init s ≡ (some ret, u)
    → is_zero ret ≡ false
    → or_abort h init next s ≡ abort h ret u
unfolding or_abort
or_abort_error h init next s u ret e z = ground (arith, e, z)

procfiles_set :
    (h : Host) (s : Loaded)
    → HostWorks h
    → s.present ≡ nothing_present
    → init_procfiles h s ≡ (
      some (pos 0),
      record s {
        present = record nothing_present {
          syscallcodes = true;
          state_file = true;
          list_file = true;
        };
      },
    )
unfolding init_procfiles create_procfile
procfiles_set h s w p = ground (
  arith,
  p,
  w.proc_create file_syscallcodes,
  w.proc_create file_state,
  w.proc_create file_registry,
)

syscalls_set :
    (h : Host) (s : Loaded) (e : Entries ℤ) (ni : ℕ)
    → HostWorks h
    → h.get_entries s.table hacked_entries ≡ some (4, e, ni)
    → init_syscalls h s ≡ (
      some (pos 0),
      record s {
        restore = e;
        the_ni_syscall = ni;
        table = write_entries s.table e h.new_sys_call_array;
        syscall_codes = record {
          sc_code_set_state = e.entry_0;
          sc_code_reconf_add = e.entry_1;
          sc_code_reconf_rm = e.entry_2;
          sc_code_flush = e.entry_3;
        };
      },
    )
unfolding init_syscalls
syscalls_set h s e ni w found = ground (arith, found, w.has_table)

pub instance_set :
    (s : Loaded) → init_instance s ≡ (some (pos 0), record s { state = off; registry = [] })
unfolding init_instance check_list_init
instance_set s = refl

-- If the kernel grants every request and the table has four free entries, the initialisation
-- returns 0 and leaves the module off, with an empty registry, the hash of the default password,
-- the four system calls at the entries that were found, and all files and probes in place.
pub init_module-installed :
    (h : Host) (table : ℤ → ℕ) (e : Entries ℤ) (ni : ℕ)
    → HostWorks h
    → h.get_entries table hacked_entries ≡ some (4, e, ni)
    → (calls : ℕ) × (init_module h (unloaded table) ≡ (some (pos 0), installed h table e ni calls))
unfolding init_module
init_module-installed h table e ni w found =
    let (n, set) = password_set h (unloaded table) w.memory w.crypto in
    (
      n,
      or_abort_ok h (init_password h) _ (unloaded table) _ set
          ∙ or_abort_ok h init_instance _ _ _ (instance_set _)
          ∙ or_abort_ok h (init_procfiles h) _ _ _ (procfiles_set h _ w refl)
          ∙ or_abort_ok h (init_syscalls h) _ _ _ (syscalls_set h _ e ni w found)
          ∙ or_abort_ok h (init_probes h) _ _ _ (probes_set h _ w refl),
    )
