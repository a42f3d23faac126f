-- ===== src/Startup.antt =====
-- refmon.c, the registration code of syscalls/syscalls.c and probing/probing.c, and init_procfiles
-- of io/procio.c: how the module comes up and goes down.
-- Memory protection, which is lifted around each change of the system call table, is left out.
mod Shape
pub mod Outcome
pub mod Errors
pub mod Table
pub use Shape.*
use refmon.Prelude.{
  ℕ, Bool, true, false, not, Option, none, some, [], ◌∷◌, ℤ, pos, negsuc, is_zero, is_neg, ◌==◌,
  if◌then◌else◌, neg_einval, neg_enotrecoverable,
}
use refmon.Kernel.{Kretprobe}
use refmon.Model.{off, Registry}
use refmon.Misc.{default_password, hashgen_str}
use refmon.Probing.{initial_probes}

unfoldable pub init_password : Host → Boot ℤ
init_password h s =
    let (enc, n) = hashgen_str h.memory h.crypto default_password s.calls in
    elim enc [
      | none ↦ (none, record s { calls = n })
      | some out ↦ elim out [
        | none ↦ (some neg_enotrecoverable, record s { calls = n })
        | some hash ↦ (some (pos 0), record s { password = some hash; calls = n })
      ]
    ]

-- The head of an empty list points to itself both ways.
unfoldable pub check_list_init : Registry → Bool
check_list_init [] = true
check_list_init (node ∷ rest) = false

unfoldable pub init_instance : Boot ℤ
unfolding check_list_init
init_instance s =
    let s' = record s { state = off; registry = [] } in
    if not (check_list_init s'.registry) then (some neg_enotrecoverable, s') else (some (pos 0), s')

-- `proc_create` of one file; if it succeeds, what follows.
unfoldable pub create_procfile : Bool → (Present → Present) → Boot ℤ → Boot ℤ
create_procfile created mark next s =
    if not created then (some neg_einval, s) else next (record s { present = mark s.present })

unfoldable pub init_procfiles : Host → Boot ℤ
unfolding create_procfile
init_procfiles h =
    create_procfile (h.proc_create file_syscallcodes) (λ p. record p { syscallcodes = true })
      (create_procfile (h.proc_create file_state) (λ p. record p { state_file = true })
        (create_procfile (h.proc_create file_registry) (λ p. record p { list_file = true })
          (pure (pos 0))))

unfoldable pub flush_procfiles : Boot (Unit {0})
flush_procfiles s = (
  some tt,
  record s {
    present = record s.present { syscallcodes = false; state_file = false; list_file = false };
  },
)

-- `register_kretprobe` of one probe; a negative result goes to `tail`.
unfoldable pub register_probe : Host → Kretprobe → (Present → Present) → Boot ℤ → Boot ℤ
register_probe h probe mark next s =
    if is_neg (h.register_kretprobe probe)
    then (some (h.register_kretprobe probe), s)
    else next (record s { present = mark s.present })

unfoldable pub init_probes : Host → Boot ℤ
unfolding register_probe
init_probes h =
    register_probe h initial_probes.krp_vfs_open (λ p. record p { vfs_open = true })
      (register_probe h initial_probes.krp_filp_open (λ p. record p { filp_open = true })
        (register_probe h initial_probes.krp_vfs_unlink (λ p. record p { vfs_unlink = true })
          (register_probe h initial_probes.krp_vfs_mkdir (λ p. record p { vfs_mkdir = true })
            (register_probe h initial_probes.krp_vfs_rmdir (λ p. record p { vfs_rmdir = true })
              (pure (pos 0))))))

unfoldable pub flush_probes : Boot (Unit {0})
flush_probes s = (
  some tt,
  record s {
    present = record s.present {
      vfs_open = false;
      filp_open = false;
      vfs_unlink = false;
      vfs_mkdir = false;
      vfs_rmdir = false;
    };
  },
)

-- HACKED_ENTRIES
abbrev pub hacked_entries : ℕ
hacked_entries = 4

-- The loop over the four entries of `restore`, which writes the matching word to each.
unfoldable pub write_entries : (ℤ → ℕ) → Entries ℤ → Entries ℕ → ℤ → ℕ
write_entries table at value =
    store
      (store (store (store table at.entry_0 value.entry_0) at.entry_1 value.entry_1) at.entry_2
        value.entry_2)
      at.entry_3 value.entry_3

-- `get_entries` fills `restore` and `the_ni_syscall` only when it finds entries.
unfoldable pub init_syscalls : Host → Boot ℤ
init_syscalls h s =
    if h.the_syscall_table == 0
    then (some (negsuc 0), s)
    else elim (h.get_entries s.table hacked_entries) [
      | none ↦ (some (negsuc 0), s)
      | some (ret, found, ni_syscall) ↦
          let s' = record s { restore = found; the_ni_syscall = ni_syscall } in
          if not (ret == hacked_entries) then (some (negsuc 0), s') else (
            some (pos 0),
            record s' {
              table = write_entries s'.table s'.restore h.new_sys_call_array;
              syscall_codes = record {
                sc_code_set_state = s'.restore.entry_0;
                sc_code_reconf_add = s'.restore.entry_1;
                sc_code_reconf_rm = s'.restore.entry_2;
                sc_code_flush = s'.restore.entry_3;
              };
            },
          )
    ]

-- With no table the first write is to an address that is not mapped.
unfoldable pub flush_syscalls : Host → Boot (Unit {0})
flush_syscalls h s = elim (h.the_syscall_table == 0) [
  | true ↦ (none, s)
  | false ↦ (
    some tt,
    record s { table = write_entries s.table s.restore (same_entries s.the_ni_syscall) },
  )
]

unfoldable pub cleanup_module : Host → Boot (Unit {0})
unfolding flush_procfiles flush_syscalls flush_probes
cleanup_module h = do flush_procfiles; flush_syscalls h; flush_probes

-- What stands at `abort`.
unfoldable pub abort : Host → ℤ → Boot ℤ
abort h ret = do cleanup_module h; pure ret

-- One initialisation; on an error everything is cleaned up, else what follows.
unfoldable pub or_abort : Host → Boot ℤ → Boot ℤ → Boot ℤ
or_abort h init next = do ret ← init; if not (is_zero ret) then abort h ret else next

unfoldable pub init_module : Host → Boot ℤ
init_module h = or_abort h (init_password h) (
    or_abort h init_instance (
      or_abort h (init_procfiles h)
        (or_abort h (init_syscalls h) (or_abort h (init_probes h) (pure (pos 0))))))
