-- ===== src/Probing.antt =====
-- probing/probing.c and the probes of probing/probing-handlers.c: the five kretprobes, and how they
-- are switched on and off together. The handlers themselves are in Hooks.antt.
pub mod Switch
use refmon.Prelude.{ℕ, Bool, true, false, ℤ, pos, if◌then◌else◌}
use refmon.Kernel.{Hook, krp_hook_open, krp_hook_rm, krp_hook_mkdir, Kretprobe, Kprobes}

abbrev pub probes_no : ℕ
probes_no = 15

pub record Probes : Type 0 where
  pub krp_vfs_open : Kretprobe
  pub krp_filp_open : Kretprobe
  pub krp_vfs_unlink : Kretprobe
  pub krp_vfs_mkdir : Kretprobe
  pub krp_vfs_rmdir : Kretprobe

-- The static initializers.
abbrev pub initial_probes : Probes
initial_probes = record {
  krp_vfs_open = record {
    symbol_name = "vfs_open";
    entry_handler = krp_hook_open;
    maxactive = probes_no;
    disabled = true;
  };
  krp_filp_open = record {
    symbol_name = "filp_open";
    entry_handler = krp_hook_open;
    maxactive = probes_no;
    disabled = true;
  };
  krp_vfs_unlink = record {
    symbol_name = "may_delete";
    entry_handler = krp_hook_rm;
    maxactive = probes_no;
    disabled = true;
  };
  krp_vfs_mkdir = record {
    symbol_name = "security_path_mkdir";
    entry_handler = krp_hook_mkdir;
    maxactive = probes_no;
    disabled = true;
  };
  krp_vfs_rmdir = record {
    symbol_name = "security_path_rmdir";
    entry_handler = krp_hook_mkdir;
    maxactive = probes_no;
    disabled = true;
  };
}

unfoldable pub probing_off : Kprobes → Probes → ℤ × Probes
probing_off k p = (
  pos 0,
  record {
    krp_vfs_open = k.disable_kretprobe p.krp_vfs_open;
    krp_filp_open = k.disable_kretprobe p.krp_filp_open;
    krp_vfs_unlink = k.disable_kretprobe p.krp_vfs_unlink;
    krp_vfs_mkdir = k.disable_kretprobe p.krp_vfs_mkdir;
    krp_vfs_rmdir = k.disable_kretprobe p.krp_vfs_rmdir;
  },
)

unfoldable pub probing_on : Kprobes → Probes → ℤ × Probes
probing_on k p = (
  pos 0,
  record {
    krp_vfs_open = k.enable_kretprobe p.krp_vfs_open;
    krp_filp_open = k.enable_kretprobe p.krp_filp_open;
    krp_vfs_unlink = k.enable_kretprobe p.krp_vfs_unlink;
    krp_vfs_mkdir = k.enable_kretprobe p.krp_vfs_mkdir;
    krp_vfs_rmdir = k.enable_kretprobe p.krp_vfs_rmdir;
  },
)

unfoldable pub probing_update : Kprobes → Bool → Probes → ℤ × Probes
probing_update k desired_probing_state p =
    if desired_probing_state then probing_on k p else probing_off k p
