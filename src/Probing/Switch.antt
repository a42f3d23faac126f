-- ===== src/Probing/Switch.antt =====
-- The probes are switched together.
use refmon.Prelude.{Bool, true, false, not, ◌≡◌, pos, arith}
use refmon.Kernel.{Kprobes}
use refmon.Kernel.Documented.{KprobesWork}
use refmon.Probing.{Probes, probing_off, probing_on, probing_update, initial_probes}

-- Every probe is as it was declared, but for its flag, which is set exactly if `on` is false.
abbrev pub ProbesAre : Bool → Probes → Type 0
ProbesAre on p =
    (p.krp_vfs_open ≡ record initial_probes.krp_vfs_open { disabled = not on })
    × (p.krp_filp_open ≡ record initial_probes.krp_filp_open { disabled = not on })
    × (p.krp_vfs_unlink ≡ record initial_probes.krp_vfs_unlink { disabled = not on })
    × (p.krp_vfs_mkdir ≡ record initial_probes.krp_vfs_mkdir { disabled = not on })
    × (p.krp_vfs_rmdir ≡ record initial_probes.krp_vfs_rmdir { disabled = not on })

-- `probing_update` returns 0 and leaves all five probes in the wanted state, whichever they were in.
pub probing_update-ProbesAre :
    (k : Kprobes) (wanted was : Bool) (p : Probes)
    → KprobesWork k
    → ProbesAre was p
    → ((probing_update k wanted p).0 ≡ pos 0) × ProbesAre wanted (probing_update k wanted p).1
unfolding probing_update probing_on probing_off
probing_update-ProbesAre k true was p w h = ground (
  arith,
  w.enable p.krp_vfs_open,
  w.enable p.krp_filp_open,
  w.enable p.krp_vfs_unlink,
  w.enable p.krp_vfs_mkdir,
  w.enable p.krp_vfs_rmdir,
)
probing_update-ProbesAre k false was p w h = ground (
  arith,
  w.disable p.krp_vfs_open,
  w.disable p.krp_filp_open,
  w.disable p.krp_vfs_unlink,
  w.disable p.krp_vfs_mkdir,
  w.disable p.krp_vfs_rmdir,
)
