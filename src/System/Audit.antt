-- ===== src/System/Audit.antt =====
-- From the refused call to the log: the handler at the return (probing/probing-handlers.c), the
-- queue of deferred work (io/logio.c) and the log file (io/refmonfs/file.c).
use refmon.Prelude.{ℕ, true, ◌≡◌}
use refmon.CStr.{Str}
use refmon.Kernel.{Kernel}
use refmon.LogIo.Defer.{LogHost, LogState}
use refmon.LogIo.Defer.Trail.{Logged}
use refmon.RefmonFs.{Device}
use refmon.World.{World}
use refmon.Hooks.{krp_hook_tail}

module _ (dev : Device) (out_size : ℕ) (h : LogHost) (hash : Str → Str) (opens : h.open_log ≡ true)
    (k : Kernel) (ax ax' : ℕ) (w : World) (s : LogState) where
  abbrev after : World
  after = (krp_hook_tail k ax w).1
