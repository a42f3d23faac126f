-- ===== src/LogIo.antt =====
-- io/logio.c: what is known of a task whose access was refused is handed to deferred work.
pub mod Defer
use refmon.Prelude.{ℕ, not, Option, none, some, ℤ, pos, if◌then◌else◌, neg_enomem, neg_einval}
use refmon.CStr.{Str}
use refmon.Kernel.{Kernel, Alloc, pure, ◌>>=◌, call}
use refmon.FsUtils.{extract_path_from_dentry}

pub record LogDataset : Type 0 where
  pub tgid : ℕ
  pub tid : ℕ
  pub uid : ℕ
  pub euid : ℕ
  pub prog_path : Str

-- The value returned, and the dataset of the work that was scheduled, if any.
unfoldable pub log_handler : Kernel → Alloc (Option (ℤ × Option LogDataset))
log_handler k = do
  log_dataset_inst ← call k.memory.kmalloc
  if not log_dataset_inst then pure (some (neg_enomem, none)) else do
    extracted ← extract_path_from_dentry k.memory k.files k.exe_file_dentry
    elim extracted [
      | none ↦ pure none
      | some p ↦ elim p [
        | none ↦ pure (some (neg_einval, none))
        | some path ↦ do
          prog_path ← call k.memory.kmalloc
          if not prog_path then pure (some (neg_enomem, none)) else do
            log_twork ← call k.memory.kmalloc
            if not log_twork
                then pure (some (neg_enomem, none))
                else pure (
                    some (
                      pos 0,
                      some (record {
                        tgid = k.task_tgid;
                        tid = k.task_pid;
                        uid = k.current_uid;
                        euid = k.current_euid;
                        prog_path = path;
                      }),
                    ))
      ]
    ]
