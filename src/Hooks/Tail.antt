-- ===== src/Hooks/Tail.antt =====
-- What a refused call gets back, and what is logged.
use refmon.Prelude.{
  ℕ, ◌+◌, ◌≡◌, ◌⊎◌, inl, inr, true, none, some, [], ◌∷◌, ◌++◌, ℤ, pos, is_neg, arith, neg_eacces,
  Option-cases, neg_enomem, neg_einval,
}
use refmon.CStr.{Str}
use refmon.Kernel.{Kernel}
use refmon.FsUtils.{extract_path_from_dentry, path_max}
use refmon.LogIo.{LogDataset, log_handler}
use refmon.World.{World}
use refmon.Hooks.{rax_eacces, krp_hook_tail, tail_body}

-- The dataset of the calling task, whose program has this path.
abbrev pub dataset : Kernel → Str → LogDataset
dataset k path = record {
  tgid = k.task_tgid;
  tid = k.task_pid;
  uid = k.current_uid;
  euid = k.current_euid;
  prog_path = path;
}

-- Where the program has no path, nothing is scheduled.
log_handler-none :
    (k : Kernel) (n : ℕ)
    → k.files.dentry_path_raw k.exe_file_dentry path_max ≡ none
    → ((log_handler k n).0 ≡ none)
      ⊎ ((log_handler k n).0 ≡ some (neg_enomem, none))
      ⊎ ((log_handler k n).0 ≡ some (neg_einval, none))
unfolding log_handler extract_path_from_dentry
log_handler-none k n e = ground arith

-- Where the freed buffer of the path cannot be read, the handler does not return.
log_handler-unreadable :
    (k : Kernel) (n : ℕ) (printed : Str)
    → k.files.dentry_path_raw k.exe_file_dentry path_max ≡ some printed
    → k.memory.read_freed (n + 1 + 1) printed ≡ none
    → ((log_handler k n).0 ≡ none)
      ⊎ ((log_handler k n).0 ≡ some (neg_enomem, none))
      ⊎ ((log_handler k n).0 ≡ some (neg_einval, none))
unfolding log_handler extract_path_from_dentry
log_handler-unreadable k n printed e gone = ground (arith, e, gone)

-- Otherwise the handler fails with an error and schedules nothing, or returns 0 and schedules the
-- dataset of the calling task, with the path that is read from the freed buffer.
log_handler-some :
    (k : Kernel) (n : ℕ) (printed path : Str)
    → k.files.dentry_path_raw k.exe_file_dentry path_max ≡ some printed
    → k.memory.read_freed (n + 1 + 1) printed ≡ some path
    → ((log_handler k n).0 ≡ some (neg_enomem, none))
      ⊎ ((log_handler k n).0 ≡ some (neg_einval, none))
      ⊎ ((log_handler k n).0 ≡ some (pos 0, some (dataset k path)))
unfolding log_handler extract_path_from_dentry
log_handler-some k n printed path e there = ground (arith, e, there)

-- Where `regs_set_return_value` stores the value and the handler returns: the instance is as before, and
-- either an error is returned and the queue of deferred work is as before, or 0 is returned and the
-- queue has grown by the dataset of the task, with the path of its program as it is read from the
-- buffer after it was freed.
pub krp_hook_tail_eacces :
    (k : Kernel) (ax : ℕ) (w : World) (ret : ℤ) (ax' : ℕ)
    → k.regs_set_return_value ax neg_eacces ≡ rax_eacces
    → (krp_hook_tail k ax w).0 ≡ some (ret, ax')
    → (ax' ≡ rax_eacces)
      × ((krp_hook_tail k ax w).1.instance ≡ w.instance)
      × (((is_neg ret ≡ true) × ((krp_hook_tail k ax w).1.work ≡ w.work))
          ⊎ ((printed : Str) × (path : Str) × (ret ≡ pos 0)
              × (k.files.dentry_path_raw k.exe_file_dentry path_max ≡ some printed)
              × (k.memory.read_freed (w.calls + 1 + 1) printed ≡ some path)
              × ((krp_hook_tail k ax w).1.work ≡ w.work ++ dataset k path ∷ [])))
unfolding krp_hook_tail tail_body
krp_hook_tail_eacces k ax w ret ax' regs h =
    elim (Option-cases (k.files.dentry_path_raw k.exe_file_dentry path_max)) [
      | inl e ↦
          let log = log_handler-none k w.calls e in
          (ground arith, ground arith, inl (ground arith, ground arith))
      | inr (printed, e) ↦ elim (Option-cases (k.memory.read_freed (w.calls + 1 + 1) printed)) [
        | inl gone ↦
            let log = log_handler-unreadable k w.calls printed e gone in
            (ground arith, ground arith, inl (ground arith, ground arith))
        | inr (path, there) ↦ elim (log_handler-some k w.calls printed path e there) [
          | inl x ↦ (ground arith, ground arith, inl (ground arith, ground arith))
          | inr y ↦ elim y [
            | inl x ↦ (ground arith, ground arith, inl (ground arith, ground arith))
            | inr x ↦ (
              ground arith,
              ground arith,
              inr (printed, path, ground arith, e, there, ground arith),
            )
          ]
        ]
      ]
    ]
