-- ===== src/Hooks.antt =====
-- The handlers of probing/probing-handlers.c. An entry handler returns krp_to_tailhook if the call
-- that it probes is to fail, and krp_go_ahead if not; the handler at the return makes it fail.
-- `dentry` is what the register of the probed function's argument leads to; the two of an open may
-- lead nowhere (OpenRegs).
pub mod AccessMode
pub mod Verdict
pub mod Tail
use refmon.Prelude.{
  ℕ, ◌-◌, ◌+◌, ◌^◌, bit_and, bit_or, Bool, true, false, not, ◌&&◌, ◌||◌, Option, none, some, List,
  [], ◌∷◌, ◌++◌, ℤ, pos, is_neg, ◌==◌, if◌then◌else◌, neg_eacces, neg_enotrecoverable,
}
use refmon.CStr.{Str}
use refmon.Kernel.{Memory, FileSystem, Kernel, Alloc, pure, ◌>>=◌}
use refmon.Model.{PathIdentifier, Registry}
use refmon.FsUtils.{
  resolve_links, ignore_absolute_paths, no_ino_no, resolve_path_alloc, is_eligible,
  extract_ino_no_from_path, extract_path_from_dentry,
}
use refmon.LogIo.{LogDataset, log_handler}
use refmon.World
use refmon.World.{World}

abbrev pub krp_to_tailhook : ℕ
krp_to_tailhook = 0

abbrev pub krp_go_ahead : ℕ
krp_go_ahead = 1

-- asm-generic/fcntl.h
abbrev pub o_accmode : ℕ
o_accmode = 0o3

abbrev pub o_wronly : ℕ
o_wronly = 0o1

abbrev pub o_rdwr : ℕ
o_rdwr = 0o2

abbrev pub o_creat : ℕ
o_creat = 0o100

abbrev pub o_trunc : ℕ
o_trunc = 0o1000

abbrev pub o_append : ℕ
o_append = 0o2000

unfoldable pub get_accmods : ℕ → ℕ
get_accmods f_flags = bit_and f_flags o_accmode

unfoldable pub is_write_acc : ℕ → Bool
unfolding get_accmods
is_write_acc f_flags =
    let accmod = get_accmods f_flags in
    accmod == o_wronly
    || accmod == o_rdwr
    || accmod == o_creat
    || accmod == o_trunc
    || accmod == o_append

-- The path of the dentry, resolved: the beginning of all three entry handlers. `use_path` is what
-- follows; a path that is missing lets the call go ahead, and the outer `none` is a fault.
unfoldable pub with_absolute_path :
    Memory → FileSystem → ℕ → ℕ → (Str → Option ℕ) → Alloc (Option ℕ)
with_absolute_path m f dentry flags use_path = do
  extracted ← extract_path_from_dentry m f dentry
  elim extracted [
    | none ↦ pure none
    | some found ↦ elim found [
      | none ↦ pure (some krp_go_ahead)
      | some dentry_path ↦ do
        resolved ← resolve_path_alloc m f (some dentry_path) flags
        elim resolved [
          | none ↦ pure (some krp_go_ahead)
          | some absolute_path ↦ pure (use_path absolute_path)
        ]
    ]
  ]

-- What comes of following rdi as a `struct path` to its dentry, and rsi as a `struct file` to its
-- flags; `none` for a fault. At vfs_open these are what the registers hold. At filp_open, which the
-- same handler is registered for, rdi holds a file name and rsi the flags themselves, so that
-- following them gives whatever is there, or a fault.
pub record OpenRegs : Type 0 where
  pub path_dentry : Option ℕ
  pub f_flags : Option ℕ

-- The test of `krp_hook_open` behind the resolution of the path; the file is followed here first.
unfoldable pub open_test : FileSystem → Registry → Option ℕ → Str → Option ℕ
open_test f registry none absolute_path = none
open_test f registry (some f_flags) absolute_path =
    let id : PathIdentifier = record {
      path = absolute_path;
      ino_no = extract_ino_no_from_path f absolute_path;
    } in
    some
      (if is_write_acc f_flags && is_eligible f registry id then krp_to_tailhook else krp_go_ahead)

unfoldable pub krp_hook_open : Memory → FileSystem → Registry → OpenRegs → Alloc (Option ℕ)
krp_hook_open m f registry regs = elim regs.path_dentry [
  | none ↦ pure none
  | some dentry ↦ with_absolute_path m f dentry resolve_links (open_test f registry regs.f_flags)
]

unfoldable pub rm_test : FileSystem → Registry → Str → ℕ
rm_test f registry absolute_path =
    let absolute_ino = extract_ino_no_from_path f absolute_path in
    if absolute_ino == no_ino_no
    then krp_go_ahead
    else if is_eligible f registry (record { path = absolute_path; ino_no = absolute_ino })
    then krp_to_tailhook
    else krp_go_ahead

unfoldable pub krp_hook_rm : Memory → FileSystem → Registry → ℕ → Alloc (Option ℕ)
krp_hook_rm m f registry dentry =
    with_absolute_path m f dentry resolve_links (λ path. some (rm_test f registry path))

unfoldable pub mkdir_test : FileSystem → Registry → Str → ℕ
mkdir_test f registry absolute_path =
    if is_eligible f registry (record { path = absolute_path; ino_no = no_ino_no })
    then krp_to_tailhook
    else krp_go_ahead

unfoldable pub krp_hook_mkdir : Memory → FileSystem → Registry → ℕ → Alloc (Option ℕ)
krp_hook_mkdir m f registry dentry =
    with_absolute_path m f dentry (bit_or resolve_links ignore_absolute_paths)
      (λ path. some (mkdir_test f registry path))

-- -EACCES in the 64-bit register rax.
abbrev pub rax_eacces : ℕ
rax_eacces = 2 ^ 64 - 13

-- spin_lock_irqsave and spin_unlock_irqrestore on the lock of the probes.
unfoldable pub spin_probing_lock : World.Run (Unit {0})
spin_probing_lock w = elim w.instance.spinlock_probing [
  | true ↦ (none, w)
  | false ↦ (some tt, record w { instance = record w.instance { spinlock_probing = true } })
]

unfoldable pub spin_probing_unlock : World.Run (Unit {0})
spin_probing_unlock w =
    (some tt, record w { instance = record w.instance { spinlock_probing = false } })

-- `log_handler`, with its work put at the end of the queue.
unfoldable pub schedule_log : Kernel → World.Run ℤ
schedule_log k w = elim (log_handler k w.calls).0 [
  | none ↦ (none, record w { calls = (log_handler k w.calls).1 })
  | some (ret, work) ↦ elim work [
    | none ↦ (some ret, record w { calls = (log_handler k w.calls).1 })
    | some d ↦ (some ret, record w { calls = (log_handler k w.calls).1; work = w.work ++ (d ∷ []) })
  ]
]

-- What stands between the two uses of the lock, once the register is set.
unfoldable pub tail_body : Kernel → ℕ → World.Run ℤ
unfolding schedule_log
tail_body k ax =
    if not (ax == rax_eacces)
    then World.pure neg_enotrecoverable
    else World.◌>>=◌ (schedule_log k)
        (λ ret. if is_neg ret then World.pure ret else World.pure (pos 0))

-- The value returned and the register rax, whose value before is `ax`.
unfoldable pub krp_hook_tail : Kernel → ℕ → World.Run (ℤ × ℕ)
unfolding spin_probing_lock spin_probing_unlock
krp_hook_tail k ax = World.◌>>=◌ spin_probing_lock λ _.
    let ax' = k.regs_set_return_value ax neg_eacces in
    World.◌>>=◌ (tail_body k ax') λ ret. World.◌>>=◌ spin_probing_unlock λ _. World.pure (ret, ax')
