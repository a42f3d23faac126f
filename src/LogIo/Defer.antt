-- ===== src/LogIo/Defer.antt =====
-- `defer` of io/logio.c: the deferred work that writes a refused operation to the log file.
-- The write goes to the file system of the log by `kernel_write`, a parameter. Opened files that
-- are not closed are counted.
pub mod Logged
pub mod Trail
use refmon.Prelude.{
  ℕ, ◌+◌, ◌-◌, Bool, true, false, not, Option, none, some, [], ◌∷◌, ◌++◌, ℤ, is_neg, if◌then◌else◌,
  take,
}
use refmon.CStr.{Str}
use refmon.CStr.Decimal.{decimal}
use refmon.Kernel.{Memory, Crypto}
use refmon.LogIo.{LogDataset}
use refmon.Misc.FileHash.{Files, hashed, null, fault, endless, hashgen_filecont}
use refmon.RefmonFs.{LogFile}

abbrev pub refmon_loglen : ℕ
refmon_loglen = 516

-- The kernel: memory and hash, the files of programs, whether the log file can be opened at all, and
-- the write to it, whose `none` is a fault.
pub record LogHost : Type 0 where
  pub memory : Memory
  pub crypto : Crypto
  pub files : Files
  pub open_log : Bool
  pub kernel_write : Str → LogFile → Option ℤ × LogFile

-- The lock of io/logio.c, the log file, the files left open, and the count of the kernel's calls.
pub record LogState : Type 0 where
  pub spin : Bool
  pub log_file : LogFile
  pub open_files : ℕ
  pub calls : ℕ

-- "%d\t%d\t%u\t%u\t%s\t%s\n"
unfoldable pub log_text : LogDataset → Str → Str
log_text d hash =
    decimal d.tgid
    ++ 9
      ∷ (decimal d.tid
          ++ 9
            ∷ (decimal d.uid ++ 9 ∷ (decimal d.euid ++ 9 ∷ (d.prog_path ++ 9 ∷ (hash ++ 10 ∷ [])))))

-- `snprintf` into a buffer of REFMON_LOGLEN bytes.
unfoldable pub log_line : LogDataset → Str → Str
log_line d hash = take (refmon_loglen - 1) (log_text d hash)

-- From the opening of the log file to `tail`; a failed write leaves the file open.
unfoldable pub write_line : LogHost → Str → LogState → Option (Unit {0}) × LogState
write_line h line s =
    if not h.open_log
    then (some tt, record s { spin = false })
    else (let (outb, log) = h.kernel_write line s.log_file in
        elim outb [
          | none ↦ (none, record s { log_file = log })
          | some n ↦ (
            some tt,
            record s {
              spin = false;
              log_file = log;
              open_files = if is_neg n then s.open_files + 1 else s.open_files;
            },
          )
        ])

-- `none`: a fault, or a wait for the lock that does not end.
unfoldable pub defer : LogHost → LogDataset → LogState → Option (Unit {0}) × LogState
unfolding write_line
defer h d s = elim s.spin [
  | true ↦ (none, s)
  | false ↦
      let (hash, n) = hashgen_filecont h.memory h.crypto h.files d.prog_path s.calls in
      let locked = record s { spin = true; calls = n } in
      elim hash [
        | fault ↦ (none, locked)
        | endless ↦ (none, locked)
        | null ↦ (some tt, record locked { spin = false })
        | hashed text ↦ write_line h (log_line d text) locked
      ]
]
