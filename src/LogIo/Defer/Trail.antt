-- ===== src/LogIo/Defer/Trail.antt =====
-- The log as a trail: all the deferred work of a queue (io/logio.c), one after the other.
use refmon.Prelude.{
  ℕ, ◌+◌, ◌*◌, ◌<◌, ◌≤◌, true, false, ◌≡◌, Option, some, none, List, [], ◌∷◌, get_elem?, length,
}
use refmon.CStr.{Str}
use refmon.LogIo.{LogDataset}
use refmon.LogIo.Defer.{LogHost, LogState, log_line, defer}
use refmon.LogIo.Defer.Logged.{on_refmonfs}
use refmon.Misc.FileHash.{hashed, hashgen_filecont}
use refmon.RefmonFs.{Device, LogFile}
use refmon.RefmonFs.Append.{byte_at}

-- The work in the order in which it gets the lock of the logger.
unfoldable pub run_work : LogHost → List LogDataset → LogState → Option (Unit {0}) × LogState
run_work h [] s = (some tt, s)
run_work h (d ∷ ds) s = elim (defer h d s).0 [
  | none ↦ (none, (defer h d s).1)
  | some done ↦ run_work h ds (defer h d s).1
]

-- The file has these bytes at this place.
abbrev pub Holds : LogFile → ℕ → Str → Type 0
Holds f place bytes =
    (place + length bytes ≤ f.i_size)
    × ((k c : ℕ) → get_elem? bytes k ≡ some c → byte_at f (place + k) ≡ c)

-- All that one file holds, another one holds at the same places.
abbrev pub Keeps : LogFile → LogFile → Type 0
Keeps f g = (f.i_size ≤ g.i_size) × ((x : ℕ) → x < f.i_size → byte_at g x ≡ byte_at f x)

-- From a place on the file has these lines, in this order, and none over another.
abbrev pub Trail : LogFile → ℕ → List Str → Type 0
Trail f start [] = Unit
Trail f start (line ∷ lines) =
    (place : ℕ) × (start ≤ place) × Holds f place line × Trail f (place + length line) lines

-- The lines of the work, by the hashes of the programs' files.
abbrev pub log_lines : (Str → Str) → List LogDataset → List Str
log_lines hash [] = []
log_lines hash (d ∷ ds) = log_line d (hash d.prog_path) ∷ log_lines hash ds

-- What the work leaves, seen from the state before it; `left` is what each write leaves open.
abbrev pub Logged : ℕ → List Str → Option (Unit {0}) × LogState → LogState → Type 0
Logged left lines (ret, s') s =
    (ret ≡ some tt)
    × (s'.spin ≡ false)
    × (s'.open_files ≡ s.open_files + left * length lines)
    × Keeps s.log_file s'.log_file
    × Trail s'.log_file s.log_file.i_size lines

-- The program's file has this hash, whenever it is taken.
abbrev pub HashIs : LogHost → (Str → Str) → LogDataset → Type 0
HashIs h hash d =
    (n : ℕ)
    → (hashgen_filecont h.memory h.crypto h.files d.prog_path n).0 ≡ hashed (hash d.prog_path)

module _ (dev : Device) (out_size : ℕ) (h : LogHost) (hash : Str → Str)
    (opens : h.open_log ≡ true) where
  abbrev host : LogHost
  host = on_refmonfs dev out_size h
