-- ===== src/RefmonFs/Listing.antt =====
-- Listing the directory of the log file system (io/refmonfs/dir.c).
use refmon.Prelude.{ℕ, zero, suc, ◌+◌, String, Bool, true, ◌≡◌, List, [], ◌∷◌, ◌++◌, arith, length}
use refmon.RefmonFs.{refmon_file_log, emit_at, onefilefs_iterate}

-- The names from a position on.
abbrev pub entries_from : ℕ → List String
entries_from zero = "." ∷ ".." ∷ refmon_file_log ∷ []
entries_from (suc zero) = ".." ∷ refmon_file_log ∷ []
entries_from (suc (suc zero)) = refmon_file_log ∷ []
entries_from (suc (suc (suc n))) = []

-- A listing that is cut off, at any entry, is taken up where it stopped: what was emitted before
-- and what a caller with room is given after are together the entries from the position on. The
-- position has moved on by the number of names.
pub onefilefs_iterate-resumes :
    (dir_emit : String → Bool) (position : ℕ)
    → let (names, stopped) = onefilefs_iterate dir_emit position in
      (names ++ (onefilefs_iterate (λ name. true) stopped).0 ≡ entries_from position)
      × (stopped ≡ position + length names)
unfolding onefilefs_iterate emit_at
onefilefs_iterate-resumes dir_emit zero = ground arith
onefilefs_iterate-resumes dir_emit (suc zero) = ground arith
onefilefs_iterate-resumes dir_emit (suc (suc zero)) = ground arith
onefilefs_iterate-resumes dir_emit (suc (suc (suc n))) = ground arith
