-- ===== src/Examples/Readers.antt =====
-- Searches without the lock, on a list of two entries: one for a directory, at address 1, and one
-- for a file, at address 2.
mod Order
use refmon.Prelude.{
  ℕ, ◌+◌, ◌≡◌, ◌≢◌, refl, true, false, inl, inr, some, [], ◌∷◌, ◌==◌, if◌then◌else◌, arith, length,
}
use refmon.CStr.{codes, match_string, strncmp_is_zero}
use refmon.Model.{RegistryEntry}
use refmon.FsUtils.{crit_absolute_path, entry_matches, search_entry}
use refmon.Readers.{
  Search, Place, reading, node, found, crashed, In, matches, read, reads, State, begin, Reach, here,
  later, Step, turn, add, del, without,
}
use refmon.Readers.Undisturbed.{place_of, entries, reads-search_entry}
use refmon.Readers.Verdict.{Reach-no_crash, Reach-finds}
use refmon.Readers.Interleaved.{AllCareful}
use refmon.Readers.Removed.{removed_crashes}
use refmon.Examples.{files, file_path, dir_entry}
use refmon.Examples.Readers.Order.{order_list, NoDup}

abbrev file_entry : RegistryEntry
file_entry = record {
  registered = record { path = file_path; ino_no = 105 };
  resolved = record { path = file_path; ino_no = 105 };
}

abbrev for_file : Search
for_file = record {
  files = files;
  path = file_path;
  ino_no = 105;
  search_criteria = crit_absolute_path;
  entry = λ n. if n == 2 then file_entry else dir_entry;
}

two_apart : NoDup (1 ∷ 2 ∷ [])
two_apart = (elim [ inl e ↦ omega arith | inr h ↦ h ], ((λ h. h), tt))

reads-search_entry_example :
    reads order_list for_file 3 (1 ∷ 2 ∷ []) (reading (node 1))
    ≡ place_of
        (1 ∷ 2 ∷ [])
        (search_entry files (entries for_file (1 ∷ 2 ∷ [])) (some file_path) 105 crit_absolute_path)
unfolding match_string strncmp_is_zero
reads-search_entry_example =
    reads-search_entry order_list for_file (1 ∷ 2 ∷ []) (1 ∷ 2 ∷ []) (refl, two_apart) refl

abbrev start : State order_list for_file
start = begin order_list for_file (1 ∷ 2 ∷ []) (1 ∷ 2 ∷ [])

three_new : In 3 (1 ∷ 2 ∷ []) → ⊥
three_new (inl e) = omega arith
three_new (inr (inl e)) = omega arith
three_new (inr (inr h)) = h

abbrev behind_first : Place
behind_first = read order_list for_file (1 ∷ 2 ∷ 3 ∷ []) (reading (node 1))

behind_first_lem : behind_first ≡ reading (node 2)
unfolding read entry_matches match_string strncmp_is_zero
behind_first_lem = refl

not_at_first : behind_first ≢ reading (node 1)
not_at_first e = let at : reading (node 2) ≡ reading (node 1) = rw behind_first_lem at e in cc

file_fits : matches for_file 2 ≡ true
unfolding entry_matches match_string strncmp_is_zero
file_fits = refl

-- An entry is added, the search takes a turn, and the entry that it has passed is removed.
abbrev after_removal : State order_list for_file
after_removal = record { links = 2 ∷ 3 ∷ []; nodes = 2 ∷ 3 ∷ []; place = behind_first }

abbrev busy : Reach order_list for_file start after_removal
busy = later (later (later here (add 3 three_new)) turn) (del 1 (inl refl))

Reach-no_crash_example : read order_list for_file (2 ∷ 3 ∷ []) behind_first ≢ crashed
Reach-no_crash_example =
    Reach-no_crash order_list for_file (1 ∷ 2 ∷ []) (1 ∷ 2 ∷ []) (refl, two_apart) busy
      (((tt, tt), tt), (not_at_first, λ w. w))

Reach-finds_example :
    (k : ℕ) × (reads order_list for_file 3 (2 ∷ 3 ∷ []) behind_first ≡ found k)
    × (matches for_file k ≡ true)
Reach-finds_example =
    Reach-finds order_list for_file (1 ∷ 2 ∷ []) (1 ∷ 2 ∷ []) (refl, two_apart) 2 busy
      (inr (inl refl)) file_fits (((tt, tt), tt), (not_at_first, λ e. omega arith))

dir_differs : matches for_file 1 ≡ false
unfolding entry_matches match_string strncmp_is_zero
dir_differs = refl

-- The entry at which the search begins is removed, and another one is added.
removed_crashes_example : reads order_list for_file 2 (2 ∷ 3 ∷ []) (reading (node 1)) ≡ crashed
removed_crashes_example =
    removed_crashes order_list for_file 1 dir_differs start (refl, two_apart) (inl refl) refl
      (later here (add 3 (elim [ inl e ↦ omega arith | inr h ↦ h ]))) (tt, λ e. omega arith)
