-- ===== src/Readers/Undisturbed.antt =====
-- The loop of `search_entry` (misc/fsutils.c) when nothing comes between its turns: it ends, and it
-- finds what the search over the list finds.
use refmon.Prelude.{
  ℕ, zero, suc, ◌+◌, ◌<◌, false, ◌≡◌, refl, sym, ap, ◌∙◌, inl, inr, Option, none, some, List, [],
  ◌∷◌, ◌++◌, Bool-cases, Option-cases, if◌then◌else◌, arith, length, get_elem?,
}
use mathlib.Core.List.{append_assoc}
use mathlib.Core.Path.{subst}
use refmon.CStr.{match_string}
use refmon.Model.{Registry}
use refmon.FsUtils.{find_index, entry_matches, search_entry}
use refmon.Readers.{
  first, KernelList, Place, reading, found, not_found, crashed, Search, matches, read, reads,
}

-- The first of the nodes that matches.
abbrev pub verdict : Search → List ℕ → Place
verdict q [] = not_found
verdict q (n ∷ ns) = if matches q n then found n else verdict q ns

-- The registry that the nodes stand for.
abbrev pub entries : Search → List ℕ → Registry
entries q [] = []
entries q (n ∷ ns) = q.entry n ∷ entries q ns

module _ (l : KernelList) (q : Search) (s : l.Links) where
  reads-not_found : (n : ℕ) → reads l q n s not_found ≡ not_found
  unfolding reads read
  reads-not_found zero = refl
  reads-not_found (suc n) = reads-not_found n

  pub reads-found : (n k : ℕ) → reads l q n s (found k) ≡ found k
  unfolding reads read
  reads-found zero k = refl
  reads-found (suc n) k = reads-found n k

  -- From any node of the list, as many turns as there are nodes from there on and one more are
  -- enough.
  pub reads-verdict :
      (xs ys : List ℕ) (n : ℕ)
      → l.Holds s (xs ++ ys)
      → length ys < n
      → reads l q n s (reading (first ys)) ≡ verdict q ys
  unfolding reads read
  reads-verdict xs [] zero h lt = absurd (omega arith)
  reads-verdict xs [] (suc n) h lt = reads-not_found n
  reads-verdict xs (m ∷ ys) zero h lt = absurd (omega arith)
  reads-verdict xs (m ∷ ys) (suc n) h lt = elim (Bool-cases (matches q m)) [
    | inl hit ↦ ground (arith, reads-found n m)
    | inr miss ↦
        let on = l.Holds-next s xs ys m h in
        let h' = subst (l.Holds s) (sym (append_assoc xs (m ∷ []) ys)) h in
        let rest = reads-verdict (xs ++ m ∷ []) ys n h' (omega arith) in rw (miss, on) rest
  ]

-- What the search over the registry yields, as a place of the loop.
abbrev pub place_of : List ℕ → Option ℕ → Place
place_of ns none = not_found
place_of ns (some i) = elim (get_elem? ns i) [ none ↦ crashed | some n ↦ found n ]

verdict-find_index :
    (q : Search) (ns : List ℕ)
    → verdict q ns
      ≡ place_of ns
          (find_index (entry_matches q.files q.path q.ino_no q.search_criteria) (entries q ns))
unfolding find_index
verdict-find_index q [] = refl
verdict-find_index q (n ∷ ns) =
    let test = entry_matches q.files q.path q.ino_no q.search_criteria in
    elim (Bool-cases (matches q n)) [
      | inl hit ↦ rw hit refl
      | inr miss ↦ elim (Option-cases (find_index test (entries q ns))) [
        | inl nowhere ↦ rw (miss, nowhere) (verdict-find_index q ns ∙ ap (place_of ns) nowhere)
        | inr (i, there) ↦ rw (miss, there) (verdict-find_index q ns ∙ ap (place_of ns) there)
      ]
    ]

search_entry-find_index :
    (q : Search) (es : Registry)
    → match_string q.path [] ≡ false
    → search_entry q.files es (some q.path) q.ino_no q.search_criteria
      ≡ find_index (entry_matches q.files q.path q.ino_no q.search_criteria) es
unfolding search_entry find_index
search_entry-find_index q [] e = refl
search_entry-find_index q (x ∷ es) e = rw e refl

-- If nothing comes between, the loop over a list of `length ns` entries ends within one turn more, at
-- the entry that the search over the registry finds, or behind the end of the list if it finds none,
-- if the path is not empty.
pub reads-search_entry :
    (l : KernelList) (q : Search) (s : l.Links) (ns : List ℕ)
    → l.Holds s ns
    → match_string q.path [] ≡ false
    → reads l q (length ns + 1) s (reading (l.head_next s))
      ≡ place_of ns (search_entry q.files (entries q ns) (some q.path) q.ino_no q.search_criteria)
reads-search_entry l q s ns h e =
    ap (λ x. reads l q (length ns + 1) s (reading x)) (l.Holds-head_next s ns h)
    ∙ reads-verdict l q s [] ns (length ns + 1) h (omega arith)
    ∙ verdict-find_index q ns
    ∙ ap (place_of ns) (sym (search_entry-find_index q (entries q ns) e))
