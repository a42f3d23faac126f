-- ===== src/Misc/FileHash/Ends.antt =====
-- That the loop over a file ends, and what the hash is taken of (misc/misc.c).
use refmon.Prelude.{
  ℕ, zero, suc, ◌+◌, ◌<◌, ◌≡◌, ◌≢◌, ◌⊎◌, inl, inr, refl, ap, ◌∙◌, Option-cases, Bool-cases, some,
  List, [], ◌++◌, ℤ, pos, negsuc, is_zero, ◌==◌, arith, length, take, drop, take-append-drop,
  length-drop,
}
use mathlib.Core.List.{append_assoc, append-nil}
use refmon.CStr.{Str}
use refmon.Kernel.{Memory, Crypto}
use refmon.Kernel.Documented.{MemoryWorks, CryptoWorks}
use refmon.Misc.{hexconv}
use refmon.Misc.FileHash.{
  Files, FilesRead, buf_size, fed, broken, feed, hashed, null, fault, finish, hash_file,
  hashgen_filecont,
}

abbrev Ended : Crypto → Files → ℕ → List ℕ → List ℕ → ℕ → Type 0
Ended c fl fuel left acc n =
    ((feed c fl fuel left acc n).0 ≡ broken) ⊎ ((feed c fl fuel left acc n).0 ≡ fed (acc ++ left))

regroup : (m : ℕ) (left acc : List ℕ) → (acc ++ take m left) ++ drop m left ≡ acc ++ left
regroup m left acc =
    append_assoc acc (take m left) (drop m left) ∙ ap (λ t. acc ++ t) (take-append-drop m left)

-- One turn of the loop, by what the read returns.
feed_turn :
    (c : Crypto) (fl : Files) (fuel : ℕ) (left acc : List ℕ) (n : ℕ) (ret : ℤ)
    → FilesRead fl
    → fl.kernel_read n left buf_size ≡ ret
    → ((m : ℕ)
        → ret ≡ pos (suc m)
        → Ended c fl fuel (drop (suc m) left) (acc ++ take (suc m) left) (n + 1 + 1))
    → Ended c fl (suc fuel) left acc n
unfolding feed
feed_turn c fl fuel left acc n (negsuc e) r read ih = inl (ground (arith, read))
feed_turn c fl fuel left acc n (pos zero) r read ih =
    let all = r.at_end n buf_size left (omega arith) read in
    inr (ground (arith, read, ap (λ t. acc ++ t) all, append-nil acc))
feed_turn c fl fuel left acc n (pos (suc m)) r read ih =
    elim (Bool-cases (is_zero (c.crypto_shash_update (n + 1)))) [
      | inr bad ↦ inl (ground (arith, read, bad))
      | inl good ↦ elim (ih m refl) [
        | inl breaks ↦ inl (ground (arith, read, good, breaks))
        | inr feeds ↦ inr (ground (arith, read, good, feeds, regroup (suc m) left acc))
      ]
    ]

-- With fuel for every byte that is left and one more, the loop ends, and if it does not break it
-- has fed the file from where it stood to its end.
feed_ends :
    (c : Crypto) (fl : Files) (fuel : ℕ) (left acc : List ℕ) (n : ℕ)
    → FilesRead fl
    → length left < fuel
    → Ended c fl fuel left acc n
feed_ends c fl zero left acc n r h = absurd (omega arith)
feed_ends c fl (suc fuel) left acc n r h =
    feed_turn c fl fuel left acc n (fl.kernel_read n left buf_size) r refl (λ m read.
      let some_bytes = r.within n (suc m) buf_size left read in
      feed_ends c fl fuel (drop (suc m) left) (acc ++ take (suc m) left) (n + 1 + 1) r
        (omega (arith, length-drop (suc m) left)))

-- The loop does not break if no read and no step of the hash fails.
feed_works :
    (c : Crypto) (fl : Files) (fuel : ℕ) (left acc : List ℕ) (n : ℕ)
    → CryptoWorks c
    → ((i size : ℕ) (rest : List ℕ) → (r : ℕ) × (fl.kernel_read i rest size ≡ pos r))
    → (feed c fl fuel left acc n).0 ≢ broken
unfolding feed
feed_works c fl zero left acc n cw reads = λ e. cc
feed_works c fl (suc fuel) left acc n cw reads =
    let (m, read) = reads n buf_size left in
    elim (Bool-cases (m == 0)) [
      | inl ends ↦ λ e. absurd (ground (arith, read, ends, e))
      | inr goes ↦ λ e.
          feed_works c fl fuel (drop m left) (acc ++ take m left) (n + 1 + 1) cw reads
            (ground (arith, read, goes, cw.update (n + 1), e))
    ]

module _ (m : Memory) (c : Crypto) (fl : Files) (filepath : Str) (n : ℕ) (r : FilesRead fl) where
  abbrev opened : ℕ
  opened = n + 1 + 1 + 1 + 1 + 1

  finished :
      (content : List ℕ) (k : ℕ)
      → Ended c fl (length content + 1) content [] k
      → let end = feed c fl (length content + 1) content [] k in
        ((finish c end.0 end.1).0 ≡ null)
        ⊎ ((finish c end.0 end.1).0 ≡ hashed (hexconv (c.sha256 content)))
  unfolding finish
  finished content k (inl breaks) = inl (rw breaks refl)
  finished content k (inr feeds) = ground (arith, feeds)

  hash_file_cases :
      (k : ℕ)
      → ((hash_file c fl filepath k).0 ≡ null)
        ⊎ ((content : List ℕ) × (fl.filp_open k filepath ≡ some content)
            × ((hash_file c fl filepath k).0 ≡ hashed (hexconv (c.sha256 content))))
  unfolding hash_file
  hash_file_cases k = elim (Option-cases (fl.filp_open k filepath)) [
    | inl missing ↦ inl (ground (arith, missing))
    | inr (content, found) ↦
        elim (finished content (k + 1)
          (feed_ends c fl (length content + 1) content [] (k + 1) r (omega arith))) [
            | inl fails ↦ inl (ground (arith, found, fails))
            | inr done ↦ inr (content, found, ground (arith, found, done))
          ]
  ]

  before_open :
      ((hashgen_filecont m c fl filepath n).0 ≡ fault)
      ⊎ ((hashgen_filecont m c fl filepath n).0 ≡ null)
      ⊎ ((hashgen_filecont m c fl filepath n).0 ≡ (hash_file c fl filepath opened).0)
  unfolding hashgen_filecont
  before_open = ground arith

  -- Whatever fails, `hashgen_filecont` ends: in a fault, with NULL, or with the hash of all that
  -- the file held when it was opened, however its reads were split, if reads do what they document.
  pub hashgen_filecont_cases :
      ((hashgen_filecont m c fl filepath n).0 ≡ fault)
      ⊎ ((hashgen_filecont m c fl filepath n).0 ≡ null)
      ⊎ ((content : List ℕ) × (fl.filp_open opened filepath ≡ some content)
          × ((hashgen_filecont m c fl filepath n).0 ≡ hashed (hexconv (c.sha256 content))))
  hashgen_filecont_cases = elim before_open [
    | inl faults ↦ inl faults
    | inr (inl fails) ↦ inr (inl fails)
    | inr (inr goes) ↦ elim (hash_file_cases opened) [
      | inl fails ↦ inr (inl (goes ∙ fails))
      | inr (content, found, done) ↦ inr (inr (content, found, goes ∙ done))
    ]
  ]

  -- If nothing fails, it is the hash.
  pub hashgen_filecont_works :
      (content : List ℕ)
      → MemoryWorks m
      → CryptoWorks c
      → ((i size : ℕ) (rest : List ℕ) → (x : ℕ) × (fl.kernel_read i rest size ≡ pos x))
      → fl.filp_open opened filepath ≡ some content
      → (hashgen_filecont m c fl filepath n).0 ≡ hashed (hexconv (c.sha256 content))
  unfolding hash_file finish hashgen_filecont
  hashgen_filecont_works content mw cw reads found =
      let k = opened + 1 in
      elim (feed_ends c fl (length content + 1) content [] k r (omega arith)) [
        | inl breaks ↦ absurd (feed_works c fl (length content + 1) content [] k cw reads breaks)
        | inr feeds ↦ ground (
          arith,
          mw.kmalloc n,
          mw.kmalloc (n + 1),
          cw.alloc (n + 1 + 1),
          mw.kmalloc (n + 1 + 1 + 1),
          cw.init (n + 1 + 1 + 1 + 1),
          found,
          feeds,
          cw.final (feed c fl (length content + 1) content [] k).1,
        )
      ]
