-- ===== src/Misc/FileHash.antt =====
-- `hashgen_filecont` of misc/misc.c: the hash of a file's content, fed in as it is read.
-- Pointers that are used before they are set (the file that is closed at `tail_err`) are faults.
pub mod Ends
use refmon.Prelude.{
  ℕ, zero, suc, ◌+◌, ◌-◌, ◌<◌, ◌≤◌, Bool, true, false, not, ◌≡◌, ◌≢◌, ◌⊎◌, inl, inr, refl, sym, ap,
  ◌∙◌, Option, Option-cases, Bool-cases, none, some, List, [], ◌∷◌, ◌++◌, ℤ, pos, negsuc, is_zero,
  ◌==◌, if◌then◌else◌, arith, length, take, drop, take-append-drop, length-drop,
}
use mathlib.Core.List.{append_assoc, append-nil}
use refmon.CStr.{Str}
use refmon.Kernel.{Memory, Crypto, Alloc, pure, ◌>>=◌, call}
use refmon.Kernel.Documented.{MemoryWorks, CryptoWorks}
use refmon.Misc.{hexconv, alloc_hash_desc}

-- Reading files: what is behind a path when it is opened, and the value of one read of what is left
-- of a file, of up to a size; both are numbered calls.
pub record Files : Type 0 where
  pub filp_open : ℕ → Str → Option (List ℕ)
  pub kernel_read : ℕ → List ℕ → ℕ → ℤ

-- A read yields an error, or no more bytes than asked for or there are, and none only at the end.
pub record FilesRead (fl : Files) : Type 0 where
  pub within : (n r size : ℕ) (left : List ℕ) → fl.kernel_read n left size ≡ pos r → r ≤ length left
  pub asked : (n r size : ℕ) (left : List ℕ) → fl.kernel_read n left size ≡ pos r → r ≤ size
  pub at_end :
      (n size : ℕ) (left : List ℕ) → 0 < size → fl.kernel_read n left size ≡ pos 0 → left ≡ []

abbrev pub buf_size : ℕ
buf_size = 4096

-- How the loop ends: with all that was fed to the hash, with an error, or without fuel.
pub data LoopEnd : Type 0 where
  fed : List ℕ → LoopEnd
  broken out_of_fuel : LoopEnd

-- The loop, with what is left of the file and what was fed so far.
unfoldable pub feed : Crypto → Files → ℕ → List ℕ → List ℕ → Alloc LoopEnd
feed c fl zero left acc = pure out_of_fuel
feed c fl (suc fuel) left acc = do
  ret ← call (λ n. fl.kernel_read n left buf_size)
  elim ret [
    | negsuc e ↦ pure broken
    | pos n ↦ elim (n == 0) [
      | true ↦ pure (fed acc)
      | false ↦ do
        updated ← call c.crypto_shash_update
        elim (is_zero updated) [
          | true ↦ feed c fl fuel (drop n left) (acc ++ take n left)
          | false ↦ pure broken
        ]
    ]
  ]

-- The hash, NULL, a fault, or no end within the fuel.
pub data FileHash : Type 0 where
  hashed : Str → FileHash
  null fault endless : FileHash

-- What follows the loop.
unfoldable pub finish : Crypto → LoopEnd → Alloc FileHash
finish c out_of_fuel = pure endless
finish c broken = pure null
finish c (fed acc) = do
  ret ← call c.crypto_shash_final
  if not (is_zero ret) then pure null else pure (hashed (hexconv (c.sha256 acc)))

-- From the opening of the file on.
unfoldable pub hash_file : Crypto → Files → Str → Alloc FileHash
unfolding finish
hash_file c fl filepath = do
  file ← call (λ n. fl.filp_open n filepath)
  elim file [
    | none ↦ pure null
    | some content ↦ do end ← feed c fl (length content + 1) content []; finish c end
  ]

unfoldable pub hashgen_filecont : Memory → Crypto → Files → Str → Alloc FileHash
unfolding alloc_hash_desc
hashgen_filecont m c fl filepath = do
  out ← call m.kmalloc
  if not out then pure fault else do
    buft ← call m.kmalloc
    if not buft then pure fault else do
      desc ← alloc_hash_desc m c
      if not desc then pure fault else do
        ret ← call c.crypto_shash_init
        if not (is_zero ret) then pure null else hash_file c fl filepath
