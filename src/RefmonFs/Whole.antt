-- ===== src/RefmonFs/Whole.antt =====
-- Reading the whole log file by one read after another (io/refmonfs/file.c), as a program does that
-- reads until nothing is left: a read yields what is left of one block only.
use refmon.Prelude.{
  ℕ, zero, suc, ◌+◌, ◌-◌, ◌/◌, ◌%◌, ◌^◌, ◌<◌, ◌≤◌, true, false, ◌≡◌, inl, inr, refl, sym, ap, ◌∙◌,
  Option, none, some, List, [], ◌∷◌, ◌++◌, pos, negsuc, ltb, leb, if◌then◌else◌, length, arith,
  Bool-cases,
}
use mathlib.Core.Option
use refmon.RefmonFs.{
  Device, LogFile, ReadResult, to_int, read_bytes, read_block, read_locked, onefilefs_read,
}

-- `read` is called with the same length again, until it returns 0; `none` is an error, or the end of
-- the fuel.
unfoldable pub read_file : Device → ℕ → ℕ → ℕ → LogFile → Option (List ℕ)
read_file dev zero len off f = none
read_file dev (suc fuel) len off f = elim (onefilefs_read dev off len f).0 [
  | none ↦ none
  | some r ↦ elim r.value [
    | negsuc e ↦ none
    | pos zero ↦ some []
    | pos (suc n) ↦
        Option.map (λ rest. r.bytes ++ rest)
          (read_file dev fuel len r.off (onefilefs_read dev off len f).1)
  ]
]

-- `n` bytes of the file from a place on.
abbrev pub content : (ℕ → ℕ → ℕ) → ℕ → ℕ → List ℕ
content b_data x zero = []
content b_data x (suc n) = b_data (x / 4096 + 2) (x % 4096) ∷ content b_data (x + 1) n

length-content : (b_data : ℕ → ℕ → ℕ) (x n : ℕ) → length (content b_data x n) ≡ n
length-content b_data x zero = refl
length-content b_data x (suc n) = omega (arith, length-content b_data (x + 1) n)

content-append :
    (b_data : ℕ → ℕ → ℕ) (x n m : ℕ)
    → content b_data x n ++ content b_data (x + n) m ≡ content b_data x (n + m)
content-append b_data x zero m =
    ap (λ y. content b_data y m) (omega arith) ∙ ap (content b_data x) (omega arith)
content-append b_data x (suc n) m =
    let shift : x + suc n ≡ x + 1 + n = omega arith in
    let size : suc n + m ≡ suc (n + m) = omega arith in
    rw (shift, size)
      (ap (λ r. b_data (x / 4096 + 2) (x % 4096) ∷ r) (content-append b_data (x + 1) n m))

-- Inside a block.
read_bytes-content :
    (b_data : ℕ → ℕ → ℕ) (x b p n : ℕ)
    → x / 4096 + 2 ≡ b
    → x % 4096 ≡ p
    → p + n ≤ 4096
    → read_bytes b_data b p n ≡ content b_data x n
unfolding read_bytes
read_bytes-content b_data x b p zero e h room = refl
read_bytes-content b_data x b p (suc zero) e h room = rw (e, h) refl
read_bytes-content b_data x b p (suc (suc n)) e h room =
    let rest =
      read_bytes-content b_data (x + 1) b (p + 1) (suc n) (omega arith) (omega arith)
        (omega arith) in
    rw (e, h) (ap (λ r. b_data b p ∷ r) rest)

-- How many bytes a read yields: what is asked for, what is left of the file, or of the block.
abbrev left : ℕ → ℕ → ℕ → ℕ
left size off len = if ltb size (off + len) then size - off else len

abbrev pub piece : ℕ → ℕ → ℕ → ℕ
piece size off len =
    if ltb 4096 (off % 4096 + left size off len) then 4096 - off % 4096 else left size off len

piece_bounds :
    (size off len : ℕ)
    → off < size
    → 0 < len
    → (0 < piece size off len)
      × (off + piece size off len ≤ size)
      × (off % 4096 + piece size off len ≤ 4096)
      × (piece size off len ≤ len)
piece_bounds size off len h k = ground arith

no_wrap : (x : ℕ) → x < 2 ^ 64 → x % 2 ^ 64 ≡ x
no_wrap x h = omega arith

left_small :
    (size off len : ℕ)
    → size < 2 ^ 43 - 8192
    → off + len < 2 ^ 64
    → off % 4096 + left size off len < 2 ^ 64
left_small size off len h k = ground arith

block_small : (x : ℕ) → x < 2 ^ 43 - 8192 → to_int (x / 4096 + 2) ≡ x / 4096 + 2
block_small x h = omega arith

minus_zero : (n : ℕ) → n - 0 ≡ n
minus_zero n = omega arith

not_at_end : (size off : ℕ) → off < size → leb size off ≡ false
not_at_end size off h = ground arith

at_end : (size off : ℕ) → size ≤ off → leb size off ≡ true
at_end size off h = ground arith

-- The device can be read, copies succeed, and the blocks have numbers that an `int` holds.
pub record Readable (dev : Device) (f : LogFile) : Type 0 where
  pub free : f.refmonfs_mutex ≡ false
  pub readable : (b : ℕ) → dev.sb_bread b ≡ true
  pub copies : (out : List ℕ) → dev.copy_to_user out ≡ 0
  pub small : f.i_size < 2 ^ 43 - 8192

abbrev result : LogFile → ℕ → ℕ → ReadResult
result f off n = record { value = pos n; bytes = content f.b_data off n; off = off + n }

module _ (dev : Device) (f : LogFile) (r : Readable dev f) (len off : ℕ) (some_len : 0 < len)
    (nowrap : off + len < 2 ^ 64) where
  read_locked-piece :
      (g : LogFile)
      → g.i_size ≡ f.i_size
      → g.b_data ≡ f.b_data
      → off < f.i_size
      → read_locked dev off len g ≡ (some (result f off (piece f.i_size off len)), g)
  unfolding read_locked read_block
  read_locked-piece g size same inside =
      let n = piece f.i_size off len in
      let (some_bytes, in_file, room, asked) = piece_bounds f.i_size off len inside some_len in
      rw
        (
          size,
          same,
          not_at_end f.i_size off inside,
          no_wrap (off + len) nowrap,
          no_wrap (off % 4096 + left f.i_size off len) (left_small f.i_size off len r.small nowrap),
          block_small off (omega (arith, r.small)),
          r.readable (off / 4096 + 2),
          r.copies (read_bytes f.b_data (off / 4096 + 2) (off % 4096) n),
          minus_zero n,
          read_bytes-content f.b_data off (off / 4096 + 2) (off % 4096) n refl refl room,
        )
        refl

  read_piece :
      off < f.i_size
      → onefilefs_read dev off len f ≡ (some (result f off (piece f.i_size off len)), f)
  unfolding onefilefs_read
  read_piece inside =
      ground
        (arith, r.free, read_locked-piece (record f { refmonfs_mutex = true }) refl refl inside)

  read_end :
      f.i_size ≤ off
      → (onefilefs_read dev off len f).0 ≡ some (record { value = pos 0; bytes = []; off = off })
  unfolding onefilefs_read read_locked
  read_end behind = ground (arith, r.free, at_end f.i_size off behind)

turn_end :
    (dev : Device) (fuel len off : ℕ) (f : LogFile)
    → (onefilefs_read dev off len f).0 ≡ some (record { value = pos 0; bytes = []; off = off })
    → read_file dev (suc fuel) len off f ≡ some []
unfolding read_file
turn_end dev fuel len off f e = ground (arith, e)

turn_piece :
    (dev : Device) (fuel len off n : ℕ) (f : LogFile)
    → onefilefs_read dev off len f ≡ (some (result f off (suc n)), f)
    → read_file dev (suc fuel) len off f
      ≡ Option.map
          (λ rest. content f.b_data off (suc n) ++ rest)
          (read_file dev fuel len (off + suc n) f)
unfolding read_file
turn_piece dev fuel len off n f e = ground (arith, e)

module _ (dev : Device) (f : LogFile) (r : Readable dev f) (len : ℕ) (some_len : 0 < len)
    (nowrap : f.i_size + len < 2 ^ 64) where
  -- A read that yields something, and the reads behind it.
  read_file_next :
      (fuel off n : ℕ)
      → off < f.i_size
      → (0 < n) × (off + n ≤ f.i_size) × (off % 4096 + n ≤ 4096) × (n ≤ len)
      → onefilefs_read dev off len f ≡ (some (result f off n), f)
      → (off + n ≤ f.i_size
          → read_file dev fuel len (off + n) f
            ≡ some (content f.b_data (off + n) (f.i_size - (off + n))))
      → read_file dev (suc fuel) len off f ≡ some (content f.b_data off (f.i_size - off))
  read_file_next fuel off zero inside (some_bytes, in_file, room, asked) read rest =
      absurd (omega arith)
  read_file_next fuel off (suc n) inside (some_bytes, in_file, room, asked) read rest =
      let all : suc n + (f.i_size - (off + suc n)) ≡ f.i_size - off = omega arith in
      turn_piece dev fuel len off n f read
      ∙ ap (Option.map (λ bytes. content f.b_data off (suc n) ++ bytes)) (rest in_file)
      ∙ ap some (content-append f.b_data off (suc n) (f.i_size - (off + suc n)))
      ∙ ap (λ m. some (content f.b_data off m)) all

  read_file_from :
      (fuel off : ℕ)
      → off ≤ f.i_size
      → f.i_size - off < fuel
      → read_file dev fuel len off f ≡ some (content f.b_data off (f.i_size - off))
  read_file_from zero off h enough = absurd (omega arith)
  read_file_from (suc fuel) off h enough = elim (Bool-cases (ltb off f.i_size)) [
    | inr behind ↦
        let none_left : f.i_size - off ≡ 0 = ground arith in
        turn_end dev fuel len off f (read_end dev f r len off some_len (omega arith) (ground arith))
        ∙ ap (λ n. some (content f.b_data off n)) (sym none_left)
    | inl inside ↦
        let bounds = piece_bounds f.i_size off len (ground arith) some_len in
        read_file_next fuel off (piece f.i_size off len) (ground arith) bounds
          (read_piece dev f r len off some_len (omega arith) (ground arith))
          (λ in_file.
            read_file_from fuel (off + piece f.i_size off len) in_file (omega (arith, bounds.0)))
  ]

  -- A program that reads the log file from its beginning, with any buffer, until a read returns 0,
  -- gets every byte of the file once and in order, and gets to the end in no more reads than the
  -- file has bytes and one. This holds if the device can be read, the copies to user memory succeed,
  -- the mutex is free, the size is below 2^43 - 8192, and the length of the buffer added to it
  -- fits a 64-bit number.
  pub read_file-content : read_file dev (f.i_size + 1) len 0 f ≡ some (content f.b_data 0 f.i_size)
  read_file-content =
      read_file_from (f.i_size + 1) 0 (omega arith) (omega arith)
      ∙ ap (λ n. some (content f.b_data 0 n)) (minus_zero f.i_size)
