-- ===== src/RefmonFs/Mkfs.antt =====
-- io/refmonfs/singlefilemakefs.c with the layouts of singlefilefs.h: the tool that writes the file
-- system of the log on a device. A file of the device is its bytes by their place. `write` of the C
-- library, a parameter, tells for a place and a number of bytes how many of them it writes.
use refmon.Prelude.{
  ℕ, zero, suc, ◌+◌, ◌-◌, ◌*◌, ◌/◌, ◌%◌, Bool, true, false, not, Option, none, some, List, [], ◌∷◌,
  ◌++◌, ℤ, pos, negsuc, leb, ◌==◌, if◌then◌else◌, length, get_elem?, take,
}
use refmon.CStr.{Str, codes}
use refmon.RefmonFs.{default_block_size, read_bytes}

abbrev pub magic_number : ℕ
magic_number = 1111638594

abbrev pub singlefilefs_file_inode_number : ℕ
singlefilefs_file_inode_number = 1

abbrev pub s_ifreg : ℕ
s_ifreg = 32768

-- A number in `width` bytes, the lowest first.
abbrev pub le_bytes : ℕ → ℕ → Str
le_bytes zero n = []
le_bytes (suc width) n = n % 256 ∷ le_bytes width (n / 256)

abbrev pub le_number : Str → ℕ
le_number [] = 0
le_number (c ∷ s) = c + 256 * le_number s

-- "tgid\ttid\t\tuid\t\teuid\tpath\t\t\tsha\n"
abbrev pub file_body : Str
file_body =
    codes "tgid"
    ++ 9 ∷ codes "tid"
    ++ 9 ∷ 9 ∷ codes "uid"
    ++ 9 ∷ 9 ∷ codes "euid"
    ++ 9 ∷ codes "path"
    ++ 9 ∷ 9 ∷ 9 ∷ codes "sha"
    ++ 10 ∷ []

-- The variables whose bytes are written without being set.
pub data Variable : Type 0 where
  sb_rest inode_mode_padding inode_data_block_number block_padding : Variable

-- The device can be opened, `write` (`none` is its -1), and what stands in a variable that is not
-- set.
pub record Mkfs : Type 0 where
  pub can_open : Bool
  pub write : ℕ → ℕ → Option ℕ
  pub unset : Variable → ℕ → ℕ

-- The bytes of the device, the place of the next write, and whether the device has been closed.
pub record Disk : Type 0 where
  pub data_at : ℕ → ℕ
  pub place : ℕ
  pub closed : Bool

abbrev pub unset_bytes : Mkfs → Variable → ℕ → Str
unset_bytes h v n = read_bytes (λ b i. h.unset v i) 0 0 n

-- struct onefilefs_sb_info: version, magic, block_size, and what is not set.
unfoldable pub sb_bytes : Mkfs → Str
sb_bytes h =
    le_bytes 8 1
    ++ (le_bytes 8 magic_number
        ++ (le_bytes 8 default_block_size ++ unset_bytes h sb_rest (default_block_size - 24)))

-- struct onefilefs_inode: mode, inode_no, data_block_number and file_size.
unfoldable pub inode_bytes : Mkfs → Str
inode_bytes h =
    le_bytes 4 s_ifreg
    ++ (unset_bytes h inode_mode_padding 4
        ++ (le_bytes 8 singlefilefs_file_inode_number
            ++ (unset_bytes h inode_data_block_number 8 ++ le_bytes 8 (length file_body))))

abbrev pub put : (ℕ → ℕ) → ℕ → Str → ℕ → ℕ
put data_at place bytes x =
    if leb place x
    then elim (get_elem? bytes (x - place)) [ none ↦ data_at x | some c ↦ c ]
    else data_at x

-- One call of `write`, with its value.
unfoldable pub write_out : Mkfs → Str → Disk → Option ℕ × Disk
write_out h bytes d = elim (h.write d.place (length bytes)) [
  | none ↦ (none, d)
  | some n ↦
      (some n, record d { data_at = put d.data_at d.place (take n bytes); place = d.place + n })
]

abbrev pub close : Disk → Disk
close d = record d { closed = true }

-- `ret != n`, negated.
abbrev pub is_number : Option ℕ → ℕ → Bool
is_number none n = false
is_number (some m) n = m == n

abbrev pub ssize : Option ℕ → ℤ
ssize none = negsuc 0
ssize (some n) = pos n

-- What follows a write: the next step, or the end with an error.
unfoldable pub then_write : Mkfs → Str → (Disk → ℤ × Disk) → (Option ℕ → ℤ) → Disk → ℤ × Disk
then_write h bytes next error d =
    let (ret, d') = write_out h bytes d in
    if not (is_number ret (length bytes)) then (error ret, close d') else next d'

-- From the opened device on; a failed `malloc` of the padding makes its write fail.
unfoldable pub write_all : Mkfs → Disk → ℤ × Disk
write_all h =
    then_write h (sb_bytes h)
      (then_write h (inode_bytes h)
        (then_write h (unset_bytes h block_padding (default_block_size - length (inode_bytes h)))
          (then_write h file_body (λ d. (pos 0, close d)) (λ r. negsuc 0)) (λ r. negsuc 0))
        (λ r. negsuc 0))
      ssize

unfoldable pub makefs : Mkfs → List Str → Disk → ℤ × Disk
makefs h argv d =
    if not (length argv == 2)
    then (negsuc 0, d)
    else if not h.can_open
    then (negsuc 0, d)
    else write_all h (record d { place = 0; closed = false })
