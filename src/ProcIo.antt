-- ===== src/ProcIo.antt =====
-- io/procio.c: what the three /proc files of the module print.
-- `snprintf` writes what fits and yields the length of the whole text. A file is a C string that
-- names it; `codes` are the codes of the system calls that init_syscalls has noted.
pub mod Bounds
pub mod Reading
use refmon.Prelude.{
  ℕ, ◌+◌, ◌-◌, Bool, true, false, not, ◌||◌, Option, none, some, [], ◌∷◌, ◌++◌, ℤ, pos, is_neg, ltb,
  leb, ◌==◌, if◌then◌else◌, neg_eio, neg_einval, neg_efault, length,
}
use refmon.CStr.{Str, codes, match_string}
use refmon.CStr.Decimal.{decimal, decimal_int}
use refmon.Model.{RefmonState, RegistryEntry, Registry, state_to_string}
use refmon.Startup.{RegisteredSyscallCodes, file_syscallcodes, file_state, file_registry}
use refmon.World.{Run, pure, ◌>>=◌, ◌>>◌, spin_instance_lock, spin_instance_unlock}

abbrev pub page_size : ℕ
page_size = 4096

abbrev pub proc_syscallcodes : Str
proc_syscallcodes = codes file_syscallcodes

abbrev pub proc_state : Str
proc_state = codes file_state

abbrev pub proc_registry : Str
proc_registry = codes file_registry

-- The value of `snprintf`; the text that it writes is the argument, if it fits.
abbrev pub snprintf : Str → ℤ
snprintf text = pos (length text)

-- "- %lu %s -> %lu %s\n"
unfoldable pub entry_line : RegistryEntry → Str
entry_line e =
    b'-'
    ∷ b' '
    ∷ (decimal e.registered.ino_no
        ++ b' '
          ∷ (e.registered.path
              ++ codes " -> "
              ++ decimal e.resolved.ino_no
              ++ b' ' ∷ (e.resolved.path ++ 10 ∷ [])))

-- What was printed, or the error that is returned.
pub data Printed : Type 0 where
  printed : Str → Printed
  failed : ℤ → Printed

-- The loop over the registry: `out` is what stands in the buffer, of which `decrement` bytes are
-- left. A line that does not fit ends the loop.
unfoldable pub print_entries : Registry → Str → ℕ → Printed
print_entries [] out decrement = printed out
print_entries (node ∷ rest) out decrement =
    let line = entry_line node in
    let more = print_entries rest (out ++ line) (decrement - length line) in
    if is_neg (snprintf line)
    then failed neg_eio
    else if leb decrement (length line)
    then printed out
    else more

unfoldable pub print_registry : Run Printed
unfolding spin_instance_lock spin_instance_unlock
print_registry = do
  spin_instance_lock
  out ← λ w. (some (print_entries w.instance.registry [] page_size), w)
  spin_instance_unlock
  pure out

-- `snprintf` into the whole buffer.
unfoldable pub print_text : Str → Printed
print_text text = if is_neg (snprintf text) then failed neg_eio else printed text

-- "%d\n%d\n%d\n%d\n"
unfoldable pub codes_text : RegisteredSyscallCodes → Str
codes_text c =
    decimal_int c.sc_code_set_state
    ++ 10
      ∷ (decimal_int c.sc_code_reconf_add
          ++ 10
            ∷ (decimal_int c.sc_code_reconf_rm ++ 10 ∷ (decimal_int c.sc_code_flush ++ 10 ∷ [])))

-- "%s\n"; the kernel prints NULL as "(null)".
unfoldable pub state_text : RefmonState → Str
state_text s = elim (state_to_string s) [
  | none ↦ codes "(null)" ++ 10 ∷ []
  | some text ↦ text ++ 10 ∷ []
]

-- The text of the file with this name.
unfoldable pub print_proc : RegisteredSyscallCodes → Str → Run Printed
unfolding print_text
print_proc c name =
    if match_string name proc_registry
    then print_registry
    else if match_string name proc_syscallcodes
    then pure (print_text (codes_text c))
    else if match_string name proc_state
    then (λ w. (some (print_text (state_text w.instance.state)), w))
    else pure (failed neg_einval)

-- What a read yields: its value, the bytes that the caller gets, and the new position.
pub record ProcRead : Type 0 where
  pub value : ℤ
  pub bytes : Str
  pub position : ℕ

-- What follows the printing. `copy_to_user` yields the number of bytes that it could not copy.
unfoldable pub deliver : (Str → ℕ) → ℕ → ℕ → Printed → ProcRead
deliver copy_to_user count position (failed err) = record {
  value = err;
  bytes = [];
  position = position;
}
deliver copy_to_user count position (printed out) =
    if ltb 0 position || ltb count (length out)
    then record { value = pos 0; bytes = []; position = position }
    else if not (copy_to_user out == 0)
    then record { value = neg_efault; bytes = []; position = position }
    else record { value = pos (length out); bytes = out; position = position + length out }

unfoldable pub read_proc : RegisteredSyscallCodes → (Str → ℕ) → Str → ℕ → ℕ → Run ProcRead
unfolding deliver
read_proc c copy_to_user name count position = do
  out ← print_proc c name
  pure (deliver copy_to_user count position out)
