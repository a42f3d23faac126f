-- ===== src/ProcIo/Reading.antt =====
-- Reading the /proc files from user space (io/procio.c): what one read yields, and that a second
-- one ends the file.
use refmon.Prelude.{ℕ, ◌≤◌, false, ◌≡◌, refl, ap, ◌∙◌, some, [], ◌∷◌, pos, arith, length}
use refmon.CStr.{Str, match_string, strncmp_is_zero}
use refmon.CStr.Match.{match_string_refl}
use refmon.Startup.{RegisteredSyscallCodes}
use refmon.World.{World, spin_instance_lock, spin_instance_unlock}
use refmon.ProcIo.{
  Printed, printed, page_size, proc_syscallcodes, proc_state, proc_registry, print_entries,
  print_registry, print_text, codes_text, state_text, print_proc, deliver, read_proc,
}
use refmon.ProcIo.Bounds.{lines, Shown, print_entries-Shown}

-- The caller gets the whole text, and then the end of the file.
abbrev pub Delivers : RegisteredSyscallCodes → (Str → ℕ) → Str → ℕ → World → Str → Type 0
Delivers c copy_to_user name count w out =
    (read_proc c copy_to_user name count 0 w
      ≡ (some (record { value = pos (length out); bytes = out; position = length out }), w))
    × (read_proc c copy_to_user name count (length out) w
        ≡ (some (record { value = pos 0; bytes = []; position = length out }), w))

module _ (c : RegisteredSyscallCodes) (copy_to_user : Str → ℕ) (count : ℕ) (w : World)
    (copies : (s : Str) → copy_to_user s ≡ 0) where
  deliver_first :
      (out : Str)
      → length out ≤ count
      → deliver copy_to_user count 0 (printed out)
        ≡ record { value = pos (length out); bytes = out; position = length out }
  unfolding deliver
  deliver_first out h = ground (arith, copies out)

  deliver_second :
      (out : Str)
      → length out ≤ count
      → deliver copy_to_user count (length out) (printed out)
        ≡ record { value = pos 0; bytes = []; position = length out }
  unfolding deliver
  deliver_second [] h = ground (arith, copies [])
  deliver_second (b ∷ out) h = ground arith

  print_registry_lem :
      w.instance.spinlock_inst ≡ false
      → print_registry w ≡ (some (print_entries w.instance.registry [] page_size), w)
  unfolding print_registry spin_instance_lock spin_instance_unlock
  print_registry_lem free = ground (arith, free)

  delivers :
      (name out : Str)
      → print_proc c name w ≡ (some (printed out), w)
      → length out ≤ count
      → Delivers c copy_to_user name count w out
  unfolding read_proc
  delivers name out e h =
      (ground (arith, e, deliver_first out h), ground (arith, e, deliver_second out h))

  registry_named :
      w.instance.spinlock_inst ≡ false
      → print_proc c proc_registry w ≡ (some (print_entries w.instance.registry [] page_size), w)
  unfolding print_proc
  registry_named free = rw (match_string_refl proc_registry) (print_registry_lem free)

  -- A reader of the registry's file with a buffer of a page gets whole lines, those of the first
  -- entries: of all, or of as many as fit a page with its NUL. The next read ends the file, and the
  -- module's state is what it was. This holds if the instance lock is free and the copy succeeds.
  pub read_proc-registry :
      w.instance.spinlock_inst ≡ false
      → page_size ≤ count
      → (s : Shown w.instance.registry page_size) × Delivers c copy_to_user proc_registry count w
          (lines s.first)
  read_proc-registry free room =
      let (s, run) = print_entries-Shown w.instance.registry [] page_size (omega arith) in
      (
        s,
        delivers proc_registry (lines s.first)
            (registry_named free ∙ ap (λ (t : Printed). (some t, w)) run) (omega arith),
      )

  -- A reader of the file of the system call codes with room for them gets the four codes, one to a
  -- line, and then the end of the file, if the copy succeeds.
  pub read_proc-codes :
      length (codes_text c) ≤ count
      → Delivers c copy_to_user proc_syscallcodes count w (codes_text c)
  unfolding print_proc print_text match_string strncmp_is_zero
  read_proc-codes room = delivers proc_syscallcodes (codes_text c) refl room

  -- Likewise the state.
  pub read_proc-state :
      length (state_text w.instance.state) ≤ count
      → Delivers c copy_to_user proc_state count w (state_text w.instance.state)
  unfolding print_proc print_text match_string strncmp_is_zero
  read_proc-state room = delivers proc_state (state_text w.instance.state) refl room
