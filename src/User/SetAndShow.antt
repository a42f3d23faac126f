-- ===== src/User/SetAndShow.antt =====
-- The state from the command line of the tool (user/user.c) through the module and its /proc file
-- (io/procio.c) back to the terminal.
use refmon.Prelude.{
  ◌≤◌, ◌++◌, true, false, ◌≡◌, refl, ap, sym, ◌∙◌, some, [], if◌then◌else◌, ◌∷◌, ℕ, pos, is_neg,
  length, arith,
}
use mathlib.Core.Path.{subst}
use refmon.CStr.{Str, codes, strcmp_is_zero}
use refmon.Kernel.{Kernel}
use refmon.Model.{
  RefmonState, off, on, rec_off, rec_on, einval, string_to_state, state_to_string, is_state_valid,
}
use refmon.Model.State.{state_names_iff, is_state_valid_iff}
use refmon.Startup.{RegisteredSyscallCodes}
use refmon.ProcIo.{codes_text, proc_state, state_text}
use refmon.ProcIo.Reading.{Delivers, read_proc-state}
use refmon.World.{World}
use refmon.Syscalls.{syscall}
use refmon.Syscalls.Tables.{Works}
use refmon.Monitor.{Monitor, set_state, as_syscall, serve}
use refmon.Monitor.Simulation.{Simulates, serve-Simulates}
use refmon.User.{
  UserHost, Outcome, shown, opt_s, opt_long, select, sc_order_set_state, cmd_print_state,
  read_procfile_from_user, cmd_set_state, with_syscall, proc_user_state_file,
}
use refmon.User.Codes.{in_order}
use refmon.User.Main.{main, run_options, ask_for_password}
use refmon.User.EndToEnd.{CommandLine, main-serve}

-- A state that was set is the one that its name is read as.
served_state :
    (k : Kernel) (text : Str) (a : Monitor)
    → (serve k (set_state text) a).0 ≡ pos 0
    → ((serve k (set_state text) a).1.state ≡ string_to_state text)
      × (state_to_string (string_to_state text) ≡ some text)
unfolding serve
served_state k text a e =
    let valid : is_state_valid text ≡ true = ground (arith, e) in
    let named =
      (state_names_iff text (string_to_state text)).1 (refl, (is_state_valid_iff text).0 valid) in
    (ground (arith, e), named)

short_text : (s : RefmonState) → length (state_text s) ≤ 16
unfolding state_text state_to_string
short_text off = omega arith
short_text on = omega arith
short_text rec_off = omega arith
short_text rec_on = omega arith
short_text einval = omega arith

state_text_named :
    (s : RefmonState) (text : Str) → state_to_string s ≡ some text → state_text s ≡ text ++ 10 ∷ []
unfolding state_text
state_text_named s text e = rw (e, state_text) refl

pub piped_text :
    (h : UserHost) (file out : Str)
    → h.calloc ≡ true
    → h.pclose ≡ true
    → h.popen file ≡ some out
    → read_procfile_from_user h file ≡ record { value = pos 0; output = shown out ∷ [] }
unfolding read_procfile_from_user
piped_text h file out memory closed piped = rw (memory, piped, closed) refl

cmd_print_state_lem :
    (h : UserHost) (out : Str)
    → h.calloc ≡ true
    → h.pclose ≡ true
    → h.popen (codes "/proc/" ++ proc_state) ≡ some out
    → cmd_print_state h ≡ record { value = pos 0; output = shown out ∷ [] }
unfolding cmd_print_state
cmd_print_state_lem h out memory closed piped =
    rw (piped_text h proc_user_state_file out memory closed piped) refl

printed_state :
    (h : UserHost)
    → h.test_build ≡ false
    → main h 2 (opt_long (codes "print-state") ∷ []) ≡ cmd_print_state h
unfolding main run_options strcmp_is_zero
printed_state h built = rw built refl

-- Setting the state asks for no password.
no_prompt :
    (h : UserHost) (text : Str)
    → main (record h { getpass = some [] }) 3 (opt_s text ∷ []) ≡ main h 3 (opt_s text ∷ [])
unfolding main run_options cmd_set_state with_syscall
no_prompt h text = refl

some_prompt :
    (h : UserHost)
    → ask_for_password (record h { getpass = some [] })
      ≡ some (if h.test_build then codes "ciao" else [])
unfolding ask_for_password
some_prompt h = ground arith

-- What a user has set is what a user is shown: if the tool, called with `-s` and a text, returns 0,
-- then the tool called with `--print-state` right afterwards prints that text on a line and returns
-- 0. This holds under the conditions of `main-serve` for the first call, and for the second one if
-- the pipe passes on what the reads of the module's /proc file of the state deliver, its buffer has
-- room for 16 bytes, and memory and pipe do not fail.
pub print_state-set_state :
    (h shower : UserHost) (c : RegisteredSyscallCodes) (k : Kernel) (w : World) (a : Monitor)
    (text : Str) (copy_to_user : Str → ℕ) (count : ℕ)
    → h.syscallcodes_file ≡ some (codes_text c)
    → is_neg (select (in_order c) sc_order_set_state) ≡ false
    → some (h.syscall (select (in_order c) sc_order_set_state) (text ∷ []))
      ≡ (syscall k (as_syscall (set_state text)) w).0
    → h.neg_errno ≡ pos 0
    → Works k
    → Simulates w a
    → (main h 3 (opt_s text ∷ [])).value ≡ pos 0
    → ((s : Str) → copy_to_user s ≡ 0)
    → 16 ≤ count
    → ((out : Str)
        → Delivers c copy_to_user proc_state count (syscall k (as_syscall (set_state text)) w).1 out
        → shower.popen (codes "/proc/" ++ proc_state) ≡ some out)
    → shower.test_build ≡ false
    → shower.calloc ≡ true
    → shower.pclose ≡ true
    → main shower 2 (opt_long (codes "print-state") ∷ [])
      ≡ record { value = pos 0; output = shown (text ++ 10 ∷ []) ∷ [] }
print_state-set_state h shower c k w a text copy_to_user count file code in_kernel errno works sim
      done copies room pipe built memory closed =
    let answered =
      main-serve (record h { getpass = some [] }) c k w a
        (if h.test_build then codes "ciao" else []) (CommandLine.set text) file code in_kernel errno
        tt (some_prompt h) works sim in
    let (state_set, named) =
      served_state k text a
        (sym answered ∙ ap (λ (o : Outcome). o.value) (no_prompt h text) ∙ done) in
    let after = (serve-Simulates k works (set_state text) w a sim).1 in
    let w' = (syscall k (as_syscall (set_state text)) w).1 in
    let text_now : state_text w'.instance.state ≡ text ++ 10 ∷ [] =
      ap state_text (after.state ∙ state_set)
      ∙ state_text_named (string_to_state text) text named in
    let small : length (state_text w'.instance.state) ≤ count =
      let short = short_text w'.instance.state in omega arith in
    let delivered = read_proc-state c copy_to_user count w' copies small in
    let piped =
      pipe (text ++ 10 ∷ [])
        (subst (Delivers c copy_to_user proc_state count w') text_now delivered) in
    printed_state shower built ∙ cmd_print_state_lem shower (text ++ 10 ∷ []) memory closed piped
