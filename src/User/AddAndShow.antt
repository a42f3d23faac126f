-- ===== src/User/AddAndShow.antt =====
-- A path from the command line of the tool (user/user.c) through the module and its /proc file
-- (io/procio.c) back to the terminal.
use refmon.Prelude.{
  ◌+◌, ◌≤◌, ◌<◌, ◌++◌, true, false, ◌≡◌, refl, ap, sym, ◌∙◌, inl, inr, some, [], ◌∷◌, ℕ, pos,
  is_neg, is_zero, length, length-append, arith,
}
use mathlib.Core.Path.{subst}
use mathlib.Core.List.{append-nil, append_assoc}
use refmon.CStr.{Str, codes, strcmp_is_zero}
use refmon.Kernel.{Kernel}
use refmon.Model.{RegistryEntry, Registry}
use refmon.AddFile.Outcome.{
  addition, add_file-addition, add_file-Added, Added, refused, appended, IsEntryOf,
}
use refmon.Startup.{RegisteredSyscallCodes}
use refmon.ProcIo.{codes_text, proc_registry, page_size, entry_line}
use refmon.ProcIo.Bounds.{lines, Shown}
use refmon.ProcIo.Reading.{Delivers, read_proc-registry}
use refmon.World.{World}
use refmon.Syscalls.{syscall}
use refmon.Syscalls.Tables.{Works}
use refmon.Syscalls.RoundTrip.{add_done}
use refmon.Monitor.{Monitor, add, as_syscall}
use refmon.Monitor.Simulation.{Simulates, serve-Simulates}
use refmon.User.{
  UserHost, shown, opt_a, opt_long, select, sc_order_reconf_add, cmd_print_registry,
  proc_user_list_file,
}
use refmon.User.Codes.{in_order}
use refmon.User.Main.{main, run_options, ask_for_password}
use refmon.User.EndToEnd.{CommandLine, main-serve}
use refmon.User.SetAndShow.{piped_text}

lines-append : (es : Registry) (e : RegistryEntry) → lines (es ++ e ∷ []) ≡ lines es ++ entry_line e
lines-append [] e = append-nil (entry_line e)
lines-append (d ∷ es) e =
    ap (λ t. entry_line d ++ t) (lines-append es e)
    ∙ sym (append_assoc (entry_line d) (lines es) (entry_line e))

length-lines :
    (first rest : Registry)
    → length (lines (first ++ rest)) ≡ length (lines first) + length (lines rest)
length-lines [] rest = omega arith
length-lines (e ∷ first) rest = omega (
  arith,
  length-lines first rest,
  length-append (entry_line e) (lines (first ++ rest)),
  length-append (entry_line e) (lines first),
)

-- If all lines fit, all are shown.
whole_list :
    (es : Registry) (room : ℕ) (s : Shown es room)
    → length (lines es) < room
    → lines s.first ≡ lines es
whole_list es room s fits = elim s.full [
  | inl done ↦ sym (ap lines (s.split ∙ ap (λ r. s.first ++ r) done ∙ append-nil s.first))
  | inr (d, tail, e, over) ↦
      let all = ap (λ t. length (lines t)) (s.split ∙ ap (λ r. s.first ++ r) e) in
      absurd (
        omega
          (arith, all, length-lines s.first (d ∷ tail), length-append (entry_line d) (lines tail)))
]

-- An addition that returns 0 has put an entry of the path at the tail.
addition_entry :
    (k : Kernel) (registry : Registry) (path : Str)
    → Works k
    → (addition k.files registry path).0 ≡ pos 0
    → (e : RegistryEntry) × IsEntryOf k.files path e
      × ((addition k.files registry path).1 ≡ registry ++ e ∷ [])
addition_entry k registry path works ok =
    let added =
      subst (Added k.files registry path)
        (add_file-addition k.memory k.files registry path 0 works.memory works.paths)
        (add_file-Added k.memory k.files registry path 0) in
    elim added [
      | refused err same ↦ let t = ap is_zero ok in absurd (cc)
      | appended e ie zero grown ↦ (e, ie, grown)
    ]

cmd_print_registry_lem :
    (h : UserHost) (out : Str)
    → h.calloc ≡ true
    → h.pclose ≡ true
    → h.popen (codes "/proc/" ++ proc_registry) ≡ some out
    → cmd_print_registry h ≡ record { value = pos 0; output = shown out ∷ [] }
unfolding cmd_print_registry
cmd_print_registry_lem h out memory closed piped =
    rw (piped_text h proc_user_list_file out memory closed piped) refl

printed_registry :
    (h : UserHost)
    → h.test_build ≡ false
    → main h 2 (opt_long (codes "print-registry") ∷ []) ≡ cmd_print_registry h
unfolding main run_options strcmp_is_zero
printed_registry h built = rw built refl

main_prints_registry :
    (h : UserHost) (out : Str)
    → h.test_build ≡ false
    → h.calloc ≡ true
    → h.pclose ≡ true
    → h.popen (codes "/proc/" ++ proc_registry) ≡ some out
    → main h 2 (opt_long (codes "print-registry") ∷ [])
      ≡ record { value = pos 0; output = shown out ∷ [] }
main_prints_registry h out built memory closed piped =
    printed_registry h built ∙ cmd_print_registry_lem h out memory closed piped

-- What the module's list holds after a path was added.
added_lines :
    (k : Kernel) (w : World) (path password : Str)
    → Works k
    → let w' = (syscall k (as_syscall (add path password)) w).1 in
      (syscall k (as_syscall (add path password)) w).0 ≡ some (pos 0)
      → (e : RegistryEntry) × IsEntryOf k.files path e
        × (lines w'.instance.registry ≡ lines w.instance.registry ++ entry_line e)
added_lines k w path password works done =
    let (ok, grown, free, next) = add_done k path password works w addition done in
    let (e, ie, tail) = addition_entry k w.instance.registry path works ok in
    (e, ie, ap lines (grown ∙ tail) ∙ lines-append w.instance.registry e)

-- What a user has added is listed: if the tool, called with `-a` and a path, returns 0, then the
-- tool called with `--print-registry` right afterwards prints the lines that it printed before and
-- one more, that of an entry of the path, and returns 0. This holds under the conditions of
-- `main-serve` for the first call, and for the second one if the lines are shorter than a page, the
-- pipe passes on what the reads of the module's /proc file of the registry deliver, its buffer has room
-- for a page, and memory and pipe do not fail.
pub print_registry-add :
    (h shower : UserHost) (c : RegisteredSyscallCodes) (k : Kernel) (w : World) (a : Monitor)
    (path password : Str) (copy_to_user : Str → ℕ) (count : ℕ)
    → h.syscallcodes_file ≡ some (codes_text c)
    → is_neg (select (in_order c) sc_order_reconf_add) ≡ false
    → some (h.syscall (select (in_order c) sc_order_reconf_add) (path ∷ password ∷ []))
      ≡ (syscall k (as_syscall (add path password)) w).0
    → h.neg_errno ≡ pos 0
    → ask_for_password h ≡ some password
    → Works k
    → Simulates w a
    → (main h 3 (opt_a path ∷ [])).value ≡ pos 0
    → ((s : Str) → copy_to_user s ≡ 0)
    → page_size ≤ count
    → let w' = (syscall k (as_syscall (add path password)) w).1 in
      length (lines w'.instance.registry) < page_size
      → ((out : Str)
          → Delivers c copy_to_user proc_registry count w' out
          → shower.popen (codes "/proc/" ++ proc_registry) ≡ some out)
      → shower.test_build ≡ false
      → shower.calloc ≡ true
      → shower.pclose ≡ true
      → (e : RegistryEntry) × IsEntryOf k.files path e
        × (main shower 2 (opt_long (codes "print-registry") ∷ []) ≡ record {
          value = pos 0;
          output = shown (lines w.instance.registry ++ entry_line e) ∷ [];
        })
print_registry-add h shower c k w a path password copy_to_user count file code in_kernel errno
      prompt works sim zero copies room fits pipe built memory closed =
    let answered =
      main-serve h c k w a password (CommandLine.reconf_add path) file code in_kernel errno tt
        prompt works sim in
    let (returns, after) = serve-Simulates k works (add path password) w a sim in
    let w' = (syscall k (as_syscall (add path password)) w).1 in
    let (e, ie, more) =
      added_lines k w path password works (returns ∙ ap some (sym answered ∙ zero)) in
    let (s, delivered) = read_proc-registry c copy_to_user count w' copies after.free room in
    let all = whole_list w'.instance.registry page_size s fits ∙ more in
    let piped =
      pipe (lines w.instance.registry ++ entry_line e)
        (subst (Delivers c copy_to_user proc_registry count w') all delivered) in
    (
      e,
      ie,
      main_prints_registry shower (lines w.instance.registry ++ entry_line e) built memory closed
          piped,
    )
