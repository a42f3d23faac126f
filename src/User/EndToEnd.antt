-- ===== src/User/EndToEnd.antt =====
-- The command line tool (user/), the module behind its system calls (syscalls/), and what a user is
-- told in the end.
use refmon.Prelude.{
  ℕ, List, ltb, true, false, ◌≡◌, ◌⊎◌, inl, inr, refl, ap, ◌∙◌, some, Option-cases, Bool-cases, [],
  ◌∷◌, ℤ, pos, is_neg, is_zero, if◌then◌else◌, arith,
}
use refmon.CStr.{Str, match_string}
use refmon.Kernel.{Kernel, FileSystem}
use refmon.FsUtils.{ignore_absolute_paths}
use refmon.FsUtils.Resolve.{canonical}
use refmon.Startup.{RegisteredSyscallCodes}
use refmon.ProcIo.{codes_text}
use refmon.World.{World}
use refmon.Syscalls.{syscall}
use refmon.Syscalls.Tables.{Works}
use refmon.Monitor.{
  Monitor, Protected, Request, set_state, add, remove, flush, as_syscall, allowed, add_path,
  remove_path, guarded, serve, new_entry,
}
use refmon.Monitor.Simulation.{Simulates, serve-Simulates}
use refmon.User.{
  UserHost, Outcome, Opt, opt_s, opt_a, opt_r, opt_x, usage, cmd_flush, is_errno, select,
  cmd_reconf_add, cmd_reconf_rm,
}
use refmon.User.Codes.{in_order}
use refmon.User.Commands.{Command, run, order, arguments, run_value}
use refmon.User.Main.{invalid, with_password, on_path, ask_for_password, run_options, main}

-- A command line with one option, and its argument if it has one.
pub data CommandLine : Type 0 where
  set reconf_add reconf_rm : Str → CommandLine
  flush_registry : CommandLine

abbrev pub option : CommandLine → Opt
option (set s) = opt_s s
option (reconf_add path) = opt_a path
option (reconf_rm path) = opt_r path
option flush_registry = opt_x

abbrev pub argc : CommandLine → ℕ
argc (set s) = 3
argc (reconf_add path) = 3
argc (reconf_rm path) = 3
argc flush_registry = 2

-- A flush is there in a build with TEST only.
abbrev pub InBuild : UserHost → CommandLine → Type 0
InBuild h (set s) = Unit
InBuild h (reconf_add path) = Unit
InBuild h (reconf_rm path) = Unit
InBuild h flush_registry = h.test_build ≡ true

-- The command that it stands for, with the password of the prompt.
abbrev pub command : Str → CommandLine → Command
command password (set s) = Command.set_state s
command password (reconf_add path) = Command.reconf_add path password
command password (reconf_rm path) = Command.reconf_rm path password
command password flush_registry = Command.flush password

abbrev pub request : Str → CommandLine → Request
request password (set s) = set_state s
request password (reconf_add path) = add path password
request password (reconf_rm path) = remove path password
request password flush_registry = flush password

-- Zero or an error of the kernel.
abbrev IsResult : ℤ → Type 0
IsResult n = (n ≡ pos 0) ⊎ (is_errno n ≡ true)

allowed-IsResult : (k : Kernel) (a : Monitor) (password : Str) → IsResult (allowed k a password)
unfolding allowed
allowed-IsResult k a password = ground arith

add_path-IsResult : (f : FileSystem) (path : Str) (m : Protected) → IsResult (add_path f path m).0
unfolding add_path
add_path-IsResult f path m = elim (Option-cases (canonical f path ignore_absolute_paths)) [
  | inl missing ↦ inr (ground (arith, missing))
  | inr (q, found) ↦ elim (Option-cases (m q)) [
    | inr (e, there) ↦ inr (ground (arith, found, there))
    | inl new ↦ elim (Option-cases (new_entry f path q)) [
      | inl refused ↦ inr (ground (arith, found, new, refused))
      | inr (e, entry) ↦ inl (ground (arith, found, new, entry))
    ]
  ]
]

remove_path-IsResult :
    (f : FileSystem) (path : Str) (m : Protected) → IsResult (remove_path f path m).0
unfolding remove_path
remove_path-IsResult f path m = elim (Option-cases (canonical f path ignore_absolute_paths)) [
  | inl missing ↦ inr (ground (arith, missing))
  | inr (q, found) ↦ elim (Option-cases (m q)) [
    | inl new ↦ inr (ground (arith, found, new))
    | inr (e, there) ↦ inl (ground (arith, found, there))
  ]
]

guarded-IsResult :
    (operation : FileSystem → Str → Protected → ℤ × Protected) (k : Kernel) (a : Monitor)
    (path password : Str)
    → ((m : Protected) → IsResult (operation k.files path m).0)
    → IsResult (guarded operation k a path password).0
guarded-IsResult operation k a path password results =
    elim (Bool-cases (is_zero (allowed k a password))) [
      | inr denied ↦ rw denied (allowed-IsResult k a password)
      | inl may ↦ elim (Bool-cases (match_string path [])) [
        | inl empty ↦ rw (may, empty) (inr refl)
        | inr named ↦ rw (may, named) (results a.protected)
      ]
    ]

serve-IsResult :
    (k : Kernel) (password : Str) (l : CommandLine) (a : Monitor)
    → IsResult (serve k (request password l) a).0
unfolding serve
serve-IsResult k password (set s) a = ground arith
serve-IsResult k password (reconf_add path) a =
    guarded-IsResult add_path k a path password (add_path-IsResult k.files path)
serve-IsResult k password (reconf_rm path) a =
    guarded-IsResult remove_path k a path password (remove_path-IsResult k.files path)
serve-IsResult k password flush_registry a = allowed-IsResult k a password

-- A result passes through the C library unchanged, if errno was 0.
through_errno : (n err : ℤ) → IsResult n → err ≡ pos 0 → (if is_errno n then n else err) ≡ n
through_errno n err (inl ok) e = rw (ok, e) refl
through_errno n err (inr bad) e = rw bad refl

prompted :
    (h : UserHost) (password : Str) (cmd : Str → Outcome)
    → ask_for_password h ≡ some password
    → with_password h cmd ≡ cmd password
unfolding with_password
prompted h password cmd prompt = rw (prompt, with_password) refl

in_test_build :
    (h : UserHost) (out other : Outcome)
    → h.test_build ≡ true
    → (if h.test_build then out else other) ≡ out
in_test_build h out other e = ground (arith, e)

run_options-run :
    (h : UserHost) (password : Str) (l : CommandLine)
    → InBuild h l
    → ask_for_password h ≡ some password
    → run_options h (argc l) (option l ∷ []) ≡ run h (command password l)
unfolding run_options on_path
run_options-run h password (set s) built prompt = refl
run_options-run h password (reconf_add path) built prompt =
    prompted h password (cmd_reconf_add h path) prompt
run_options-run h password (reconf_rm path) built prompt =
    prompted h password (cmd_reconf_rm h path) prompt
run_options-run h password flush_registry built prompt =
    in_test_build h (with_password h (cmd_flush h)) (invalid usage) built
    ∙ prompted h password (cmd_flush h) prompt

enough_arguments : (l : CommandLine) → ltb (argc l) 2 ≡ false
enough_arguments (set s) = refl
enough_arguments (reconf_add path) = refl
enough_arguments (reconf_rm path) = refl
enough_arguments flush_registry = refl

main-run_options :
    (h : UserHost) (n : ℕ) (options : List Opt)
    → ltb n 2 ≡ false
    → (main h n options).value ≡ (run_options h n options).value
unfolding main
main-run_options h n options e = ground (arith, e)

-- From the command line to the monitor: the tool, called with the option of a command and its
-- argument, returns what the monitor answers to the request. This holds if the codes are those that
-- the kernel prints, and not negative, the number of the command leads to its system call in the
-- module, errno is 0 at the start, the prompt yields the password (a build with TEST has one of its
-- own, and only it knows the flush), nothing fails in the kernel, and the module's world is one
-- between two calls that stands for the monitor.
pub main-serve :
    (h : UserHost) (c : RegisteredSyscallCodes) (k : Kernel) (w : World) (a : Monitor)
    (password : Str) (l : CommandLine)
    → h.syscallcodes_file ≡ some (codes_text c)
    → is_neg (select (in_order c) (order (command password l))) ≡ false
    → some (
        h.syscall
          (select (in_order c) (order (command password l)))
          (arguments (command password l)))
      ≡ (syscall k (as_syscall (request password l)) w).0
    → h.neg_errno ≡ pos 0
    → InBuild h l
    → ask_for_password h ≡ some password
    → Works k
    → Simulates w a
    → (main h (argc l) (option l ∷ [])).value ≡ (serve k (request password l) a).0
main-serve h c k w a password l file code in_kernel errno built prompt works sim =
    let ret =
      h.syscall (select (in_order c) (order (command password l)))
        (arguments (command password l)) in
    let answer = (serve k (request password l) a).0 in
    let (returns, after) = serve-Simulates k works (request password l) w a sim in
    let same : ret ≡ answer = cc in
    main-run_options h (argc l) (option l ∷ []) (enough_arguments l)
    ∙ ap (λ (o : Outcome). o.value) (run_options-run h password l built prompt)
    ∙ run_value h c (command password l) file code
    ∙ ap (λ n. if is_errno n then n else h.neg_errno) same
    ∙ through_errno answer h.neg_errno (serve-IsResult k password l a) errno
