-- ===== src/Startup/Errors.antt =====
-- What init_module leaves when it fails, and what cleanup_module leaves (refmon.c).
use refmon.Prelude.{
  ℕ, ◌+◌, true, false, ◌≡◌, ◌⊎◌, inl, inr, refl, ap, ◌∙◌, none, some, ℤ, pos, negsuc, is_zero, ◌==◌,
  arith, Option-cases, Bool-cases, neg_einval,
}
use refmon.Kernel.Documented.{MemoryWorks, CryptoWorks}
use refmon.Misc.{default_password, hexconv}
use refmon.Startup.{
  Host, Boot, Loaded, nothing_present, same_entries, unloaded, file_syscallcodes, init_password,
  init_instance, init_procfiles, create_procfile, write_entries, flush_procfiles, flush_syscalls,
  flush_probes, cleanup_module, abort, or_abort, init_module,
}
use refmon.Startup.Outcome.{password_set, or_abort_ok, or_abort_error, instance_set}

-- The same cleanup, whatever came before: the files and probes are gone, and the entries that are
-- noted hold the address that is noted for sys_ni_syscall.
abbrev pub cleaned : Loaded → Loaded
cleaned s = record s {
  present = nothing_present;
  table = write_entries s.table s.restore (same_entries s.the_ni_syscall);
}

-- What flush_procfiles leaves.
abbrev without_files : Loaded → Loaded
without_files s = record s {
  present = record s.present { syscallcodes = false; state_file = false; list_file = false };
}

flush_syscalls_lem :
    (h : Host) (s : Loaded)
    → (h.the_syscall_table == 0) ≡ false
    → flush_syscalls h s ≡ (
      some tt,
      record s { table = write_entries s.table s.restore (same_entries s.the_ni_syscall) },
    )
unfolding flush_syscalls
flush_syscalls_lem h s t = ground (arith, t)

flush_syscalls_no_table :
    (h : Host) (s : Loaded) → (h.the_syscall_table == 0) ≡ true → flush_syscalls h s ≡ (none, s)
unfolding flush_syscalls
flush_syscalls_no_table h s t = ground (arith, t)

pub cleanup_module_lem :
    (h : Host) (s : Loaded)
    → (h.the_syscall_table == 0) ≡ false
    → cleanup_module h s ≡ (some tt, cleaned s)
unfolding cleanup_module flush_procfiles flush_probes
cleanup_module_lem h s t = ground (arith, flush_syscalls_lem h (without_files s) t)

pub abort_lem :
    (h : Host) (ret : ℤ) (s : Loaded)
    → (h.the_syscall_table == 0) ≡ false
    → abort h ret s ≡ (some ret, cleaned s)
unfolding abort
abort_lem h ret s t = ground (arith, cleanup_module_lem h s t)

abort_no_table :
    (h : Host) (ret : ℤ) (s : Loaded) → (h.the_syscall_table == 0) ≡ true → (abort h ret s).0 ≡ none
unfolding abort cleanup_module flush_procfiles flush_probes
abort_no_table h ret s t = ground (arith, flush_syscalls_no_table h (without_files s) t)

-- An error is returned only after the cleanup.
abbrev pub CleansUp : Boot ℤ → Type 0
CleansUp b =
    (s : Loaded) (ret : ℤ)
    → (b s).0 ≡ some ret
    → is_zero ret ≡ false
    → (b s).1.present ≡ nothing_present

abort-CleansUp : (h : Host) (ret : ℤ) → CleansUp (abort h ret)
abort-CleansUp h ret s r e z = elim (Bool-cases (h.the_syscall_table == 0)) [
  | inl t ↦ absurd (ground (arith, e, abort_no_table h ret s t))
  | inr t ↦ ap (λ x. x.1.present) (abort_lem h ret s t)
]

or_abort_cases :
    (h : Host) (init next : Boot ℤ) (s : Loaded)
    → ((or_abort h init next s).0 ≡ none)
      ⊎ (or_abort h init next s ≡ next (init s).1)
      ⊎ ((ret : ℤ) × (or_abort h init next s ≡ abort h ret (init s).1))
unfolding or_abort
or_abort_cases h init next s = elim (Option-cases (init s).0) [
  | inl e ↦ inl (ground (arith, e))
  | inr (ret, e) ↦ elim (Bool-cases (is_zero ret)) [
    | inl z ↦ inr (inl (ground (arith, e, z)))
    | inr z ↦ inr (inr (ret, ground (arith, e, z)))
  ]
]

or_abort-CleansUp :
    (h : Host) (init next : Boot ℤ) → CleansUp next → CleansUp (or_abort h init next)
or_abort-CleansUp h init next n s r e z = elim (or_abort_cases h init next s) [
  | inl faults ↦ absurd (ground (arith, e, faults))
  | inr (inl goes) ↦ rw goes (n (init s).1 r (rw goes at e) z)
  | inr (inr (ret, fails)) ↦ rw fails (abort-CleansUp h ret (init s).1 r (rw fails at e) z)
]

done-CleansUp : CleansUp (λ s. (some (pos 0), s))
done-CleansUp s ret e z = absurd (ground arith)

-- Whatever fails, and from whatever state, an initialisation that returns an error leaves none of
-- the module's /proc files and none of its probes.
pub init_module-CleansUp :
    (h : Host) (s : Loaded) (ret : ℤ)
    → (init_module h s).0 ≡ some ret
    → is_zero ret ≡ false
    → (init_module h s).1.present ≡ nothing_present
unfolding init_module
init_module-CleansUp h = or_abort-CleansUp h _ _ (
    or_abort-CleansUp h _ _
      (or_abort-CleansUp h _ _ (or_abort-CleansUp h _ _ (or_abort-CleansUp h _ _ done-CleansUp))))

none_created :
    (h : Host) (s : Loaded)
    → h.proc_create file_syscallcodes ≡ false
    → init_procfiles h s ≡ (some neg_einval, s)
unfolding init_procfiles create_procfile
none_created h s f = ground (arith, f)

-- The cleanup of a module that has noted no entries yet writes one word.
far_below :
    (table : ℤ → ℕ) (n : ℕ)
    → write_entries table (same_entries (negsuc 0)) (same_entries 0) (negsuc (n + 1))
      ≡ table (negsuc (n + 1))
unfolding write_entries
far_below table n = let apart : (n + 1 == 0) ≡ false = ground arith in rw apart refl

-- If the first /proc file cannot be created, the initialisation returns -EINVAL, and the cleanup
-- has written 0 to the word below the system call table and changed no other word, neither of the
-- table nor further below it.
pub init_module-no_procfiles :
    (h : Host) (table : ℤ → ℕ)
    → MemoryWorks h.memory
    → CryptoWorks h.crypto
    → (h.the_syscall_table == 0) ≡ false
    → h.proc_create file_syscallcodes ≡ false
    → ((init_module h (unloaded table)).0 ≡ some neg_einval)
      × ((init_module h (unloaded table)).1.table (negsuc 0) ≡ 0)
      × ((n : ℕ) → (init_module h (unloaded table)).1.table (pos n) ≡ table (pos n))
      × ((n : ℕ)
          → (init_module h (unloaded table)).1.table (negsuc (n + 1)) ≡ table (negsuc (n + 1)))
unfolding init_module write_entries
init_module-no_procfiles h table mw cw t f =
    let (n, set) = password_set h (unloaded table) mw cw in
    let s : Loaded = record (unloaded table) {
      password = some (hexconv (h.crypto.sha256 default_password));
      calls = n;
    } in
    let run : init_module h (unloaded table) ≡ (some neg_einval, cleaned s) =
      or_abort_ok h (init_password h) _ (unloaded table) _ set
      ∙ or_abort_ok h init_instance _ _ _ (instance_set _)
      ∙ or_abort_error h (init_procfiles h) _ _ _ _ (none_created h _ f) refl
      ∙ abort_lem h neg_einval _ t in
    (
      ap (λ r. r.0) run,
      ap (λ r. r.1.table (negsuc 0)) run,
      λ n. ap (λ r. r.1.table (pos n)) run,
      λ n. ap (λ r. r.1.table (negsuc (n + 1))) run ∙ far_below table n,
    )
