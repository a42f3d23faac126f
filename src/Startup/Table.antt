-- ===== src/Startup/Table.antt =====
-- What initialisation and cleanup do to the system call table (refmon.c, syscalls/syscalls.c).
use refmon.Prelude.{
  ℕ, true, false, ◌≡◌, ◌≢◌, inl, inr, ◌↔◌, refl, ap, ◌∙◌, some, ℤ, pos, negsuc, ==_iff, arith,
  Bool-cases,
}
use refmon.Startup.{
  Host, Entries, same_entries, nothing_present, unloaded, same, hacked_entries, write_entries,
  cleanup_module, init_module,
}
use refmon.Startup.Outcome.{HostWorks, installed, init_module-installed}
use refmon.Startup.Errors.{cleanup_module_lem}

same_iff : (a b : ℤ) → (same a b ≡ true) ↔ (a ≡ b)
same_iff (pos a) (pos b) = grind (arith, ==_iff a b)
same_iff (pos a) (negsuc b) = grind arith
same_iff (negsuc a) (pos b) = grind arith
same_iff (negsuc a) (negsuc b) = grind (arith, ==_iff a b)

holds : (table : ℤ → ℕ) (i at : ℤ) (v : ℕ) → table at ≡ v → same i at ≡ true → table i ≡ v
holds table i at v e s = ap table ((same_iff i at).0 s) ∙ e

-- Every entry holds the word.
pub record Hold (table : ℤ → ℕ) (e : Entries ℤ) (v : ℕ) : Type 0 where
  pub entry_0 : table e.entry_0 ≡ v
  pub entry_1 : table e.entry_1 ≡ v
  pub entry_2 : table e.entry_2 ≡ v
  pub entry_3 : table e.entry_3 ≡ v

rewritten :
    (table : ℤ → ℕ) (e : Entries ℤ) (words : Entries ℕ) (v : ℕ) (i : ℤ)
    → Hold table e v
    → write_entries (write_entries table e words) e (same_entries v) i ≡ table i
unfolding write_entries
rewritten table e words v i h = ground (
  arith,
  holds table i e.entry_0 v h.entry_0,
  holds table i e.entry_1 v h.entry_1,
  holds table i e.entry_2 v h.entry_2,
  holds table i e.entry_3 v h.entry_3,
)

-- The four entries are different ones.
pub record Apart (e : Entries ℤ) : Type 0 where
  pub apart_01 : e.entry_0 ≢ e.entry_1
  pub apart_02 : e.entry_0 ≢ e.entry_2
  pub apart_03 : e.entry_0 ≢ e.entry_3
  pub apart_12 : e.entry_1 ≢ e.entry_2
  pub apart_13 : e.entry_1 ≢ e.entry_3
  pub apart_23 : e.entry_2 ≢ e.entry_3

differ : (a b : ℤ) → a ≢ b → same a b ≡ false
differ a b n = elim (Bool-cases (same a b)) [ inl s ↦ absurd (n ((same_iff a b).0 s)) | inr s ↦ s ]

written :
    (table : ℤ → ℕ) (e : Entries ℤ) (words : Entries ℕ)
    → Apart e
    → (write_entries table e words e.entry_0 ≡ words.entry_0)
      × (write_entries table e words e.entry_1 ≡ words.entry_1)
      × (write_entries table e words e.entry_2 ≡ words.entry_2)
      × (write_entries table e words e.entry_3 ≡ words.entry_3)
unfolding write_entries
written table e words a = ground (
  arith,
  (same_iff e.entry_0 e.entry_0).1 refl,
  (same_iff e.entry_1 e.entry_1).1 refl,
  (same_iff e.entry_2 e.entry_2).1 refl,
  (same_iff e.entry_3 e.entry_3).1 refl,
  differ e.entry_0 e.entry_1 a.apart_01,
  differ e.entry_0 e.entry_2 a.apart_02,
  differ e.entry_0 e.entry_3 a.apart_03,
  differ e.entry_1 e.entry_2 a.apart_12,
  differ e.entry_1 e.entry_3 a.apart_13,
  differ e.entry_2 e.entry_3 a.apart_23,
)

-- Loading the module and removing it again puts back the system call table, every word of it, and
-- leaves no /proc file and no probe, if the kernel grants every request and the four entries that
-- were found all held the address that is noted for sys_ni_syscall.
pub cleanup_module-init_module :
    (h : Host) (table : ℤ → ℕ) (e : Entries ℤ) (ni : ℕ) (i : ℤ)
    → HostWorks h
    → h.get_entries table hacked_entries ≡ some (4, e, ni)
    → Hold table e ni
    → let s = (cleanup_module h (init_module h (unloaded table)).1) in
      (s.0 ≡ some tt) × (s.1.table i ≡ table i) × (s.1.present ≡ nothing_present)
cleanup_module-init_module h table e ni i w found held =
    let (n, loaded) = init_module-installed h table e ni w found in
    let run =
      ap (λ r. cleanup_module h r.1) loaded
      ∙ cleanup_module_lem h (installed h table e ni n) w.has_table in
    (
      ap (λ r. r.0) run,
      ap (λ r. r.1.table i) run ∙ rewritten table e h.new_sys_call_array ni i held,
      ap (λ r. r.1.present) run,
    )

-- Once the module is loaded, the entry with the code that is published for a system call holds the
-- address of that call, for all four, if the entries that were found are different ones.
pub init_module-table :
    (h : Host) (table : ℤ → ℕ) (e : Entries ℤ) (ni : ℕ)
    → HostWorks h
    → h.get_entries table hacked_entries ≡ some (4, e, ni)
    → Apart e
    → let s = (init_module h (unloaded table)).1 in
      (s.table s.syscall_codes.sc_code_set_state ≡ h.new_sys_call_array.entry_0)
      × (s.table s.syscall_codes.sc_code_reconf_add ≡ h.new_sys_call_array.entry_1)
      × (s.table s.syscall_codes.sc_code_reconf_rm ≡ h.new_sys_call_array.entry_2)
      × (s.table s.syscall_codes.sc_code_flush ≡ h.new_sys_call_array.entry_3)
init_module-table h table e ni w found apart =
    let (n, loaded) = init_module-installed h table e ni w found in
    rw loaded (written table e h.new_sys_call_array apart)
