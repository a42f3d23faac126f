-- ===== src/Examples/Boot.antt =====
-- Loading and removing the module (refmon.c) with a small system call table.
use refmon.Prelude.{
  ◌+◌, ℕ, ◌≡◌, refl, true, false, some, ℤ, pos, negsuc, arith, ◌==◌, if◌then◌else◌, neg_einval,
}
use refmon.Startup.{Host, Entries, unloaded, nothing_present, init_module, cleanup_module}
use refmon.Startup.Outcome.{HostWorks}
use refmon.Startup.Errors.{init_module-CleansUp, init_module-no_procfiles}
use refmon.Startup.Table.{Hold, Apart, cleanup_module-init_module, init_module-table}
use refmon.Examples.{memory, crypto, memory_works, crypto_works}

-- Entries 2, 3, 5 and 7 are free: they hold 9.
abbrev free_entries : Entries ℤ
free_entries = record { entry_0 = pos 2; entry_1 = pos 3; entry_2 = pos 5; entry_3 = pos 7 }

abbrev table : ℤ → ℕ
table (pos n) = if n == 1 then 40 else 9
table (negsuc n) = 77

abbrev host : Host
host = record {
  memory = memory;
  crypto = crypto;
  proc_create = λ name. true;
  register_kretprobe = λ p. pos 0;
  the_syscall_table = 4096;
  new_sys_call_array = record { entry_0 = 100; entry_1 = 101; entry_2 = 102; entry_3 = 103 };
  get_entries = λ t n. some (4, free_entries, 9);
}

host_works : HostWorks host
host_works = record {
  memory = memory_works;
  crypto = crypto_works;
  proc_create = λ name. refl;
  register_kretprobe = λ p. refl;
  has_table = refl;
}

-- A kernel that creates no /proc file.
abbrev full_host : Host
full_host = record host { proc_create = λ name. false }

free_entries-Hold : Hold table free_entries 9
free_entries-Hold = record { entry_0 = refl; entry_1 = refl; entry_2 = refl; entry_3 = refl }

free_entries-Apart : Apart free_entries
free_entries-Apart = record {
  apart_01 = λ e. grind arith;
  apart_02 = λ e. grind arith;
  apart_03 = λ e. grind arith;
  apart_12 = λ e. grind arith;
  apart_13 = λ e. grind arith;
  apart_23 = λ e. grind arith;
}

cleanup_module-init_module_example :
    let s = (cleanup_module host (init_module host (unloaded table)).1) in
    (s.0 ≡ some tt) × (s.1.table (pos 5) ≡ 9) × (s.1.present ≡ nothing_present)
cleanup_module-init_module_example =
    cleanup_module-init_module host table free_entries 9 (pos 5) host_works refl free_entries-Hold

init_module-table_example :
    let s = (init_module host (unloaded table)).1 in
    (s.table s.syscall_codes.sc_code_set_state ≡ 100)
    × (s.table s.syscall_codes.sc_code_reconf_add ≡ 101)
    × (s.table s.syscall_codes.sc_code_reconf_rm ≡ 102)
    × (s.table s.syscall_codes.sc_code_flush ≡ 103)
init_module-table_example =
    init_module-table host table free_entries 9 host_works refl free_entries-Apart

init_module-no_procfiles_example :
    ((init_module full_host (unloaded table)).0 ≡ some neg_einval)
    × ((init_module full_host (unloaded table)).1.table (negsuc 0) ≡ 0)
    × ((n : ℕ) → (init_module full_host (unloaded table)).1.table (pos n) ≡ table (pos n))
    × ((n : ℕ)
        → (init_module full_host (unloaded table)).1.table (negsuc (n + 1))
          ≡ table (negsuc (n + 1)))
init_module-no_procfiles_example =
    init_module-no_procfiles full_host table memory_works crypto_works refl refl

init_module-CleansUp_example : (init_module full_host (unloaded table)).1.present ≡ nothing_present
init_module-CleansUp_example =
    init_module-CleansUp full_host (unloaded table) neg_einval init_module-no_procfiles_example.0
      refl
