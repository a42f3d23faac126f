-- ===== src/System/Formed.antt =====
-- What the calls on the registry leave of it, and what they do not touch.
use refmon.Prelude.{ℕ, ◌≡◌, ◌⊎◌, inl, inr, Option, Option-cases, [], ℤ, arith, erase_idx}
use refmon.CStr.{Str}
use refmon.Kernel.{Kernel}
use refmon.Kernel.Documented.{MemoryWorks, PathsAbsolute}
use refmon.Safety.{all_checks, safety_checks, sanitize_user_input_alloc}
use refmon.AddFile.{add_file}
use refmon.AddFile.Invariant.{WellFormed, WellFormed-erase_idx, add_file-WellFormed}
use refmon.World.{World, Run, locked}
use refmon.Handlers.{
  with_instance_lock, reconf_add_body, reconf_rm_body, flush_body, find_for_removal,
}
use refmon.Syscalls.Tables.{unlink_each_all}

-- Only the registry and the count of calls may differ.
abbrev pub SameRest : World → World → Type 0
SameRest w u =
    (u.instance.state ≡ w.instance.state)
    × (u.instance.password ≡ w.instance.password)
    × (u.instance.spinlock_probing ≡ w.instance.spinlock_probing)
    × (u.probes ≡ w.probes)
    × (u.work ≡ w.work)

-- A body that keeps the registry well formed and touches nothing else.
pub record KeepsFormed (body : Run ℤ) : Type 0 where
  pub formed :
      (w : World) → WellFormed w.instance.registry → WellFormed (body w).1.instance.registry
  pub rest : (w : World) → SameRest w (body w).1

with_instance_lock_registry :
    (body : Run ℤ) (w : World)
    → ((with_instance_lock body w).1.instance.registry ≡ w.instance.registry)
      ⊎ ((with_instance_lock body w).1.instance.registry ≡ (body (locked w)).1.instance.registry)
unfolding with_instance_lock
with_instance_lock_registry body w = ground arith

pub with_instance_lock-KeepsFormed :
    (body : Run ℤ) → KeepsFormed body → KeepsFormed (with_instance_lock body)
unfolding with_instance_lock
with_instance_lock-KeepsFormed body keeps = record {
  formed = λ w wf. elim (with_instance_lock_registry body w) [
    | inl same ↦ rw same wf
    | inr from ↦ rw from (keeps.formed (locked w) wf)
  ];
  rest = λ w. let r = keeps.rest (locked w) in ground arith;
}

module _ (k : Kernel) (memory : MemoryWorks k.memory) (paths : PathsAbsolute k.files) where
  reconf_add_registry :
      (p q : Option Str) (w : World)
      → ((reconf_add_body k p q w).1.instance.registry ≡ w.instance.registry)
        ⊎ ((s : Str) × (n : ℕ) × ((reconf_add_body k p q w).1.instance.registry
              ≡ (add_file k.memory k.files w.instance.registry s n).0.1))
  unfolding reconf_add_body
  reconf_add_registry p q w =
      let checked = safety_checks k w.instance all_checks q w.calls in
      let sanitized = sanitize_user_input_alloc k.memory p checked.1 in
      elim (Option-cases sanitized.0) [
        | inl x ↦ inl (ground arith)
        | inr (o, x) ↦ elim (Option-cases o) [
          | inl y ↦ inl (ground arith)
          | inr (s, y) ↦
              let split : ((reconf_add_body k p q w).1.instance.registry ≡ w.instance.registry)
                  ⊎ ((reconf_add_body k p q w).1.instance.registry
                      ≡ (add_file k.memory k.files w.instance.registry s sanitized.1).0.1) =
                ground arith in
              elim split [ inl z ↦ inl z | inr z ↦ inr (s, sanitized.1, z) ]
        ]
      ]

  reconf_add_rest : (p q : Option Str) (w : World) → SameRest w (reconf_add_body k p q w).1
  unfolding reconf_add_body
  reconf_add_rest p q w = ground arith

  pub reconf_add-KeepsFormed : (p q : Option Str) → KeepsFormed (reconf_add_body k p q)
  reconf_add-KeepsFormed p q = record {
    formed = λ w wf. elim (reconf_add_registry p q w) [
      | inl same ↦ rw same wf
      | inr (s, n, from) ↦
          rw from (add_file-WellFormed k.memory k.files w.instance.registry s n memory paths wf)
    ];
    rest = reconf_add_rest p q;
  }

module _ (k : Kernel) where
  reconf_rm_registry :
      (p q : Option Str) (w : World)
      → ((reconf_rm_body k p q w).1.instance.registry ≡ w.instance.registry)
        ⊎ ((i : ℕ) × ((reconf_rm_body k p q w).1.instance.registry
              ≡ erase_idx w.instance.registry i))
  unfolding reconf_rm_body
  reconf_rm_registry p q w =
      let checked = safety_checks k w.instance all_checks q w.calls in
      let sanitized = sanitize_user_input_alloc k.memory p checked.1 in
      elim (Option-cases sanitized.0) [
        | inl x ↦ inl (ground arith)
        | inr (o, x) ↦ elim (Option-cases o) [
          | inl y ↦ inl (ground arith)
          | inr (s, y) ↦ elim (Option-cases (find_for_removal k s w.instance sanitized.1).0) [
            | inl z ↦ inl (ground arith)
            | inr (i, z) ↦
                let split : ((reconf_rm_body k p q w).1.instance.registry ≡ w.instance.registry)
                    ⊎ ((reconf_rm_body k p q w).1.instance.registry
                        ≡ erase_idx w.instance.registry i) =
                  ground arith in
                elim split [ inl u ↦ inl u | inr u ↦ inr (i, u) ]
          ]
        ]
      ]

  reconf_rm_rest : (p q : Option Str) (w : World) → SameRest w (reconf_rm_body k p q w).1
  unfolding reconf_rm_body
  reconf_rm_rest p q w = ground arith

  pub reconf_rm-KeepsFormed : (p q : Option Str) → KeepsFormed (reconf_rm_body k p q)
  reconf_rm-KeepsFormed p q = record {
    formed = λ w wf. elim (reconf_rm_registry p q w) [
      | inl same ↦ rw same wf
      | inr (i, from) ↦ rw from (WellFormed-erase_idx w.instance.registry i wf)
    ];
    rest = reconf_rm_rest p q;
  }

  flush_registry_cases :
      (q : Option Str) (w : World)
      → ((flush_body k q w).1.instance.registry ≡ w.instance.registry)
        ⊎ ((flush_body k q w).1.instance.registry ≡ [])
  unfolding flush_body
  flush_registry_cases q w = ground (arith, unlink_each_all w.instance.registry)

  flush_rest : (q : Option Str) (w : World) → SameRest w (flush_body k q w).1
  unfolding flush_body
  flush_rest q w = ground arith

  pub flush-KeepsFormed : (q : Option Str) → KeepsFormed (flush_body k q)
  flush-KeepsFormed q = record {
    formed = λ w wf. elim (flush_registry_cases q w) [
      | inl same ↦ rw same wf
      | inr empty ↦ rw empty (record { good = tt; distinct = tt })
    ];
    rest = flush_rest q;
  }
