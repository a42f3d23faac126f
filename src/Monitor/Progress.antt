-- ===== src/Monitor/Progress.antt =====
-- What root can always bring about: a path comes under protection.
use refmon.Prelude.{
  Bool, sym, ℕ, ◌%◌, Any, true, false, ◌≡◌, ◌⊎◌, inl, inr, refl, ap, ◌∙◌, Option, none, some, List,
  [], ◌∷◌, arith, ℤ, pos, Bool-cases,
}
use refmon.CStr.{Str, codes, match_string, strncmp_is_zero}
use refmon.CStr.Match.{match_string_refl}
use refmon.Kernel.{Kernel}
use refmon.Model.{rec_on, RegistryEntry, Registry, is_state_valid, string_to_state, is_on}
use refmon.FsUtils.{resolve_links, ignore_absolute_paths, extract_ino_no_from_path}
use refmon.FsUtils.Resolve.{canonical}
use refmon.FsUtils.Subpath.{IsCString}
use refmon.FsUtils.Search.{Covers}
use refmon.Safety.Decision.{hash}
use refmon.World.{World}
use mathlib.Core.Path.{subst}
use refmon.Kernel.Documented.{KprobesWork}
use refmon.Probing.Switch.{ProbesAre, probing_update-ProbesAre}
use refmon.Handlers.{reconf_add_body, do_reconf_add}
use refmon.Syscalls.{sys_set_state, sys_reconf_add, syscall}
use refmon.Syscalls.State.{sys_set_state_lem, with_state}
use refmon.System.Formed.{with_instance_lock-KeepsFormed, reconf_add-KeepsFormed}
use refmon.Hooks.{krp_to_tailhook, krp_hook_open}
use refmon.Hooks.Verdict.{Resolves, at_vfs_open, krp_hook_open_iff}
use refmon.Syscalls.Tables.{Works}
use refmon.Monitor.{Monitor, Request, set_state, add, insert, allowed, new_entry, add_path, serve}
use refmon.Monitor.View.{view}
use refmon.Monitor.Refinement.{new_entry_path}
use refmon.Monitor.Simulation.{Simulates, run_calls, serve_all, run_calls-Simulates}

-- Root, with the right password, and a path that can be registered as this entry and is not yet.
pub record CanProtect (k : Kernel) (a : Monitor) (path password q : Str) (e : RegistryEntry)
    : Type 0 where
  pub is_root : k.current_euid ≡ 0
  pub right_password : match_string (hash k password) a.stored ≡ true
  pub some_password : match_string password [] ≡ false
  pub some_path : match_string path [] ≡ false
  pub canonical_path : canonical k.files path ignore_absolute_paths ≡ some q
  pub not_registered : a.protected q ≡ none
  pub can_register : new_entry k.files path q ≡ some e

abbrev rec_on_text : Str
rec_on_text = codes "REC-ON"

serve_rec_on :
    (k : Kernel) (a : Monitor)
    → k.current_euid ≡ 0
    → serve k (set_state rec_on_text) a ≡ (pos 0, record a { state = rec_on })
unfolding serve is_state_valid string_to_state match_string strncmp_is_zero
serve_rec_on k a r = rw r refl

may_add :
    (k : Kernel) (a : Monitor) (path password q : Str) (e : RegistryEntry)
    → CanProtect k a path password q e
    → a.state ≡ rec_on
    → allowed k a password ≡ pos 0
unfolding allowed
may_add k a path password q e can on =
    rw (can.is_root, on, can.some_password, can.right_password) refl

adds :
    (k : Kernel) (a : Monitor) (path password q : Str) (e : RegistryEntry)
    → CanProtect k a path password q e
    → add_path k.files path a.protected ≡ (pos 0, insert e a.protected)
unfolding add_path
adds k a path password q e can = ground arith

serve-add :
    (k : Kernel) (a : Monitor) (path password q : Str) (e : RegistryEntry)
    → CanProtect k a path password q e
    → a.state ≡ rec_on
    → serve k (add path password) a ≡ (pos 0, record a { protected = insert e a.protected })
unfolding serve
serve-add k a path password q e can on =
    rw (may_add k a path password q e can on, can.some_path, adds k a path password q e can) refl

-- What is seen at a path is in the list.
view-Any : (es : Registry) (q : Str) (e : RegistryEntry) → view es q ≡ some e → Any (λ x. x ≡ e) es
unfolding view
view-Any [] q e h = cc
view-Any (x ∷ es) q e h = elim (Bool-cases (match_string x.registered.path q)) [
  | inl here ↦ inl (ground arith)
  | inr other ↦ inr (view-Any es q e (ground arith))
]

Any-map :
    (P Q : RegistryEntry → Type 0) (es : Registry)
    → ((x : RegistryEntry) → P x → Q x)
    → Any P es
    → Any Q es
Any-map P Q [] h a = absurd a
Any-map P Q (x ∷ es) h (inl p) = inl (h x p)
Any-map P Q (x ∷ es) h (inr a) = inr (Any-map P Q es h a)

sets_state :
    (k : Kernel) (s : Str) (w : World)
    → k.current_euid ≡ 0
    → is_state_valid s ≡ true
    → w.instance.spinlock_inst ≡ false
    → (syscall k (sys_set_state (some s)) w).1 ≡ with_state k s w
sets_state k s w r valid free = ground (arith, sys_set_state_lem k s w free)

rec_on_switches :
    (k : Kernel) (w : World) (was : Bool)
    → k.current_euid ≡ 0
    → w.instance.spinlock_inst ≡ false
    → KprobesWork k.kprobes
    → ProbesAre was w.probes
    → ProbesAre true (syscall k (sys_set_state (some rec_on_text)) w).1.probes
unfolding is_state_valid string_to_state match_string strncmp_is_zero is_on
rec_on_switches k w was r free works are =
    subst (λ (u : World). ProbesAre true u.probes) (sym (sets_state k rec_on_text w r refl free))
      (probing_update-ProbesAre k.kprobes true was w.probes works are).1

add_keeps_probes :
    (k : Kernel) (path password : Str) (w : World)
    → Works k
    → (syscall k (sys_reconf_add (some path) (some password)) w).1.probes ≡ w.probes
unfolding syscall do_reconf_add
add_keeps_probes k path password w works =
    let keeps =
      with_instance_lock-KeepsFormed (reconf_add_body k (some path) (some password))
        (reconf_add-KeepsFormed k works.memory works.paths (some path) (some password)) in
    let (state, stored, probing, probes, work) = keeps.rest w in probes

-- The two calls that bring a path under protection.
abbrev pub two_calls : Kernel → Str → Str → List (Kernel × Request)
two_calls k path password = (k, set_state rec_on_text) ∷ (k, add path password) ∷ []

module _ (k : Kernel) (w : World) (a : Monitor) (path password q : Str) (e : RegistryEntry)
    (works : Works k) (sim : Simulates w a) (can : CanProtect k a path password q e) where
  answers : serve_all (two_calls k path password) a ≡ (
    some (pos 0) ∷ some (pos 0) ∷ [],
    record a { state = rec_on; protected = insert e a.protected },
  )
  unfolding serve_all
  answers =
      rw
        (
          serve_rec_on k a can.is_root,
          serve-add k (record a { state = rec_on }) path password q e
              (record {
                is_root = can.is_root;
                right_password = can.right_password;
                some_password = can.some_password;
                some_path = can.some_path;
                canonical_path = can.canonical_path;
                not_registered = can.not_registered;
                can_register = can.can_register;
              })
              refl,
        )
        refl

  probes_on :
      (was : Bool)
      → KprobesWork k.kprobes
      → ProbesAre was w.probes
      → ProbesAre true (run_calls (two_calls k path password) w).1.probes
  unfolding run_calls
  probes_on was kprobes are =
      let w1 = (syscall k (sys_set_state (some rec_on_text)) w).1 in
      subst (ProbesAre true) (sym (add_keeps_probes k path password w1 works))
        (rec_on_switches k w was can.is_root sim.free kprobes are)

  -- From any world between two calls in which the probes are all on or all off, root with the right
  -- password can set the state to REC-ON and then register a path that is not empty, not registered
  -- yet and leads to inodes: both calls return 0 if nothing fails, after them all five probes are
  -- on with the handlers that they are declared with, and the handler of an open refuses every open
  -- for writing by vfs_open of a dentry whose path resolves to that of the new entry and is still
  -- in its freed buffer when it is read.
  pub root_can_protect :
      (was : Bool) (dentry f_flags n : ℕ)
      → KprobesWork k.kprobes
      → ProbesAre was w.probes
      → Resolves k.memory k.files dentry resolve_links e.resolved.path
      → IsCString e.resolved.path
      → (f_flags % 4 ≡ 1) ⊎ (f_flags % 4 ≡ 2)
      → let (rets, u) = run_calls (two_calls k path password) w in
        (rets ≡ some (pos 0) ∷ some (pos 0) ∷ [])
        × (u.instance.state ≡ rec_on)
        × ProbesAre true u.probes
        × ((krp_hook_open k.memory k.files u.instance.registry (at_vfs_open dentry f_flags) n).0
            ≡ some krp_to_tailhook)
  root_can_protect was dentry f_flags n kprobes are resolves text writes =
      let (rets, last) =
        run_calls-Simulates (two_calls k path password) w a (works, (works, tt)) sim in
      let u = (run_calls (two_calls k path password) w).1 in
      let at_q = new_entry_path k.files path q e can.can_register in
      let inserted : insert e a.protected q ≡ some e =
        ground (arith, ap (λ t. match_string t q) at_q, match_string_refl q) in
      let seen : view u.instance.registry q ≡ some e =
        last.protected q
        ∙ ap (λ (s : List (Option ℤ) × Monitor). s.1.protected q) answers
        ∙ inserted in
      let covered =
        Any-map (λ x. x ≡ e)
          (Covers k.files (record {
            path = e.resolved.path;
            ino_no = extract_ino_no_from_path k.files e.resolved.path;
          }))
          u.instance.registry (λ x same. inl (ap (λ (y : RegistryEntry). y.resolved.path) same))
          (view-Any u.instance.registry q e seen) in
      (
        rets ∙ ap (λ (s : List (Option ℤ) × Monitor). s.0) answers,
        last.state ∙ ap (λ (s : List (Option ℤ) × Monitor). s.1.state) answers,
        probes_on was kprobes are,
        (krp_hook_open_iff k.memory k.files u.instance.registry dentry e.resolved.path works.memory
              works.paths text f_flags n resolves).1
            (writes, covered),
      )
