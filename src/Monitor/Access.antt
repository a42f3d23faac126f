-- ===== src/Monitor/Access.antt =====
-- Which accesses the handlers of probing/probing-handlers.c refuse, seen from the monitor: what it
-- protects forbids them.
use refmon.Prelude.{
  ℕ, ◌%◌, bit_or, Any, All, ◌≡◌, ◌≢◌, ◌↔◌, ◌⊎◌, inl, inr, refl, sym, ap, ◌∙◌, Option, some, List,
  [], ◌∷◌, arith, Bool-cases,
}
use mathlib.Core.Path.{subst}
use refmon.CStr.{Str, match_string}
use refmon.CStr.Match.{match_string_refl, match_string_iff}
use refmon.Kernel.{Kernel, Memory, FileSystem, Alloc}
use refmon.Model.{PathIdentifier, RegistryEntry, Registry}
use refmon.FsUtils.{resolve_links, ignore_absolute_paths, no_ino_no, extract_ino_no_from_path}
use refmon.FsUtils.Subpath.{IsCString}
use refmon.FsUtils.Search.{Covers}
use refmon.AddFile.Invariant.{Distinct}
use refmon.World.{World}
use refmon.Hooks.{krp_to_tailhook, krp_hook_open, krp_hook_rm, krp_hook_mkdir}
use refmon.Hooks.Verdict.{
  Resolves, at_vfs_open, krp_hook_open_iff, krp_hook_rm_iff, krp_hook_mkdir_iff,
}
use refmon.Syscalls.Tables.{Works}
use refmon.Monitor.{Protected, Monitor, Request}
use refmon.Monitor.View.{view, view_of_none}
use refmon.Monitor.Simulation.{Simulates, run_calls, serve_all, run_calls-Simulates}

-- What the probed functions are about to do to the dentry that they are called on.
pub data Access : Type 0 where
  opening : ℕ → Access
  removing making_directory : Access

-- The entry handler of the probe.
abbrev pub hook : Memory → FileSystem → Registry → ℕ → Access → Alloc (Option ℕ)
hook m f registry dentry (opening f_flags) = krp_hook_open m f registry (at_vfs_open dentry f_flags)
hook m f registry dentry removing = krp_hook_rm m f registry dentry
hook m f registry dentry making_directory = krp_hook_mkdir m f registry dentry

-- How the handler resolves the path of the dentry.
abbrev pub resolution : Access → ℕ
resolution (opening f_flags) = resolve_links
resolution removing = resolve_links
resolution making_directory = bit_or resolve_links ignore_absolute_paths

-- Something that is protected covers the path or the inode.
abbrev pub Guarded : FileSystem → Protected → PathIdentifier → Type 0
Guarded f m id = (p : Str) × (e : RegistryEntry) × (m p ≡ some e) × Covers f id e

abbrev at_path : FileSystem → Str → PathIdentifier
at_path f path = record { path = path; ino_no = extract_ino_no_from_path f path }

-- The monitor's rule.
abbrev pub Forbidden : FileSystem → Protected → Str → Access → Type 0
Forbidden f m path (opening f_flags) =
    ((f_flags % 4 ≡ 1) ⊎ (f_flags % 4 ≡ 2)) × Guarded f m (at_path f path)
Forbidden f m path removing =
    (extract_ino_no_from_path f path ≢ no_ino_no) × Guarded f m (at_path f path)
Forbidden f m path making_directory = Guarded f m (record { path = path; ino_no = no_ino_no })

module _ (P : RegistryEntry → Type 0) where
  -- In a list of distinct paths, what holds of an entry holds of one that the map shows.
  Any-view :
      (es : Registry)
      → Distinct es
      → Any P es
      → (p : Str) × (e : RegistryEntry) × (view es p ≡ some e) × P e
  unfolding view
  Any-view [] d a = absurd a
  Any-view (x ∷ es) d (inl h) =
      (x.registered.path, x, rw (match_string_refl x.registered.path) refl, h)
  Any-view (x ∷ es) d (inr a) =
      let (p, e, shown, h) = Any-view es d.1 a in
      elim (Bool-cases (match_string x.registered.path p)) [
        | inr other ↦ (p, e, rw other shown, h)
        | inl same ↦
            let hidden = view_of_none es x.registered.path d.0 in
            let here = ap (view es) ((match_string_iff x.registered.path p).0 same) in absurd (cc)
      ]

  view-Any : (es : Registry) (p : Str) (e : RegistryEntry) → view es p ≡ some e → P e → Any P es
  unfolding view
  view-Any [] p e shown h = cc
  view-Any (x ∷ es) p e shown h = elim (Bool-cases (match_string x.registered.path p)) [
    | inl here ↦ let same : x ≡ e = ground arith in inl (subst P (sym same) h)
    | inr other ↦ inr (view-Any es p e (rw other at shown) h)
  ]

Guarded-iff :
    (f : FileSystem) (es : Registry) (m : Protected) (id : PathIdentifier)
    → Distinct es
    → ((p : Str) → view es p ≡ m p)
    → Any (Covers f id) es ↔ Guarded f m id
Guarded-iff f es m id d same = (
  λ a. let (p, e, shown, h) = Any-view (Covers f id) es d a in (p, e, sym (same p) ∙ shown, h),
  λ g. let (p, e, shown, h) = g in view-Any (Covers f id) es p e (same p ∙ shown) h,
)

module _ (k : Kernel) (w : World) (a : Monitor) (dentry : ℕ) (path : Str) (works : Works k)
    (sim : Simulates w a) (text : IsCString path) where
  hook_iff :
      (x : Access) (n : ℕ)
      → Resolves k.memory k.files dentry (resolution x) path
      → ((hook k.memory k.files w.instance.registry dentry x n).0 ≡ some krp_to_tailhook)
        ↔ Forbidden k.files a.protected path x
  hook_iff (opening f_flags) n r =
      let verdict =
        krp_hook_open_iff k.memory k.files w.instance.registry dentry path works.memory works.paths
          text f_flags n r in
      let guarded =
        Guarded-iff k.files w.instance.registry a.protected (at_path k.files path)
          sim.formed.distinct sim.protected in
      (
        λ e. let (writes, any) = verdict.0 e in (writes, guarded.0 any),
        λ (writes, some_guard). verdict.1 (writes, guarded.1 some_guard),
      )
  hook_iff removing n r =
      let verdict =
        krp_hook_rm_iff k.memory k.files w.instance.registry dentry path works.memory works.paths
          text n r in
      let guarded =
        Guarded-iff k.files w.instance.registry a.protected (at_path k.files path)
          sim.formed.distinct sim.protected in
      (
        λ e. let (leads, any) = verdict.0 e in (leads, guarded.0 any),
        λ (leads, some_guard). verdict.1 (leads, guarded.1 some_guard),
      )
  hook_iff making_directory n r =
      let verdict =
        krp_hook_mkdir_iff k.memory k.files w.instance.registry dentry path works.memory works.paths
          text n r in
      let guarded =
        Guarded-iff k.files w.instance.registry a.protected
          (record { path = path; ino_no = no_ino_no }) sim.formed.distinct sim.protected in
      (λ e. guarded.0 (verdict.0 e), λ g. verdict.1 (guarded.1 g))

-- After whatever system calls with arguments that are not NULL, in kernels in which nothing fails, an
-- entry handler refuses an access to a dentry whose path resolves, and is still in its freed buffer
-- when it is read, exactly if the monitor that has served the same requests forbids it: an open by
-- vfs_open, if it is for writing and something that is protected covers the path or its inode; a
-- removal, if the path leads to an inode and is covered; the making or removing of a directory, if
-- the path is covered.
pub hook-Forbidden :
    (calls : List (Kernel × Request)) (w : World) (a : Monitor) (k : Kernel) (dentry : ℕ)
    (path : Str) (x : Access) (n : ℕ)
    → All (λ c. Works c.0) calls
    → Simulates w a
    → Works k
    → IsCString path
    → Resolves k.memory k.files dentry (resolution x) path
    → let registry = (run_calls calls w).1.instance.registry in
      ((hook k.memory k.files registry dentry x n).0 ≡ some krp_to_tailhook)
      ↔ Forbidden k.files (serve_all calls a).1.protected path x
hook-Forbidden calls w a k dentry path x n all sim works text r =
    hook_iff k (run_calls calls w).1 (serve_all calls a).1 dentry path works
      (run_calls-Simulates calls w a all sim).1 text x n r
