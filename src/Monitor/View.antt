-- ===== src/Monitor/View.antt =====
-- The map that a registry stands for: its order and its places are forgotten.
use refmon.Prelude.{
  ℕ, suc, true, false, ◌≡◌, ◌≢◌, refl, ap, ◌∙◌, none, some, [], ◌∷◌, ◌++◌, arith, All, Bool-cases,
  inl, inr, erase_idx, Option-cases, if◌then◌else◌, ◌⊎◌,
}
use refmon.CStr.{Str, match_string}
use refmon.CStr.Match.{match_string_iff}
use refmon.Kernel.{FileSystem}
use refmon.Model.{RegistryEntry, Registry}
use refmon.FsUtils.{find_index}
use refmon.AddFile.Invariant.{Distinct, by_path, by_path_lem}
use refmon.Monitor.{Protected, insert, delete}

unfoldable pub view : Registry → Protected
view [] p = none
view (e ∷ es) p = if match_string e.registered.path p then some e else view es p

-- An entry at the end is seen where no other has its path.
view_append :
    (es : Registry) (e : RegistryEntry) (p : Str)
    → view (es ++ e ∷ []) p ≡ elim (view es p) [
      | some x ↦ some x
      | none ↦ if match_string e.registered.path p then some e else none
    ]
unfolding view
view_append [] e p = refl
view_append (x ∷ es) e p = ground (arith, view_append es e p)

pub view-insert :
    (es : Registry) (e : RegistryEntry) (p : Str)
    → view es e.registered.path ≡ none
    → view (es ++ e ∷ []) p ≡ insert e (view es) p
view-insert es e p fresh = elim (Bool-cases (match_string e.registered.path p)) [
  | inl same ↦
      let here = ap (view es) ((match_string_iff e.registered.path p).0 same) in
      ground (arith, view_append es e p, same, here, fresh)
  | inr other ↦ ground (arith, view_append es e p, other)
]

pub view_of_none :
    (es : Registry) (q : Str) → All (λ x. q ≢ x.registered.path) es → view es q ≡ none
unfolding view
view_of_none [] q h = refl
view_of_none (e ∷ es) q h =
    ground (arith, match_string_iff e.registered.path q, view_of_none es q h.1)

module _ (f : FileSystem) (q : Str) where
  -- The search by a registered path finds what the map has there.
  pub find_index-view :
      (es : Registry)
      → ((find_index (by_path f q) es ≡ none) × (view es q ≡ none))
        ⊎ ((i : ℕ) × (e : RegistryEntry) × (find_index (by_path f q) es ≡ some i)
            × (view es q ≡ some e))
  unfolding find_index view
  find_index-view [] = inl (refl, refl)
  find_index-view (e ∷ es) = elim (Bool-cases (match_string e.registered.path q)) [
    | inl here ↦ inr (0, e, ground (arith, by_path_lem f q e), ground arith)
    | inr other ↦ elim (find_index-view es) [
      | inl (n, m) ↦ inl (ground (arith, by_path_lem f q e), ground arith)
      | inr (i, x, n, m) ↦ inr (suc i, x, ground (arith, by_path_lem f q e), ground arith)
    ]
  ]

  without_head :
      (e : RegistryEntry) (es : Registry) (p : Str)
      → match_string e.registered.path q ≡ true
      → All (λ x. e.registered.path ≢ x.registered.path) es
      → view es p ≡ delete q (view (e ∷ es)) p
  unfolding view
  without_head e es p here apart = elim (Bool-cases (match_string q p)) [
    | inl same ↦
        let at_p = (match_string_iff e.registered.path q).0 here ∙ (match_string_iff q p).0 same in
        ground (arith, same, rw at_p at (view_of_none es e.registered.path apart))
    | inr different ↦
        let at_q = (match_string_iff e.registered.path q).0 here in
        ground (arith, different, ap (λ t. match_string t p) at_q)
  ]

  behind_head :
      (e : RegistryEntry) (es : Registry) (j : ℕ) (p : Str)
      → match_string e.registered.path q ≡ false
      → view (erase_idx es j) p ≡ delete q (view es) p
      → view (e ∷ erase_idx es j) p ≡ delete q (view (e ∷ es)) p
  unfolding view
  behind_head e es j p other ih = elim (Bool-cases (match_string q p)) [
    | inl same ↦
        let at_p = (match_string_iff q p).0 same in
        ground (arith, same, ap (match_string e.registered.path) at_p)
    | inr different ↦ ground (arith, different)
  ]

  -- Without the first entry of a path, a list of distinct paths shows nothing there.
  pub view-delete :
      (es : Registry) (i : ℕ) (p : Str)
      → Distinct es
      → find_index (by_path f q) es ≡ some i
      → view (erase_idx es i) p ≡ delete q (view es) p
  unfolding find_index view
  view-delete [] i p d h = absurd (ground arith)
  view-delete (e ∷ es) i p d h = elim (Bool-cases (match_string e.registered.path q)) [
    | inl here ↦
        let at_0 : i ≡ 0 = ground (arith, by_path_lem f q e) in
        rw at_0 (without_head e es p here d.0)
    | inr other ↦ elim (Option-cases (find_index (by_path f q) es)) [
      | inl missed ↦ absurd (ground (arith, by_path_lem f q e))
      | inr (j, found) ↦
          let later : i ≡ suc j = ground (arith, by_path_lem f q e) in
          rw later (behind_head e es j p other (view-delete es j p d.1 found))
    ]
  ]
