-- ===== src/ProcIo/Bounds.antt =====
-- What the file that lists the registry holds (io/procio.c): whole lines, as many as fit a page.
use refmon.Prelude.{
  ℕ, ◌+◌, ◌-◌, ◌<◌, ◌≤◌, ◌≡◌, ◌⊎◌, inl, inr, refl, sym, ap, ◌∙◌, [], ◌∷◌, ◌++◌, leb, leb→le, leb→lt,
  arith, Bool-cases, length, length-append,
}
use mathlib.Core.List.{append_assoc, append-nil}
use refmon.CStr.{Str}
use refmon.Model.{RegistryEntry, Registry}
use refmon.ProcIo.{printed, entry_line, print_entries}

-- The lines of the entries, one after the other.
abbrev pub lines : Registry → Str
lines [] = []
lines (e ∷ es) = entry_line e ++ lines es

-- What was printed behind `out` when `room` bytes were left: the lines of the first entries, which
-- leave room for a NUL, and all of them or as many as fit.
pub record Shown (es : Registry) (room : ℕ) : Type 0 where
  pub first : Registry
  pub rest : Registry
  pub split : es ≡ first ++ rest
  pub fits : length (lines first) < room
  pub full :
      (rest ≡ [])
      ⊎ ((e : RegistryEntry) × (tail : Registry) × (rest ≡ e ∷ tail)
          × (room ≤ length (lines first) + length (entry_line e)))

-- One more line fits before the others.
later_full :
    (e : RegistryEntry) (first rest : Registry) (room : ℕ)
    → length (entry_line e) < room
    → (rest ≡ [])
      ⊎ ((d : RegistryEntry) × (tail : Registry) × (rest ≡ d ∷ tail)
          × (room - length (entry_line e) ≤ length (lines first) + length (entry_line d)))
    → (rest ≡ [])
      ⊎ ((d : RegistryEntry) × (tail : Registry) × (rest ≡ d ∷ tail)
          × (room ≤ length (lines (e ∷ first)) + length (entry_line d)))
later_full e first rest room h (inl done) = inl done
later_full e first rest room h (inr (d, tail, split, over)) =
    inr (d, tail, split, omega (arith, length-append (entry_line e) (lines first)))

later_fits :
    (e : RegistryEntry) (first : Registry) (room : ℕ)
    → length (entry_line e) < room
    → length (lines first) < room - length (entry_line e)
    → length (lines (e ∷ first)) < room
later_fits e first room h k = omega (arith, length-append (entry_line e) (lines first))

pub print_entries-Shown :
    (es : Registry) (out : Str) (room : ℕ)
    → 0 < room
    → (s : Shown es room) × (print_entries es out room ≡ printed (out ++ lines s.first))
unfolding print_entries
print_entries-Shown [] out room h = (
  record { first = []; rest = []; split = refl; fits = h; full = inl refl },
  ap printed (sym (append-nil out)),
)
print_entries-Shown (e ∷ es) out room h = elim (Bool-cases (leb room (length (entry_line e)))) [
  | inl over ↦ (
    record {
      first = [];
      rest = e ∷ es;
      split = refl;
      fits = h;
      full = inr (e, es, refl, omega (arith, leb→le room (length (entry_line e)) over));
    },
    rw over (ap printed (sym (append-nil out))),
  )
  | inr fits ↦
      let small = leb→lt room (length (entry_line e)) fits in
      let (s, run) =
        print_entries-Shown es (out ++ entry_line e) (room - length (entry_line e)) (omega arith) in
      (
        record {
          first = e ∷ s.first;
          rest = s.rest;
          split = ap (λ t. e ∷ t) s.split;
          fits = later_fits e s.first room small s.fits;
          full = later_full e s.first s.rest room small s.full;
        },
        rw fits (run ∙ ap printed (append_assoc out (entry_line e) (lines s.first))),
      )
]
