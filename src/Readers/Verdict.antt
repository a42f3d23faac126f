-- ===== src/Readers/Verdict.antt =====
-- What the loop of `search_entry` (misc/fsutils.c) comes to among the system calls.
use refmon.Prelude.{
  ℕ, ◌+◌, true, ◌≡◌, ◌≢◌, refl, sym, ap, ◌∙◌, List, [], ◌∷◌, arith, length, length-append, inl, inr,
  Bool-cases,
}
use mathlib.Core.Path.{subst}
use refmon.Readers.{
  end, poison, node, In, KernelList, Place, reading, found, not_found, crashed, Search, matches,
  read, reads, State, begin, Step, turn, add, del, Reach, here, later,
}
use refmon.Readers.Undisturbed.{verdict, reads-verdict, reads-found}
use refmon.Readers.Interleaved.{AllCareful, IsCareful, Inv, At, At-first, At-read, At-add, At-del}

module _ (l : KernelList) (q : Search) (Wanted : ℕ → Type 0)
    (wanted : (k : ℕ) → Wanted k → matches q k ≡ true) where
  Step-Inv :
      {s t : State l q} (st : Step l q s t)
      → IsCareful l q Wanted st
      → Inv l q Wanted s
      → Inv l q Wanted t
  Step-Inv {s} turn careful (h, a) = (h, At-read l q Wanted wanted s.links s.nodes s.place h a)
  Step-Inv {s} (add n new) careful (h, a) =
      (l.Holds-list_add_tail s.links s.nodes n h new, At-add l q Wanted s.nodes n s.place a)
  Step-Inv {s} (del n inside) (apart, keep) (h, a) = (
    l.Holds-list_del s.links s.nodes n h inside,
    At-del l q Wanted s.nodes n s.place apart keep a,
  )

  begin-Inv :
      (s : l.Links) (ns : List ℕ)
      → l.Holds s ns
      → ((k : ℕ) → Wanted k → In k ns)
      → Inv l q Wanted (begin l q s ns)
  begin-Inv s ns h has = (
    h,
    subst (λ x. At l q Wanted ns (reading x)) (sym (l.Holds-head_next s ns h))
        (At-first l q Wanted [] ns has),
  )

  Reach-Inv :
      {s t : State l q} (r : Reach l q s t)
      → AllCareful l q Wanted r
      → Inv l q Wanted s
      → Inv l q Wanted t
  Reach-Inv here careful i = i
  Reach-Inv (later r st) (careful, last) i = Step-Inv st last (Reach-Inv r careful i)

module _ (l : KernelList) (q : Search) (s : l.Links) (ns : List ℕ) (h : l.Holds s ns) where
  -- A search without the lock is not harmed by what the system calls add and remove meanwhile, if
  -- none of them removes the entry at which it stands: its next turn reads no poisoned pointer.
  pub Reach-no_crash :
      {t : State l q} (r : Reach l q (begin l q s ns) t)
      → AllCareful l q (λ k. ⊥) r
      → read l q t.links t.place ≢ crashed
  Reach-no_crash {t} r careful =
      let (holds, at) =
        Reach-Inv l q (λ k. ⊥) (λ k w. absurd w) r careful
          (begin-Inv l q (λ k. ⊥) (λ k w. absurd w) s ns h (λ k w. absurd w)) in
      not_crashed t.nodes (read l q t.links t.place)
        (At-read l q (λ k. ⊥) (λ k w. absurd w) t.links t.nodes t.place holds at)
    where
      not_crashed : (nodes : List ℕ) (p : Place) → At l q (λ k. ⊥) nodes p → p ≢ crashed
      not_crashed nodes (reading x) a e = cc
      not_crashed nodes (found m) a e = cc
      not_crashed nodes not_found a e = cc
      not_crashed nodes crashed a e = a

  verdict-found :
      (n : ℕ) (ms : List ℕ)
      → matches q n ≡ true
      → In n ms
      → (k : ℕ) × (verdict q ms ≡ found k) × (matches q k ≡ true)
  verdict-found n [] hit inside = absurd inside
  verdict-found n (m ∷ ms) hit inside = elim (Bool-cases (matches q m)) [
    | inl first_hit ↦ (m, rw first_hit refl, first_hit)
    | inr miss ↦ elim inside [
      | inl e ↦ absurd (let same = ap (matches q) e ∙ hit in cc)
      | inr behind ↦ let (k, v, fits) = verdict-found n ms hit behind in (k, rw miss v, fits)
    ]
  ]

  finds :
      (t : State l q) (n : ℕ) (p : Place)
      → l.Holds t.links t.nodes
      → matches q n ≡ true
      → At l q (λ k. k ≡ n) t.nodes p
      → (k : ℕ) × (reads l q (length t.nodes + 1) t.links p ≡ found k) × (matches q k ≡ true)
  finds t n (reading end) holds hit a = absurd (a n refl)
  finds t n (reading poison) holds hit a = absurd a
  finds t n (reading (node m)) holds hit a =
      let (k, v, fits) = verdict-found n (m ∷ a.behind) hit (a.has n refl) in
      let size = ap length a.split ∙ length-append a.before (m ∷ a.behind) in
      (
        k,
        reads-verdict l q t.links a.before (m ∷ a.behind) (length t.nodes + 1)
              (subst (l.Holds t.links) a.split holds) (omega arith)
            ∙ v,
        fits,
      )
  finds t n (found m) holds hit a = (m, reads-found l q t.links (length t.nodes + 1) m, a)
  finds t n not_found holds hit a = absurd (a n refl)
  finds t n crashed holds hit a = absurd a

  -- An entry that matches keeps the search from ending with nothing: if the system calls between the turns
  -- of the search remove neither this entry nor, each time, the one at which the search stands,
  -- whatever else they add and remove, then the search ends at some entry that matches, as many turns
  -- later as there are entries, and one.
  pub Reach-finds :
      (n : ℕ) {t : State l q} (r : Reach l q (begin l q s ns) t)
      → In n ns
      → matches q n ≡ true
      → AllCareful l q (λ k. k ≡ n) r
      → (k : ℕ) × (reads l q (length t.nodes + 1) t.links t.place ≡ found k) × (matches q k ≡ true)
  Reach-finds n {t} r inside hit careful =
      let fits = λ (k : ℕ) (e : k ≡ n). ap (matches q) e ∙ hit in
      let (holds, at) =
        Reach-Inv l q (λ k. k ≡ n) fits r careful
          (begin-Inv l q (λ k. k ≡ n) fits s ns h (λ k e. subst (λ x. In x ns) (sym e) inside)) in
      finds t n t.place holds hit at
