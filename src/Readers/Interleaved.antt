-- ===== src/Readers/Interleaved.antt =====
-- The loop of `search_entry` (misc/fsutils.c) when system calls change the registry between its
-- turns, but do not remove the entry at which it stands.
use refmon.Prelude.{
  ℕ, true, false, ◌≡◌, ◌≢◌, refl, sym, ap, ◌∙◌, inl, inr, List, [], ◌∷◌, ◌++◌, Bool-cases, ==_iff,
  ◌==◌,
}
use mathlib.Core.List.{append_assoc}
use mathlib.Core.Path.{subst}
use refmon.Readers.{
  end, poison, node, first, without, In, KernelList, Place, reading, found, not_found, crashed,
  Search, matches, read, State, Step, turn, add, del, Reach, here, later,
}

In-append : (k : ℕ) (ns ms : List ℕ) → In k ns → In k (ns ++ ms)
In-append k [] ms h = absurd h
In-append k (n ∷ ns) ms (inl e) = inl e
In-append k (n ∷ ns) ms (inr h) = inr (In-append k ns ms h)

In-without : (k n : ℕ) (ns : List ℕ) → k ≢ n → In k ns → In k (without n ns)
In-without k n [] ne h = h
In-without k n (m ∷ ms) ne (inl e) = elim (Bool-cases (m == n)) [
  | inl same ↦ absurd (ne (sym e ∙ (==_iff m n).0 same))
  | inr other ↦ rw other (inl e)
]
In-without k n (m ∷ ms) ne (inr h) = elim (Bool-cases (m == n)) [
  | inl same ↦ rw same h
  | inr other ↦ rw other (inr (In-without k n ms ne h))
]

-- The place of another node after a removal: what is behind it only loses the removed one.
pub record Split (nodes : List ℕ) (m : ℕ) (Wanted : ℕ → Type 0) : Type 0 where
  pub before : List ℕ
  pub behind : List ℕ
  pub split : nodes ≡ before ++ m ∷ behind
  pub has : (k : ℕ) → Wanted k → In k (m ∷ behind)

module _ (n m : ℕ) (ne : m ≢ n) (Wanted : ℕ → Type 0) (kept : (k : ℕ) → Wanted k → k ≢ n) where
  Split-without :
      (xs ys : List ℕ)
      → ((k : ℕ) → Wanted k → In k (m ∷ ys))
      → Split (without n (xs ++ m ∷ ys)) m Wanted
  Split-without [] ys has = elim (Bool-cases (m == n)) [
    | inl same ↦ absurd (ne ((==_iff m n).0 same))
    | inr other ↦ record {
      before = [];
      behind = without n ys;
      split = rw other refl;
      has = λ k w. elim (has k w) [ inl e ↦ inl e | inr h ↦ inr (In-without k n ys (kept k w) h) ];
    }
  ]
  Split-without (x ∷ xs) ys has = elim (Bool-cases (x == n)) [
    | inl same ↦ record { before = xs; behind = ys; split = rw same refl; has = has }
    | inr other ↦
        let rest = Split-without xs ys has in
        record {
          before = x ∷ rest.before;
          behind = rest.behind;
          split = rw other (ap (λ r. x ∷ r) rest.split);
          has = rest.has;
        }
  ]

module _ (l : KernelList) (q : Search) (Wanted : ℕ → Type 0) where
  -- No system call removes the entry at which the reader stands, or one that is wanted.
  abbrev pub IsCareful : {s t : State l q} → Step l q s t → Type 0
  IsCareful turn = Unit
  IsCareful (add n new) = Unit
  IsCareful {s} (del n inside) = (s.place ≢ reading (node n)) × (Wanted n → ⊥)

  abbrev pub AllCareful : {s t : State l q} → Reach l q s t → Type 0
  AllCareful here = Unit
  AllCareful (later r st) = AllCareful r × IsCareful st

  -- Where the reader may stand: all that is wanted is still before it, or it has found something.
  abbrev pub At : List ℕ → Place → Type 0
  At nodes (reading end) = (k : ℕ) → Wanted k → ⊥
  At nodes (reading poison) = ⊥
  At nodes (reading (node m)) = Split nodes m Wanted
  At nodes (found m) = matches q m ≡ true
  At nodes not_found = (k : ℕ) → Wanted k → ⊥
  At nodes crashed = ⊥

  abbrev pub Inv : State l q → Type 0
  Inv s = l.Holds s.links s.nodes × At s.nodes s.place

  pub At-first :
      (before behind : List ℕ)
      → ((k : ℕ) → Wanted k → In k behind)
      → At (before ++ behind) (reading (first behind))
  At-first before [] has = has
  At-first before (m ∷ ys) has = record { before = before; behind = ys; split = refl; has = has }

  module _ (wanted : (k : ℕ) → Wanted k → matches q k ≡ true) where
    -- What was wanted and is not at the node that did not match is behind it.
    passed :
        (m : ℕ) (ys : List ℕ)
        → matches q m ≡ false
        → ((k : ℕ) → Wanted k → In k (m ∷ ys))
        → (k : ℕ) → Wanted k
        → In k ys
    passed m ys miss has k w = elim (has k w) [
      | inl e ↦ let hit = ap (matches q) e ∙ wanted k w in absurd (cc)
      | inr h ↦ h
    ]

    pub At-read :
        (s : l.Links) (nodes : List ℕ) (p : Place)
        → l.Holds s nodes
        → At nodes p
        → At nodes (read l q s p)
    unfolding read
    At-read s nodes (reading end) h a = a
    At-read s nodes (reading poison) h a = absurd a
    At-read s nodes (reading (node m)) h a = elim (Bool-cases (matches q m)) [
      | inl hit ↦ rw hit hit
      | inr miss ↦
          let on = l.Holds-next s a.before a.behind m (subst (l.Holds s) a.split h) in
          let behind = passed m a.behind miss a.has in
          let there = At-first (a.before ++ m ∷ []) a.behind behind in
          let all = append_assoc a.before (m ∷ []) a.behind ∙ sym a.split in
          rw (miss, on) (subst (λ ns. At ns (reading (first a.behind))) all there)
    ]
    At-read s nodes (found m) h a = a
    At-read s nodes not_found h a = a
    At-read s nodes crashed h a = absurd a

  pub At-add : (nodes : List ℕ) (n : ℕ) (p : Place) → At nodes p → At (nodes ++ n ∷ []) p
  At-add nodes n (reading end) a = a
  At-add nodes n (reading poison) a = absurd a
  At-add nodes n (reading (node m)) a = record {
    before = a.before;
    behind = a.behind ++ n ∷ [];
    split = ap (λ ns. ns ++ n ∷ []) a.split ∙ append_assoc a.before (m ∷ a.behind) (n ∷ []);
    has = λ k w. In-append k (m ∷ a.behind) (n ∷ []) (a.has k w);
  }
  At-add nodes n (found m) a = a
  At-add nodes n not_found a = a
  At-add nodes n crashed a = absurd a

  pub At-del :
      (nodes : List ℕ) (n : ℕ) (p : Place)
      → (p ≢ reading (node n))
      → (Wanted n → ⊥)
      → At nodes p
      → At (without n nodes) p
  At-del nodes n (reading end) ne keep a = a
  At-del nodes n (reading poison) ne keep a = absurd a
  At-del nodes n (reading (node m)) ne keep a =
      subst (λ ns. Split (without n ns) m Wanted) (sym a.split)
        (Split-without n m (λ e. ne (ap (λ x. reading (node x)) e)) Wanted
          (λ k w e. keep (subst Wanted e w)) a.before a.behind a.has)
  At-del nodes n (found m) ne keep a = a
  At-del nodes n not_found ne keep a = a
  At-del nodes n crashed ne keep a = absurd a
