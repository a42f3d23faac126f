-- ===== src/Examples/Readers/Order.antt =====
-- A list of the kernel that is known by its order: every law of the interface holds.
use refmon.Prelude.{
  ℕ, ◌≡◌, ◌≢◌, refl, sym, ap, ◌∙◌, true, inl, inr, List, [], ◌∷◌, ◌++◌, Bool-cases, ==_iff, ◌==◌,
  if◌then◌else◌,
}
use mathlib.Core.Path.{subst}
use refmon.Readers.{Link, poison, first, without, In, KernelList}

abbrev pub NoDup : List ℕ → Type 0
NoDup [] = Unit
NoDup (n ∷ ns) = (In n ns → ⊥) × NoDup ns

abbrev pub after : ℕ → List ℕ → Link
after n [] = poison
after n (m ∷ ms) = if m == n then first ms else after n ms

same : (n : ℕ) → (n == n) ≡ true
same n = (==_iff n n).1 refl

In-middle : (n : ℕ) (xs ys : List ℕ) → In n (xs ++ n ∷ ys)
In-middle n [] ys = inl refl
In-middle n (x ∷ xs) ys = inr (In-middle n xs ys)

pub after-middle :
    (n : ℕ) (xs ys : List ℕ) → NoDup (xs ++ n ∷ ys) → after n (xs ++ n ∷ ys) ≡ first ys
after-middle n [] ys d = rw (same n) refl
after-middle n (x ∷ xs) ys d = elim (Bool-cases (x == n)) [
  | inl e ↦
      absurd (d.0 (subst (λ k. In k (xs ++ n ∷ ys)) (sym ((==_iff x n).0 e)) (In-middle n xs ys)))
  | inr other ↦ rw other (after-middle n xs ys d.1)
]

first_real : (ns : List ℕ) → first ns ≢ poison
first_real [] e = cc
first_real (n ∷ ns) e = cc

In-add : (k n : ℕ) (ns : List ℕ) → (k ≢ n) → (In k ns → ⊥) → In k (ns ++ n ∷ []) → ⊥
In-add k n [] ne out (inl e) = ne (sym e)
In-add k n [] ne out (inr h) = h
In-add k n (m ∷ ms) ne out (inl e) = out (inl e)
In-add k n (m ∷ ms) ne out (inr h) = In-add k n ms ne (λ x. out (inr x)) h

pub NoDup-add : (n : ℕ) (ns : List ℕ) → NoDup ns → (In n ns → ⊥) → NoDup (ns ++ n ∷ [])
NoDup-add n [] d out = (λ h. h, tt)
NoDup-add n (m ∷ ms) d out =
    (In-add m n ms (λ e. out (inl e)) d.0, NoDup-add n ms d.1 (λ h. out (inr h)))

In-without : (k n : ℕ) (ns : List ℕ) → In k (without n ns) → In k ns
In-without k n [] h = h
In-without k n (m ∷ ms) h = elim (Bool-cases (m == n)) [
  | inl e ↦ inr (rw e at h)
  | inr other ↦ elim (rw other at h) [ inl e ↦ inl e | inr h' ↦ inr (In-without k n ms h') ]
]

pub NoDup-without : (n : ℕ) (ns : List ℕ) → NoDup ns → NoDup (without n ns)
NoDup-without n [] d = tt
NoDup-without n (m ∷ ms) d = elim (Bool-cases (m == n)) [
  | inl e ↦ rw e d.1
  | inr other ↦ rw other (λ h. d.0 (In-without m n ms h), NoDup-without n ms d.1)
]

after-none : (n : ℕ) (ns : List ℕ) → (In n ns → ⊥) → after n ns ≡ poison
after-none n [] out = refl
after-none n (m ∷ ms) out = elim (Bool-cases (m == n)) [
  | inl e ↦ absurd (out (inl ((==_iff m n).0 e)))
  | inr other ↦ rw other (after-none n ms (λ h. out (inr h)))
]

pub after-without : (n : ℕ) (ns : List ℕ) → NoDup ns → after n (without n ns) ≡ poison
after-without n [] d = refl
after-without n (m ∷ ms) d = elim (Bool-cases (m == n)) [
  | inl e ↦ rw e (after-none n ms (subst (λ k. In k ms → ⊥) ((==_iff m n).0 e) d.0))
  | inr other ↦ rw (other, other) (after-without n ms d.1)
]

pub without_keeps :
    (s : List ℕ) (n m : ℕ) → m ≢ n → after m s ≡ poison → after m (without n s) ≡ poison
without_keeps [] n m ne e = refl
without_keeps (x ∷ xs) n m ne e = elim (Bool-cases (x == m)) [
  | inl here ↦ absurd (first_real xs (rw here at e))
  | inr other ↦ elim (Bool-cases (x == n)) [
    | inl gone ↦ rw gone (rw other at e)
    | inr stays ↦ rw (stays, other) (without_keeps xs n m ne (rw other at e))
  ]
]

pub add_keeps : (s : List ℕ) (n m : ℕ) → m ≢ n → after m s ≡ poison → after m (s ++ n ∷ []) ≡ poison
add_keeps [] n m ne e = elim (Bool-cases (n == m)) [
  | inl same_node ↦ absurd (ne (sym ((==_iff n m).0 same_node)))
  | inr other ↦ rw other refl
]
add_keeps (x ∷ xs) n m ne e = elim (Bool-cases (x == m)) [
  | inl here ↦ absurd (first_real xs (rw here at e))
  | inr other ↦ rw other (add_keeps xs n m ne (rw other at e))
]

abbrev pub order_list : KernelList
order_list = record {
  Links = List ℕ;
  head_next = first;
  next = λ s n. after n s;
  list_add_tail = λ n s. s ++ n ∷ [];
  list_del = without;
  Holds = λ s ns. (s ≡ ns) × NoDup ns;
  Holds-head_next = λ s ns h. ap first h.0;
  Holds-next = λ s xs ys n h. ap (after n) h.0 ∙ after-middle n xs ys h.1;
  Holds-list_add_tail = λ s ns n h out. (ap (λ r. r ++ n ∷ []) h.0, NoDup-add n ns h.1 out);
  Holds-list_del = λ s ns n h inside. (ap (without n) h.0, NoDup-without n ns h.1);
  list_del_poisons =
      λ s ns n h inside. ap (λ r. after n (without n r)) h.0 ∙ after-without n ns h.1;
  list_del_keeps = λ s n m ne e. without_keeps s n m ne e;
  list_add_tail_keeps = λ s n m ne e. add_keeps s n m ne e;
}
