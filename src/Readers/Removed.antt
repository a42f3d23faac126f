-- ===== src/Readers/Removed.antt =====
-- The loop of `search_entry` (misc/fsutils.c) when a system call removes the entry at which it
-- stands.
use refmon.Prelude.{ℕ, false, ◌≡◌, ◌≢◌, ◌⊎◌, inl, inr, refl}
use refmon.Readers.{
  poison, node, without, In, KernelList, Place, reading, crashed, Search, matches, read, reads,
  State, Step, turn, add, del, Reach, here, later,
}

module _ (l : KernelList) (q : Search) (n : ℕ) (miss : matches q n ≡ false) where
  -- The memory of the entry is not used for another one.
  abbrev pub IsApart : {s t : State l q} → Step l q s t → Type 0
  IsApart turn = Unit
  IsApart (add m new) = n ≢ m
  IsApart (del m inside) = n ≢ m

  abbrev pub AllApart : {s t : State l q} → Reach l q s t → Type 0
  AllApart here = Unit
  AllApart (later r st) = AllApart r × IsApart st

  abbrev IsLost : Place → Type 0
  IsLost p = (p ≡ reading (node n)) ⊎ (p ≡ reading poison) ⊎ (p ≡ crashed)

  abbrev Lost : State l q → Type 0
  Lost s = (l.next s.links n ≡ poison) × IsLost s.place

  read-IsLost : (s : l.Links) (p : Place) → l.next s n ≡ poison → IsLost p → IsLost (read l q s p)
  unfolding read
  read-IsLost s p e (inl at) = rw (at, miss, e) (inr (inl refl))
  read-IsLost s p e (inr (inl at)) = rw at (inr (inr refl))
  read-IsLost s p e (inr (inr at)) = rw at (inr (inr refl))

  Step-Lost : {s t : State l q} (st : Step l q s t) → IsApart st → Lost s → Lost t
  Step-Lost {s} turn apart (e, at) = (e, read-IsLost s.links s.place e at)
  Step-Lost {s} (add m new) apart (e, at) = (l.list_add_tail_keeps s.links m n apart e, at)
  Step-Lost {s} (del m inside) apart (e, at) = (l.list_del_keeps s.links m n apart e, at)

  Reach-Lost : {s t : State l q} (r : Reach l q s t) → AllApart r → Lost s → Lost t
  Reach-Lost here apart i = i
  Reach-Lost (later r st) (apart, last) i = Step-Lost st last (Reach-Lost r apart i)

  lost_crashes :
      (s : l.Links) (p : Place) → l.next s n ≡ poison → IsLost p → reads l q 2 s p ≡ crashed
  unfolding reads read
  lost_crashes s p e (inl at) = rw (at, miss, e) refl
  lost_crashes s p e (inr (inl at)) = rw at refl
  lost_crashes s p e (inr (inr at)) = rw at refl

  -- If a system call removes the entry at which a search without the lock stands, and the entry does
  -- not match, the search reads a poisoned pointer: whatever is done to other entries from then on,
  -- two more turns of the search are a fault.
  pub removed_crashes :
      (s : State l q) {t : State l q}
      → l.Holds s.links s.nodes
      → In n s.nodes
      → s.place ≡ reading (node n)
      → (r : Reach l q (record s { links = l.list_del n s.links; nodes = without n s.nodes }) t)
      → AllApart r
      → reads l q 2 t.links t.place ≡ crashed
  removed_crashes s {t} h inside at r apart =
      let (e, lost) = Reach-Lost r apart (l.list_del_poisons s.links s.nodes n h inside, inl at) in
      lost_crashes t.links t.place e lost
