-- ===== src/Readers.antt =====
-- The loop of `search_entry` (misc/fsutils.c) as the entry handlers of the probes run it: without
-- the lock under which the system calls change the registry, so that their changes fall between its
-- steps. The list of the kernel (linux/list.h) is an interface; each of its calls is one step, as
-- the two writes of `list_del` that a reader can see, of which the second poisons the node, are no
-- different for it from one write at the time of the second.
pub mod Undisturbed
pub mod Interleaved
pub mod Verdict
pub mod Removed
use refmon.Prelude.{
  ℕ, zero, suc, ◌+◌, Bool, Any, ◌≡◌, ◌≢◌, List, [], ◌∷◌, ◌++◌, ◌==◌, if◌then◌else◌,
}
use refmon.CStr.{Str}
use refmon.Kernel.{FileSystem}
use refmon.Model.{RegistryEntry}
use refmon.FsUtils.{entry_matches}

-- What a `next` pointer leads to: the head of the list, an entry by its address, or nothing that
-- may be read.
pub data Link : Type 0 where
  end poison : Link
  node : ℕ → Link

abbrev pub first : List ℕ → Link
first [] = end
first (n ∷ ns) = node n

abbrev pub without : ℕ → List ℕ → List ℕ
without n [] = []
without n (m ∷ ms) = if m == n then ms else m ∷ without n ms

abbrev pub In : ℕ → List ℕ → Type 0
In n ns = Any (λ m. m ≡ n) ns

-- linux/list.h, as far as the module uses it: `Holds` says which entries a list has, in order.
pub record KernelList : Type 1 where
  pub Links : Type 0
  pub head_next : Links → Link
  pub next : Links → ℕ → Link
  pub list_add_tail : ℕ → Links → Links
  pub list_del : ℕ → Links → Links
  pub Holds : Links → List ℕ → Type 0
  pub Holds-head_next : (s : Links) (ns : List ℕ) → Holds s ns → head_next s ≡ first ns
  pub Holds-next :
      (s : Links) (xs ys : List ℕ) (n : ℕ) → Holds s (xs ++ n ∷ ys) → next s n ≡ first ys
  pub Holds-list_add_tail :
      (s : Links) (ns : List ℕ) (n : ℕ)
      → Holds s ns
      → (In n ns → ⊥)
      → Holds (list_add_tail n s) (ns ++ n ∷ [])
  pub Holds-list_del :
      (s : Links) (ns : List ℕ) (n : ℕ) → Holds s ns → In n ns → Holds (list_del n s) (without n ns)
  pub list_del_poisons :
      (s : Links) (ns : List ℕ) (n : ℕ) → Holds s ns → In n ns → next (list_del n s) n ≡ poison
  pub list_del_keeps :
      (s : Links) (n m : ℕ) → m ≢ n → next s m ≡ poison → next (list_del n s) m ≡ poison
  pub list_add_tail_keeps :
      (s : Links) (n m : ℕ) → m ≢ n → next s m ≡ poison → next (list_add_tail n s) m ≡ poison

-- Where the loop stands: at what `curr_node` points to, behind it, or at a fault.
pub data Place : Type 0 where
  reading : Link → Place
  found : ℕ → Place
  not_found crashed : Place

-- What the search looks for, and what stands in the entries, which are never changed.
pub record Search : Type 0 where
  pub files : FileSystem
  pub path : Str
  pub ino_no : ℕ
  pub search_criteria : ℕ
  pub entry : ℕ → RegistryEntry

abbrev pub matches : Search → ℕ → Bool
matches q n = entry_matches q.files q.path q.ino_no q.search_criteria (q.entry n)

module _ (l : KernelList) (q : Search) where
  -- One turn of the loop: the end of the list, a match, or the way to the next entry.
  unfoldable pub read : l.Links → Place → Place
  read s (reading end) = not_found
  read s (reading poison) = crashed
  read s (reading (node n)) = if matches q n then found n else reading (l.next s n)
  read s (found n) = found n
  read s not_found = not_found
  read s crashed = crashed

  -- Turns of the loop that nothing comes between.
  unfoldable pub reads : ℕ → l.Links → Place → Place
  reads zero s place = place
  reads (suc n) s place = reads n s (read s place)

  -- The list, what it has, and the place of the reader.
  pub record State : Type 0 where
    pub links : l.Links
    pub nodes : List ℕ
    pub place : Place

  abbrev pub begin : l.Links → List ℕ → State
  begin s ns = record { links = s; nodes = ns; place = reading (l.head_next s) }

  -- A turn of the reader, or what a system call does to the list under its lock.
  pub data Step (s : State) : State → Type 0 where
    turn : Step s (record s { place = read s.links s.place })
    add :
        (n : ℕ)
        → (In n s.nodes → ⊥)
        → Step s (record s { links = l.list_add_tail n s.links; nodes = s.nodes ++ n ∷ [] })
    del :
        (n : ℕ)
        → In n s.nodes
        → Step s (record s { links = l.list_del n s.links; nodes = without n s.nodes })

  pub data Reach (s : State) : State → Type 0 where
    here : Reach s s
    later : {t u : State} → Reach s t → Step t u → Reach s u
