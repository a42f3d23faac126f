-- ===== src/World.antt =====
-- The global state that the system calls and the probe handlers share, and the monad in which the
-- operations on it are written.
use refmon.Prelude.{ℕ, true, false, Option, none, some, List}
use refmon.Kernel.{Alloc}
use refmon.Model.{Instance}
use refmon.Probing.{Probes}
use refmon.LogIo.{LogDataset}

-- `calls` counts the numbered calls of the kernel, and `work` is the queue of deferred work.
pub record World : Type 0 where
  pub instance : Instance
  pub probes : Probes
  pub work : List LogDataset
  pub calls : ℕ

-- `none` means that the operation does not return: a fault, or a lock that is never released.
abbrev pub Run : Type 0 → Type 0
Run A = World → Option A × World

abbrev pub pure : {A : Type 0} → A → Run A
pure a w = (some a, w)

infixl 5 ◌>>=◌ ◌>>◌
abbrev pub ◌>>=◌ : {A B : Type 0} → Run A → (A → Run B) → Run B
◌>>=◌ m f w = let (r, w') = m w in elim r [ none ↦ (none, w') | some a ↦ f a w' ]

abbrev pub ◌>>◌ : {B : Type 0} → Run (Unit {0}) → Run B → Run B
m >> n = m >>= λ _. n

-- A computation that makes numbered calls; its `none` is a fault.
abbrev pub lift : {A : Type 0} → (Instance → Alloc (Option A)) → Run A
lift m w = let (r, n) = m w.instance w.calls in (r, record w { calls = n })

-- One that cannot fault.
abbrev pub lift_total : {A : Type 0} → (Instance → Alloc A) → Run A
lift_total m w = let (a, n) = m w.instance w.calls in (some a, record w { calls = n })

abbrev pub fault : {A : Type 0} → Run A
fault w = (none, w)

-- SPIN_INSTANCE_LOCK: on a lock that is held it spins for ever.
unfoldable pub spin_instance_lock : Run (Unit {0})
spin_instance_lock w = elim w.instance.spinlock_inst [
  | true ↦ (none, w)
  | false ↦ (some tt, record w { instance = record w.instance { spinlock_inst = true } })
]

-- SPIN_INSTANCE_UNLOCK
unfoldable pub spin_instance_unlock : Run (Unit {0})
spin_instance_unlock w =
    (some tt, record w { instance = record w.instance { spinlock_inst = false } })

-- The world while a system call holds the instance lock.
abbrev pub locked : World → World
locked w = record w { instance = record w.instance { spinlock_inst = true } }
