-- ===== src/Lock/Spin.antt =====
-- The spin locks of kernel/locking/lock.c. A task that waits reads the status again and again, and the
-- last reading and the store after it are two accesses.
use tina.Base.{
  ℕ, ◌+◌, ◌≡◌, ◌≢◌, refl, sym, subst, ◌∙◌, Bool, true, false, Option, none, some, update, update-ne,
  update-eq,
}
use tina.Base.Poll.{poll}

-- `spin_lock_t`, with true for LOCKED.
pub record SpinLock : Type 0 where
  pub status : Bool

unfoldable pub spin_lock_init : SpinLock → SpinLock
spin_lock_init lock = record lock { status = false }

unfoldable pub spin_lock_release : SpinLock → SpinLock
spin_lock_release lock = record lock { status = false }

-- The store behind the loop; its lock does not depend on what was there.
abbrev locked_at : Option ℕ → Option (ℕ × SpinLock)
locked_at none = none
locked_at (some j) = some (j, record { status = true })

-- `statuses j` is the status at reading `j`; the loop starts with reading `i`. The result is the lock
-- after the store, and the number of the next reading.
unfoldable pub spin_lock_acquire :
    (fuel : ℕ) → (statuses : ℕ → Bool) → (i : ℕ) → Option (ℕ × SpinLock)
spin_lock_acquire fuel statuses i = locked_at (poll fuel (λ j. (statuses j, j + 1)) i)

-- Where a task stands: outside, in front of the store, and between `spin_lock_acquire` and
-- `spin_lock_release`.
pub data Spinner : Type 0 where
  outside : Spinner
  storing : Spinner
  inside : Spinner

-- One access of one task.
pub data Spin (lock : SpinLock) : Spinner → SpinLock → Spinner → Type 0 where
  wait : lock.status ≡ true → Spin lock outside lock outside
  pass : lock.status ≡ false → Spin lock outside lock storing
  store : Spin lock storing (record { status = true }) inside
  release : Spin lock inside (spin_lock_release lock) outside

-- A lock and the tasks that use it, in any order.
pub record Contest : Type 0 where
  pub lock : SpinLock
  pub tasks : ℕ → Spinner

pub data Access (s : Contest) : Contest → Type 0 where
  by_task :
      (i : ℕ) {lock : SpinLock} {p : Spinner}
      → Spin s.lock (s.tasks i) lock p
      → Access s (record { lock = lock; tasks = update s.tasks i p })

pub data Reach (lock : SpinLock) : Contest → Type 0 where
  start : Reach lock (record { lock = spin_lock_init lock; tasks = λ _. outside })
  later : {s t : Contest} → Reach lock s → Access s t → Reach lock t

access :
    {l : SpinLock} {s : Contest} {lock : SpinLock} {p q : Spinner}
    → Reach l s
    → (i : ℕ) → s.tasks i ≡ p
    → Spin s.lock p lock q
    → Reach l (record { lock = lock; tasks = update s.tasks i q })
access {s} {lock} {q} r i e mv = later r (by_task i (subst (λ p. Spin s.lock p lock q) (sym e) mv))

-- Any two tasks can both be between `spin_lock_acquire` and `spin_lock_release` of a lock that has
-- been initialised: each may read UNLOCKED before the other stores LOCKED.
pub spin_together :
    (lock : SpinLock) (i j : ℕ)
    → i ≢ j
    → (s : Contest) × Reach lock s × (s.tasks i ≡ inside) × (s.tasks j ≡ inside)
unfolding spin_lock_init
spin_together lock i j ne = (
  _,
  access
      (access
        (access (access start i refl (Spin.pass refl)) j (update-ne (λ _. outside) i storing j ne)
          (Spin.pass refl))
        i (update-ne one j storing i (λ e. ne (sym e)) ∙ update-eq (λ _. outside) i storing)
        Spin.store)
      j (update-ne both i inside j ne ∙ update-eq one j storing) Spin.store,
  update-ne (update both i inside) j inside i (λ e. ne (sym e)) ∙ update-eq both i inside,
  update-eq (update both i inside) j inside,
)
  where
    one : ℕ → Spinner
    one = update (λ _. outside) i storing

    both : ℕ → Spinner
    both = update one j storing
