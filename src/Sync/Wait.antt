-- ===== src/Sync/Wait.antt =====
-- A task that waits gives the lock back first: kernel/locking/cond.c, sem.c and barrier.c.
use tina.Base.{false, ℕ, ◌<◌, ◌≡◌, ◌≢◌, List, [], ◌∷◌, ◌++◌, length, All, ◌∉◌}
use tina.Queue.{null}
use tina.Queue.Remove.{Removable}
use tina.Queue.Chain.{IsQueue, Back, Disjoint}
use tina.Kernel.{Kernel, blocked, ready_queue, holding, block_queue}
use tina.Sched.Pick.{Asleep, Runnable}

-- The task has left for the end of queue `q`, blocked, `z` runs, and the tasks `ws` of the lock are ready
-- behind those that were.
abbrev pub Waiting :
    (k : Kernel) → (q : ℕ) → (cs ws ys : List ℕ) → (z : ℕ) → (zs : List ℕ) → Kernel → Type 0
Waiting k q cs ws ys z zs k' =
    IsQueue k'.links q (cs ++ k.current_running ∷ [])
    × (k'.status k.current_running ≡ blocked)
    × (k'.current_running ≡ z)
    × IsQueue k'.links ready_queue ((zs ++ ws) ++ ys)

-- What a task with lock `l` relies on that is going to wait on `q`.
pub record CanWait (fuel : ℕ) (k : Kernel) (l q : ℕ) (hs gs cs ws ys : List ℕ) (z : ℕ) (zs : List ℕ)
    : Type 0 where
  pub own_links : All (λ m. k.overlaps m ≡ false) (hs ++ l ∷ gs)
  pub lock : l ≢ null
  pub task : k.current_running ≢ null
  pub held : IsQueue k.links (holding k.current_running) (hs ++ l ∷ gs)
  pub held_back : Back k.links.prev null (hs ++ l ∷ gs)
  pub removable : Removable k.links hs gs
  pub lock_queue : IsQueue k.links (block_queue l) ws
  pub ready_tasks : IsQueue k.links ready_queue (ys ++ z ∷ zs)
  pub own_queue : IsQueue k.links q cs
  pub asleep : All (Asleep k) ys
  pub runnable : Runnable k z
  pub not_ready : k.current_running ∉ (ys ++ z ∷ zs)
  pub not_locked : k.current_running ∉ ws
  pub not_waiting : k.current_running ∉ cs
  pub other_queue : (q ≢ ready_queue) × (holding k.current_running ≢ q) × (block_queue l ≢ q)
  pub lock_ready : Disjoint ws (ys ++ z ∷ zs)
  pub held_lock : Disjoint (hs ++ l ∷ gs) ws
  pub held_ready : Disjoint (hs ++ l ∷ gs) (ys ++ z ∷ zs)
  pub held_own : Disjoint (hs ++ l ∷ gs) cs
  pub lock_own : Disjoint ws cs
  pub ready_own : Disjoint (ys ++ z ∷ zs) cs
  pub enough : (length (hs ++ l ∷ gs) < fuel) × (length ws < fuel) × (length ys < fuel)
