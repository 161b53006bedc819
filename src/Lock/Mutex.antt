-- ===== src/Lock/Mutex.antt =====
-- Acquiring and releasing a mutex: kernel/locking/lock.c.
use tina.Base.{
  append-nil, sym, subst, ℕ, ◌<◌, ◌≡◌, ◌≢◌, refl, ap, ◌∙◌, Bool, true, false, Option, none, some,
  List, [], ◌∷◌, ◌++◌, arith, ◌==◌, if◌then◌else◌, update, update-eq, length, All, has, ◌∉◌,
  mem_middle,
}
use tina.Queue.{null, queue_push, unlink}
use tina.Queue.Remove.{Removable, remove-unlink}
use tina.Queue.Chain.{IsQueue, Back, Disjoint}
use tina.Queue.Fifo.{push-IsQueue, has_lem}
use tina.Queue.Frame.{push-frame, remove-frame}
use tina.Kernel.Outcome.{Outcome, out_of_fuel, ok, ◌>>=◌}
use tina.Kernel.{Kernel, blocked, ready, ready_queue, holding, block_queue}
use tina.Sched.{drop_held, has_held, do_mutex_lock_release, do_unblock_all}
use tina.Sched.Wake.{unblock_all_lem}
use tina.Sched.Pick.{Asleep, Runnable}
use tina.Sched.Switch.{block-Switched}
use tina.Lock.{acquired, parked, do_mutex_lock_acquire}

-- The running task has got the lock, behind those that it holds already.
pub record Acquired (k : Kernel) (l : ℕ) (hs : List ℕ) (k' : Kernel) : Type 0 where
  pub locked : (m : ℕ) → k'.locked m ≡ (if l == m then true else k.locked m)
  pub held : IsQueue k'.links (holding k.current_running) (hs ++ l ∷ [])
  pub running : k'.current_running ≡ k.current_running
  pub others :
      (r : ℕ) (ys : List ℕ)
      → holding k.current_running ≢ r
      → Disjoint hs ys
      → l ∉ ys
      → IsQueue k.links r ys
      → IsQueue k'.links r ys

-- `do_mutex_lock_acquire` of a free lock that the running task does not hold, and whose links overlap no
-- other object, returns at once: the lock
-- is LOCKED, it is the last of those that the task holds, the other locks are as before, the task runs
-- on, and a queue that shares no item with these is kept.
pub acquire-Acquired :
    (fuel count : ℕ) (k : Kernel) (l : ℕ) (hs : List ℕ)
    → k.locked l ≡ false
    → k.overlaps l ≡ false
    → l ≢ null
    → IsQueue k.links (holding k.current_running) hs
    → l ∉ hs
    → (k' : Kernel) × (do_mutex_lock_acquire fuel count k l ≡ ok (acquired k')) × Acquired k l hs k'
unfolding do_mutex_lock_acquire
acquire-Acquired fuel count k l hs free own valid w new = (
  record k {
    links = queue_push k.links (holding k.current_running) l;
    locked = update k.locked l true;
  },
  rw (free, own) refl,
  record {
    locked = λ m. refl;
    held = push-IsQueue l hs w valid new;
    running = refl;
    others = λ r ys ne apart out other. push-frame ne other l hs w apart out;
  },
)

-- `do_mutex_lock_acquire` of a LOCKED lock, with the ready queue `ys ++ z ∷ zs`, where the tasks `ys`
-- sleep on, `z` can run and the running task is not among them, parks the running task, if the fuel
-- exceeds the number of `ys`: it is blocked at the end of the block queue of the lock, whose tasks are
-- not in the ready queue, `z` runs, and the ready queue is `zs ++ ys`.
pub acquire_taken :
    (fuel count : ℕ) (k : Kernel) (l : ℕ) (ys : List ℕ) (z : ℕ) (zs ws : List ℕ)
    → k.locked l ≡ true
    → IsQueue k.links ready_queue (ys ++ z ∷ zs)
    → All (Asleep k) ys
    → Runnable k z
    → k.current_running ≢ null
    → k.current_running ∉ (ys ++ z ∷ zs)
    → length ys < fuel
    → IsQueue k.links (block_queue l) ws
    → Disjoint ws (ys ++ z ∷ zs)
    → k.current_running ∉ ws
    → (k' : Kernel) × (do_mutex_lock_acquire fuel count k l ≡ ok (parked k'))
      × IsQueue k'.links (block_queue l) (ws ++ k.current_running ∷ [])
      × (k'.status k.current_running ≡ blocked)
      × (k'.current_running ≡ z)
      × IsQueue k'.links ready_queue (zs ++ ys)
unfolding do_mutex_lock_acquire
acquire_taken fuel count k l ys z zs ws taken w asleep can valid out fits wq apart new =
    let (k', run, q, st, ch, cur, rn, rq) =
      block-Switched fuel count k ys z zs w asleep can valid out fits (block_queue l) ws
        (omega arith) wq apart new in
    (k', rw taken (rw run refl), q, st, cur, rq)

pub All-at : (P : ℕ → Type 0) (ys : List ℕ) (x : ℕ) (zs : List ℕ) → All P (ys ++ x ∷ zs) → P x
All-at P [] x zs h = h.0
All-at P (y ∷ ys) x zs h = All-at P ys x zs h.1

-- `do_mutex_lock_release` of a lock that the running task holds.
pub release-drop :
    (fuel : ℕ) (k k' : Kernel) (l : ℕ) (b : Bool)
    → has_held fuel k l ≡ ok b
    → drop_held k l b ≡ ok k'
    → do_mutex_lock_release fuel k l
      ≡ do_unblock_all fuel (record k' { locked = update k'.locked l false }) (block_queue l)
unfolding do_mutex_lock_release
release-drop fuel k k' l b e d =
    ap (λ o. o >>= λ held. drop_held k l held >>= after) e ∙ ap (λ o. o >>= after) d
  where
    after : Kernel → Outcome Kernel
    after j = do_unblock_all fuel (record j { locked = update j.locked l false }) (block_queue l)

drop_held-unlink :
    (k : Kernel) (l : ℕ) (ys zs : List ℕ)
    → k.overlaps l ≡ false
    → IsQueue k.links (holding k.current_running) (ys ++ l ∷ zs)
    → Back k.links.prev null (ys ++ l ∷ zs)
    → Removable k.links ys zs
    → drop_held k l true
      ≡ ok (record k { links = (unlink k.links (holding k.current_running) l).0 })
unfolding drop_held
drop_held-unlink k l ys zs own w b can = rw (own, remove-unlink l ys zs w b can) refl

is_held :
    (fuel : ℕ) (k : Kernel) (l : ℕ) (ys zs : List ℕ)
    → l ≢ null
    → IsQueue k.links (holding k.current_running) (ys ++ l ∷ zs)
    → length (ys ++ l ∷ zs) < fuel
    → has_held fuel k l ≡ ok true
unfolding has_held
is_held fuel k l ys zs valid w h =
    ap (λ (o : Option Bool). elim o [ none ↦ out_of_fuel | some b ↦ ok b ])
      (has_lem fuel l (ys ++ l ∷ zs) w valid h ∙ ap some (mem_middle l ys zs))

-- The lock has been released, and its tasks `ws` stand behind the ready ones.
pub record Released (k : Kernel) (l : ℕ) (hs ws xs : List ℕ) (k' : Kernel) : Type 0 where
  pub left : IsQueue k'.links (block_queue l) []
  pub readied : IsQueue k'.links ready_queue (xs ++ ws)
  pub status : (p : ℕ) → k'.status p ≡ (if has p ws then ready else k.status p)
  pub same : k' ≡ record k {
    links = k'.links;
    locked = update k.locked l false;
    status = k'.status;
    chan = k'.chan;
  }
  pub others :
      (r : ℕ) (os : List ℕ)
      → holding k.current_running ≢ r
      → block_queue l ≢ r
      → ready_queue ≢ r
      → Disjoint hs os
      → Disjoint ws os
      → Disjoint xs os
      → IsQueue k.links r os
      → IsQueue k'.links r os

pub release-Released :
    (fuel : ℕ) (k : Kernel) (l : ℕ) (ys zs ws xs : List ℕ)
    → k.overlaps l ≡ false
    → l ≢ null
    → IsQueue k.links (holding k.current_running) (ys ++ l ∷ zs)
    → Back k.links.prev null (ys ++ l ∷ zs)
    → Removable k.links ys zs
    → IsQueue k.links (block_queue l) ws
    → IsQueue k.links ready_queue xs
    → Disjoint ws xs
    → Disjoint (ys ++ l ∷ zs) ws
    → Disjoint (ys ++ l ∷ zs) xs
    → length (ys ++ l ∷ zs) < fuel
    → length ws < fuel
    → (k' : Kernel) × (do_mutex_lock_release fuel k l ≡ ok k')
      × Released k l (ys ++ l ∷ zs) ws xs k'
release-Released fuel k l ys zs ws xs own valid wh back can wq wr apart hq hr lh lw =
    let (k', run, b) =
      unblock_all_lem fuel {k = freed} ws xs kept_q kept_r (omega arith) apart lw in
    (
      k',
      release-drop fuel k (record k { links = freed.links }) l true
            (is_held fuel k l ys zs valid wh lh) (drop_held-unlink k l ys zs own wh back can)
          ∙ run,
      record {
        left = b.left;
        readied = b.readied;
        status = b.status;
        same = b.same;
        others = λ r os hr' qr rr dh dw dx other.
            b.others r os qr rr (subst (λ us. Disjoint us os) (sym (append-nil ws)) dw) dx
              (remove-frame l ys zs hr' other wh back dh);
      },
    )
  where
    freed : Kernel
    freed = record k {
      links = (unlink k.links (holding k.current_running) l).0;
      locked = update k.locked l false;
    }

    kept_q : IsQueue freed.links (block_queue l) ws
    kept_q = remove-frame l ys zs (omega arith) wq wh back hq

    kept_r : IsQueue freed.links ready_queue xs
    kept_r = remove-frame l ys zs (omega arith) wr wh back hr

-- `do_mutex_lock_release` of a lock that the running task holds ends, with fuel above the number of
-- locks it holds and the number of waiting tasks, where the links of the lock overlap no other object and
-- it is not in the middle of `holding` or `pcb[0]` has a `next`: the lock is free, no task waits for it, and those
-- that did are ready at the end of the ready queue, in order, where the queues share no items and the
-- backward links of the held locks are right.
pub release_held :
    (fuel : ℕ) (k : Kernel) (l : ℕ) (ys zs ws xs : List ℕ)
    → k.overlaps l ≡ false
    → l ≢ null
    → IsQueue k.links (holding k.current_running) (ys ++ l ∷ zs)
    → Back k.links.prev null (ys ++ l ∷ zs)
    → Removable k.links ys zs
    → IsQueue k.links (block_queue l) ws
    → IsQueue k.links ready_queue xs
    → Disjoint ws xs
    → Disjoint (ys ++ l ∷ zs) ws
    → Disjoint (ys ++ l ∷ zs) xs
    → length (ys ++ l ∷ zs) < fuel
    → length ws < fuel
    → (k' : Kernel) × (do_mutex_lock_release fuel k l ≡ ok k')
      × (k'.locked l ≡ false)
      × IsQueue k'.links (block_queue l) []
      × IsQueue k'.links ready_queue (xs ++ ws)
      × ((p : ℕ) → k'.status p ≡ (if has p ws then ready else k.status p))
release_held fuel k l ys zs ws xs own valid wh back can wq wr apart hq hr lh lw =
    let (k', run, r) =
      release-Released fuel k l ys zs ws xs own valid wh back can wq wr apart hq hr lh lw in
    (
      k',
      run,
      ap (λ (j : Kernel). j.locked l) r.same ∙ update-eq k.locked l false,
      r.left,
      r.readied,
      r.status,
    )
