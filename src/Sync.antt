-- ===== src/Sync.antt =====
-- Conditions, semaphores and barriers: kernel/locking/cond.c, sem.c and barrier.c. A call runs up to the
-- next switch to another task, and from there on when its task runs next (`resume`). A count is a word
-- of 32 bits.
pub mod Wait
pub mod Raise
mod Tests
use tina.Base.{
  ℕ, zero, suc, ◌+◌, ◌-◌, ◌*◌, ◌/◌, ◌%◌, ◌^◌, ◌≤◌, ◌<◌, min, max, ◌≡◌, ◌≢◌, ◌↔◌, ◌⊎◌, inl, inr,
  refl, sym, ap, ap₂, subst, ◌∙◌, fun_ext, Bool, true, false, not, ◌&&◌, ◌||◌, false≢true, Option,
  none, some, List, [], ◌∷◌, ◌++◌, map, append-nil, append_assoc, arith, ltb, leb, ◌==◌, ==_iff,
  ==_ne, ltb→lt, lt→ltb, leb_lt, leb_le, ltb_le, dec_lt, ℕ_discrete, if◌then◌else◌, Bool-cases,
  Option-cases, update, update-ne, update-eq, length, get_or, set, take, drop, replicate, All, has,
  ◌∈◌, ◌∉◌, Distinct, has-append, not-mem-cons, not-mem-append, mem_middle, mem-append_left,
  length-append, length-set, get_or-set, length-replicate, get_or-replicate,
}
use tina.Queue.{queue_init}
use tina.Kernel.Outcome.{Outcome, ok, stopped, out_of_fuel, ◌>>=◌}
use tina.Kernel.{Kernel}
use tina.Sched.{do_block, do_unblock_one, do_unblock_all, do_mutex_lock_release}
use tina.Lock.{Progress, acquired, parked, do_mutex_lock_init, do_mutex_lock_acquire}

-- `semaphore_t` and `barrier_t`: the pointers to the queue and the lock inside, and the place of `count`.
pub record Semaphore : Type 0 where
  pub queue : ℕ
  pub lock : ℕ
  pub count : ℕ

pub record Barrier : Type 0 where
  pub queue : ℕ
  pub lock : ℕ
  pub count : ℕ
  pub max : ℕ

-- The kernel, and the numbers inside the semaphores and the barriers.
pub record Shared : Type 0 where
  pub kernel : Kernel
  pub number : ℕ → ℕ

-- Where a task that has been switched away goes on.
pub data Resume : Type 0 where
  acquiring : (lock : ℕ) → Resume
  raising lowering : Semaphore → Resume
  arriving leaving : Barrier → Resume

pub data Step : Type 0 where
  returned : Shared → Step
  switched : Resume → Shared → Step

abbrev pub set_number : Shared → ℕ → ℕ → Shared
set_number st a v = record st { number = update st.number a v }

-- The kernel after a call that returns.
abbrev pub back : Shared → Outcome Kernel → Outcome Step
back st k = k >>= (λ k'. ok (returned (record st { kernel = k' })))

abbrev pub away : Shared → Resume → Outcome Kernel → Outcome Step
away st r k = k >>= (λ k'. ok (switched r (record st { kernel = k' })))

unfoldable pub do_condition_init : Kernel → (condition : ℕ) → Kernel
do_condition_init k condition = record k { links = queue_init k.links condition }

-- The first two calls; the third is where the task goes on.
unfoldable pub do_condition_wait : (fuel count : ℕ) → Shared → (lock condition : ℕ) → Outcome Step
do_condition_wait fuel count st lock condition =
    away st (acquiring lock)
      (do_mutex_lock_release fuel st.kernel lock >>= (λ k. do_block fuel count k condition))

unfoldable pub do_condition_signal : Kernel → (condition : ℕ) → Kernel
do_condition_signal k condition = do_unblock_one k condition

unfoldable pub do_condition_broadcast : (fuel : ℕ) → Kernel → (condition : ℕ) → Outcome Kernel
do_condition_broadcast fuel k condition = do_unblock_all fuel k condition

unfoldable pub do_semaphore_init : Shared → Semaphore → (val : ℕ) → Shared
do_semaphore_init st s val =
    set_number
      (record st {
        kernel =
            do_mutex_lock_init (record st.kernel { links = queue_init st.kernel.links s.queue })
              s.lock;
      })
      s.count val

-- An attempt to acquire, and what follows it when the lock has been got.
abbrev pub locked_by :
    (fuel count : ℕ) → Shared → (lock : ℕ) → Resume → (Shared → Outcome Step) → Outcome Step
locked_by fuel count st lock again rest = do_mutex_lock_acquire fuel count st.kernel lock >>= (λ p.
    elim p [
      | acquired k ↦ rest (record st { kernel = k })
      | parked k ↦ ok (switched again (record st { kernel = k }))
    ])

unfoldable pub do_semaphore_up : (fuel count : ℕ) → Shared → Semaphore → Outcome Step
do_semaphore_up fuel count st s = locked_by fuel count st s.lock (raising s) (λ st'.
    let up = set_number st' s.count ((st'.number s.count + 1) % 2 ^ 32) in
    back up (do_mutex_lock_release fuel (do_unblock_one up.kernel s.queue) s.lock))

-- `count <= 0`
abbrev pub not_positive : ℕ → Bool
not_positive n = (n == 0) || leb (2 ^ 31) n

-- The test of the loop, with the lock.
unfoldable pub try_down : (fuel count : ℕ) → Semaphore → Shared → Outcome Step
try_down fuel count s st =
    let lower = set_number st s.count ((st.number s.count + (2 ^ 32 - 1)) % 2 ^ 32) in
    if not_positive (st.number s.count)
    then away st (lowering s)
        (do_mutex_lock_release fuel st.kernel s.lock >>= (λ k. do_block fuel count k s.queue))
    else back lower (do_mutex_lock_release fuel lower.kernel s.lock)

unfoldable pub do_semaphore_down : (fuel count : ℕ) → Shared → Semaphore → Outcome Step
do_semaphore_down fuel count st s =
    locked_by fuel count st s.lock (lowering s) (try_down fuel count s)

unfoldable pub do_barrier_init : Shared → Barrier → (goal : ℕ) → Shared
do_barrier_init st b goal =
    let st' = set_number (set_number st b.count 0) b.max goal in
    let k = do_mutex_lock_init st'.kernel b.lock in
    record st' { kernel = record k { links = queue_init k.links b.queue } }

-- What follows the count of a barrier, with the lock.
unfoldable pub arrive : (fuel count : ℕ) → Barrier → Shared → Outcome Step
arrive fuel count b st =
    let n = (st.number b.count + 1) % 2 ^ 32 in
    let counted = set_number st b.count n in
    if n == st.number b.max
    then back (set_number counted b.count 0)
        (do_unblock_all fuel st.kernel b.queue >>= (λ k. do_mutex_lock_release fuel k b.lock))
    else away counted (leaving b)
        (do_mutex_lock_release fuel st.kernel b.lock >>= (λ k. do_block fuel count k b.queue))

unfoldable pub do_barrier_wait : (fuel count : ℕ) → Shared → Barrier → Outcome Step
do_barrier_wait fuel count st b = locked_by fuel count st b.lock (arriving b) (arrive fuel count b)

-- The task runs again. The end of a barrier is a release behind the last acquire.
unfoldable pub resume : (fuel count : ℕ) → Shared → Resume → Outcome Step
resume fuel count st (acquiring l) =
    locked_by fuel count st l (acquiring l) (λ st'. ok (returned st'))
resume fuel count st (raising s) = do_semaphore_up fuel count st s
resume fuel count st (lowering s) = do_semaphore_down fuel count st s
resume fuel count st (arriving b) = do_barrier_wait fuel count st b
resume fuel count st (leaving b) =
    locked_by fuel count st b.lock (leaving b)
      (λ st'. back st' (do_mutex_lock_release fuel st'.kernel b.lock))
