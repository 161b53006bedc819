-- ===== src/Lock.antt =====
-- Mutexes: kernel/locking/lock.c. `do_block` gives the processor to another task, so that a call of
-- `do_mutex_lock_acquire` is modelled up to there: a task that is parked does the test of the loop
-- again when it runs next.
pub mod Mutex
pub mod Spin
pub mod Round
pub mod Exit
pub mod Cleanup
mod Tests
use tina.Base.{
  ℕ, zero, suc, ◌+◌, ◌-◌, ◌*◌, ◌/◌, ◌%◌, ◌^◌, ◌≤◌, ◌<◌, min, max, ◌≡◌, ◌≢◌, ◌↔◌, ◌⊎◌, inl, inr,
  refl, sym, ap, ap₂, subst, ◌∙◌, fun_ext, Bool, true, false, not, ◌&&◌, ◌||◌, false≢true, Option,
  none, some, List, [], ◌∷◌, ◌++◌, map, append-nil, append_assoc, arith, ltb, leb, ◌==◌, ==_iff,
  ==_ne, ltb→lt, lt→ltb, leb_lt, leb_le, ltb_le, dec_lt, ℕ_discrete, if◌then◌else◌, Bool-cases,
  Option-cases, update, update-ne, update-eq, length, get_or, set, take, drop, replicate, All, has,
  ◌∈◌, ◌∉◌, Distinct, has-append, not-mem-cons, not-mem-append, mem_middle, mem-append_left,
  length-append, length-set, get_or-set, length-replicate, get_or-replicate,
}
use tina.Queue.{Links, queue_init, queue_push}
use tina.Kernel.Outcome.{Outcome, ok, stopped, ◌>>=◌}
use tina.Kernel.{Kernel, holding, block_queue}
use tina.Sched.{do_block}

pub data Progress : Type 0 where
  acquired : Kernel → Progress
  parked : Kernel → Progress

unfoldable pub do_mutex_lock_init : Kernel → (lock : ℕ) → Kernel
do_mutex_lock_init k lock = record k {
  locked = update k.locked lock false;
  links = queue_init k.links (block_queue lock);
}

-- The loop from its test on, to the end or to the next test.
unfoldable pub do_mutex_lock_acquire : (fuel count : ℕ) → Kernel → (lock : ℕ) → Outcome Progress
do_mutex_lock_acquire fuel count k lock =
    if k.locked lock
    then do_block fuel count k (block_queue lock) >>= (λ k'. ok (parked k'))
    else if k.overlaps lock
    then stopped
    else ok (
        acquired (record k {
          links = queue_push k.links (holding k.current_running) lock;
          locked = update k.locked lock true;
        }))
