-- ===== src/Sched.antt =====
-- The scheduler: kernel/sched/sched.c, kernel/sched/time.c, `set_timer` of kernel/irq/irq.c and the
-- release of mutexes of kernel/locking/lock.c, which the scheduler calls. The loops run on fuel.
pub mod Wake
pub mod Pick
pub mod Switch
pub mod Clock
mod Tests
use tina.Base.{
  bit_and, bit_or, ℕ, zero, suc, ◌+◌, ◌-◌, ◌*◌, ◌/◌, ◌%◌, ◌^◌, ◌≤◌, ◌<◌, min, max, ◌≡◌, ◌≢◌, ◌↔◌,
  ◌⊎◌, inl, inr, refl, sym, ap, ap₂, subst, ◌∙◌, fun_ext, Bool, true, false, not, ◌&&◌, ◌||◌,
  false≢true, Option, none, some, List, [], ◌∷◌, ◌++◌, map, append-nil, append_assoc, arith, ltb,
  leb, ◌==◌, ==_iff, ==_ne, ltb→lt, lt→ltb, dec_lt, ℕ_discrete, if◌then◌else◌, Bool-cases,
  Option-cases, update, update-ne, update-eq, length, get_or, set, take, drop, replicate, All, has,
  ◌∈◌, ◌∉◌, Distinct, has-append, not-mem-cons, not-mem-append, length-append, length-set,
  get_or-set, length-replicate, get_or-replicate,
}
use tina.Base.Poll.{poll}
use tina.Queue.{Links, null, queue_is_empty, queue_push, queue_dequeue, queue_has, queue_remove}
use tina.Kernel.Outcome.{Outcome, ok, stopped, out_of_fuel, ◌>>=◌}
use tina.Kernel.{
  Kernel, Status, embryo, sleeping, blocked, running, ready, exited, ready_queue, holding, waiting,
  block_queue, is_ready, is_sleeping, set_status, u32,
}

unfoldable pub get_timer : Kernel → ℕ
get_timer k = k.time_elapsed / 1000000

unfoldable pub get_ticks : Kernel → ℕ
get_ticks k = k.time_elapsed

-- The loop of `latency` reads a clock that the timer's interrupt moves on: `clock j` is `time_elapsed` at
-- reading `j`, and the difference of two words wraps round.
unfoldable pub still_waiting : (clock : ℕ → ℕ) → (begin_time time : ℕ) → ℕ → Bool × ℕ
still_waiting clock begin_time time j =
    (ltb ((clock j / 1000000 + (u32 - begin_time)) % u32) time, j + 1)

-- From reading `i` on, to the reading after the last.
unfoldable pub latency : (fuel : ℕ) → (clock : ℕ → ℕ) → (i time : ℕ) → Option ℕ
latency fuel clock i time = poll fuel (still_waiting clock (clock i / 1000000) time) (i + 1)

-- The status word of CP0, with the bit of the interrupts at 0.
unfoldable pub disable_interrupt : (cp0_status : ℕ) → ℕ
disable_interrupt cp0_status = bit_and cp0_status 0xfffffffe

unfoldable pub enable_interrupt : (cp0_status : ℕ) → ℕ
enable_interrupt cp0_status = bit_or cp0_status 1

-- `count` is the CP0 count register.
unfoldable pub set_timer : (count : ℕ) → Kernel → Kernel
set_timer count k = record k { time_elapsed = (k.time_elapsed + count * 2 % u32 / 300) % u32 }

-- The item that `do_unblock_one` and `do_unblock_all` take from the queue becomes ready.
unfoldable pub wake_first : Kernel → ℕ → Kernel
wake_first k q =
    let (links, p) = queue_dequeue k.links q in
    record k {
      status = update k.status p ready;
      chan = update k.chan p null;
      links = queue_push links ready_queue p;
    }

unfoldable pub do_unblock_one : Kernel → ℕ → Kernel
unfolding wake_first
do_unblock_one k q = if queue_is_empty k.links q then k else wake_first k q

unfoldable pub do_unblock_all : ℕ → Kernel → ℕ → Outcome Kernel
do_unblock_all zero k q = out_of_fuel
do_unblock_all (suc fuel) k q =
    let rest = do_unblock_all fuel (wake_first k q) q in
    if queue_is_empty k.links q then ok k else rest

-- The removal of a lock from those that the running process holds, if it is among them.
unfoldable pub drop_held : Kernel → ℕ → Bool → Outcome Kernel
drop_held k l true =
    if k.overlaps l
    then stopped
    else queue_remove k.links (holding k.current_running) l >>= (λ r. ok (record k { links = r.0 }))
drop_held k l false = ok k

unfoldable pub has_held : ℕ → Kernel → ℕ → Outcome Bool
has_held fuel k l = elim (queue_has fuel k.links (holding k.current_running) l) [
  | none ↦ out_of_fuel
  | some b ↦ ok b
]

unfoldable pub do_mutex_lock_release : ℕ → Kernel → ℕ → Outcome Kernel
unfolding drop_held has_held
do_mutex_lock_release fuel k l = do
  held ← has_held fuel k l
  k' ← drop_held k l held
  do_unblock_all fuel (record k' { locked = update k'.locked l false }) (block_queue l)

-- The loop of TASK_EXITED: every lock in `holding` of the running process is released.
unfoldable pub release_holding : ℕ → Kernel → Outcome Kernel
release_holding zero k = out_of_fuel
release_holding (suc fuel) k =
    let q = holding k.current_running in
    let (links, l) = queue_dequeue k.links q in
    let released = do_mutex_lock_release fuel (record k { links = links }) l in
    let rest = (if k.overlaps l then stopped else released) >>= release_holding fuel in
    if queue_is_empty k.links q then ok k else rest

-- TASK_EXITED, in both switches: those that wait for the process, then its locks.
unfoldable pub exit_cleanup : ℕ → Kernel → Outcome Kernel
exit_cleanup fuel k = do_unblock_all fuel k (waiting k.current_running) >>= release_holding fuel

-- The first switch of `scheduler`: where the running process goes. `arg` is a queue or a time.
unfoldable pub leave : ℕ → Kernel → (arg : ℕ) → Status → Outcome Kernel
leave fuel k arg blocked = ok (record k {
  status = update k.status k.current_running blocked;
  chan = update k.chan k.current_running arg;
  links = queue_push k.links arg k.current_running;
})
leave fuel k arg sleeping = ok (record k {
  status = update k.status k.current_running sleeping;
  sleep_end = update k.sleep_end k.current_running ((get_timer k + arg) % u32);
  links = queue_push k.links ready_queue k.current_running;
})
leave fuel k arg exited = exit_cleanup fuel (set_status k k.current_running exited)
leave fuel k arg _ = ok (record k {
  status = update k.status k.current_running ready;
  links = queue_push k.links ready_queue k.current_running;
})

unfoldable pub check_sleeping : Kernel → Kernel
check_sleeping k =
    if is_sleeping (k.status k.current_running) && leb (k.sleep_end k.current_running) (get_timer k)
    then set_status k k.current_running ready
    else k

-- The second switch, on the process just taken from the ready queue.
unfoldable pub enter : ℕ → Kernel → Status → Outcome Kernel
enter fuel k sleeping = ok (record k { links = queue_push k.links ready_queue k.current_running })
enter fuel k embryo = ok (set_status k k.current_running ready)
enter fuel k exited = exit_cleanup fuel k
enter fuel k _ = ok k

-- One round of the `do` loop up to its test; an empty ready queue leaves NULL to be read.
unfoldable pub pick_round : ℕ → Kernel → Outcome Kernel
unfolding check_sleeping enter
pick_round fuel k =
    let (links, p) = queue_dequeue k.links ready_queue in
    let k' = check_sleeping (record k { links = links; current_running = p }) in
    if p == null then stopped else enter fuel k' (k'.status p)

unfoldable pub pick : ℕ → Kernel → Outcome Kernel
pick zero k = out_of_fuel
pick (suc fuel) k = pick_round fuel k >>= λ k'.
    let rest = pick fuel k' in if is_ready (k'.status k'.current_running) then ok k' else rest

save_cursor : Kernel → Kernel
save_cursor k = record k {
  cursor_x = update k.cursor_x k.current_running k.screen_cursor_x;
  cursor_y = update k.cursor_y k.current_running k.screen_cursor_y;
}

-- What follows the loop.
resume : ℕ → Kernel → Kernel
resume count k = set_timer count (record k {
  screen_cursor_x = k.cursor_x k.current_running;
  screen_cursor_y = k.cursor_y k.current_running;
  status = update k.status k.current_running running;
})

unfoldable pub scheduler : (fuel count : ℕ) → Kernel → (arg : ℕ) → Status → Outcome Kernel
unfolding save_cursor resume
scheduler fuel count k arg status = do
  left ← leave fuel k arg status
  picked ← pick fuel (save_cursor left)
  ok (resume count picked)

-- `run_sched`, `sleep_sched`, `block_sched` and `exit_sched` of arch/mips/kernel/entry.S call the
-- scheduler with TASK_RUNNING, TASK_SLEEPING, TASK_BLOCKED and TASK_EXITED.
unfoldable pub do_scheduler : (fuel count : ℕ) → Kernel → Outcome Kernel
do_scheduler fuel count k = scheduler fuel count k 0 running

unfoldable pub do_sleep : (fuel count : ℕ) → Kernel → (sleep_time : ℕ) → Outcome Kernel
do_sleep fuel count k sleep_time = scheduler fuel count k sleep_time sleeping

unfoldable pub do_block : (fuel count : ℕ) → Kernel → (queue : ℕ) → Outcome Kernel
do_block fuel count k queue = scheduler fuel count k queue blocked

unfoldable pub do_exit : (fuel count : ℕ) → Kernel → Outcome Kernel
do_exit fuel count k = scheduler fuel count k 0 exited
