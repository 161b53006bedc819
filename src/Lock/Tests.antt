-- ===== src/Lock/Tests.antt =====
-- Runs of kernel/locking/lock.c, and its theorems at them.
use tina.Base.{some, List, ℕ, ◌≡◌, refl, true, false, [], ◌∷◌, arith, ltb, ◌==◌, if◌then◌else◌, has}
use tina.Queue.Chain.{IsQueue}
use tina.Kernel.Outcome.{ok}
use tina.Kernel.{Kernel, user_process, blocked, running, ready, ready_queue, holding}
use tina.Sched.{exit_cleanup}
use tina.Lock.Exit.{Apart}
use tina.Lock.Cleanup.{exit_cleanup_lem}
use tina.Base.Poll.{poll}
use tina.Lock.Spin.{Contest, Reach, inside, spin_together, spin_lock_acquire}

-- Task 1 runs and holds lock 100, for which 5 and 6 wait; 2 and 3 are ready. Lock 101 is free, and
-- lock 102 is not.
abbrev sample : Kernel
sample = record {
  links = record {
    next = λ p. if p == 2 then 3 else if p == 5 then 6 else 0;
    prev = λ p. if p == 3 then 2 else if p == 6 then 5 else 0;
    head = λ q. if q == 1 then 2 else if q == 304 then 5 else if q == 5 then 100 else 0;
    tail = λ q. if q == 1 then 3 else if q == 304 then 6 else if q == 5 then 100 else 0;
  };
  status = λ p. if p == 1 then running else if ltb p 4 then ready else blocked;
  pid = λ p. p;
  sleep_end = λ p. 0;
  chan = λ p. if ltb p 5 then 0 else 304;
  cursor_x = λ p. p;
  cursor_y = λ p. 0;
  image = λ p. record {
    name = 0;
    type = user_process;
    kernel_stack_top = 0;
    user_stack_top = 0;
    kernel_sp = 0;
    kernel_ra = 0;
    kernel_epc = 0;
    kernel_status = 0;
    user_sp = 0;
    user_ra = 0;
    user_epc = 0;
    user_status = 0;
  };
  locked = λ l. if l == 100 then true else l == 102;
  overlaps = λ l. false;
  current_running = 1;
  process_id = 7;
  screen_cursor_x = 50;
  screen_cursor_y = 20;
  time_elapsed = 0;
}

spin_together_example :
    (s : Contest) × Reach (record { status = true }) s × (s.tasks 1 ≡ inside) × (s.tasks 2 ≡ inside)
spin_together_example = spin_together (record { status = true }) 1 2 (omega arith)

-- The third reading finds the lock free.
test_spin : spin_lock_acquire 5 (λ j. ltb j 2) 0 ≡ some (3, record { status = true })
unfolding spin_lock_acquire poll
test_spin = refl

-- Task 1 holds 101 as well, for which 8 waits, and 7 waits for the end of task 1.
abbrev leaving : Kernel
leaving = record sample {
  links = record {
    next = λ p. if p == 100 then 101 else sample.links.next p;
    prev = λ p. if p == 101 then 100 else sample.links.prev p;
    head = λ q. if q == 6 then 7 else if q == 307 then 8 else sample.links.head q;
    tail = λ q.
        if q == 6 then 7 else if q == 307 then 8 else if q == 5 then 101 else sample.links.tail q;
  };
  locked = λ l. if l == 101 then true else sample.locked l;
}

abbrev waiters : ℕ → List ℕ
waiters l = if l == 100 then 5 ∷ 6 ∷ [] else 8 ∷ []

leaving-IsQueue : IsQueue leaving.links (holding 1) (100 ∷ 101 ∷ [])
leaving-IsQueue = record {
  front = refl;
  back = refl;
  forward = omega arith;
  distinct = (refl, (refl, tt));
}

leaving-Apart : Apart waiters (100 ∷ 101 ∷ []) (2 ∷ 3 ∷ 7 ∷ [])
leaving-Apart = (
  λ a i. ground arith,
  λ a i. ground arith,
  λ a i. ground arith,
  ((λ a i. ground arith, λ a i. ground arith, λ a i. ground arith), tt),
  (λ a i. ground arith, λ a i. ground arith, λ a i. ground arith, tt, tt),
)

exit_cleanup_lem_example :
    (k' : Kernel) × (exit_cleanup 6 leaving ≡ ok k')
    × IsQueue k'.links (holding 1) []
    × IsQueue k'.links ready_queue (2 ∷ 3 ∷ 7 ∷ 5 ∷ 6 ∷ 8 ∷ [])
    × ((l : ℕ) → k'.locked l ≡ (if has l (100 ∷ 101 ∷ []) then false else leaving.locked l))
    × ((p : ℕ) → k'.status p ≡ (if has p (7 ∷ 5 ∷ 6 ∷ 8 ∷ []) then ready else leaving.status p))
exit_cleanup_lem_example =
    exit_cleanup_lem 6 leaving 1 2 waiters (100 ∷ 101 ∷ []) (7 ∷ []) (2 ∷ 3 ∷ []) refl
      (refl, (refl, tt))
      (record { front = refl; back = refl; forward = omega arith; distinct = (refl, tt) })
      leaving-IsQueue
      (record { front = refl; back = refl; forward = omega arith; distinct = (refl, (refl, tt)) })
      (
        record { front = refl; back = refl; forward = omega arith; distinct = (refl, (refl, tt)) },
        (record { front = refl; back = refl; forward = omega arith; distinct = (refl, tt) }, tt),
      )
      (λ a i. ground arith) leaving-Apart (omega arith, (omega arith, tt)) (omega arith)
      (omega arith)
