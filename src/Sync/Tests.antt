-- ===== src/Sync/Tests.antt =====
-- Runs of kernel/locking/cond.c, sem.c and barrier.c.
use tina.Base.{false, update, ℕ, ◌≡◌, refl, true, [], ◌∷◌, arith, ltb, ◌==◌, if◌then◌else◌}
use tina.Kernel.Outcome.{ok}
use tina.Kernel.{Kernel, user_process, blocked, running, ready}
use tina.Sync.{Barrier, returned, do_semaphore_up, do_barrier_wait, Shared, Semaphore}
use tina.Sync.Raise.{CanRaise, Raised, up-Raised, arrive-Raised}

-- Task 1 runs and holds lock 100, for which 5 and 6 wait; 2 and 3 are ready. Nobody
-- waits in queue 900.
abbrev sample : Kernel
sample = record {
  links = record {
    next = λ p. if p == 2 then 3 else if p == 5 then 6 else 0;
    prev = λ p. if p == 3 then 2 else if p == 6 then 5 else 0;
    head = λ q. if q == 1 then 2 else if q == 304 then 5 else if q == 5 then 100 else 0;
    tail = λ q. if q == 1 then 3 else if q == 304 then 6 else if q == 5 then 100 else 0;
  };
  status = λ p. if p == 1 then running else if ltb p 4 then ready else blocked;
  pid = λ p. p;
  sleep_end = λ p. 0;
  chan = λ p. if ltb p 5 then 0 else 304;
  cursor_x = λ p. p;
  cursor_y = λ p. 0;
  image = λ p. record {
    name = 0;
    type = user_process;
    kernel_stack_top = 0;
    user_stack_top = 0;
    kernel_sp = 0;
    kernel_ra = 0;
    kernel_epc = 0;
    kernel_status = 0;
    user_sp = 0;
    user_ra = 0;
    user_epc = 0;
    user_status = 0;
  };
  locked = λ l. if l == 100 then true else l == 102;
  overlaps = λ l. false;
  current_running = 1;
  process_id = 7;
  screen_cursor_x = 50;
  screen_cursor_y = 20;
  time_elapsed = 0;
}

abbrev shared : Shared
shared = record { kernel = sample; number = λ p. 0 }

abbrev semaphore : Semaphore
semaphore = record { queue = 900; lock = 100; count = 0 }

-- 7 and 8 wait in queue 900, and lock 103 is free.
abbrev crowded : Kernel
crowded = record sample {
  links = record {
    next = λ p. if p == 7 then 8 else sample.links.next p;
    prev = λ p. if p == 8 then 7 else sample.links.prev p;
    head = λ q. if q == 900 then 7 else sample.links.head q;
    tail = λ q. if q == 900 then 8 else sample.links.tail q;
  };
}

crowded-CanRaise : CanRaise 3 crowded 103 900 (100 ∷ []) (7 ∷ 8 ∷ []) [] (2 ∷ 3 ∷ [])
crowded-CanRaise = record {
  free = refl;
  own_links = (refl, (refl, tt));
  lock = omega arith;
  held = record { front = refl; back = refl; forward = omega arith; distinct = (refl, tt) };
  held_back = (refl, tt);
  new = refl;
  lock_queue = record { front = refl; back = refl; forward = tt; distinct = tt };
  ready_tasks = record {
    front = refl;
    back = refl;
    forward = omega arith;
    distinct = (refl, (refl, tt));
  };
  own_queue = record {
    front = refl;
    back = refl;
    forward = omega arith;
    distinct = (refl, (refl, tt));
  };
  other_queue = (omega arith, omega arith, omega arith);
  lock_ready = λ a i. ground arith;
  held_lock = λ a i. refl;
  held_ready = λ a i. ground arith;
  held_own = λ a i. ground arith;
  lock_own = λ a i. ground arith;
  ready_own = λ a i. ground arith;
  enough = (omega arith, omega arith, omega arith);
}

-- Two have arrived at a barrier for three.
abbrev numbers : Shared
numbers = record { kernel = crowded; number = λ a. if a == 10 then 2 else 3 }

abbrev gate : Barrier
gate = record { queue = 900; lock = 103; count = 10; max = 11 }

abbrev counter : Semaphore
counter = record { queue = 900; lock = 103; count = 10 }

up-Raised_example :
    (k' : Kernel) × (do_semaphore_up 3 600 numbers counter
      ≡ ok (returned (record numbers { kernel = k'; number = update numbers.number 10 3 })))
    × Raised crowded 103 900 (7 ∷ []) (8 ∷ []) [] (2 ∷ 3 ∷ []) k'
up-Raised_example =
    up-Raised 3 (100 ∷ []) (7 ∷ 8 ∷ []) [] (2 ∷ 3 ∷ []) crowded-CanRaise 600 numbers counter refl
      refl refl

arrive-Raised_example :
    (st' : Shared) × (do_barrier_wait 3 600 numbers gate ≡ ok (returned st'))
    × ((a : ℕ) → st'.number a ≡ (if 10 == a then 0 else numbers.number a))
    × Raised crowded 103 900 (7 ∷ 8 ∷ []) [] [] (2 ∷ 3 ∷ []) st'.kernel
arrive-Raised_example =
    arrive-Raised 3 (100 ∷ []) (7 ∷ 8 ∷ []) [] (2 ∷ 3 ∷ []) crowded-CanRaise 600 numbers gate refl
      refl refl refl
