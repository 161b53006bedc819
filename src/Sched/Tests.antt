-- ===== src/Sched/Tests.antt =====
-- Runs of kernel/sched/sched.c, and its theorems at them.
use tina.Base.{ℕ, some, ◌*◌, ◌≡◌, inl, refl, false, [], ◌∷◌, arith, ltb, ◌==◌, if◌then◌else◌, All}
use tina.Queue.{Links}
use tina.Queue.Chain.{IsQueue, Disjoint}
use tina.Kernel.Outcome.{ok, out_of_fuel}
use tina.Kernel.{Kernel, Image, user_process, sleeping, blocked, running, ready, ready_queue}
use tina.Base.Poll.{poll}
use tina.Sched.Clock.{Late, latency-Late}
use tina.Sched.{
  latency, still_waiting, disable_interrupt, enable_interrupt, get_timer, pick, do_scheduler,
  do_block, do_sleep,
}
use tina.Sched.Pick.{Asleep, Picked, pick-first}
use tina.Sched.Switch.{block-Switched, yield-Switched, sleep_hangs}

abbrev links : Links
links = record {
  next = λ p. if p == 2 then 3 else if p == 5 then 6 else 0;
  prev = λ p. if p == 3 then 2 else if p == 6 then 5 else 0;
  head = λ q. if q == 1 then 2 else if q == 90 then 5 else 0;
  tail = λ q. if q == 1 then 3 else if q == 90 then 6 else 0;
}

abbrev blank : Image
blank = record {
  name = 0;
  type = user_process;
  kernel_stack_top = 0;
  user_stack_top = 0;
  kernel_sp = 0;
  kernel_ra = 0;
  kernel_epc = 0;
  kernel_status = 0;
  user_sp = 0;
  user_ra = 0;
  user_epc = 0;
  user_status = 0;
}

-- Task 1 runs, 2 sleeps until time 9, 3 is ready, 5 and 6 are blocked on queue 90.
abbrev sample : Kernel
sample = record {
  links = links;
  status = λ p.
      if p == 1 then running else if p == 2 then sleeping else if p == 3 then ready else blocked;
  pid = λ p. p;
  sleep_end = λ p. if p == 2 then 9 else 0;
  chan = λ p. if ltb p 5 then 0 else 90;
  cursor_x = λ p. p;
  cursor_y = λ p. 0;
  image = λ p. blank;
  locked = λ l. false;
  overlaps = λ l. false;
  current_running = 1;
  process_id = 7;
  screen_cursor_x = 50;
  screen_cursor_y = 20;
  time_elapsed = 0;
}

-- Task 1 runs and the only other task, 2, sleeps.
abbrev drowsy : Kernel
drowsy = record sample {
  links = record links { next = λ p. 0; tail = λ q. if q == 1 then 2 else 0 };
}

ready-IsQueue : IsQueue sample.links ready_queue (2 ∷ 3 ∷ [])
ready-IsQueue = record {
  front = refl;
  back = refl;
  forward = omega arith;
  distinct = (refl, (refl, tt));
}

drowsy-IsQueue : IsQueue drowsy.links ready_queue (2 ∷ [])
drowsy-IsQueue = record { front = refl; back = refl; forward = omega arith; distinct = (refl, tt) }

blocked-IsQueue : IsQueue sample.links 90 (5 ∷ 6 ∷ [])
blocked-IsQueue = record {
  front = refl;
  back = refl;
  forward = omega arith;
  distinct = (refl, (refl, tt));
}

asleep : All (Asleep sample) (2 ∷ [])
unfolding get_timer
asleep = ((refl, omega arith), tt)

apart : Disjoint (5 ∷ 6 ∷ []) (2 ∷ 3 ∷ [])
apart a i = ground arith

pick-first_example :
    (k' : Kernel) × (pick 2 sample ≡ ok k') × Picked sample 3 (2 ∷ 3 ∷ []) (2 ∷ []) k'
pick-first_example = pick-first 2 sample (2 ∷ []) 3 [] ready-IsQueue asleep (inl refl) (omega arith)

block-Switched_example :
    (k' : Kernel) × (do_block 2 600 sample 90 ≡ ok k')
    × IsQueue k'.links 90 (5 ∷ 6 ∷ 1 ∷ [])
    × (k'.status 1 ≡ blocked)
    × (k'.chan 1 ≡ 90)
    × (k'.current_running ≡ 3)
    × (k'.status 3 ≡ running)
    × IsQueue k'.links ready_queue (2 ∷ [])
block-Switched_example =
    block-Switched 2 600 sample (2 ∷ []) 3 [] ready-IsQueue asleep (inl refl) (omega arith) refl
      (omega arith) 90 (5 ∷ 6 ∷ []) (omega arith) blocked-IsQueue apart refl

yield-Switched_example :
    (k' : Kernel) × (do_scheduler 2 600 sample ≡ ok k')
    × IsQueue k'.links ready_queue (1 ∷ 2 ∷ [])
    × (k'.status 1 ≡ ready)
    × (k'.current_running ≡ 3)
    × (k'.status 3 ≡ running)
yield-Switched_example =
    yield-Switched 2 600 sample (2 ∷ []) 3 [] ready-IsQueue asleep (inl refl) (omega arith) refl
      (omega arith)

sleep_hangs_example : do_sleep 1000 600 drowsy 5 ≡ out_of_fuel
unfolding get_timer
sleep_hangs_example =
    sleep_hangs 1000 600 5 drowsy (2 ∷ []) drowsy-IsQueue asleep (omega arith) refl (omega arith)
      (omega arith)

-- A clock that moves on by half a second from one reading to the next.
abbrev half_seconds : ℕ → ℕ
half_seconds j = j * 500000

latency-Late_example : Late half_seconds 3 2 10 (latency 20 half_seconds 3 2)
latency-Late_example = latency-Late 20 6 half_seconds 3 2 (omega arith) (omega arith) (omega arith)

-- Behind the end of the clock the wait for 2 ends at once.
test_latency : latency 20 (λ j. if j == 0 then 4294000000 else 500) 0 2 ≡ some 2
unfolding latency still_waiting poll
test_latency = refl

test_interrupts : disable_interrupt (enable_interrupt 0x10008000) ≡ 0x10008000
unfolding disable_interrupt enable_interrupt
test_interrupts = refl
