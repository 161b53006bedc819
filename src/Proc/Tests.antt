-- ===== src/Proc/Tests.antt =====
-- Runs of kernel/sched/proc.c, and its theorems at them.
use tina.Base.{
  inr, ℕ, zero, suc, ◌+◌, ◌<◌, ◌≡◌, inl, refl, false, [], ◌∷◌, arith, ltb, ◌==◌, if◌then◌else◌,
}
use tina.Queue.{Links, pcb}
use tina.Queue.Chain.{IsQueue}
use tina.Kernel.{
  is_exited, Kernel, Image, TaskInfo, user_process, blocked, running, ready, exited, ready_queue,
}
use tina.Sched.{do_scheduler}
use tina.Kernel.Outcome.{ok, ◌>>=◌}
use tina.Proc.{spawn, kill}
use tina.Proc.Spawn.{Spawned, spawn-Spawned}
use tina.Proc.Kill.{IsFirst, kill_blocked, kill_current_undone}

abbrev links : Links
links = record {
  next = λ p. if p == 2 then 3 else if p == 5 then 6 else 0;
  prev = λ p. if p == 3 then 2 else if p == 6 then 5 else 0;
  head = λ q. if q == 1 then 2 else if q == 90 then 5 else 0;
  tail = λ q. if q == 1 then 3 else if q == 90 then 6 else 0;
}

abbrev blank : Image
blank = record {
  name = 0;
  type = user_process;
  kernel_stack_top = 0;
  user_stack_top = 0;
  kernel_sp = 0;
  kernel_ra = 0;
  kernel_epc = 0;
  kernel_status = 0;
  user_sp = 0;
  user_ra = 0;
  user_epc = 0;
  user_status = 0;
}

-- Task 1 runs, 2 and 3 are ready, 5 and 6 are blocked on queue 90, and the other slots are free.
abbrev sample : Kernel
sample = record {
  links = links;
  status = λ p.
      if p == 1
      then running
      else if ltb p 4
      then ready
      else if p == 4
      then exited
      else if ltb p 7
      then blocked
      else exited;
  pid = λ p. p;
  sleep_end = λ p. 0;
  chan = λ p. if ltb p 5 then 0 else 90;
  cursor_x = λ p. p;
  cursor_y = λ p. 0;
  image = λ p. blank;
  locked = λ l. false;
  overlaps = λ l. false;
  current_running = 1;
  process_id = 7;
  screen_cursor_x = 50;
  screen_cursor_y = 20;
  time_elapsed = 0;
}

-- Task 2 has been killed and is still in the ready queue.
abbrev killed : Kernel
killed = record sample { status = λ p. if p == 2 then exited else sample.status p }

abbrev task : TaskInfo
task = record { name = 0; entry_point = 0x1000; type = user_process }

ready-IsQueue : IsQueue links ready_queue (2 ∷ 3 ∷ [])
ready-IsQueue = record {
  front = refl;
  back = refl;
  forward = omega arith;
  distinct = (refl, (refl, tt));
}

blocked-IsQueue : IsQueue links 90 (5 ∷ 6 ∷ [])
blocked-IsQueue = record {
  front = refl;
  back = refl;
  forward = omega arith;
  distinct = (refl, (refl, tt));
}

below_three : (P : ℕ → Type 0) → P 0 → P 1 → P 2 → (j : ℕ) → j < 3 → P j
below_three P a b c zero l = a
below_three P a b c (suc zero) l = b
below_three P a b c (suc (suc zero)) l = c
below_three P a b c (suc (suc (suc j))) l = absurd (omega arith)

spawn-Spawned_example : Spawned 0 sample task 3 (2 ∷ 3 ∷ 4 ∷ []) (spawn 0 sample task)
spawn-Spawned_example =
    spawn-Spawned 0 sample task 3 (2 ∷ 3 ∷ []) (omega arith)
      (below_three (λ j. is_exited (sample.status (pcb + j)) ≡ false) refl refl refl) refl
      ready-IsQueue refl

-- The task in slot 5 is the first live one with pid 6.
sixth : IsFirst sample 6 5
sixth = record {
  before = λ j l. inl (omega arith);
  in_table = omega arith;
  named = refl;
  live = refl;
}

shell_live : IsFirst sample 1 0
shell_live = record {
  before = λ j l. absurd (omega arith);
  in_table = omega arith;
  named = refl;
  live = refl;
}

-- 5, 6 and 7 are blocked on queue 90, and `pcb[0]` stands in the ready queue, before 2 and 3.
abbrev crowded : Kernel
crowded = record sample {
  links = record {
    next = λ p. if p == 6 then 7 else if p == 1 then 2 else sample.links.next p;
    prev = λ p. if p == 7 then 6 else if p == 2 then 1 else sample.links.prev p;
    head = λ q. if q == 1 then 1 else sample.links.head q;
    tail = λ q. if q == 90 then 7 else sample.links.tail q;
  };
  status = λ p. if p == 4 then running else if p == 7 then blocked else sample.status p;
  current_running = 4;
}

sixth_of_three : IsFirst crowded 6 5
sixth_of_three = record {
  before = λ j l. inl (omega arith);
  in_table = omega arith;
  named = refl;
  live = refl;
}

kill_blocked_example :
    (k' : Kernel) × (kill crowded 6 ≡ ok k')
    × IsQueue k'.links 90 (5 ∷ 7 ∷ [])
    × IsQueue k'.links ready_queue (1 ∷ 2 ∷ 3 ∷ 6 ∷ [])
    × ((p : ℕ) → k'.status p ≡ (if 6 == p then exited else crowded.status p))
kill_blocked_example =
    kill_blocked crowded 6 5 90 (5 ∷ []) (7 ∷ []) (1 ∷ 2 ∷ 3 ∷ []) sixth_of_three refl (omega arith)
      (omega arith)
      (record {
        front = refl;
        back = refl;
        forward = omega arith;
        distinct = (refl, (refl, (refl, tt)));
      })
      (refl, (refl, (refl, tt))) (inr (inr (omega arith)))
      (record {
        front = refl;
        back = refl;
        forward = omega arith;
        distinct = (refl, (refl, (refl, tt)));
      })
      (λ a i. ground arith)

kill_current_undone_example : (kill sample 1 >>= do_scheduler 3 600) ≡ do_scheduler 3 600 sample
kill_current_undone_example = kill_current_undone 3 600 sample 1 0 shell_live refl refl
