-- ===== src/Boot/First.antt =====
-- From the first instruction of `_start` to the first task behind the shell: init/main.c, kernel/sched/proc.c
-- and kernel/sched/sched.c.
use tina.Base.{
  some, ℕ, ◌+◌, ◌<◌, ◌≡◌, inl, inr, refl, sym, ap, subst, ◌∙◌, false, [], ◌∷◌, arith, ◌∉◌,
}
use tina.Queue.{pcb}
use tina.Queue.Chain.{IsQueue}
use tina.Kernel.Outcome.{ok}
use tina.Kernel.{Kernel, TaskInfo, ready, running, ready_queue, is_exited}
use tina.Sched.{do_scheduler}
use tina.Sched.Switch.{yield-Switched}
use tina.Proc.{init_pcb, spawn}
use tina.Proc.Init.{IsFirst, init_pcb-IsFirst}
use tina.Proc.Spawn.{Spawned, spawn-Spawned}
use tina.Memory.{page_entry_number}
use tina.Memory.Frames.{init-clears}
use tina.Syscall.{Request, invoke, system_call_helper}
use tina.Syscall.Calls.{asked, helper-invoke}
use tina.Boot.{
  Machine, Labels, init_memory, init_variables, init_exception, init_exception_handler, start,
}

-- What the shell finds: it runs alone, no time has gone by, no page is valid, and every system call
-- finds its function.
pub record Started (l : Labels) (shell : TaskInfo) (m : Machine) : Type 0 where
  pub first : IsFirst m.kernel shell 1 0
  pub no_pages : (vpn : ℕ) → vpn < page_entry_number → m.memory.page_entrys vpn ≡ 0
  pub calls : (r : Request) → system_call_helper m.syscall (invoke r) ≡ some (asked r)

start-Started : (l : Labels) (shell : TaskInfo) (m : Machine) → Started l shell (start l shell m)
unfolding start init_memory init_variables init_exception init_exception_handler
start-Started l shell m = record {
  first = record {
    clock = f.clock;
    running_task = f.running_task;
    idle = f.idle;
    pid_zero = f.pid_zero;
    next_pid = f.next_pid;
    entry = f.entry;
    slot_zero = f.slot_zero;
    slots = f.slots;
  };
  no_pages = λ vpn h. init-clears m.memory vpn h;
  calls = λ r. helper-invoke m.syscall r;
}
  where
    k : Kernel
    k = record m.kernel { time_elapsed = 0; process_id = 1 }

    f : IsFirst (init_pcb l.embryo_start k shell) shell 1 0
    f = init_pcb-IsFirst l.embryo_start k shell

-- The first `spawn` of the shell, and the first time that it gives the processor away.
module _ (l : Labels) (shell task : TaskInfo) (m : Machine) where
  booted : Kernel
  booted = (start l shell m).kernel

  spawned : Kernel
  spawned = spawn l.embryo_start booted task

  booted-IsFirst : IsFirst booted shell 1 0
  unfolding booted
  booted-IsFirst = Started.first (start-Started l shell m)

  spawned-Spawned : Spawned l.embryo_start booted task 1 ((pcb + 1) ∷ []) spawned
  unfolding spawned
  spawned-Spawned =
      let f = booted-IsFirst in
      spawn-Spawned l.embryo_start booted task 1 [] (omega arith)
        (λ j b.
          let e : 0 ≡ j = omega (arith, b) in
          subst (λ n. is_exited (booted.status (pcb + n)) ≡ false) e (ap is_exited f.slot_zero))
        (f.slots 1 (omega arith) (omega arith)) f.idle refl

  -- From any contents of memory `_start` leads to the shell: it runs in slot 0 with pid 1 at its entry
  -- point, at time 0, the other slots are free, no task is ready, every entry of the page table is 0,
  -- and every system call finds its function in the table. Then the first `spawn` gives slot 1 to its
  -- task, with pid 2, and the next `do_scheduler`, with fuel, runs that task and leaves the shell alone
  -- in the ready queue.
  pub first_task :
      (fuel count : ℕ)
      → 0 < fuel
      → Started l shell (start l shell m)
        × Spawned l.embryo_start
            (start l shell m).kernel
            task
            1
            ((pcb + 1) ∷ [])
            (spawn l.embryo_start (start l shell m).kernel task)
        × ((k' : Kernel) × (do_scheduler fuel count
                (spawn l.embryo_start (start l shell m).kernel task)
              ≡ ok k')
            × (k'.current_running ≡ pcb + 1)
            × (k'.status (pcb + 1) ≡ running)
            × (k'.status (pcb + 0) ≡ ready)
            × IsQueue k'.links ready_queue ((pcb + 0) ∷ []))
  unfolding spawned booted
  first_task fuel count l' =
      let b = spawned-Spawned in
      let c : spawned.current_running ≡ pcb + 0 = b.runs_on ∙ booted-IsFirst.running_task in
      let (k', run, queue, was, now, runs) =
        yield-Switched fuel count spawned [] (pcb + 1) [] b.queued tt
          (inr (inl (b.status (pcb + 1)))) (omega (arith, c))
          (subst (λ p. p ∉ ((pcb + 1) ∷ [])) (sym c) refl) l' in
      (
        start-Started l shell m,
        b,
        (
          k',
          run,
          now,
          runs,
          subst (λ p. k'.status p ≡ ready) c was,
          subst (λ p. IsQueue k'.links ready_queue (p ∷ [])) c queue,
        ),
      )
