-- ===== src/Boot/Tests.antt =====
-- A start from memory that holds anything: init/main.c.
use tina.Base.{◌%◌, ◌≡◌, true, none, [], ◌∷◌, arith}
use tina.Queue.Chain.{IsQueue}
use tina.Kernel.Outcome.{ok}
use tina.Kernel.{Kernel, Image, TaskInfo, user_process, blocked, running, ready, ready_queue}
use tina.Sched.{do_scheduler}
use tina.Proc.{spawn}
use tina.Proc.Spawn.{Spawned}
use tina.Boot.{Machine, Labels, start}
use tina.Boot.First.{Started, first_task}

abbrev labels : Labels
labels = record {
  exception_handler_entry = 0xa0801000;
  exception_handler_size = 0x80;
  tlb_exception_handler_entry = 0xa0802000;
  tlb_exception_handler_size = 0x40;
  embryo_start = 0xa0803000;
}

abbrev junk : Image
junk = record {
  name = 1;
  type = user_process;
  kernel_stack_top = 2;
  user_stack_top = 3;
  kernel_sp = 4;
  kernel_ra = 5;
  kernel_epc = 6;
  kernel_status = 7;
  user_sp = 8;
  user_ra = 9;
  user_epc = 10;
  user_status = 11;
}

abbrev off : Machine
off = record {
  kernel = record {
    links = record { next = λ p. p; prev = λ p. 3; head = λ q. q; tail = λ q. 8 };
    status = λ p. blocked;
    pid = λ p. p;
    sleep_end = λ p. 77;
    chan = λ p. p;
    cursor_x = λ p. p;
    cursor_y = λ p. 5;
    image = λ p. junk;
    locked = λ l. true;
    overlaps = λ l. true;
    current_running = 9;
    process_id = 12;
    screen_cursor_x = 50;
    screen_cursor_y = 20;
    time_elapsed = 1234;
  };
  memory = record { page_entrys = λ vpn. 5; count = 3 };
  bytes = λ a. a % 256;
  syscall = λ n. none;
  screen = record {
    new_screen = λ k. 1;
    old_screen = λ k. 2;
    screen_cursor_x = 50;
    screen_cursor_y = 20;
  };
  sent = [];
}

abbrev shell : TaskInfo
shell = record { name = 0; entry_point = 0xa0810000; type = user_process }

abbrev task : TaskInfo
task = record { name = 1; entry_point = 0xa0820000; type = user_process }

first_task_example :
    Started labels shell (start labels shell off)
    × Spawned labels.embryo_start
        (start labels shell off).kernel
        task
        1
        (2 ∷ [])
        (spawn labels.embryo_start (start labels shell off).kernel task)
    × ((k' : Kernel) × (do_scheduler 1 600
            (spawn labels.embryo_start (start labels shell off).kernel task)
          ≡ ok k')
        × (k'.current_running ≡ 2)
        × (k'.status 2 ≡ running)
        × (k'.status 1 ≡ ready)
        × IsQueue k'.links ready_queue (1 ∷ []))
first_task_example = first_task labels shell task off 1 600 (omega arith)
