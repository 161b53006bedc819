-- ===== src/Syscall/Calls.antt =====
-- Each call reaches its function: kernel/syscall/syscall.c and init/main.c.
use tina.Base.{Option, ℕ, ◌≡◌, refl, some}
use tina.Syscall.{
  Handler, do_sleep, spawn, kill, wait, exit, getpid, do_block, do_unblock_one, do_unblock_all,
  screen_write, screen_move_cursor, screen_reflush, command_clear, do_mutex_lock_init,
  do_mutex_lock_acquire, do_mutex_lock_release, do_condition_init, do_condition_wait,
  do_condition_signal, do_condition_broadcast, do_semaphore_init, do_semaphore_down,
  do_semaphore_up, do_barrier_init, do_barrier_wait, do_init_mac, do_net_recv, do_net_send,
  do_wait_recv_package, ignore, Request, Invoked, invoke, init_syscall, system_call_helper,
  sys_sleep, sys_spawn, sys_kill, sys_waitpid, sys_getpid, sys_exit, sys_block, sys_unblock_one,
  sys_unblock_all, sys_write, sys_reflush, sys_move_cursor, sys_clear, mutex_lock_init,
  mutex_lock_acquire, mutex_lock_release, condition_init, condition_wait, condition_signal,
  condition_broadcast, semaphore_init, semaphore_up, semaphore_down, barrier_init, barrier_wait,
  sys_init_mac, sys_net_recv, sys_net_send, sys_wait_recv_package,
}

-- What a task asks for: the function of the kernel with the arguments of the call.
abbrev pub asked : Request → Invoked
asked (sys_sleep time) = record { handler = do_sleep; arg1 = time; arg2 = ignore; arg3 = ignore }
asked (sys_spawn task) = record { handler = spawn; arg1 = task; arg2 = ignore; arg3 = ignore }
asked (sys_kill id) = record { handler = kill; arg1 = id; arg2 = ignore; arg3 = ignore }
asked (sys_waitpid id) = record { handler = wait; arg1 = id; arg2 = ignore; arg3 = ignore }
asked sys_getpid = record { handler = getpid; arg1 = ignore; arg2 = ignore; arg3 = ignore }
asked sys_exit = record { handler = exit; arg1 = ignore; arg2 = ignore; arg3 = ignore }
asked (sys_block queue) = record { handler = do_block; arg1 = queue; arg2 = ignore; arg3 = ignore }
asked (sys_unblock_one queue) = record {
  handler = do_unblock_one;
  arg1 = queue;
  arg2 = ignore;
  arg3 = ignore;
}
asked (sys_unblock_all queue) = record {
  handler = do_unblock_all;
  arg1 = queue;
  arg2 = ignore;
  arg3 = ignore;
}
asked (sys_write buff) = record {
  handler = screen_write;
  arg1 = buff;
  arg2 = ignore;
  arg3 = ignore;
}
asked sys_reflush = record { handler = screen_reflush; arg1 = ignore; arg2 = ignore; arg3 = ignore }
asked (sys_move_cursor x y) = record {
  handler = screen_move_cursor;
  arg1 = x;
  arg2 = y;
  arg3 = ignore;
}
asked sys_clear = record { handler = command_clear; arg1 = ignore; arg2 = ignore; arg3 = ignore }
asked (mutex_lock_init lock) = record {
  handler = do_mutex_lock_init;
  arg1 = lock;
  arg2 = ignore;
  arg3 = ignore;
}
asked (mutex_lock_acquire lock) = record {
  handler = do_mutex_lock_acquire;
  arg1 = lock;
  arg2 = ignore;
  arg3 = ignore;
}
asked (mutex_lock_release lock) = record {
  handler = do_mutex_lock_release;
  arg1 = lock;
  arg2 = ignore;
  arg3 = ignore;
}
asked (condition_init cond) = record {
  handler = do_condition_init;
  arg1 = cond;
  arg2 = ignore;
  arg3 = ignore;
}
asked (condition_wait lock condition) = record {
  handler = do_condition_wait;
  arg1 = lock;
  arg2 = condition;
  arg3 = ignore;
}
asked (condition_signal condition) = record {
  handler = do_condition_signal;
  arg1 = condition;
  arg2 = ignore;
  arg3 = ignore;
}
asked (condition_broadcast condition) = record {
  handler = do_condition_broadcast;
  arg1 = condition;
  arg2 = ignore;
  arg3 = ignore;
}
asked (semaphore_init sem val) = record {
  handler = do_semaphore_init;
  arg1 = sem;
  arg2 = val;
  arg3 = ignore;
}
asked (semaphore_up sem) = record {
  handler = do_semaphore_up;
  arg1 = sem;
  arg2 = ignore;
  arg3 = ignore;
}
asked (semaphore_down sem) = record {
  handler = do_semaphore_down;
  arg1 = sem;
  arg2 = ignore;
  arg3 = ignore;
}
asked (barrier_init barrier val) = record {
  handler = do_barrier_init;
  arg1 = barrier;
  arg2 = val;
  arg3 = ignore;
}
asked (barrier_wait barrier) = record {
  handler = do_barrier_wait;
  arg1 = barrier;
  arg2 = ignore;
  arg3 = ignore;
}
asked sys_init_mac = record { handler = do_init_mac; arg1 = ignore; arg2 = ignore; arg3 = ignore }
asked (sys_net_recv rd rd_phy daddr) = record {
  handler = do_net_recv;
  arg1 = rd;
  arg2 = rd_phy;
  arg3 = daddr;
}
asked (sys_net_send td td_phy) = record {
  handler = do_net_send;
  arg1 = td;
  arg2 = td_phy;
  arg3 = ignore;
}
asked sys_wait_recv_package = record {
  handler = do_wait_recv_package;
  arg1 = ignore;
  arg2 = ignore;
  arg3 = ignore;
}

pub helper-invoke :
    (table : ℕ → Option Handler) (r : Request)
    → system_call_helper (init_syscall table) (invoke r) ≡ some (asked r)
unfolding system_call_helper init_syscall invoke
helper-invoke table (sys_sleep time) = refl
helper-invoke table (sys_spawn task) = refl
helper-invoke table (sys_kill id) = refl
helper-invoke table (sys_waitpid id) = refl
helper-invoke table sys_getpid = refl
helper-invoke table sys_exit = refl
helper-invoke table (sys_block queue) = refl
helper-invoke table (sys_unblock_one queue) = refl
helper-invoke table (sys_unblock_all queue) = refl
helper-invoke table (sys_write buff) = refl
helper-invoke table sys_reflush = refl
helper-invoke table (sys_move_cursor x y) = refl
helper-invoke table sys_clear = refl
helper-invoke table (mutex_lock_init lock) = refl
helper-invoke table (mutex_lock_acquire lock) = refl
helper-invoke table (mutex_lock_release lock) = refl
helper-invoke table (condition_init cond) = refl
helper-invoke table (condition_wait lock condition) = refl
helper-invoke table (condition_signal condition) = refl
helper-invoke table (condition_broadcast condition) = refl
helper-invoke table (semaphore_init sem val) = refl
helper-invoke table (semaphore_up sem) = refl
helper-invoke table (semaphore_down sem) = refl
helper-invoke table (barrier_init barrier val) = refl
helper-invoke table (barrier_wait barrier) = refl
helper-invoke table sys_init_mac = refl
helper-invoke table (sys_net_recv rd rd_phy daddr) = refl
helper-invoke table (sys_net_send td td_phy) = refl
helper-invoke table sys_wait_recv_package = refl
