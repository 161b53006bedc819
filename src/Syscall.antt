-- ===== src/Syscall.antt =====
-- System calls: kernel/syscall/syscall.c and `init_syscall` of init/main.c. `invoke_syscall`, in assembler,
-- raises the exception SYS with the four words of the call.
pub mod Calls
use tina.Base.{
  bit_and, ℕ, zero, suc, ◌+◌, ◌-◌, ◌*◌, ◌/◌, ◌%◌, ◌^◌, ◌≤◌, ◌<◌, min, max, ◌≡◌, ◌≢◌, ◌↔◌, ◌⊎◌, inl,
  inr, refl, sym, ap, ap₂, subst, ◌∙◌, fun_ext, Bool, true, false, not, ◌&&◌, ◌||◌, false≢true,
  Option, none, some, List, [], ◌∷◌, ◌++◌, map, append-nil, append_assoc, arith, ltb, leb, ◌==◌,
  ==_iff, ==_ne, ltb→lt, lt→ltb, leb_lt, leb_le, ltb_le, dec_lt, ℕ_discrete, if◌then◌else◌,
  Bool-cases, Option-cases, update, update-ne, update-eq, length, get_or, set, take, drop,
  replicate, All, has, ◌∈◌, ◌∉◌, Distinct, has-append, not-mem-cons, not-mem-append, mem_middle,
  mem-append_left, length-append, length-set, get_or-set, length-replicate, get_or-replicate,
}

-- The numbers of include/sys/syscall.h.
abbrev pub syscall_sleep : ℕ
syscall_sleep = 2

abbrev pub syscall_spawn : ℕ
syscall_spawn = 3

abbrev pub syscall_kill : ℕ
syscall_kill = 4

abbrev pub syscall_wait : ℕ
syscall_wait = 5

abbrev pub syscall_exit : ℕ
syscall_exit = 6

abbrev pub syscall_getpid : ℕ
syscall_getpid = 7

abbrev pub syscall_block : ℕ
syscall_block = 10

abbrev pub syscall_unblock_one : ℕ
syscall_unblock_one = 11

abbrev pub syscall_unblock_all : ℕ
syscall_unblock_all = 12

abbrev pub syscall_write : ℕ
syscall_write = 20

abbrev pub syscall_read : ℕ
syscall_read = 21

abbrev pub syscall_cursor : ℕ
syscall_cursor = 22

abbrev pub syscall_reflush : ℕ
syscall_reflush = 23

abbrev pub syscall_clear : ℕ
syscall_clear = 24

abbrev pub syscall_mutex_lock_init : ℕ
syscall_mutex_lock_init = 30

abbrev pub syscall_mutex_lock_acquire : ℕ
syscall_mutex_lock_acquire = 31

abbrev pub syscall_mutex_lock_release : ℕ
syscall_mutex_lock_release = 32

abbrev pub syscall_cond_init : ℕ
syscall_cond_init = 33

abbrev pub syscall_cond_wait : ℕ
syscall_cond_wait = 34

abbrev pub syscall_cond_signal : ℕ
syscall_cond_signal = 35

abbrev pub syscall_cond_broadcast : ℕ
syscall_cond_broadcast = 36

abbrev pub syscall_sem_init : ℕ
syscall_sem_init = 37

abbrev pub syscall_sem_up : ℕ
syscall_sem_up = 38

abbrev pub syscall_sem_down : ℕ
syscall_sem_down = 39

abbrev pub syscall_barrier_init : ℕ
syscall_barrier_init = 40

abbrev pub syscall_barrier_wati : ℕ
syscall_barrier_wati = 41

abbrev pub syscall_init_mac : ℕ
syscall_init_mac = 50

abbrev pub syscall_net_recv : ℕ
syscall_net_recv = 51

abbrev pub syscall_net_send : ℕ
syscall_net_send = 52

abbrev pub syscall_wait_recv_package : ℕ
syscall_wait_recv_package = 53

-- The kernel's functions behind the calls.
pub data Handler : Type 0 where
  do_sleep spawn kill wait exit : Handler
  getpid do_block do_unblock_one do_unblock_all screen_write : Handler
  screen_move_cursor screen_reflush command_clear do_mutex_lock_init do_mutex_lock_acquire : Handler
  do_mutex_lock_release do_condition_init do_condition_wait do_condition_signal
        do_condition_broadcast :
      Handler
  do_semaphore_init do_semaphore_down do_semaphore_up do_barrier_init do_barrier_wait : Handler
  do_init_mac do_net_recv do_net_send do_wait_recv_package : Handler

-- `syscall[number] = handler`
abbrev entry : (number : ℕ) → Handler → (ℕ → Option Handler) → ℕ → Option Handler
entry number handler table fn = if fn == number then some handler else table fn

-- The assignments to the table `syscall`; the other entries are left as they are.
unfoldable pub init_syscall : (table : ℕ → Option Handler) → ℕ → Option Handler
init_syscall table = entry syscall_sleep do_sleep (
    entry syscall_spawn spawn (
      entry syscall_kill kill (
        entry syscall_wait wait (
          entry syscall_exit exit (
            entry syscall_getpid getpid (
              entry syscall_block do_block (
                entry syscall_unblock_one do_unblock_one (
                  entry syscall_unblock_all do_unblock_all (
                    entry syscall_write screen_write (
                      entry syscall_cursor screen_move_cursor (
                        entry syscall_reflush screen_reflush (
                          entry syscall_clear command_clear (
                            entry syscall_mutex_lock_init do_mutex_lock_init (
                              entry syscall_mutex_lock_acquire do_mutex_lock_acquire (
                                entry syscall_mutex_lock_release do_mutex_lock_release (
                                  entry syscall_cond_init do_condition_init (
                                    entry syscall_cond_wait do_condition_wait (
                                      entry syscall_cond_signal do_condition_signal (
                                        entry syscall_cond_broadcast do_condition_broadcast (
                                          entry syscall_sem_init do_semaphore_init (
                                            entry syscall_sem_down do_semaphore_down (
                                              entry syscall_sem_up do_semaphore_up (
                                                entry syscall_barrier_init do_barrier_init (
                                                  entry syscall_barrier_wati do_barrier_wait (
                                                    entry syscall_init_mac do_init_mac (
                                                      entry syscall_net_recv do_net_recv (
                                                        entry syscall_net_send do_net_send (
                                                          entry syscall_wait_recv_package
                                                            do_wait_recv_package
                                                            table))))))))))))))))))))))))))))

-- A call with its three arguments.
pub record Call : Type 0 where
  pub fn : ℕ
  pub arg1 : ℕ
  pub arg2 : ℕ
  pub arg3 : ℕ

abbrev pub ignore : ℕ
ignore = 0

-- The functions that tasks call.
pub data Request : Type 0 where
  sys_sleep : (time : ℕ) → Request
  sys_spawn : (task : ℕ) → Request
  sys_kill : (id : ℕ) → Request
  sys_waitpid : (id : ℕ) → Request
  sys_getpid : Request
  sys_exit : Request
  sys_block : (queue : ℕ) → Request
  sys_unblock_one : (queue : ℕ) → Request
  sys_unblock_all : (queue : ℕ) → Request
  sys_write : (buff : ℕ) → Request
  sys_reflush : Request
  sys_move_cursor : (x y : ℕ) → Request
  sys_clear : Request
  mutex_lock_init : (lock : ℕ) → Request
  mutex_lock_acquire : (lock : ℕ) → Request
  mutex_lock_release : (lock : ℕ) → Request
  condition_init : (cond : ℕ) → Request
  condition_wait : (lock condition : ℕ) → Request
  condition_signal : (condition : ℕ) → Request
  condition_broadcast : (condition : ℕ) → Request
  semaphore_init : (sem val : ℕ) → Request
  semaphore_up : (sem : ℕ) → Request
  semaphore_down : (sem : ℕ) → Request
  barrier_init : (barrier val : ℕ) → Request
  barrier_wait : (barrier : ℕ) → Request
  sys_init_mac : Request
  sys_net_recv : (rd rd_phy daddr : ℕ) → Request
  sys_net_send : (td td_phy : ℕ) → Request
  sys_wait_recv_package : Request

unfoldable pub invoke : Request → Call
invoke (sys_sleep time) = record { fn = syscall_sleep; arg1 = time; arg2 = ignore; arg3 = ignore }
invoke (sys_spawn task) = record { fn = syscall_spawn; arg1 = task; arg2 = ignore; arg3 = ignore }
invoke (sys_kill id) = record { fn = syscall_kill; arg1 = id; arg2 = ignore; arg3 = ignore }
invoke (sys_waitpid id) = record { fn = syscall_wait; arg1 = id; arg2 = ignore; arg3 = ignore }
invoke sys_getpid = record { fn = syscall_getpid; arg1 = ignore; arg2 = ignore; arg3 = ignore }
invoke sys_exit = record { fn = syscall_exit; arg1 = ignore; arg2 = ignore; arg3 = ignore }
invoke (sys_block queue) = record { fn = syscall_block; arg1 = queue; arg2 = ignore; arg3 = ignore }
invoke (sys_unblock_one queue) = record {
  fn = syscall_unblock_one;
  arg1 = queue;
  arg2 = ignore;
  arg3 = ignore;
}
invoke (sys_unblock_all queue) = record {
  fn = syscall_unblock_all;
  arg1 = queue;
  arg2 = ignore;
  arg3 = ignore;
}
invoke (sys_write buff) = record { fn = syscall_write; arg1 = buff; arg2 = ignore; arg3 = ignore }
invoke sys_reflush = record { fn = syscall_reflush; arg1 = ignore; arg2 = ignore; arg3 = ignore }
invoke (sys_move_cursor x y) = record { fn = syscall_cursor; arg1 = x; arg2 = y; arg3 = ignore }
invoke sys_clear = record { fn = syscall_clear; arg1 = ignore; arg2 = ignore; arg3 = ignore }
invoke (mutex_lock_init lock) = record {
  fn = syscall_mutex_lock_init;
  arg1 = lock;
  arg2 = ignore;
  arg3 = ignore;
}
invoke (mutex_lock_acquire lock) = record {
  fn = syscall_mutex_lock_acquire;
  arg1 = lock;
  arg2 = ignore;
  arg3 = ignore;
}
invoke (mutex_lock_release lock) = record {
  fn = syscall_mutex_lock_release;
  arg1 = lock;
  arg2 = ignore;
  arg3 = ignore;
}
invoke (condition_init cond) = record {
  fn = syscall_cond_init;
  arg1 = cond;
  arg2 = ignore;
  arg3 = ignore;
}
invoke (condition_wait lock condition) = record {
  fn = syscall_cond_wait;
  arg1 = lock;
  arg2 = condition;
  arg3 = ignore;
}
invoke (condition_signal condition) = record {
  fn = syscall_cond_signal;
  arg1 = condition;
  arg2 = ignore;
  arg3 = ignore;
}
invoke (condition_broadcast condition) = record {
  fn = syscall_cond_broadcast;
  arg1 = condition;
  arg2 = ignore;
  arg3 = ignore;
}
invoke (semaphore_init sem val) = record {
  fn = syscall_sem_init;
  arg1 = sem;
  arg2 = val;
  arg3 = ignore;
}
invoke (semaphore_up sem) = record { fn = syscall_sem_up; arg1 = sem; arg2 = ignore; arg3 = ignore }
invoke (semaphore_down sem) = record {
  fn = syscall_sem_down;
  arg1 = sem;
  arg2 = ignore;
  arg3 = ignore;
}
invoke (barrier_init barrier val) = record {
  fn = syscall_barrier_init;
  arg1 = barrier;
  arg2 = val;
  arg3 = ignore;
}
invoke (barrier_wait barrier) = record {
  fn = syscall_barrier_wati;
  arg1 = barrier;
  arg2 = ignore;
  arg3 = ignore;
}
invoke sys_init_mac = record { fn = syscall_init_mac; arg1 = ignore; arg2 = ignore; arg3 = ignore }
invoke (sys_net_recv rd rd_phy daddr) = record {
  fn = syscall_net_recv;
  arg1 = rd;
  arg2 = rd_phy;
  arg3 = daddr;
}
invoke (sys_net_send td td_phy) = record {
  fn = syscall_net_send;
  arg1 = td;
  arg2 = td_phy;
  arg3 = ignore;
}
invoke sys_wait_recv_package = record {
  fn = syscall_wait_recv_package;
  arg1 = ignore;
  arg2 = ignore;
  arg3 = ignore;
}

-- A function of the kernel with its arguments.
pub record Invoked : Type 0 where
  pub handler : Handler
  pub arg1 : ℕ
  pub arg2 : ℕ
  pub arg3 : ℕ

abbrev called : Call → Option Handler → Option Invoked
called call none = none
called call (some h) =
    some (record { handler = h; arg1 = call.arg1; arg2 = call.arg2; arg3 = call.arg3 })

-- `none` is a call through NULL.
unfoldable pub system_call_helper : (ℕ → Option Handler) → Call → Option Invoked
system_call_helper syscall call = called call (syscall call.fn)
