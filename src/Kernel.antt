-- ===== src/Kernel.antt =====
-- The state that the scheduler, the processes and the locks share: the globals of
-- kernel/sched/sched.c and the fields of `pcb_t` and `mutex_lock_t` (include/os/sched.h,
-- include/os/lock.h), as functions from pointers.
pub mod Outcome
use tina.Base.{
  ℕ, zero, suc, ◌+◌, ◌-◌, ◌*◌, ◌/◌, ◌%◌, ◌^◌, ◌≤◌, ◌<◌, min, max, ◌≡◌, ◌≢◌, ◌↔◌, ◌⊎◌, inl, inr,
  refl, sym, ap, ap₂, subst, ◌∙◌, fun_ext, Bool, true, false, not, ◌&&◌, ◌||◌, false≢true, Option,
  none, some, List, [], ◌∷◌, ◌++◌, map, append-nil, append_assoc, arith, ltb, leb, ◌==◌, ==_iff,
  ==_ne, ltb→lt, lt→ltb, dec_lt, ℕ_discrete, if◌then◌else◌, Bool-cases, Option-cases, update,
  update-ne, update-eq, length, get_or, set, take, drop, replicate, All, has, ◌∈◌, ◌∉◌, Distinct,
  has-append, not-mem-cons, not-mem-append, length-append, length-set, get_or-set, length-replicate,
  get_or-replicate,
}
use tina.Queue.{Links, null, pcb}

-- `task_status_t`
pub data Status : Type 0 where
  embryo sleeping blocked running ready exited : Status

-- `task_type_t`
pub data TaskType : Type 0 where
  kernel_process kernel_thread user_process user_thread : TaskType

-- `task_info_t`; the name is a pointer.
pub record TaskInfo : Type 0 where
  pub name : ℕ
  pub entry_point : ℕ
  pub type : TaskType

-- What `assign_task` writes to a PCB besides its queues, its pid and its status: the name, the
-- type, the stack tops, and the registers of the two contexts that it sets.
pub record Image : Type 0 where
  pub name : ℕ
  pub type : TaskType
  pub kernel_stack_top : ℕ
  pub user_stack_top : ℕ
  pub kernel_sp : ℕ
  pub kernel_ra : ℕ
  pub kernel_epc : ℕ
  pub kernel_status : ℕ
  pub user_sp : ℕ
  pub user_ra : ℕ
  pub user_epc : ℕ
  pub user_status : ℕ

pub record Kernel : Type 0 where
  pub links : Links
  -- of a PCB
  pub status : ℕ → Status
  pub pid : ℕ → ℕ
  pub sleep_end : ℕ → ℕ
  pub chan : ℕ → ℕ
  pub cursor_x : ℕ → ℕ
  pub cursor_y : ℕ → ℕ
  pub image : ℕ → Image
  -- of a `mutex_lock_t`: is it LOCKED?
  pub locked : ℕ → Bool
  -- Belongs one of the words at `lock + 320` and `lock + 324` to another object of the kernel? There
  -- queue.c has the links of a lock, taken for a PCB (lock.c:32), and not in the lock, of 20 bytes.
  -- A lock comes into `holding` only where it is not so.
  pub overlaps : ℕ → Bool
  -- globals
  pub current_running : ℕ
  pub process_id : ℕ
  pub screen_cursor_x : ℕ
  pub screen_cursor_y : ℕ
  pub time_elapsed : ℕ

abbrev pub num_max_task : ℕ
num_max_task = 32

-- Pointers to the queues: the global one, and those inside a PCB or a lock.
abbrev pub ready_queue : ℕ
ready_queue = 1

abbrev pub holding : ℕ → ℕ
holding p = 3 * p + 2

abbrev pub waiting : ℕ → ℕ
waiting p = 3 * p + 3

abbrev pub block_queue : ℕ → ℕ
block_queue l = 3 * l + 4

abbrev pub is_ready : Status → Bool
is_ready ready = true
is_ready _ = false

abbrev pub is_exited : Status → Bool
is_exited exited = true
is_exited _ = false

abbrev pub is_sleeping : Status → Bool
is_sleeping sleeping = true
is_sleeping _ = false

abbrev pub set_status : Kernel → ℕ → Status → Kernel
set_status k p s = record k { status = update k.status p s }

abbrev pub u32 : ℕ
u32 = 2 ^ 32
