-- ===== src/Proc.antt =====
-- Processes: kernel/sched/proc.c, and `init_pcb` of init/main.c. `embryo` is the address of
-- `embryo_start` of arch/mips/kernel/entry.S.
pub mod Spawn
pub mod Init
pub mod Kill
mod Tests
use tina.Base.{
  ℕ, zero, suc, ◌+◌, ◌-◌, ◌*◌, ◌/◌, ◌%◌, ◌^◌, ◌≤◌, ◌<◌, min, max, ◌≡◌, ◌≢◌, ◌↔◌, ◌⊎◌, inl, inr,
  refl, sym, ap, ap₂, subst, ◌∙◌, fun_ext, Bool, true, false, not, ◌&&◌, ◌||◌, false≢true, Option,
  none, some, List, [], ◌∷◌, ◌++◌, map, append-nil, append_assoc, arith, ltb, leb, ◌==◌, ==_iff,
  ==_ne, ltb→lt, lt→ltb, leb_lt, leb_le, ltb_le, dec_lt, ℕ_discrete, if◌then◌else◌, Bool-cases,
  Option-cases, update, update-ne, update-eq, length, get_or, set, take, drop, replicate, All, has,
  ◌∈◌, ◌∉◌, Distinct, has-append, not-mem-cons, not-mem-append, length-append, length-set,
  get_or-set, length-replicate, get_or-replicate,
}
use tina.Queue.{Links, null, pcb, queue_init, queue_push, queue_dequeue, queue_remove}
use tina.Kernel.Outcome.{◌>>=◌, Outcome, ok}
use tina.Kernel.{
  Kernel, TaskInfo, Image, Status, embryo, exited, ready_queue, holding, waiting, is_exited,
  set_status, num_max_task,
}
use tina.Sched.{do_block, do_exit}

abbrev pub kstack_base : ℕ
kstack_base = 0xa0f00000

abbrev pub kstack_size : ℕ
kstack_size = 0x100000

abbrev pub ustack_base : ℕ
ustack_base = 0x00400000

abbrev pub ustack_size : ℕ
ustack_size = 0x400000

-- The fields of the PCB that `assign_task` writes besides its queues, pid and status.
fresh_image : (embryo_start : ℕ) → TaskInfo → (kstack_top ustack_top : ℕ) → Image
fresh_image embryo_start src kstack_top ustack_top = record {
  name = src.name;
  type = src.type;
  kernel_stack_top = kstack_top;
  user_stack_top = ustack_top;
  kernel_sp = kstack_top;
  kernel_ra = embryo_start;
  kernel_epc = src.entry_point;
  kernel_status = 0;
  user_sp = ustack_top;
  user_ra = src.entry_point;
  user_epc = src.entry_point;
  user_status = 0xff01;
}

unfoldable pub assign_task :
    (embryo_start : ℕ) → Kernel → (dest : ℕ) → TaskInfo → (kstack_top ustack_top : ℕ) → Kernel
unfolding fresh_image
assign_task embryo_start k dest src kstack_top ustack_top = record k {
  links =
      queue_init (queue_init (queue_push k.links ready_queue dest) (holding dest)) (waiting dest);
  image = update k.image dest (fresh_image embryo_start src kstack_top ustack_top);
  pid = update k.pid dest k.process_id;
  process_id = k.process_id + 1;
  status = update k.status dest embryo;
}

-- The macro `assignt`.
unfoldable pub assignt : (embryo_start : ℕ) → Kernel → TaskInfo → ℕ → Kernel
assignt embryo_start k src i =
    assign_task embryo_start k (pcb + i) src (kstack_base + i * kstack_size)
      (ustack_base + i * ustack_size)

-- The loop of `spawn` from slot `i`, with `left` slots to go; a full table changes nothing.
spawn_loop : (embryo_start left i : ℕ) → Kernel → TaskInfo → Kernel
spawn_loop embryo_start zero i k task = k
spawn_loop embryo_start (suc left) i k task =
    let rest = spawn_loop embryo_start left (i + 1) k task in
    if is_exited (k.status (pcb + i)) then assignt embryo_start k task i else rest

unfoldable pub spawn : (embryo_start : ℕ) → Kernel → TaskInfo → Kernel
unfolding spawn_loop
spawn embryo_start k task = spawn_loop embryo_start num_max_task 0 k task

-- Does the search of `kill` and `wait` stop at this PCB?
is_live : Kernel → (id p : ℕ) → Bool
is_live k id p = (k.pid p == id) && not (is_exited (k.status p))

-- The body of the branch of `kill`.
kill_task : Kernel → ℕ → Outcome Kernel
kill_task k p =
    if k.chan p == null
    then ok (set_status k p exited)
    else queue_remove k.links (k.chan p) p >>= (λ r.
      ok (record k { status = update k.status p exited; links = queue_push r.0 ready_queue p }))

kill_loop : (left i : ℕ) → Kernel → (id : ℕ) → Outcome Kernel
kill_loop zero i k id = ok k
kill_loop (suc left) i k id =
    let rest = kill_loop left (i + 1) k id in
    if is_live k id (pcb + i) then kill_task k (pcb + i) else rest

unfoldable pub kill : Kernel → (id : ℕ) → Outcome Kernel
unfolding is_live kill_task kill_loop
kill k id = kill_loop num_max_task 0 k id

-- The process whose exit the running one waits for.
wait_loop : (fuel count left i : ℕ) → Kernel → (id : ℕ) → Outcome Kernel
wait_loop fuel count zero i k id = ok k
wait_loop fuel count (suc left) i k id =
    let rest = wait_loop fuel count left (i + 1) k id in
    if is_live k id (pcb + i)
    then (if k.pid k.current_running == id then ok k else do_block fuel count k (waiting (pcb + i)))
    else rest

unfoldable pub wait : (fuel count : ℕ) → Kernel → (id : ℕ) → Outcome Kernel
unfolding is_live wait_loop
wait fuel count k id = wait_loop fuel count num_max_task 0 k id

unfoldable pub exit : (fuel count : ℕ) → Kernel → Outcome Kernel
exit fuel count k = do_exit fuel count k

unfoldable pub getpid : Kernel → ℕ
getpid k = k.pid k.current_running

-- `init_pcb` of init/main.c: the shell in slot 0, the other slots free, the shell running.
set_exited : (left i : ℕ) → Kernel → Kernel
set_exited zero i k = k
set_exited (suc left) i k = set_exited left (i + 1) (set_status k (pcb + i) exited)

unfoldable pub init_pcb : (embryo_start : ℕ) → Kernel → (shell : TaskInfo) → Kernel
unfolding set_exited
init_pcb embryo_start k shell =
    let k1 = assignt embryo_start (record k { links = queue_init k.links ready_queue }) shell 0 in
    let k2 = set_exited 31 1 k1 in
    let (links, p) = queue_dequeue k2.links ready_queue in
    record k2 { links = links; current_running = p }
