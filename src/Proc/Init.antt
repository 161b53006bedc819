-- ===== src/Proc/Init.antt =====
-- The state that `init_pcb` of init/main.c leaves, and the first `spawn` behind it.
use tina.Base.{
  ℕ, zero, suc, ◌+◌, ◌≤◌, ◌<◌, ◌≡◌, refl, subst, ◌∙◌, [], ◌∷◌, arith, ℕ_discrete, update, update-ne,
  update-eq,
}
use tina.Queue.{pcb, queue_init}
use tina.Queue.Chain.{IsQueue}
use tina.Queue.Fifo.{push-IsQueue, init-IsQueue, dequeue-cons}
use tina.Kernel.{Kernel, TaskInfo, embryo, exited, ready_queue, set_status, num_max_task}
use tina.Proc.{assign_task, assignt, set_exited, init_pcb}
use tina.Proc.Spawn.{Spawned, assignt-Spawned}

-- The loop writes the status of its slots alone.
set_exited-same :
    (left i : ℕ) (k : Kernel)
    → set_exited left i k ≡ record k { status = (set_exited left i k).status }
unfolding set_exited
set_exited-same zero i k = refl
set_exited-same (suc left) i k = set_exited-same left (i + 1) (set_status k (pcb + i) exited)

set_exited-before :
    (left i : ℕ) (k : Kernel) (p : ℕ) → p < pcb + i → (set_exited left i k).status p ≡ k.status p
unfolding set_exited
set_exited-before zero i k p l = refl
set_exited-before (suc left) i k p l =
    set_exited-before left (i + 1) (set_status k (pcb + i) exited) p (omega arith)
    ∙ update-ne k.status (pcb + i) exited p (omega arith)

set_exited-inside :
    (left i j : ℕ) (k : Kernel)
    → i ≤ j
    → j < i + left
    → (set_exited left i k).status (pcb + j) ≡ exited
unfolding set_exited
set_exited-inside zero i j k l h = absurd (omega arith)
set_exited-inside (suc left) i j k l h = elim (ℕ_discrete i j) [
  | yes e ↦
      set_exited-before left (i + 1) (set_status k (pcb + i) exited) (pcb + j) (omega arith)
      ∙ subst (λ n. update k.status (pcb + i) exited (pcb + n) ≡ exited) e
          (update-eq k.status (pcb + i) exited)
  | no ne ↦ set_exited-inside left (i + 1) j _ (omega arith) (omega arith)
]

-- The shell in slot 0 with the first pid, the other slots free, and no task ready.
pub record IsFirst (k' : Kernel) (shell : TaskInfo) (pid time : ℕ) : Type 0 where
  pub clock : k'.time_elapsed ≡ time
  pub running_task : k'.current_running ≡ pcb + 0
  pub idle : IsQueue k'.links ready_queue []
  pub pid_zero : k'.pid (pcb + 0) ≡ pid
  pub next_pid : k'.process_id ≡ pid + 1
  pub entry : (k'.image (pcb + 0)).user_epc ≡ shell.entry_point
  pub slot_zero : k'.status (pcb + 0) ≡ embryo
  pub slots : (j : ℕ) → 0 < j → j < num_max_task → k'.status (pcb + j) ≡ exited

pub init_pcb-IsFirst :
    (embryo_start : ℕ) (k : Kernel) (shell : TaskInfo)
    → IsFirst (init_pcb embryo_start k shell) shell k.process_id k.time_elapsed
unfolding init_pcb set_exited assignt assign_task
init_pcb-IsFirst e k shell =
    let taken = dequeue-cons {s = k1.links} {q = ready_queue} [] b.queued in
    record {
      clock = refl;
      running_task = taken.0;
      idle = taken.1;
      pid_zero = b.pid (pcb + 0);
      next_pid = b.next_pid;
      entry = b.entry;
      slot_zero = set_exited-before 31 1 k1 (pcb + 0) (omega arith) ∙ b.status (pcb + 0);
      slots = λ j l h. set_exited-inside 31 1 j k1 (omega arith) (omega (arith, h));
    }
  where
    k0 : Kernel
    k0 = record k { links = queue_init k.links ready_queue }

    k1 : Kernel
    k1 = assignt e k0 shell 0

    b : Spawned e k0 shell 0 ((pcb + 0) ∷ []) k1
    b =
        assignt-Spawned e k0 shell 0 ((pcb + 0) ∷ [])
          (push-IsQueue (pcb + 0) [] (init-IsQueue k.links ready_queue) (omega arith) refl)
