-- ===== src/Proc/Spawn.antt =====
-- `spawn` and `assign_task`: kernel/sched/proc.c.
use tina.Base.{
  ℕ, zero, suc, ◌+◌, ◌*◌, ◌≤◌, ◌<◌, ◌≡◌, ◌≢◌, inl, inr, refl, sym, ap, subst, ◌∙◌, true, false,
  List, [], ◌∷◌, ◌++◌, arith, ◌==◌, ==_iff, if◌then◌else◌, Bool-cases, update, update-ne, update-eq,
  ◌∈◌, ◌∉◌, Distinct, has-append, not-mem-cons, not-mem-append,
}
use tina.Queue.{Links, null, pcb, queue_init, queue_push}
use tina.Queue.Chain.{
  first, last_or, Chain, IsQueue, IsQueue-frame, ne_of_mem, last_or-mem, last_or-append,
}
use tina.Queue.Fifo.{push-IsQueue, pushed}
use tina.Kernel.{
  Kernel, TaskInfo, Image, embryo, exited, ready_queue, holding, waiting, is_exited, num_max_task,
}
use tina.Proc.{assign_task, assignt, spawn_loop, spawn, ustack_base, ustack_size}

-- Slot `i` has been given to a new process.
pub record Spawned (embryo_start : ℕ) (k : Kernel) (task : TaskInfo) (i : ℕ) (rest : List ℕ)
    (k' : Kernel) : Type 0 where
  pub queued : IsQueue k'.links ready_queue rest
  pub no_locks : IsQueue k'.links (holding (pcb + i)) []
  pub no_waiters : IsQueue k'.links (waiting (pcb + i)) []
  pub status : (p : ℕ) → k'.status p ≡ (if pcb + i == p then embryo else k.status p)
  pub pid : (p : ℕ) → k'.pid p ≡ (if pcb + i == p then k.process_id else k.pid p)
  pub next_pid : k'.process_id ≡ k.process_id + 1
  pub runs_on : k'.current_running ≡ k.current_running
  pub entry : (k'.image (pcb + i)).user_epc ≡ task.entry_point
  pub stack : (k'.image (pcb + i)).user_sp ≡ ustack_base + i * ustack_size

pub assignt-Spawned :
    (embryo_start : ℕ) (k : Kernel) (task : TaskInfo) (i : ℕ) (rest : List ℕ)
    → IsQueue (queue_push k.links ready_queue (pcb + i)) ready_queue rest
    → Spawned embryo_start k task i rest (assignt embryo_start k task i)
unfolding assignt assign_task queue_init
assignt-Spawned embryo_start k task i rest w = record {
  queued =
      IsQueue-frame _ (away (queue_push k.links ready_queue (pcb + i)).head)
        (away (queue_push k.links ready_queue (pcb + i)).tail) (λ a h. refl) w;
  no_locks = record { front = ground arith; back = ground arith; forward = tt; distinct = tt };
  no_waiters = record { front = ground arith; back = ground arith; forward = tt; distinct = tt };
  status = λ p. refl;
  pid = λ p. refl;
  next_pid = refl;
  runs_on = refl;
  entry = ap (λ (m : Image). m.user_epc) (update-eq k.image (pcb + i) _);
  stack = ap (λ (m : Image). m.user_sp) (update-eq k.image (pcb + i) _);
}
  where
    away :
        (f : ℕ → ℕ)
        → update (update f (holding (pcb + i)) null) (waiting (pcb + i)) null ready_queue
          ≡ f ready_queue
    away f =
        update-ne (update f (holding (pcb + i)) null) (waiting (pcb + i)) null ready_queue
          (omega arith)
        ∙ update-ne f (holding (pcb + i)) null ready_queue (omega arith)

-- The loop of `spawn` takes the first free slot.
spawn_loop-first :
    (embryo_start left i : ℕ) (k : Kernel) (task : TaskInfo) (n : ℕ)
    → n < left
    → ((j : ℕ) → i ≤ j → j < i + n → is_exited (k.status (pcb + j)) ≡ false)
    → k.status (pcb + (i + n)) ≡ exited
    → spawn_loop embryo_start left i k task ≡ assignt embryo_start k task (i + n)
unfolding spawn_loop
spawn_loop-first e zero i k task n l busy free = absurd (omega arith)
spawn_loop-first e (suc left) i k task zero l busy free =
    let here : i + 0 ≡ i = omega arith in
    let hit : is_exited (k.status (pcb + i)) ≡ true =
      ap (λ j. is_exited (k.status (pcb + j))) (sym here) ∙ ap is_exited free in
    rw (here, hit)
spawn_loop-first e (suc left) i k task (suc n) l busy free =
    let shift : i + 1 + n ≡ i + suc n = omega arith in
    rw (busy i (omega arith) (omega arith), ← shift)
      (spawn_loop-first e left (i + 1) k task n (omega arith)
        (λ j a b. busy j (omega arith) (omega arith)) (ap (λ j. k.status (pcb + j)) shift ∙ free))

spawn_loop-full :
    (embryo_start left i : ℕ) (k : Kernel) (task : TaskInfo)
    → ((j : ℕ) → i ≤ j → j < i + left → is_exited (k.status (pcb + j)) ≡ false)
    → spawn_loop embryo_start left i k task ≡ k
unfolding spawn_loop
spawn_loop-full e zero i k task busy = refl
spawn_loop-full e (suc left) i k task busy =
    rw (busy i (omega arith) (omega arith))
      (spawn_loop-full e left (i + 1) k task (λ j l h. busy j (omega arith) (omega arith)))

-- If slot `i` is the first one with TASK_EXITED and its PCB is not in the ready queue, `spawn` gives
-- it to the task: its PCB goes to the end of the ready queue with the next pid, TASK_EMBRYO, no locks
-- and no waiters, the entry point of the task and the stack of the slot; the other PCBs keep their
-- status and pid.
pub spawn-Spawned :
    (embryo_start : ℕ) (k : Kernel) (task : TaskInfo) (i : ℕ) (xs : List ℕ)
    → i < num_max_task
    → ((j : ℕ) → j < i → is_exited (k.status (pcb + j)) ≡ false)
    → k.status (pcb + i) ≡ exited
    → IsQueue k.links ready_queue xs
    → (pcb + i) ∉ xs
    → Spawned embryo_start k task i (xs ++ (pcb + i) ∷ []) (spawn embryo_start k task)
unfolding spawn
spawn-Spawned e k task i xs l busy free w new =
    let at : 0 + i ≡ i = omega arith in
    subst (Spawned e k task i (xs ++ (pcb + i) ∷ []))
      (sym (
        spawn_loop-first e num_max_task 0 k task i l (λ j _ h. busy j (omega arith))
          (ap (λ j. k.status (pcb + j)) at ∙ free)
        ∙ ap (assignt e k task) at))
      (assignt-Spawned e k task i (xs ++ (pcb + i) ∷ [])
        (push-IsQueue (pcb + i) xs w (omega arith) new))

-- With no slot free, `spawn` changes nothing.
pub spawn_full :
    (embryo_start : ℕ) (k : Kernel) (task : TaskInfo)
    → ((j : ℕ) → j < num_max_task → is_exited (k.status (pcb + j)) ≡ false)
    → spawn embryo_start k task ≡ k
unfolding spawn
spawn_full e k task busy = spawn_loop-full e num_max_task 0 k task (λ j _ h. busy j (omega arith))

-- The chain up to `p`, where the links behind have changed.
Chain-take :
    (nx f : ℕ → ℕ) (p : ℕ) (ys zs : List ℕ)
    → ((a : ℕ) → a ∈ ys → f a ≡ nx a)
    → f p ≡ null
    → Chain nx (ys ++ p ∷ zs)
    → Chain f (ys ++ p ∷ [])
Chain-take nx f p [] zs same end c = (c.0, end, tt)
Chain-take nx f p (y ∷ []) zs same end c = (c.0, same y (ground arith) ∙ c.1, (c.2.0, end, tt))
Chain-take nx f p (y ∷ x ∷ ys) zs same end c = (
  c.0,
  same y (ground arith) ∙ c.1,
  Chain-take nx f p (x ∷ ys) zs (λ a i. same a (ground arith)) end c.2,
)

Distinct-take : (p : ℕ) (ys zs : List ℕ) → Distinct (ys ++ p ∷ zs) → Distinct (ys ++ p ∷ [])
Distinct-take p [] zs d = (refl, tt)
Distinct-take p (y ∷ ys) zs d =
    (ground (arith, has-append y ys (p ∷ zs), has-append y ys (p ∷ [])), Distinct-take p ys zs d.1)

-- The items of the front part are none of those behind it.
cut_ne : (a p : ℕ) (ys zs : List ℕ) → Distinct (ys ++ p ∷ zs) → a ∈ ys → a ∉ (p ∷ zs)
cut_ne a p [] zs d i = cc
cut_ne a p (y ∷ ys) zs d i = elim (Bool-cases (y == a)) [
  | inl e ↦ subst (λ b. b ∉ (p ∷ zs)) ((==_iff y a).0 e) (not-mem-append y ys (p ∷ zs) d.0).1
  | inr e ↦ cut_ne a p ys zs d.1 (ground arith)
]

-- `queue_push` of an item that is in the queue already, with other items behind it, drops those.
push_again :
    {s : Links} {q : ℕ} (p : ℕ) (ys : List ℕ) (z : ℕ) (zs : List ℕ)
    → IsQueue s q (ys ++ p ∷ z ∷ zs)
    → IsQueue (queue_push s q p) q (ys ++ p ∷ [])
push_again {s} {q} p ys z zs w =
    rw
      (pushed s q p (s.head q) (last_or z zs) refl (head_ne ys w)
        (w.back ∙ last_or-append null p ys (z ∷ zs)))
      (record {
        front = w.front ∙ same_first ys;
        back = update-eq s.tail q p ∙ sym (last_or-append null p ys []);
        forward =
            Chain-take s.next _ p ys (z ∷ zs)
              (λ a i.
                let out = cut_ne a p ys (z ∷ zs) w.distinct i in
                update-ne (update s.next (last_or z zs) p) p null a
                  (not-mem-cons a p (z ∷ zs) out).0
                ∙ update-ne s.next (last_or z zs) p a (λ e.
                  ne_of_mem a (last_or z zs) (z ∷ zs) (not-mem-cons a p (z ∷ zs) out).1
                    (last_or-mem z zs) (sym e)))
              (update-eq (update s.next (last_or z zs) p) p null) w.forward;
        distinct = Distinct-take p ys (z ∷ zs) w.distinct;
      })
  where
    head_ne : (us : List ℕ) → IsQueue s q (us ++ p ∷ z ∷ zs) → s.head q ≢ null
    head_ne [] v e = v.forward.0 (sym v.front ∙ e)
    head_ne (u ∷ us) v e = v.forward.0 (sym v.front ∙ e)

    same_first : (us : List ℕ) → first (us ++ p ∷ z ∷ zs) ≡ first (us ++ p ∷ [])
    same_first [] = refl
    same_first (u ∷ us) = refl

-- If the first slot with TASK_EXITED is still in the ready queue, `spawn` of a task into it cuts every
-- task behind it off the ready queue.
pub respawn_drops :
    (embryo_start : ℕ) (k : Kernel) (task : TaskInfo) (i : ℕ) (ys : List ℕ) (z : ℕ) (zs : List ℕ)
    → i < num_max_task
    → ((j : ℕ) → j < i → is_exited (k.status (pcb + j)) ≡ false)
    → k.status (pcb + i) ≡ exited
    → IsQueue k.links ready_queue (ys ++ (pcb + i) ∷ z ∷ zs)
    → Spawned embryo_start k task i (ys ++ (pcb + i) ∷ []) (spawn embryo_start k task)
unfolding spawn
respawn_drops e k task i ys z zs l busy free w =
    let at : 0 + i ≡ i = omega arith in
    subst (Spawned e k task i (ys ++ (pcb + i) ∷ []))
      (sym (
        spawn_loop-first e num_max_task 0 k task i l (λ j _ h. busy j (omega arith))
          (ap (λ j. k.status (pcb + j)) at ∙ free)
        ∙ ap (assignt e k task) at))
      (assignt-Spawned e k task i (ys ++ (pcb + i) ∷ []) (push_again (pcb + i) ys z zs w))
