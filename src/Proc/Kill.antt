-- ===== src/Proc/Kill.antt =====
-- `kill`: kernel/sched/proc.c.
use tina.Base.{
  ℕ, zero, suc, ◌+◌, ◌≤◌, ◌<◌, ◌≡◌, ◌≢◌, ◌⊎◌, inl, inr, refl, sym, ap, subst, ◌∙◌, fun_ext, Bool,
  true, false, ◌&&◌, List, [], ◌∷◌, ◌++◌, arith, ◌==◌, ==_iff, ==_ne, if◌then◌else◌, Bool-cases,
  update, ◌∉◌, has-append, not-mem-cons, not-mem-append, mem_middle,
}
use tina.Queue.{null, pcb, queue_push, queue_remove, unlink}
use tina.Queue.Chain.{Disjoint-sym, IsQueue, Back, Disjoint}
use tina.Queue.Fifo.{push-IsQueue}
use tina.Queue.Frame.{push-frame, remove-frame}
use tina.Queue.Remove.{Distinct-cut, remove-IsQueue, Removable, remove-unlink}
use tina.Kernel.Outcome.{ok, ◌>>=◌}
use tina.Kernel.{Kernel, running, ready, exited, ready_queue, is_exited, set_status, num_max_task}
use tina.Sched.{do_scheduler, scheduler, leave}
use tina.Sched.Switch.{scheduler-leave}
use tina.Proc.{is_live, kill_task, kill_loop, kill}

-- Process `id` is in slot `n`, and no slot before it holds a live process of that id.
pub record IsFirst (k : Kernel) (id n : ℕ) : Type 0 where
  pub before : (j : ℕ) → j < n → (k.pid (pcb + j) ≢ id) ⊎ (k.status (pcb + j) ≡ exited)
  pub in_table : n < num_max_task
  pub named : k.pid (pcb + n) ≡ id
  pub live : is_exited (k.status (pcb + n)) ≡ false

kill_loop-first :
    (left i n : ℕ) (k : Kernel) (id : ℕ)
    → n < left
    → ((j : ℕ) → i ≤ j → j < i + n → is_live k id (pcb + j) ≡ false)
    → is_live k id (pcb + (i + n)) ≡ true
    → kill_loop left i k id ≡ kill_task k (pcb + (i + n))
unfolding kill_loop
kill_loop-first zero i n k id l miss hit = absurd (omega arith)
kill_loop-first (suc left) i zero k id l miss hit =
    let here : i + 0 ≡ i = omega arith in
    rw (here, ap (λ j. is_live k id (pcb + j)) (sym here) ∙ hit)
kill_loop-first (suc left) i (suc n) k id l miss hit =
    let shift : i + 1 + n ≡ i + suc n = omega arith in
    rw (miss i (omega arith) (omega arith), ← shift)
      (kill_loop-first left (i + 1) n k id (omega arith)
        (λ j a b. miss j (omega arith) (omega arith))
        (ap (λ j. is_live k id (pcb + j)) shift ∙ hit))

kill-eq : (k : Kernel) (id n : ℕ) → IsFirst k id n → kill k id ≡ kill_task k (pcb + n)
unfolding kill is_live
kill-eq k id n f =
    let at : 0 + n ≡ n = omega arith in
    kill_loop-first num_max_task 0 n k id f.in_table (λ j _ h. other j (omega arith))
      (ap (λ j. is_live k id (pcb + j)) at ∙ rw (f.live, (==_iff (k.pid (pcb + n)) id).1 f.named))
    ∙ ap (λ j. kill_task k (pcb + j)) at
  where
    dead : (b : Bool) → (b && false) ≡ false
    dead true = refl
    dead false = refl

    other : (j : ℕ) → j < n → is_live k id (pcb + j) ≡ false
    other j h = elim (f.before j h) [
      | inl e ↦ rw (==_ne (k.pid (pcb + j)) id e)
      | inr e ↦ rw e (dead (k.pid (pcb + j) == id))
    ]

uncut : (a p : ℕ) (ys zs : List ℕ) → a ∉ (ys ++ p ∷ zs) → a ∉ (ys ++ zs)
uncut a p ys zs h =
    let parts = not-mem-append a ys (p ∷ zs) h in
    rw (has-append, parts.0) (not-mem-cons a p zs parts.1).1

unlinked :
    (k : Kernel) (p q : ℕ)
    → (k.chan p ≡ q) × (q ≢ null)
    → queue_remove k.links q p ≡ ok (unlink k.links q p)
    → kill_task k p
      ≡ ok (record k {
        status = update k.status p exited;
        links = queue_push (unlink k.links q p).0 ready_queue p;
      })
unfolding kill_task
unlinked k p q (e, ne) run = rw (e, ==_ne q null ne, run) refl

-- `kill` of a process whose first live PCB is blocked on a queue, which is not the ready queue, shares
-- no task with it and has right backward links, where the PCB does not stand in the middle or `pcb[0]`
-- has a `next`, takes that PCB out of the queue and puts it at the end of the ready queue, with
-- TASK_EXITED; the other tasks keep their status.
pub kill_blocked :
    (k : Kernel) (id n q : ℕ) (ys zs xs : List ℕ)
    → IsFirst k id n
    → k.chan (pcb + n) ≡ q
    → q ≢ null
    → q ≢ ready_queue
    → IsQueue k.links q (ys ++ (pcb + n) ∷ zs)
    → Back k.links.prev null (ys ++ (pcb + n) ∷ zs)
    → Removable k.links ys zs
    → IsQueue k.links ready_queue xs
    → Disjoint (ys ++ (pcb + n) ∷ zs) xs
    → (k' : Kernel) × (kill k id ≡ ok k')
      × IsQueue k'.links q (ys ++ zs)
      × IsQueue k'.links ready_queue (xs ++ (pcb + n) ∷ [])
      × ((p : ℕ) → k'.status p ≡ (if pcb + n == p then exited else k.status p))
kill_blocked k id n q ys zs xs f e ne nr w b can wr apart = (
  killed,
  kill-eq k id n f ∙ unlinked k (pcb + n) q (e, ne) (remove-unlink (pcb + n) ys zs w b can),
  push-frame (λ e. nr (sym e)) (remove-IsQueue (pcb + n) ys zs w b).0 (pcb + n) xs kept
      (λ a i. uncut a (pcb + n) ys zs (Disjoint-sym (ys ++ (pcb + n) ∷ zs) xs apart a i)) out,
  push-IsQueue (pcb + n) xs kept (omega arith) (apart (pcb + n) (mem_middle (pcb + n) ys zs)),
  λ p. refl,
)
  where
    out : pcb + n ∉ (ys ++ zs)
    out = let cut = Distinct-cut (pcb + n) ys zs w.distinct in rw (has-append, cut.0) cut.1

    kept : IsQueue (unlink k.links q (pcb + n)).0 ready_queue xs
    kept = remove-frame (pcb + n) ys zs nr wr w b apart

    killed : Kernel
    killed = record k {
      status = update k.status (pcb + n) exited;
      links = queue_push (unlink k.links q (pcb + n)).0 ready_queue (pcb + n);
    }

update-update :
    {A : Type 0} (f : ℕ → A) (p : ℕ) (v w : A) → update (update f p v) p w ≡ update f p w
update-update f p v w = fun_ext λ q. elim (Bool-cases (p == q)) [ inl e ↦ rw e | inr e ↦ rw e ]

-- `kill` of the running process, when its first live PCB is the running one with no channel, has no
-- effect: the next `do_scheduler` goes as if nothing had been killed.
pub kill_current_undone :
    (fuel count : ℕ) (k : Kernel) (id n : ℕ)
    → IsFirst k id n
    → k.current_running ≡ pcb + n
    → k.chan (pcb + n) ≡ null
    → (kill k id >>= do_scheduler fuel count) ≡ do_scheduler fuel count k
unfolding do_scheduler scheduler leave kill_task
kill_current_undone fuel count k id n f c e =
    subst (λ o. (o >>= do_scheduler fuel count) ≡ do_scheduler fuel count k)
      (sym (kill-eq k id n f ∙ plain))
      (scheduler-leave fuel count (set_status k (pcb + n) exited) k 0 running again)
  where
    plain : kill_task k (pcb + n) ≡ ok (set_status k (pcb + n) exited)
    plain = rw e refl

    again : leave fuel (set_status k (pcb + n) exited) 0 running ≡ leave fuel k 0 running
    again =
        subst (λ p. leave fuel (set_status k p exited) 0 running ≡ leave fuel k 0 running) c
          (ap
            (λ st.
              ok (record k {
                status = st;
                links = queue_push k.links ready_queue k.current_running;
              }))
            (update-update k.status k.current_running exited ready))
