-- ===== src/Net/Wake.antt =====
-- A task that waits for packages is woken by the interrupt of the board: drivers/mac.c.
use tina.Base.{
  ℕ, ◌+◌, ◌/◌, ◌^◌, ◌<◌, ◌≡◌, ◌≢◌, refl, ap, ◌∙◌, List, [], ◌∷◌, ◌++◌, arith, length, All, ◌∉◌,
  has-append, not-mem-cons, not-mem-append, mem_middle, length-append,
}
use tina.Queue.Chain.{IsQueue, Disjoint, Disjoint-append, Disjoint-single}
use tina.Queue.{null}
use tina.Kernel.Outcome.{ok}
use tina.Kernel.{Kernel, ready, ready_queue}
use tina.Sched.Pick.{Asleep, Runnable}
use tina.Sched.Switch.{block-Switched}
use tina.Sched.Wake.{Woken, unblock_all_lem}
use tina.Net.{Board, Places, clear_interrupt}
use tina.Net.Transfer.{irq_mac, do_wait_recv_package}

not-mem-swap : (p : ℕ) (ys : List ℕ) (z : ℕ) (zs : List ℕ) → p ∉ (ys ++ z ∷ zs) → p ∉ (zs ++ ys)
not-mem-swap p ys z zs h =
    let (a, b) = not-mem-append p ys (z ∷ zs) h in
    let (_, c) = not-mem-cons p z zs b in rw (has-append p zs ys, c) a

-- With the last descriptor filled, the interrupt wakes the tasks of the queue.
irq_mac-Woken :
    (fuel : ℕ) (a : Places) (k : Kernel) (ws xs : List ℕ)
    → IsQueue k.links a.recv_block_queue ws
    → IsQueue k.links ready_queue xs
    → a.recv_block_queue ≢ ready_queue
    → Disjoint ws xs
    → length ws < fuel
    → {S : Type 0} (B : Board S) (s : S) → (B.load s (a.dma_recv_desc + 1008)).0 < 2 ^ 31
    → (k' : Kernel) × (irq_mac B fuel a k s
        ≡ ok (k', clear_interrupt B (B.load s (a.dma_recv_desc + 1008)).1))
      × Woken k a.recv_block_queue ws [] xs k'
unfolding irq_mac
irq_mac-Woken fuel a k ws xs wq wr ne apart l B s done =
    let (k', run, b) = unblock_all_lem fuel {k = k} ws xs wq wr ne apart l in
    let e : (B.load s (a.dma_recv_desc + 1008)).0 / 2 ^ 31 ≡ 0 = omega (arith, done) in
    (k', rw (e, run) refl, b)

-- With the ready queue `ys ++ z ∷ zs`, where the tasks `ys` sleep on, `z` can run and the running task
-- is not among them, `do_wait_recv_package` gives the processor to `z`, and an interrupt at which the
-- last descriptor has been filled wakes everything that waits: the queue of waiting tasks, which share
-- none with the ready queue, is empty, and they and then the caller, now ready, stand at the end of
-- the ready queue, while `z` runs on.
pub wait-irq :
    (fuel count : ℕ) (k : Kernel) (ys : List ℕ) (z : ℕ) (zs : List ℕ)
    → IsQueue k.links ready_queue (ys ++ z ∷ zs)
    → All (Asleep k) ys
    → Runnable k z
    → k.current_running ≢ null
    → k.current_running ∉ (ys ++ z ∷ zs)
    → length ys < fuel
    → (a : Places) (ws : List ℕ) → a.recv_block_queue ≢ ready_queue
    → IsQueue k.links a.recv_block_queue ws
    → Disjoint ws (ys ++ z ∷ zs)
    → k.current_running ∉ ws
    → length ws + 1 < fuel
    → {S : Type 0} (B : Board S) (s : S) → (B.load s (a.dma_recv_desc + 1008)).0 < 2 ^ 31
    → (k' k'' : Kernel) × (do_wait_recv_package fuel count a k ≡ ok k')
      × (irq_mac B fuel a k' s ≡ ok (k'', clear_interrupt B (B.load s (a.dma_recv_desc + 1008)).1))
      × (k''.current_running ≡ z)
      × IsQueue k''.links a.recv_block_queue []
      × IsQueue k''.links ready_queue ((zs ++ ys) ++ (ws ++ k.current_running ∷ []))
      × (k''.status k.current_running ≡ ready)
unfolding do_wait_recv_package
wait-irq fuel count k ys z zs w asleep can valid out l a ws ne wq apart new l' B s done =
    let (k', run, waiting, _, _, chosen, _, queue) =
      block-Switched fuel count k ys z zs w asleep can valid out l a.recv_block_queue ws ne wq apart
        new in
    let (k'', run', b) =
      irq_mac-Woken fuel a k' (ws ++ k.current_running ∷ []) (zs ++ ys) waiting queue ne
        (Disjoint-append ws (k.current_running ∷ []) (zs ++ ys)
          (λ p i. not-mem-swap p ys z zs (apart p i))
          (Disjoint-single k.current_running (zs ++ ys)
            (not-mem-swap k.current_running ys z zs out)))
        (rw (length-append ws (k.current_running ∷ [])) l') B s done in
    (
      k',
      k'',
      run,
      run',
      ap (λ (j : Kernel). j.current_running) b.same ∙ chosen,
      b.left,
      b.readied,
      b.status k.current_running ∙ rw (mem_middle k.current_running ws []) refl,
    )
