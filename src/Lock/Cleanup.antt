-- ===== src/Lock/Cleanup.antt =====
-- The end of a process, TASK_EXITED in both switches of `scheduler`: kernel/sched/sched.c.
use tina.Base.{
  ℕ, ◌+◌, ◌≤◌, ◌<◌, ◌≡◌, refl, sym, ap, subst, ◌∙◌, false, List, [], ◌∷◌, ◌++◌, append-nil,
  append_assoc, arith, if◌then◌else◌, length, All, has, has-append,
}
use tina.Queue.Chain.{Disjoint-left, Disjoint-right, IsQueue, Disjoint, Disjoint-sym}
use tina.Kernel.Outcome.{ok, ◌>>=◌}
use tina.Kernel.{Kernel, ready, ready_queue, holding, waiting, block_queue}
use tina.Sched.{release_holding, exit_cleanup}
use tina.Sched.Wake.{Woken, unblock_all_lem}
use tina.Lock.Exit.{waiters_of, Apart, if_or, release_holding-GaveBack}

Apart-held : (ws : ℕ → List ℕ) (hs xs : List ℕ) → Apart ws hs xs → Disjoint xs hs
Apart-held ws [] xs apart = λ a i. refl
Apart-held ws (l ∷ hs) xs apart = Disjoint-sym (l ∷ hs) xs apart.0

kept_apart :
    (l : ℕ) (us xs : List ℕ) (ws : ℕ → List ℕ) (hs all : List ℕ)
    → All (λ m. Disjoint (l ∷ all) (ws m) × Disjoint us (ws m) × Disjoint xs (ws m)) hs
    → All (λ m. Disjoint xs (ws m)) hs
kept_apart l us xs ws [] all each = tt
kept_apart l us xs ws (h ∷ hs) all each = (each.0.2, kept_apart l us xs ws hs all each.1)

Apart-waiters :
    (ws : ℕ → List ℕ) (hs xs : List ℕ) → Apart ws hs xs → All (λ m. Disjoint xs (ws m)) hs
Apart-waiters ws [] xs apart = tt
Apart-waiters ws (l ∷ hs) xs apart =
    (Disjoint-sym (ws l) xs apart.2, kept_apart l (ws l) xs ws hs hs apart.3)

-- The processes that waited for the end of `c` are ready, and the queues of its locks are kept.
kept_locks :
    {k k' : Kernel} (c : ℕ) (vs xs : List ℕ) (ws : ℕ → List ℕ) (hs : List ℕ)
    → Woken k (waiting c) vs [] xs k'
    → All (λ m. Disjoint (xs ++ vs) (ws m)) hs
    → All (λ m. IsQueue k.links (block_queue m) (ws m)) hs
    → All (λ m. IsQueue k'.links (block_queue m) (ws m)) hs
kept_locks c vs xs ws [] b apart valid = tt
kept_locks c vs xs ws (h ∷ hs) b apart valid = (
  b.others (block_queue h) (ws h) (omega arith) (omega arith)
      (subst (λ us. Disjoint us (ws h)) (sym (append-nil vs)) (Disjoint-right xs vs (ws h) apart.0))
      (Disjoint-left xs vs (ws h) apart.0) valid.0,
  kept_locks c vs xs ws hs b apart.1 valid.1,
)

-- What `scheduler` does for a process `c` that exits, where `vs` wait for its end, it holds the locks
-- `hs` and `ws l` wait for lock `l`, ends if the fuel exceeds the number of `vs` and the number of
-- `hs` plus a bound of the number of waiters of a lock: its `holding` queue is empty, every lock of
-- `hs` is UNLOCKED, and `vs` and then the waiters, lock by lock, are TASK_READY at the end of the
-- ready queue `xs`; the other locks and statuses are as before. It is assumed that no item stands in
-- two of these queues, and that the links of the locks overlap no other object.
pub exit_cleanup_lem :
    (fuel : ℕ) (k : Kernel) (c b : ℕ) (ws : ℕ → List ℕ) (hs vs xs : List ℕ)
    → k.current_running ≡ c
    → All (λ l. k.overlaps l ≡ false) hs
    → IsQueue k.links (waiting c) vs
    → IsQueue k.links (holding c) hs
    → IsQueue k.links ready_queue xs
    → All (λ l. IsQueue k.links (block_queue l) (ws l)) hs
    → Disjoint vs xs
    → Apart ws hs (xs ++ vs)
    → All (λ l. length (ws l) ≤ b) hs
    → length vs < fuel
    → length hs + b < fuel
    → (k' : Kernel) × (exit_cleanup fuel k ≡ ok k')
      × IsQueue k'.links (holding c) []
      × IsQueue k'.links ready_queue (xs ++ (vs ++ waiters_of ws hs))
      × ((l : ℕ) → k'.locked l ≡ (if has l hs then false else k.locked l))
      × ((p : ℕ) → k'.status p ≡ (if has p (vs ++ waiters_of ws hs) then ready else k.status p))
unfolding exit_cleanup
exit_cleanup_lem fuel k c b ws hs vs xs cur own wv wh wr wq vx apart few lv lh =
    let (k1, run, b1) =
      unblock_all_lem fuel {k = k} vs xs (subst (λ j. IsQueue k.links (waiting j) vs) (sym cur) wv)
        wr (omega arith) vx lv in
    let held : Disjoint (xs ++ vs) hs = Apart-held ws hs (xs ++ vs) apart in
    let w1 : Woken k (waiting c) vs [] xs k1 =
      subst (λ j. Woken k (waiting j) vs [] xs k1) cur b1 in
    let (k2, run', g) =
      release_holding-GaveBack fuel k1 c b ws hs (xs ++ vs)
        (ap (λ (j : Kernel). j.current_running) w1.same ∙ cur)
        (subst (λ f. All (λ m. f m ≡ false) hs) (sym (ap (λ (j : Kernel). j.overlaps) w1.same)) own)
        (w1.others (holding c) hs (omega arith) (omega arith)
          (subst (λ us. Disjoint us hs) (sym (append-nil vs)) (Disjoint-right xs vs hs held))
          (Disjoint-left xs vs hs held) wh)
        w1.readied (kept_locks c vs xs ws hs w1 (Apart-waiters ws hs (xs ++ vs) apart) wq) apart few
        lh in
    (
      k2,
      ap (λ o. o >>= release_holding fuel) run ∙ run',
      g.held,
      subst (IsQueue k2.links ready_queue) (append_assoc xs vs (waiters_of ws hs)) g.readied,
      λ l. g.locked l ∙ ap (λ (j : Kernel). if has l hs then false else j.locked l) w1.same,
      λ p.
          g.status p
          ∙ ap (λ s. if has p (waiters_of ws hs) then ready else s) (w1.status p)
          ∙ if_or (has p vs) (has p (waiters_of ws hs)) ready (k.status p)
          ∙ ap (λ d. if d then ready else k.status p) (sym (has-append p vs (waiters_of ws hs))),
    )
