-- ===== src/Sync/Raise.antt =====
-- A task that raises a semaphore, and the last one at a barrier: kernel/locking/sem.c and barrier.c.
use tina.Base.{
  All, ℕ, ◌+◌, ◌%◌, ◌^◌, ◌<◌, ◌≡◌, ◌≢◌, inl, inr, refl, sym, ap, subst, ◌∙◌, true, false, ◌||◌,
  List, [], ◌∷◌, ◌++◌, append-nil, arith, ◌==◌, ==_iff, if◌then◌else◌, Bool-cases, update,
  update-eq, length, take, drop, has, ◌∉◌, Distinct, mem_middle,
}
use tina.Queue.{null, queue_push}
use tina.Queue.Chain.{
  IsQueue, Back, Back-same, Disjoint, Disjoint-sym, Disjoint-append, Disjoint-left, Disjoint-right,
  Distinct-split,
}
use tina.Queue.Fifo.{push-IsQueue, push-Back}
use tina.Queue.Frame.{push-frame}
use tina.Kernel.Outcome.{ok, ◌>>=◌}
use tina.Kernel.{Kernel, ready, ready_queue, holding, block_queue}
use tina.Sched.{do_unblock_one, do_unblock_all, do_mutex_lock_release}
use tina.Sched.Wake.{Woken, unblock_one_lem, unblock_all_lem}
use tina.Lock.{acquired, do_mutex_lock_acquire}
use tina.Lock.Mutex.{All-at, release-Released}
use tina.Lock.Exit.{if_or}
use tina.Sync.{Shared, Semaphore, Barrier, returned, do_semaphore_up, do_barrier_wait, arrive}

-- What a task relies on that takes the free lock `l` to wake tasks of `q`.
pub record CanRaise (fuel : ℕ) (k : Kernel) (l q : ℕ) (hs cs ws xs : List ℕ) : Type 0 where
  pub free : k.locked l ≡ false
  pub own_links : All (λ m. k.overlaps m ≡ false) (hs ++ l ∷ [])
  pub lock : l ≢ null
  pub held : IsQueue k.links (holding k.current_running) hs
  pub held_back : Back k.links.prev null hs
  pub new : l ∉ hs
  pub lock_queue : IsQueue k.links (block_queue l) ws
  pub ready_tasks : IsQueue k.links ready_queue xs
  pub own_queue : IsQueue k.links q cs
  pub other_queue : (q ≢ ready_queue) × (holding k.current_running ≢ q) × (block_queue l ≢ q)
  pub lock_ready : Disjoint ws xs
  pub held_lock : Disjoint (hs ++ l ∷ []) ws
  pub held_ready : Disjoint (hs ++ l ∷ []) xs
  pub held_own : Disjoint (hs ++ l ∷ []) cs
  pub lock_own : Disjoint ws cs
  pub ready_own : Disjoint cs xs
  pub enough : (length (hs ++ l ∷ []) < fuel) × (length ws < fuel) × (length cs < fuel)

-- The tasks `woken` have left `q`, where `rest` stays, and the lock has been used and given back.
pub record Raised (k : Kernel) (l q : ℕ) (woken rest ws xs : List ℕ) (k' : Kernel) : Type 0 where
  pub left : IsQueue k'.links q rest
  pub unlocked : k'.locked l ≡ false
  pub lock_left : IsQueue k'.links (block_queue l) []
  pub readied : IsQueue k'.links ready_queue ((xs ++ woken) ++ ws)
  pub running_task : k'.current_running ≡ k.current_running
  pub status : (p : ℕ) → k'.status p ≡ (if has p woken || has p ws then ready else k.status p)

first_and_rest : (cs : List ℕ) → take 1 cs ++ drop 1 cs ≡ cs
first_and_rest [] = refl
first_and_rest (c ∷ cs) = refl

update-twice : (f : ℕ → ℕ) (a j v w : ℕ) → update (update f a v) a w j ≡ (if a == j then w else f j)
update-twice f a j v w = elim (Bool-cases (a == j)) [ inl e ↦ rw e refl | inr e ↦ rw e refl ]

module _ (fuel : ℕ) {k : Kernel} {l q : ℕ} (hs cs ws xs : List ℕ)
    (can : CanRaise fuel k l q hs cs ws xs) where
  abbrev with_lock : Kernel
  with_lock = record k {
    links = queue_push k.links (holding k.current_running) l;
    locked = update k.locked l true;
  }

  keep :
      (r : ℕ) (ys : List ℕ)
      → holding k.current_running ≢ r
      → Disjoint (hs ++ l ∷ []) ys
      → IsQueue k.links r ys
      → IsQueue with_lock.links r ys
  keep r ys ne apart other =
      push-frame ne other l hs can.held (Disjoint-left hs (l ∷ []) ys apart)
        (apart l (mem_middle l hs []))

  own : k.overlaps l ≡ false
  own = All-at (λ m. k.overlaps m ≡ false) hs l [] can.own_links

  got : (count : ℕ) → do_mutex_lock_acquire fuel count k l ≡ ok (acquired with_lock)
  unfolding do_mutex_lock_acquire
  got count = rw (can.free, own) refl

  module _ (woken rest : List ℕ) (k2 : Kernel) (all : woken ++ rest ≡ cs)
      (w : Woken with_lock q woken rest xs k2) where
    same_task : k2.current_running ≡ k.current_running
    same_task = ap (λ (j : Kernel). j.current_running) w.same

    apart_own : (ys : List ℕ) → Disjoint cs ys → Disjoint (woken ++ rest) ys
    apart_own ys d = subst (λ us. Disjoint us ys) (sym all) d

    apart_rest : (ys : List ℕ) → Disjoint ys cs → Disjoint ys rest
    apart_rest ys d =
        Disjoint-sym rest ys (Disjoint-right woken rest ys (apart_own ys (Disjoint-sym ys cs d)))

    held-Back : Back k2.links.prev null (hs ++ l ∷ [])
    held-Back =
        Back-same with_lock.links.prev k2.links.prev null (hs ++ l ∷ [])
          (λ a i. w.prev a (subst (λ us. a ∉ us) (sym all) (can.held_own a i)))
          (push-Back l hs can.held can.held_back can.new)

    given_back :
        (k' : Kernel) × (do_mutex_lock_release fuel k2 l ≡ ok k') × Raised k l q woken rest ws xs k'
    given_back =
        let woken_apart : (ys : List ℕ) → Disjoint cs ys → Disjoint woken ys =
          λ ys d. Disjoint-left woken rest ys (apart_own ys d) in
        let (k', run, r) =
          release-Released fuel k2 l hs [] ws (xs ++ woken)
            (ap (λ (j : Kernel). j.overlaps l) w.same ∙ own) can.lock
            (subst (λ c. IsQueue k2.links (holding c) (hs ++ l ∷ [])) (sym same_task)
              (w.others (holding k.current_running) (hs ++ l ∷ []) (λ e. can.other_queue.1 (sym e))
                (omega arith)
                (apart_own (hs ++ l ∷ []) (Disjoint-sym (hs ++ l ∷ []) cs can.held_own))
                (Disjoint-sym (hs ++ l ∷ []) xs can.held_ready)
                (push-IsQueue l hs can.held can.lock can.new)))
            held-Back (inr (inl refl))
            (w.others (block_queue l) ws (λ e. can.other_queue.2 (sym e)) (omega arith)
              (apart_own ws (Disjoint-sym ws cs can.lock_own)) (Disjoint-sym ws xs can.lock_ready)
              (keep (block_queue l) ws (omega arith) can.held_lock can.lock_queue))
            w.readied
            (Disjoint-sym (xs ++ woken) ws (
              Disjoint-append xs woken ws (Disjoint-sym ws xs can.lock_ready)
                (woken_apart ws (Disjoint-sym ws cs can.lock_own))))
            can.held_lock
            (Disjoint-sym (xs ++ woken) (hs ++ l ∷ []) (
              Disjoint-append xs woken (hs ++ l ∷ [])
                (Disjoint-sym (hs ++ l ∷ []) xs can.held_ready)
                (woken_apart (hs ++ l ∷ []) (Disjoint-sym (hs ++ l ∷ []) cs can.held_own))))
            can.enough.0 can.enough.1 in
        (
          k',
          run,
          record {
            left =
                r.others q rest (subst (λ c. holding c ≢ q) (sym same_task) can.other_queue.1)
                  can.other_queue.2 (λ e. can.other_queue.0 (sym e))
                  (apart_rest (hs ++ l ∷ []) can.held_own) (apart_rest ws can.lock_own)
                  (Disjoint-append xs woken rest (apart_rest xs (Disjoint-sym cs xs can.ready_own))
                    (Distinct-split woken rest (subst Distinct (sym all) can.own_queue.distinct)))
                  w.left;
            unlocked = ap (λ (j : Kernel). j.locked l) r.same ∙ update-eq k2.locked l false;
            lock_left = r.left;
            readied = r.readied;
            running_task = ap (λ (j : Kernel). j.current_running) r.same ∙ same_task;
            status = λ p.
                r.status p
                ∙ ap (λ s. if has p ws then ready else s) (w.status p)
                ∙ if_or (has p woken) (has p ws) ready (k.status p);
          },
        )

  up_woken :
      (k' : Kernel) × (do_mutex_lock_release fuel (do_unblock_one with_lock q) l ≡ ok k')
      × Raised k l q (take 1 cs) (drop 1 cs) ws xs k'
  up_woken = given_back (take 1 cs) (drop 1 cs) (do_unblock_one with_lock q) (first_and_rest cs) (
      unblock_one_lem cs xs (keep q cs can.other_queue.1 can.held_own can.own_queue)
        (keep ready_queue xs (omega arith) can.held_ready can.ready_tasks) can.other_queue.0
        can.ready_own)

  all_woken :
      (k' : Kernel) × ((do_unblock_all fuel with_lock q >>= (λ j. do_mutex_lock_release fuel j l))
        ≡ ok k')
      × Raised k l q cs [] ws xs k'
  all_woken =
      let (k2, run, w) =
        unblock_all_lem fuel cs xs (keep q cs can.other_queue.1 can.held_own can.own_queue)
          (keep ready_queue xs (omega arith) can.held_ready can.ready_tasks) can.other_queue.0
          can.ready_own can.enough.2 in
      let (k', run', r) = given_back cs [] k2 (append-nil cs) w in (k', rw run run', r)

  -- `do_semaphore_up` returns, for a task that does not hold the lock of the semaphore, which is free
  -- and where the links of this lock and of the held ones overlap no other object, with queues that
  -- share no items, right backward links of the held locks, and fuel above their lengths: the count is
  -- one higher, modulo 2 ^ 32, the lock is free again, the first task of the semaphore, if there is one,
  -- and then those of the lock stand ready at the end of the ready queue, and the same task runs; the
  -- other tasks of the semaphore wait on, and no other status changes.
  pub up-Raised :
      (count : ℕ) (st : Shared) (s : Semaphore)
      → st.kernel ≡ k
      → s.lock ≡ l
      → s.queue ≡ q
      → (k' : Kernel) × (do_semaphore_up fuel count st s
          ≡ ok (
              returned (record st {
                kernel = k';
                number = update st.number s.count ((st.number s.count + 1) % 2 ^ 32);
              })))
        × Raised k l q (take 1 cs) (drop 1 cs) ws xs k'
  unfolding do_semaphore_up
  up-Raised count st s e el eq =
      let (k', run, r) = up_woken in (k', rw (e, el, got count, el, eq, run) refl, r)

  -- `do_barrier_wait` returns for the task whose arrival makes the count the goal, if it does not hold
  -- the lock of the barrier, which is free and where the links of this lock and of the held ones overlap
  -- no other object, with queues that share no items, right backward links of the held locks, and fuel
  -- above their lengths: the count is 0 again and the other numbers are as before, the lock is free
  -- again, all the tasks of the barrier and then those of the lock stand ready at the end of the ready
  -- queue, the same task runs, and no other status changes.
  pub arrive-Raised :
      (count : ℕ) (st : Shared) (b : Barrier)
      → st.kernel ≡ k
      → b.lock ≡ l
      → b.queue ≡ q
      → (st.number b.count + 1) % 2 ^ 32 ≡ st.number b.max
      → (st' : Shared) × (do_barrier_wait fuel count st b ≡ ok (returned st'))
        × ((a : ℕ) → st'.number a ≡ (if b.count == a then 0 else st.number a))
        × Raised k l q cs [] ws xs st'.kernel
  unfolding do_barrier_wait arrive
  arrive-Raised count st b e el eq last =
      let (k', run, r) = all_woken in
      (
        record st {
          kernel = k';
          number = update (update st.number b.count ((st.number b.count + 1) % 2 ^ 32)) b.count 0;
        },
        rw (e, el, got count, (==_iff _ _).1 last, el, eq, run) refl,
        λ a. update-twice st.number b.count a ((st.number b.count + 1) % 2 ^ 32) 0,
        r,
      )
