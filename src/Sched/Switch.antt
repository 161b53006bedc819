-- ===== src/Sched/Switch.antt =====
-- Context switches: `scheduler` from the running task to the next one, kernel/sched/sched.c.
use tina.Base.{
  ℕ, ◌+◌, ◌*◌, ◌/◌, ◌%◌, ◌<◌, ◌≡◌, ◌≢◌, inl, inr, refl, sym, ap, subst, ◌∙◌, List, [], ◌∷◌, ◌++◌,
  append_assoc, arith, ◌==◌, ==_iff, ==_ne, if◌then◌else◌, Bool-cases, update, update-ne, update-eq,
  length, All, ◌∉◌, not-mem-cons, not-mem-append,
}
use tina.Queue.{null, queue_push}
use tina.Queue.Chain.{IsQueue, Disjoint, Disjoint-sym, Disjoint-append, Disjoint-single}
use tina.Queue.Fifo.{push-IsQueue}
use tina.Queue.Frame.{push-frame}
use tina.Kernel.Outcome.{ok, out_of_fuel, ◌>>=◌}
use tina.Kernel.{Kernel, Status, sleeping, blocked, running, ready, ready_queue, u32}
use tina.Sched.{
  get_timer, set_timer, leave, pick, save_cursor, resume, scheduler, do_scheduler, do_block,
  do_sleep,
}
use tina.Sched.Pick.{Asleep, Runnable, Picked, pick-first, pick_hangs, All-snoc}

-- The processor has gone from the task that ran in `k` to `z`, and the ready queue is left with `rest`.
pub record Switched (count : ℕ) (k : Kernel) (z : ℕ) (xs rest : List ℕ) (k' : Kernel) : Type 0 where
  pub chosen : k'.current_running ≡ z
  pub status : (p : ℕ) → k'.status p ≡ (if z == p then running else k.status p)
  pub queue : IsQueue k'.links ready_queue rest
  pub saved_x : k'.cursor_x k.current_running ≡ k.screen_cursor_x
  pub saved_y : k'.cursor_y k.current_running ≡ k.screen_cursor_y
  pub shown_x :
      k'.screen_cursor_x ≡ (if k.current_running == z then k.screen_cursor_x else k.cursor_x z)
  pub shown_y :
      k'.screen_cursor_y ≡ (if k.current_running == z then k.screen_cursor_y else k.cursor_y z)
  pub clock : k'.time_elapsed ≡ (k.time_elapsed + count * 2 % u32 / 300) % u32
  pub chan : (p : ℕ) → k'.chan p ≡ k.chan p
  pub others :
      (r : ℕ) (ys : List ℕ)
      → ready_queue ≢ r
      → Disjoint xs ys
      → IsQueue k.links r ys
      → IsQueue k'.links r ys

resume-Switched :
    (count : ℕ) (k : Kernel) (z : ℕ) (xs rest : List ℕ) (k' : Kernel)
    → Picked (save_cursor k) z xs rest k'
    → Switched count k z xs rest (resume count k')
unfolding save_cursor resume set_timer
resume-Switched count k z xs rest k' b = record {
  chosen = b.chosen;
  status = λ p.
      rw b.chosen (elim (Bool-cases (z == p)) [ inl e ↦ rw e | inr e ↦ rw e (b.status p ∙ rw e) ]);
  queue = b.queue;
  saved_x =
      ap (λ j. j.cursor_x k.current_running) b.same ∙ update-eq k.cursor_x k.current_running _;
  saved_y =
      ap (λ j. j.cursor_y k.current_running) b.same ∙ update-eq k.cursor_y k.current_running _;
  shown_x = ap k'.cursor_x b.chosen ∙ ap (λ j. j.cursor_x z) b.same;
  shown_y = ap k'.cursor_y b.chosen ∙ ap (λ j. j.cursor_y z) b.same;
  clock = ap (λ (j : Kernel). (j.time_elapsed + count * 2 % u32 / 300) % u32) b.same;
  chan = λ p. ap (λ (j : Kernel). j.chan p) b.same;
  others = b.others;
}

-- The switch from the state `left` in which the running task has been put where it goes.
switch :
    (fuel count arg : ℕ) (k : Kernel) (s : Status) (left : Kernel) (ys : List ℕ) (z : ℕ)
    (zs : List ℕ)
    → leave fuel k arg s ≡ ok left
    → IsQueue left.links ready_queue (ys ++ z ∷ zs)
    → All (Asleep left) ys
    → Runnable left z
    → length ys < fuel
    → (k' : Kernel) × (scheduler fuel count k arg s ≡ ok k')
      × Switched count left z (ys ++ z ∷ zs) (zs ++ ys) k'
unfolding scheduler save_cursor get_timer
switch fuel count arg k s left ys z zs gone w asleep can l =
    let (k', run, b) = pick-first fuel (save_cursor left) ys z zs w asleep can l in
    (resume count k', rw gone (rw run), resume-Switched count left z (ys ++ z ∷ zs) (zs ++ ys) k' b)

-- What the departure of task `c` leaves as it is: the state of every other task.
record Away (k : Kernel) (c : ℕ) (left : Kernel) : Type 0 where
  status : (p : ℕ) → c ≢ p → left.status p ≡ k.status p
  sleep_end : (p : ℕ) → c ≢ p → left.sleep_end p ≡ k.sleep_end p
  timer : get_timer left ≡ get_timer k

Away-Asleep :
    (k left : Kernel) (c : ℕ) (ys : List ℕ)
    → Away k c left
    → c ∉ ys
    → All (Asleep k) ys
    → All (Asleep left) ys
Away-Asleep k left c [] a out h = tt
Away-Asleep k left c (y ∷ ys) a out (h, hs) =
    let (ne, out') = not-mem-cons c y ys out in
    (
      (a.status y (λ e. ne (sym e)) ∙ h.0, rw (a.timer, a.sleep_end y (λ e. ne (sym e))) h.1),
      Away-Asleep k left c ys a out' hs,
    )

Away-Runnable : (k left : Kernel) (c z : ℕ) → Away k c left → c ≢ z → Runnable k z → Runnable left z
Away-Runnable k left c z a ne (inl h) = inl (a.status z ne ∙ h)
Away-Runnable k left c z a ne (inr (inl h)) = inr (inl (a.status z ne ∙ h))
Away-Runnable k left c z a ne (inr (inr h)) =
    inr (inr (a.status z ne ∙ h.0, rw (a.timer, a.sleep_end z ne) h.1))

-- The tasks `ys` sleep on in front of the runnable `z`, and `c`, which is none of them, is running.
module _ (fuel count : ℕ) (k : Kernel) (ys : List ℕ) (z : ℕ) (zs : List ℕ)
    (w : IsQueue k.links ready_queue (ys ++ z ∷ zs)) (asleep : All (Asleep k) ys)
    (can : Runnable k z) (valid : k.current_running ≢ null)
    (running_task : k.current_running ∉ (ys ++ z ∷ zs)) (l : length ys < fuel) where
  out_ys : k.current_running ∉ ys
  out_ys = (not-mem-append k.current_running ys (z ∷ zs) running_task).0

  z_ne : k.current_running ≢ z
  z_ne e =
      (not-mem-cons k.current_running z zs
          (not-mem-append k.current_running ys (z ∷ zs) running_task).1).0
        (sym e)

  -- With the ready queue `ys ++ z ∷ zs`, where the tasks `ys` sleep on, `z` can run and the running task
  -- is not among them, `do_block(q)` of a queue with no task of the ready queue returns if its fuel
  -- exceeds the number of `ys`: the running task stands at the end of `q`, blocked on it, `z` runs, and
  -- the ready queue is `zs ++ ys`.
  pub block-Switched :
      (q : ℕ) (ws : List ℕ)
      → q ≢ ready_queue
      → IsQueue k.links q ws
      → Disjoint ws (ys ++ z ∷ zs)
      → k.current_running ∉ ws
      → (k' : Kernel) × (do_block fuel count k q ≡ ok k')
        × IsQueue k'.links q (ws ++ k.current_running ∷ [])
        × (k'.status k.current_running ≡ blocked)
        × (k'.chan k.current_running ≡ q)
        × (k'.current_running ≡ z)
        × (k'.status z ≡ running)
        × IsQueue k'.links ready_queue (zs ++ ys)
  unfolding do_block leave get_timer
  block-Switched q ws ne wq apart new =
      let c : ℕ = k.current_running in
      let left : Kernel = record k {
        status = update k.status c blocked;
        chan = update k.chan c q;
        links = queue_push k.links q c;
      } in
      let a : Away k c left = record {
        status = λ p n. update-ne k.status c blocked p n;
        sleep_end = λ p n. refl;
        timer = refl;
      } in
      let (k', run, b) =
        switch fuel count q k blocked left ys z zs refl (push-frame ne w c ws wq apart running_task)
          (Away-Asleep k left c ys a out_ys asleep) (Away-Runnable k left c z a z_ne can) l in
      (
        k',
        run,
        b.others q (ws ++ c ∷ []) (λ e. ne (sym e))
            (Disjoint-sym (ws ++ c ∷ []) (ys ++ z ∷ zs) (
              Disjoint-append ws (c ∷ []) (ys ++ z ∷ zs) apart
                (Disjoint-single c (ys ++ z ∷ zs) running_task)))
            (push-IsQueue c ws wq valid new),
        b.status c ∙ rw (==_ne z c (λ e. z_ne (sym e))) (update-eq k.status c blocked),
        b.chan c ∙ update-eq k.chan c q,
        b.chosen,
        b.status z ∙ rw ((==_iff z z).1 refl),
        b.queue,
      )

  -- With the ready queue `ys ++ z ∷ zs`, where the tasks `ys` sleep on, `z` can run and the running task
  -- is not among them, `do_scheduler` returns if its fuel exceeds the number of `ys`: `z` runs, and the
  -- ready queue is `zs`, the task that ran, now ready, and then `ys`.
  pub yield-Switched :
      (k' : Kernel) × (do_scheduler fuel count k ≡ ok k')
      × IsQueue k'.links ready_queue (zs ++ k.current_running ∷ ys)
      × (k'.status k.current_running ≡ ready)
      × (k'.current_running ≡ z)
      × (k'.status z ≡ running)
  unfolding do_scheduler leave get_timer
  yield-Switched =
      let c : ℕ = k.current_running in
      let left : Kernel = record k {
        status = update k.status c ready;
        links = queue_push k.links ready_queue c;
      } in
      let a : Away k c left = record {
        status = λ p n. update-ne k.status c ready p n;
        sleep_end = λ p n. refl;
        timer = refl;
      } in
      let (k', run, b) =
        switch fuel count 0 k running left ys z (zs ++ c ∷ []) refl
          (subst (IsQueue left.links ready_queue) (append_assoc ys (z ∷ zs) (c ∷ []))
            (push-IsQueue c (ys ++ z ∷ zs) w valid running_task))
          (Away-Asleep k left c ys a out_ys asleep) (Away-Runnable k left c z a z_ne can) l in
      (
        k',
        run,
        subst (IsQueue k'.links ready_queue) (append_assoc zs (c ∷ []) ys) b.queue,
        b.status c ∙ rw (==_ne z c (λ e. z_ne (sym e))) (update-eq k.status c ready),
        b.chosen,
        b.status z ∙ rw ((==_iff z z).1 refl),
      )

-- If the ready queue holds at most tasks that sleep on, and the running task sleeps for a positive
-- time with no wrap of the clock, `do_sleep` runs out of any fuel: the scheduler goes round the
-- sleepers for ever, since the clock that it compares with only advances behind its loop.
pub sleep_hangs :
    (fuel count t : ℕ) (k : Kernel) (xs : List ℕ)
    → IsQueue k.links ready_queue xs
    → All (Asleep k) xs
    → k.current_running ≢ null
    → k.current_running ∉ xs
    → 0 < t
    → get_timer k + t < u32
    → do_sleep fuel count k t ≡ out_of_fuel
unfolding do_sleep scheduler leave save_cursor get_timer
sleep_hangs fuel count t k xs w asleep valid new pos fits =
    rw (hangs xs (push-IsQueue c xs w valid new) (Away-Asleep k left c xs a new asleep))
  where
    c : ℕ
    c = k.current_running

    left : Kernel
    left = record k {
      status = update k.status c sleeping;
      sleep_end = update k.sleep_end c ((get_timer k + t) % u32);
      links = queue_push k.links ready_queue c;
    }

    a : Away k c left
    a = record {
      status = λ p n. update-ne k.status c sleeping p n;
      sleep_end = λ p n. update-ne k.sleep_end c ((get_timer k + t) % u32) p n;
      timer = refl;
    }

    own : Asleep left c
    own = (
      update-eq k.status c sleeping,
      rw (update-eq k.sleep_end c ((get_timer k + t) % u32)) (omega arith),
    )

    hangs :
        (ys : List ℕ)
        → IsQueue left.links ready_queue (ys ++ c ∷ [])
        → All (Asleep left) ys
        → pick fuel (save_cursor left) ≡ out_of_fuel
    hangs [] w' h = pick_hangs fuel (save_cursor left) c [] w' (own, tt)
    hangs (y ∷ ys) w' h =
        pick_hangs fuel (save_cursor left) y (ys ++ c ∷ []) w'
          (All-snoc (Asleep left) (y ∷ ys) c h own)

-- Two kernels that the first switch makes the same are the same after the whole scheduler.
pub scheduler-leave :
    (fuel count : ℕ) (j k : Kernel) (arg : ℕ) (s : Status)
    → leave fuel j arg s ≡ leave fuel k arg s
    → scheduler fuel count j arg s ≡ scheduler fuel count k arg s
unfolding scheduler
scheduler-leave fuel count j k arg s e =
    ap (λ l. l >>= λ left. pick fuel (save_cursor left) >>= λ picked. ok (resume count picked)) e
