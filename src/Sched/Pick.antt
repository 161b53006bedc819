-- ===== src/Sched/Pick.antt =====
-- Which task the loop of `scheduler` picks, and when it never ends: kernel/sched/sched.c.
use tina.Base.{
  ℕ, zero, suc, ◌≤◌, ◌<◌, ◌≡◌, ◌≢◌, ◌⊎◌, inl, inr, refl, sym, ap, subst, ◌∙◌, false, List, [], ◌∷◌,
  ◌++◌, append-nil, append_assoc, arith, ◌==◌, ==_iff, ==_ne, leb_lt, leb_le, if◌then◌else◌,
  Bool-cases, update, update-eq, length, All,
}
use tina.Queue.{null, queue_push, queue_dequeue}
use tina.Queue.Chain.{IsQueue, Disjoint, Disjoint-head, Disjoint-tail, Disjoint-append}
use tina.Queue.Fifo.{push-IsQueue, dequeue-cons, dequeue-nil}
use tina.Queue.Frame.{push-frame, dequeue-frame}
use tina.Kernel.Outcome.{ok, stopped, out_of_fuel}
use tina.Kernel.{Kernel, Status, embryo, sleeping, ready, ready_queue, is_ready}
use tina.Sched.{get_timer, pick_round, pick, check_sleeping, enter}

-- A sleeper whose time has not come.
abbrev pub Asleep : Kernel → ℕ → Type 0
Asleep k p = (k.status p ≡ sleeping) × (get_timer k < k.sleep_end p)

-- A task that the loop can stop at.
abbrev pub Runnable : Kernel → ℕ → Type 0
Runnable k p =
    (k.status p ≡ ready)
    ⊎ (k.status p ≡ embryo)
    ⊎ ((k.status p ≡ sleeping) × (k.sleep_end p ≤ get_timer k))

-- The task `z` has been taken from the ready queue, which is left with `rest`.
pub record Picked (k : Kernel) (z : ℕ) (xs rest : List ℕ) (k' : Kernel) : Type 0 where
  pub chosen : k'.current_running ≡ z
  pub status : (p : ℕ) → k'.status p ≡ (if z == p then ready else k.status p)
  pub queue : IsQueue k'.links ready_queue rest
  pub same :
      k' ≡ record k { links = k'.links; status = k'.status; current_running = k'.current_running }
  pub others :
      (r : ℕ) (ys : List ℕ)
      → ready_queue ≢ r
      → Disjoint xs ys
      → IsQueue k.links r ys
      → IsQueue k'.links r ys

-- The state just after the first task `x` has been taken from the ready queue.
abbrev taken : Kernel → ℕ → Kernel
taken k x = record k { links = (queue_dequeue k.links ready_queue).0; current_running = x }

-- The state when it has gone back to the end of that queue.
abbrev back_again : Kernel → ℕ → Kernel
back_again k x = record k {
  links = queue_push (queue_dequeue k.links ready_queue).0 ready_queue x;
  current_running = x;
}

module _ (fuel : ℕ) (k : Kernel) (x : ℕ) (xs : List ℕ)
    (w : IsQueue k.links ready_queue (x ∷ xs)) where
  -- A round at any task but NULL.
  round-eq :
      pick_round fuel k
      ≡ enter fuel (check_sleeping (taken k x)) ((check_sleeping (taken k x)).status x)
  unfolding pick_round
  round-eq = rw (dequeue-cons xs w).0 (rw (==_ne x null w.forward.0))

  -- A sleeper goes to the end of the queue.
  round-Asleep :
      Asleep k x
      → (pick_round fuel k ≡ ok (back_again k x))
        × IsQueue (back_again k x).links ready_queue (xs ++ x ∷ [])
  unfolding check_sleeping enter get_timer
  round-Asleep (s, due) = (
    round-eq ∙ rw (s, leb_lt _ _ due) (rw s),
    push-IsQueue x xs (dequeue-cons xs w).1 w.forward.0 w.distinct.0,
  )

  picked :
      (st : ℕ → Status)
      → ((p : ℕ) → st p ≡ (if x == p then ready else k.status p))
      → Picked k x (x ∷ xs) xs (record (taken k x) { status = st })
  picked st h = record {
    chosen = refl;
    status = h;
    queue = (dequeue-cons xs w).1;
    same = refl;
    others = λ r ys ne apart other. dequeue-frame ne other (x ∷ xs) w apart;
  }

  already : k.status x ≡ ready → (p : ℕ) → k.status p ≡ (if x == p then ready else k.status p)
  already e p = elim (Bool-cases (x == p)) [
    | inl h ↦ rw h (ap k.status (sym ((==_iff x p).0 h)) ∙ e)
    | inr h ↦ rw h
  ]

  -- A task that can run is taken.
  round-Runnable :
      Runnable k x → (k' : Kernel) × (pick_round fuel k ≡ ok k') × Picked k x (x ∷ xs) xs k'
  unfolding check_sleeping enter get_timer
  round-Runnable (inl s) = (taken k x, round-eq ∙ rw s (rw s), picked k.status (already s))
  round-Runnable (inr (inl s)) = (
    record (taken k x) { status = update k.status x ready },
    round-eq ∙ rw s (rw s),
    picked _ (λ p. refl),
  )
  round-Runnable (inr (inr (s, due))) = (
    record (taken k x) { status = update k.status x ready },
    round-eq ∙ rw (s, leb_le _ _ due) (rw (update-eq k.status x ready)),
    picked _ (λ p. refl),
  )

-- A round that ends at a task that is not ready is followed by the next one.
pick-next :
    (fuel : ℕ) (k k1 : Kernel)
    → pick_round fuel k ≡ ok k1
    → is_ready (k1.status k1.current_running) ≡ false
    → pick (suc fuel) k ≡ pick fuel k1
unfolding pick
pick-next fuel k k1 run e = rw run (rw e)

pick-last :
    (fuel : ℕ) (k k1 : Kernel)
    → pick_round fuel k ≡ ok k1
    → k1.status k1.current_running ≡ ready
    → pick (suc fuel) k ≡ ok k1
unfolding pick
pick-last fuel k k1 run e = rw run (rw e)

Picked-ready :
    (k : Kernel) (z : ℕ) (xs rest : List ℕ) (k' : Kernel)
    → Picked k z xs rest k'
    → k'.status k'.current_running ≡ ready
Picked-ready k z xs rest k' b = ap k'.status b.chosen ∙ b.status z ∙ rw ((==_iff z z).1 refl)

-- The pick behind a sleeper that has gone to the end of the queue.
Picked-back :
    (k : Kernel) (y z : ℕ) (xs rest : List ℕ) (k' : Kernel)
    → IsQueue k.links ready_queue (y ∷ xs)
    → Picked (back_again k y) z (xs ++ y ∷ []) rest k'
    → Picked k z (y ∷ xs) rest k'
Picked-back k y z xs rest k' w b = record {
  chosen = b.chosen;
  status = b.status;
  queue = b.queue;
  same = b.same;
  others = λ r ys ne apart other.
      b.others r ys ne
        (Disjoint-append xs (y ∷ []) ys (Disjoint-tail y xs ys apart)
          (λ a i. apart a (ground arith)))
        (push-frame ne (dequeue-frame ne other (y ∷ xs) w apart) y xs (dequeue-cons xs w).1
          (Disjoint-tail y xs ys apart) (Disjoint-head y xs ys apart));
}

-- In a state whose ready queue is `ys ++ z ∷ zs`, where the tasks `ys` sleep on and `z` can run, the
-- loop of `scheduler` ends if its fuel exceeds the number of `ys`; it takes `z` and leaves the queue
-- `zs ++ ys`.
pub pick-first :
    (fuel : ℕ) (k : Kernel) (ys : List ℕ) (z : ℕ) (zs : List ℕ)
    → IsQueue k.links ready_queue (ys ++ z ∷ zs)
    → All (Asleep k) ys
    → Runnable k z
    → length ys < fuel
    → (k' : Kernel) × (pick fuel k ≡ ok k') × Picked k z (ys ++ z ∷ zs) (zs ++ ys) k'
unfolding get_timer
pick-first zero k ys z zs w asleep can l = absurd (omega arith)
pick-first (suc fuel) k [] z zs w asleep can l =
    let (k', run, b) = round-Runnable fuel k z zs w can in
    (
      k',
      pick-last fuel k k' run (Picked-ready k z (z ∷ zs) zs k' b),
      subst (λ r. Picked k z (z ∷ zs) r k') (sym (append-nil zs)) b,
    )
pick-first (suc fuel) k (y ∷ ys) z zs w asleep can l =
    let (run, w1) = round-Asleep fuel k y (ys ++ z ∷ zs) w asleep.0 in
    let e : (ys ++ z ∷ zs) ++ y ∷ [] ≡ ys ++ z ∷ (zs ++ y ∷ []) =
      append_assoc ys (z ∷ zs) (y ∷ []) in
    let (k', later, b) =
      pick-first fuel (back_again k y) ys z (zs ++ y ∷ [])
        (subst (IsQueue (back_again k y).links ready_queue) e w1) asleep.1 can (omega arith) in
    (
      k',
      pick-next fuel k (back_again k y) run (ap is_ready asleep.0.0) ∙ later,
      Picked-back k y z (ys ++ z ∷ zs) (zs ++ y ∷ ys) k' w (
          subst (λ r. Picked (back_again k y) z r (zs ++ y ∷ ys) k') (sym e)
            (subst (λ r. Picked (back_again k y) z (ys ++ z ∷ (zs ++ y ∷ [])) r k')
              (append_assoc zs (y ∷ []) ys) b)),
    )

pub All-snoc :
    {A : Type 0} (P : A → Type 0) (xs : List A) (x : A) → All P xs → P x → All P (xs ++ x ∷ [])
All-snoc P [] x h p = (p, tt)
All-snoc P (y ∷ ys) x h p = (h.0, All-snoc P ys x h.1 p)

-- The time does not pass inside the loop: if the ready queue holds tasks that all sleep on, no fuel is enough.
pub pick_hangs :
    (fuel : ℕ) (k : Kernel) (x : ℕ) (xs : List ℕ)
    → IsQueue k.links ready_queue (x ∷ xs)
    → All (Asleep k) (x ∷ xs)
    → pick fuel k ≡ out_of_fuel
unfolding get_timer
pick_hangs zero k x xs w asleep = unfold pick in refl
pick_hangs (suc fuel) k x [] w asleep =
    let (run, w1) = round-Asleep fuel k x [] w asleep.0 in
    pick-next fuel k (back_again k x) run (ap is_ready asleep.0.0)
    ∙ pick_hangs fuel (back_again k x) x [] w1 asleep
pick_hangs (suc fuel) k x (y ∷ ys) w asleep =
    let (run, w1) = round-Asleep fuel k x (y ∷ ys) w asleep.0 in
    pick-next fuel k (back_again k x) run (ap is_ready asleep.0.0)
    ∙ pick_hangs fuel (back_again k x) y (ys ++ x ∷ []) w1
        (All-snoc (Asleep k) (y ∷ ys) x asleep.1 asleep.0)

-- With an empty ready queue the loop reads through NULL.
pub pick_stops :
    (fuel : ℕ) (k : Kernel) → IsQueue k.links ready_queue [] → pick (suc fuel) k ≡ stopped
unfolding pick pick_round
pick_stops fuel k w = rw (dequeue-nil w)
