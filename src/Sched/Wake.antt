-- ===== src/Sched/Wake.antt =====
-- Waking the tasks of a queue: `do_unblock_one` and `do_unblock_all` of kernel/sched/sched.c.
use tina.Base.{
  ℕ, zero, suc, ◌<◌, ◌≡◌, ◌≢◌, inl, inr, refl, sym, subst, ◌∙◌, Bool, true, false, ◌||◌, List, [],
  ◌∷◌, ◌++◌, append-nil, append_assoc, arith, ◌==◌, if◌then◌else◌, Bool-cases, update, length, take,
  drop, has, ◌∉◌, not-mem-cons,
}
use tina.Queue.{Links, null, queue_is_empty, queue_push, queue_dequeue}
use tina.Queue.Chain.{
  Disjoint-append, Disjoint-single, Disjoint-head, Disjoint-tail, Disjoint-sym, IsQueue, Disjoint,
}
use tina.Queue.Fifo.{is_empty_lem, push-IsQueue, dequeue-cons}
use tina.Queue.Frame.{push-frame, dequeue-frame, push-prev, dequeue-prev}
use tina.Kernel.Outcome.{ok}
use tina.Kernel.{Kernel, ready, ready_queue}
use tina.Sched.{wake_first, do_unblock_one, do_unblock_all}

-- The tasks `ws` have left queue `q` for the end of the ready queue, and nothing else has changed.
pub record Woken (k : Kernel) (q : ℕ) (ws rest xs : List ℕ) (k' : Kernel) : Type 0 where
  pub left : IsQueue k'.links q rest
  pub readied : IsQueue k'.links ready_queue (xs ++ ws)
  pub status : (p : ℕ) → k'.status p ≡ (if has p ws then ready else k.status p)
  pub chan : (p : ℕ) → k'.chan p ≡ (if has p ws then null else k.chan p)
  pub same : k' ≡ record k { links = k'.links; status = k'.status; chan = k'.chan }
  pub prev : (p : ℕ) → p ∉ (ws ++ rest) → k'.links.prev p ≡ k.links.prev p
  pub others :
      (r : ℕ) (ys : List ℕ)
      → q ≢ r
      → ready_queue ≢ r
      → Disjoint (ws ++ rest) ys
      → Disjoint xs ys
      → IsQueue k.links r ys
      → IsQueue k'.links r ys

if_or {ℓ} :
    {A : Type ℓ} (x y : A) (a b : Bool)
    → (if b then x else if a || false then x else y) ≡ (if a || b then x else y)
if_or x y true true = refl
if_or x y true false = refl
if_or x y false true = refl
if_or x y false false = refl

is_empty_cons :
    {s : Links} {q w : ℕ} {ws : List ℕ} → IsQueue s q (w ∷ ws) → queue_is_empty s q ≡ false
is_empty_cons {s} {q} {w} {ws} wq = elim (Bool-cases (queue_is_empty s q)) [
  | inl e ↦ let no_items : (w ∷ ws) ≡ [] = (is_empty_lem (w ∷ ws) wq).0 e in cc
  | inr e ↦ e
]

wake_first-eq :
    (k : Kernel) (q w : ℕ)
    → (queue_dequeue k.links q).1 ≡ w
    → wake_first k q ≡ record k {
      status = update k.status w ready;
      chan = update k.chan w null;
      links = queue_push (queue_dequeue k.links q).0 ready_queue w;
    }
unfolding wake_first
wake_first-eq k q w e = rw e

module _ {k : Kernel} {q : ℕ} (w : ℕ) (ws xs : List ℕ) (wq : IsQueue k.links q (w ∷ ws))
    (wr : IsQueue k.links ready_queue xs) (ne : q ≢ ready_queue)
    (apart : Disjoint (w ∷ ws) xs) where
  wake_first-Woken : Woken k q (w ∷ []) ws xs (wake_first k q)
  wake_first-Woken =
      subst (Woken k q (w ∷ []) ws xs) (sym (wake_first-eq k q w (dequeue-cons ws wq).0)) (record {
        left =
            push-frame (λ e. ne (sym e)) after_q w xs after_r
              (Disjoint-sym ws xs (Disjoint-tail w ws xs apart)) wq.distinct.0;
        readied = push-IsQueue w xs after_r wq.forward.0 (Disjoint-head w ws xs apart);
        status = λ p. ground arith;
        chan = λ p. ground arith;
        same = refl;
        prev = λ p out.
            push-prev (queue_dequeue k.links q).0 ready_queue w p
              (λ e. (not-mem-cons p w ws out).0 (sym e))
            ∙ dequeue-prev (w ∷ ws) p wq out;
        others = λ r ys qr rr dw dx other.
            push-frame rr (dequeue-frame qr other (w ∷ ws) wq dw) w xs after_r dx
              (Disjoint-head w ws ys dw);
      })
    where
      after_q : IsQueue (queue_dequeue k.links q).0 q ws
      after_q = (dequeue-cons ws wq).1

      after_r : IsQueue (queue_dequeue k.links q).0 ready_queue xs
      after_r = dequeue-frame ne wr (w ∷ ws) wq apart

  -- What is woken first and what is woken next is woken.
  Woken-trans :
      (k' : Kernel) → Woken (wake_first k q) q ws [] (xs ++ w ∷ []) k' → Woken k q (w ∷ ws) [] xs k'
  Woken-trans k' b = record {
    left = b.left;
    readied = subst (IsQueue k'.links ready_queue) (append_assoc xs (w ∷ []) ws) b.readied;
    status = λ p.
        b.status p ∙ rw (wake_first-Woken.status p) (if_or ready (k.status p) (w == p) (has p ws));
    chan = λ p. b.chan p ∙ rw (wake_first-Woken.chan p) (if_or null (k.chan p) (w == p) (has p ws));
    same =
        subst (λ j. k' ≡ record j { links = k'.links; status = k'.status; chan = k'.chan })
          (wake_first-eq k q w (dequeue-cons ws wq).0) b.same;
    prev = λ p out.
        let out' : p ∉ (w ∷ ws) = subst (λ l. p ∉ l) (append-nil (w ∷ ws)) out in
        b.prev p (subst (λ l. p ∉ l) (sym (append-nil ws)) (not-mem-cons p w ws out').1)
        ∙ wake_first-Woken.prev p out';
    others = λ r ys qr rr dw dx other.
        let dw' : Disjoint (w ∷ ws) ys = subst (λ l. Disjoint l ys) (append-nil (w ∷ ws)) dw in
        b.others r ys qr rr
          (subst (λ l. Disjoint l ys) (sym (append-nil ws)) (Disjoint-tail w ws ys dw'))
          (Disjoint-append xs (w ∷ []) ys dx (λ a i. dw' a (ground arith)))
          (wake_first-Woken.others r ys qr rr dw' dx other);
  }

apart_next : (w : ℕ) (ws xs : List ℕ) → w ∉ ws → Disjoint (w ∷ ws) xs → Disjoint ws (xs ++ w ∷ [])
apart_next w ws xs new apart = Disjoint-sym (xs ++ w ∷ []) ws (
    Disjoint-append xs (w ∷ []) ws (Disjoint-sym ws xs (Disjoint-tail w ws xs apart))
      (Disjoint-single w ws new))

-- On an empty queue nothing happens.
Woken-nil :
    {k : Kernel} {q : ℕ} (xs : List ℕ)
    → IsQueue k.links q []
    → IsQueue k.links ready_queue xs
    → Woken k q [] [] xs k
Woken-nil {k} xs wq wr = record {
  left = wq;
  readied = subst (IsQueue k.links ready_queue) (sym (append-nil xs)) wr;
  status = λ p. refl;
  chan = λ p. refl;
  same = refl;
  prev = λ p out. refl;
  others = λ r ys qr rr dw dx other. other;
}

-- On a queue other than the ready queue that shares no task with it, `do_unblock_one` moves the first
-- waiting task, if there is one, to the end of the ready queue, ready and with no channel; the other
-- tasks keep their state and their queues.
pub unblock_one_lem :
    {k : Kernel} {q : ℕ} (ws xs : List ℕ)
    → IsQueue k.links q ws
    → IsQueue k.links ready_queue xs
    → q ≢ ready_queue
    → Disjoint ws xs
    → Woken k q (take 1 ws) (drop 1 ws) xs (do_unblock_one k q)
unfolding do_unblock_one
unblock_one_lem [] xs wq wr ne apart = rw ((is_empty_lem [] wq).1 refl) (Woken-nil xs wq wr)
unblock_one_lem {k} {q} (w ∷ ws) xs wq wr ne apart =
    rw (is_empty_cons wq) (wake_first-Woken w ws xs wq wr ne apart)

-- On a queue other than the ready queue that shares no task with it, `do_unblock_all` ends with fuel
-- above the number of waiting tasks, and moves every one of them, in order, to the end of the ready
-- queue, ready and with no channel; the other queues are as before.
pub unblock_all_lem :
    (fuel : ℕ) {k : Kernel} {q : ℕ} (ws xs : List ℕ)
    → IsQueue k.links q ws
    → IsQueue k.links ready_queue xs
    → q ≢ ready_queue
    → Disjoint ws xs
    → length ws < fuel
    → (k' : Kernel) × (do_unblock_all fuel k q ≡ ok k') × Woken k q ws [] xs k'
unfolding do_unblock_all
unblock_all_lem zero ws xs wq wr ne apart l = absurd (omega arith)
unblock_all_lem (suc fuel) {k} [] xs wq wr ne apart l =
    (k, rw ((is_empty_lem [] wq).1 refl), Woken-nil xs wq wr)
unblock_all_lem (suc fuel) {k} {q} (w ∷ ws) xs wq wr ne apart l =
    let a = wake_first-Woken w ws xs wq wr ne apart in
    let (k', run, b) =
      unblock_all_lem fuel ws (xs ++ w ∷ []) a.left a.readied ne
        (apart_next w ws xs wq.distinct.0 apart) (omega arith) in
    (k', rw (is_empty_cons wq) run, Woken-trans w ws xs wq wr ne apart k' b)
