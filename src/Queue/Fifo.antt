-- ===== src/Queue/Fifo.antt =====
-- Push, dequeue and search against the list of items: kernel/sched/queue.c.
use tina.Base.{
  sym, subst, ==_ne, ◌∙◌, ==_iff, ap, inr, inl, ◌↔◌, Bool-cases, ℕ, zero, suc, ◌<◌, ◌≡◌, ◌≢◌, refl,
  Bool, true, false, ◌||◌, some, List, [], ◌∷◌, ◌++◌, arith, ◌==◌, if◌then◌else◌, update, length,
  has, ◌∉◌, Distinct,
}
use tina.Queue.{
  Links, null, queue_init, queue_is_empty, queue_push, queue_dequeue, has_loop, queue_has,
}
use tina.Queue.Chain.{
  ne_of_mem, last_or, Chain, Back, IsQueue, Chain-update, last_or-mem, last_or-append, Chain-snoc,
  Back-snoc, Distinct-snoc,
}

-- `queue_init` makes the queue empty.
pub init-IsQueue : (s : Links) (q : ℕ) → IsQueue (queue_init s q) q []
unfolding queue_init
init-IsQueue s q = record { front = ground arith; back = ground arith; forward = tt; distinct = tt }

-- `queue_is_empty` says whether the list is empty.
pub is_empty_lem :
    {s : Links} {q : ℕ} (xs : List ℕ) → IsQueue s q xs → (queue_is_empty s q ≡ true) ↔ (xs ≡ [])
unfolding queue_is_empty
is_empty_lem [] w = (λ _. refl, λ _. ground arith)
is_empty_lem (x ∷ xs) w = (λ e. absurd (w.forward.0 (ground arith)), λ e. cc)

-- The branch of `queue_push` behind a last item `t`.
pub pushed :
    (s : Links) (q p x t : ℕ)
    → s.head q ≡ x
    → x ≢ null
    → s.tail q ≡ t
    → queue_push s q p ≡ record s {
      next = update (update s.next t p) p null;
      prev = update s.prev p t;
      tail = update s.tail q p;
    }
unfolding queue_push
pushed s q p x t h ne e = elim (Bool-cases (x == null)) [
  | inl z ↦ absurd (ne ((==_iff x null).0 z))
  | inr z ↦ rw (h, z, e)
]

-- `queue_push` of an item that is not NULL and not in the queue appends it.
pub push-IsQueue :
    {s : Links} {q : ℕ} (p : ℕ) (xs : List ℕ)
    → IsQueue s q xs
    → p ≢ null
    → p ∉ xs
    → IsQueue (queue_push s q p) q (xs ++ p ∷ [])
push-IsQueue {s} p [] w ne out =
    unfold queue_push in
    rw w.front (record {
      front = ground arith;
      back = ground arith;
      forward = (ne, ground arith, tt);
      distinct = (refl, tt);
    })
push-IsQueue {s} {q} p (x ∷ xs) w ne out =
    rw (pushed s q p x (last_or x xs) w.front w.forward.0 w.back) (record {
      front = w.front;
      back = ground (arith, last_or-append x p xs []);
      forward = Chain-snoc s.next p x xs ne out w.distinct w.forward;
      distinct = Distinct-snoc p (x ∷ xs) out w.distinct;
    })

pub push-Back :
    {s : Links} {q : ℕ} (p : ℕ) (xs : List ℕ)
    → IsQueue s q xs
    → Back s.prev null xs
    → p ∉ xs
    → Back (queue_push s q p).prev null (xs ++ p ∷ [])
push-Back {s} p [] w b out = unfold queue_push in rw w.front (ground arith, tt)
push-Back {s} {q} p (x ∷ xs) w b out =
    subst (λ r. Back r.prev null ((x ∷ xs) ++ p ∷ []))
      (sym (pushed s q p x (last_or x xs) w.front w.forward.0 w.back))
      (Back-snoc s.prev p null (x ∷ xs) out b)

-- `queue_dequeue` of an empty queue returns NULL and changes nothing.
pub dequeue-nil : {s : Links} {q : ℕ} → IsQueue s q [] → queue_dequeue s q ≡ (s, null)
unfolding queue_dequeue
dequeue-nil w = rw w.front

-- `queue_dequeue` of a queue with a first item returns that item and leaves the rest.
pub dequeue-cons :
    {s : Links} {q x : ℕ} (xs : List ℕ)
    → IsQueue s q (x ∷ xs)
    → ((queue_dequeue s q).1 ≡ x) × IsQueue (queue_dequeue s q).0 q xs
unfolding queue_dequeue
dequeue-cons {s} {q} {x} [] w = elim (Bool-cases (x == null)) [
  | inl e ↦ absurd (w.forward.0 (ground arith))
  | inr e ↦
      rw (w.front, e, w.forward.1)
        (refl, record { front = ground arith; back = ground arith; forward = tt; distinct = tt })
]
dequeue-cons {s} {q} {x} (y ∷ ys) w = elim (Bool-cases (x == null)) [
  | inl e ↦ absurd (w.forward.0 (ground arith))
  | inr e ↦ elim (Bool-cases (y == null)) [
    | inl e' ↦ absurd (w.forward.2.0 (ground arith))
    | inr e' ↦
        rw (w.front, e, w.forward.1, e')
          (
            refl,
            record {
              front = ground arith;
              back = w.back;
              forward = Chain-update s.next x null (y ∷ ys) w.distinct.0 w.forward.2;
              distinct = w.distinct.1;
            },
          )
  ]
]

or_some : (a b : Bool) → (if a then some true else some b) ≡ some (a || b)
or_some true b = refl
or_some false b = refl

has_loop-has :
    (fuel : ℕ) (s : Links) (q p x : ℕ) (xs : List ℕ)
    → s.tail q ≡ last_or x xs
    → Chain s.next (x ∷ xs)
    → Distinct (x ∷ xs)
    → length xs < fuel
    → has_loop fuel s q p x ≡ some (has p (x ∷ xs))
unfolding has_loop
has_loop-has zero s q p x xs t c d l = absurd (omega arith)
has_loop-has (suc fuel) s q p x [] t c d l = ground arith
has_loop-has (suc fuel) s q p x (y ∷ ys) t c d l =
    rw (t, ==_ne x _ (ne_of_mem x _ (y ∷ ys) d.0 (last_or-mem y ys)), ==_ne x null c.0, c.1)
      (rw (has_loop-has fuel s q p y ys t c.2 d.1 (omega arith))
        (or_some (x == p) (has p (y ∷ ys))))

-- `queue_has` ends with fuel above the length of the queue, and says whether the item, if it is not
-- NULL, is in it.
pub has_lem :
    {s : Links} {q : ℕ} (fuel p : ℕ) (xs : List ℕ)
    → IsQueue s q xs
    → p ≢ null
    → length xs < fuel
    → queue_has fuel s q p ≡ some (has p xs)
unfolding queue_has has_loop
has_lem zero p xs w ne l = absurd (omega arith)
has_lem (suc fuel) p [] w ne l = rw (w.front, w.back) (ground arith)
has_lem {s} {q} (suc fuel) p (x ∷ xs) w ne l =
    ap (has_loop (suc fuel) s q p) w.front
    ∙ has_loop-has (suc fuel) s q p x xs w.back w.forward w.distinct (omega arith)
